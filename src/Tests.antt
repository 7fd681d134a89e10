-- ===== src/Tests.antt =====
-- The theorems at concrete inputs, taken from how the repository's code is called.
mod HistoryTest
mod PermissionTest
mod SubagentTest
mod ModelPoolTest
mod ProviderTest
mod TerminalTest
mod DataTest
mod PatchTest
mod PipelineTest
mod NetTest
mod SessionTest
mod SwarmTest
mod DeadlineTest
