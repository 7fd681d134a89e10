-- ===== src/Subagent.antt =====
-- Child Agents: electron/subagent.
pub mod Capacity
pub mod Deadline
