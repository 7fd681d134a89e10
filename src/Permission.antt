-- ===== src/Permission.antt =====
-- Which tool calls may run: electron/permission.
pub mod Policy
pub mod Call
pub mod Remember
pub mod Signals
pub mod Pipeline
