-- ===== src/History.antt =====
-- electron/session/canonical-history.ts: the durable history of a Session.
pub mod Append
pub mod Turn
pub mod Transcript
pub mod Frame
pub mod Compile
