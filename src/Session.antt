-- ===== src/Session.antt =====
-- What a Session keeps besides its history: electron/session.
pub mod Interjections
pub mod WakeupGate
