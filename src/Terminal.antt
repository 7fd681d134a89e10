-- ===== src/Terminal.antt =====
-- electron/terminal: the output that a terminal retains, and the text that it shows.
pub mod ByteRing
pub mod Ansi
