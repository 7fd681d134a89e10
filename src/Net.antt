-- ===== src/Net.antt =====
-- Requests to the network on the model's behalf: electron/net.
pub mod Address
pub mod Body
pub mod Request
pub mod Fetch
