-- ===== src/Swarm.antt =====
-- Jobs of several workers: electron/swarm.
pub mod Results
