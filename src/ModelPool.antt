-- ===== src/ModelPool.antt =====
-- The pool of models that child Agents run on: electron/model-pool.
pub mod Allocator
