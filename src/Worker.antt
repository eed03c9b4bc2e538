-- ===== src/Worker.antt =====
-- apps/worker/src.
pub mod Reader
