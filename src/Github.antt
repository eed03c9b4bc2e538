-- ===== src/Github.antt =====
-- packages/github/src.
pub mod RequestPolicy
