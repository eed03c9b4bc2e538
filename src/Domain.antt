-- ===== src/Domain.antt =====
-- packages/domain/src: the attempt, its statuses, and the transitions between them.
pub mod Primitives
pub mod Status
pub mod Attempt
pub mod Transition
