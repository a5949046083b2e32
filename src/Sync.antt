-- ===== src/Sync.antt =====
-- internal/sync: the two-way reconcile engine.
pub mod State
pub mod Decide
pub mod Plan
