-- ===== src/Engine.antt =====
-- internal/engine: what stops a run early.
pub mod Guard
