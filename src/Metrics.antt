-- ===== src/Metrics.antt =====
-- internal/metrics: what an operation leaves behind, and how it is collected.
pub mod Outcome
pub mod Sketch
pub mod Accum
pub mod Collector
pub mod Snapshot
