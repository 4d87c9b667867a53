-- ===== src/Metrics/Collector.antt =====
-- internal/metrics/collector.go, `Collector`, one critical section at a time: each call is a function
-- on the collector's state, and the locks order the calls. The ring and the label arrays are tables
-- over their index; an index of -1 (a free slot, nothing sealed yet) is `none`.
pub mod State
pub mod Sealing
pub mod Recording
pub mod Invariant
pub mod SealLaws
pub mod SealLoop
pub mod SealSlot
pub mod Preserves
pub mod Kept
pub mod Claim
pub mod Recorded
pub mod Conservation
pub mod Start
pub mod Runs
pub mod Totals
pub mod Steps
pub mod Interleaved
pub mod Examples
pub mod Maps
