-- ===== src/Metrics/Collector/Interleaved.antt =====
-- Interleaved calls lose no outcome, where no bucket is sealed between a call's check and its filing.
use tracepoint.Base.{ℕ, ◌+◌, ◌≡◌, Option, none, some, List}
use tracepoint.Base.Float.{Float}
use tracepoint.Metrics.Outcome.{Outcome}
use tracepoint.Metrics.Sketch.{Sketches}
use tracepoint.Metrics.Collector.State.{Collector}
use tracepoint.Metrics.Collector.Invariant.{IsValid}
use tracepoint.Metrics.Collector.Kept.{timeline, Kept}
use tracepoint.Metrics.Collector.Recorded.{Recorded}
use tracepoint.Metrics.Collector.Steps.{Item, Shared, outcomes_of, waiting_outcomes}

module _ (f : Float) (k : Sketches f) where
  -- What was taken, and what is left, are the list.
  abbrev Splits : List Item → Option (Item × List Item) → Type 0
  Splits xs none = Unit
  Splits xs (some r) = waiting_outcomes f k xs ≡ outcomes_of f k r.0 + waiting_outcomes f k r.1

  -- The collector stays valid, and its timeline grows by some outcomes.
  pub record Grown (c d : Collector f k) (n : ℕ) : Type 1 where
    pub valid : IsValid f k d
    pub on_timeline : timeline f k d ≡ timeline f k c + n

  -- The outcomes on the timeline and those that wait, together.
  abbrev accounted : Shared f k → ℕ
  accounted s = timeline f k s.collector + waiting_outcomes f k s.pending

  pub record Progress (s t : Shared f k) (n : ℕ) : Type 1 where
    pub valid : IsValid f k t.collector
    pub accounted_for : accounted t ≡ accounted s + n
