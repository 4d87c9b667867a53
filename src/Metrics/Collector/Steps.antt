-- ===== src/Metrics/Collector/Steps.antt =====
-- The calls of internal/metrics/collector.go as they interleave. `Record` and the executor's counters
-- note the bucket and compare it with the sealed ones first, outside every lock, and reach for the slot
-- later, under its lock; anything may happen in between. `SealThrough` locks one slot at a time.
use tracepoint.Base.{
  ℕ, zero, suc, ◌+◌, Bool, true, false, not, ◌&&◌, Option, none, some, List, [], ◌∷◌,
}
use tracepoint.Base.Float.{Float}
use tracepoint.Metrics.Outcome.{Outcome}
use tracepoint.Metrics.Sketch.{Sketches}
use tracepoint.Metrics.Collector.State.{Collector, Slot, covered, bucket_index_of}
use tracepoint.Metrics.Collector.Recording.{
  set_slot, place, claim, clamp_label, note_status, note_bucket, record_late, file, seal_if_due,
  count_offered, count_dropped, peak_in_flight,
}

-- A call of a worker or of the arrival loop.
pub data Item : Type 0 where
  recording : Outcome → Item
  offering dropping : ℕ → Item
  observing : ℕ → ℕ → Item

-- A call begins, with its check; one that passed it goes on, given by its place among those that
-- did; the sweeper visits a slot.
pub data Step : Type 0 where
  check : Item → Step
  go_on : ℕ → Step
  visit : (now i : ℕ) → Step

unfoldable pub take_at {ℓ} : {A : Type ℓ} → ℕ → List A → Option (A × List A)
take_at i [] = none
take_at zero (x ∷ xs) = some (x, xs)
take_at (suc i) (x ∷ xs) = elim (take_at i xs) [ none ↦ none | some r ↦ some (r.0, x ∷ r.1) ]

module _ (f : Float) (k : Sketches f) where
  -- The collector, and the calls that passed their check.
  pub record Shared : Type 0 where
    pub collector : Collector f k
    pub pending : List Item

  abbrev pub bucket_of : Item → Collector f k → ℕ
  bucket_of (recording o) c = bucket_index_of f k c o.intended
  bucket_of (offering i) c = i
  bucket_of (dropping i) c = i
  bucket_of (observing i n) c = i

  abbrev pub noted : Item → ℕ → Collector f k → Collector f k
  noted (recording o) idx c = note_bucket f k idx (note_status f k o c)
  noted _ idx c = note_bucket f k idx c

  -- What a call does whose bucket is sealed at its check.
  abbrev pub refused : Item → ℕ → Collector f k → Collector f k
  refused (recording o) idx c = record_late f k (clamp_label f k c o.label) o idx c
  refused _ idx c = c

  abbrev pub counted :
      (Slot f k → Slot f k) → ℕ → Collector f k → Option (Collector f k) → Collector f k
  counted apply idx c none = c
  counted apply idx c (some d) = set_slot f k (place f k c idx) (apply (d.ring (place f k c idx))) d

  -- What a call does with the slot.
  abbrev pub acted : Item → ℕ → Collector f k → Collector f k
  acted (recording o) idx c = file f k (clamp_label f k c o.label) o idx c
  acted (offering i) idx c = counted (count_offered f k) idx c (claim f k idx c)
  acted (dropping i) idx c = counted (count_dropped f k) idx c (claim f k idx c)
  acted (observing i n) idx c = counted (peak_in_flight f k n) idx c (claim f k idx c)

  abbrev pub checked : Item → ℕ → List Item → Collector f k → Bool → Shared
  checked it idx waiting c true = record { collector = refused it idx c; pending = waiting }
  checked it idx waiting c false = record { collector = c; pending = it ∷ waiting }

  abbrev pub gone_on : Shared → Option (Item × List Item) → Shared
  gone_on s none = s
  gone_on s (some (it, rest)) = record {
    collector = acted it (bucket_of it s.collector) s.collector;
    pending = rest;
  }

  unfoldable pub advance : Step → Shared → Shared
  advance (check it) s =
      let idx = bucket_of it s.collector in
      let c = noted it idx s.collector in checked it idx s.pending c (covered c.sealed_above idx)
  advance (go_on i) s = gone_on s (take_at i s.pending)
  advance (visit now i) s = record s { collector = seal_if_due f k now i s.collector }

  unfoldable pub run_steps : List Step → Shared → Shared
  run_steps [] s = s
  run_steps (x ∷ xs) s = run_steps xs (advance x s)

  -- The bucket of a call that goes on has not been sealed since its check.
  abbrev pub is_open_for : Shared → Option (Item × List Item) → Bool
  is_open_for s none = true
  is_open_for s (some (it, rest)) =
      not (covered s.collector.sealed_above (bucket_of it s.collector))

  abbrev pub is_on_time : Step → Shared → Bool
  is_on_time (go_on i) s = is_open_for s (take_at i s.pending)
  is_on_time _ s = true

  unfoldable pub all_on_time : List Step → Shared → Bool
  all_on_time [] s = true
  all_on_time (x ∷ xs) s = is_on_time x s && all_on_time xs (advance x s)

  abbrev pub outcomes_of : Item → ℕ
  outcomes_of (recording o) = 1
  outcomes_of _ = 0

  -- The outcomes among some calls, and those whose recording began.
  unfoldable pub waiting_outcomes : List Item → ℕ
  waiting_outcomes [] = 0
  waiting_outcomes (it ∷ rest) = outcomes_of it + waiting_outcomes rest

  abbrev pub begun_by : Step → ℕ
  begun_by (check it) = outcomes_of it
  begun_by _ = 0

  unfoldable pub begun : List Step → ℕ
  begun [] = 0
  begun (x ∷ xs) = begun_by x + begun xs
