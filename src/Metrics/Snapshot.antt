-- ===== src/Metrics/Snapshot.antt =====
-- `Snapshot`, `measuredWindow` and `itoa` of internal/metrics/summary.go, and `sortedBucketIndexes` of
-- internal/metrics/collector.go. The encoded sketches and the timelines of the labels are left out.
pub mod Timeline
pub mod Digits
mod Examples
use Prim.Native.String.{String}
use tracepoint.Base.{
  ℕ, zero, suc, ◌+◌, ◌-◌, ◌*◌, ◌/◌, ◌%◌, Bool, true, false, not, List, [], ◌∷◌, ◌++◌, Option, none,
  some, if◌then◌else◌, ltb, leb, ◌==◌, length,
}
use text.Mathlib.Text.{◌==◌ as str_eq}
use tracepoint.Base.Float.{Float}
use tracepoint.Base.Int.{pos}
use tracepoint.Base.Text.{Text, codes}
use tracepoint.Metrics.Sketch.{Sketches, Quantiles, zero_f}
use tracepoint.Metrics.Accum.{Accum, OpSummary, summary}
use tracepoint.Metrics.Collector.State.{overflow_label, Kind, Collector, BucketSummary, width}
use tracepoint.Metrics.Collector.Maps.{lookup}

unfoldable pub insert_index : ℕ → List ℕ → List ℕ
insert_index i [] = i ∷ []
insert_index i (j ∷ js) = let rest = insert_index i js in if leb i j then i ∷ j ∷ js else j ∷ rest

-- The keys of a map in order.
unfoldable pub sorted_bucket_indexes {ℓ} : {V : Type ℓ} → List (ℕ × V) → List ℕ
sorted_bucket_indexes [] = []
sorted_bucket_indexes ((i, v) ∷ m) = insert_index i (sorted_bucket_indexes m)

abbrev pub last_of : ℕ → List ℕ → ℕ
last_of d [] = d
last_of d (x ∷ xs) = last_of x xs

-- The loop of itoa over its buffer of that many bytes: one digit more panics.
unfoldable pub digits : ℕ → ℕ → Text → Option Text
digits room zero acc = some acc
digits zero (suc i) acc = none
digits (suc room) (suc i) acc = digits room (suc i / 10) ((48 + suc i % 10) ∷ acc)

unfoldable pub itoa : ℕ → Option Text
itoa i = if i == 0 then some (codes "0") else digits 8 i []

module _ (f : Float) (k : Sketches f) where
  -- A bucket without a summary.
  abbrev pub gap : Collector f k → ℕ → BucketSummary f k
  gap c i = record {
    index = i;
    offset_ms = f.of_int (pos (i * width f k c / 1000000));
    n = 0;
    insufficient = true;
    warmup = ltb i c.warmup_buckets;
    response = no_times;
    service = no_times;
    client_wait = no_times;
    errors = [];
    errors_total = 0;
    rps = zero_f f;
    offered = 0;
    dropped = 0;
    in_flight_max = 0;
    bytes_in = 0;
  }
    where
      no_times : Quantiles f
      no_times = record {
        p50 = zero_f f;
        p90 = zero_f f;
        p95 = zero_f f;
        p99 = zero_f f;
        p999 = zero_f f;
        max = zero_f f;
        mean = zero_f f;
      }

  abbrev pub bucket_or : Collector f k → ℕ → Option (BucketSummary f k) → BucketSummary f k
  bucket_or c i none = gap c i
  bucket_or c i (some b) = b

  abbrev pub entry_at : Collector f k → ℕ → BucketSummary f k
  entry_at c i = bucket_or c i (lookup i c.buckets)

  -- So many buckets from one on.
  unfoldable pub buckets_from : Collector f k → ℕ → ℕ → List (BucketSummary f k)
  buckets_from c i zero = []
  buckets_from c i (suc n) = entry_at c i ∷ buckets_from c (suc i) n

  abbrev pub span : Collector f k → List ℕ → List (BucketSummary f k)
  span c [] = []
  span c (first ∷ is) = buckets_from c first (suc (last_of first is) - first)

  unfoldable pub timeline : Collector f k → List (BucketSummary f k)
  timeline c = span c (sorted_bucket_indexes c.buckets)

  unfoldable pub measured_window : Collector f k → ℕ
  measured_window c =
      if not c.seen_any
      then 0
      else if ltb (c.max_bucket + 1) c.warmup_buckets
      then 0
      else (c.max_bucket + 1 - c.warmup_buckets) * width f k c

  -- The labels that completed something.
  unfoldable pub label_summaries :
      Collector f k → ℕ → ℕ → List String → List (String × OpSummary f k)
  label_summaries c window id [] = []
  label_summaries c window id (name ∷ names) =
      let s = summary f k window (c.whole_labels id) in
      let rest = label_summaries c window (suc id) names in
      if s.n == 0 then rest else (name, s) ∷ rest

  -- The statuses below a code that were seen; a name that does not fit panics.
  unfoldable pub statuses_below : Collector f k → ℕ → List (Option Text × ℕ)
  statuses_below c zero = []
  statuses_below c (suc code) =
      let rest = statuses_below c code in
      let n = c.statuses code in if ltb 0 n then rest ++ ((itoa code, n) ∷ []) else rest

  unfoldable pub status_histogram : Collector f k → List (Option Text × ℕ)
  status_histogram c =
      let codes_seen = statuses_below c 600 in
      if not c.cfg.track_statuses
      then []
      else if ltb 0 c.statuses_other
      then codes_seen ++ ((some (codes "other"), c.statuses_other) ∷ [])
      else codes_seen

  pub record Snapshot : Type 0 where
    pub runner : String
    pub kind : Kind
    pub labels : List String
    pub summary : OpSummary f k
    pub label_summaries : List (String × OpSummary f k)
    pub buckets : List (BucketSummary f k)
    pub status_histogram : List (Option Text × ℕ)
    pub late : ℕ
    pub label_overflow : Bool
    pub label_timeline_dropped : Bool
    pub rejected : ℕ
    pub merge_failures : ℕ
    pub measured_window : ℕ

  -- The names without the overflow label, where that is the last.
  abbrev pub without_overflow : List String → List String
  without_overflow [] = []
  without_overflow (name ∷ []) = if str_eq name overflow_label then [] else name ∷ []
  without_overflow (name ∷ next ∷ names) = name ∷ without_overflow (next ∷ names)

  -- `Labels` of internal/metrics/collector.go.
  unfoldable pub reported_labels : Collector f k → List String
  reported_labels c = if c.overflowed then c.label_names else without_overflow c.label_names

  unfoldable pub snapshot : Collector f k → Snapshot
  snapshot c =
      let window = measured_window c in
      record {
        runner = c.cfg.runner;
        kind = c.cfg.kind;
        labels = reported_labels c;
        summary = summary f k window c.whole_runner;
        label_summaries = label_summaries c window 0 c.label_names;
        buckets = timeline c;
        status_histogram = status_histogram c;
        late = c.late;
        label_overflow = c.overflowed;
        label_timeline_dropped = c.label_timeline_dropped;
        rejected = c.whole_runner.rejected;
        merge_failures = c.merge_failures;
        measured_window = window;
      }
