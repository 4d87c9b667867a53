-- ===== src/Metrics/Collector/State.antt =====
-- The collector's configuration, its state, and the state of one ring slot.
use Prim.Native.String.{String}
use text.Mathlib.Text.{◌==◌ as str_eq}
use tracepoint.Base.{
  ℕ, ◌+◌, ◌-◌, ◌/◌, Bool, true, false, List, [], ◌∷◌, ◌++◌, Option, none, some, if◌then◌else◌, ltb,
  leb, ◌==◌, length, any,
}
use tracepoint.Base.Float.{Float}
use tracepoint.Base.Int.{ℤ, pos, negsuc, pos_part}
use tracepoint.Errs.{Result, ok, err, error, config_invalid_value, internal}
use tracepoint.Metrics.Sketch.{Sketches, Quantiles, zero_f}
use tracepoint.Metrics.Accum.{Accum, new_accum}

abbrev pub max_labels : ℕ
max_labels = 50

abbrev pub overflow_label : String
overflow_label = "other"

abbrev pub default_label_timeline_budget : ℤ
default_label_timeline_budget = pos 20000

pub data Kind : Type 0 where
  unset app storage : Kind

-- `n <= 0` and `n < 0` of a signed number.
abbrev pub not_positive : ℤ → Bool
not_positive (pos n) = n == 0
not_positive (negsuc n) = true

abbrev pub negative : ℤ → Bool
negative (pos n) = false
negative (negsuc n) = true

-- Whether a bucket index is at or below the highest sealed one.
abbrev pub covered : Option ℕ → ℕ → Bool
covered none i = false
covered (some m) i = leb i m

abbrev pub raise : Option ℕ → ℕ → Option ℕ
raise none i = some i
raise (some m) i = if leb i m then some m else some i

-- The loop over the configured labels: a repeated name is skipped, and past the cap it breaks off.
unfoldable pub take_labels : List String → List String → List String × Bool
take_labels names [] = (names, false)
take_labels names (x ∷ xs) =
    if leb max_labels (length names)
    then (names, true)
    else take_labels (if any (λ y. str_eq y x) names then names else names ++ x ∷ []) xs

-- A name's place in the list.
unfoldable pub position : String → List String → Option ℕ
position x [] = none
position x (y ∷ ys) =
    if str_eq y x then some 0 else elim (position x ys) [ none ↦ none | some i ↦ some (i + 1) ]

module _ (f : Float) (k : Sketches f) where
  pub record Config : Type 0 where
    pub runner : String
    pub kind : Kind
    pub labels : List String
    pub bucket_width : ℤ
    pub warmup : ℤ
    pub seal_delay : ℤ
    pub min_samples : ℤ
    pub relative_accuracy : f.F
    pub label_timeline_budget : ℤ
    pub track_statuses : Bool

  unfoldable pub with_defaults : Config → Config
  with_defaults c = record c {
    relative_accuracy =
        if f.le c.relative_accuracy (zero_f f) then f.lit 1 2 else c.relative_accuracy;
    min_samples = if not_positive c.min_samples then pos 20 else c.min_samples;
    label_timeline_budget = elim c.label_timeline_budget [
      | pos n ↦ if n == 0 then default_label_timeline_budget else pos n
      | negsuc n ↦ negsuc n
    ];
    kind = elim c.kind [ unset ↦ app | app ↦ app | storage ↦ storage ];
  }

  unfoldable pub validate : Config → Result Config
  validate c =
      if str_eq c.runner ""
      then err (error internal "")
      else if not_positive c.bucket_width
      then err (error config_invalid_value "/run/bucket")
      else if negative c.warmup
      then err (error config_invalid_value "/run/warmup")
      else if negative c.seal_delay
      then err (error config_invalid_value "/run/timeout")
      else ok c

  pub record BucketSummary : Type 0 where
    pub index : ℕ
    pub offset_ms : f.F
    pub n : ℕ
    pub insufficient : Bool
    pub warmup : Bool
    pub response : Quantiles f
    pub service : Quantiles f
    pub client_wait : Quantiles f
    pub errors : List (String × ℕ)
    pub errors_total : ℕ
    pub rps : f.F
    pub offered : ℕ
    pub dropped : ℕ
    pub in_flight_max : ℕ
    pub bytes_in : ℕ

  pub record Slot : Type 0 where
    pub index : Option ℕ
    pub labels : ℕ → Accum f k
    pub offered : ℕ
    pub dropped : ℕ
    pub in_flight_max : ℕ

  pub record Collector : Type 0 where
    pub cfg : Config
    pub label_names : List String
    pub overflowed : Bool
    pub warmup_buckets : ℕ
    pub ring_size : ℕ
    pub ring : ℕ → Slot
    pub statuses : ℕ → ℕ  -- 600 entries
    pub statuses_other : ℕ
    pub late : ℕ
    pub merge_failures : ℕ
    pub min_bucket : ℕ
    pub max_bucket : ℕ
    pub seen_any : Bool
    pub sealed_above : Option ℕ
    pub whole_runner : Accum f k
    pub whole_labels : ℕ → Accum f k
    pub buckets : List (ℕ × BucketSummary)
    pub label_buckets : ℕ → List BucketSummary
    pub label_timeline_entries : ℕ
    pub label_timeline_dropped : Bool

  -- The bucket width, positive once validated.
  abbrev pub width : Collector → ℕ
  width c = pos_part c.cfg.bucket_width

  abbrev pub label_count : Collector → ℕ
  label_count c = length c.label_names

  abbrev pub overflow_id : Collector → ℕ
  overflow_id c = label_count c - 1

  unfoldable pub free_slot : Accum f k → Slot
  free_slot a = record {
    index = none;
    labels = λ i. a;
    offered = 0;
    dropped = 0;
    in_flight_max = 0;
  }

  unfoldable pub initial : Config → List String → Bool → Accum f k → Collector
  initial cfg names over a =
      let w = pos_part cfg.bucket_width in
      let size = pos_part cfg.seal_delay / w + 2 + 2 in
      record {
        cfg = cfg;
        label_names = names ++ overflow_label ∷ [];
        overflowed = over;
        warmup_buckets = (pos_part cfg.warmup + w - 1) / w;
        ring_size = if ltb size 4 then 4 else size;
        ring = λ i. free_slot a;
        statuses = λ i. 0;
        statuses_other = 0;
        late = 0;
        merge_failures = 0;
        min_bucket = 0;
        max_bucket = 0;
        seen_any = false;
        sealed_above = none;
        whole_runner = a;
        whole_labels = λ i. a;
        buckets = [];
        label_buckets = λ i. [];
        label_timeline_entries = 0;
        label_timeline_dropped = false;
      }

  unfoldable pub built : Config → List String × Bool → Option (Accum f k) → Result Collector
  built cfg (names, over) none = err (error internal "")
  built cfg (names, over) (some a) = ok (initial cfg names over a)

  -- A warm-up of 0 rounds up to no bucket.
  unfoldable pub new_collector : Config → Result Collector
  new_collector cfg0 = elim (validate (with_defaults cfg0)) [
    | err e ↦ err e
    | ok cfg ↦ built cfg (take_labels [] cfg.labels) (new_accum f k cfg.relative_accuracy)
  ]

  -- A name's identifier; an unknown one goes to the overflow label and is noted. The name of the
  -- overflow label itself always means that label.
  unfoldable pub label_id : String → Collector → Collector × ℕ
  label_id name c =
      if str_eq name overflow_label
      then (c, overflow_id c)
      else elim (position name c.label_names) [
        | some i ↦ (c, i)
        | none ↦ (record c { overflowed = true }, overflow_id c)
      ]

  unfoldable pub bucket_index_of : Collector → ℤ → ℕ
  bucket_index_of c (pos t) = t / width c
  bucket_index_of c (negsuc t) = 0
