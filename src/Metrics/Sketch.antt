-- ===== src/Metrics/Sketch.antt =====
-- internal/metrics/sketch.go: quantiles read from a relative-error sketch. The sketch is the
-- third-party DDSketch: a parameter, with a failed call as `none` that leaves the sketch alone.
use tracepoint.Base.{ℕ, Bool, true, false, ◌||◌, Option, none, some, if◌then◌else◌, ltb}
use tracepoint.Base.Float.{Float}
use tracepoint.Base.Int.{pos}

pub record Sketches (f : Float) : Type 1 where
  pub S : Type 0
  -- NewLogarithmicMapping and NewDDSketch, at a relative accuracy
  pub new : f.F → Option S
  pub add : S → f.F → Option S
  pub clear : S → S
  pub merge : S → S → Option S
  pub empty : S → Bool
  pub quantile : S → f.F → Option f.F

module _ (f : Float) where
  pub record Quantiles : Type 0 where
    pub p50 : f.F
    pub p90 : f.F
    pub p95 : f.F
    pub p99 : f.F
    pub p999 : f.F
    pub max : f.F
    pub mean : f.F

  abbrev pub zero_f : f.F
  zero_f = f.of_int (pos 0)

  module _ (k : Sketches f) where
    -- The closure `read`.
    read_value : Option f.F → f.F
    read_value none = zero_f
    read_value (some v) = if f.is_nan v || f.lt v zero_f then zero_f else v

    -- The sketch pointer is never nil where the collector calls this.
    unfoldable pub quantiles_from : k.S → ℕ → f.F → f.F → Quantiles
    unfolding read_value
    quantiles_from s count sum max_value =
        let mean = if ltb 0 count then f.div sum (f.of_int (pos count)) else zero_f in
        let read =
          λ (n : ℕ) (d : ℕ). if k.empty s then zero_f else read_value (k.quantile s (f.lit n d)) in
        record {
          p50 = read 50 2;
          p90 = read 90 2;
          p95 = read 95 2;
          p99 = read 99 2;
          p999 = read 999 3;
          max = max_value;
          mean = mean;
        }

    -- The sketch and whether the call failed.
    unfoldable pub merge_sketch : k.S → k.S → k.S × Bool
    merge_sketch dst src =
        if k.empty src
        then (dst, false)
        else elim (k.merge dst src) [ none ↦ (dst, true) | some s ↦ (s, false) ]
