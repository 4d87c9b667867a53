-- ===== src/Executor/Lag.antt =====
-- internal/executor/lag.go: how late arrivals were dispatched. A failed Add of the sketch is `none`.
use tracepoint.Base.{ℕ, ◌+◌, Option, none, some, if◌then◌else◌, ltb}
use tracepoint.Base.Int.{pos}
use tracepoint.Base.Float.{Float}
use tracepoint.Errs.{Result, ok, err, error, internal}
use tracepoint.Metrics.Sketch.{Sketches, Quantiles, zero_f}

module _ (f : Float) (k : Sketches f) where
  pub record LagTracker : Type 0 where
    pub sketch : k.S
    pub n : ℕ
    pub sum : f.F
    pub max : f.F

  -- The accuracy is metrics.DefaultRelativeAccuracy.
  unfoldable pub new_lag_tracker : Result LagTracker
  new_lag_tracker = elim (k.new (f.lit 1 2)) as (λ _. Result LagTracker) [
    | none ↦ err (error internal "")
    | some s ↦ ok (record { sketch = s; n = 0; sum = zero_f f; max = zero_f f })
  ]

  abbrev pub added : f.F → Option k.S → LagTracker → LagTracker
  added ms none l = l
  added ms (some s) l = record {
    sketch = s;
    n = l.n + 1;
    sum = f.add l.sum ms;
    max = if f.lt l.max ms then ms else l.max;
  }

  -- A delay in nanoseconds.
  unfoldable pub add_lag : ℕ → LagTracker → LagTracker
  add_lag d l =
      let t = f.div (f.of_int (pos d)) (f.of_int (pos 1000000)) in
      let ms = if f.lt t (zero_f f) then zero_f f else t in added ms (k.add l.sketch ms) l

  -- The closure `read`.
  read_value : Option f.F → f.F
  read_value none = zero_f f
  read_value (some v) = if f.lt v (zero_f f) then zero_f f else v

  unfoldable pub lag_quantiles : LagTracker → Quantiles f
  unfolding read_value
  lag_quantiles l =
      let mean = if ltb 0 l.n then f.div l.sum (f.of_int (pos l.n)) else zero_f f in
      let read = λ (n : ℕ) (d : ℕ).
        if k.empty l.sketch then zero_f f else read_value (k.quantile l.sketch (f.lit n d)) in
      record {
        p50 = read 5 1;
        p90 = read 9 1;
        p95 = read 95 2;
        p99 = read 99 2;
        p999 = read 999 3;
        max = l.max;
        mean = mean;
      }
