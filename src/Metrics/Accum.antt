-- ===== src/Metrics/Accum.antt =====
-- internal/metrics/collector.go, `accum`: one label's observations in one bucket, or in the whole
-- run. The array of error counters is a table over the classes.
pub mod Laws
use Prim.Native.String.{String}
use tracepoint.Base.{
  ℕ, ◌+◌, ◌-◌, Bool, true, false, not, ◌&&◌, ◌||◌, List, [], ◌∷◌, Option, none, some, if◌then◌else◌,
  ltb,
}
use tracepoint.Base.Float.{Float, max_of}
use tracepoint.Base.Int.{ℤ, pos}
use tracepoint.Metrics.Outcome.{
  Class, ok, is_error, class_name, classes, same_class, Outcome, response_time, service_time,
  client_wait,
}
use tracepoint.Metrics.Sketch.{Sketches, Quantiles, zero_f, quantiles_from, merge_sketch}

abbrev pub Counts : Type 0
Counts = Class → ℕ

-- `a.errs[c]++`
abbrev pub bump : Counts → Class → Counts
bump errs c d = if same_class c d then errs d + 1 else errs d

-- The loop that turns the counters into a map: classes that failed, with a count above zero.
unfoldable pub error_entries : Counts → List Class → List (String × ℕ)
error_entries errs [] = []
error_entries errs (c ∷ cs) =
    if ltb 0 (errs c) && is_error c
    then (class_name c, errs c) ∷ error_entries errs cs
    else error_entries errs cs

unfoldable pub error_map : Counts → List (String × ℕ)
unfolding error_entries classes is_error class_name
error_map errs = error_entries errs classes

module _ (f : Float) (k : Sketches f) where
  pub record Accum : Type 0 where
    pub n : ℕ
    pub errs : Counts
    pub bytes_in : ℕ
    pub bytes_out : ℕ
    pub response : k.S
    pub service : k.S
    pub client_wait : k.S
    pub sum_resp : f.F
    pub sum_svc : f.F
    pub sum_wait : f.F
    pub max_resp : f.F
    pub max_svc : f.F
    pub max_wait : f.F
    pub rejected : ℕ

  -- Duration to milliseconds.
  unfoldable pub ms : ℤ → f.F
  ms d = f.div (f.of_int d) (f.of_int (pos 1000000))

  unfoldable pub fresh : k.S → Accum
  fresh s = record {
    n = 0;
    errs = λ c. 0;
    bytes_in = 0;
    bytes_out = 0;
    response = s;
    service = s;
    client_wait = s;
    sum_resp = zero_f f;
    sum_svc = zero_f f;
    sum_wait = zero_f f;
    max_resp = zero_f f;
    max_svc = zero_f f;
    max_wait = zero_f f;
    rejected = 0;
  }

  -- The three sketches are built alike, so the first failure is the only one.
  unfoldable pub new_accum : f.F → Option Accum
  new_accum accuracy = elim (k.new accuracy) [ none ↦ none | some s ↦ some (fresh s) ]

  added : k.S → Option k.S → k.S × Bool
  added s none = (s, false)
  added s (some t) = (t, true)

  -- The sketch and whether the observation was recorded.
  unfoldable pub add_positive : k.S → f.F → k.S × Bool
  unfolding added
  add_positive s v =
      if f.is_nan v || f.is_inf v
      then (s, false)
      else added s (k.add s (if f.lt v (zero_f f) then zero_f f else v))

  unfoldable pub add : Outcome → Accum → Accum
  unfolding add_positive ms response_time service_time client_wait
  add o a =
      let resp = ms (response_time o) in
      let svc = ms (service_time o) in
      let wait = ms (client_wait o) in
      let r = add_positive a.response resp in
      let s = add_positive a.service svc in
      let w = add_positive a.client_wait wait in
      record {
        n = a.n + 1;
        errs = bump a.errs o.class;
        bytes_in = a.bytes_in + o.bytes_in;
        bytes_out = a.bytes_out + o.bytes_out;
        response = r.0;
        service = s.0;
        client_wait = w.0;
        sum_resp = f.add a.sum_resp resp;
        sum_svc = f.add a.sum_svc svc;
        sum_wait = f.add a.sum_wait wait;
        max_resp = max_of f a.max_resp resp;
        max_svc = max_of f a.max_svc svc;
        max_wait = max_of f a.max_wait wait;
        rejected = if r.1 && s.1 && w.1 then a.rejected else a.rejected + 1;
      }

  merged : Accum → Accum → Accum × Bool
  unfolding merge_sketch
  merged a dst =
      let r = merge_sketch f k dst.response a.response in
      let s = merge_sketch f k dst.service a.service in
      let w = merge_sketch f k dst.client_wait a.client_wait in
      (
        record {
          n = dst.n + a.n;
          errs = λ c. dst.errs c + a.errs c;
          bytes_in = dst.bytes_in + a.bytes_in;
          bytes_out = dst.bytes_out + a.bytes_out;
          response = r.0;
          service = s.0;
          client_wait = w.0;
          sum_resp = f.add dst.sum_resp a.sum_resp;
          sum_svc = f.add dst.sum_svc a.sum_svc;
          sum_wait = f.add dst.sum_wait a.sum_wait;
          max_resp = max_of f dst.max_resp a.max_resp;
          max_svc = max_of f dst.max_svc a.max_svc;
          max_wait = max_of f dst.max_wait a.max_wait;
          rejected = dst.rejected + a.rejected;
        },
        r.1 || s.1 || w.1,
      )

  -- `a.mergeInto(dst)`: the destination afterwards, and whether a sketch failed to merge.
  unfoldable pub merge_into : Accum → Accum → Accum × Bool
  unfolding merged
  merge_into a dst = if ltb 0 a.n then merged a dst else (dst, false)

  unfoldable pub reset : Accum → Accum
  reset a = record {
    n = 0;
    errs = λ c. 0;
    bytes_in = 0;
    bytes_out = 0;
    response = k.clear a.response;
    service = k.clear a.service;
    client_wait = k.clear a.client_wait;
    sum_resp = zero_f f;
    sum_svc = zero_f f;
    sum_wait = zero_f f;
    max_resp = zero_f f;
    max_svc = zero_f f;
    max_wait = zero_f f;
    rejected = 0;
  }

  pub record OpSummary : Type 0 where
    pub n : ℕ
    pub ok : ℕ
    pub errors_total : ℕ
    pub error_ratio : f.F
    pub errors : List (String × ℕ)
    pub response : Quantiles f
    pub service : Quantiles f
    pub client_wait : Quantiles f
    pub achieved_rps : f.F
    pub bytes_in : ℕ
    pub bytes_out : ℕ

  -- Duration.Seconds
  unfoldable pub seconds : ℤ → f.F
  seconds d = f.div (f.of_int d) (f.of_int (pos 1000000000))

  -- `window` is never negative. The subtraction is exact: no class counts more than all.
  unfoldable pub summary : ℕ → Accum → OpSummary
  unfolding error_map seconds quantiles_from
  summary window a =
      let failed = a.n - a.errs Class.ok in
      record {
        n = a.n;
        ok = a.errs Class.ok;
        errors_total = failed;
        error_ratio =
            if ltb 0 a.n then f.div (f.of_int (pos failed)) (f.of_int (pos a.n)) else zero_f f;
        errors = error_map a.errs;
        response = quantiles_from f k a.response a.n a.sum_resp a.max_resp;
        service = quantiles_from f k a.service a.n a.sum_svc a.max_svc;
        client_wait = quantiles_from f k a.client_wait a.n a.sum_wait a.max_wait;
        achieved_rps =
            if ltb 0 window then f.div (f.of_int (pos a.n)) (seconds (pos window)) else zero_f f;
        bytes_in = a.bytes_in;
        bytes_out = a.bytes_out;
      }
