-- ===== src/Result/Validity.antt =====
-- `evaluateValidity` of internal/result/analyse.go. The text of a message is a parameter: doubles are
-- found by it.
use tracepoint.Base.{
  ◌-◌, ◌/◌, Bool, true, false, ◌&&◌, ◌||◌, Option, none, some, List, [], ◌∷◌, ◌++◌, length, take,
  drop, if◌then◌else◌, ltb, ◌==◌,
}
use tracepoint.Base.Int.{ℤ, pos}
use tracepoint.Base.Float.{Float}
use tracepoint.Base.Text.{Text, codes}
use tracepoint.Metrics.Sketch.{zero_f}
use tracepoint.Policy.Target.{Scope, loopback}
use tracepoint.Result.{
  Status, aborted, Target, ExecutorStats, Summary, Bucket, HttpDetail, Runner, Recorded,
}
use tracepoint.Result.Findings.{
  FindingCode, generator_behind, target_saturated, client_capped, same_host_target, insecure_tls,
  rate_limited, run_aborted, Severity, info, warn, error, severity, Finding, dedupe,
}

pub data State : Type 0 where
  valid degraded invalid : State

pub record Outcome : Type 0 where
  pub state : State
  pub findings : List Finding

abbrev pub is_loopback : Scope → Bool
is_loopback loopback = true
is_loopback _ = false

abbrev pub is_aborted : Status → Bool
is_aborted aborted = true
is_aborted _ = false

-- Any error invalidates and ends the loop, any warning degrades.
abbrev pub worsen : State → Severity → State → State
worsen s info rest = rest
worsen s warn rest = rest
worsen s error rest = invalid

abbrev pub after : State → Severity → State
after s info = s
after s warn = degraded
after s error = invalid

unfoldable pub state_from : State → List Finding → State
state_from s [] = s
state_from s (x ∷ xs) = worsen s (severity x.code) (state_from (after s (severity x.code)) xs)

module _ (f : Float) where
  -- What a message says.
  pub data Saying : Type 0 where
    behind : (name : Text) (lag limit : f.F) → Saying
    dropped_while_rising : (name : Text) (ratio : f.F) → Saying
    dropped_while_flat : (name : Text) (ratio : f.F) → Saying
    shared_host : (host : Text) → Saying
    unverified : Saying
    limited : (ratio : f.F) → Saying
    stopped_early : Saying

  abbrev pub milliseconds : ℤ → f.F
  milliseconds d = f.div (f.of_int d) (f.of_int (pos 1000000))

  -- A twentieth of a bucket, and five milliseconds at least.
  unfoldable pub lag_limit : f.F → f.F
  lag_limit bucket_ms =
      let five = milliseconds (pos 5000000) in
      let share = f.mul bucket_ms (f.lit 5 2) in if f.lt five share then share else five

  unfoldable pub sum_f : f.F → List (f.F) → f.F
  sum_f acc [] = acc
  sum_f acc (x ∷ xs) = sum_f (f.add acc x) xs

  unfoldable pub mean : List (f.F) → f.F
  mean [] = zero_f f
  mean (x ∷ xs) = f.div (sum_f (zero_f f) (x ∷ xs)) (f.of_int (pos (length (x ∷ xs))))

  unfoldable pub measured : List (Bucket f) → List (f.F)
  measured [] = []
  measured (b ∷ bs) =
      let rest = measured bs in
      if b.warmup || (b.insufficient || b.n == 0) then rest else b.service.p99 ∷ rest

  unfoldable pub service_time_rose : Runner f → Bool
  service_time_rose rn =
      let vals = measured rn.buckets in
      let third = length vals / 3 in
      let early = mean (take third vals) in
      let late = mean (drop (length vals - third) vals) in
      if ltb (length vals) 6
      then false
      else if f.le early (zero_f f)
      then f.lt (zero_f f) late
      else f.lt (f.mul early (f.lit 125 2)) late

  abbrev pub is_behind : f.F → ExecutorStats f → Bool
  is_behind limit e = f.lt limit e.dispatch_lag_ms.p99

  abbrev pub has_dropped : ExecutorStats f → Bool
  has_dropped e = f.lt (f.lit 1 2) e.dropped_ratio

  abbrev pub limited_ratio : HttpDetail f → Summary f → f.F
  limited_ratio h s = f.div (f.of_int (pos (h.status_histogram (codes "429")))) (f.of_int (pos s.n))

  abbrev pub is_limited : HttpDetail f → Summary f → Bool
  is_limited h s =
      ltb 0 (h.status_histogram (codes "429"))
      && (ltb 0 s.n && f.lt (f.lit 5 2) (limited_ratio h s))

  module _ (say : Saying → Text) where
    abbrev finding : FindingCode → Saying → List Finding
    finding c m = record { code = c; message = say m } ∷ []

    abbrev pub behind_findings : f.F → Runner f → ExecutorStats f → List Finding
    behind_findings limit rn e =
        if is_behind limit e
        then finding generator_behind (behind rn.name e.dispatch_lag_ms.p99 limit)
        else []

    abbrev pub dropped_findings : Runner f → ExecutorStats f → List Finding
    dropped_findings rn e =
        if has_dropped e
        then (if service_time_rose rn
            then finding target_saturated (dropped_while_rising rn.name e.dropped_ratio)
            else finding client_capped (dropped_while_flat rn.name e.dropped_ratio))
        else []

    -- The first target on this host is enough.
    unfoldable pub host_findings : List Target → List Finding
    host_findings [] = []
    host_findings (t ∷ ts) =
        let rest = host_findings ts in
        if is_loopback t.scope then finding same_host_target (shared_host t.host) else rest

    abbrev pub http_findings : Runner f → Option (HttpDetail f) → List Finding
    http_findings rn none = []
    http_findings rn (some h) =
        (if h.insecure_tls then finding insecure_tls unverified else [])
        ++ (if is_limited h rn.summary
            then finding rate_limited (limited (limited_ratio h rn.summary))
            else [])

    abbrev pub findings_with : f.F → Runner f → Option (ExecutorStats f) → List Finding
    findings_with limit rn none = []
    findings_with limit rn (some e) =
        behind_findings limit rn e
        ++ (dropped_findings rn e ++ (host_findings rn.targets ++ http_findings rn rn.http))

    unfoldable pub runner_findings : f.F → List (Runner f) → List Finding
    runner_findings limit [] = []
    runner_findings limit (rn ∷ rns) =
        findings_with limit rn rn.executor ++ runner_findings limit rns

    abbrev pub aborted_findings : Status → List Finding
    aborted_findings s = if is_aborted s then finding run_aborted stopped_early else []

    unfoldable pub evaluate_validity : Recorded f → Outcome
    evaluate_validity r =
        let found =
          dedupe []
            (runner_findings (lag_limit r.bucket_ms) r.runners ++ aborted_findings r.status) in
        record { state = state_from valid found; findings = found }
