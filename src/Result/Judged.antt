-- ===== src/Result/Judged.antt =====
-- When a run is invalid, and when it is valid.
use tracepoint.Base.{
  Bool, true, false, not, ◌&&◌, ◌||◌, ◌≡◌, refl, ◌∙◌, Option, none, some, List, [], ◌∷◌, any, arith,
}
use tracepoint.Base.Float.{Float}
use tracepoint.Base.Text.{Text}
use tracepoint.Result.{ExecutorStats, HttpDetail, Runner, Recorded}
use tracepoint.Result.Findings.{
  FindingCode, generator_behind, Severity, info, warn, error, severity, Finding,
}
use tracepoint.Result.Validity.{
  State, valid, degraded, invalid, state_from, worsen, after, Saying, lag_limit, evaluate_validity,
  findings_with, is_behind, has_dropped, service_time_rose, is_limited, is_loopback,
}
use tracepoint.Result.Among.{
  among, http_told, among-if, among-host, among-http, among-dropped, among-found, among-all,
}

abbrev pub is_error : FindingCode → Bool
is_error c = elim (severity c) [ error ↦ true | _ ↦ false ]

abbrev is_bad : FindingCode → Bool
is_bad c = elim (severity c) [ info ↦ false | _ ↦ true ]

abbrev pub is_invalid : State → Bool
is_invalid invalid = true
is_invalid valid = false
is_invalid degraded = false

abbrev pub is_valid : State → Bool
is_valid valid = true
is_valid degraded = false
is_valid invalid = false

state_from-invalid :
    (s : State) (xs : List Finding)
    → is_invalid s ≡ false
    → is_invalid (state_from s xs) ≡ any (λ x. is_error x.code) xs
unfolding state_from any
state_from-invalid s [] z = z
state_from-invalid s (x ∷ xs) z = go (severity x.code) (λ t k. state_from-invalid t xs k)
  where
    go :
        (v : Severity)
        → ((t : State)
            → is_invalid t ≡ false
            → is_invalid (state_from t xs) ≡ any (λ y. is_error y.code) xs)
        → is_invalid (worsen s v (state_from (after s v) xs))
          ≡ (elim v as (λ _. Bool) [ error ↦ true | _ ↦ false ] || any (λ y. is_error y.code) xs)
    go info h = h s z
    go warn h = h degraded refl
    go error h = refl

module _ (f : Float) where
  -- A runner whose numbers describe the generator.
  abbrev untrusted_by : f.F → Runner f → Option (ExecutorStats f) → Bool
  untrusted_by limit rn none = false
  untrusted_by limit rn (some e) =
      is_behind f limit e || (has_dropped f e && not (service_time_rose f rn))

  abbrev pub is_untrusted : f.F → Runner f → Bool
  is_untrusted limit rn = untrusted_by limit rn rn.executor

  abbrev http_concerned : Runner f → Option (HttpDetail f) → Bool
  http_concerned rn none = false
  http_concerned rn (some h) = h.insecure_tls || is_limited f h rn.summary

  abbrev concerned_by : f.F → Runner f → Option (ExecutorStats f) → Bool
  concerned_by limit rn none = false
  concerned_by limit rn (some e) =
      is_behind f limit e
      || (has_dropped f e
          || (any (λ t. is_loopback t.scope) rn.targets || http_concerned rn rn.http))

  -- A runner that the analysis has something to say about.
  abbrev pub is_concerned : f.F → Runner f → Bool
  is_concerned limit rn = concerned_by limit rn rn.executor

module _ (f : Float) (say : Saying f → Text) where
  http_told-is_error :
      (rn : Runner f) (h : Option (HttpDetail f)) → http_told f say is_error rn h ≡ false
  http_told-is_error rn none = refl
  http_told-is_error rn (some d) = ground arith

  is_error-found :
      (limit : f.F) (rn : Runner f)
      → among f say is_error (findings_with f say limit rn rn.executor) ≡ is_untrusted f limit rn
  unfolding any
  is_error-found limit rn = go rn.executor
    where
      go :
          (e : Option (ExecutorStats f))
          → among f say is_error (findings_with f say limit rn e) ≡ untrusted_by f limit rn e
      go none = refl
      go (some e) =
          among-found f say is_error limit rn e
          ∙ rw
              (
                among-if f say is_error (is_behind f limit e) generator_behind _,
                among-dropped f say is_error rn e,
                among-host f say is_error rn.targets,
                among-http f say is_error rn rn.http,
              )
              (ground (arith, http_told-is_error rn rn.http))

  -- A run is found invalid exactly when some runner with an executor dispatched late, its lag at p99
  -- being above the limit, or dropped more than a hundredth of its arrivals while its service time did
  -- not rise.
  pub evaluate_validity-invalid :
      (r : Recorded f)
      → is_invalid (evaluate_validity f say r).state
        ≡ any (is_untrusted f (lag_limit f r.bucket_ms)) r.runners
  unfolding evaluate_validity
  evaluate_validity-invalid r =
      state_from-invalid valid _ refl
      ∙ (among-all f say is_error (is_untrusted f (lag_limit f r.bucket_ms)) r
            (is_error-found (lag_limit f r.bucket_ms))
          ∙ ground arith)
