-- ===== src/Result/Among.antt =====
-- Which kinds of findings a run has, for any choice of kinds.
use tracepoint.Base.{
  Bool, true, false, ◌&&◌, ◌||◌, ◌≡◌, refl, ap, ◌∙◌, Option, none, some, List, [], ◌∷◌, any,
  any-append, arith, if◌then◌else◌, Bool-cases, inl, inr,
}
use tracepoint.Base.Float.{Float}
use tracepoint.Base.Text.{Text}
use tracepoint.Result.{Target, ExecutorStats, HttpDetail, Runner, Recorded}
use tracepoint.Result.Findings.{
  FindingCode, target_saturated, client_capped, same_host_target, insecure_tls, rate_limited,
  run_aborted, Finding, any-dedupe,
}
use tracepoint.Result.Validity.{
  Saying, unverified, stopped_early, lag_limit, evaluate_validity, runner_findings, findings_with,
  behind_findings, dropped_findings, host_findings, http_findings, has_dropped, service_time_rose,
  is_limited, is_loopback, is_aborted,
}

module _ (f : Float) (say : Saying f → Text) where
  module _ (q : FindingCode → Bool) where
    abbrev pub among : List Finding → Bool
    among xs = any (λ x. q x.code) xs

    pub among-if :
        (b : Bool) (c : FindingCode) (m : Text)
        → among (if b then record { code = c; message = m } ∷ [] else []) ≡ (b && q c)
    unfolding any
    among-if true c m = ground arith
    among-if false c m = refl

    pub among-host :
        (ts : List Target)
        → among (host_findings f say ts) ≡ (any (λ t. is_loopback t.scope) ts && q same_host_target)
    unfolding any host_findings
    among-host [] = refl
    among-host (t ∷ ts) = elim (Bool-cases (is_loopback t.scope)) [
      | inl e ↦ rw e (ground arith)
      | inr e ↦ rw e (among-host ts)
    ]

    abbrev pub http_told : Runner f → Option (HttpDetail f) → Bool
    http_told rn none = false
    http_told rn (some d) =
        (d.insecure_tls && q insecure_tls) || (is_limited f d rn.summary && q rate_limited)

    pub among-http :
        (rn : Runner f) (h : Option (HttpDetail f))
        → among (http_findings f say rn h) ≡ http_told rn h
    unfolding any
    among-http rn none = refl
    among-http rn (some d) =
        any-append {A = Finding} (λ x. q x.code) (if d.insecure_tls then _ else []) _
        ∙ ground (
          arith,
          among-if d.insecure_tls insecure_tls (say unverified),
          among-if (is_limited f d rn.summary) rate_limited _,
        )

    pub among-dropped :
        (rn : Runner f) (e : ExecutorStats f)
        → among (dropped_findings f say rn e) ≡ (
            has_dropped f e
            && (if service_time_rose f rn then q target_saturated else q client_capped))
    unfolding any
    among-dropped rn e = elim (Bool-cases (has_dropped f e)) [
      | inr a ↦ rw a refl
      | inl a ↦ rw a (elim (Bool-cases (service_time_rose f rn)) [
        | inl b ↦ rw b (ground arith)
        | inr b ↦ rw b (ground arith)
      ])
    ]

    pub among-found :
        (limit : f.F) (rn : Runner f) (e : ExecutorStats f)
        → among (findings_with f say limit rn (some e)) ≡ (
            among (behind_findings f say limit rn e)
            || (among (dropped_findings f say rn e)
                || (among (host_findings f say rn.targets)
                    || among (http_findings f say rn rn.http))))
    among-found limit rn e =
        any-append {A = Finding} (λ x. q x.code) (behind_findings f say limit rn e) _
        ∙ ap (λ b. among (behind_findings f say limit rn e) || b)
            (any-append {A = Finding} (λ x. q x.code) (dropped_findings f say rn e) _
              ∙ ap (λ b. among (dropped_findings f say rn e) || b)
                  (any-append {A = Finding} (λ x. q x.code) (host_findings f say rn.targets)
                    (http_findings f say rn rn.http)))

    among-runners :
        (limit : f.F) (p : Runner f → Bool) (rns : List (Runner f))
        → ((rn : Runner f) → among (findings_with f say limit rn rn.executor) ≡ p rn)
        → among (runner_findings f say limit rns) ≡ any p rns
    unfolding any runner_findings
    among-runners limit p [] h = refl
    among-runners limit p (rn ∷ rns) h =
        any-append {A = Finding} (λ x. q x.code) (findings_with f say limit rn rn.executor) _
        ∙ ground (arith, h rn, among-runners limit p rns h)

    pub among-all :
        (p : Runner f → Bool) (r : Recorded f)
        → ((rn : Runner f)
            → among (findings_with f say (lag_limit f r.bucket_ms) rn rn.executor) ≡ p rn)
        → among (evaluate_validity f say r).findings
          ≡ (any p r.runners || (is_aborted r.status && q run_aborted))
    unfolding evaluate_validity
    among-all p r h =
        any-dedupe q _
        ∙ (any-append {A = Finding} (λ x. q x.code)
              (runner_findings f say (lag_limit f r.bucket_ms) r.runners) _
            ∙ ground (
              arith,
              among-runners (lag_limit f r.bucket_ms) p r.runners h,
              among-if (is_aborted r.status) run_aborted (say stopped_early),
            ))
