-- ===== src/Policy/Envelope/Tighten.antt =====
-- `Policy.Tighten`: what a configuration's safety section makes of the policy.
use tracepoint.Base.{Bool, not, ◌&&◌, Option, none, some, List, [], ◌∷◌, ◌++◌, if◌then◌else◌, map}
use tracepoint.Base.Int.{ℤ, ltb_ℤ}
use tracepoint.Base.Float.{Float}
use tracepoint.Base.Text.{Text, concat, keep}
use tracepoint.Errs.{
  Code, Error, Result, ok, err, error, policy_denied, policy_writes_not_allowed,
  policy_dangerous_not_allowed, policy_insecure_tls_not_allowed, policy_target_not_allowed,
}
use tracepoint.Policy.Target.{Net, allowlist_permits}
use tracepoint.Policy.Envelope.{Durations, Policy, Tightening, max_run_duration}
use Prim.Native.String.{String}

unfoldable pub exceeds : String → Error
exceeds field = error policy_denied (concat "/safety/" field)

abbrev sibling : Error → Code × String
sibling e = (e.code, e.path)

unfoldable pub summarise : Error → List Error → Error
summarise e [] = e
summarise e (x ∷ xs) = record { code = policy_denied; path = ""; causes = map sibling (e ∷ x ∷ xs) }

-- A capability that the configuration asks for and the policy does not grant.
abbrev pub capability : Bool → Bool → Code → String → List Error
capability wanted granted c at = if wanted && not granted then error c at ∷ [] else []

-- A limit that is kept or lowered, with the problem when it would be raised.
abbrev pub limit {ℓ} :
    {A : Type ℓ}
    → (above : A → A → Bool) → String
    → (policy wanted : Option A) → Option A × List Error
limit above field p none = (p, [])
limit above field none (some v) = (some v, [])
limit above field (some l) (some v) =
    if above v l then (some l, exceeds field ∷ []) else (some v, [])

module _ (f : Float) (net : Net) (tm : Durations) where
  abbrev pub unpermitted : Policy f → List Text → List Text
  unpermitted p entries =
      keep (λ entry. not (allowlist_permits net p.allow_public_targets p.allow_targets entry))
        entries

  abbrev pub target_problem : List Text → List Error
  target_problem [] = []
  target_problem (_ ∷ _) = error policy_target_not_allowed "/safety/allow_targets" ∷ []

  -- The allowlist that stays in force, and the problem with the one that is asked for.
  unfoldable pub narrow : Policy f → List Text → List Text × List Error
  narrow p [] = (p.allow_targets, [])
  narrow p (x ∷ xs) = (x ∷ xs, target_problem (unpermitted p (x ∷ xs)))

  abbrev pub lowered : Option Text → ℤ → Option ℤ → Option Text × List Error
  lowered text d none = (some (tm.print d), [])
  lowered text d (some l) =
      if ltb_ℤ l d then (text, exceeds "max_duration" ∷ []) else (some (tm.print d), [])

  abbrev pub lower : Option Text → ℤ → Result (Option ℤ) → Result (Option Text × List Error)
  lower text d (err e) = err e
  lower text d (ok l) = ok (lowered text d l)

  unfoldable pub limit_duration : Option Text → Option ℤ → Result (Option Text × List Error)
  limit_duration text none = ok (text, [])
  limit_duration text (some d) = lower text d (max_run_duration tm text)

  abbrev pub tightened : Policy f → Tightening f → Option Text → Policy f
  tightened p t duration = record p {
    allow_writes = p.allow_writes && t.allow_writes;
    allow_dangerous = p.allow_dangerous && t.allow_dangerous;
    allow_insecure_tls = p.allow_insecure_tls && t.allow_insecure_tls;
    allow_targets = (narrow p t.allow_targets).0;
    max_rate_per_runner =
        (limit (λ v l. f.lt l v) "max_rate_per_runner" p.max_rate_per_runner
          t.max_rate_per_runner).0;
    max_in_flight = (limit (λ v l. ltb_ℤ l v) "max_in_flight" p.max_in_flight t.max_in_flight).0;
    max_duration = duration;
  }

  -- The problems in the order that the code finds them in, before those with the duration.
  unfoldable pub problems_of : Policy f → Tightening f → List Error
  problems_of p t =
      capability t.allow_writes p.allow_writes policy_writes_not_allowed "/safety/allow_writes"
      ++ (capability t.allow_dangerous p.allow_dangerous policy_dangerous_not_allowed
            "/safety/allow_dangerous"
          ++ (capability t.allow_insecure_tls p.allow_insecure_tls policy_insecure_tls_not_allowed
                "/safety/allow_insecure_tls"
              ++ ((narrow p t.allow_targets).1
                  ++ ((limit (λ v l. f.lt l v) "max_rate_per_runner" p.max_rate_per_runner
                        t.max_rate_per_runner).1
                      ++ (limit (λ v l. ltb_ℤ l v) "max_in_flight" p.max_in_flight
                          t.max_in_flight).1))))

  unfoldable pub conclude : Policy f → List Error → Result (Policy f)
  conclude out [] = ok out
  conclude out (e ∷ es) = err (summarise e es)

  abbrev pub with_duration :
      Policy f → Tightening f → Result (Option Text × List Error) → Result (Policy f)
  with_duration p t (err e) = err e
  with_duration p t (ok d) = conclude (tightened p t d.0) (problems_of p t ++ d.1)

  unfoldable pub tighten : Policy f → Tightening f → Result (Policy f)
  tighten p t = with_duration p t (limit_duration p.max_duration t.max_duration)
