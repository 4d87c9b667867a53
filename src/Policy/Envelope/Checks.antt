-- ===== src/Policy/Envelope/Checks.antt =====
-- The checks of a run against the envelope; `none` is Go's nil.
use tracepoint.Base.{Bool, true, false, not, Option, none, some, List, [], ◌∷◌}
use tracepoint.Base.Int.{ℤ, ltb_ℤ}
use tracepoint.Base.Float.{Float}
use tracepoint.Base.Text.{Text, concat}
use tracepoint.Errs.{
  Error, Result, ok, err, error, policy_denied, policy_writes_not_allowed, policy_rate_exceeded,
  policy_dangerous_not_allowed, policy_duration_exceeded,
}
use tracepoint.Policy.Envelope.{Durations, Policy, Dangerous, max_run_duration}
use Prim.Native.String.{String}

abbrev pub within : Bool → Error → Option Error
within true e = none
within false e = some e

module _ (f : Float) where
  abbrev pub rate_against : Option (f.F) → String → f.F → Option Error
  rate_against none runner rate = none
  rate_against (some l) runner rate =
      within (f.le rate l) (error policy_rate_exceeded (concat "/" (concat runner "/executor")))

  unfoldable pub check_rate : Policy f → String → f.F → Option Error
  check_rate p runner rate = rate_against p.max_rate_per_runner runner rate

  abbrev pub in_flight_against : Option ℤ → String → ℤ → Option Error
  in_flight_against none runner n = none
  in_flight_against (some l) runner n =
      within (not (ltb_ℤ l n))
        (error policy_denied (concat "/" (concat runner "/executor/max_in_flight")))

  unfoldable pub check_in_flight : Policy f → String → ℤ → Option Error
  check_in_flight p runner n = in_flight_against p.max_in_flight runner n

  abbrev pub duration_against : ℤ → Result (Option ℤ) → Option Error
  duration_against d (err e) = some e
  duration_against d (ok none) = none
  duration_against d (ok (some l)) =
      within (not (ltb_ℤ l d)) (error policy_duration_exceeded "/run/duration")

  unfoldable pub check_duration : Durations → Policy f → ℤ → Option Error
  check_duration tm p d = duration_against d (max_run_duration tm p.max_duration)

  unfoldable pub check_writes : Policy f → String → List Text → Option Error
  check_writes p runner [] = none
  check_writes p runner (_ ∷ _) =
      within p.allow_writes (error policy_writes_not_allowed (concat "/" runner))

  unfoldable pub check_dangerous : Policy f → String → List Dangerous → Option Error
  check_dangerous p runner [] = none
  check_dangerous p runner (_ ∷ _) =
      within p.allow_dangerous (error policy_dangerous_not_allowed (concat "/" runner))
