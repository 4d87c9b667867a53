-- ===== src/Policy/Envelope/Laws.antt =====
-- The checks of a run under a tightened policy and under the policy itself.
use tracepoint.Base.{
  Bool, true, false, not, ◌&&◌, ◌||◌, ◌≡◌, refl, subst, ap, Option, none, some, List, [], ◌∷◌, ◌++◌,
  arith, Bool-cases, inl, inr,
}
use tracepoint.Base.Int.{ℤ, ltb_ℤ}
use tracepoint.Base.Float.{Float}
use tracepoint.Base.Text.{Text}
use tracepoint.Errs.{Error, Result, ok, err, is_nil, OnOk}
use Prim.Native.String.{String}
use tracepoint.Policy.Target.{Net}
use tracepoint.Policy.Envelope.{Durations, Policy, Tightening, Dangerous, max_run_duration}
use tracepoint.Policy.Envelope.Tighten.{
  tighten, conclude, with_duration, limit_duration, problems_of, limit, tightened, lower,
}
use tracepoint.Policy.Envelope.Checks.{
  within, rate_against, in_flight_against, check_rate, check_in_flight, duration_against,
  check_duration, check_writes, check_dangerous,
}

unfoldable pub implies : Bool → Bool → Bool
implies a b = not a || b

implies_refl : (b : Bool) → implies b b ≡ true
unfolding implies
implies_refl b = ground arith

implies-true : (b : Bool) → implies b true ≡ true
unfolding implies
implies-true b = ground arith

is_nil-within : (b : Bool) (e : Error) → is_nil (within b e) ≡ b
is_nil-within true e = refl
is_nil-within false e = refl

implies-within :
    (a b : Bool) (d e : Error)
    → implies a b ≡ true
    → implies (is_nil (within a d)) (is_nil (within b e)) ≡ true
unfolding implies
implies-within a b d e h = rw (is_nil-within a d, is_nil-within b e) h

ltb_ℤ_trans : (l v n : ℤ) → ltb_ℤ l v ≡ false → implies (not (ltb_ℤ v n)) (not (ltb_ℤ l n)) ≡ true
unfolding implies
ltb_ℤ_trans l v n h = ground arith

module _ (f : Float) where
  in_flight-limit :
      (p t : Option ℤ) (runner : String) (n : ℤ)
      → implies
          (is_nil (in_flight_against f ((limit (λ v l. ltb_ℤ l v) "max_in_flight" p t).0) runner n))
          (is_nil (in_flight_against f p runner n))
        ≡ true
  in_flight-limit none t runner n = implies-true _
  in_flight-limit (some l) none runner n = implies_refl _
  in_flight-limit (some l) (some v) runner n = elim (Bool-cases (ltb_ℤ l v)) [
    | inl h ↦ rw h (implies_refl _)
    | inr h ↦ rw h (implies-within _ _ _ _ (ltb_ℤ_trans l v n h))
  ]

  -- A rate limit that the decoder can read as a number.
  abbrev pub is_number : Option (f.F) → Bool
  is_number none = true
  is_number (some l) = not (f.is_nan l)

  module _
      (le_trans : (a b c : f.F)
        → f.le a b ≡ true
        → f.lt c b ≡ false
        → f.is_nan c ≡ false
        → f.le a c ≡ true) where
    le-implies :
        (l v x : f.F) → f.lt l v ≡ false → f.is_nan l ≡ false → implies (f.le x v) (f.le x l) ≡ true
    unfolding implies
    le-implies l v x h k = elim (Bool-cases (f.le x v)) [
      | inl e ↦ ground (arith, le_trans x v l e h k)
      | inr e ↦ ground arith
    ]

    rate-limit :
        (p t : Option (f.F)) (runner : String) (x : f.F)
        → is_number p ≡ true
        → implies
            (is_nil
              (rate_against f ((limit (λ v l. f.lt l v) "max_rate_per_runner" p t).0) runner x))
            (is_nil (rate_against f p runner x))
          ≡ true
    rate-limit none t runner x k = implies-true _
    rate-limit (some l) none runner x k = implies_refl _
    rate-limit (some l) (some v) runner x k = elim (Bool-cases (f.lt l v)) [
      | inl h ↦ rw h (implies_refl _)
      | inr h ↦ rw h (implies-within _ _ _ _ (le-implies l v x h (ground arith)))
    ]

  writes_narrower :
      (p q : Policy f) (b : Bool) (runner : String) (labels : List Text)
      → q.allow_writes ≡ (p.allow_writes && b)
      → implies (is_nil (check_writes f q runner labels)) (is_nil (check_writes f p runner labels))
        ≡ true
  unfolding check_writes
  writes_narrower p q b runner [] e = implies_refl _
  writes_narrower p q b runner (x ∷ xs) e =
      implies-within _ _ _ _ (unfold implies in ground (arith, e))

  dangerous_narrower :
      (p q : Policy f) (b : Bool) (runner : String) (found : List Dangerous)
      → q.allow_dangerous ≡ (p.allow_dangerous && b)
      → implies
          (is_nil (check_dangerous f q runner found))
          (is_nil (check_dangerous f p runner found))
        ≡ true
  unfolding check_dangerous
  dangerous_narrower p q b runner [] e = implies_refl _
  dangerous_narrower p q b runner (x ∷ xs) e =
      implies-within _ _ _ _ (unfold implies in ground (arith, e))

module _ (f : Float) (net : Net) (tm : Durations) (parse_empty : tm.parse [] ≡ none)
    (parse_print : (d : ℤ) → tm.parse (tm.print d) ≡ some d) where
  abbrev parsed_as : Text → Result (Option ℤ)
  parsed_as t = max_run_duration tm (some t)

  -- A printed duration is read back as it was.
  max_run_duration-print : (d : ℤ) → max_run_duration tm (some (tm.print d)) ≡ ok (some d)
  max_run_duration-print d = go (tm.print d) (parse_print d)
    where
      go : (t : Text) → tm.parse t ≡ some d → max_run_duration tm (some t) ≡ ok (some d)
      go [] e = ground (arith, parse_empty, e)
      go (c ∷ cs) e = unfold max_run_duration in rw e refl

  Narrower : Option Text → Option Text → Type 0
  Narrower text text' =
      (x : ℤ)
      → implies (is_nil (duration_against f x (max_run_duration tm text')))
          (is_nil (duration_against f x (max_run_duration tm text)))
        ≡ true

  lower-Narrower :
      (text : Option Text) (d : ℤ) (m : Result (Option ℤ))
      → max_run_duration tm text ≡ m
      → OnOk (λ r. Narrower text r.0) (lower f net tm text d m)
  unfolding Narrower
  lower-Narrower text d (err e) h = tt
  lower-Narrower text d (ok none) h = λ x. rw h (implies-true _)
  lower-Narrower text d (ok (some l)) h = elim (Bool-cases (ltb_ℤ l d)) [
    | inl e ↦ λ x. rw e (implies_refl _)
    | inr e ↦
        λ x. rw (e, h, max_run_duration-print d) (implies-within _ _ _ _ (ltb_ℤ_trans l d x e))
  ]

  limit_duration-Narrower :
      (text : Option Text) (w : Option ℤ)
      → OnOk (λ r. Narrower text r.0) (limit_duration f net tm text w)
  unfolding limit_duration Narrower
  limit_duration-Narrower text none = λ x. implies_refl _
  limit_duration-Narrower text (some d) = lower-Narrower text d (max_run_duration tm text) refl

  -- What a tightened policy inherits, with the duration that stays in force.
  IsTightened : Policy f → Tightening f → Policy f → Type 0
  IsTightened p t q = (d : Option Text) × (q ≡ tightened f net tm p t d) × Narrower p.max_duration d

  conclude-IsTightened :
      (p : Policy f) (t : Tightening f) (d : Option Text) (es : List Error)
      → Narrower p.max_duration d
      → OnOk (IsTightened p t) (conclude f net tm (tightened f net tm p t d) es)
  unfolding conclude IsTightened
  conclude-IsTightened p t d [] h = (d, refl, h)
  conclude-IsTightened p t d (e ∷ es) h = tt

  with_duration-IsTightened :
      (p : Policy f) (t : Tightening f) (r : Result (Option Text × List Error))
      → OnOk (λ r. Narrower p.max_duration r.0) r
      → OnOk (IsTightened p t) (with_duration f net tm p t r)
  with_duration-IsTightened p t (err e) h = tt
  with_duration-IsTightened p t (ok d) h =
      conclude-IsTightened p t d.0 (problems_of f net tm p t ++ d.1) h

  tighten-IsTightened :
      (p q : Policy f) (t : Tightening f) → tighten f net tm p t ≡ ok q → IsTightened p t q
  unfolding tighten
  tighten-IsTightened p q t h = subst (OnOk (IsTightened p t)) h (
      with_duration-IsTightened p t (limit_duration f net tm p.max_duration t.max_duration)
        (limit_duration-Narrower p.max_duration t.max_duration))

  module _
      (le_trans : (a b c : f.F)
        → f.le a b ≡ true
        → f.lt c b ≡ false
        → f.is_nan c ≡ false
        → f.le a c ≡ true) where
    -- Under the policy that Tighten grants, a check of a rate, of operations in flight, of a
    -- duration, of writes or of destructive statements passes only if it passes under the policy
    -- itself, and the deny list and the grant of public targets stay as they are. The policy's rate
    -- limit is a number, comparisons of numbers are transitive, the empty text is no duration, and a
    -- printed duration is read back as it was.
    pub tighten-checks :
        (p q : Policy f) (t : Tightening f) (runner : String) (rate : f.F) (n d : ℤ)
        (labels : List Text) (found : List Dangerous)
        → is_number f p.max_rate_per_runner ≡ true
        → tighten f net tm p t ≡ ok q
        → (implies (is_nil (check_rate f q runner rate)) (is_nil (check_rate f p runner rate))
            ≡ true)
          × (implies (is_nil (check_in_flight f q runner n)) (is_nil (check_in_flight f p runner n))
              ≡ true)
          × (implies (is_nil (check_duration f tm q d)) (is_nil (check_duration f tm p d)) ≡ true)
          × (implies
                (is_nil (check_writes f q runner labels))
                (is_nil (check_writes f p runner labels))
              ≡ true)
          × (implies
                (is_nil (check_dangerous f q runner found))
                (is_nil (check_dangerous f p runner found))
              ≡ true)
          × (q.deny_targets ≡ p.deny_targets)
          × (q.allow_public_targets ≡ p.allow_public_targets)
    unfolding check_rate check_in_flight check_duration IsTightened Narrower
    tighten-checks p q t runner rate n d labels found k h =
        let (limit', e, within_limit) = tighten-IsTightened p q t h in
        (
          rw e (rate-limit f le_trans p.max_rate_per_runner t.max_rate_per_runner runner rate k),
          rw e (in_flight-limit f p.max_in_flight t.max_in_flight runner n),
          rw e (within_limit d),
          writes_narrower f p q t.allow_writes runner labels (ap (λ x. x.allow_writes) e),
          dangerous_narrower f p q t.allow_dangerous runner found (ap (λ x. x.allow_dangerous) e),
          ap (λ x. x.deny_targets) e,
          ap (λ x. x.allow_public_targets) e,
        )
