-- ===== src/Policy/Envelope/Accepts.antt =====
-- Exactly which requests of a configuration are granted.
use tracepoint.Base.{
  Bool, true, false, not, ◌&&◌, ◌||◌, ◌≡◌, refl, Option, none, some, List, [], ◌∷◌, ◌++◌, all,
  arith, ◌∙◌, ap,
}
use tracepoint.Base.Int.{ℤ, ltb_ℤ}
use tracepoint.Base.Float.{Float}
use tracepoint.Base.Text.{Text, keep}
use tracepoint.Errs.{Error, Result, ok, err, is_ok, Code}
use Prim.Native.String.{String}
use tracepoint.Policy.Target.{Net, allowlist_permits}
use tracepoint.Policy.Envelope.{Durations, Policy, Tightening, max_run_duration}
use tracepoint.Policy.Envelope.Tighten.{
  tighten, conclude, with_duration, limit_duration, narrow, problems_of, capability, unpermitted,
  target_problem, lowered, lower, limit, tightened,
}

abbrev pub is_empty {ℓ} : {A : Type ℓ} → List A → Bool
is_empty [] = true
is_empty (_ ∷ _) = false

-- A limit that is asked for is not above the one that is granted.
abbrev pub fits {ℓ} : {A : Type ℓ} → (A → A → Bool) → Option A → Option A → Bool
fits above none wanted = true
fits above (some l) none = true
fits above (some l) (some v) = not (above v l)

abbrev pub fits_duration : Result (Option ℤ) → Option ℤ → Bool
fits_duration granted none = true
fits_duration (err _) (some d) = false
fits_duration (ok granted) (some d) = fits (λ v l. ltb_ℤ l v) granted (some d)

pub is_empty-append {ℓ} :
    {A : Type ℓ} (xs ys : List A) → is_empty (xs ++ ys) ≡ (is_empty xs && is_empty ys)
is_empty-append [] ys = refl
is_empty-append (x ∷ xs) ys = refl

append_both {ℓ} :
    {A : Type ℓ} (xs ys : List A) (a b : Bool)
    → is_empty xs ≡ a
    → is_empty ys ≡ b
    → is_empty (xs ++ ys) ≡ (a && b)
append_both xs ys a b p q =
    is_empty-append xs ys ∙ ap (λ x. x && is_empty ys) p ∙ ap (λ y. a && y) q

is_empty-capability :
    (wanted granted : Bool) (c : Code) (at : String)
    → is_empty (capability wanted granted c at) ≡ (not wanted || granted)
is_empty-capability wanted granted c at = ground arith

is_empty-limit {ℓ} :
    {A : Type ℓ} (above : A → A → Bool) (field : String) (p t : Option A)
    → is_empty ((limit above field p t).1) ≡ fits above p t
is_empty-limit above field none none = refl
is_empty-limit above field (some l) none = refl
is_empty-limit above field none (some v) = refl
is_empty-limit above field (some l) (some v) = ground arith

is_empty-keep : (p : Text → Bool) (xs : List Text) → is_empty (keep (λ x. not (p x)) xs) ≡ all p xs
unfolding keep all
is_empty-keep p [] = refl
is_empty-keep p (x ∷ xs) = ground (arith, is_empty-keep p xs)

module _ (f : Float) (net : Net) (tm : Durations) where
  abbrev pub permits : Policy f → Text → Bool
  permits p = allowlist_permits net p.allow_public_targets p.allow_targets

  is_empty-target_problem : (xs : List Text) → is_empty (target_problem f net tm xs) ≡ is_empty xs
  is_empty-target_problem [] = refl
  is_empty-target_problem (x ∷ xs) = refl

  is_empty-narrow :
      (p : Policy f) (xs : List Text) → is_empty ((narrow f net tm p xs).1) ≡ all (permits p) xs
  unfolding narrow
  is_empty-narrow p [] = unfold all in refl
  is_empty-narrow p (x ∷ xs) =
      is_empty-target_problem (unpermitted f net tm p (x ∷ xs)) ∙ is_empty-keep (permits p) (x ∷ xs)

  -- Whether the configuration asks for nothing that the policy does not grant.
  abbrev pub asks_within : Policy f → Tightening f → Bool
  asks_within p t =
      ((not t.allow_writes || p.allow_writes)
        && ((not t.allow_dangerous || p.allow_dangerous)
            && ((not t.allow_insecure_tls || p.allow_insecure_tls)
                && (all (permits p) t.allow_targets
                    && (fits (λ v l. f.lt l v) p.max_rate_per_runner t.max_rate_per_runner
                        && fits (λ v l. ltb_ℤ l v) p.max_in_flight t.max_in_flight)))))

  is_empty-problems_of :
      (p : Policy f) (t : Tightening f) → is_empty (problems_of f net tm p t) ≡ asks_within p t
  unfolding problems_of
  is_empty-problems_of p t =
      append_both _ _ _ _ (is_empty-capability t.allow_writes p.allow_writes _ _) (
        append_both _ _ _ _ (is_empty-capability t.allow_dangerous p.allow_dangerous _ _) (
          append_both _ _ _ _ (is_empty-capability t.allow_insecure_tls p.allow_insecure_tls _ _) (
            append_both _ _ _ _ (is_empty-narrow p t.allow_targets) (
              append_both _ _ _ _
                (is_empty-limit (λ v l. f.lt l v) _ p.max_rate_per_runner t.max_rate_per_runner)
                (is_empty-limit (λ v l. ltb_ℤ l v) _ p.max_in_flight t.max_in_flight)))))

  is_ok-conclude :
      (out : Policy f) (es : List Error) → is_ok (conclude f net tm out es) ≡ is_empty es
  unfolding conclude
  is_ok-conclude out [] = refl
  is_ok-conclude out (e ∷ es) = refl

  is_empty-lowered :
      (text : Option Text) (d : ℤ) (l : Option ℤ)
      → is_empty ((lowered f net tm text d l).1) ≡ fits (λ v l'. ltb_ℤ l' v) l (some d)
  is_empty-lowered text d none = refl
  is_empty-lowered text d (some l) = ground arith

  is_ok-with_duration :
      (p : Policy f) (t : Tightening f) (r : Option Text × List Error) (b : Bool)
      → is_empty r.1 ≡ b
      → is_ok (with_duration f net tm p t (ok r)) ≡ (asks_within p t && b)
  is_ok-with_duration p t r b h =
      is_ok-conclude (tightened f net tm p t r.0) (problems_of f net tm p t ++ r.1)
      ∙ append_both (problems_of f net tm p t) r.1 _ _ (is_empty-problems_of p t) h

  is_ok-lower :
      (p : Policy f) (t : Tightening f) (d : ℤ) (l : Result (Option ℤ))
      → is_ok (with_duration f net tm p t (lower f net tm p.max_duration d l))
        ≡ (asks_within p t && fits_duration l (some d))
  is_ok-lower p t d (err e) = ground arith
  is_ok-lower p t d (ok l) = is_ok-with_duration p t _ _ (is_empty-lowered p.max_duration d l)

  -- A configuration is granted exactly when every capability that it asks for is granted, every
  -- target that it lists is permitted, and no limit that it sets is above that of the policy, whose
  -- duration limit must be readable when the configuration sets one.
  pub tighten-accepts :
      (p : Policy f) (t : Tightening f)
      → is_ok (tighten f net tm p t)
        ≡ (asks_within p t && fits_duration (max_run_duration tm p.max_duration) t.max_duration)
  unfolding tighten
  tighten-accepts p t = go t.max_duration
    where
      go :
          (w : Option ℤ)
          → is_ok (with_duration f net tm p t (limit_duration f net tm p.max_duration w))
            ≡ (asks_within p t && fits_duration (max_run_duration tm p.max_duration) w)
      go none = unfold limit_duration in is_ok-with_duration p t (p.max_duration, []) true refl
      go (some d) = unfold limit_duration in is_ok-lower p t d (max_run_duration tm p.max_duration)
