-- ===== src/Policy/Envelope/Load.antt =====
-- `Load`. The environment, the file system and the YAML decoder (over the default envelope, unknown
-- fields refused) are its arguments.
use tracepoint.Base.{
  true, Option, none, some, [], ◌∷◌, if◌then◌else◌, ◌≡◌, refl, subst, Bool-cases, inl, inr,
}
use tracepoint.Base.Int.{ℤ, eqb_ℤ}
use tracepoint.Base.Float.{Float}
use tracepoint.Base.Text.{Text}
use tracepoint.Errs.{Result, ok, err, error, is_ok, OnOk, policy_parse}
use tracepoint.Policy.Envelope.{
  Durations, Policy, default, policy_version, env_var, max_run_duration,
}

-- The variable's value, when no path was given.
abbrev path_from : Text → Option Text → Text
path_from [] none = []
path_from [] (some v) = v
path_from (c ∷ cs) v = c ∷ cs

module _ (f : Float) (tm : Durations) where
  abbrev with_limit : Policy f → Result (Option ℤ) → Result (Policy f)
  with_limit p (err e) = err e
  with_limit p (ok _) = ok p

  abbrev decoded : Option (Policy f) → Result (Policy f)
  decoded none = err (error policy_parse "")
  decoded (some p) =
      if eqb_ℤ p.version policy_version
      then with_limit p (max_run_duration tm p.max_duration)
      else err (error policy_parse "/version")

  module _ (read_file : Text → Option Text) (decode : Policy f → Text → Option (Policy f)) where
    abbrev contents : Option Text → Result (Policy f)
    contents none = err (error policy_parse "")
    contents (some raw) = decoded (decode (default f) raw)

    abbrev at_path : Text → Result (Policy f)
    at_path [] = ok (default f)
    at_path (c ∷ cs) = contents (read_file (c ∷ cs))

    unfoldable pub load : Text → (Text → Option Text) → Result (Policy f)
    load path lookup_env = at_path (path_from path (lookup_env env_var))

    -- A policy in force has the version that is understood and a duration limit that can be read.
    abbrev IsUsable : Policy f → Type 0
    IsUsable p =
        (eqb_ℤ p.version policy_version ≡ true)
        × (is_ok (max_run_duration tm p.max_duration) ≡ true)

    decoded-IsUsable : (o : Option (Policy f)) → OnOk IsUsable (decoded o)
    decoded-IsUsable none = tt
    decoded-IsUsable (some p) = elim (Bool-cases (eqb_ℤ p.version policy_version)) [
      | inl e ↦ rw e (go (max_run_duration tm p.max_duration) refl e)
      | inr e ↦ rw e tt
    ]
      where
        go :
            (r : Result (Option ℤ))
            → max_run_duration tm p.max_duration ≡ r
            → eqb_ℤ p.version policy_version ≡ true
            → OnOk IsUsable (with_limit p r)
        go (err _) h e = tt
        go (ok _) h e = (e, rw h refl)

    at_path-IsUsable : (path : Text) → OnOk IsUsable (at_path path)
    at_path-IsUsable [] = unfold default max_run_duration in (refl, refl)
    at_path-IsUsable (c ∷ cs) = go (read_file (c ∷ cs))
      where
        go : (o : Option Text) → OnOk IsUsable (contents o)
        go none = tt
        go (some raw) = decoded-IsUsable (decode (default f) raw)

    -- Every policy that is loaded, from a file or by default, has the version that is understood and
    -- a duration limit that can be read.
    pub load-IsUsable :
        (path : Text) (lookup_env : Text → Option Text) (p : Policy f)
        → load path lookup_env ≡ ok p
        → IsUsable p
    unfolding load
    load-IsUsable path lookup_env p h =
        subst (OnOk IsUsable) h (at_path-IsUsable (path_from path (lookup_env env_var)))
