-- ===== src/Runner.antt =====
-- internal/runner/weighted.go: picking an operation by its weight. sort.SearchFloat64s is a parameter;
-- a draw of the random source is given.
pub mod Sql
pub mod Redis
use tracepoint.Base.{
  ℕ, zero, suc, ◌-◌, ◌<◌, ◌≡◌, refl, ap, ◌∙◌, List, [], ◌∷◌, length, if◌then◌else◌, ◌==◌, leb, ◌||◌,
  arith, Bool-cases, inl, inr,
}
use tracepoint.Base.Float.{Float}
use tracepoint.Metrics.Sketch.{zero_f}

module _ (f : Float) where
  pub record Weighted : Type 0 where
    pub cumulative : List (f.F)
    pub total : f.F

  -- The weight of an item, none below zero.
  abbrev usable : f.F → f.F
  usable x = if f.le x (zero_f f) then zero_f f else x

  abbrev onto : f.F → Weighted → Weighted
  onto c w = record { cumulative = c ∷ w.cumulative; total = w.total }

  -- The loop over the weights, with the total so far.
  unfoldable pub weighted_from : f.F → List (f.F) → Weighted
  weighted_from total [] = record { cumulative = []; total = total }
  weighted_from total (x ∷ xs) = let t = f.add total (usable x) in onto t (weighted_from t xs)

  unfoldable pub new_weighted : List (f.F) → Weighted
  new_weighted weights = weighted_from (zero_f f) weights

  module _ (search : List (f.F) → f.F → ℕ) where
    abbrev clamped : ℕ → ℕ → ℕ
    clamped n i = if leb n i then n - 1 else i

    unfoldable pub pick : Weighted → f.F → ℕ
    pick w draw =
        let n = length w.cumulative in
        if n == 0
        then 0
        else if (n == 1) || f.le w.total (zero_f f)
        then 0
        else clamped n (search w.cumulative (f.mul draw w.total))

    length-weighted_from :
        (t : f.F) (ws : List (f.F)) → length (weighted_from t ws).cumulative ≡ length ws
    unfolding weighted_from
    length-weighted_from t [] = refl
    length-weighted_from t (x ∷ xs) = ap suc (length-weighted_from (f.add t (usable x)) xs)

    pick_in_bounds :
        (w : Weighted) (draw : f.F) → 0 < length w.cumulative → pick w draw < length w.cumulative
    unfolding pick
    pick_in_bounds w draw h = ground arith

    -- The index that is picked among items, for any draw and whatever the search answers, is that of one
    -- of them, if there is one.
    pub pick-new_weighted :
        (ws : List (f.F)) (draw : f.F) → 0 < length ws → pick (new_weighted ws) draw < length ws
    unfolding new_weighted
    pick-new_weighted ws draw h =
        let e = length-weighted_from (zero_f f) ws in
        omega (arith, e, pick_in_bounds (weighted_from (zero_f f) ws) draw (omega (arith, e)))
