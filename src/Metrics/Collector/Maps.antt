-- ===== src/Metrics/Collector/Maps.antt =====
-- Maps from bucket indexes, as association lists.
use tracepoint.Base.{
  ℕ, ◌+◌, ◌≡◌, refl, List, [], ◌∷◌, Option, none, some, ◌==◌, if◌then◌else◌, arith,
}

module _ {ℓ} {V : Type ℓ} where
  unfoldable pub lookup : ℕ → List (ℕ × V) → Option V
  lookup i [] = none
  lookup i ((j, v) ∷ m) = if j == i then some v else lookup i m

  -- `m[i] = v`
  unfoldable pub insert : ℕ → V → List (ℕ × V) → List (ℕ × V)
  insert i v [] = (i, v) ∷ []
  insert i v ((j, w) ∷ m) = if j == i then (i, v) ∷ m else (j, w) ∷ insert i v m

  pub lookup-insert :
      (i j : ℕ) (v : V) (m : List (ℕ × V))
      → lookup j (insert i v m) ≡ (if i == j then some v else lookup j m)
  unfolding lookup insert
  lookup-insert i j v [] = refl
  lookup-insert i j v ((l, w) ∷ m) = ground (arith, lookup-insert i j v m)

  unfoldable pub sum_values : (V → ℕ) → List (ℕ × V) → ℕ
  sum_values g [] = 0
  sum_values g ((j, w) ∷ m) = g w + sum_values g m

  -- A new key adds its value and replaces none.
  pub sum_values-insert :
      (g : V → ℕ) (i : ℕ) (v : V) (m : List (ℕ × V))
      → lookup i m ≡ none
      → sum_values g (insert i v m) ≡ g v + sum_values g m
  unfolding lookup insert sum_values
  sum_values-insert g i v [] h = refl
  sum_values-insert g i v ((l, w) ∷ m) h = ground (arith, sum_values-insert g i v m)
