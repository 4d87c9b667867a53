-- ===== src/Config/Validate/Common.antt =====
-- What the checks of internal/config/validate.go share: the three kinds of problem, and weights.
use tracepoint.Base.{
  ℕ, Bool, true, false, not, ◌&&◌, ◌||◌, ◌≡◌, refl, ◌++◌, Option, none, some, List, [], ◌∷◌,
  if◌then◌else◌,
}
use tracepoint.Base.Int.{ℤ, pos, ltb_ℤ}
use tracepoint.Base.Float.{Float}
use tracepoint.Base.Decimal.{decimal}
use tracepoint.Base.Text.{Text, concat, contains}
use tracepoint.Errs.{
  Error, error, config_invalid_value, config_missing_field, config_duplicate_name,
}
use Prim.Native.String.{String}

abbrev pub invalid : String → Error
invalid at = error config_invalid_value at

abbrev pub missing : String → Error
missing at = error config_missing_field at

abbrev pub duplicate : String → Error
duplicate at = error config_duplicate_name at

-- A problem, if a test finds it.
abbrev pub given : Bool → Error → List Error
given true e = e ∷ []
given false e = []

abbrev pub is_blank {ℓ} : {A : Type ℓ} → List A → Bool
is_blank [] = true
is_blank (x ∷ xs) = false

pub is_blank-append {ℓ} :
    {A : Type ℓ} (xs ys : List A) → is_blank (xs ++ ys) ≡ (is_blank xs && is_blank ys)
is_blank-append [] ys = refl
is_blank-append (x ∷ xs) ys = refl

pub is_blank-given : (b : Bool) (e : Error) → is_blank (given b e) ≡ not b
is_blank-given true e = refl
is_blank-given false e = refl

-- `base/i`
abbrev pub item : String → ℕ → String
item base i = concat base (concat "/" (decimal i))

-- `n <= 0`, of a number or of one that is given.
abbrev pub not_positive : ℤ → Bool
not_positive n = not (ltb_ℤ (pos 0) n)

abbrev pub given_not_positive : Option ℤ → Bool
given_not_positive none = false
given_not_positive (some n) = not_positive n

-- The name of an item and the names before it.
abbrev pub name_problems : String → List Text → Text → List Error
name_problems at seen name =
    if is_blank name
    then missing (concat at "/name") ∷ []
    else given (contains seen name) (duplicate (concat at "/name"))

module _ (f : Float) where
  abbrev pub zero_f : f.F
  zero_f = f.of_int (pos 0)

  abbrev pub bad_weight : f.F → Bool
  bad_weight w = f.le w zero_f || (f.is_nan w || f.is_inf w)

  -- Absent is fine and means 1.
  abbrev pub check_weight : Option f.F → String → List Error
  check_weight none at = []
  check_weight (some w) at = given (bad_weight w) (invalid at)
