-- ===== src/Base/Float.antt =====
-- Go's float64 as an interface: the operations that the program uses, with nothing assumed of them.
use tracepoint.Base.{ℕ, Bool, if◌then◌else◌}
use tracepoint.Base.Int.{ℤ}

pub record Float : Type 1 where
  pub F : Type 0
  -- float64(n) of an integer, and the decimal literal n / 10^k
  pub of_int : ℤ → F
  pub lit : ℕ → ℕ → F
  pub add : F → F → F
  pub sub : F → F → F
  pub mul : F → F → F
  pub div : F → F → F
  pub lt : F → F → Bool
  pub le : F → F → Bool
  pub eq : F → F → Bool
  pub sqrt : F → F
  -- the integer part, as a conversion to int64 gives it
  pub trunc : F → ℤ
  pub is_nan : F → Bool
  pub is_inf : F → Bool

-- `if b > a { return b }; return a`
abbrev pub max_of : (f : Float) → f.F → f.F → f.F
max_of f a b = if f.lt a b then b else a
