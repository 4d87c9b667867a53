-- ===== src/Base/Sample.antt =====
-- A stand-in for float64 by whole numbers, to run the definitions on.
use tracepoint.Base.{ℕ, ◌/◌, ◌*◌, ◌^◌, zero, suc, leb, if◌then◌else◌, false, not}
use tracepoint.Base.Int.{ℤ, pos, pos_part, ◌+ℤ◌, ◌-ℤ◌, ◌*ℤ◌, ltb_ℤ, eqb_ℤ}
use tracepoint.Base.Float.{Float}

-- The integer square root, searched downwards.
abbrev root : ℕ → ℕ → ℕ
root zero n = 0
root (suc k) n = let rest = root k n in if leb (suc k * suc k) n then suc k else rest

abbrev pub whole : Float
whole = record {
  F = ℤ;
  of_int = λ n. n;
  lit = λ n k. pos (n / 10 ^ k);
  add = ◌+ℤ◌;
  sub = ◌-ℤ◌;
  mul = ◌*ℤ◌;
  div = λ a b. pos (pos_part a / pos_part b);
  lt = ltb_ℤ;
  le = λ a b. not (ltb_ℤ b a);
  eq = eqb_ℤ;
  sqrt = λ a. pos (root (pos_part a) (pos_part a));
  trunc = λ a. a;
  is_nan = λ a. false;
  is_inf = λ a. false;
}
