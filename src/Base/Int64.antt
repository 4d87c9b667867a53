-- ===== src/Base/Int64.antt =====
-- Go's int64: the range, the wrap-around, and strconv.ParseInt to the base ten.
use tracepoint.Base.{ℕ, ◌-◌, ◌%◌, Option, none, some, [], ◌∷◌, ltb, leb, ◌==◌, if◌then◌else◌}
use tracepoint.Base.Int.{ℤ, pos, negsuc, ◌+ℤ◌, ◌-ℤ◌}
use tracepoint.Base.Text.{Text, read_nat}

abbrev pub half : ℕ
half = 9223372036854775808

abbrev pub full : ℕ
full = 18446744073709551616

-- The bit pattern of an integer, and the integer of a bit pattern.
abbrev pub to_word : ℤ → ℕ
to_word (pos n) = n % full
to_word (negsuc n) = full - 1 - n % full

abbrev pub of_word : ℕ → ℤ
of_word w = if ltb w half then pos w else negsuc (full - 1 - w)

unfoldable pub add64 : ℤ → ℤ → ℤ
add64 a b = of_word (to_word (a +ℤ b))

unfoldable pub sub64 : ℤ → ℤ → ℤ
sub64 a b = of_word (to_word (a -ℤ b))

abbrev positive : Option ℕ → Option ℤ
positive none = none
positive (some n) = if ltb n half then some (pos n) else none

abbrev negative : Option ℕ → Option ℤ
negative none = none
negative (some n) =
    if n == 0 then some (pos 0) else if leb n half then some (negsuc (n - 1)) else none

unfoldable pub parse_int : Text → Option ℤ
parse_int [] = none
parse_int (c ∷ cs) =
    if c == b'-'
    then negative (read_nat cs)
    else if c == b'+'
    then positive (read_nat cs)
    else positive (read_nat (c ∷ cs))
