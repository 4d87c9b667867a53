-- ===== src/Base/Decimal.antt =====
-- Numbers in decimal: as a string, for the places that errors name, and as a text.
use Prim.Native.String.{String}
use tracepoint.Base.{ℕ, zero, suc, ◌+◌, ◌/◌, ◌%◌, ltb, ◌==◌, ◌∷◌, [], if◌then◌else◌}
use tracepoint.Base.Int.{ℤ, pos, negsuc}
use tracepoint.Base.Text.{concat, Text}

abbrev digit : ℕ → String
digit d =
    if d == 0
    then "0"
    else if d == 1
    then "1"
    else if d == 2
    then "2"
    else if d == 3
    then "3"
    else if d == 4
    then "4"
    else if d == 5
    then "5"
    else if d == 6
    then "6"
    else if d == 7
    then "7"
    else if d == 8
    then "8"
    else "9"

-- A number has no more digits than its size and one.
decimal_from : ℕ → ℕ → String → String
decimal_from zero n acc = acc
decimal_from (suc fuel) n acc =
    let rest = decimal_from fuel (n / 10) (concat (digit (n % 10)) acc) in
    if ltb n 10 then concat (digit n) acc else rest

-- strconv.Itoa of a number that is not negative.
unfoldable pub decimal : ℕ → String
unfolding decimal_from
decimal n = decimal_from (n + 1) n ""

unfoldable pub text_from : ℕ → ℕ → Text → Text
text_from zero n acc = acc
text_from (suc fuel) n acc =
    let rest = text_from fuel (n / 10) ((48 + n % 10) ∷ acc) in
    if ltb n 10 then (48 + n) ∷ acc else rest

-- strconv.FormatInt to the base ten.
unfoldable pub format_int : ℤ → Text
unfolding text_from
format_int (pos n) = text_from (n + 1) n []
format_int (negsuc n) = b'-' ∷ text_from (n + 2) (n + 1) []
