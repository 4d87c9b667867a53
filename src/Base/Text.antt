-- ===== src/Base/Text.antt =====
-- Texts as lists of bytes. Case mapping and white space are those of ASCII.
use Prim.Native.Char.{code}
use Prim.Native.String.{String}
use tracepoint.Base.{
  ℕ, ◌-◌, ◌+◌, ◌*◌, Option, none, some, Bool, true, false, not, ◌&&◌, ◌||◌, List, [], ◌∷◌, ◌≡◌, ◌↔◌,
  arith, leb, if◌then◌else◌,
}
use tracepoint.Base.{◌==◌ as nat_eq}

abbrev pub Text : Type 0
Text = List ℕ

abbrev pub codes : String → Text
codes String.[] = []
codes (String.◌∷◌ c s) = code c ∷ codes s

-- A string before another.
abbrev pub concat : String → String → String
concat String.[] t = t
concat (String.◌∷◌ c s) t = String.◌∷◌ c (concat s t)

infix 50 ◌==◌
unfoldable pub ◌==◌ : Text → Text → Bool
[] == [] = true
[] == (b ∷ bs) = false
(a ∷ as') == [] = false
(a ∷ as') == (b ∷ bs) = nat_eq a b && (as' == bs)

pub eq_iff : (s t : Text) → ((s == t) ≡ true) ↔ (s ≡ t)
unfolding ◌==◌
eq_iff [] [] = ground arith
eq_iff [] (b ∷ bs) = ground arith
eq_iff (a ∷ as') [] = ground arith
eq_iff (a ∷ as') (b ∷ bs) = ground (arith, eq_iff as' bs)

unfoldable pub contains : List Text → Text → Bool
contains [] t = false
contains (x ∷ xs) t = (x == t) || contains xs t

unfoldable pub upper_byte : ℕ → ℕ
upper_byte c = if leb b'a' c && leb c b'z' then c - 32 else c

unfoldable pub upper : Text → Text
upper [] = []
upper (c ∷ cs) = upper_byte c ∷ upper cs

-- strings.EqualFold
unfoldable pub equal_fold : Text → Text → Bool
equal_fold s t = upper s == upper t

unfoldable pub is_space : ℕ → Bool
is_space c = nat_eq c 32 || (leb 9 c && leb c 13)

unfoldable pub all_space : Text → Bool
all_space [] = true
all_space (c ∷ cs) = is_space c && all_space cs

unfoldable pub trim_left : Text → Text
trim_left [] = []
trim_left (c ∷ cs) = let rest = trim_left cs in if is_space c then rest else c ∷ cs

unfoldable pub trim_right : Text → Text
trim_right [] = []
trim_right (c ∷ cs) =
    let rest = trim_right cs in if is_space c && (rest == []) then [] else c ∷ rest

-- strings.TrimSpace
unfoldable pub trim_space : Text → Text
trim_space s = trim_right (trim_left s)

abbrev onto_first : ℕ → List Text → List Text
onto_first c [] = (c ∷ []) ∷ []
onto_first c (p ∷ ps) = (c ∷ p) ∷ ps

-- The pieces between separators, empty ones included.
unfoldable pub pieces : (ℕ → Bool) → Text → List Text
pieces sep [] = [] ∷ []
pieces sep (c ∷ cs) = let rest = pieces sep cs in if sep c then [] ∷ rest else onto_first c rest

unfoldable pub keep : (Text → Bool) → List Text → List Text
keep p [] = []
keep p (x ∷ xs) = let rest = keep p xs in if p x then x ∷ rest else rest

-- strings.FieldsFunc
unfoldable pub fields_func : (ℕ → Bool) → Text → List Text
fields_func sep s = keep (λ p. not (p == [])) (pieces sep s)

abbrev pub starts_with : ℕ → Text → Bool
starts_with b [] = false
starts_with b (c ∷ cs) = nat_eq c b

abbrev pub tail : Text → Text
tail [] = []
tail (c ∷ cs) = cs

abbrev pub behind : ℕ → Option (Text × Text) → Option (Text × Text)
behind c none = none
behind c (some (before, after)) = some (c ∷ before, after)

-- The text before and after the first place where the byte stands twice.
unfoldable pub cut_pair : ℕ → Text → Option (Text × Text)
cut_pair b [] = none
cut_pair b (c ∷ cs) =
    let rest = behind c (cut_pair b cs) in
    if nat_eq c b && starts_with b cs then some ([], tail cs) else rest

-- strings.Cut at a byte: what stands before and after it.
unfoldable pub cut : ℕ → Text → Option (Text × Text)
cut b [] = none
cut b (c ∷ cs) = let rest = behind c (cut b cs) in if nat_eq c b then some ([], cs) else rest

-- Digits read after those whose value is given.
unfoldable pub read_digits : ℕ → Text → Option ℕ
read_digits n [] = some n
read_digits n (c ∷ cs) =
    let rest = read_digits (10 * n + (c - 48)) cs in if leb 48 c && leb c 57 then rest else none

unfoldable pub read_nat : Text → Option ℕ
read_nat [] = none
read_nat (c ∷ cs) = read_digits 0 (c ∷ cs)
