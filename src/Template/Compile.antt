-- ===== src/Template/Compile.antt =====
-- internal/template/template.go: `Compile` and what it calls.
use tracepoint.Base.{
  ℕ, zero, suc, Bool, true, false, not, ◌&&◌, ◌||◌, Option, none, some, List, [], ◌∷◌, any, all,
  length, if◌then◌else◌, ltb, leb, map,
}
use tracepoint.Base.{◌==◌ as nat_eq}
use tracepoint.Base.Int.{ℤ, pos, pos_part, ltb_ℤ}
use tracepoint.Base.Int64.{parse_int}
use tracepoint.Base.Text.{
  Text, codes, ◌==◌, contains, equal_fold, trim_space, pieces, fields_func, is_space, cut, cut_pair,
}
use tracepoint.Errs.{Result, ok, err, error, config_template_syntax, config_template_unknown_func}
use tracepoint.Template.{
  Generator, rand_int, rand_string, uuid, seq, now, pick, Value, Part, literal, var, feeder, gen,
  value, Template,
}

abbrev pub max_rand_string_length : ℕ
max_rand_string_length = 1048576

abbrev pub known_funcs : List Text
known_funcs =
    codes "randInt"
    ∷ codes "randString"
    ∷ codes "uuid"
    ∷ codes "seq"
    ∷ codes "pick"
    ∷ codes "now"
    ∷ []

abbrev pub bad_args {ℓ} : {A : Type ℓ} → Result A
bad_args = err (error config_template_syntax "")

abbrev pub is_nil : Text → Bool
is_nil [] = true
is_nil (_ ∷ _) = false

unfoldable pub choices : Text → List Text
choices raw = map trim_space (pieces (λ c. nat_eq c b'|') raw)

unfoldable pub compile_pick : Text → Result Part
compile_pick [] = bad_args
compile_pick (c ∷ cs) =
    if any is_nil (choices (c ∷ cs))
    then bad_args
    else if ltb (length (choices (c ∷ cs))) 2
    then bad_args
    else ok (gen (pick (choices (c ∷ cs))))

abbrev pub ordered : Option ℤ → Option ℤ → Result Part
ordered none hi = bad_args
ordered (some lo) none = bad_args
ordered (some lo) (some hi) = if ltb_ℤ hi lo then bad_args else ok (gen (rand_int lo hi))

abbrev pub sized : Option ℤ → Result Part
sized none = bad_args
sized (some n) =
    if not (ltb_ℤ (pos 0) n)
    then bad_args
    else if ltb max_rand_string_length (pos_part n)
    then bad_args
    else ok (gen (rand_string (pos_part n)))

-- The arguments of each generator: how many, and of what form.
unfoldable pub compile_rand_int : List Text → Result Part
compile_rand_int (a ∷ b ∷ []) = ordered (parse_int a) (parse_int b)
compile_rand_int _ = bad_args

unfoldable pub compile_rand_string : List Text → Result Part
compile_rand_string (a ∷ []) = sized (parse_int a)
compile_rand_string _ = bad_args

abbrev pub no_arguments : Generator → List Text → Result Part
no_arguments g [] = ok (gen g)
no_arguments g (_ ∷ _) = bad_args

unfoldable pub compile_generator : Text → Text → Result Part
compile_generator name raw =
    let args = fields_func is_space raw in
    if name == codes "pick"
    then compile_pick raw
    else if name == codes "randInt"
    then compile_rand_int args
    else if name == codes "randString"
    then compile_rand_string args
    else if name == codes "uuid"
    then no_arguments uuid args
    else if name == codes "seq"
    then no_arguments seq args
    else no_arguments now args

abbrev pub is_letter : ℕ → Bool
is_letter c = nat_eq c b'_' || ((leb b'a' c && leb c b'z') || (leb b'A' c && leb c b'Z'))

abbrev pub is_digit : ℕ → Bool
is_digit c = leb 48 c && leb c 57

unfoldable pub is_identifier : Text → Bool
is_identifier [] = false
is_identifier (c ∷ cs) = is_letter c && all (λ d. is_letter d || is_digit d) cs

abbrev pub column_of : Text → Option (Text × Text) → Result Part
column_of name none =
    if is_identifier name then ok (var name) else err (error config_template_syntax "")
column_of name (some (source, column)) =
    if is_nil source || is_nil column
    then err (error config_template_syntax "")
    else ok (feeder source column)

abbrev pub unknown_function {ℓ} : {A : Type ℓ} → Result A
unknown_function = err (error config_template_unknown_func "")

-- The name of a token, and whether it has arguments.
abbrev pub resolved : Text → Option (Text × Text) → Result Part
resolved token (some (name, raw)) =
    if contains known_funcs name then compile_generator name (trim_space raw) else unknown_function
resolved token none =
    if contains known_funcs token
    then compile_generator token []
    else if any (λ known. equal_fold known token) known_funcs
    then unknown_function
    else column_of token (cut b'.' token)

unfoldable pub compile_token : Text → Result Part
compile_token [] = err (error config_template_syntax "")
compile_token (c ∷ cs) = resolved (c ∷ cs) (cut b' ' (c ∷ cs))

abbrev pub text_part : Text → List Part
text_part [] = []
text_part (c ∷ cs) = literal (c ∷ cs) ∷ []

abbrev pub prefixed : Text → Part → Result (List Part) → Result (List Part)
prefixed before p (err e) = err e
prefixed [] p (ok ps) = ok (p ∷ ps)
prefixed (c ∷ cs) p (ok ps) = ok (literal (c ∷ cs) ∷ p ∷ ps)

abbrev pub Loop : Type 0
Loop = Text → Option (Result (List Part))

abbrev pub join : Text → Part → Option (Result (List Part)) → Option (Result (List Part))
join before p none = none
join before p (some r) = some (prefixed before p r)

-- A token that is refused ends the loop before the rest is read.
abbrev pub token_part : Loop → Text → Text → Result Part → Option (Result (List Part))
token_part loop before after (err e) = some (err e)
token_part loop before after (ok p) = join before p (loop after)

abbrev pub closed : Loop → Text → Option (Text × Text) → Option (Result (List Part))
closed loop before none = some (err (error config_template_syntax ""))
closed loop before (some (token, after)) =
    token_part loop before after (compile_token (trim_space token))

abbrev pub opened : Loop → Text → Option (Text × Text) → Option (Result (List Part))
opened loop rest none = some (ok (text_part rest))
opened loop rest (some (before, after)) = closed loop before (cut_pair b'}' after)

-- The loop over the rest of the source; `none` when the fuel ran out.
unfoldable pub compile_parts : ℕ → Loop
compile_parts zero rest = none
compile_parts (suc fuel) rest = opened (compile_parts fuel) rest (cut_pair b'{' rest)

-- A template that is one token and nothing else keeps the type of its value.
unfoldable pub solo_of : List Part → Option Part
solo_of [] = none
solo_of (literal t ∷ []) = none
solo_of (p ∷ []) = some p
solo_of (p ∷ _ ∷ _) = none

abbrev pub template : Text → Result (List Part) → Result Template
template source (err e) = err e
template source (ok ps) = ok (record { source = source; parts = ps; solo = solo_of ps })

abbrev pub finished : Text → Option (Result (List Part)) → Option (Result Template)
finished source none = none
finished source (some r) = some (template source r)

-- Each round reads at least four bytes, so the length and one is fuel enough.
unfoldable pub compile : Text → Option (Result Template)
compile source = finished source (compile_parts (suc (length source)) source)

abbrev pub is_literal : Part → Bool
is_literal (literal _) = true
is_literal _ = false

unfoldable pub is_static : Template → Bool
is_static t = all is_literal t.parts

-- `Literal`: a value that is typed already, with the text that fmt.Sprint gives for it.
unfoldable pub wrapped : Text → Value → Template
wrapped shown v = record { source = shown; parts = value v ∷ []; solo = some (value v) }
