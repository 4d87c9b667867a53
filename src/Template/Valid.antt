-- ===== src/Template/Valid.antt =====
-- A token is compiled only to what can be rendered.
use tracepoint.Base.{
  ◌≡◌, refl, Bool, true, false, ◌&&◌, ◌||◌, not, Option, none, some, List, [], ◌∷◌, any, length,
  arith, ltb, leb, if◌then◌else◌,
}
use tracepoint.Base.Int.{ℤ, ltb_ℤ, pos, pos_part}
use tracepoint.Base.Int64.{parse_int}
use tracepoint.Base.Text.{
  Text, codes, ◌==◌, contains, equal_fold, fields_func, is_space, cut, trim_space,
}
use tracepoint.Errs.{Result, OnOk}
use tracepoint.Template.{
  Part, literal, var, feeder, gen, value, Generator, rand_int, rand_string, uuid, seq, now, pick,
}
use tracepoint.Template.Compile.{
  compile_token, compile_pick, compile_rand_int, compile_rand_string, compile_generator,
  no_arguments, ordered, sized, column_of, resolved, is_identifier, max_rand_string_length, is_nil,
  choices, known_funcs,
}

-- The arguments that a generator can be called with.
abbrev pub in_bounds : Generator → Bool
in_bounds (rand_int lo hi) = not (ltb_ℤ hi lo)
in_bounds (rand_string n) = ltb 0 n && leb n max_rand_string_length
in_bounds (pick cs) = leb 2 (length cs) && not (any is_nil cs)
in_bounds uuid = true
in_bounds seq = true
in_bounds now = true

-- A part that a token stands for: no literal and no wrapped value.
abbrev pub is_token : Part → Bool
is_token (literal _) = false
is_token (var name) = is_identifier name
is_token (feeder name column) = not (is_nil name) && not (is_nil column)
is_token (gen g) = in_bounds g
is_token (value _) = false

abbrev pub IsToken : Result Part → Type 0
IsToken r = OnOk (λ p. is_token p ≡ true) r

-- A test that refuses, and what follows it.
if-IsToken :
    (b : Bool) (r s : Result Part)
    → (b ≡ true → IsToken r)
    → (b ≡ false → IsToken s)
    → IsToken (if b then r else s)
if-IsToken true r s h k = h refl
if-IsToken false r s h k = k refl

compile_pick-IsToken : (raw : Text) → IsToken (compile_pick raw)
unfolding compile_pick
compile_pick-IsToken [] = tt
compile_pick-IsToken (c ∷ cs) =
    if-IsToken (any is_nil (choices (c ∷ cs))) _ _ (λ e. tt)
      (λ e. if-IsToken (ltb (length (choices (c ∷ cs))) 2) _ _ (λ k. tt) (λ k. ground arith))

ordered-IsToken : (lo hi : Option ℤ) → IsToken (ordered lo hi)
ordered-IsToken none hi = tt
ordered-IsToken (some lo) none = tt
ordered-IsToken (some lo) (some hi) = if-IsToken (ltb_ℤ hi lo) _ _ (λ e. tt) (λ e. ground arith)

sized-IsToken : (n : Option ℤ) → IsToken (sized n)
sized-IsToken none = tt
sized-IsToken (some n) =
    if-IsToken (not (ltb_ℤ (pos 0) n)) _ _ (λ e. tt)
      (λ e. if-IsToken (ltb max_rand_string_length (pos_part n)) _ _ (λ k. tt) (λ k. ground arith))

compile_rand_int-IsToken : (args : List Text) → IsToken (compile_rand_int args)
unfolding compile_rand_int
compile_rand_int-IsToken [] = tt
compile_rand_int-IsToken (a ∷ []) = tt
compile_rand_int-IsToken (a ∷ b ∷ []) = ordered-IsToken (parse_int a) (parse_int b)
compile_rand_int-IsToken (a ∷ b ∷ c ∷ cs) = tt

compile_rand_string-IsToken : (args : List Text) → IsToken (compile_rand_string args)
unfolding compile_rand_string
compile_rand_string-IsToken [] = tt
compile_rand_string-IsToken (a ∷ []) = sized-IsToken (parse_int a)
compile_rand_string-IsToken (a ∷ b ∷ cs) = tt

no_arguments-IsToken :
    (g : Generator) (args : List Text) → in_bounds g ≡ true → IsToken (no_arguments g args)
no_arguments-IsToken g [] h = h
no_arguments-IsToken g (_ ∷ _) h = tt

compile_generator-IsToken : (name raw : Text) → IsToken (compile_generator name raw)
unfolding compile_generator
compile_generator-IsToken name raw =
    let args = fields_func is_space raw in
    if-IsToken (name == codes "pick") _ _ (λ _. compile_pick-IsToken raw)
      (λ _.
        if-IsToken (name == codes "randInt") _ _ (λ _. compile_rand_int-IsToken args)
          (λ _.
            if-IsToken (name == codes "randString") _ _ (λ _. compile_rand_string-IsToken args)
              (λ _.
                if-IsToken (name == codes "uuid") _ _ (λ _. no_arguments-IsToken uuid args refl)
                  (λ _.
                    if-IsToken (name == codes "seq") _ _ (λ _. no_arguments-IsToken seq args refl)
                      (λ _. no_arguments-IsToken now args refl)))))

column_of-IsToken : (name : Text) (o : Option (Text × Text)) → IsToken (column_of name o)
column_of-IsToken name none = if-IsToken (is_identifier name) _ _ (λ e. e) (λ _. tt)
column_of-IsToken name (some (source, column)) =
    if-IsToken (is_nil source || is_nil column) _ _ (λ _. tt) (λ e. ground arith)

resolved-IsToken : (token : Text) (o : Option (Text × Text)) → IsToken (resolved token o)
resolved-IsToken token (some (name, raw)) =
    if-IsToken (contains known_funcs name) _ _
      (λ _. compile_generator-IsToken name (trim_space raw)) (λ _. tt)
resolved-IsToken token none =
    if-IsToken (contains known_funcs token) _ _ (λ _. compile_generator-IsToken token [])
      (λ _.
        if-IsToken (any (λ known. equal_fold known token) known_funcs) _ _ (λ _. tt)
          (λ _. column_of-IsToken token (cut b'.' token)))

pub compile_token-IsToken : (token : Text) → IsToken (compile_token token)
unfolding compile_token
compile_token-IsToken [] = tt
compile_token-IsToken (c ∷ cs) = resolved-IsToken (c ∷ cs) (cut b' ' (c ∷ cs))
