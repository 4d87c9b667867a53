-- ===== src/Template/Literals.antt =====
-- What the parts of a compiled template hold.
use tracepoint.Base.{
  ℕ, zero, suc, ◌≡◌, refl, ap, Bool, true, false, ◌&&◌, not, Option, none, some, List, [], ◌∷◌, all,
  arith, length, if◌then◌else◌, subst,
}
use tracepoint.Base.{◌==◌ as nat_eq}
use tracepoint.Base.Text.{Text, cut_pair, starts_with, behind, tail, trim_space}
use tracepoint.Errs.{Result, ok, err, OnOk}
use tracepoint.Template.{Part, literal, var, feeder, gen, value, Template}
use tracepoint.Template.Compile.{
  Loop, compile_parts, compile, opened, closed, token_part, join, finished, compile_token, prefixed,
  text_part,
}
use tracepoint.Template.Valid.{is_token, IsToken, compile_token-IsToken}

abbrev is_some {ℓ} : {A : Type ℓ} → Option A → Bool
is_some none = false
is_some (some _) = true

abbrev pub opens : Text → Bool
opens t = is_some (cut_pair b'{' t)

-- A literal that holds no `{{`, or a token that can be rendered.
abbrev pub is_sound : Part → Bool
is_sound (literal t) = not (opens t)
is_sound (var n) = is_token (var n)
is_sound (feeder n c) = is_token (feeder n c)
is_sound (gen g) = is_token (gen g)
is_sound (value v) = is_token (value v)

cut_pair_head : (b c x0 : ℕ) (cs x y : Text) → cut_pair b (c ∷ cs) ≡ some (x0 ∷ x, y) → x0 ≡ c
unfolding cut_pair
cut_pair_head b c x0 [] x y h = ground arith
cut_pair_head b c x0 (d ∷ cs) x y h = ground arith

cut_pair_cons :
    (b c : ℕ) (cs : Text)
    → cut_pair b (c ∷ cs)
      ≡ (if nat_eq c b && starts_with b cs then some ([], tail cs) else behind c (cut_pair b cs))
unfolding cut_pair
cut_pair_cons b c cs = refl

cut_pair_step :
    (b c d x0 : ℕ) (cs x y : Text)
    → cut_pair b (c ∷ d ∷ cs) ≡ some (x0 ∷ x, y)
    → (cut_pair b (d ∷ cs) ≡ some (x, y)) × ((nat_eq c b && nat_eq d b) ≡ false)
cut_pair_step b c d x0 cs x y h = ground (arith, cut_pair_cons b c (d ∷ cs))

cut_pair-before : (b : ℕ) (s x y : Text) → cut_pair b s ≡ some (x, y) → cut_pair b x ≡ none
cut_pair-before b s [] y h = unfold cut_pair in refl
cut_pair-before b [] (x0 ∷ x) y h = unfold cut_pair in ground arith
cut_pair-before b (c ∷ []) (x0 ∷ x) y h = unfold cut_pair in ground arith
cut_pair-before b (c ∷ d ∷ cs) (x0 ∷ []) y h = unfold cut_pair in ground arith
cut_pair-before b (c ∷ d ∷ cs) (x0 ∷ x1 ∷ x) y h =
    let (i, k) = cut_pair_step b c d x0 cs (x1 ∷ x) y h in
    let ih = cut_pair-before b (d ∷ cs) (x1 ∷ x) y i in
    ground (
      arith,
      k,
      ih,
      cut_pair_cons b x0 (x1 ∷ x),
      cut_pair_head b c x0 (d ∷ cs) (x1 ∷ x) y h,
      cut_pair_head b d x1 cs x y i,
    )

not-opens : (t : Text) → cut_pair b'{' t ≡ none → not (opens t) ≡ true
not-opens t h = ap (λ o. not (is_some o)) h

abbrev Sound : Option (Result (List Part)) → Type 0
Sound none = Unit
Sound (some r) = OnOk (λ ps. all is_sound ps ≡ true) r

sound_of_token : (p : Part) → is_token p ≡ true → is_sound p ≡ true
sound_of_token (literal t) h = cc
sound_of_token (var n) h = h
sound_of_token (feeder n c) h = h
sound_of_token (gen g) h = h
sound_of_token (value v) h = h

text_part-Sound : (t : Text) → cut_pair b'{' t ≡ none → Sound (some (ok (text_part t)))
unfolding all
text_part-Sound [] h = refl
text_part-Sound (c ∷ cs) h = ground (arith, not-opens (c ∷ cs) h)

prefixed-Sound :
    (before : Text) (p : Part) (r : Result (List Part))
    → cut_pair b'{' before ≡ none
    → is_sound p ≡ true
    → Sound (some r)
    → Sound (some (prefixed before p r))
unfolding all
prefixed-Sound [] p (err e) b h k = tt
prefixed-Sound (c ∷ cs) p (err e) b h k = tt
prefixed-Sound [] p (ok ps) b h k = ground arith
prefixed-Sound (c ∷ cs) p (ok ps) b h k = ground (arith, not-opens (c ∷ cs) b)

join-Sound :
    (before : Text) (p : Part) (o : Option (Result (List Part)))
    → cut_pair b'{' before ≡ none
    → is_sound p ≡ true
    → Sound o
    → Sound (join before p o)
join-Sound before p none b h k = tt
join-Sound before p (some r) b h k = prefixed-Sound before p r b h k

token_part-Sound :
    (loop : Loop) (before after : Text) (r : Result Part)
    → cut_pair b'{' before ≡ none
    → IsToken r
    → ((t : Text) → Sound (loop t))
    → Sound (token_part loop before after r)
token_part-Sound loop before after (err e) b h more = tt
token_part-Sound loop before after (ok p) b h more =
    join-Sound before p (loop after) b (sound_of_token p h) (more after)

closed-Sound :
    (loop : Loop) (before : Text) (o : Option (Text × Text))
    → cut_pair b'{' before ≡ none
    → ((t : Text) → Sound (loop t))
    → Sound (closed loop before o)
closed-Sound loop before none b more = tt
closed-Sound loop before (some (token, after)) b more =
    token_part-Sound loop before after (compile_token (trim_space token)) b
      (compile_token-IsToken (trim_space token)) more

opened-Sound :
    (loop : Loop) (s : Text) (o : Option (Text × Text))
    → cut_pair b'{' s ≡ o
    → ((t : Text) → Sound (loop t))
    → Sound (opened loop s o)
opened-Sound loop s none e more = text_part-Sound s e
opened-Sound loop s (some (before, after)) e more =
    closed-Sound loop before (cut_pair b'}' after) (cut_pair-before b'{' s before after e) more

compile_parts-Sound : (fuel : ℕ) (s : Text) → Sound (compile_parts fuel s)
unfolding compile_parts
compile_parts-Sound zero s = tt
compile_parts-Sound (suc fuel) s =
    opened-Sound (compile_parts fuel) s (cut_pair b'{' s) refl (λ t. compile_parts-Sound fuel t)

-- What holds of a compiled template's parts.
abbrev PartsHold {κ} : (List Part → Type κ) → Option (Result Template) → Type κ
PartsHold P none = Unit
PartsHold P (some r) = OnOk (λ t. P t.parts) r

finished-Sound :
    (source : Text) (o : Option (Result (List Part)))
    → Sound o
    → PartsHold (λ ps. all is_sound ps ≡ true) (finished source o)
finished-Sound source none h = tt
finished-Sound source (some (err e)) h = tt
finished-Sound source (some (ok ps)) h = h

-- No token is left in the text of a compiled template: a literal part holds no `{{`, a variable is an
-- identifier, a feeder reference has both names, and a generator has arguments in its bounds.
pub compile_sound :
    (source : Text) (t : Template) → compile source ≡ some (ok t) → all is_sound t.parts ≡ true
unfolding compile
compile_sound source t h = subst (PartsHold (λ ps. all is_sound ps ≡ true)) h (
    finished-Sound source (compile_parts (suc (length source)) source)
      (compile_parts-Sound (suc (length source)) source))
