-- ===== src/Template/Static.antt =====
-- A template with no token renders to its source, as its parts would.
use tracepoint.Base.{
  ℕ, zero, suc, ◌≡◌, refl, sym, ap, ◌∙◌, true, false, Option, none, some, List, [], ◌∷◌, ◌++◌, all,
  arith, length, subst,
}
use mathlib.Core.List.{append-nil, append_assoc}
use tracepoint.Base.Text.{Text, cut_pair, trim_space}
use tracepoint.Errs.{Result, ok, err, OnOk}
use tracepoint.Template.{Part, literal, var, feeder, gen, value, Template}
use tracepoint.Template.Compile.{
  Loop, compile_parts, compile, opened, closed, token_part, join, finished, compile_token,
  text_part, is_static, is_literal,
}
use tracepoint.Template.Render.{
  Rand, World, done, Context, render, render_parts, render_value, text_of,
}
use tracepoint.Template.Valid.{is_token, IsToken, compile_token-IsToken}

-- The literals of a template, one after the other.
unfoldable pub literals : List Part → Text
literals [] = []
literals (literal t ∷ ps) = t ++ literals ps
literals (p ∷ ps) = literals ps

-- Some part is a token.
abbrev HasToken : Option (Result (List Part)) → Type 0
HasToken none = Unit
HasToken (some r) = OnOk (λ ps. all is_literal ps ≡ false) r

token_no_literal : (p : Part) → is_token p ≡ true → is_literal p ≡ false
token_no_literal (literal t) h = cc
token_no_literal (var n) h = refl
token_no_literal (feeder n c) h = refl
token_no_literal (gen g) h = refl
token_no_literal (value v) h = refl

join-HasToken :
    (before : Text) (p : Part) (o : Option (Result (List Part)))
    → is_literal p ≡ false
    → HasToken (join before p o)
unfolding all
join-HasToken before p none h = tt
join-HasToken [] p (some (err e)) h = tt
join-HasToken (c ∷ cs) p (some (err e)) h = tt
join-HasToken [] p (some (ok ps)) h = ground arith
join-HasToken (c ∷ cs) p (some (ok ps)) h = ground arith

token_part-HasToken :
    (loop : Loop) (before after : Text) (r : Result Part)
    → IsToken r
    → HasToken (token_part loop before after r)
token_part-HasToken loop before after (err e) h = tt
token_part-HasToken loop before after (ok p) h =
    join-HasToken before p (loop after) (token_no_literal p h)

closed-HasToken :
    (loop : Loop) (before : Text) (o : Option (Text × Text)) → HasToken (closed loop before o)
closed-HasToken loop before none = tt
closed-HasToken loop before (some (token, after)) =
    token_part-HasToken loop before after (compile_token (trim_space token))
      (compile_token-IsToken (trim_space token))

-- Where all parts are literals, they are the text.
abbrev Static : Text → Option (Result (List Part)) → Type 0
Static s none = Unit
Static s (some r) = OnOk (λ ps. all is_literal ps ≡ true → literals ps ≡ s) r

Static-of_token : (s : Text) (o : Option (Result (List Part))) → HasToken o → Static s o
Static-of_token s none h = tt
Static-of_token s (some (err e)) h = tt
Static-of_token s (some (ok ps)) h = λ k. cc

text_part-Static : (s : Text) → Static s (some (ok (text_part s)))
unfolding literals
text_part-Static [] = λ k. refl
text_part-Static (c ∷ cs) = λ k. append-nil (c ∷ cs)

opened-Static : (loop : Loop) (s : Text) (o : Option (Text × Text)) → Static s (opened loop s o)
opened-Static loop s none = text_part-Static s
opened-Static loop s (some (before, after)) =
    Static-of_token s _ (closed-HasToken loop before (cut_pair b'}' after))

compile_parts-Static : (fuel : ℕ) (s : Text) → Static s (compile_parts fuel s)
unfolding compile_parts
compile_parts-Static zero s = tt
compile_parts-Static (suc fuel) s = opened-Static (compile_parts fuel) s (cut_pair b'{' s)

abbrev StaticTemplate : Option (Result Template) → Type 0
StaticTemplate none = Unit
StaticTemplate (some r) = OnOk (λ t. all is_literal t.parts ≡ true → literals t.parts ≡ t.source) r

finished-Static :
    (s : Text) (o : Option (Result (List Part))) → Static s o → StaticTemplate (finished s o)
finished-Static s none h = tt
finished-Static s (some (err e)) h = tt
finished-Static s (some (ok ps)) h = h

-- The literal parts of a compiled template that is static are, one after the other, its source.
compile-static :
    (source : Text) (t : Template)
    → compile source ≡ some (ok t)
    → is_static t ≡ true
    → literals t.parts ≡ t.source
unfolding compile is_static
compile-static source t h k =
    subst StaticTemplate h
      (finished-Static source (compile_parts (suc (length source)) source)
        (compile_parts-Static (suc (length source)) source))
      k

static_parts : (t : Template) → is_static t ≡ true → all is_literal t.parts ≡ true
unfolding is_static
static_parts t h = h

pub source_of-compile :
    (source : Text) (t : Template) → compile source ≡ some (ok t) → t.source ≡ source
unfolding compile
source_of-compile source t h =
    subst (Kept source) h (kept (compile_parts (suc (length source)) source))
  where
    Kept : Text → Option (Result Template) → Type 0
    Kept s none = Unit
    Kept s (some r) = OnOk (λ t. t.source ≡ s) r

    kept : (o : Option (Result (List Part))) → Kept source (finished source o)
    kept none = tt
    kept (some (err e)) = tt
    kept (some (ok ps)) = refl

module _ (rand : Rand) (format_time : ℕ → Text) (clock : ℕ) (ctx : Context) where
  render_parts-literals :
      (ps : List Part) (acc : Text) (w : World rand)
      → all is_literal ps ≡ true
      → render_parts rand format_time clock ctx ps acc w ≡ done (acc ++ literals ps) w
  unfolding render_parts render_value text_of literals all
  render_parts-literals [] acc w h = ap (λ t. done t w) (sym (append-nil acc))
  render_parts-literals (literal t ∷ ps) acc w h =
      render_parts-literals ps (acc ++ t) w h
      ∙ ap (λ t'. done t' w) (append_assoc acc t (literals ps))
  render_parts-literals (var n ∷ ps) acc w h = cc
  render_parts-literals (feeder n c ∷ ps) acc w h = cc
  render_parts-literals (gen g ∷ ps) acc w h = cc
  render_parts-literals (value v ∷ ps) acc w h = cc

  -- The fast path of Render agrees with the slow one: where a compiled template is static, Render gives
  -- what its loop over the parts gives, which is the source, and neither changes the random source or
  -- the counter.
  pub compile-render :
      (source : Text) (t : Template) (w : World rand)
      → compile source ≡ some (ok t)
      → is_static t ≡ true
      → (render rand format_time clock ctx t w
          ≡ render_parts rand format_time clock ctx t.parts [] w)
        × (render rand format_time clock ctx t w ≡ done source w)
  unfolding render
  compile-render source t w h k =
      let s = source_of-compile source t h in
      let fast : render rand format_time clock ctx t w ≡ done t.source w = rw k refl in
      let slow : render_parts rand format_time clock ctx t.parts [] w ≡ done t.source w =
        render_parts-literals t.parts [] w (static_parts t k)
        ∙ ap (λ t'. done t' w) (compile-static source t h k) in
      (fast ∙ sym slow, fast ∙ ap (λ t'. done t' w) s)
