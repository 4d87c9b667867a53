-- ===== src/Runner/Redis/Fast.antt =====
-- The arguments that are resolved when a command is compiled are those that rendering would give.
use tracepoint.Base.{
  All, ℕ, true, ◌≡◌, refl, sym, ◌∙◌, subst, Option, none, some, List, [], ◌∷◌, all, map, arith,
  Bool-cases, inl, inr,
}
use tracepoint.Base.Int.{ℤ}
use tracepoint.Base.Float.{Float}
use tracepoint.Base.Text.{Text}
use tracepoint.Errs.{Result, ok, err, OnOk}
use tracepoint.Config.{Command}
use tracepoint.Template.{Template, Part, literal, var, feeder, gen, value, str}
use tracepoint.Template.Compile.{compile, template, finished, solo_of, is_static, is_literal}
use tracepoint.Template.Render.{Rand, World, done, Context, render, render_typed, alone}
use tracepoint.Runner.Sql.{template_of, template_of_lem, behind_first}
use tracepoint.Runner.Redis.{
  CompiledCommand, compile_unit, compile_units, all_static, sources, static_of, units_of,
  command_of, compile_command, wrapped, render_unit, render_units, render_command, resolved_or,
}

-- A template as `Compile` makes it: what it keeps alone is its only part.
IsMade : Template → Type 0
IsMade t = t.solo ≡ solo_of t.parts

solo_of-static : (ps : List Part) → all is_literal ps ≡ true → solo_of ps ≡ none
unfolding solo_of all
solo_of-static [] h = refl
solo_of-static (literal t ∷ []) h = refl
solo_of-static (var n ∷ []) h = cc
solo_of-static (feeder n c ∷ []) h = cc
solo_of-static (gen g ∷ []) h = cc
solo_of-static (value v ∷ []) h = cc
solo_of-static (literal t ∷ p ∷ ps) h = refl
solo_of-static (var n ∷ p ∷ ps) h = cc
solo_of-static (feeder n c ∷ p ∷ ps) h = cc
solo_of-static (gen g ∷ p ∷ ps) h = cc
solo_of-static (value v ∷ p ∷ ps) h = cc

finished-IsMade :
    (source : Text) (o : Option (Result (List Part))) (r : Result Template)
    → finished source o ≡ some r
    → OnOk IsMade r
finished-IsMade source none r h = cc
finished-IsMade source (some x) r h = subst (OnOk IsMade) k (made x)
  where
    k : template source x ≡ r
    k = cc

    made : (x : Result (List Part)) → OnOk IsMade (template source x)
    made (err e) = tt
    made (ok ps) = unfold IsMade in refl

template_of-IsMade : (source : Text) → OnOk IsMade (template_of source)
unfolding compile
template_of-IsMade source = finished-IsMade source _ (template_of source) (template_of_lem source)

behind_first-All :
    {A : Type 0} (P : A → Type 0) (x : Result A) (rest : Result (List A))
    → OnOk P x
    → OnOk (All P) rest
    → OnOk (All P) (behind_first x rest)
behind_first-All P (err e) rest h k = tt
behind_first-All P (ok a) (err e) h k = tt
behind_first-All P (ok a) (ok as') h k = (h, k)

wrapped-IsMade : (x : Result Template) → OnOk IsMade x → OnOk IsMade (wrapped x)
wrapped-IsMade (err e) h = tt
wrapped-IsMade (ok t) h = h

compile_unit-IsMade : (args : List Text) → OnOk (All IsMade) (compile_unit args)
unfolding compile_unit
compile_unit-IsMade [] = tt
compile_unit-IsMade (arg ∷ args) =
    behind_first-All IsMade (wrapped (template_of arg)) (compile_unit args)
      (wrapped-IsMade (template_of arg) (template_of-IsMade arg)) (compile_unit-IsMade args)

compile_units-IsMade : (us : List (List Text)) → OnOk (All (All IsMade)) (compile_units us)
unfolding compile_units
compile_units-IsMade [] = tt
compile_units-IsMade (u ∷ us) =
    behind_first-All (All IsMade) (compile_unit u) (compile_units us) (compile_unit-IsMade u)
      (compile_units-IsMade us)

module _ (rand : Rand) (format_time : ℕ → Text) (clock : ℕ) (ctx : Context) where
  alone-none :
      (o : Option Part) (t : Template) (w : World rand)
      → o ≡ none
      → is_static t ≡ true
      → alone rand format_time clock ctx o t w ≡ done (str t.source) w
  unfolding render
  alone-none none t w e h = rw h refl
  alone-none (some p) t w e h = cc

  render_typed-static :
      (t : Template) (w : World rand)
      → IsMade t
      → is_static t ≡ true
      → render_typed rand format_time clock ctx t w ≡ done (str t.source) w
  unfolding render_typed IsMade is_static
  render_typed-static t w m h = alone-none t.solo t w (m ∙ solo_of-static t.parts h) h

  render_unit-sources :
      (ts : List Template) (w : World rand)
      → All IsMade ts
      → all is_static ts ≡ true
      → render_unit rand format_time clock ctx ts w ≡ done (sources ts) w
  unfolding render_unit all
  render_unit-sources [] w m h = refl
  render_unit-sources (t ∷ ts) w m h =
      rw (render_unit, render_typed-static t w m.0 (ground arith))
        (rw (render_unit-sources ts w m.1 (ground arith)) refl)

  render_units-sources :
      (us : List (List Template)) (w : World rand)
      → All (All IsMade) us
      → all_static us ≡ true
      → render_units rand format_time clock ctx us w ≡ done (map sources us) w
  unfolding render_units all_static all
  render_units-sources [] w m h = refl
  render_units-sources (u ∷ us) w m h =
      rw (render_units, render_unit-sources u w m.0 (ground arith))
        (rw (render_units-sources us w m.1 (ground arith)) refl)

  resolved_or-static_of :
      (us : List (List Template)) (w : World rand)
      → All (All IsMade) us
      → resolved_or rand format_time clock ctx (static_of us) us w
        ≡ render_units rand format_time clock ctx us w
  resolved_or-static_of [] w m = refl
  resolved_or-static_of (u ∷ us) w m = elim (Bool-cases (all_static (u ∷ us))) [
    | inl s ↦ rw s (sym (render_units-sources (u ∷ us) w m s))
    | inr s ↦ rw s refl
  ]

  module _ (f : Float) (default : ℤ) (label_id : Text → ℕ) where
    command_of-renders :
        (src : Command f) (r : Result (List (List Template))) (w : World rand)
        → OnOk (All (All IsMade)) r
        → OnOk
            (λ c.
              render_command rand format_time clock ctx c w
              ≡ render_units rand format_time clock ctx c.parts w)
            (command_of f default label_id src r)
    unfolding render_command
    command_of-renders src (err e) w m = tt
    command_of-renders src (ok parts) w m = resolved_or-static_of parts w m

    -- The fast path of the Redis runner agrees with the slow one: whatever command is compiled, its
    -- arguments, resolved once where none has a token, are those that rendering every part of it gives,
    -- and the random source is left as rendering leaves it.
    pub compile_command-renders :
        (src : Command f) (c : CompiledCommand) (w : World rand)
        → compile_command f default label_id src ≡ ok c
        → render_command rand format_time clock ctx c w
          ≡ render_units rand format_time clock ctx c.parts w
    unfolding compile_command
    compile_command-renders src c w h =
        subst
          (OnOk (λ c.
            render_command rand format_time clock ctx c w
            ≡ render_units rand format_time clock ctx c.parts w))
          h
          (command_of-renders src (compile_units (units_of f default label_id src)) w
            (compile_units-IsMade (units_of f default label_id src)))
