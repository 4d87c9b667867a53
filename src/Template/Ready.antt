-- ===== src/Template/Ready.antt =====
-- Templates whose rendering cannot panic.
use tracepoint.Base.{
  ℕ, zero, suc, Bool, true, false, ◌&&◌, ◌||◌, ◌≡◌, refl, Option, none, some, List, [], ◌∷◌, ◌++◌,
  all, arith, Bool-cases, inl, inr,
}
use tracepoint.Base.Int.{ℤ, pos, negsuc, eqb_ℤ}
use tracepoint.Base.Int64.{add64, sub64}
use tracepoint.Base.Text.{Text}
use tracepoint.Errs.{Error}
use tracepoint.Template.{
  Generator, rand_int, rand_string, uuid, seq, now, pick, Value, Part, literal, var, feeder, gen,
  value, Template,
}
use tracepoint.Template.Compile.{is_static}
use tracepoint.Template.Render.{
  Rand, World, Out, done, failed, panic, Context, generate, draw_above, found, row_value, var_value,
  feeder_value, render_value, render_parts, render, render_typed, alone, as_value, text_of,
}

-- The bound of a draw is positive.
abbrev is_positive : ℤ → Bool
is_positive (pos zero) = false
is_positive (pos (suc n)) = true
is_positive (negsuc n) = false

-- A generator that has something to draw from.
abbrev pub is_ready_generator : Generator → Bool
is_ready_generator (rand_int lo hi) =
    eqb_ℤ (sub64 hi lo) (pos 0) || is_positive (add64 (sub64 hi lo) (pos 1))
is_ready_generator (pick []) = false
is_ready_generator _ = true

abbrev pub is_ready_part : Part → Bool
is_ready_part (gen g) = is_ready_generator g
is_ready_part _ = true

abbrev is_ready_solo : Option Part → Bool
is_ready_solo none = true
is_ready_solo (some p) = is_ready_part p

abbrev pub is_ready : Template → Bool
is_ready t = all is_ready_part t.parts && is_ready_solo t.solo

module _ (rand : Rand) where
  abbrev pub returns : {A : Type 0} → Out rand A → Bool
  returns panic = false
  returns (done a w) = true
  returns (failed e w) = true

  draw_above-returns :
      (lo n : ℤ) (w : World rand) → is_positive n ≡ true → returns (draw_above rand lo n w) ≡ true
  draw_above-returns lo (pos zero) w h = cc
  draw_above-returns lo (pos (suc n)) w h = ground arith
  draw_above-returns lo (negsuc n) w h = cc

  generate-returns :
      (clock : ℕ) (g : Generator) (w : World rand)
      → is_ready_generator g ≡ true
      → returns (generate rand clock g w) ≡ true
  unfolding generate
  generate-returns clock (rand_int lo hi) w h = elim (Bool-cases (eqb_ℤ (sub64 hi lo) (pos 0))) [
    | inl e ↦ rw e refl
    | inr e ↦ rw e (draw_above-returns lo (add64 (sub64 hi lo) (pos 1)) w (ground arith))
  ]
  generate-returns clock (rand_string n) w h = refl
  generate-returns clock uuid w h = refl
  generate-returns clock seq w h = refl
  generate-returns clock now w h = refl
  generate-returns clock (pick []) w h = cc
  generate-returns clock (pick (c ∷ cs)) w h = refl

  found-returns : (e : Error) (o : Option Text) (w : World rand) → returns (found rand e o w) ≡ true
  found-returns e none w = refl
  found-returns e (some t) w = refl

  row_value-returns :
      (column : Text) (o : Option (Text → Option Text)) (w : World rand)
      → returns (row_value rand column o w) ≡ true
  row_value-returns column none w = refl
  row_value-returns column (some row) w = found-returns _ (row column) w

  var_value-returns :
      (name : Text) (o : Option (Text → Option Text)) (w : World rand)
      → returns (var_value rand name o w) ≡ true
  var_value-returns name none w = refl
  var_value-returns name (some vars) w = found-returns _ (vars name) w

  feeder_value-returns :
      (name column : Text) (o : Option (Text → Option (Text → Option Text))) (w : World rand)
      → returns (feeder_value rand name column o w) ≡ true
  feeder_value-returns name column none w = refl
  feeder_value-returns name column (some rows) w = row_value-returns column (rows name) w

  render_value-returns :
      (clock : ℕ) (ctx : Context) (p : Part) (w : World rand)
      → is_ready_part p ≡ true
      → returns (render_value rand clock ctx p w) ≡ true
  unfolding render_value
  render_value-returns clock ctx (literal t) w h = refl
  render_value-returns clock ctx (value v) w h = refl
  render_value-returns clock ctx (var name) w h = var_value-returns name ctx.vars w
  render_value-returns clock ctx (feeder name column) w h =
      feeder_value-returns name column ctx.rows w
  render_value-returns clock ctx (gen g) w h = elim (Bool-cases ctx.has_source) [
    | inl s ↦ rw s (generate-returns clock g w h)
    | inr s ↦ rw s refl
  ]

  module _ (format_time : ℕ → Text) (clock : ℕ) (ctx : Context) where
    render_parts-returns :
        (ps : List Part) (acc : Text) (w : World rand)
        → all is_ready_part ps ≡ true
        → returns (render_parts rand format_time clock ctx ps acc w) ≡ true
    unfolding render_parts all
    render_parts-returns [] acc w h = refl
    render_parts-returns (p ∷ ps) acc w h =
        rest (λ v w'. render_parts-returns ps (acc ++ text_of rand format_time v) w' (ground arith))
          (render_value rand clock ctx p w) (render_value-returns clock ctx p w (ground arith))
      where
        rest :
            ((v : Value) (w' : World rand)
              → returns (
                  render_parts rand format_time clock ctx ps (acc ++ text_of rand format_time v) w')
                ≡ true)
            → (o : Out rand Value) → returns o ≡ true
            → returns (elim o [
              | panic ↦ panic
              | failed e w' ↦ failed e w'
              | done v w' ↦
                  render_parts rand format_time clock ctx ps (acc ++ text_of rand format_time v) w'
            ])
              ≡ true
        rest later panic h = cc
        rest later (failed e w') h = refl
        rest later (done v w') h = later v w'

    pub render-returns :
        (t : Template) (w : World rand)
        → is_ready t ≡ true
        → returns (render rand format_time clock ctx t w) ≡ true
    unfolding render
    render-returns t w h = elim (Bool-cases (is_static t)) [
      | inl s ↦ rw s refl
      | inr s ↦ rw s (render_parts-returns t.parts [] w (ground arith))
    ]

    as_value-returns :
        (o : Out rand Text) → returns o ≡ true → returns (as_value rand format_time o) ≡ true
    as_value-returns panic h = cc
    as_value-returns (failed e w) h = refl
    as_value-returns (done t w) h = refl

    alone-returns :
        (o : Option Part) (t : Template) (w : World rand)
        → is_ready t ≡ true
        → is_ready_solo o ≡ true
        → returns (alone rand format_time clock ctx o t w) ≡ true
    alone-returns none t w h k = as_value-returns _ (render-returns t w h)
    alone-returns (some p) t w h k = render_value-returns clock ctx p w k

    -- A template whose generators have something to draw from renders or fails, and does not panic.
    pub render_typed-returns :
        (t : Template) (w : World rand)
        → is_ready t ≡ true
        → returns (render_typed rand format_time clock ctx t w) ≡ true
    unfolding render_typed
    render_typed-returns t w h = alone-returns t.solo t w h (ground arith)
