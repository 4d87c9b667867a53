-- ===== src/Template/Render.antt =====
-- internal/template/render.go. The random source, the clock and the format of times are parameters.
use tracepoint.Base.{
  ℕ, zero, suc, ◌+◌, ◌/◌, ◌%◌, Bool, ◌||◌, Option, none, some, List, [], ◌∷◌, ◌++◌, length,
  if◌then◌else◌, get_or,
}
use tracepoint.Base.{◌==◌ as nat_eq}
use tracepoint.Base.Int.{ℤ, pos, eqb_ℤ}
use tracepoint.Base.Int64.{add64, sub64}
use tracepoint.Base.Decimal.{format_int}
use tracepoint.Base.Text.{Text, codes}
use tracepoint.Errs.{Error, error, internal, config_undefined_variable, config_feeder_not_found}
use tracepoint.Template.{
  Generator, rand_int, rand_string, uuid, seq, now, pick, Value, str, int, time, nil, other, Part,
  literal, var, feeder, gen, value, Template,
}
use tracepoint.Template.Compile.{is_static}

-- math/rand/v2: `int_n` is IntN and Int64N of a positive number, `uint64` is Uint64.
pub record Rand : Type 1 where
  pub Source : Type 0
  pub int_n : ℕ → Source → ℕ × Source
  pub uint64 : Source → ℕ × Source

abbrev pub alphabet : Text
alphabet = codes "abcdefghijklmnopqrstuvwxyzABCDEFGHIJKLMNOPQRSTUVWXYZ0123456789"

abbrev pub hex_digit : ℕ → ℕ
hex_digit d = get_or (codes "0123456789abcdef") d 0

-- The eight bytes of a draw, from the lowest.
unfoldable pub low_bytes : ℕ → ℕ → List ℕ
low_bytes zero x = []
low_bytes (suc n) x = (x % 256) ∷ low_bytes n (x / 256)

-- `b[6] = (b[6] & 0x0f) | 0x40` and `b[8] = (b[8] & 0x3f) | 0x80`, at place `i`.
abbrev pub marked : ℕ → ℕ → ℕ
marked i b = if nat_eq i 6 then b % 16 + 64 else if nat_eq i 8 then b % 64 + 128 else b

unfoldable pub hex_from : ℕ → List ℕ → Text
hex_from i [] = []
hex_from i (b ∷ bs) =
    let rest = hex_digit (marked i b / 16) ∷ hex_digit (marked i b % 16) ∷ hex_from (suc i) bs in
    if nat_eq i 4 || (nat_eq i 6 || (nat_eq i 8 || nat_eq i 10)) then b'-' ∷ rest else rest

unfoldable pub uuid_text : ℕ → ℕ → Text
uuid_text hi lo = hex_from 0 (low_bytes 8 hi ++ low_bytes 8 lo)

-- A context: whether it has a random source and the run's shared state, the variables and the rows;
-- `none` is a nil map.
pub record Context : Type 0 where
  pub has_source : Bool
  pub vars : Option (Text → Option Text)
  pub rows : Option (Text → Option (Text → Option Text))

module _ (rand : Rand) where
  -- What rendering changes: the worker's source, and the run's counter.
  pub record World : Type 0 where
    pub source : rand.Source
    pub seq : ℕ

  -- A result, an error, or a panic.
  pub data Out (A : Type 0) : Type 0 where
    done : A → World → Out A
    failed : Error → World → Out A
    panic : Out A

  abbrev pub with_source : rand.Source → World → World
  with_source s w = record w { source = s }

  -- `rng.Int64N` of a number that must be positive.
  abbrev pub draw_above : ℤ → ℤ → World → Out Value
  draw_above lo (pos n) w =
      if nat_eq n 0
      then panic
      else done (int (add64 lo (pos ((rand.int_n n w.source).0))))
          (with_source (rand.int_n n w.source).1 w)
  draw_above lo (ℤ.negsuc n) w = panic

  unfoldable pub letters : ℕ → rand.Source → Text × rand.Source
  letters zero s = ([], s)
  letters (suc n) s =
      let (i, s') = rand.int_n (length alphabet) s in
      let (rest, s'') = letters n s' in (get_or alphabet i 0 ∷ rest, s'')

  abbrev pub text_drawn : Text × rand.Source → World → Out Value
  text_drawn (t, s) w = done (str t) (with_source s w)

  abbrev pub uuid_drawn : World → Out Value
  uuid_drawn w =
      let (hi, s) = rand.uint64 w.source in
      let (lo, s') = rand.uint64 s in done (str (uuid_text hi lo)) (with_source s' w)

  abbrev pub picked : List Text → World → Out Value
  picked [] w = panic
  picked (c ∷ cs) w =
      let (i, s) = rand.int_n (length (c ∷ cs)) w.source in
      done (str (get_or (c ∷ cs) i [])) (with_source s w)

  unfoldable pub generate : ℕ → Generator → World → Out Value
  generate clock (rand_int lo hi) w =
      if eqb_ℤ (sub64 hi lo) (pos 0)
      then done (int lo) w
      else draw_above lo (add64 (sub64 hi lo) (pos 1)) w
  generate clock (rand_string n) w = text_drawn (letters n w.source) w
  generate clock uuid w = uuid_drawn w
  generate clock seq w = done (int (pos (suc w.seq))) (record w { seq = suc w.seq })
  generate clock (pick cs) w = picked cs w
  generate clock now w = done (time clock) w

  abbrev pub found : Error → Option Text → World → Out Value
  found e none w = failed e w
  found e (some v) w = done (str v) w

  abbrev pub row_value : Text → Option (Text → Option Text) → World → Out Value
  row_value column none w = failed (error config_feeder_not_found "") w
  row_value column (some row) w = found (error config_feeder_not_found "") (row column) w

  abbrev pub var_value : Text → Option (Text → Option Text) → World → Out Value
  var_value name none w = failed (error config_undefined_variable "") w
  var_value name (some vars) w = found (error config_undefined_variable "") (vars name) w

  abbrev pub feeder_value :
      Text → Text → Option (Text → Option (Text → Option Text)) → World → Out Value
  feeder_value name column none w = failed (error config_feeder_not_found "") w
  feeder_value name column (some rows) w = row_value column (rows name) w

  -- A nil context is one with nothing in it.
  unfoldable pub render_value : ℕ → Context → Part → World → Out Value
  render_value clock ctx (literal t) w = done (str t) w
  render_value clock ctx (value v) w = done v w
  render_value clock ctx (var name) w = var_value name ctx.vars w
  render_value clock ctx (feeder name column) w = feeder_value name column ctx.rows w
  render_value clock ctx (gen g) w =
      if ctx.has_source then generate clock g w else failed (error internal "") w

  module _ (format_time : ℕ → Text) where
    unfoldable pub text_of : Value → Text
    text_of (str t) = t
    text_of (int n) = format_int n
    text_of (time t) = format_time t
    text_of nil = []
    text_of (other t) = t

    unfoldable pub render_parts : ℕ → Context → List Part → Text → World → Out Text
    render_parts clock ctx [] acc w = done acc w
    render_parts clock ctx (p ∷ ps) acc w = elim (render_value clock ctx p w) [
      | panic ↦ panic
      | failed e w' ↦ failed e w'
      | done v w' ↦ render_parts clock ctx ps (acc ++ text_of v) w'
    ]

    unfoldable pub render : ℕ → Context → Template → World → Out Text
    render clock ctx t w =
        let rest = render_parts clock ctx t.parts [] w in
        if is_static t then done t.source w else rest

    abbrev pub as_value : Out Text → Out Value
    as_value panic = panic
    as_value (failed e w) = failed e w
    as_value (done t w) = done (str t) w

    -- `RenderValue`, which keeps the type of a lone token.
    abbrev pub alone : ℕ → Context → Option Part → Template → World → Out Value
    alone clock ctx none t w = as_value (render clock ctx t w)
    alone clock ctx (some p) t w = render_value clock ctx p w

    unfoldable pub render_typed : ℕ → Context → Template → World → Out Value
    render_typed clock ctx t w = alone clock ctx t.solo t w
