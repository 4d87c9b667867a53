-- ===== src/Runner/Redis.antt =====
-- internal/runner/redisrun/redisrun.go: the commands of the Redis runner, compiled and rendered, and the classes
-- of failures. The label of the collector is a parameter.
pub mod Fast
mod Examples
use tracepoint.Base.{
  ℕ, Bool, true, false, not, ◌&&◌, ◌||◌, Option, none, some, List, [], ◌∷◌, ◌++◌, any, all, map,
  if◌then◌else◌,
}
use tracepoint.Base.Int.{ℤ}
use tracepoint.Base.Float.{Float}
use tracepoint.Base.Text.{Text, codes}
use tracepoint.Errs.{Error, Result, ok, err}
use tracepoint.Config.{Command}
use tracepoint.Config.Validate.Common.{is_blank}
use tracepoint.Metrics.Outcome.{
  Class, timeout, connection, tls, pool_timeout, query_error, canceled,
}
use tracepoint.Policy.Classify.{is_write}
use tracepoint.Policy.Classify.Redis.{classify_redis}
use tracepoint.Template.{Value, Template, str}
use tracepoint.Template.Compile.{is_static}
use tracepoint.Template.Render.{Rand, World, Out, done, failed, panic, Context, render_typed}
use tracepoint.Runner.Sql.{template_of, op_of, timeout_or, onto, behind_first}
use tracepoint.Runner.Sql.Failures.{lower, has_text}

pub record CompiledCommand : Type 0 where
  pub name : Text
  pub label : ℕ
  pub op : Text
  pub timeout : ℤ
  pub is_pipeline : Bool
  pub parts : List (List Template)
  pub static : Option (List (List Value))

abbrev pub wrap_template : Error → Error
wrap_template e = record e { path = "/redis/commands" }

abbrev pub wrapped : Result Template → Result Template
wrapped (err e) = err (wrap_template e)
wrapped (ok t) = ok t

unfoldable pub compile_unit : List Text → Result (List Template)
compile_unit [] = ok []
compile_unit (arg ∷ args) = behind_first (wrapped (template_of arg)) (compile_unit args)

unfoldable pub compile_units : List (List Text) → Result (List (List Template))
compile_units [] = ok []
compile_units (u ∷ us) = behind_first (compile_unit u) (compile_units us)

abbrev pub first_unit : List Text → List (List Text)
first_unit [] = []
first_unit (c ∷ cs) = (c ∷ cs) ∷ []

unfoldable pub all_static : List (List Template) → Bool
all_static units = all (λ ts. all is_static ts) units

abbrev pub sources : List Template → List Value
sources ts = map (λ t. str t.source) ts

-- The arguments of a command that never change; without a unit there are none.
abbrev pub static_of : List (List Template) → Option (List (List Value))
static_of [] = none
static_of (u ∷ us) = if all_static (u ∷ us) then some (map sources (u ∷ us)) else none

unfoldable pub infers_write : List (List Text) → Bool
infers_write units = any (λ u. is_write (classify_redis u).op) units

module _ (f : Float) (default : ℤ) (label_id : Text → ℕ) where
  abbrev pub units_of : Command f → List (List Text)
  units_of src = first_unit src.cmd ++ src.pipeline

  abbrev pub command_of : Command f → Result (List (List Template)) → Result CompiledCommand
  command_of src (err e) = err e
  command_of src (ok parts) = ok (record {
    name = src.name;
    label = label_id src.name;
    op = op_of src.type (infers_write (units_of src));
    timeout = timeout_or default src.timeout;
    is_pipeline = not (is_blank src.pipeline);
    parts = parts;
    static = static_of parts;
  })

  unfoldable pub compile_command : Command f → Result CompiledCommand
  compile_command src = command_of src (compile_units (units_of src))

module _ (rand : Rand) (format_time : ℕ → Text) (clock : ℕ) (ctx : Context) where
  abbrev pub before_rest : {A : Type 0} → A → Out rand (List A) → Out rand (List A)
  before_rest v panic = panic
  before_rest v (failed e w) = failed e w
  before_rest v (done vs w) = done (v ∷ vs) w

  unfoldable pub render_unit : List Template → World rand → Out rand (List Value)
  render_unit [] w = done [] w
  render_unit (t ∷ ts) w = elim (render_typed rand format_time clock ctx t w) [
    | panic ↦ panic
    | failed e w' ↦ failed e w'
    | done v w' ↦ before_rest v (render_unit ts w')
  ]

  unfoldable pub render_units : List (List Template) → World rand → Out rand (List (List Value))
  render_units [] w = done [] w
  render_units (u ∷ us) w = elim (render_unit u w) [
    | panic ↦ panic
    | failed e w' ↦ failed e w'
    | done v w' ↦ before_rest v (render_units us w')
  ]

  abbrev pub resolved_or :
      Option (List (List Value)) → List (List Template) → World rand → Out rand (List (List Value))
  resolved_or none parts w = render_units parts w
  resolved_or (some vs) parts w = done vs w

  unfoldable pub render_command : CompiledCommand → World rand → Out rand (List (List Value))
  render_command c w = resolved_or c.static c.parts w

pub record RedisFailure : Type 0 where
  pub is_deadline : Bool
  pub is_canceled : Bool
  pub is_closed : Bool
  pub message : Text

abbrev has_any : Text → List Text → Bool
has_any msg parts = any (λ p. has_text msg p) parts

unfoldable pub by_message : Text → Class
by_message msg =
    if has_any msg (
      codes "connection refused"
      ∷ codes "connection reset"
      ∷ codes "broken pipe"
      ∷ codes "eof"
      ∷ codes "no such host"
      ∷ [])
    then connection
    else if has_any msg (codes "pool timeout" ∷ codes "connection pool" ∷ [])
    then pool_timeout
    else if has_any msg (codes "i/o timeout" ∷ codes "timeout" ∷ [])
    then timeout
    else if has_any msg (codes "tls" ∷ codes "certificate" ∷ [])
    then tls
    else query_error

unfoldable pub classify_error : Bool → RedisFailure → Class
classify_error ended e =
    if e.is_deadline
    then timeout
    else if e.is_canceled
    then canceled
    else if e.is_closed
    then connection
    else if ended
    then canceled
    else by_message (lower e.message)
