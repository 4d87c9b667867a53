-- ===== src/Runner/Redis/Examples.antt =====
-- A command that never changes.
use tracepoint.Base.{ℕ, true, false, ◌≡◌, refl, none, some, [], ◌∷◌, all}
use tracepoint.Base.Int.{pos}
use tracepoint.Base.Sample.{whole}
use tracepoint.Base.Text.{Text, codes, cut_pair}
use tracepoint.Errs.{ok}
use tracepoint.Config.{Command}
use tracepoint.Template.{literal, str}
use tracepoint.Template.Compile.{compile, compile_parts, solo_of, is_static}
use tracepoint.Template.Render.{Rand, World, Context}
use tracepoint.Runner.Sql.{template_of}
use tracepoint.Runner.Redis.{
  CompiledCommand, compile_unit, compile_units, all_static, compile_command, render_command,
  render_units,
}
use tracepoint.Runner.Redis.Fast.{compile_command-renders}

abbrev no_draws : Rand
no_draws = record { Source = ℕ; int_n = λ n s. (0, s); uint64 = λ s. (0, s) }

abbrev nothing : Context
nothing = record { has_source = true; vars = none; rows = none }

abbrev world : World no_draws
world = record { source = 0; seq = 0 }

no_times : ℕ → Text
no_times t = []

no_labels : Text → ℕ
no_labels t = 0

abbrev get : Command whole
get = record {
  name = codes "get";
  weight = none;
  type = codes "read";
  cmd = codes "GET" ∷ codes "k" ∷ [];
  pipeline = [];
  timeout = none;
}

abbrev get_compiled : CompiledCommand
get_compiled = record {
  name = codes "get";
  label = 0;
  op = codes "read";
  timeout = pos 1;
  is_pipeline = false;
  parts =
      (record { source = codes "GET"; parts = literal (codes "GET") ∷ []; solo = none }
        ∷ record { source = codes "k"; parts = literal (codes "k") ∷ []; solo = none }
        ∷ [])
      ∷ [];
  static = some ((str (codes "GET") ∷ str (codes "k") ∷ []) ∷ []);
}

get_is_compiled : compile_command whole (pos 1) no_labels get ≡ ok get_compiled
unfolding compile_command compile_units compile_unit template_of compile compile_parts solo_of
    is_static all_static all cut_pair no_labels
get_is_compiled = refl

compile_command-renders_example :
    render_command no_draws no_times 0 nothing get_compiled world
    ≡ render_units no_draws no_times 0 nothing get_compiled.parts world
compile_command-renders_example =
    compile_command-renders no_draws no_times 0 nothing whole (pos 1) no_labels get get_compiled
      world get_is_compiled
