-- ===== src/Runner/Sql/Examples.antt =====
-- A transaction that is committed, and the queries of a configuration that may not write.
use tracepoint.Base.{ℕ, true, false, ◌≡◌, refl, none, [], ◌∷◌, all, any}
use tracepoint.Base.Int.{pos}
use tracepoint.Base.Sample.{whole}
use tracepoint.Base.Text.{
  Text, codes, ◌==◌, contains, upper, upper_byte, equal_fold, is_space, trim_space, trim_left,
  trim_right, pieces, keep, fields_func, cut_pair,
}
use tracepoint.Errs.{ok}
use tracepoint.Config.Examples.{
  no_net, no_durations, reading, granted, in_force, reading_is_allowed, lookup_user,
}
use tracepoint.Policy.Classify.{merge}
use tracepoint.Policy.Classify.Strip.{strip_sql_comments, strip, step, at_end}
use tracepoint.Policy.Classify.Sql.{
  classify_sql, classify_one_sql, split_statements, merge_all, fields, classify_words, by_verb,
  has_word,
}
use tracepoint.Policy.Classify.Tables.{sql_read_verbs, sql_write_verbs, sql_dangerous_verbs}
use tracepoint.Template.{literal}
use tracepoint.Template.Compile.{compile, compile_parts, solo_of, is_static}
use tracepoint.Template.Render.{Rand, Context}
use tracepoint.Runner.Sql.{
  Statement, Compiled, Settings, compile_queries, compile_query, compile_statements, compile_args,
  template_of, comment, infers_write,
}
use tracepoint.Runner.Sql.Execute.{Driver, Session, execute}
use tracepoint.Runner.Sql.Settles.{phase}
use tracepoint.Runner.Sql.Reads.{sends_write, calls_of, queries_of, apply_policy-sends_write}
use tracepoint.Runner.Sql.Perform.{Iteration, Around, perform}
use tracepoint.Runner.Sql.Perform.Commits.{Recorded, AsCommitted, perform-AsCommitted}

abbrev no_draws : Rand
no_draws = record { Source = ℕ; int_n = λ n s. (0, s); uint64 = λ s. (0, s) }

abbrev nothing : Context
nothing = record { has_source = true; vars = none; rows = none }

-- No call fails.
abbrev willing : Driver
willing = record {
  answer = λ cs. none;
  rendering = λ e. record {
    is_deadline = false;
    is_canceled = false;
    is_conn_done = false;
    is_bad_conn = false;
    message = [];
  };
}

abbrev settings : Settings
settings = record {
  comment_queries = false;
  run_id = codes "r";
  timeout = pos 1;
  label_id = λ t. 0;
  sprint = λ v. [];
}

abbrev start : Session no_draws
start = record { calls = []; world = record { source = 0; seq = 0 } }

abbrev sent : Text → Statement
sent t = record {
  sql = record { source = t; parts = literal t ∷ []; solo = none };
  text = t;
  args = [];
  prepped = false;
}

abbrev transfer : Compiled
transfer = record {
  name = codes "transfer";
  label = 0;
  op = codes "write";
  is_tx = true;
  stmts = sent (codes "UPDATE a SET x = 1") ∷ sent (codes "UPDATE b SET y = 2") ∷ [];
  timeout = pos 1;
  prepare = false;
}

abbrev iteration : Iteration
iteration = record { intended = pos 0; dispatched = pos 1; worker_start = pos 2 }

abbrev around : Around
around = record { connection = none; acquired_at = pos 3; ended_at = pos 5; is_ended = false }

no_parts : ℕ → Text
no_parts t = []

perform-AsCommitted_example : Recorded no_draws (AsCommitted no_draws willing) (
    perform no_draws willing no_parts 0 nothing settings transfer iteration around
      (record { reads = 0; writes = 0 })
      start)
unfolding phase
perform-AsCommitted_example =
    perform-AsCommitted no_draws willing no_parts 0 nothing settings transfer iteration around
      (record { reads = 0; writes = 0 }) start refl (unfold all in refl) refl

abbrev lookup_text : Text
lookup_text = codes "SELECT 'drop'"

abbrev lookup : Compiled
lookup = record {
  name = codes "user";
  label = 0;
  op = codes "read";
  is_tx = false;
  stmts = sent lookup_text ∷ [];
  timeout = pos 1;
  prepare = false;
}

reading_is_compiled :
    compile_queries whole settings (queries_of whole reading.db) ≡ ok (lookup ∷ [])
unfolding compile_queries compile_query compile_statements compile_args template_of comment
    infers_write compile compile_parts solo_of is_static cut_pair all any classify_sql
    strip_sql_comments strip step at_end merge_all merge split_statements pieces keep trim_space
    trim_left trim_right is_space ◌==◌ classify_one_sql fields fields_func classify_words upper
    upper_byte contains by_verb equal_fold sql_read_verbs sql_write_verbs sql_dangerous_verbs
    has_word
reading_is_compiled = refl

apply_policy-sends_write_example :
    sends_write
      (calls_of no_draws (execute no_draws willing no_parts 0 nothing settings lookup start))
    ≡ false
unfolding sends_write all
apply_policy-sends_write_example =
    apply_policy-sends_write whole no_net no_durations reading granted in_force [] settings
      (lookup ∷ []) 0 lookup_user lookup no_draws willing no_parts 0 nothing start
      reading_is_allowed refl refl reading_is_compiled refl refl refl (unfold all in refl) refl
