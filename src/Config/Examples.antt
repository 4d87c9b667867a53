-- ===== src/Config/Examples.antt =====
-- A configuration with a query that the policy lets through.
use tracepoint.Base.{ℕ, true, false, ◌&&◌, ◌≡◌, refl, none, some, [], ◌∷◌, any}
use tracepoint.Base.Int.{pos}
use tracepoint.Base.Sample.{whole}
use tracepoint.Base.Text.{
  codes, ◌==◌, contains, upper, upper_byte, equal_fold, is_space, trim_space, trim_left, trim_right,
  pieces, keep, fields_func,
}
use tracepoint.Errs.{ok}
use tracepoint.Policy.Classify.{merge}
use tracepoint.Policy.Classify.Strip.{strip_sql_comments, strip, step, at_end}
use tracepoint.Policy.Classify.Sql.{
  classify_sql, classify_one_sql, split_statements, merge_all, fields, classify_words, by_verb,
  has_word,
}
use tracepoint.Policy.Classify.Tables.{sql_read_verbs, sql_write_verbs, sql_dangerous_verbs}
use tracepoint.Policy.Target.{Net}
use tracepoint.Policy.Envelope.{Durations, Policy, max_run_duration}
use tracepoint.Policy.Envelope.Tighten.{tighten, narrow, problems_of, conclude, limit_duration}
use tracepoint.Policy.Envelope.Checks.{
  check_rate, check_in_flight, check_duration, check_writes, check_dangerous,
}
use tracepoint.Config.{Query, Executor, Config, no_target}
use tracepoint.Config.Statements.{
  report, scan, judge, query_item, command_item, query_warnings, command_warnings, unrecognised,
}
use tracepoint.Config.Apply.{
  apply_policy, tightening, query_items, command_items, db_report, redis_report, refusals,
  limit_problems, executor_problems, peak_rate, peak_from, check_insecure_tls,
}
use tracepoint.Config.Laws.{apply_policy-allowed, allowed}

-- No address is known, and no duration can be read: the configuration uses neither.
abbrev pub no_net : Net
no_net = record {
  Addr = ℕ;
  Prefix = ℕ;
  parse_addr = λ t. none;
  addr_string = λ n. [];
  parse_prefix = λ t. none;
  prefix_contains = λ p n. false;
  is_loopback = λ n. false;
  is_link_local_unicast = λ n. false;
  is_link_local_multicast = λ n. false;
  is_private = λ n. false;
  is_unspecified = λ n. false;
}

abbrev pub no_durations : Durations
no_durations = record { parse = λ t. none; print = λ d. [] }

abbrev pub lookup_user : Query whole
lookup_user = record {
  name = codes "user";
  weight = none;
  type = [];
  sql = codes "SELECT 'drop'";
  args = [];
  tx = [];
  timeout = none;
  prepare = false;
}

-- A minute at three operations in a second.
abbrev pub steady : Executor whole
steady = record {
  type = [];
  rate = pos 3;
  vus = pos 0;
  stages = record { duration = pos 60000000000; target = pos 3 } ∷ [];
  max_in_flight = pos 8;
  queue_depth = none;
  pick = [];
}

abbrev pub reading : Config whole
reading = record {
  version = pos 1;
  run = record {
    name = [];
    duration = pos 60000000000;
    bucket = pos 1000000000;
    warmup = pos 0;
    grace = pos 0;
    timeout = pos 0;
    seed = none;
    arrival = [];
    min_samples = pos 1;
  };
  slo = record { http = no_target whole; db = no_target whole; redis = no_target whole };
  safety = record {
    allow_writes = false;
    allow_dangerous = false;
    allow_targets = [];
    allow_insecure_tls = false;
    max_rate_per_runner = none;
    max_in_flight = some (pos 8);
    max_duration = none;
  };
  http = none;
  db = some (record {
    driver = codes "pg";
    dsn = codes "dsn";
    executor = steady;
    pool = none;
    tag_sessions = none;
    comment_queries = false;
    queries = lookup_user ∷ [];
  });
  redis = none;
}

abbrev pub granted : Policy whole
granted = record {
  version = pos 1;
  allow_targets = [];
  deny_targets = [];
  allow_public_targets = false;
  allow_writes = false;
  allow_dangerous = false;
  allow_insecure_tls = false;
  allow_detach = true;
  max_rate_per_runner = some (pos 7);
  max_in_flight = some (pos 9);
  max_duration = none;
  max_concurrent_runs = pos 1;
  run_root = [];
  redact_headers = [];
}

abbrev pub in_force : Policy whole
in_force = record granted { max_in_flight = some (pos 8) }

pub reading_is_allowed : apply_policy whole no_net no_durations reading granted ≡ ok (in_force, [])
unfolding apply_policy tightening tighten problems_of conclude limit_duration narrow keep
    max_run_duration db_report redis_report refusals limit_problems executor_problems peak_rate
    peak_from check_insecure_tls check_rate check_in_flight check_duration check_writes
    check_dangerous report scan judge query_item command_item query_warnings command_warnings
    unrecognised classify_sql strip_sql_comments strip step at_end merge_all merge split_statements
    pieces trim_space trim_left trim_right is_space ◌==◌ classify_one_sql fields fields_func
    classify_words upper upper_byte contains by_verb any equal_fold sql_read_verbs sql_write_verbs
    sql_dangerous_verbs has_word
reading_is_allowed = refl

apply_policy-allowed_example :
    (allowed whole
        (granted.allow_writes && reading.safety.allow_writes)
        (granted.allow_dangerous && reading.safety.allow_dangerous)
        (query_items whole reading.db)
      ≡ true)
    × (allowed whole
          (granted.allow_writes && reading.safety.allow_writes)
          (granted.allow_dangerous && reading.safety.allow_dangerous)
          (command_items whole reading.redis)
        ≡ true)
apply_policy-allowed_example =
    apply_policy-allowed whole no_net no_durations granted in_force reading [] reading_is_allowed
