-- ===== src/Config/Defaults.antt =====
-- internal/config/defaults.go: what a configuration is given where it says nothing.
pub mod Settled
use tracepoint.Base.{
  ℕ, zero, suc, ◌*◌, Bool, true, false, not, ◌&&◌, ◌||◌, Option, none, some, List, [], ◌∷◌,
  if◌then◌else◌, map,
}
use tracepoint.Base.Int.{ℤ, pos, ltb_ℤ, eqb_ℤ, ◌+ℤ◌}
use tracepoint.Base.Float.{Float}
use tracepoint.Base.Text.{Text, codes, ◌==◌}
use tracepoint.Config.{
  Stage, Executor, Extract, HttpStep, Journey, Feeder, Http, Db, Redis, Run, Config,
}

abbrev pub default_duration : ℤ
default_duration = pos 60000000000

abbrev pub default_bucket : ℤ
default_bucket = pos 1000000000

abbrev pub default_grace : ℤ
default_grace = pos 30000000000

abbrev pub default_timeout : ℤ
default_timeout = pos 10000000000

abbrev pub default_min_samples : ℤ
default_min_samples = pos 20

abbrev pub default_arrival : Text
default_arrival = codes "uniform"

abbrev pub default_executor : Text
default_executor = codes "arrival-rate"

abbrev pub default_max_in_flight : ℤ
default_max_in_flight = pos 256

abbrev pub default_queue_depth : ℤ
default_queue_depth = pos 64

abbrev pub default_method : Text
default_method = codes "GET"

abbrev pub default_pick : Text
default_pick = codes "per-iteration"

abbrev pub default_feeder_mode : Text
default_feeder_mode = codes "sequential"

abbrev pub default_redis_mode : Text
default_redis_mode = codes "single"

-- `if n == 0 { n = default }`, and the same of a text.
abbrev pub number_or : ℤ → ℤ → ℤ
number_or default n = if eqb_ℤ n (pos 0) then default else n

abbrev pub text_or : Text → Text → Text
text_or default [] = default
text_or default (c ∷ cs) = c ∷ cs

abbrev pub some_or : ℤ → Option ℤ → Option ℤ
some_or default none = some default
some_or default (some n) = some n

abbrev pub is_null {ℓ} : {A : Type ℓ} → List A → Bool
is_null [] = true
is_null (x ∷ xs) = false

abbrev pub is_postgres : Text → Bool
is_postgres name =
    (name == codes "postgresql")
    || ((name == codes "psql") || ((name == codes "pg") || (name == codes "postgres")))

abbrev pub is_mysql : Text → Bool
is_mysql name = (name == codes "mysql") || (name == codes "mariadb")

abbrev pub is_sqlite : Text → Bool
is_sqlite name = (name == codes "sqlite") || (name == codes "sqlite3")

unfoldable pub normalise_driver : Text → Text
normalise_driver name =
    if is_postgres name
    then codes "postgres"
    else if is_mysql name
    then codes "mysql"
    else if is_sqlite name
    then codes "sqlite"
    else name

unfoldable pub run_defaults : Run → Run
run_defaults r = record r {
  duration = number_or default_duration r.duration;
  bucket = number_or default_bucket r.bucket;
  grace = number_or default_grace r.grace;
  timeout = number_or default_timeout r.timeout;
  min_samples = number_or default_min_samples r.min_samples;
  arrival = text_or default_arrival r.arrival;
}

abbrev pub extract_defaults : Extract → Extract
extract_defaults x = record x { from = text_or (codes "body") x.from }

abbrev pub feeder_defaults : Feeder → Feeder
feeder_defaults x = record x { mode = text_or default_feeder_mode x.mode }

module _ (f : Float) where
  abbrev zero_f : f.F
  zero_f = f.of_int (pos 0)

  unfoldable pub step_defaults : HttpStep f → HttpStep f
  step_defaults s = record s {
    method = text_or default_method s.method;
    extract = map extract_defaults s.extract;
  }

  abbrev pub journey_defaults : Journey f → Journey f
  journey_defaults j = record j { steps = map step_defaults j.steps }

  -- A single stage as long as the run, where there is none.
  abbrev pub stages_or : Bool → ℤ → f.F → List (Stage f) → List (Stage f)
  stages_or wanted duration target stages =
      if is_null stages && wanted
      then record { duration = duration; target = target } ∷ []
      else stages

  abbrev pub arrival_rate_defaults : ℤ → Executor f → Executor f
  arrival_rate_defaults duration e = record e {
    max_in_flight = number_or default_max_in_flight e.max_in_flight;
    queue_depth = some_or default_queue_depth e.queue_depth;
    stages = stages_or (f.lt zero_f e.rate) duration e.rate e.stages;
  }

  abbrev pub vus_defaults : ℤ → Executor f → Executor f
  vus_defaults duration e = record e {
    pick = text_or default_pick e.pick;
    stages = stages_or (ltb_ℤ (pos 0) e.vus) duration (f.of_int e.vus) e.stages;
  }

  -- The two tests of the type exclude each other.
  unfoldable pub typed_defaults : ℤ → Executor f → Executor f
  typed_defaults duration e =
      if e.type == default_executor
      then arrival_rate_defaults duration e
      else if e.type == codes "vus"
      then vus_defaults duration e
      else e

  abbrev pub typed : Executor f → Executor f
  typed e = record e { type = text_or default_executor e.type }

  unfoldable pub executor_defaults : ℤ → Executor f → Executor f
  executor_defaults duration e = typed_defaults duration (typed e)

  abbrev pub http_defaults : ℤ → Http f → Http f
  http_defaults duration h = record h {
    executor = executor_defaults duration h.executor;
    requests = map step_defaults h.requests;
    journeys = map journey_defaults h.journeys;
    feeders = map feeder_defaults h.feeders;
  }

  abbrev pub db_defaults : ℤ → Db f → Db f
  db_defaults duration d = record d {
    executor = executor_defaults duration d.executor;
    driver = normalise_driver d.driver;
  }

  abbrev pub redis_defaults : ℤ → Redis f → Redis f
  redis_defaults duration r = record r {
    executor = executor_defaults duration r.executor;
    mode = text_or default_redis_mode r.mode;
  }

  abbrev pub in_some : {A : Type 0} → (A → A) → Option A → Option A
  in_some g none = none
  in_some g (some a) = some (g a)

  unfoldable pub apply_defaults : Config f → Config f
  apply_defaults c =
      let run = run_defaults c.run in
      record c {
        run = run;
        http = in_some (http_defaults run.duration) c.http;
        db = in_some (db_defaults run.duration) c.db;
        redis = in_some (redis_defaults run.duration) c.redis;
      }

  -- A rate is held from the first instant, listed stages ramp up from nothing.
  abbrev pub start_of : Executor f → List (Stage f) → f.F
  start_of e (s ∷ []) =
      if f.lt zero_f e.rate && f.eq s.target e.rate
      then e.rate
      else if ltb_ℤ (pos 0) e.vus && f.eq s.target (f.of_int e.vus)
      then f.of_int e.vus
      else zero_f
  start_of e _ = zero_f

  unfoldable pub start_rate : Executor f → f.F
  start_rate e = start_of e e.stages

  unfoldable pub sum_durations : ℤ → List (Stage f) → ℤ
  sum_durations total [] = total
  sum_durations total (s ∷ ss) = sum_durations (total +ℤ s.duration) ss

  unfoldable pub total_duration : Executor f → ℤ
  total_duration e = sum_durations (pos 0) e.stages
