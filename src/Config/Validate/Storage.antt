-- ===== src/Config/Validate/Storage.antt =====
-- `validateDB` and `validateRedis` of internal/config/validate.go.
use tracepoint.Base.{
  ℕ, suc, Bool, true, false, not, ◌&&◌, ◌||◌, Option, none, some, List, [], ◌∷◌, ◌++◌,
  if◌then◌else◌,
}
use tracepoint.Base.Int.{ℤ, pos, ltb_ℤ}
use tracepoint.Base.Float.{Float}
use tracepoint.Base.Text.{Text, codes, concat, ◌==◌}
use tracepoint.Errs.{Error}
use tracepoint.Config.{Query, Pool, Db, Command, Redis}
use tracepoint.Config.Defaults.{normalise_driver}
use tracepoint.Config.Validate.Common.{
  invalid, missing, given, is_blank, item, name_problems, check_weight,
}
use tracepoint.Config.Validate.Executors.{executor_problems}
use Prim.Native.String.{String}

unfoldable pub driver_problems : Text → List Error
driver_problems name =
    if (name == codes "postgres") || ((name == codes "mysql") || (name == codes "sqlite"))
    then []
    else if is_blank name
    then missing "/db/driver" ∷ []
    else invalid "/db/driver" ∷ []

-- What an item does, given once: the first test finds neither, the second both.
abbrev pub body_problems : String → Bool → Bool → List Error
body_problems at true true = missing at ∷ []
body_problems at false false = invalid at ∷ []
body_problems at _ _ = []

abbrev pub pool_problems : Option Pool → List Error
pool_problems none = []
pool_problems (some p) = given (ltb_ℤ p.max_open (pos 0)) (invalid "/db/pool/max_open")

unfoldable pub mode_problems :
    (mode addr : Text) → (addrs : List Text) → (master : Text) → List Error
mode_problems mode addr addrs master =
    if is_blank mode || (mode == codes "single")
    then given (is_blank addr && is_blank addrs) (missing "/redis/addr")
    else if mode == codes "cluster"
    then given (is_blank addrs) (missing "/redis/addrs")
    else if mode == codes "sentinel"
    then given (is_blank addrs) (missing "/redis/addrs")
      ++ given (is_blank master) (missing "/redis/master_name")
    else invalid "/redis/mode" ∷ []

module _ (f : Float) where
  abbrev pub is_query_type : Text → Bool
  is_query_type t = is_blank t || ((t == codes "read") || (t == codes "write"))

  unfoldable pub queries_problems : ℕ → List Text → List (Query f) → List Error
  queries_problems i seen [] = []
  queries_problems i seen (q ∷ qs) =
      let at = item "/db/queries" i in
      name_problems at seen q.name
      ++ (body_problems (concat at "/sql") (is_blank q.sql) (is_blank q.tx)
          ++ (given (not (is_query_type q.type)) (invalid (concat at "/type"))
              ++ (check_weight f q.weight (concat at "/weight")
                  ++ queries_problems (suc i) (q.name ∷ seen) qs)))

  -- All but the executor.
  unfoldable pub db_own : Db f → List Error
  db_own d =
      driver_problems (normalise_driver d.driver)
      ++ (given (is_blank d.dsn) (missing "/db/dsn")
          ++ (given (is_blank d.queries) (missing "/db/queries")
              ++ (queries_problems 0 [] d.queries ++ pool_problems d.pool)))

  unfoldable pub db_problems : ℤ → Db f → List Error
  db_problems run d = db_own d ++ executor_problems f run "/db/executor" d.executor

  unfoldable pub commands_problems : ℕ → List Text → List (Command f) → List Error
  commands_problems i seen [] = []
  commands_problems i seen (c ∷ cs) =
      let at = item "/redis/commands" i in
      name_problems at seen c.name
      ++ (body_problems (concat at "/cmd") (is_blank c.cmd) (is_blank c.pipeline)
          ++ (check_weight f c.weight (concat at "/weight")
              ++ commands_problems (suc i) (c.name ∷ seen) cs))

  unfoldable pub redis_own : Redis f → List Error
  redis_own r =
      mode_problems r.mode r.addr r.addrs r.master_name
      ++ (given (not (is_blank r.addr) && not (is_blank r.addrs)) (invalid "/redis/addr")
          ++ (given (is_blank r.commands) (missing "/redis/commands")
              ++ commands_problems 0 [] r.commands))

  unfoldable pub redis_problems : ℤ → Redis f → List Error
  redis_problems run r = redis_own r ++ executor_problems f run "/redis/executor" r.executor
