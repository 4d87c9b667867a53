-- ===== src/Config/Labels.antt =====
-- `Labels` and `Executor` of internal/config/validate.go: what a runner is grouped by and driven with.
pub mod Distinct
use tracepoint.Base.{Option, none, some, List, [], ◌∷◌, ◌++◌, map, if◌then◌else◌}
use tracepoint.Base.Float.{Float}
use tracepoint.Base.Text.{Text, codes, ◌==◌}
use tracepoint.Config.{Executor, HttpStep, Journey, Http, Query, Db, Command, Redis, Config}

abbrev joined : Text → Text → Text
joined j s = j ++ (codes "/" ++ s)

module _ (f : Float) where
  unfoldable pub journey_labels : List (Journey f) → List Text
  journey_labels [] = []
  journey_labels (j ∷ js) =
      map (λ (s : HttpStep f). joined j.name s.name) j.steps ++ journey_labels js

  abbrev pub http_labels : Option (Http f) → List Text
  http_labels none = []
  http_labels (some h) = map (λ (s : HttpStep f). s.name) h.requests ++ journey_labels h.journeys

  abbrev pub db_labels : Option (Db f) → List Text
  db_labels none = []
  db_labels (some d) = map (λ (q : Query f). q.name) d.queries

  abbrev pub redis_labels : Option (Redis f) → List Text
  redis_labels none = []
  redis_labels (some r) = map (λ (c : Command f). c.name) r.commands

  unfoldable pub labels : Config f → Text → List Text
  labels c runner =
      if runner == codes "http"
      then http_labels c.http
      else if runner == codes "db"
      then db_labels c.db
      else if runner == codes "redis"
      then redis_labels c.redis
      else []

  abbrev pub http_executor : Option (Http f) → Option (Executor f)
  http_executor none = none
  http_executor (some h) = some h.executor

  abbrev pub db_executor : Option (Db f) → Option (Executor f)
  db_executor none = none
  db_executor (some d) = some d.executor

  abbrev pub redis_executor : Option (Redis f) → Option (Executor f)
  redis_executor none = none
  redis_executor (some r) = some r.executor

  unfoldable pub executor : Config f → Text → Option (Executor f)
  executor c runner =
      if runner == codes "http"
      then http_executor c.http
      else if runner == codes "db"
      then db_executor c.db
      else if runner == codes "redis"
      then redis_executor c.redis
      else none

unfoldable pub kind : Text → Text
kind runner = if runner == codes "http" then codes "app" else codes "storage"
