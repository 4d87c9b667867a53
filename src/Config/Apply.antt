-- ===== src/Config/Apply.antt =====
-- `ApplyPolicy` of internal/config/apply_policy.go.
use tracepoint.Base.{
  Bool, false, not, ◌||◌, Option, none, some, List, [], ◌∷◌, ◌++◌, if◌then◌else◌, map,
}
use tracepoint.Base.Int.{pos, ltb_ℤ}
use tracepoint.Base.Float.{Float}
use tracepoint.Errs.{Error, Result, ok, err, error, policy_insecure_tls_not_allowed}
use tracepoint.Policy.Target.{Net}
use tracepoint.Policy.Envelope.{Durations, Policy, Tightening}
use tracepoint.Policy.Envelope.Tighten.{tighten}
use tracepoint.Config.Validate.{summarise}
use tracepoint.Policy.Envelope.Checks.{
  check_rate, check_in_flight, check_duration, check_writes, check_dangerous,
}
use tracepoint.Config.{Stage, Executor, Http, Db, Redis, Config, Tls, Transport}
use tracepoint.Config.Statements.{
  Item, Report, Warning, report, query_item, command_item, query_warnings, command_warnings,
}
use Prim.Native.String.{String}

abbrev tls_insecure : Option Tls → Bool
tls_insecure none = false
tls_insecure (some t) = t.insecure_skip_verify

abbrev transport_insecure : Option Transport → Bool
transport_insecure none = false
transport_insecure (some t) = tls_insecure t.tls

abbrev pub problem : Option Error → List Error
problem none = []
problem (some e) = e ∷ []

module _ (f : Float) where
  unfoldable pub tightening : Config f → Tightening f
  tightening c = record {
    allow_writes = c.safety.allow_writes;
    allow_dangerous = c.safety.allow_dangerous;
    allow_insecure_tls = c.safety.allow_insecure_tls;
    allow_targets = c.safety.allow_targets;
    max_rate_per_runner = c.safety.max_rate_per_runner;
    max_in_flight = c.safety.max_in_flight;
    max_duration = c.safety.max_duration;
  }

  unfoldable pub peak_from : f.F → List (Stage f) → f.F
  peak_from peak [] = peak
  peak_from peak (s ∷ rest) = peak_from (if f.lt peak s.target then s.target else peak) rest

  unfoldable pub peak_rate : Executor f → f.F
  peak_rate e = peak_from e.rate e.stages

  abbrev pub query_items : Option (Db f) → List Item
  query_items none = []
  query_items (some d) = map (query_item f) d.queries

  abbrev pub command_items : Option (Redis f) → List Item
  command_items none = []
  command_items (some r) = map (command_item f) r.commands

  unfoldable pub db_report : Config f → Report
  db_report c = report query_warnings (query_items c.db)

  unfoldable pub redis_report : Config f → Report
  redis_report c = report command_warnings (command_items c.redis)

  -- The write and destructive guards of one runner.
  abbrev pub guard_problems : Policy f → String → Report → List Error
  guard_problems p runner r =
      problem (check_writes f p runner r.labels) ++ problem (check_dangerous f p runner r.found)

  unfoldable pub executor_problems : Policy f → String → Executor f → List Error
  executor_problems p runner e =
      problem (check_rate f p runner (peak_rate e))
      ++ (if ltb_ℤ (pos 0) e.max_in_flight
          then problem (check_in_flight f p runner e.max_in_flight)
          else [])

  abbrev http_problems : Policy f → Option (Http f) → List Error
  http_problems p none = []
  http_problems p (some h) = executor_problems p "http" h.executor

  abbrev db_problems : Policy f → Option (Db f) → List Error
  db_problems p none = []
  db_problems p (some d) = executor_problems p "db" d.executor

  abbrev redis_problems : Policy f → Option (Redis f) → List Error
  redis_problems p none = []
  redis_problems p (some r) = executor_problems p "redis" r.executor

  abbrev http_insecure : Option (Http f) → Bool
  http_insecure none = false
  http_insecure (some h) = transport_insecure h.transport

  abbrev redis_insecure : Option (Redis f) → Bool
  redis_insecure none = false
  redis_insecure (some r) = tls_insecure r.tls

  unfoldable pub check_insecure_tls : Config f → Policy f → Option Error
  check_insecure_tls c p =
      if not (http_insecure c.http || redis_insecure c.redis) || p.allow_insecure_tls
      then none
      else some (error policy_insecure_tls_not_allowed "/http/transport/tls/insecure_skip_verify")

  unfoldable pub limit_problems : Durations → Config f → Policy f → List Error
  limit_problems tm c p =
      problem (check_duration f tm p c.run.duration)
      ++ (http_problems p c.http
          ++ (db_problems p c.db ++ (redis_problems p c.redis ++ problem (check_insecure_tls c p))))

  unfoldable pub refusals : Durations → Config f → Policy f → List Error
  refusals tm c p =
      guard_problems p "db" (db_report c)
      ++ (guard_problems p "redis" (redis_report c) ++ limit_problems tm c p)

  abbrev pub verdict : Policy f → List Warning → List Error → Result (Policy f × List Warning)
  verdict p ws [] = ok (p, ws)
  verdict p ws (e ∷ es) = err (summarise e es)

  abbrev pub applied : Durations → Config f → Result (Policy f) → Result (Policy f × List Warning)
  applied tm c (err e) = err e
  applied tm c (ok p) =
      verdict p ((db_report c).warned ++ (redis_report c).warned) (refusals tm c p)

  unfoldable pub apply_policy :
      Net → Durations → Config f → Policy f → Result (Policy f × List Warning)
  apply_policy net tm c granted = applied tm c (tighten f net tm granted (tightening c))
