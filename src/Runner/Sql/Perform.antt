-- ===== src/Runner/Sql/Perform.antt =====
-- `Do` of internal/runner/sqlrun/sqlrun.go, and the stamps of internal/runner/runner.go (`Iteration`,
-- `StampOutcome`). The pick of the query, the readings of the clock and the state of the context are given.
pub mod Commits
use tracepoint.Base.{ℕ, suc, Bool, true, false, Option, none, some, List, [], if◌then◌else◌}
use tracepoint.Base.Int.{ℤ, pos}
use tracepoint.Base.Text.{Text, codes, ◌==◌}
use tracepoint.Metrics.Outcome.{Class, ok, Outcome}
use tracepoint.Template.Render.{Rand, Context}
use tracepoint.Runner.Sql.{Compiled, Settings}
use tracepoint.Runner.Sql.Failures.{Failure, pool_class, classify_error}
use tracepoint.Runner.Sql.Execute.{Driver, Session, Ran, ran, panicked, execute}

pub record Iteration : Type 0 where
  pub intended : ℤ
  pub dispatched : ℤ
  pub worker_start : ℤ

abbrev pub stamp_outcome : Iteration → Outcome → Outcome
stamp_outcome it o = record o {
  intended = it.intended;
  dispatched = it.dispatched;
  worker_start = it.worker_start;
}

abbrev pub new_outcome : Outcome
new_outcome = record {
  label = pos 0;
  class = ok;
  status = pos 0;
  intended = pos 0;
  dispatched = pos 0;
  worker_start = pos 0;
  conn_acquired = pos 0;
  first_byte = pos 0;
  end = pos 0;
  bytes_in = 0;
  bytes_out = 0;
}

pub record Counts : Type 0 where
  pub reads : ℕ
  pub writes : ℕ

-- What happens around an operation: whether a connection is given, when it is asked for and when the
-- operation ends, and whether the context has ended by then.
pub record Around : Type 0 where
  pub connection : Option Failure
  pub acquired_at : ℤ
  pub ended_at : ℤ
  pub is_ended : Bool

unfoldable pub counted : Compiled → Counts → Counts
counted q n =
    if q.op == codes "write"
    then record n { writes = suc n.writes }
    else record n { reads = suc n.reads }

abbrev pub class_of : Bool → Option Failure → Class
class_of ended none = ok
class_of ended (some e) = classify_error ended e

abbrev pub started : Compiled → Iteration → Around → Outcome
started q it at = record (stamp_outcome it new_outcome) {
  label = pos q.label;
  conn_acquired = at.acquired_at;
}

module _ (rand : Rand) where
  pub data Did : Type 0 where
    recorded : Outcome → Counts → Session rand → Did
    gone : Did

  abbrev pub reported : Compiled → Iteration → Around → Counts → Ran rand → Did
  reported q it at n (panicked s) = gone
  reported q it at n (ran e s) =
      recorded (record (started q it at) { end = at.ended_at; class = class_of at.is_ended e })
        (counted q n) s

  abbrev pub with_connection :
      Compiled → Iteration → Around → Counts → Session rand → Ran rand → Option Failure → Did
  with_connection q it at n s x none = reported q it at n x
  with_connection q it at n s x (some e) =
      recorded (record (started q it at) { end = at.acquired_at; class = pool_class at.is_ended e })
        n s

  unfoldable pub perform :
      Driver
      → (ℕ → Text)
      → ℕ
      → Context
      → Settings
      → Compiled
      → Iteration
      → Around
      → Counts
      → Session rand
      → Did
  perform db format_time clock ctx r q it at n s =
      with_connection q it at n s (execute rand db format_time clock ctx r q s) at.connection
