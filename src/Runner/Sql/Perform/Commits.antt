-- ===== src/Runner/Sql/Perform/Commits.antt =====
-- When an operation of the SQL runner is recorded, and as what.
use tracepoint.Base.{ℕ, Bool, true, not, ◌≡◌, refl, sym, ap, ◌∙◌, Option, none, some, all, arith}
use tracepoint.Base.Text.{Text}
use tracepoint.Config.{is_none}
use tracepoint.Metrics.Outcome.{Outcome, is_error}
use tracepoint.Template.Render.{Rand, Context}
use tracepoint.Runner.Sql.{Compiled, Settings}
use tracepoint.Runner.Sql.Failures.{Failure, pool_class, classify_error, by_message, lower}
use tracepoint.Runner.Sql.Execute.{Driver, Session, Ran, ran, panicked, execute}
use tracepoint.Runner.Sql.Settles.{
  phase, idle, is_committed, is_settled, OnRan, Settles, execute-Settles,
}
use tracepoint.Runner.Sql.Returns.{is_ready_statement, is_ran, execute-is_ran}
use tracepoint.Runner.Sql.Perform.{
  Iteration, Around, Counts, Did, recorded, gone, perform, reported, with_connection, class_of,
}

by_message-is_error : (msg : Text) → is_error (by_message msg) ≡ true
unfolding by_message is_error
by_message-is_error msg = ground arith

classify_error-is_error : (ended : Bool) (e : Failure) → is_error (classify_error ended e) ≡ true
unfolding classify_error is_error
classify_error-is_error ended e = ground (arith, by_message-is_error (lower e.message))

pool_class-is_error : (ended : Bool) (e : Failure) → is_error (pool_class ended e) ≡ true
unfolding pool_class is_error
pool_class-is_error ended e = ground arith

class_of-is_error :
    (ended : Bool) (a : Option Failure) → is_error (class_of ended a) ≡ not (is_none a)
unfolding is_error
class_of-is_error ended none = refl
class_of-is_error ended (some e) = classify_error-is_error ended e

module _ (rand : Rand) where
  abbrev pub OnDid : (Outcome → Session rand → Type 0) → Did rand → Type 0
  OnDid P (recorded o n s) = P o s
  OnDid P gone = Unit

  module _ (db : Driver) where
    -- The transaction, if it began, has been asked once to end, and the outcome is no error exactly where
    -- it was asked to commit and that did not fail.
    unfoldable pub AsCommitted : Outcome → Session rand → Type 0
    AsCommitted o s =
        (is_settled (phase db s.calls) ≡ true)
        × (is_error o.class ≡ not (is_committed (phase db s.calls)))

    reported-AsCommitted :
        (q : Compiled) (it : Iteration) (at : Around) (n : Counts) (x : Ran rand)
        → OnRan rand (Settles rand db) x
        → OnDid AsCommitted (reported rand q it at n x)
    unfolding AsCommitted Settles
    reported-AsCommitted q it at n (panicked s) h = tt
    reported-AsCommitted q it at n (ran e s) h =
        (h.0, class_of-is_error at.is_ended e ∙ ap not (sym h.1))

    with_connection-AsCommitted :
        (q : Compiled) (it : Iteration) (at : Around) (n : Counts) (s : Session rand) (x : Ran rand)
        (a : Option Failure)
        → OnRan rand (Settles rand db) x
        → phase db s.calls ≡ idle
        → OnDid AsCommitted (with_connection rand q it at n s x a)
    with_connection-AsCommitted q it at n s x none h i = reported-AsCommitted q it at n x h
    with_connection-AsCommitted q it at n s x (some e) h i =
        unfold AsCommitted in rw i (refl, pool_class-is_error at.is_ended e)

  -- The operation is recorded, and what is recorded has the property.
  abbrev pub Recorded : (Outcome → Session rand → Type 0) → Did rand → Type 0
  Recorded P (recorded o n s) = P o s
  Recorded P gone = ⊥

  reported-Recorded :
      (P : Outcome → Session rand → Type 0) (q : Compiled) (it : Iteration) (at : Around)
      (n : Counts) (db : Driver) (x : Ran rand)
      → is_ran rand db x ≡ true
      → OnDid P (reported rand q it at n x)
      → Recorded P (reported rand q it at n x)
  reported-Recorded P q it at n db (ran e s) h k = k
  reported-Recorded P q it at n db (panicked s) h k = cc

  with_connection-Recorded :
      (P : Outcome → Session rand → Type 0) (q : Compiled) (it : Iteration) (at : Around)
      (n : Counts) (db : Driver) (s : Session rand) (x : Ran rand) (a : Option Failure)
      → is_ran rand db x ≡ true
      → OnDid P (with_connection rand q it at n s x a)
      → Recorded P (with_connection rand q it at n s x a)
  with_connection-Recorded P q it at n db s x none h k = reported-Recorded P q it at n db x h k
  with_connection-Recorded P q it at n db s x (some e) h k = k

  -- An operation that is a transaction, where every generator of its statements has something to draw
  -- from, is recorded, whatever the connection answers. Once the transaction has begun it is asked
  -- exactly once to commit or to roll back, no statement is sent outside of it or after that, and the
  -- outcome is no error exactly where it was asked to commit and that did not fail.
  pub perform-AsCommitted :
      (db : Driver) (format_time : ℕ → Text) (clock : ℕ) (ctx : Context) (r : Settings)
      (q : Compiled) (it : Iteration) (at : Around) (n : Counts) (s : Session rand)
      → q.is_tx ≡ true
      → all is_ready_statement q.stmts ≡ true
      → phase db s.calls ≡ idle
      → Recorded (AsCommitted db) (perform rand db format_time clock ctx r q it at n s)
  unfolding perform
  perform-AsCommitted db format_time clock ctx r q it at n s t h i =
      let x = execute rand db format_time clock ctx r q s in
      with_connection-Recorded (AsCommitted db) q it at n db s x at.connection
        (execute-is_ran rand db format_time clock ctx r q s t h)
        (with_connection-AsCommitted db q it at n s x at.connection
          (execute-Settles rand db format_time clock ctx r q s t i) i)
