-- ===== src/Runner/Sql/Settles.antt =====
-- What becomes of the transaction of an operation.
use tracepoint.Base.{
  ℕ, Bool, true, false, not, ◌≡◌, refl, sym, subst, Option, none, some, List, [], ◌∷◌,
  if◌then◌else◌, Bool-cases, inl, inr,
}
use tracepoint.Base.Text.{Text, codes, ◌==◌}
use tracepoint.Config.{is_none}
use tracepoint.Template.{Value}
use tracepoint.Template.Render.{Rand, Out, done, failed, panic, Context}
use tracepoint.Runner.Sql.{Statement, Compiled, Settings}
use tracepoint.Runner.Sql.Failures.{Failure}
use tracepoint.Runner.Sql.Execute.{
  Call, begin, commit, rollback, next_rows, exec, query, Driver, Session, Ran, ran, panicked,
  called, asked, wrapped_in, exec_statement, drained, query_statement, render_args, with_args,
  with_text, run_statement, run_tx, after_begin, run_first, execute,
}

-- What the calls and their answers say of a transaction. Where the call that ends it fails,
-- the server may have ended it or not.
pub data Phase : Type 0 where
  idle refused in_progress committed commit_failed rolled_back rollback_failed broken : Phase

-- A call when a transaction is in some phase, and whether it failed.
unfoldable pub advance : Bool → Phase → Call → Phase
advance bad idle begin = if bad then refused else in_progress
advance bad in_progress commit = if bad then commit_failed else committed
advance bad in_progress rollback = if bad then rollback_failed else rolled_back
advance bad in_progress next_rows = in_progress
advance bad in_progress (exec true prepped text args) = in_progress
advance bad in_progress (query true prepped text args) = in_progress
advance bad _ _ = broken

unfoldable pub phase : Driver → List Call → Phase
phase db [] = idle
phase db (c ∷ cs) = advance (not (is_none (db.answer (c ∷ cs)))) (phase db cs) c

abbrev pub is_committed : Phase → Bool
is_committed committed = true
is_committed _ = false

-- The transaction has been asked to end, or there is none.
abbrev pub is_settled : Phase → Bool
is_settled in_progress = false
is_settled broken = false
is_settled _ = true

module _ (rand : Rand) where
  abbrev pub OnRan : (Option Failure → Session rand → Type 0) → Ran rand → Type 0
  OnRan P (ran r s) = P r s
  OnRan P (panicked s) = Unit

  module _ (db : Driver) where
    IsOpen : Option Failure → Session rand → Type 0
    IsOpen r s = phase db s.calls ≡ in_progress

    exec_statement-IsOpen :
        (prepped : Bool) (text : Text) (args : List Value) (s : Session rand)
        → phase db s.calls ≡ in_progress
        → OnRan IsOpen (exec_statement rand db true prepped text args s)
    unfolding exec_statement IsOpen phase advance
    exec_statement-IsOpen prepped text args s h = rw h refl

    drained-IsOpen :
        (s : Session rand) (x : Ran rand) → OnRan IsOpen x → OnRan IsOpen (drained rand db s x)
    unfolding IsOpen phase advance
    drained-IsOpen s (ran none s') h = rw h refl
    drained-IsOpen s (ran (some e) s') h = h
    drained-IsOpen s (panicked s') h = tt

    query_statement-IsOpen :
        (prepped : Bool) (text : Text) (args : List Value) (s : Session rand)
        → phase db s.calls ≡ in_progress
        → OnRan IsOpen (query_statement rand db true prepped text args s)
    unfolding query_statement
    query_statement-IsOpen prepped text args s h =
        drained-IsOpen s (asked rand db (codes "querying: ") (query true prepped text args) s)
          (unfold IsOpen phase advance in rw h refl)

    -- The transaction has an end, and it is committed exactly where no failure is reported.
    unfoldable pub Settles : Option Failure → Session rand → Type 0
    Settles e s =
        (is_settled (phase db s.calls) ≡ true) × (is_committed (phase db s.calls) ≡ is_none e)

    module _ (format_time : ℕ → Text) (clock : ℕ) (ctx : Context) (r : Settings)
        (q : Compiled) where
      with_args-IsOpen :
          (st : Statement) (text : Text) (s : Session rand) (o : Out rand (List Value))
          → phase db s.calls ≡ in_progress
          → OnRan IsOpen (with_args rand db format_time clock ctx r q true st text s o)
      with_args-IsOpen st text s panic h = tt
      with_args-IsOpen st text s (failed e w) h = unfold IsOpen in h
      with_args-IsOpen st text s (done args w) h = elim (Bool-cases (q.op == codes "write")) [
        | inl k ↦ rw k (exec_statement-IsOpen st.prepped text args (record s { world = w }) h)
        | inr k ↦ rw k (query_statement-IsOpen st.prepped text args (record s { world = w }) h)
      ]

      with_text-IsOpen :
          (st : Statement) (s : Session rand) (o : Out rand Text)
          → phase db s.calls ≡ in_progress
          → OnRan IsOpen (with_text rand db format_time clock ctx r q true st s o)
      with_text-IsOpen st s panic h = tt
      with_text-IsOpen st s (failed e w) h = unfold IsOpen in h
      with_text-IsOpen st s (done text w) h =
          with_args-IsOpen st text s (render_args rand db format_time clock ctx r st.args w) h

      run_statement-IsOpen :
          (st : Statement) (s : Session rand)
          → phase db s.calls ≡ in_progress
          → OnRan IsOpen (run_statement rand db format_time clock ctx r q true st s)
      unfolding run_statement
      run_statement-IsOpen st s h = with_text-IsOpen st s _ h

      committed_or :
          (a : Option Failure)
          → (is_settled (if not (is_none a) then commit_failed else committed) ≡ true)
            × (is_committed (if not (is_none a) then commit_failed else committed)
                ≡ is_none (wrapped_in rand db (codes "committing: ") a))
      committed_or none = (refl, refl)
      committed_or (some e) = (refl, refl)

      rolled_back_or :
          (a : Option Failure)
          → (is_settled (if not (is_none a) then rollback_failed else rolled_back) ≡ true)
            × (is_committed (if not (is_none a) then rollback_failed else rolled_back) ≡ false)
      rolled_back_or none = (refl, refl)
      rolled_back_or (some e) = (refl, refl)

      run_tx-Settles :
          (sts : List Statement) (s : Session rand)
          → phase db s.calls ≡ in_progress
          → OnRan Settles (run_tx rand db format_time clock ctx r q sts s)
      unfolding run_tx
      run_tx-Settles [] s h =
          unfold Settles phase advance in rw h (committed_or (db.answer (commit ∷ s.calls)))
      run_tx-Settles (st ∷ sts) s h =
          after (λ s' k. run_tx-Settles sts s' k)
            (run_statement rand db format_time clock ctx r q true st s)
            (run_statement-IsOpen st s h)
        where
          after :
              ((s' : Session rand)
                → phase db s'.calls ≡ in_progress
                → OnRan Settles (run_tx rand db format_time clock ctx r q sts s'))
              → (x : Ran rand) → OnRan IsOpen x
              → OnRan Settles (elim x [
                | ran none s' ↦ run_tx rand db format_time clock ctx r q sts s'
                | ran (some e) s' ↦ ran (some e) (called rand db rollback s')
                | panicked s' ↦ panicked s'
              ])
          after later (ran none s') k = later s' (unfold IsOpen in k)
          after later (ran (some e) s') k =
              unfold Settles IsOpen phase advance in
              rw k (rolled_back_or (db.answer (rollback ∷ s'.calls)))
          after later (panicked s') k = tt

      after_begin-Settles :
          (a : Option Failure) (s : Session rand)
          → db.answer (begin ∷ s.calls) ≡ a
          → phase db s.calls ≡ idle
          → OnRan Settles (after_begin rand db format_time clock ctx r q a (called rand db begin s))
      after_begin-Settles none s e h =
          run_tx-Settles q.stmts (called rand db begin s) (unfold phase advance in rw h (rw e refl))
      after_begin-Settles (some x) s e h = unfold Settles phase advance in rw h (rw e (refl, refl))

      pub execute-Settles :
          (s : Session rand)
          → q.is_tx ≡ true
          → phase db s.calls ≡ idle
          → OnRan Settles (execute rand db format_time clock ctx r q s)
      unfolding execute
      execute-Settles s t h =
          subst
            (λ b. OnRan Settles (
              if b
              then after_begin rand db format_time clock ctx r q (db.answer (begin ∷ s.calls))
                  (called rand db begin s)
              else run_first rand db format_time clock ctx r q q.stmts s))
            (sym t) (after_begin-Settles (db.answer (begin ∷ s.calls)) s refl h)
