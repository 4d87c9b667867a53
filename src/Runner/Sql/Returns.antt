-- ===== src/Runner/Sql/Returns.antt =====
-- Queries whose execution cannot panic.
use tracepoint.Base.{
  ℕ, Bool, true, false, ◌&&◌, ◌≡◌, refl, sym, subst, Option, none, some, List, [], ◌∷◌, all,
  if◌then◌else◌, arith, Bool-cases, inl, inr,
}
use tracepoint.Base.Text.{Text, codes, ◌==◌}
use tracepoint.Config.Validate.Common.{is_blank}
use tracepoint.Template.{Value, Template}
use tracepoint.Template.Render.{Rand, World, Out, done, failed, panic, Context, render_typed}
use tracepoint.Template.Ready.{is_ready, returns, render-returns, render_typed-returns}
use tracepoint.Runner.Sql.{Statement, Compiled, Settings, comment}
use tracepoint.Runner.Sql.Failures.{Failure}
use tracepoint.Runner.Sql.Execute.{
  Driver, Session, Ran, ran, panicked, begin, rollback, called, asked, exec_statement, query,
  drained, query_statement, prefixed_by, onto_value, render_args, with_args, with_text, text_for,
  run_statement, run_tx, after_begin, run_first, execute,
}

-- Every generator of the statement has something to draw from.
abbrev pub is_ready_statement : Statement → Bool
is_ready_statement st = is_ready st.sql && all is_ready st.args

module _ (rand : Rand) (db : Driver) where
  abbrev pub is_ran : Ran rand → Bool
  is_ran (ran e s) = true
  is_ran (panicked s) = false

  query_statement-is_ran :
      (in_tx prepped : Bool) (text : Text) (args : List Value) (s : Session rand)
      → is_ran (query_statement rand db in_tx prepped text args s) ≡ true
  unfolding query_statement
  query_statement-is_ran in_tx prepped text args s =
      read (asked rand db (codes "querying: ") (query in_tx prepped text args) s) refl
    where
      read : (x : Ran rand) → is_ran x ≡ true → is_ran (drained rand db s x) ≡ true
      read (ran none s') h = refl
      read (ran (some e) s') h = refl
      read (panicked s') h = cc

  module _ (format_time : ℕ → Text) (clock : ℕ) (ctx : Context) (r : Settings) where
    onto_value-returns :
        (v : Value) (o : Out rand (List Value))
        → returns rand o ≡ true
        → returns rand (onto_value rand db format_time clock ctx r v o) ≡ true
    onto_value-returns v panic h = cc
    onto_value-returns v (failed e w) h = refl
    onto_value-returns v (done vs w) h = refl

    render_args-returns :
        (ts : List Template) (w : World rand)
        → all is_ready ts ≡ true
        → returns rand (render_args rand db format_time clock ctx r ts w) ≡ true
    unfolding render_args all
    render_args-returns [] w h = refl
    render_args-returns (t ∷ ts) w h =
        rest (λ w'. render_args-returns ts w' (ground arith))
          (render_typed rand format_time clock ctx t w)
          (render_typed-returns rand format_time clock ctx t w (ground arith))
      where
        rest :
            ((w' : World rand)
              → returns rand (render_args rand db format_time clock ctx r ts w') ≡ true)
            → (o : Out rand Value) → returns rand o ≡ true
            → returns rand (elim o [
              | panic ↦ panic
              | failed e w' ↦ failed e w'
              | done v w' ↦
                  onto_value rand db format_time clock ctx r v
                    (render_args rand db format_time clock ctx r ts w')
            ])
              ≡ true
        rest later panic h = cc
        rest later (failed e w') h = refl
        rest later (done v w') h = onto_value-returns v _ (later w')

    prefixed_by-returns :
        (p : Text) (o : Out rand Text)
        → returns rand o ≡ true
        → returns rand (prefixed_by rand db format_time clock ctx r p o) ≡ true
    prefixed_by-returns p panic h = cc
    prefixed_by-returns p (failed e w) h = refl
    prefixed_by-returns p (done t w) h = refl

    text_for-returns :
        (name : Text) (st : Statement) (w : World rand)
        → is_ready st.sql ≡ true
        → returns rand (text_for rand db format_time clock ctx r name st w) ≡ true
    text_for-returns name st w h = elim (Bool-cases (is_blank st.text)) [
      | inl b ↦ rw b (
          prefixed_by-returns (comment r name) _
            (render-returns rand format_time clock ctx st.sql w h))
      | inr b ↦ rw b refl
    ]

    module _ (q : Compiled) where
      with_args-is_ran :
          (in_tx : Bool) (st : Statement) (text : Text) (s : Session rand)
          (o : Out rand (List Value))
          → returns rand o ≡ true
          → is_ran (with_args rand db format_time clock ctx r q in_tx st text s o) ≡ true
      unfolding exec_statement
      with_args-is_ran in_tx st text s panic h = cc
      with_args-is_ran in_tx st text s (failed e w) h = refl
      with_args-is_ran in_tx st text s (done args w) h = elim (Bool-cases (q.op == codes "write")) [
        | inl k ↦ rw k refl
        | inr k ↦ rw k (query_statement-is_ran in_tx st.prepped text args (record s { world = w }))
      ]

      with_text-is_ran :
          (in_tx : Bool) (st : Statement) (s : Session rand) (o : Out rand Text)
          → all is_ready st.args ≡ true
          → returns rand o ≡ true
          → is_ran (with_text rand db format_time clock ctx r q in_tx st s o) ≡ true
      with_text-is_ran in_tx st s panic a h = cc
      with_text-is_ran in_tx st s (failed e w) a h = refl
      with_text-is_ran in_tx st s (done text w) a h =
          with_args-is_ran in_tx st text s _ (render_args-returns st.args w a)

      run_statement-is_ran :
          (in_tx : Bool) (st : Statement) (s : Session rand)
          → is_ready_statement st ≡ true
          → is_ran (run_statement rand db format_time clock ctx r q in_tx st s) ≡ true
      unfolding run_statement
      run_statement-is_ran in_tx st s h =
          with_text-is_ran in_tx st s _ (ground arith)
            (text_for-returns q.name st s.world (ground arith))

      run_tx-is_ran :
          (sts : List Statement) (s : Session rand)
          → all is_ready_statement sts ≡ true
          → is_ran (run_tx rand db format_time clock ctx r q sts s) ≡ true
      unfolding run_tx all
      run_tx-is_ran [] s h = refl
      run_tx-is_ran (st ∷ sts) s h =
          rest (λ s'. run_tx-is_ran sts s' (ground arith))
            (run_statement rand db format_time clock ctx r q true st s)
            (run_statement-is_ran true st s (ground arith))
        where
          rest :
              ((s' : Session rand)
                → is_ran (run_tx rand db format_time clock ctx r q sts s') ≡ true)
              → (x : Ran rand) → is_ran x ≡ true
              → is_ran (elim x [
                | ran none s' ↦ run_tx rand db format_time clock ctx r q sts s'
                | ran (some e) s' ↦ ran (some e) (called rand db rollback s')
                | panicked s' ↦ panicked s'
              ])
                ≡ true
          rest later (ran none s') h = later s'
          rest later (ran (some e) s') h = refl
          rest later (panicked s') h = cc

      after_begin-is_ran :
          (a : Option Failure) (s : Session rand)
          → all is_ready_statement q.stmts ≡ true
          → is_ran (after_begin rand db format_time clock ctx r q a s) ≡ true
      after_begin-is_ran none s h = run_tx-is_ran q.stmts s h
      after_begin-is_ran (some e) s h = refl

      pub execute-is_ran :
          (s : Session rand)
          → q.is_tx ≡ true
          → all is_ready_statement q.stmts ≡ true
          → is_ran (execute rand db format_time clock ctx r q s) ≡ true
      unfolding execute
      execute-is_ran s t h =
          subst
            (λ b.
              is_ran (
                if b
                then after_begin rand db format_time clock ctx r q (db.answer (begin ∷ s.calls))
                    (called rand db begin s)
                else run_first rand db format_time clock ctx r q q.stmts s)
              ≡ true)
            (sym t) (after_begin-is_ran (db.answer (begin ∷ s.calls)) (called rand db begin s) h)
