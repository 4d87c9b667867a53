-- ===== src/Runner/Sql/Execute.antt =====
-- `Do`, `execute`, `runStatement`, `exec` and `query` of internal/runner/sqlrun/sqlrun.go, over a connection whose
-- answers may depend on all the calls before. Closing a connection or rows, and rolling back, cannot change
-- what is reported; a failure of these is only logged.
use tracepoint.Base.{ℕ, Bool, true, false, Option, none, some, List, [], ◌∷◌, ◌++◌, if◌then◌else◌}
use tracepoint.Base.Text.{Text, codes, ◌==◌}
use tracepoint.Errs.{Error}
use tracepoint.Template.{Value, Template}
use tracepoint.Template.Render.{
  Rand, World, Out, done, failed, panic, Context, render, render_typed,
}
use tracepoint.Config.Validate.Common.{is_blank}
use tracepoint.Runner.Sql.{Statement, Compiled, Settings, comment}
use tracepoint.Runner.Sql.Failures.{Failure, wrap}

-- What is asked of the driver. A statement is sent in a transaction or not, and prepared or as text.
pub data Call : Type 0 where
  begin commit rollback next_rows : Call
  exec : (in_tx prepped : Bool) (text : Text) (args : List Value) → Call
  query : (in_tx prepped : Bool) (text : Text) (args : List Value) → Call

-- What the driver answers to the latest of some calls, and what a failed rendering is as an error.
pub record Driver : Type 0 where
  pub answer : List Call → Option Failure
  pub rendering : Error → Failure

module _ (rand : Rand) where
  -- The calls so far, the latest first, and the state of rendering.
  pub record Session : Type 0 where
    pub calls : List Call
    pub world : World rand

  pub data Ran : Type 0 where
    ran : Option Failure → Session → Ran
    panicked : Session → Ran

  module _ (db : Driver) where
    abbrev pub called : Call → Session → Session
    called c s = record s { calls = c ∷ s.calls }

    abbrev pub wrapped_in : Text → Option Failure → Option Failure
    wrapped_in said none = none
    wrapped_in said (some e) = some (wrap said e)

    -- A call, with the text that its failure is wrapped in.
    abbrev pub asked : Text → Call → Session → Ran
    asked said c s = ran (wrapped_in said (db.answer (c ∷ s.calls))) (called c s)

    unfoldable pub exec_statement : (in_tx prepped : Bool) → Text → List Value → Session → Ran
    exec_statement in_tx prepped text args s =
        asked (codes "executing: ") (exec in_tx prepped text args) s

    -- Every row is read before the error of the rows is.
    abbrev pub drained : Session → Ran → Ran
    drained s (ran none s') = asked (codes "reading rows: ") next_rows s'
    drained s (ran (some e) s') = ran (some e) s'
    drained s (panicked s') = panicked s'

    unfoldable pub query_statement : (in_tx prepped : Bool) → Text → List Value → Session → Ran
    query_statement in_tx prepped text args s =
        drained s (asked (codes "querying: ") (query in_tx prepped text args) s)

    module _ (format_time : ℕ → Text) (clock : ℕ) (ctx : Context) (r : Settings) where
      abbrev pub prefixed_by : Text → Out rand Text → Out rand Text
      prefixed_by p panic = panic
      prefixed_by p (failed e w) = failed e w
      prefixed_by p (done t w) = done (p ++ t) w

      abbrev pub text_for : Text → Statement → World rand → Out rand Text
      text_for name st w =
          if is_blank st.text
          then prefixed_by (comment r name) (render rand format_time clock ctx st.sql w)
          else done st.text w

      abbrev pub onto_value : Value → Out rand (List Value) → Out rand (List Value)
      onto_value v panic = panic
      onto_value v (failed e w) = failed e w
      onto_value v (done vs w) = done (v ∷ vs) w

      unfoldable pub render_args : List Template → World rand → Out rand (List Value)
      render_args [] w = done [] w
      render_args (t ∷ ts) w = elim (render_typed rand format_time clock ctx t w) [
        | panic ↦ panic
        | failed e w' ↦ failed e w'
        | done v w' ↦ onto_value v (render_args ts w')
      ]

      abbrev pub with_args :
          Compiled → Bool → Statement → Text → Session → Out rand (List Value) → Ran
      with_args q in_tx st text s panic = panicked s
      with_args q in_tx st text s (failed e w) =
          ran (some (db.rendering e)) (record s { world = w })
      with_args q in_tx st text s (done args w) =
          if q.op == codes "write"
          then exec_statement in_tx st.prepped text args (record s { world = w })
          else query_statement in_tx st.prepped text args (record s { world = w })

      abbrev pub with_text : Compiled → Bool → Statement → Session → Out rand Text → Ran
      with_text q in_tx st s panic = panicked s
      with_text q in_tx st s (failed e w) = ran (some (db.rendering e)) (record s { world = w })
      with_text q in_tx st s (done text w) = with_args q in_tx st text s (render_args st.args w)

      unfoldable pub run_statement : Compiled → Bool → Statement → Session → Ran
      run_statement q in_tx st s = with_text q in_tx st s (text_for q.name st s.world)

      -- The statements of a transaction, up to the commit or the first that fails.
      unfoldable pub run_tx : Compiled → List Statement → Session → Ran
      run_tx q [] s = asked (codes "committing: ") commit s
      run_tx q (st ∷ sts) s = elim (run_statement q true st s) [
        | ran none s' ↦ run_tx q sts s'
        | ran (some e) s' ↦ ran (some e) (called rollback s')
        | panicked s' ↦ panicked s'
      ]

      abbrev pub after_begin : Compiled → Option Failure → Session → Ran
      after_begin q none s = run_tx q q.stmts s
      after_begin q (some e) s = ran (some (wrap (codes "beginning a transaction: ") e)) s

      -- A unit that is no transaction has one statement; without any the code panics.
      abbrev pub run_first : Compiled → List Statement → Session → Ran
      run_first q [] s = panicked s
      run_first q (st ∷ sts) s = run_statement q false st s

      unfoldable pub execute : Compiled → Session → Ran
      execute q s =
          if q.is_tx
          then after_begin q (db.answer (begin ∷ s.calls)) (called begin s)
          else run_first q q.stmts s
