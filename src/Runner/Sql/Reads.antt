-- ===== src/Runner/Sql/Reads.antt =====
-- What the SQL runner sends for a configuration that the policy lets through.
use tracepoint.Base.{
  ℕ, Bool, true, false, not, ◌&&◌, ◌||◌, Bool-cases, inl, inr, ◌≡◌, refl, subst, Option, none, some,
  List, [], ◌∷◌, all, map, if◌then◌else◌, arith, get_elem?,
}
use tracepoint.Base.Float.{Float}
use tracepoint.Base.Text.{Text, codes, ◌==◌}
use tracepoint.Errs.{ok, OnOk}
use tracepoint.Config.{Query, Db, Config}
use tracepoint.Config.Statements.{Warning, query_item}
use tracepoint.Config.Apply.{apply_policy, query_items}
use tracepoint.Config.Laws.{apply_policy-allowed, writes}
use tracepoint.Policy.Envelope.{Durations, Policy}
use tracepoint.Policy.Target.{Net}
use tracepoint.Template.{Value}
use tracepoint.Template.Render.{Rand, Out, done, failed, panic, Context}
use tracepoint.Runner.Sql.{Statement, Compiled, Settings, compile_queries}
use tracepoint.Runner.Sql.Texts.{
  sent_as_read, is_read_text_lem, SentAsRead, SentAsRead-at, compile_queries-SentAsRead,
}
use tracepoint.Policy.Classify.{is_write, is_empty}
use tracepoint.Policy.Classify.Sql.{classify_sql}
use tracepoint.Config.Validate.Common.{is_blank}
use tracepoint.Runner.Sql.Failures.{Failure}
use tracepoint.Runner.Sql.Execute.{
  Call, begin, rollback, exec, query, Driver, Session, Ran, ran, panicked, called, asked, drained,
  exec_statement, query_statement, with_args, run_statement, run_tx, after_begin, run_first,
  execute,
}

-- Some statement that is sent, in whatever way, has a text that is judged to write.
unfoldable pub sends_write : List Call → Bool
sends_write [] = false
sends_write (exec in_tx prepped text args ∷ cs) = is_write (classify_sql text).op || sends_write cs
sends_write (query in_tx prepped text args ∷ cs) = is_write (classify_sql text).op || sends_write cs
sends_write (c ∷ cs) = sends_write cs

-- The text of the statement needs no rendering.
abbrev pub is_fixed : Statement → Bool
is_fixed st = not (is_blank st.text)

abbrev is_fixed_read : Statement → Bool
is_fixed_read st = is_fixed st && sent_as_read st

both_all :
    (sts : List Statement)
    → all is_fixed sts ≡ true
    → all sent_as_read sts ≡ true
    → all is_fixed_read sts ≡ true
unfolding all
both_all [] h k = refl
both_all (st ∷ sts) h k = ground (arith, both_all sts)

module _ (rand : Rand) where
  abbrev pub calls_of : Ran rand → List Call
  calls_of (ran e s) = s.calls
  calls_of (panicked s) = s.calls

  module _ (db : Driver) where
    Reads : Ran rand → Type 0
    Reads x = sends_write (calls_of x) ≡ false

    exec_statement-Reads :
        (in_tx prepped : Bool) (text : Text) (args : List Value) (s : Session rand)
        → is_write (classify_sql text).op ≡ false
        → sends_write s.calls ≡ false
        → Reads (exec_statement rand db in_tx prepped text args s)
    unfolding exec_statement Reads sends_write
    exec_statement-Reads in_tx prepped text args s w h = rw (w, h) refl

    query_statement-Reads :
        (in_tx prepped : Bool) (text : Text) (args : List Value) (s : Session rand)
        → is_write (classify_sql text).op ≡ false
        → sends_write s.calls ≡ false
        → Reads (query_statement rand db in_tx prepped text args s)
    unfolding query_statement
    query_statement-Reads in_tx prepped text args s w h =
        read (asked rand db (codes "querying: ") (query in_tx prepped text args) s)
          (unfold Reads sends_write in rw (w, h) refl)
      where
        read : (x : Ran rand) → Reads x → Reads (drained rand db s x)
        read (ran none s') k = unfold Reads sends_write in k
        read (ran (some e) s') k = unfold Reads in k
        read (panicked s') k = unfold Reads in k

    module _ (format_time : ℕ → Text) (clock : ℕ) (ctx : Context) (r : Settings)
        (q : Compiled) where
      with_args-Reads :
          (in_tx : Bool) (st : Statement) (text : Text) (s : Session rand)
          (o : Out rand (List Value))
          → is_write (classify_sql text).op ≡ false
          → sends_write s.calls ≡ false
          → Reads (with_args rand db format_time clock ctx r q in_tx st text s o)
      with_args-Reads in_tx st text s panic w h = unfold Reads in h
      with_args-Reads in_tx st text s (failed e v) w h = unfold Reads in h
      with_args-Reads in_tx st text s (done args v) w h =
          elim (Bool-cases (q.op == codes "write")) [
            | inl k ↦
                rw k (exec_statement-Reads in_tx st.prepped text args (record s { world = v }) w h)
            | inr k ↦
                rw k (query_statement-Reads in_tx st.prepped text args (record s { world = v }) w h)
          ]

      run_statement-Reads :
          (in_tx : Bool) (st : Statement) (s : Session rand)
          → is_fixed_read st ≡ true
          → sends_write s.calls ≡ false
          → Reads (run_statement rand db format_time clock ctx r q in_tx st s)
      unfolding run_statement
      run_statement-Reads in_tx st s w h =
          let b : is_blank st.text ≡ false = ground arith in
          rw b (with_args-Reads in_tx st st.text s _ (is_read_text_lem st.text b (ground arith)) h)

      run_tx-Reads :
          (sts : List Statement) (s : Session rand)
          → all is_fixed_read sts ≡ true
          → sends_write s.calls ≡ false
          → Reads (run_tx rand db format_time clock ctx r q sts s)
      unfolding run_tx all
      run_tx-Reads [] s w h = unfold Reads sends_write in h
      run_tx-Reads (st ∷ sts) s w h =
          next (λ s' k. run_tx-Reads sts s' (ground arith) k)
            (run_statement rand db format_time clock ctx r q true st s)
            (run_statement-Reads true st s (ground arith) h)
        where
          next :
              ((s' : Session rand)
                → sends_write s'.calls ≡ false
                → Reads (run_tx rand db format_time clock ctx r q sts s'))
              → (x : Ran rand) → Reads x
              → Reads (elim x [
                | ran none s' ↦ run_tx rand db format_time clock ctx r q sts s'
                | ran (some e) s' ↦ ran (some e) (called rand db rollback s')
                | panicked s' ↦ panicked s'
              ])
          next later (ran none s') k = later s' (unfold Reads in k)
          next later (ran (some e) s') k = unfold Reads sends_write in k
          next later (panicked s') k = unfold Reads in k

      after_begin-Reads :
          (a : Option Failure) (s : Session rand)
          → all is_fixed_read q.stmts ≡ true
          → sends_write s.calls ≡ false
          → Reads (after_begin rand db format_time clock ctx r q a s)
      after_begin-Reads none s w h = run_tx-Reads q.stmts s w h
      after_begin-Reads (some e) s w h = unfold Reads in h

      run_first-Reads :
          (sts : List Statement) (s : Session rand)
          → all is_fixed_read sts ≡ true
          → sends_write s.calls ≡ false
          → Reads (run_first rand db format_time clock ctx r q sts s)
      unfolding all
      run_first-Reads [] s w h = unfold Reads in h
      run_first-Reads (st ∷ sts) s w h = run_statement-Reads false st s (ground arith) h

      execute-Reads :
          (s : Session rand)
          → all is_fixed_read q.stmts ≡ true
          → sends_write s.calls ≡ false
          → Reads (execute rand db format_time clock ctx r q s)
      unfolding execute
      execute-Reads s w h =
          by_kind _ _ q.is_tx
            (after_begin-Reads (db.answer (begin ∷ s.calls)) (called rand db begin s) w
              (unfold sends_write in h))
            (run_first-Reads q.stmts s w h)
        where
          by_kind : (x y : Ran rand) (b : Bool) → Reads x → Reads y → Reads (if b then x else y)
          by_kind x y true h k = h
          by_kind x y false h k = k

-- The queries of a section, as the runner is given them.
abbrev pub queries_of : (f : Float) → Option (Db f) → List (Query f)
queries_of f none = []
queries_of f (some d) = d.queries

query_items-queries_of :
    (f : Float) (o : Option (Db f)) → query_items f o ≡ map (query_item f) (queries_of f o)
query_items-queries_of f none = refl
query_items-queries_of f (some d) = refl

-- Where the policy and the configuration do not both grant writes, the policy lets the configuration
-- through, and queries carry no comment: a query that declares no type and whose statements need no
-- rendering, once compiled, never sends the database a text that is judged to write, by either call of
-- the driver, in a transaction or not, whatever the database answers.
pub apply_policy-sends_write :
    (f : Float) (net : Net) (tm : Durations) (c : Config f) (granted p : Policy f)
    (ws : List Warning) (r : Settings) (qs : List Compiled) (i : ℕ) (src : Query f) (q : Compiled)
    (rand : Rand) (db : Driver) (format_time : ℕ → Text) (clock : ℕ) (ctx : Context)
    (s : Session rand)
    → apply_policy f net tm c granted ≡ ok (p, ws)
    → granted.allow_writes && c.safety.allow_writes ≡ false
    → r.comment_queries ≡ false
    → compile_queries f r (queries_of f c.db) ≡ ok qs
    → get_elem? (queries_of f c.db) i ≡ some src
    → get_elem? qs i ≡ some q
    → is_empty src.type ≡ true
    → all is_fixed q.stmts ≡ true
    → sends_write s.calls ≡ false
    → sends_write (calls_of rand (execute rand db format_time clock ctx r q s)) ≡ false
apply_policy-sends_write f net tm c granted p ws r qs i src q rand db format_time clock ctx s h w m
      e a b t u n =
    let safe = (apply_policy-allowed f net tm granted p c ws h).0 in
    let read : all (λ it. not (writes it)) (map (query_item f) (queries_of f c.db)) ≡ true =
      subst (λ its. all (λ it. not (writes it)) its ≡ true) (query_items-queries_of f c.db)
        (ground arith) in
    let sent =
      subst (OnOk (SentAsRead f (queries_of f c.db))) e
        (compile_queries-SentAsRead f r m (queries_of f c.db) read) in
    unfold Reads in
    execute-Reads rand db format_time clock ctx r q s
      (both_all q.stmts u (SentAsRead-at f (queries_of f c.db) qs i src q sent a b t)) n
