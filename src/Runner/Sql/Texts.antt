-- ===== src/Runner/Sql/Texts.antt =====
-- The texts of the statements that the SQL runner compiles are those that the policy judged.
use tracepoint.Base.{
  ℕ, zero, suc, Bool, true, false, not, ◌≡◌, refl, sym, ap, ◌∙◌, subst, some, List, [], ◌∷◌, ◌++◌,
  any, all, map, if◌then◌else◌, arith, get_elem?,
}
use tracepoint.Base.Float.{Float}
use tracepoint.Base.Text.{Text}
use tracepoint.Errs.{Result, ok, err, OnOk}
use tracepoint.Config.{Arg, TxStatement, Query}
use tracepoint.Config.Statements.{query_item}
use tracepoint.Config.Laws.{writes}
use tracepoint.Config.Validate.Common.{is_blank}
use tracepoint.Policy.Classify.{is_write, is_empty}
use tracepoint.Policy.Classify.Sql.{classify_sql}
use tracepoint.Template.{Template}
use tracepoint.Template.Compile.{is_static}
use tracepoint.Template.Static.{source_of-compile}
use tracepoint.Runner.Sql.{
  Statement, Compiled, Settings, comment, template_of, template_of_lem, with_args, statement_of,
  compile_args, compile_statements, behind_first, raw, infers_write, query_of, compile_query,
  compile_queries,
}
use tracepoint.Runner.Sql.Laws.{op_of-writes, op_of-query_item}

-- A text that is not judged to write, or no text.
abbrev is_read_text : Text → Bool
is_read_text [] = true
is_read_text (c ∷ cs) = not (is_write (classify_sql (c ∷ cs)).op)

abbrev pub sent_as_read : Statement → Bool
sent_as_read st = is_read_text st.text

pub is_read_text_lem :
    (t : Text) → is_blank t ≡ false → is_read_text t ≡ true → is_write (classify_sql t).op ≡ false
is_read_text_lem [] h k = cc
is_read_text_lem (c ∷ cs) h k = ground arith

not_judged : (t : Text) → is_write (classify_sql t).op ≡ false → is_read_text t ≡ true
not_judged [] h = refl
not_judged (c ∷ cs) h = ground arith

text_or_none :
    (b : Bool) (t : Text) → is_read_text t ≡ true → is_read_text (if b then t else []) ≡ true
text_or_none true t h = h
text_or_none false t h = refl

comment_off : (r : Settings) (name : Text) → r.comment_queries ≡ false → comment r name ≡ []
unfolding comment
comment_off r name m = rw m refl

module _ (r : Settings) (m : r.comment_queries ≡ false) (name : Text) where
  Sent : Result Statement → Type 0
  Sent o = OnOk (λ st. sent_as_read st ≡ true) o

  with_args-Sent :
      (t : Template) (o : Result (List Template))
      → is_write (classify_sql t.source).op ≡ false
      → Sent (with_args r name t o)
  unfolding Sent
  with_args-Sent t (err e) h = tt
  with_args-Sent t (ok as') h = text_or_none (is_static t) (comment r name ++ t.source) (
      subst (λ c. is_read_text (c ++ t.source) ≡ true) (sym (comment_off r name m))
        (not_judged t.source h))

  statement_of-Sent :
      (sql : Text) (args : List Arg) (o : Result Template)
      → template_of sql ≡ o
      → is_write (classify_sql sql).op ≡ false
      → Sent (statement_of r name args o)
  statement_of-Sent sql args (err e) h w = unfold Sent in tt
  statement_of-Sent sql args (ok t) h w = with_args-Sent t (compile_args r args) (
      subst (λ x. is_write (classify_sql x).op ≡ false)
        (sym (source_of-compile sql t (template_of_lem sql ∙ ap some h))) w)

  behind_first-Sent :
      (o : Result Statement) (rest : Result (List Statement))
      → Sent o
      → OnOk (λ sts. all sent_as_read sts ≡ true) rest
      → OnOk (λ sts. all sent_as_read sts ≡ true) (behind_first o rest)
  unfolding Sent
  behind_first-Sent (err e) rest h k = tt
  behind_first-Sent (ok st) (err e) h k = tt
  behind_first-Sent (ok st) (ok sts) h k = unfold all in ground arith

  compile_statements-sent :
      (ts : List TxStatement)
      → infers_write ts ≡ false
      → OnOk (λ sts. all sent_as_read sts ≡ true) (compile_statements r name ts)
  unfolding compile_statements infers_write any all
  compile_statements-sent [] h = refl
  compile_statements-sent (t ∷ ts) h =
      behind_first-Sent (statement_of r name t.args (template_of t.sql))
        (compile_statements r name ts)
        (statement_of-Sent t.sql t.args (template_of t.sql) refl (ground arith))
        (compile_statements-sent ts (ground arith))

module _ (f : Float) where
  -- A query that declares no type is kept with texts that are not judged to write.
  abbrev SentOne : Query f → Compiled → Type 0
  SentOne src q = is_empty src.type ≡ true → all sent_as_read q.stmts ≡ true

  abbrev pub SentAsRead : List (Query f) → List Compiled → Type 0
  SentAsRead [] [] = Unit
  SentAsRead (src ∷ srcs) (q ∷ qs) = SentOne src q × SentAsRead srcs qs
  SentAsRead _ _ = ⊥

  pub SentAsRead-at :
      (srcs : List (Query f)) (qs : List Compiled) (i : ℕ) (src : Query f) (q : Compiled)
      → SentAsRead srcs qs
      → get_elem? srcs i ≡ some src
      → get_elem? qs i ≡ some q
      → is_empty src.type ≡ true
      → all sent_as_read q.stmts ≡ true
  SentAsRead-at [] qs i src q h a b t = cc
  SentAsRead-at (x ∷ srcs) [] i src q h a b t = cc
  SentAsRead-at (x ∷ srcs) (y ∷ qs) zero src q (h, k) a b t =
      let e : x ≡ src = cc in
      let g : y ≡ q = cc in
      subst (λ z. all sent_as_read z.stmts ≡ true) g
        (h (subst (λ z. is_empty z.type ≡ true) (sym e) t))
  SentAsRead-at (x ∷ srcs) (y ∷ qs) (suc i) src q (h, k) a b t =
      SentAsRead-at srcs qs i src q k a b t

  not_inferred :
      (src : Query f)
      → writes (query_item f src) ≡ false
      → is_empty src.type ≡ true
      → infers_write (raw f src) ≡ false
  not_inferred src w t =
      ground (arith, op_of-query_item f src, op_of-writes f src.type (infers_write (raw f src)))

  query_of-SentOne :
      (r : Settings) (src : Query f) (o : Result (List Statement))
      → (is_empty src.type ≡ true → OnOk (λ sts. all sent_as_read sts ≡ true) o)
      → OnOk (SentOne src) (query_of f r src o)
  query_of-SentOne r src (err e) h = tt
  query_of-SentOne r src (ok sts) h = h

  behind_first-SentAsRead :
      (src : Query f) (srcs : List (Query f)) (o : Result Compiled) (rest : Result (List Compiled))
      → OnOk (SentOne src) o
      → OnOk (SentAsRead srcs) rest
      → OnOk (SentAsRead (src ∷ srcs)) (behind_first o rest)
  behind_first-SentAsRead src srcs (err e) rest h k = tt
  behind_first-SentAsRead src srcs (ok q) (err e) h k = tt
  behind_first-SentAsRead src srcs (ok q) (ok qs) h k = (h, k)

  pub compile_queries-SentAsRead :
      (r : Settings)
      → r.comment_queries ≡ false
      → (srcs : List (Query f)) → all (λ it. not (writes it)) (map (query_item f) srcs) ≡ true
      → OnOk (SentAsRead srcs) (compile_queries f r srcs)
  unfolding compile_queries compile_query all
  compile_queries-SentAsRead r m [] a = tt
  compile_queries-SentAsRead r m (src ∷ srcs) a =
      behind_first-SentAsRead src srcs
        (query_of f r src (compile_statements r src.name (raw f src))) (compile_queries f r srcs)
        (query_of-SentOne r src (compile_statements r src.name (raw f src)) (λ t.
          compile_statements-sent r m src.name (raw f src) (not_inferred src (ground arith) t)))
        (compile_queries-SentAsRead r m srcs (ground arith))
