-- ===== src/Runner/Sql.antt =====
-- internal/runner/sqlrun/sqlrun.go: the queries of the SQL runner, compiled. The text that fmt.Sprint gives
-- for an argument is a parameter, and so is the label of the collector.
pub mod Failures
pub mod Execute
pub mod Laws
pub mod Texts
pub mod Reads
pub mod Settles
pub mod Returns
pub mod Perform
mod Examples
use tracepoint.Base.{
  ℕ, Bool, true, false, not, ◌&&◌, ◌||◌, ◌≡◌, refl, Option, none, some, List, [], ◌∷◌, ◌++◌, any,
  if◌then◌else◌, ltb, get_or,
}
use tracepoint.Base.{◌==◌ as nat_eq}
use tracepoint.Base.Int.{ℤ}
use tracepoint.Base.Float.{Float}
use tracepoint.Base.Text.{Text, codes, ◌==◌}
use tracepoint.Errs.{Error, Result, ok, err, error, internal}
use tracepoint.Config.{Arg, TxStatement, Query}
use tracepoint.Config.Validate.Common.{is_blank}
use tracepoint.Policy.Classify.{is_write, is_empty}
use tracepoint.Policy.Classify.Sql.{classify_sql}
use tracepoint.Template.{Value, Template, str, int, time, nil, other}
use tracepoint.Template.Compile.{compile, is_static, wrapped}
use tracepoint.Template.Ends.{compile_ends}
use Prim.Native.String.{String}

pub record Statement : Type 0 where
  pub sql : Template
  pub text : Text
  pub args : List Template
  pub prepped : Bool

pub record Compiled : Type 0 where
  pub name : Text
  pub label : ℕ
  pub op : Text
  pub is_tx : Bool
  pub stmts : List Statement
  pub timeout : ℤ
  pub prepare : Bool

-- What the runner takes from its configuration and from the engine.
pub record Settings : Type 0 where
  pub comment_queries : Bool
  pub run_id : Text
  pub timeout : ℤ
  pub label_id : Text → ℕ
  pub sprint : Value → Text

-- strings.ReplaceAll of `*/` by nothing.
unfoldable pub without_close : Text → Text
without_close [] = []
without_close (c ∷ []) = c ∷ []
without_close (c ∷ d ∷ cs) =
    let rest = without_close (d ∷ cs) in
    let behind = without_close cs in if nat_eq c 42 && nat_eq d 47 then behind else c ∷ rest

-- What is kept of a byte: not a quote, and no control character.
abbrev pub is_plain : ℕ → Bool
is_plain c = not (nat_eq c 39) && (not (ltb c 32) && not (nat_eq c 127))

unfoldable pub kept : Text → Text
kept [] = []
kept (c ∷ cs) = if is_plain c then c ∷ kept cs else kept cs

unfoldable pub sanitise_comment : Text → Text
sanitise_comment s = kept (without_close s)

-- The marker before a statement that says which run and which query it is of.
unfoldable pub comment : Settings → Text → Text
comment r label =
    if r.comment_queries
    then codes "/* tracepoint_run='"
      ++ (sanitise_comment r.run_id
          ++ (codes "',label='" ++ (sanitise_comment label ++ codes "' */ ")))
    else []

-- `Compile` always ends, by compile_ends, so that the error stands for nothing.
unfoldable pub template_of : Text → Result Template
template_of source = elim (compile source) [ some r ↦ r | none ↦ err (error internal "") ]

pub template_of_lem : (source : Text) → compile source ≡ some (template_of source)
unfolding template_of
template_of_lem source = let (r, e) = compile_ends source in cc

unfoldable pub compile_arg : Settings → Arg → Result Template
compile_arg r a = elim a.value [
  | str s ↦ template_of s
  | int n ↦ ok (wrapped (r.sprint (int n)) (int n))
  | time t ↦ ok (wrapped (r.sprint (time t)) (time t))
  | nil ↦ ok (wrapped (r.sprint nil) nil)
  | other t ↦ ok (wrapped (r.sprint (other t)) (other t))
]

unfoldable pub wrap_template : Error → Error
wrap_template e = record e { path = "/db/queries" }

abbrev pub onto {ℓ} : {A : Type ℓ} → A → Result (List A) → Result (List A)
onto a (err e) = err e
onto a (ok as') = ok (a ∷ as')

-- The next result before those behind it, unless it is an error.
abbrev pub before {ℓ} : {A : Type ℓ} → Result A → Result (List A) → Result (List A)
before (err e) rest = err (wrap_template e)
before (ok a) rest = onto a rest

unfoldable pub compile_args : Settings → List Arg → Result (List Template)
compile_args r [] = ok []
compile_args r (a ∷ as') = before (compile_arg r a) (compile_args r as')

abbrev pub with_args : Settings → Text → Template → Result (List Template) → Result Statement
with_args r name t (err e) = err e
with_args r name t (ok as') = ok (record {
  sql = t;
  text = if is_static t then comment r name ++ t.source else [];
  args = as';
  prepped = false;
})

abbrev pub statement_of : Settings → Text → List Arg → Result Template → Result Statement
statement_of r name as' (err e) = err (wrap_template e)
statement_of r name as' (ok t) = with_args r name t (compile_args r as')

-- An error of a later statement stands behind those of this one.
abbrev pub behind_first {ℓ} : {A : Type ℓ} → Result A → Result (List A) → Result (List A)
behind_first (err e) rest = err e
behind_first (ok a) rest = onto a rest

unfoldable pub compile_statements : Settings → Text → List TxStatement → Result (List Statement)
compile_statements r name [] = ok []
compile_statements r name (t ∷ ts) =
    behind_first (statement_of r name t.args (template_of t.sql)) (compile_statements r name ts)

abbrev pub first_statement : Text → List Arg → List TxStatement
first_statement [] as' = []
first_statement (c ∷ cs) as' = record { sql = c ∷ cs; args = as' } ∷ []

unfoldable pub infers_write : List TxStatement → Bool
infers_write ts = any (λ t. is_write (classify_sql t.sql).op) ts

abbrev pub op_of : Text → Bool → Text
op_of [] writes = if writes then codes "write" else codes "read"
op_of (c ∷ cs) writes = c ∷ cs

abbrev pub timeout_or : ℤ → Option ℤ → ℤ
timeout_or default none = default
timeout_or default (some t) = t

module _ (f : Float) where
  abbrev pub raw : Query f → List TxStatement
  raw src = first_statement src.sql src.args ++ src.tx

  abbrev pub query_of : Settings → Query f → Result (List Statement) → Result Compiled
  query_of r src (err e) = err e
  query_of r src (ok stmts) = ok (record {
    name = src.name;
    label = r.label_id src.name;
    op = op_of src.type (infers_write (raw src));
    is_tx = not (is_blank src.tx);
    stmts = stmts;
    timeout = timeout_or r.timeout src.timeout;
    prepare = src.prepare;
  })

  unfoldable pub compile_query : Settings → Query f → Result Compiled
  compile_query r src = query_of r src (compile_statements r src.name (raw src))

  unfoldable pub compile_queries : Settings → List (Query f) → Result (List Compiled)
  compile_queries r [] = ok []
  compile_queries r (q ∷ qs) = behind_first (compile_query r q) (compile_queries r qs)
