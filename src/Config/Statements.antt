-- ===== src/Config/Statements.antt =====
-- `classifyStatements` of internal/config/apply_policy.go. A warning is its code and the name of the
-- query or command; the order that the code sorts them in is left out.
use tracepoint.Base.{Bool, true, not, ◌&&◌, List, [], ◌∷◌, ◌++◌, if◌then◌else◌, map}
use tracepoint.Base.Text.{Text, codes, ◌==◌}
use tracepoint.Policy.Classify.{Classification, is_write, is_empty}
use tracepoint.Policy.Classify.Sql.{classify_sql}
use tracepoint.Policy.Classify.Redis.{classify_redis}
use tracepoint.Policy.Envelope.{Dangerous}
use tracepoint.Base.Float.{Float}
use tracepoint.Config.{TxStatement, Query, Command}
use Prim.Native.String.{String}

abbrev pub Warning : Type 0
Warning = String × Text

-- A query or a command, with what each of its statements was judged to be.
pub record Item : Type 0 where
  pub name : Text
  pub type : Text
  pub verdicts : List Classification

-- What the loop over the statements of one item carries.
pub record Scan : Type 0 where
  pub writes : Bool
  pub dangerous : List Dangerous
  pub warnings : List Warning

abbrev given {ℓ} : {A : Type ℓ} → Bool → A → List A
given b x = if b then x ∷ [] else []

unfoldable pub unrecognised : Item → Classification → List Warning
unrecognised it got =
    given (is_empty it.type && (is_write got.op && not got.certain))
      ("UNRECOGNISED_STATEMENT", it.name)

unfoldable pub query_warnings : Item → Classification → List Warning
query_warnings it got =
    given ((it.type == codes "read") && (is_write got.op && got.certain))
      ("DECLARED_READ_LOOKS_LIKE_WRITE", it.name)
    ++ unrecognised it got

unfoldable pub command_warnings : Item → Classification → List Warning
command_warnings it got =
    given (not (is_empty got.blocking)) ("DANGEROUS_COMMAND", it.name) ++ unrecognised it got

unfoldable pub judge : (Item → Classification → List Warning) → Item → Scan → Classification → Scan
judge warn it s got = record {
  writes = if is_empty it.type && is_write got.op then true else s.writes;
  dangerous =
      s.dangerous
      ++ given (not (is_empty got.dangerous)) (record { label = it.name; keyword = got.dangerous });
  warnings = s.warnings ++ warn it got;
}

unfoldable pub scan :
    (Item → Classification → List Warning) → Item → Scan → List Classification → Scan
scan warn it s [] = s
scan warn it s (got ∷ rest) = scan warn it (judge warn it s got) rest

abbrev pub start : Item → Scan
start it = record { writes = it.type == codes "write"; dangerous = []; warnings = [] }

-- The labels that write, the destructive statements, and the warnings.
pub record Report : Type 0 where
  pub labels : List Text
  pub found : List Dangerous
  pub warned : List Warning

abbrev pub add_item : Item → Scan → Report → Report
add_item it s r = record {
  labels = given s.writes it.name ++ r.labels;
  found = s.dangerous ++ r.found;
  warned = s.warnings ++ r.warned;
}

unfoldable pub report : (Item → Classification → List Warning) → List Item → Report
report warn [] = record { labels = []; found = []; warned = [] }
report warn (it ∷ its) = add_item it (scan warn it (start it) it.verdicts) (report warn its)

abbrev filled {ℓ} : {A : Type ℓ} → List A → List (List A)
filled [] = []
filled (x ∷ xs) = (x ∷ xs) ∷ []

module _ (f : Float) where
  unfoldable pub query_item : Query f → Item
  query_item q = record {
    name = q.name;
    type = q.type;
    verdicts = map classify_sql (filled q.sql ++ map (λ (t : TxStatement). t.sql) q.tx);
  }

  unfoldable pub command_item : Command f → Item
  command_item c = record {
    name = c.name;
    type = c.type;
    verdicts = map classify_redis (filled c.cmd ++ c.pipeline);
  }
