-- ===== src/Policy/Classify/Sql.antt =====
-- `ClassifySQL` and what it calls.
use tracepoint.Base.{ℕ, Bool, not, ◌&&◌, ◌||◌, List, [], ◌∷◌, if◌then◌else◌, any}
use tracepoint.Base.{◌==◌ as nat_eq}
use tracepoint.Base.Text.{
  Text, codes, ◌==◌, contains, upper, equal_fold, trim_space, pieces, keep, fields_func,
}
use tracepoint.Policy.Classify.{Classification, plain_read, plain_write, unknown, danger, merge}
use tracepoint.Policy.Classify.Tables.{sql_read_verbs, sql_write_verbs, sql_dangerous_verbs}
use tracepoint.Policy.Classify.Strip.{strip_sql_comments}

abbrev pub is_separator : ℕ → Bool
is_separator c =
    nat_eq c 32
    || nat_eq c 9
    || nat_eq c 10
    || nat_eq c 13
    || nat_eq c b'('
    || nat_eq c b')'
    || nat_eq c b','

unfoldable pub fields : Text → List Text
fields s = fields_func is_separator s

or_empty : List Text → List Text
or_empty [] = [] ∷ []
or_empty (x ∷ xs) = x ∷ xs

unfoldable pub split_statements : Text → List Text
unfolding or_empty
split_statements s = or_empty (keep (λ p. not (trim_space p == [])) (pieces (λ c. nat_eq c b';') s))

unfoldable pub has_word : List Text → Text → Bool
has_word words want = any (λ w. equal_fold w want) words

-- The first verb after WITH that writes or is dangerous.
unfoldable pub behind_with : List Text → Classification
behind_with [] = plain_read
behind_with (w ∷ ws) =
    let rest = behind_with ws in
    let u = upper w in
    if contains sql_write_verbs u
    then plain_write
    else if contains sql_dangerous_verbs u
    then danger u
    else rest

unfoldable pub session_verbs : List Text
session_verbs =
    codes "BEGIN"
    ∷ codes "START"
    ∷ codes "COMMIT"
    ∷ codes "ROLLBACK"
    ∷ codes "SAVEPOINT"
    ∷ codes "SET"
    ∷ []

-- The verdict on a verb, with the statement's words.
unfoldable pub by_verb : Text → List Text → Classification
by_verb verb words =
    if contains sql_dangerous_verbs verb
    then danger verb
    else if contains sql_write_verbs verb
    then plain_write
    else if contains sql_read_verbs verb
    then (if has_word words (codes "INTO") && (verb == codes "SELECT")
        then plain_write
        else plain_read)
    else if contains session_verbs verb
    then plain_read
    else unknown

unfoldable pub classify_words : List Text → Classification
classify_words [] = plain_read
classify_words (w ∷ ws) =
    if upper w == codes "WITH" then behind_with ws else by_verb (upper w) (w ∷ ws)

unfoldable pub classify_one_sql : Text → Classification
classify_one_sql statement = classify_words (fields statement)

unfoldable pub merge_all : Classification → List Text → Classification
merge_all worst [] = worst
merge_all worst (p ∷ ps) = merge_all (merge worst (classify_one_sql p)) ps

unfoldable pub classify_sql : Text → Classification
classify_sql statement = merge_all plain_read (split_statements (strip_sql_comments statement))
