-- ===== src/Policy/Classify/Examples.antt =====
-- Statements and commands classified.
use tracepoint.Base.{true, false, not, ◌||◌, ◌≡◌, refl, any, all, List, [], ◌∷◌, ◌++◌}
use tracepoint.Base.{◌==◌ as nat_eq}
use tracepoint.Base.Text.{
  Text, codes, contains, upper, upper_byte, equal_fold, is_space, ◌==◌, trim_space, trim_left,
  trim_right, pieces, keep, fields_func,
}
use tracepoint.Policy.Classify.{is_write, is_empty, plain_read, plain_write, danger, merge}
use tracepoint.Policy.Classify.Tables.{sql_read_verbs, sql_write_verbs, sql_dangerous_verbs}
use tracepoint.Policy.Classify.Strip.{code, strip, step, at_end, strip_sql_comments}
use tracepoint.Policy.Classify.Sql.{
  classify_sql, classify_one_sql, split_statements, merge_all, fields, classify_words, by_verb,
  behind_with, has_word, session_verbs,
}
use tracepoint.Policy.Classify.Redis.{classify_redis}
use tracepoint.Policy.Classify.Laws.{
  classify_sql-IsCautious, classify_redis-IsCautious, classify_sql-parts,
}
use tracepoint.Policy.Classify.Opaque.{classify_sql-opaque, mode_after}

abbrev two_statements : Text
two_statements = codes "SELECT 1; drop table t"

abbrev flush : List Text
flush = codes "flushall" ∷ []

two_statements_classified : classify_sql two_statements ≡ danger (codes "DROP")
unfolding classify_sql strip_sql_comments strip step at_end merge_all merge split_statements keep
    pieces trim_space trim_left trim_right is_space ◌==◌ classify_one_sql fields fields_func
    classify_words upper upper_byte contains by_verb behind_with has_word any equal_fold
    sql_read_verbs sql_write_verbs sql_dangerous_verbs session_verbs
two_statements_classified = refl

word_in_literal : classify_sql (codes "SELECT 'drop table' FROM t -- update") ≡ plain_read
unfolding classify_sql strip_sql_comments strip step at_end merge_all merge split_statements keep
    pieces trim_space trim_left trim_right is_space ◌==◌ classify_one_sql fields fields_func
    classify_words upper upper_byte contains by_verb behind_with has_word any equal_fold
    sql_read_verbs sql_write_verbs sql_dangerous_verbs session_verbs
word_in_literal = refl

write_behind_with : classify_sql (codes "WITH x AS (SELECT 1) DELETE FROM t") ≡ plain_write
unfolding classify_sql strip_sql_comments strip step at_end merge_all merge split_statements keep
    pieces trim_space trim_left trim_right is_space ◌==◌ classify_one_sql fields fields_func
    classify_words upper upper_byte contains by_verb behind_with has_word any equal_fold
    sql_read_verbs sql_write_verbs sql_dangerous_verbs session_verbs
write_behind_with = refl

classify_sql-IsCautious_example :
    ((is_empty (classify_sql two_statements).dangerous || is_write (classify_sql two_statements).op)
      ≡ true)
    × (((classify_sql two_statements).certain || is_write (classify_sql two_statements).op) ≡ true)
classify_sql-IsCautious_example = classify_sql-IsCautious two_statements

classify_redis-IsCautious_example :
    ((is_empty (classify_redis flush).dangerous || is_write (classify_redis flush).op) ≡ true)
    × (((classify_redis flush).certain || is_write (classify_redis flush).op) ≡ true)
classify_redis-IsCautious_example = classify_redis-IsCautious flush

classify_sql-parts_example :
    let parts = split_statements (strip_sql_comments two_statements) in
    (is_write (classify_sql two_statements).op ≡ any (λ p. is_write (classify_one_sql p).op) parts)
    × (not (is_empty (classify_sql two_statements).dangerous)
        ≡ any (λ p. not (is_empty (classify_one_sql p).dangerous)) parts)
    × ((classify_sql two_statements).certain ≡ all (λ p. (classify_one_sql p).certain) parts)
classify_sql-parts_example = classify_sql-parts two_statements

literal_at : mode_after code (codes "SELECT ") 39 ≡ code
unfolding mode_after step
literal_at = refl

drop_has_no_quote : any (λ c. nat_eq c 39) (codes "drop") ≡ false
unfolding any
drop_has_no_quote = refl

dashes_have_no_quote : any (λ c. nat_eq c 39) (codes "; --") ≡ false
unfolding any
dashes_have_no_quote = refl

classify_sql-opaque_example :
    classify_sql (codes "SELECT " ++ 39 ∷ (codes "drop" ++ 39 ∷ codes "; x"))
    ≡ classify_sql (codes "SELECT " ++ 39 ∷ (codes "; --" ++ 39 ∷ codes "; x"))
classify_sql-opaque_example =
    classify_sql-opaque (codes "SELECT ") (codes "drop") (codes "; --") (codes "; x") 39 refl
      literal_at drop_has_no_quote dashes_have_no_quote
