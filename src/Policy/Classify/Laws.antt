-- ===== src/Policy/Classify/Laws.antt =====
-- What a classification guarantees, for statements and for commands.
use tracepoint.Base.{true, not, ◌&&◌, ◌||◌, ◌≡◌, refl, List, [], ◌∷◌, arith, any, all}
use tracepoint.Base.Text.{Text, upper}
use tracepoint.Policy.Classify.{Classification, is_write, is_empty, plain_read, merge}
use tracepoint.Policy.Classify.Strip.{strip_sql_comments}
use tracepoint.Policy.Classify.Sql.{
  split_statements, fields, behind_with, by_verb, classify_words, classify_one_sql, merge_all,
  classify_sql,
}
use tracepoint.Policy.Classify.Redis.{by_command, classify_command, classify_redis}

-- A destructive statement writes, and so does one that was not recognised.
abbrev pub IsCautious : Classification → Type 0
IsCautious c =
    ((is_empty c.dangerous || is_write c.op) ≡ true) × ((c.certain || is_write c.op) ≡ true)

behind_with-IsCautious : (ws : List Text) → IsCautious (behind_with ws)
unfolding behind_with
behind_with-IsCautious [] = (refl, refl)
behind_with-IsCautious (w ∷ ws) = ground (arith, behind_with-IsCautious ws)

by_verb-IsCautious : (verb : Text) (words : List Text) → IsCautious (by_verb verb words)
unfolding by_verb
by_verb-IsCautious verb words = ground arith

classify_one_sql-IsCautious : (s : Text) → IsCautious (classify_one_sql s)
unfolding classify_one_sql
classify_one_sql-IsCautious s = go (fields s)
  where
    go : (ws : List Text) → IsCautious (classify_words ws)
    go [] = unfold classify_words in (refl, refl)
    go (w ∷ ws) =
        unfold classify_words in
        ground (arith, behind_with-IsCautious ws, by_verb-IsCautious (upper w) (w ∷ ws))

merge-IsCautious : (a b : Classification) → IsCautious a → IsCautious b → IsCautious (merge a b)
unfolding merge
merge-IsCautious a b p q = ground arith

merge_all-IsCautious :
    (w : Classification) (ps : List Text) → IsCautious w → IsCautious (merge_all w ps)
unfolding merge_all
merge_all-IsCautious w [] h = h
merge_all-IsCautious w (p ∷ ps) h =
    merge_all-IsCautious (merge w (classify_one_sql p)) ps
      (merge-IsCautious w (classify_one_sql p) h (classify_one_sql-IsCautious p))

-- Whatever the text of a statement, one that is found destructive, or that is not recognised, is
-- classified as a write.
pub classify_sql-IsCautious : (s : Text) → IsCautious (classify_sql s)
unfolding classify_sql
classify_sql-IsCautious s = merge_all-IsCautious plain_read _ (refl, refl)

classify_command-IsCautious :
    (cmd sub : Text) (rest : List Text) → IsCautious (classify_command cmd sub rest)
unfolding classify_command by_command
classify_command-IsCautious cmd sub rest = ground arith

-- So is every Redis command that is found destructive or is not recognised.
pub classify_redis-IsCautious : (args : List Text) → IsCautious (classify_redis args)
unfolding classify_redis
classify_redis-IsCautious [] = (refl, refl)
classify_redis-IsCautious (a ∷ rest) = classify_command-IsCautious _ _ rest

merge-parts :
    (a b : Classification)
    → (is_write (merge a b).op ≡ (is_write a.op || is_write b.op))
      × (not (is_empty (merge a b).dangerous)
          ≡ (not (is_empty a.dangerous) || not (is_empty b.dangerous)))
      × ((merge a b).certain ≡ (a.certain && b.certain))
unfolding merge
merge-parts a b = ground arith

merge_all-parts :
    (w : Classification) (ps : List Text)
    → (is_write (merge_all w ps).op
        ≡ (is_write w.op || any (λ p. is_write (classify_one_sql p).op) ps))
      × (not (is_empty (merge_all w ps).dangerous) ≡ (
          not (is_empty w.dangerous)
          || any (λ p. not (is_empty (classify_one_sql p).dangerous)) ps))
      × ((merge_all w ps).certain ≡ (w.certain && all (λ p. (classify_one_sql p).certain) ps))
unfolding merge_all any all
merge_all-parts w [] = ground arith
merge_all-parts w (p ∷ ps) =
    let (a, b, c) = merge_all-parts (merge w (classify_one_sql p)) ps in
    let (d, e, g) = merge-parts w (classify_one_sql p) in ground arith

-- A text of several statements is judged on its most serious part: it writes when some statement
-- of it writes, it is destructive when some statement is, and it is recognised when all are.
pub classify_sql-parts :
    (s : Text)
    → let parts = split_statements (strip_sql_comments s) in
      (is_write (classify_sql s).op ≡ any (λ p. is_write (classify_one_sql p).op) parts)
      × (not (is_empty (classify_sql s).dangerous)
          ≡ any (λ p. not (is_empty (classify_one_sql p).dangerous)) parts)
      × ((classify_sql s).certain ≡ all (λ p. (classify_one_sql p).certain) parts)
unfolding classify_sql
classify_sql-parts s = merge_all-parts plain_read (split_statements (strip_sql_comments s))
