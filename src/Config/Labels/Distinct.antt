-- ===== src/Config/Labels/Distinct.antt =====
-- The labels that group a runner's statistics.
use tracepoint.Base.{
  ℕ, suc, Bool, true, false, not, ◌&&◌, ◌≡◌, refl, sym, ◌∙◌, subst, Option, none, some, List, [],
  ◌∷◌, ◌++◌, all, map, arith, Bool-cases, inl, inr,
}
use tracepoint.Base.Float.{Float}
use tracepoint.Base.Text.{Text, codes, concat, ◌==◌, contains}
use tracepoint.Base.Int.{ℤ}
use tracepoint.Config.Defaults.{normalise_driver}
use mathlib.Core.List.{append-nil}
use tracepoint.Config.{Config, Journey, HttpStep, Http, Query, Db, Command, Redis}
use tracepoint.Config.Labels.{labels, http_labels, db_labels, redis_labels, journey_labels}
use tracepoint.Config.Validate.{validate, in_section}
use tracepoint.Config.Validate.Common.{
  is_blank, is_blank-given, name_problems, check_weight, given, item, invalid, missing, duplicate,
}
use tracepoint.Config.Validate.Http.{
  http_own, http_problems, kind_problems, steps_problems, step_problems,
}
use tracepoint.Config.Validate.Storage.{
  driver_problems, pool_problems, mode_problems, body_problems, is_query_type, queries_problems,
  commands_problems, db_own, db_problems, redis_own, redis_problems,
}
use tracepoint.Config.Validate.Parts.{validate-Parts, blank_left, blank_right}
use Prim.Native.String.{String}

-- No text stands twice in a list, and none is empty.
unfoldable pub are_distinct : List Text → Bool
are_distinct [] = true
are_distinct (t ∷ ts) = not (is_blank t) && (not (contains ts t) && are_distinct ts)

-- The same, where the ones before are given.
are_fresh : List Text → List Text → Bool
are_fresh seen [] = true
are_fresh seen (t ∷ ts) = not (is_blank t) && (not (contains seen t) && are_fresh (t ∷ seen) ts)

==_sym : (s t : Text) → (s == t) ≡ (t == s)
unfolding ◌==◌
==_sym [] [] = refl
==_sym [] (b ∷ bs) = refl
==_sym (a ∷ as') [] = refl
==_sym (a ∷ as') (b ∷ bs) = ground (arith, ==_sym as' bs)

misses : List Text → List Text → Bool
misses seen ts = all (λ t. not (contains seen t)) ts

misses-cons :
    (s : Text) (seen ts : List Text)
    → misses (s ∷ seen) ts ≡ (not (contains ts s) && misses seen ts)
unfolding misses contains all
misses-cons s seen [] = refl
misses-cons s seen (t ∷ ts) = ground (arith, misses-cons s seen ts, ==_sym s t)

are_fresh-are_distinct :
    (seen ts : List Text) → are_fresh seen ts ≡ (are_distinct ts && misses seen ts)
unfolding are_fresh are_distinct misses all
are_fresh-are_distinct seen [] = refl
are_fresh-are_distinct seen (t ∷ ts) =
    ground (arith, are_fresh-are_distinct (t ∷ seen) ts, misses-cons t seen ts)

-- A problem of the names is one that a test finds.
is_blank-name_problems :
    (at : String) (seen : List Text) (name : Text)
    → is_blank (name_problems at seen name) ≡ (not (is_blank name) && not (contains seen name))
is_blank-name_problems at seen [] = refl
is_blank-name_problems at seen (c ∷ cs) =
    is_blank-given (contains seen (c ∷ cs)) (duplicate (concat at "/name"))

are_fresh-cons :
    (at : String) (seen : List Text) (name : Text) (names : List Text)
    → is_blank (name_problems at seen name) ≡ true
    → are_fresh (name ∷ seen) names ≡ true
    → are_fresh seen (name ∷ names) ≡ true
unfolding are_fresh
are_fresh-cons at seen name names h k = ground (arith, is_blank-name_problems at seen name)

are_distinct-fresh : (ts : List Text) → are_fresh [] ts ≡ true → are_distinct ts ≡ true
are_distinct-fresh ts h = ground (arith, are_fresh-are_distinct [] ts)

module _ (f : Float) where
  abbrev has_journeys : Option (Http f) → Bool
  has_journeys none = false
  has_journeys (some h) = not (is_blank h.journeys)

  steps_problems-fresh :
      (at : String) (weighted : Bool) (i : ℕ) (seen : List Text) (ss : List (HttpStep f))
      → is_blank (steps_problems f at weighted i seen ss) ≡ true
      → are_fresh seen (map (λ (s : HttpStep f). s.name) ss) ≡ true
  unfolding steps_problems step_problems are_fresh
  steps_problems-fresh at weighted i seen [] h = refl
  steps_problems-fresh at weighted i seen (s ∷ ss) h =
      are_fresh-cons (item at i) seen s.name _
        (blank_left (name_problems (item at i) seen s.name) _
          (blank_left (step_problems f (item at i) weighted seen s) _ h))
        (steps_problems-fresh at weighted (suc i) (s.name ∷ seen) ss
          (blank_right (step_problems f (item at i) weighted seen s) _ h))

  queries_problems-fresh :
      (i : ℕ) (seen : List Text) (qs : List (Query f))
      → is_blank (queries_problems f i seen qs) ≡ true
      → are_fresh seen (map (λ (q : Query f). q.name) qs) ≡ true
  unfolding queries_problems are_fresh
  queries_problems-fresh i seen [] h = refl
  queries_problems-fresh i seen (q ∷ qs) h =
      let at = item "/db/queries" i in
      let later = queries_problems f (suc i) (q.name ∷ seen) qs in
      let weights = check_weight f q.weight (concat at "/weight") in
      let types = given (not (is_query_type f q.type)) (invalid (concat at "/type")) in
      let bodies = body_problems (concat at "/sql") (is_blank q.sql) (is_blank q.tx) in
      let names = name_problems at seen q.name in
      are_fresh-cons at seen q.name _ (blank_left names _ h) (
        queries_problems-fresh (suc i) (q.name ∷ seen) qs (
          blank_right weights later (
            blank_right types (weights ++ later)
              (blank_right bodies (types ++ (weights ++ later)) (blank_right names _ h)))))

  commands_problems-fresh :
      (i : ℕ) (seen : List Text) (cs : List (Command f))
      → is_blank (commands_problems f i seen cs) ≡ true
      → are_fresh seen (map (λ (c : Command f). c.name) cs) ≡ true
  unfolding commands_problems are_fresh
  commands_problems-fresh i seen [] h = refl
  commands_problems-fresh i seen (c ∷ cs) h =
      let at = item "/redis/commands" i in
      let later = commands_problems f (suc i) (c.name ∷ seen) cs in
      let weights = check_weight f c.weight (concat at "/weight") in
      let bodies = body_problems (concat at "/cmd") (is_blank c.cmd) (is_blank c.pipeline) in
      let names = name_problems at seen c.name in
      are_fresh-cons at seen c.name _ (blank_left names _ h) (
        commands_problems-fresh (suc i) (c.name ∷ seen) cs (
          blank_right weights later
            (blank_right bodies (weights ++ later) (blank_right names _ h))))

  journey_labels-blank :
      (names : List Text) (js : List (Journey f))
      → not (is_blank js) ≡ false
      → names ++ journey_labels f js ≡ names
  unfolding journey_labels
  journey_labels-blank names [] h = append-nil names
  journey_labels-blank names (j ∷ js) h = cc

  http-distinct :
      (run : ℤ) (o : Option (Http f))
      → is_blank (in_section f (http_problems f run) o) ≡ true
      → has_journeys o ≡ false
      → are_distinct (http_labels f o) ≡ true
  unfolding http_problems http_own are_distinct journey_labels
  http-distinct run none h n = refl
  http-distinct run (some x) h n =
      let kinds = kind_problems f (is_blank x.requests) (is_blank x.journeys) in
      let items = steps_problems f "/http/requests" true 0 [] x.requests in
      subst (λ ts. are_distinct ts ≡ true)
        (sym (journey_labels-blank (map (λ (s : HttpStep f). s.name) x.requests) x.journeys n))
        (are_distinct-fresh _ (
          steps_problems-fresh "/http/requests" true 0 [] x.requests
            (blank_left items _ (blank_right kinds _ (blank_left (http_own f x) _ h)))))

  db-distinct :
      (run : ℤ) (o : Option (Db f))
      → is_blank (in_section f (db_problems f run) o) ≡ true
      → are_distinct (db_labels f o) ≡ true
  unfolding db_problems db_own are_distinct
  db-distinct run none h = refl
  db-distinct run (some d) h =
      let kinds = driver_problems (normalise_driver d.driver) in
      let names = given (is_blank d.dsn) (missing "/db/dsn") in
      let queries = given (is_blank d.queries) (missing "/db/queries") in
      let items = queries_problems f 0 [] d.queries in
      are_distinct-fresh _ (
        queries_problems-fresh 0 [] d.queries (
          blank_left items (pool_problems d.pool) (
            blank_right queries (items ++ pool_problems d.pool) (
              blank_right names (queries ++ (items ++ pool_problems d.pool))
                (blank_right kinds _ (blank_left (db_own f d) _ h))))))

  redis-distinct :
      (run : ℤ) (o : Option (Redis f))
      → is_blank (in_section f (redis_problems f run) o) ≡ true
      → are_distinct (redis_labels f o) ≡ true
  unfolding redis_problems redis_own are_distinct
  redis-distinct run none h = refl
  redis-distinct run (some r) h =
      let modes = mode_problems r.mode r.addr r.addrs r.master_name in
      let twice = given (not (is_blank r.addr) && not (is_blank r.addrs)) (invalid "/redis/addr") in
      let commands = given (is_blank r.commands) (missing "/redis/commands") in
      let items = commands_problems f 0 [] r.commands in
      are_distinct-fresh _ (
        commands_problems-fresh 0 [] r.commands (
          blank_right commands items (
            blank_right twice (commands ++ items)
              (blank_right modes _ (blank_left (redis_own f r) _ h)))))

  -- The labels of a runner are distinct and none is empty, if Validate finds no problem in the
  -- configuration and the runner is not an http runner with journeys.
  pub validate-are_distinct :
      (c : Config f) (runner : Text)
      → validate f c ≡ none
      → (runner == codes "http") && has_journeys c.http ≡ false
      → are_distinct (labels f c runner) ≡ true
  unfolding labels are_distinct
  validate-are_distinct c runner h n =
      let p = validate-Parts f c h in
      elim (Bool-cases (runner == codes "http")) [
        | inl a ↦ rw a (http-distinct c.run.duration c.http p.http_part (sym (rw a refl) ∙ n))
        | inr a ↦ rw a (elim (Bool-cases (runner == codes "db")) [
          | inl b ↦ rw b (db-distinct c.run.duration c.db p.db_part)
          | inr b ↦ rw b (elim (Bool-cases (runner == codes "redis")) [
            | inl g ↦ rw g (redis-distinct c.run.duration c.redis p.redis_part)
            | inr g ↦ rw g refl
          ])
        ])
      ]
