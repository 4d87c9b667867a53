-- ===== src/Config/Validate/Accepts.antt =====
-- The executors of a configuration that is given its defaults and that Validate accepts.
use tracepoint.Base.{
  Bool, true, false, ◌&&◌, ◌≡◌, refl, sym, ◌∙◌, subst, Option, none, some, List, [], ◌∷◌, all, map,
  arith, if◌then◌else◌, Bool-cases, inl, inr,
}
use tracepoint.Base.Int.{ℤ, pos, ltb_ℤ}
use tracepoint.Base.Float.{Float}
use tracepoint.Base.Text.{Text, codes, ◌==◌}
use tracepoint.Errs.{is_ok}
use tracepoint.Config.{Stage, Executor, Config, Http, Db, Redis}
use tracepoint.Config.Defaults.{
  apply_defaults, run_defaults, in_some, http_defaults, db_defaults, redis_defaults,
  executor_defaults, typed, text_or, default_executor, start_rate, start_of,
}
use tracepoint.Config.Labels.{executor, http_executor, db_executor, redis_executor}
use tracepoint.Config.Validate.{validate, run_problems, in_section}
use tracepoint.Config.Validate.Common.{given, is_blank, is_blank-given, not_positive, invalid}
use tracepoint.Config.Validate.Executors.{executor_problems}
use tracepoint.Config.Validate.Http.{http_own, http_problems}
use tracepoint.Config.Validate.Storage.{db_own, db_problems, redis_own, redis_problems}
use tracepoint.Config.Validate.Parts.{validate-Parts, blank_left, blank_right}
use tracepoint.Config.Validate.Profiles.{
  profile_stage, executor_profile, is_counted, accepted, typed-stages,
}
use tracepoint.Schedule.Accepts.{is_rate, is_stage, is_null, new_profile-accepts}
use Prim.Native.String.{String}

-- What is taken of the numbers: zero is a rate, and so is what equals one.
pub record Rates (f : Float) : Type 0 where
  pub zero : is_rate f (f.of_int (pos 0)) ≡ true
  pub equal : (a b : f.F) → f.eq a b ≡ true → is_rate f a ≡ true → is_rate f b ≡ true

module _ (f : Float) where
  all-profile_stage :
      (ss : List (Stage f))
      → all (is_stage f) (map (profile_stage f) ss) ≡ all (λ s. is_stage f (profile_stage f s)) ss
  unfolding all
  all-profile_stage [] = refl
  all-profile_stage (s ∷ ss) = ground (arith, all-profile_stage ss)

  chosen :
      (b : Bool) (x y : f.F)
      → (b ≡ true → is_rate f x ≡ true)
      → is_rate f y ≡ true
      → is_rate f (if b then x else y) ≡ true
  chosen true x y h k = h refl
  chosen false x y h k = k

  start_of-is_rate :
      (law : Rates f) (e : Executor f) (ss : List (Stage f))
      → all (λ s. is_stage f (profile_stage f s)) ss ≡ true
      → is_rate f (start_of f e ss) ≡ true
  unfolding all
  start_of-is_rate law e [] h = law.zero
  start_of-is_rate law e (s ∷ []) h =
      chosen (f.lt (f.of_int (pos 0)) e.rate && f.eq s.target e.rate) e.rate _
        (λ b. law.equal s.target e.rate (ground arith) (ground arith))
        (chosen (ltb_ℤ (pos 0) e.vus && f.eq s.target (f.of_int e.vus)) (f.of_int e.vus) _
          (λ b. law.equal s.target (f.of_int e.vus) (ground arith) (ground arith)) law.zero)
  start_of-is_rate law e (s ∷ t ∷ ss) h = law.zero

  is_null-map : (ss : List (Stage f)) → is_null f (map (profile_stage f) ss) ≡ is_blank ss
  is_null-map [] = refl
  is_null-map (s ∷ ss) = refl

  pub is_blank-text_or : (t : Text) → is_blank (text_or default_executor t) ≡ false
  is_blank-text_or [] = refl
  is_blank-text_or (c ∷ cs) = refl

  -- The executor of a section, with its defaults, and no problems.
  pub accepted-profile :
      (law : Rates f) (run : ℤ) (at : String) (e : Executor f)
      → is_counted f (executor_defaults f run e) ≡ true
      → is_blank (executor_problems f run at (executor_defaults f run e)) ≡ true
      → is_ok (executor_profile f (executor_defaults f run e)) ≡ true
  unfolding executor_profile start_rate executor_defaults
  accepted-profile law run at e h p =
      let d = executor_defaults f run e in
      let q = accepted f run at d p in
      new_profile-accepts f (start_of f d d.stages) (map (profile_stage f) d.stages)
      ∙ ground (
        arith,
        is_null-map d.stages,
        typed-stages f run at (typed f e) (is_blank-text_or e.type) h p,
        start_of-is_rate law d d.stages q.shaped,
        all-profile_stage d.stages,
        q.shaped,
      )

  some_inj : {A : Type 0} {a b : A} → some a ≡ some b → a ≡ b
  some_inj h = cc

  -- An executor that has its defaults, and no problems.
  pub record Checked (run : ℤ) (d : Executor f) : Type 0 where
    pub at : String
    pub written : Executor f
    pub filled : d ≡ executor_defaults f run written
    pub unproblematic : is_blank (executor_problems f run at d) ≡ true

  module _ (run : ℤ) (e : Executor f) where
    http-Checked :
        (o : Option (Http f))
        → is_blank (in_section f (http_problems f run) (in_some f (http_defaults f run) o)) ≡ true
        → http_executor f (in_some f (http_defaults f run) o) ≡ some e
        → Checked run e
    unfolding http_problems
    http-Checked none h k = cc
    http-Checked (some x) h k = record {
      at = "/http/executor";
      written = x.executor;
      filled = cc;
      unproblematic =
          subst (λ d. is_blank (executor_problems f run "/http/executor" d) ≡ true) (some_inj k)
            (blank_right (http_own f (http_defaults f run x))
              (executor_problems f run "/http/executor" (executor_defaults f run x.executor)) h);
    }

    db-Checked :
        (o : Option (Db f))
        → is_blank (in_section f (db_problems f run) (in_some f (db_defaults f run) o)) ≡ true
        → db_executor f (in_some f (db_defaults f run) o) ≡ some e
        → Checked run e
    unfolding db_problems
    db-Checked none h k = cc
    db-Checked (some x) h k = record {
      at = "/db/executor";
      written = x.executor;
      filled = cc;
      unproblematic =
          subst (λ d. is_blank (executor_problems f run "/db/executor" d) ≡ true) (some_inj k)
            (blank_right (db_own f (db_defaults f run x))
              (executor_problems f run "/db/executor" (executor_defaults f run x.executor)) h);
    }

    redis-Checked :
        (o : Option (Redis f))
        → is_blank (in_section f (redis_problems f run) (in_some f (redis_defaults f run) o)) ≡ true
        → redis_executor f (in_some f (redis_defaults f run) o) ≡ some e
        → Checked run e
    unfolding redis_problems
    redis-Checked none h k = cc
    redis-Checked (some x) h k = record {
      at = "/redis/executor";
      written = x.executor;
      filled = cc;
      unproblematic =
          subst (λ d. is_blank (executor_problems f run "/redis/executor" d) ≡ true) (some_inj k)
            (blank_right (redis_own f (redis_defaults f run x))
              (executor_problems f run "/redis/executor" (executor_defaults f run x.executor)) h);
    }

  pub executor-Checked :
      (c : Config f) (runner : Text) (e : Executor f)
      → validate f (apply_defaults f c) ≡ none
      → executor f (apply_defaults f c) runner ≡ some e
      → Checked (apply_defaults f c).run.duration e
  unfolding executor apply_defaults
  executor-Checked c runner e h k =
      let run = (run_defaults c.run).duration in
      let p = validate-Parts f (apply_defaults f c) h in
      elim (Bool-cases (runner == codes "http")) [
        | inl a ↦ http-Checked run e c.http p.http_part (sym (rw a refl) ∙ k)
        | inr a ↦ elim (Bool-cases (runner == codes "db")) [
          | inl b ↦ db-Checked run e c.db p.db_part (sym (rw a (rw b refl)) ∙ k)
          | inr b ↦ elim (Bool-cases (runner == codes "redis")) [
            | inl g ↦ redis-Checked run e c.redis p.redis_part (sym (rw a (rw b (rw g refl))) ∙ k)
            | inr g ↦ cc (a, b, g, k)
          ]
        ]
      ]

  positive :
      (n : ℤ)
      → is_blank (given (not_positive n) (invalid "/run/duration")) ≡ true
      → ltb_ℤ (pos 0) n ≡ true
  positive n h = ground (arith, is_blank-given (not_positive n) (invalid "/run/duration"))

  pub positive_run :
      (c : Config f) → is_blank (run_problems c.run) ≡ true → ltb_ℤ (pos 0) c.run.duration ≡ true
  unfolding run_problems
  positive_run c h =
      positive c.run.duration
        (blank_left (given (not_positive c.run.duration) (invalid "/run/duration")) _ h)
