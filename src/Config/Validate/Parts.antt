-- ===== src/Config/Validate/Parts.antt =====
-- The sections of a configuration in which Validate finds no problem.
use tracepoint.Base.{true, ◌≡◌, refl, none, List, [], ◌∷◌, ◌++◌}
use tracepoint.Base.Float.{Float}
use tracepoint.Errs.{Error, error, config_no_runner}
use tracepoint.Config.{Config, runners}
use tracepoint.Config.Validate.{
  validate, problems, summarised, run_problems, slo_problems, in_section,
}
use tracepoint.Config.Validate.Common.{given, is_blank}
use tracepoint.Config.Validate.Http.{http_problems}
use tracepoint.Config.Validate.Storage.{db_problems, redis_problems}

pub blank_right : {A : Type 0} (xs ys : List A) → is_blank (xs ++ ys) ≡ true → is_blank ys ≡ true
blank_right [] ys h = h
blank_right (x ∷ xs) ys h = cc

pub blank_left : {A : Type 0} (xs ys : List A) → is_blank (xs ++ ys) ≡ true → is_blank xs ≡ true
blank_left [] ys h = refl
blank_left (x ∷ xs) ys h = cc

module _ (f : Float) where
  -- The parts of a configuration without problems have none.
  pub record Parts (c : Config f) : Type 0 where
    pub run_part : is_blank (run_problems c.run) ≡ true
    pub http_part : is_blank (in_section f (http_problems f c.run.duration) c.http) ≡ true
    pub db_part : is_blank (in_section f (db_problems f c.run.duration) c.db) ≡ true
    pub redis_part : is_blank (in_section f (redis_problems f c.run.duration) c.redis) ≡ true

  blank_parts :
      (a b c d e g : List Error)
      → is_blank (a ++ (b ++ (c ++ (d ++ (e ++ g))))) ≡ true
      → (is_blank a ≡ true) × (is_blank d ≡ true) × (is_blank e ≡ true) × (is_blank g ≡ true)
  blank_parts a b c d e g h =
      let later =
        blank_right c (d ++ (e ++ g)) (blank_right b (c ++ (d ++ (e ++ g))) (blank_right a _ h)) in
      let last = blank_right d (e ++ g) later in
      (blank_left a _ h, blank_left d (e ++ g) later, blank_left e g last, blank_right e g last)

  is_blank-summarised : (es : List Error) → summarised f es ≡ none → is_blank es ≡ true
  is_blank-summarised [] h = refl
  is_blank-summarised (e ∷ es) h = cc

  pub validate-Parts : (c : Config f) → validate f c ≡ none → Parts c
  unfolding validate problems
  validate-Parts c h =
      let (a, d, e, g) =
        blank_parts (run_problems c.run) (slo_problems f c.slo)
          (given (is_blank (runners f c)) (error config_no_runner ""))
          (in_section f (http_problems f c.run.duration) c.http)
          (in_section f (db_problems f c.run.duration) c.db)
          (in_section f (redis_problems f c.run.duration) c.redis)
          (is_blank-summarised (problems f c) h) in
      record { run_part = a; http_part = d; db_part = e; redis_part = g }
