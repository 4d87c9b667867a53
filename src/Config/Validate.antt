-- ===== src/Config/Validate.antt =====
-- `Validate`, `validateRun` and `validateSLO` of internal/config/validate.go. Every problem is reported,
-- in the order of the code; the budgets, which the code visits in any order, stand in that of the
-- runners.
pub mod Common
pub mod Executors
pub mod Http
pub mod Storage
pub mod Profiles
pub mod Parts
pub mod Accepts
pub mod Runs
mod Examples
use tracepoint.Base.{
  ℕ, Bool, true, false, not, ◌&&◌, ◌||◌, Option, none, some, List, [], ◌∷◌, ◌++◌, map,
  if◌then◌else◌,
}
use tracepoint.Base.Int.{ℤ, pos, ltb_ℤ}
use tracepoint.Base.Float.{Float}
use tracepoint.Base.Text.{Text, codes, concat, ◌==◌}
use tracepoint.Errs.{Error, Code, error, config_no_runner}
use tracepoint.Config.{Run, SloTarget, Slo, Config, runners}
use tracepoint.Config.Validate.Common.{
  invalid, given, is_blank, not_positive, given_not_positive, zero_f,
}
use tracepoint.Config.Validate.Http.{http_problems}
use tracepoint.Config.Validate.Storage.{db_problems, redis_problems}
use Prim.Native.String.{String}

-- `summarise` of internal/config/load.go.
unfoldable pub summarise : Error → List Error → Error
summarise e [] = e
summarise e (x ∷ xs) = record {
  code = e.code;
  path = "";
  causes = map (λ (p : Error). (p.code, p.path)) (e ∷ x ∷ xs);
}

abbrev pub is_arrival : Text → Bool
is_arrival t = is_blank t || ((t == codes "uniform") || (t == codes "poisson"))

unfoldable pub run_problems : Run → List Error
run_problems r =
    given (not_positive r.duration) (invalid "/run/duration")
    ++ (given (not_positive r.bucket) (invalid "/run/bucket")
        ++ (given (ltb_ℤ r.warmup (pos 0)) (invalid "/run/warmup")
            ++ (given
                  (not (not_positive r.duration)
                    && (not (not_positive r.bucket) && ltb_ℤ r.duration r.bucket))
                  (invalid "/run/bucket")
                ++ (given (not (ltb_ℤ r.warmup r.duration) && not (not_positive r.duration))
                      (invalid "/run/warmup")
                    ++ (given (ltb_ℤ r.min_samples (pos 1)) (invalid "/run/min_samples")
                        ++ given (not (is_arrival r.arrival)) (invalid "/run/arrival"))))))

module _ (f : Float) where
  abbrev outside : Option f.F → Bool
  outside none = false
  outside (some v) = f.lt v (zero_f f) || f.lt (f.of_int (pos 1)) v

  abbrev looser : Option ℤ → Option ℤ → Bool
  looser (some a) (some b) = ltb_ℤ b a
  looser _ _ = false

  unfoldable pub target_problems : String → SloTarget f → List Error
  target_problems base t =
      given (outside t.error_rate) (invalid (concat base "/error_rate"))
      ++ (given (given_not_positive t.p95) (invalid (concat base "/p95"))
          ++ (given (given_not_positive t.p99) (invalid (concat base "/p99"))
              ++ given (looser t.p95 t.p99) (invalid (concat base "/p95"))))

  abbrev pub slo_problems : Slo f → List Error
  slo_problems s =
      target_problems "/slo/http" s.http
      ++ (target_problems "/slo/db" s.db ++ target_problems "/slo/redis" s.redis)

  abbrev pub in_section : {A : Type 0} → (A → List Error) → Option A → List Error
  in_section g none = []
  in_section g (some a) = g a

  unfoldable pub problems : Config f → List Error
  problems c =
      run_problems c.run
      ++ (slo_problems c.slo
          ++ (given (is_blank (runners f c)) (error config_no_runner "")
              ++ (in_section (http_problems f c.run.duration) c.http
                  ++ (in_section (db_problems f c.run.duration) c.db
                      ++ in_section (redis_problems f c.run.duration) c.redis))))

  abbrev pub summarised : List Error → Option Error
  summarised [] = none
  summarised (e ∷ es) = some (summarise e es)

  unfoldable pub validate : Config f → Option Error
  validate c = summarised (problems c)
