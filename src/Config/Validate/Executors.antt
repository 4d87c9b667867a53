-- ===== src/Config/Validate/Executors.antt =====
-- `validateExecutor` of internal/config/validate.go.
use tracepoint.Base.{ℕ, suc, Bool, not, ◌&&◌, ◌||◌, List, [], ◌∷◌, ◌++◌, if◌then◌else◌, length, ltb}
use tracepoint.Base.Int.{ℤ, pos, ltb_ℤ, eqb_ℤ}
use tracepoint.Base.Float.{Float}
use tracepoint.Base.Text.{Text, codes, concat, ◌==◌}
use tracepoint.Errs.{Error, error, config_stages_mismatch}
use tracepoint.Config.{Stage, Executor}
use tracepoint.Config.Defaults.{total_duration}
use tracepoint.Config.Validate.Common.{
  invalid, missing, given, is_blank, item, not_positive, zero_f,
}
use Prim.Native.String.{String}

abbrev pub is_arrival_rate : Text → Bool
is_arrival_rate type = is_blank type || (type == codes "arrival-rate")

module _ (f : Float) where
  abbrev pub is_bad_target : f.F → Bool
  is_bad_target v = f.lt v (zero_f f) || (f.is_nan v || f.is_inf v)

  abbrev pub stage_problems : String → Stage f → List Error
  stage_problems at s =
      given (not_positive s.duration) (invalid (concat at "/duration"))
      ++ given (is_bad_target s.target) (invalid (concat at "/target"))

  unfoldable pub stages_problems : String → ℕ → List (Stage f) → List Error
  stages_problems at i [] = []
  stages_problems at i (s ∷ ss) =
      stage_problems (item (concat at "/stages") i) s ++ stages_problems at (suc i) ss

  abbrev pub arrival_rate_problems : String → Executor f → List Error
  arrival_rate_problems at e =
      given (ltb_ℤ (pos 0) e.vus) (invalid (concat at "/vus"))
      ++ given (ltb_ℤ e.max_in_flight (pos 0)) (invalid (concat at "/max_in_flight"))

  abbrev pub vus_problems : String → Executor f → List Error
  vus_problems at e =
      given (f.lt (zero_f f) e.rate) (invalid (concat at "/rate"))
      ++ given
          (not
            (is_blank e.pick || ((e.pick == codes "per-iteration") || (e.pick == codes "per-vu"))))
          (invalid (concat at "/pick"))

  unfoldable pub type_problems : String → Executor f → List Error
  type_problems at e =
      if is_arrival_rate e.type
      then arrival_rate_problems at e
      else if e.type == codes "vus"
      then vus_problems at e
      else invalid (concat at "/type") ∷ []

  -- The stages last as long as the run, where there are any and the run has a length.
  abbrev pub is_mismatched : ℤ → Executor f → Bool
  is_mismatched run e =
      not (is_blank e.stages) && (ltb_ℤ (pos 0) run && not (eqb_ℤ (total_duration f e) run))

  unfoldable pub executor_problems : ℤ → String → Executor f → List Error
  executor_problems run at e =
      type_problems at e
      ++ (given (f.lt (zero_f f) e.rate && ltb 1 (length e.stages)) (invalid (concat at "/rate"))
          ++ (given (is_blank e.stages && (f.eq e.rate (zero_f f) && eqb_ℤ e.vus (pos 0)))
                (missing at)
              ++ (stages_problems at 0 e.stages
                  ++ given (is_mismatched run e)
                      (error config_stages_mismatch (concat at "/stages")))))
