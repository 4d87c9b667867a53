-- ===== src/Config/Validate/Http.antt =====
-- `validateHTTP`, `validateStep` and `validateThink` of internal/config/validate.go.
use tracepoint.Base.{
  ℕ, suc, Bool, true, false, not, ◌&&◌, ◌||◌, Option, none, some, List, [], ◌∷◌, ◌++◌,
  if◌then◌else◌,
}
use tracepoint.Base.Int.{ℤ, pos, ltb_ℤ}
use tracepoint.Base.Float.{Float}
use tracepoint.Base.Text.{Text, codes, concat, contains, ◌==◌}
use tracepoint.Errs.{Error, error, config_requests_and_journeys, config_missing_field}
use tracepoint.Config.{Expect, Extract, ThinkTime, HttpStep, Journey, Feeder, Http, is_none}
use tracepoint.Config.Validate.Common.{
  invalid, missing, duplicate, given, is_blank, item, given_not_positive, name_problems,
  check_weight,
}
use tracepoint.Config.Validate.Executors.{executor_problems}
use Prim.Native.String.{String}

abbrev above : Option ℤ → Option ℤ → Bool
above (some a) (some b) = ltb_ℤ b a
above _ _ = false

unfoldable pub think_problems : String → ThinkTime → List Error
think_problems at t =
    if t.type == codes "constant"
    then given (is_none t.duration) (missing (concat at "/duration"))
    else if t.type == codes "uniform"
    then (if is_none t.min || is_none t.max
        then missing (concat at "/min") ∷ []
        else given (above t.min t.max) (invalid (concat at "/min")))
    else if t.type == codes "exponential"
    then given (is_none t.mean) (missing (concat at "/mean"))
    else invalid (concat at "/type") ∷ []

abbrev think_given : String → Option ThinkTime → List Error
think_given at none = []
think_given at (some t) = think_problems (concat at "/think") t

unfoldable pub status_problems : String → ℕ → List ℤ → List Error
status_problems at i [] = []
status_problems at i (code ∷ rest) =
    given (ltb_ℤ code (pos 100) || ltb_ℤ (pos 599) code)
      (invalid (item (concat at "/expect/status") i))
    ++ status_problems at (suc i) rest

abbrev expect_problems : String → Option Expect → List Error
expect_problems at none = []
expect_problems at (some e) = status_problems at 0 e.status

abbrev is_source : Text → Bool
is_source t =
    is_blank t || ((t == codes "body") || ((t == codes "header") || (t == codes "status")))

unfoldable pub extract_problems : String → ℕ → List Extract → List Error
extract_problems at i [] = []
extract_problems at i (e ∷ es) =
    let p = item (concat at "/extract") i in
    given (is_blank e.name) (missing (concat p "/name"))
    ++ (given (not (is_source e.from)) (invalid (concat p "/from"))
        ++ (given (is_blank e.path && not (e.from == codes "status")) (missing (concat p "/path"))
            ++ extract_problems at (suc i) es))

abbrev is_mode : Text → Bool
is_mode t =
    is_blank t || ((t == codes "sequential") || ((t == codes "random") || (t == codes "unique")))

unfoldable pub feeder_problems : ℕ → List Text → List Feeder → List Error
feeder_problems i seen [] = []
feeder_problems i seen (x ∷ xs) =
    let p = item "/http/feeders" i in
    given (is_blank x.name) (missing (concat p "/name"))
    ++ (given (is_blank x.file) (missing (concat p "/file"))
        ++ (given (contains seen x.name) (duplicate (concat p "/name"))
            ++ (given (not (is_mode x.mode)) (invalid (concat p "/mode"))
                ++ feeder_problems (suc i) (x.name ∷ seen) xs)))

module _ (f : Float) where
  abbrev step_weight : Bool → String → Option f.F → List Error
  step_weight true at w = check_weight f w (concat at "/weight")
  step_weight false at w = given (not (is_none w)) (invalid (concat at "/weight"))

  unfoldable pub step_problems : String → Bool → List Text → HttpStep f → List Error
  step_problems at weighted seen s =
      name_problems at seen s.name
      ++ (step_weight weighted at s.weight
          ++ (given (is_blank s.url) (missing (concat at "/url"))
              ++ (given (not (is_blank s.body) && not (is_blank s.body_file))
                    (invalid (concat at "/body"))
                  ++ (given (given_not_positive s.timeout) (invalid (concat at "/timeout"))
                      ++ (expect_problems at s.expect
                          ++ (extract_problems at 0 s.extract ++ think_given at s.think))))))

  -- The steps from a number on, and the names before them.
  unfoldable pub steps_problems : String → Bool → ℕ → List Text → List (HttpStep f) → List Error
  steps_problems at weighted i seen [] = []
  steps_problems at weighted i seen (s ∷ ss) =
      step_problems (item at i) weighted seen s
      ++ steps_problems at weighted (suc i) (s.name ∷ seen) ss

  abbrev after_steps : List Text → List (HttpStep f) → List Text
  after_steps seen [] = seen
  after_steps seen (s ∷ ss) = after_steps (s.name ∷ seen) ss

  unfoldable pub journeys_problems : ℕ → List Text → List (Journey f) → List Error
  journeys_problems i seen [] = []
  journeys_problems i seen (j ∷ js) =
      let at = item "/http/journeys" i in
      given (is_blank j.name) (missing (concat at "/name"))
      ++ (given (contains seen j.name) (duplicate (concat at "/name"))
          ++ (check_weight f j.weight (concat at "/weight")
              ++ (given (is_blank j.steps) (missing (concat at "/steps"))
                  ++ (steps_problems (concat at "/steps") false 0 [] j.steps
                      ++ journeys_problems (suc i) (j.name ∷ seen) js))))

  abbrev pub kind_problems : Bool → Bool → List Error
  kind_problems false false = error config_requests_and_journeys "/http" ∷ []
  kind_problems true true = error config_missing_field "/http" ∷ []
  kind_problems no_requests no_journeys = []

  -- All but the executor.
  unfoldable pub http_own : Http f → List Error
  http_own h =
      kind_problems (is_blank h.requests) (is_blank h.journeys)
      ++ (steps_problems "/http/requests" true 0 [] h.requests
          ++ (journeys_problems 0 (after_steps [] h.requests) h.journeys
              ++ feeder_problems 0 [] h.feeders))

  unfoldable pub http_problems : ℤ → Http f → List Error
  http_problems run h = http_own h ++ executor_problems f run "/http/executor" h.executor
