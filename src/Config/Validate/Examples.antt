-- ===== src/Config/Validate/Examples.antt =====
-- A configuration with one query, given its defaults and validated.
use tracepoint.Base.{true, ◌≡◌, refl, none, some, arith}
use tracepoint.Base.Int.{pos, ◌+ℤ◌}
use tracepoint.Base.Sample.{whole}
use tracepoint.Base.Text.{codes, ◌==◌, contains}
use tracepoint.Config.{Executor, Config, runners}
use tracepoint.Config.Defaults.{
  apply_defaults, run_defaults, normalise_driver, executor_defaults, typed_defaults, sum_durations,
  total_duration,
}
use tracepoint.Config.Defaults.Settled.{apply_defaults_idem}
use tracepoint.Config.Examples.{reading, steady}
use tracepoint.Config.Labels.{labels, executor}
use tracepoint.Config.Labels.Distinct.{are_distinct, validate-are_distinct}
use tracepoint.Config.Validate.{validate, problems, run_problems, target_problems}
use tracepoint.Config.Validate.Accepts.{Rates}
use tracepoint.Config.Validate.Runs.{Lasting, validate-executor_profile}
use tracepoint.Config.Validate.Executors.{executor_problems, stages_problems, type_problems}
use tracepoint.Config.Validate.Profiles.{executor_profile, is_counted}
use tracepoint.Config.Validate.Storage.{db_problems, db_own, queries_problems, driver_problems}

abbrev settled : Config whole
settled = apply_defaults whole reading

abbrev ready : Executor whole
ready = executor_defaults whole (pos 60000000000) steady

rates : Rates whole
rates = record { zero = refl; equal = λ a b e r. ground arith }

settled_is_valid : validate whole settled ≡ none
unfolding validate problems run_problems target_problems apply_defaults run_defaults
    normalise_driver executor_defaults typed_defaults runners db_problems db_own queries_problems
    driver_problems executor_problems stages_problems type_problems total_duration sum_durations
    contains ◌==◌ ◌+ℤ◌
settled_is_valid = refl

settled_is_driven : executor whole settled (codes "db") ≡ some ready
unfolding executor apply_defaults run_defaults ◌==◌
settled_is_driven = refl

ready_is_counted : is_counted whole ready ≡ true
unfolding executor_defaults typed_defaults ◌==◌
ready_is_counted = refl

validate-executor_profile_example :
    Lasting whole settled.run.duration (executor_profile whole ready)
validate-executor_profile_example =
    validate-executor_profile whole rates reading (codes "db") ready settled_is_valid
      settled_is_driven ready_is_counted

validate-are_distinct_example : are_distinct (labels whole settled (codes "db")) ≡ true
unfolding ◌==◌
validate-are_distinct_example =
    validate-are_distinct whole settled (codes "db") settled_is_valid refl

apply_defaults_idem_example : apply_defaults whole settled ≡ settled
apply_defaults_idem_example = apply_defaults_idem whole reading
