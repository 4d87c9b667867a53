-- ===== src/Errs.antt =====
-- internal/errs/errs.go: the coded errors, their exit codes, and how several exit codes combine.
-- A `Code` is a Go string; `unregistered` stands for every string that the table does not list.
-- Messages, hints, positions and the JSON envelope are left out: a caller branches on the code.
pub mod Exit
mod Examples
use tracepoint.Base.{
  ℕ, Bool, true, false, List, [], ◌∷◌, Option, none, some, ltb, ◌==◌, if◌then◌else◌,
}
use Prim.Native.String.{String}

pub data Code : Type 0 where
  config_not_found config_parse config_unknown_field config_missing_field : Code
  config_invalid_value config_version_unsupported config_no_runner : Code
  config_requests_and_journeys config_duplicate_name config_env_unset : Code
  config_stages_mismatch config_template_syntax config_template_unknown_func : Code
  config_undefined_variable config_feeder_not_found set_parse set_unknown_path : Code
  set_type_mismatch set_index_not_found policy_denied policy_parse : Code
  policy_target_not_allowed policy_writes_not_allowed policy_dangerous_not_allowed : Code
  policy_rate_exceeded policy_duration_exceeded policy_insecure_tls_not_allowed : Code
  policy_too_many_runs policy_detach_not_allowed preflight_dns preflight_connect : Code
  preflight_http preflight_db_ping preflight_db_prepare preflight_redis_ping : Code
  preflight_driver_unknown run_aborted run_interrupted run_failed run_invalid : Code
  slo_breach result_not_found result_parse result_schema_unsupported : Code
  compare_schema_mismatch compare_insufficient_data compare_regression run_not_found : Code
  run_already_running run_lost wait_timeout ops_unknown_operation ops_invalid_input : Code
  server_unauthorized server_bad_host server_bad_origin server_addr_in_use : Code
  io_write_failed io_read_failed internal unregistered : Code

abbrev pub exit_ok : ℕ
exit_ok = 0

abbrev pub exit_breach : ℕ
exit_breach = 1

abbrev pub exit_usage : ℕ
exit_usage = 2

abbrev pub exit_runtime : ℕ
exit_runtime = 3

abbrev pub exit_invalid : ℕ
exit_invalid = 4

abbrev pub exit_wait_open : ℕ
exit_wait_open = 5

pub record Meta : Type 0 where
  pub exit : ℕ
  pub retriable : Bool

abbrev entry : ℕ → Bool → Option Meta
entry e r = some (record { exit = e; retriable = r })

unfoldable pub registry : Code → Option Meta
registry config_not_found = entry exit_usage false
registry config_parse = entry exit_usage false
registry config_unknown_field = entry exit_usage false
registry config_missing_field = entry exit_usage false
registry config_invalid_value = entry exit_usage false
registry config_version_unsupported = entry exit_usage false
registry config_no_runner = entry exit_usage false
registry config_requests_and_journeys = entry exit_usage false
registry config_duplicate_name = entry exit_usage false
registry config_env_unset = entry exit_usage false
registry config_stages_mismatch = entry exit_usage false
registry config_template_syntax = entry exit_usage false
registry config_template_unknown_func = entry exit_usage false
registry config_undefined_variable = entry exit_usage false
registry config_feeder_not_found = entry exit_usage false
registry set_parse = entry exit_usage false
registry set_unknown_path = entry exit_usage false
registry set_type_mismatch = entry exit_usage false
registry set_index_not_found = entry exit_usage false
registry policy_denied = entry exit_usage false
registry policy_parse = entry exit_usage false
registry policy_target_not_allowed = entry exit_usage false
registry policy_writes_not_allowed = entry exit_usage false
registry policy_dangerous_not_allowed = entry exit_usage false
registry policy_rate_exceeded = entry exit_usage false
registry policy_duration_exceeded = entry exit_usage false
registry policy_insecure_tls_not_allowed = entry exit_usage false
registry policy_too_many_runs = entry exit_usage false
registry policy_detach_not_allowed = entry exit_usage false
registry preflight_dns = entry exit_runtime true
registry preflight_connect = entry exit_runtime true
registry preflight_http = entry exit_runtime true
registry preflight_db_ping = entry exit_runtime true
registry preflight_db_prepare = entry exit_runtime false
registry preflight_redis_ping = entry exit_runtime true
registry preflight_driver_unknown = entry exit_usage false
registry run_aborted = entry exit_runtime false
registry run_interrupted = entry exit_runtime false
registry run_failed = entry exit_runtime false
registry run_invalid = entry exit_invalid false
registry slo_breach = entry exit_breach false
registry result_not_found = entry exit_usage false
registry result_parse = entry exit_usage false
registry result_schema_unsupported = entry exit_runtime false
registry compare_schema_mismatch = entry exit_runtime false
registry compare_insufficient_data = entry exit_breach false
registry compare_regression = entry exit_breach false
registry run_not_found = entry exit_usage false
registry run_already_running = entry exit_usage false
registry run_lost = entry exit_runtime false
registry wait_timeout = entry exit_wait_open true
registry ops_unknown_operation = entry exit_usage false
registry ops_invalid_input = entry exit_usage false
registry server_unauthorized = entry exit_usage false
registry server_bad_host = entry exit_usage false
registry server_bad_origin = entry exit_usage false
registry server_addr_in_use = entry exit_runtime true
registry io_write_failed = entry exit_runtime true
registry io_read_failed = entry exit_runtime true
registry internal = entry exit_runtime false
registry unregistered = none

-- An error with its sibling problems, each a code and a JSON pointer.
pub record Error : Type 0 where
  pub code : Code
  pub path : String
  pub causes : List (Code × String)

abbrev pub error : Code → String → Error
error c p = record { code = c; path = p; causes = [] }

pub data Result {ℓ} (A : Type ℓ) : Type ℓ where
  ok : A → Result A
  err : Error → Result A

abbrev pub is_ok {ℓ} : {A : Type ℓ} → Result A → Bool
is_ok (ok _) = true
is_ok (err _) = false

-- What holds of a result that is no error.
abbrev pub OnOk {ℓ κ} : {A : Type ℓ} → (A → Type κ) → Result A → Type κ
OnOk P (ok a) = P a
OnOk P (err e) = Unit

-- Whether an error result is Go's nil.
abbrev pub is_nil : Option Error → Bool
is_nil none = true
is_nil (some _) = false

-- The map lookup with its `ok` flag.
exit_of : Option Meta → ℕ
exit_of none = exit_runtime
exit_of (some m) = m.exit

unfoldable pub exit_code : Error → ℕ
unfolding registry exit_of
exit_code e = exit_of (registry e.code)

-- A missing key gives Go's zero value.
retriable_of : Option Meta → Bool
retriable_of none = false
retriable_of (some m) = m.retriable

unfoldable pub retriable : Error → Bool
unfolding registry retriable_of
retriable e = retriable_of (registry e.code)

-- The error argument: nil, one of ours (found by errors.As), or a foreign one.
pub data AnyError : Type 0 where
  nil foreign : AnyError
  coded : Error → AnyError

unfoldable pub exit_code_of : AnyError → ℕ
unfolding exit_code
exit_code_of nil = exit_ok
exit_code_of (coded e) = exit_code e
exit_code_of foreign = exit_runtime

-- The table `precedence`; a missing key gives 0.
unfoldable pub precedence : ℕ → ℕ
precedence c =
    if c == exit_usage
    then 4
    else if c == exit_runtime
    then 3
    else if c == exit_invalid
    then 2
    else if c == exit_breach
    then 1
    else if c == exit_wait_open
    then 1
    else 0

unfoldable pub worst_from : ℕ → List ℕ → ℕ
worst_from w [] = w
worst_from w (c ∷ cs) = worst_from (if ltb (precedence w) (precedence c) then c else w) cs

unfoldable pub worst : List ℕ → ℕ
unfolding worst_from
worst codes = worst_from exit_ok codes
