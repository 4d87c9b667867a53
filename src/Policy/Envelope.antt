-- ===== src/Policy/Envelope.antt =====
-- internal/policy/policy.go: the envelope, what a configuration may make of it, and the checks that
-- a run makes against it. Durations are nanoseconds; time.ParseDuration and Duration.String are
-- parameters, and so are the environment, the file system and the YAML decoder of Load.
pub mod Tighten
pub mod Checks
pub mod Load
pub mod Accepts
pub mod Laws
mod Examples
use tracepoint.Base.{Bool, true, false, Option, none, some, List, [], ◌∷◌}
use tracepoint.Base.Int.{ℤ, pos}
use tracepoint.Base.Float.{Float}
use tracepoint.Base.Text.{Text, codes}
use tracepoint.Errs.{Result, ok, err, error, policy_parse}

pub record Durations : Type 0 where
  pub parse : Text → Option ℤ
  pub print : ℤ → Text

abbrev pub policy_version : ℤ
policy_version = pos 1

abbrev pub env_var : Text
env_var = codes "TRACEPOINT_POLICY"

pub record Dangerous : Type 0 where
  pub label : Text
  pub keyword : Text

module _ (f : Float) where
  pub record Policy : Type 0 where
    pub version : ℤ
    pub allow_targets : List Text
    pub deny_targets : List Text
    pub allow_public_targets : Bool
    pub allow_writes : Bool
    pub allow_dangerous : Bool
    pub allow_insecure_tls : Bool
    pub allow_detach : Bool
    pub max_rate_per_runner : Option (f.F)
    pub max_in_flight : Option ℤ
    pub max_duration : Option Text
    pub max_concurrent_runs : ℤ
    pub run_root : Text
    pub redact_headers : List Text

  pub record Tightening : Type 0 where
    pub allow_writes : Bool
    pub allow_dangerous : Bool
    pub allow_insecure_tls : Bool
    pub allow_targets : List Text
    pub max_rate_per_runner : Option (f.F)
    pub max_in_flight : Option ℤ
    pub max_duration : Option ℤ

  unfoldable pub default : Policy
  default = record {
    version = policy_version;
    allow_targets = [];
    deny_targets = [];
    allow_public_targets = false;
    allow_writes = false;
    allow_dangerous = false;
    allow_insecure_tls = false;
    allow_detach = true;
    max_rate_per_runner = none;
    max_in_flight = none;
    max_duration = none;
    max_concurrent_runs = pos 1;
    run_root = codes "runs";
    redact_headers = [];
  }

  unfoldable pub server_default : Policy
  unfolding default
  server_default = record default {
    max_rate_per_runner = some (f.lit 500 0);
    max_in_flight = some (pos 512);
    max_duration = some (codes "10m");
  }

module _ (tm : Durations) where
  abbrev parsed : Option ℤ → Result (Option ℤ)
  parsed none = err (error policy_parse "")
  parsed (some d) = ok (some d)

  -- No limit is `ok none`.
  unfoldable pub max_run_duration : Option Text → Result (Option ℤ)
  max_run_duration none = ok none
  max_run_duration (some []) = ok none
  max_run_duration (some (c ∷ cs)) = parsed (tm.parse (c ∷ cs))
