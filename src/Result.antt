-- ===== src/Result.antt =====
-- internal/result: what is concluded from a recorded run, and the exit code of a run
-- (internal/cli/commands.go). A runner carries the fields that the analysis reads. Hints, details and
-- the text of the verdict are left out.
pub mod Findings
pub mod Validity
pub mod Budget
pub mod Verdict
pub mod Among
pub mod Judged
pub mod Document
mod Examples
use tracepoint.Base.{ℕ, Bool, Option, List}
use tracepoint.Base.Int.{ℤ}
use tracepoint.Base.Float.{Float}
use tracepoint.Base.Text.{Text}
use tracepoint.Metrics.Sketch.{Quantiles}
use tracepoint.Policy.Target.{Scope}

pub data Status : Type 0 where
  completed interrupted aborted failed : Status

pub record Target : Type 0 where
  pub host : Text
  pub scope : Scope

module _ (f : Float) where
  pub record ExecutorStats : Type 0 where
    pub offered : ℕ
    pub dispatched : ℕ
    pub dropped : ℕ
    pub dropped_ratio : f.F
    pub max_in_flight : ℤ
    pub peak_in_flight : ℕ
    pub dispatch_lag_ms : Quantiles f

  pub record Summary : Type 0 where
    pub n : ℕ
    pub error_ratio : f.F
    pub achieved_rps : f.F
    pub response : Quantiles f
    pub service : Quantiles f

  pub record Bucket : Type 0 where
    pub n : ℕ
    pub insufficient : Bool
    pub warmup : Bool
    pub service : Quantiles f

  -- The histogram gives zero for a status that it does not hold.
  pub record HttpDetail : Type 0 where
    pub status_histogram : Text → ℕ
    pub insecure_tls : Bool

  pub record Runner : Type 0 where
    pub name : Text
    pub kind : Text
    pub targets : List Target
    pub executor : Option ExecutorStats
    pub summary : Summary
    pub buckets : List Bucket
    pub http : Option HttpDetail

  pub record Recorded : Type 0 where
    pub status : Status
    pub bucket_ms : f.F
    pub runners : List Runner
