-- ===== src/Result/Examples.antt =====
-- Runs at concrete inputs, on whole numbers in place of float64.
use tracepoint.Base.{ℕ, false, not, ◌&&◌, ◌≡◌, Option, none, some, [], ◌∷◌, any, all}
use tracepoint.Base.Int.{pos}
use tracepoint.Base.Sample.{whole}
use tracepoint.Base.Text.{Text, codes}
use tracepoint.Errs.{is_ok}
use tracepoint.Metrics.Sketch.{Quantiles}
use tracepoint.Policy.Target.{private}
use tracepoint.Result.{completed, Runner, Recorded}
use tracepoint.Result.Validity.{Saying, lag_limit, evaluate_validity}
use tracepoint.Config.{Slo, no_target}
use tracepoint.Result.Budget.{is_within, evaluate_slo, evaluate_slo-pass}
use tracepoint.Result.Judged.{is_invalid, is_untrusted, evaluate_validity-invalid}
use tracepoint.Result.Verdict.{analyse, cause, find_app, is_idle, analyse-cause}
use tracepoint.Result.Document.{Json, decode, version_read, is_some, decode-accepts}

abbrev flat : ℕ → Quantiles whole
flat n = record {
  p50 = pos n;
  p90 = pos n;
  p95 = pos n;
  p99 = pos n;
  p999 = pos n;
  max = pos n;
  mean = pos n;
}

-- A runner that dispatched its arrivals this many milliseconds late.
abbrev late_by : ℕ → Runner whole
late_by n = record {
  name = codes "http";
  kind = codes "app";
  targets = record { host = codes "10.0.0.1"; scope = private } ∷ [];
  executor = some (record {
    offered = 100;
    dispatched = 100;
    dropped = 0;
    dropped_ratio = pos 0;
    max_in_flight = pos 8;
    peak_in_flight = 3;
    dispatch_lag_ms = flat n;
  });
  summary = record {
    n = 100;
    error_ratio = pos 0;
    achieved_rps = pos 10;
    response = flat 40;
    service = flat 30;
  };
  buckets = record { n = 100; insufficient = false; warmup = false; service = flat 30 } ∷ [];
  http = some (record { status_histogram = λ s. 0; insecure_tls = false });
}

abbrev run_with : ℕ → Recorded whole
run_with n = record { status = completed; bucket_ms = pos 1000; runners = late_by n ∷ [] }

abbrev say : Saying whole → Text
say m = codes "said"

-- A p99 of 20 milliseconds for the http runner.
abbrev budgets : Option (Slo whole)
budgets = some (record {
  http = record { p95 = none; p99 = some (pos 20000000); error_rate = none };
  db = no_target whole;
  redis = no_target whole;
})

evaluate_validity-invalid_example :
    is_invalid (evaluate_validity whole say (run_with 90)).state
    ≡ any (is_untrusted whole (lag_limit whole (pos 1000))) (late_by 90 ∷ [])
evaluate_validity-invalid_example = evaluate_validity-invalid whole say (run_with 90)

evaluate_slo-pass_example :
    (evaluate_slo whole (run_with 1) budgets).pass ≡ all (is_within whole budgets) (late_by 1 ∷ [])
evaluate_slo-pass_example = evaluate_slo-pass whole (run_with 1) budgets

analyse-cause_example :
    (analyse whole say (run_with 90) budgets).verdict.bottleneck
    ≡ cause whole
        (any (is_untrusted whole (lag_limit whole (pos 1000))) (late_by 90 ∷ []))
        (not (all (is_within whole budgets) (late_by 90 ∷ [])))
        (is_idle whole (find_app whole (late_by 90 ∷ [])))
analyse-cause_example = analyse-cause whole say (run_with 90) budgets

abbrev first_line : Json
first_line = record { Document = Text; probe = λ t. some t; unmarshal = λ t. some t }

decode-accepts_example :
    is_ok (decode first_line (codes "1.3"))
    ≡ (version_read first_line (some (codes "1.3")) && is_some first_line (some (codes "1.3")))
decode-accepts_example = decode-accepts first_line (codes "1.3")
