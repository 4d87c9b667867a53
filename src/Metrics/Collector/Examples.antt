-- ===== src/Metrics/Collector/Examples.antt =====
-- Runs of the collector on whole numbers, with the list of its observations for a sketch.
use tracepoint.Base.{ℕ, ◌+◌, true, false, ◌≡◌, refl, List, [], ◌∷◌, ◌++◌, none, some, any}
use tracepoint.Base.Int.{ℤ, pos, negsuc}
use tracepoint.Base.Sample.{whole}
use tracepoint.Errs.{ok}
use tracepoint.Metrics.Outcome.{Class, Outcome}
use tracepoint.Metrics.Sketch.{Sketches}
use tracepoint.Metrics.Accum.{new_accum, fresh}
use tracepoint.Metrics.Accum.Laws.{counting, counting_class, counting_bytes_in}
use tracepoint.Metrics.Collector.State.{
  Collector, Config, app, initial, new_collector, validate, with_defaults, built, take_labels,
}
use tracepoint.Metrics.Collector.Recording.{finish}
use tracepoint.Metrics.Collector.Runs.{
  Call, record_call, offered_call, sweep_call, run_calls, credits,
}
use tracepoint.Metrics.Collector.Totals.{finish-whole_runner}
use tracepoint.Metrics.Collector.Steps.{Step, check, go_on, visit, recording, offering, Shared}

abbrev pub listed : Sketches whole
listed = record {
  S = List ℤ;
  new = λ a. some [];
  add = λ s v. some (v ∷ s);
  clear = λ s. [];
  merge = λ s t. some (t ++ s);
  empty = λ s. elim s [ [] ↦ true | _ ↦ false ];
  quantile = λ s p. none;
}

-- Buckets of a second, a warm-up of one and a half, and two configured labels.
abbrev settings : Config whole listed
settings = record {
  runner = "http";
  kind = app;
  labels = "login" ∷ "search" ∷ "login" ∷ [];
  bucket_width = pos 1000000000;
  warmup = pos 1500000000;
  seal_delay = pos 2000000000;
  min_samples = pos 1;
  relative_accuracy = pos 1;
  label_timeline_budget = pos 3;
  track_statuses = true;
}

abbrev pub collector : Collector whole listed
collector = initial whole listed settings ("login" ∷ "search" ∷ []) false (fresh whole listed [])

collector_new : new_collector whole listed settings ≡ ok collector
unfolding new_collector validate with_defaults built take_labels new_accum any
collector_new = refl

-- An outcome of a class, intended at a time and finished two milliseconds later.
abbrev outcome : ℤ → Class → ℕ → Outcome
outcome label class at = record {
  label = label;
  class = class;
  status = pos 200;
  intended = pos at;
  dispatched = pos at;
  worker_start = pos at;
  conn_acquired = pos at;
  first_byte = pos at;
  end = pos (at + 2000000);
  bytes_in = 7;
  bytes_out = 1;
}

-- One outcome in the warm-up, two after it, one that comes after its bucket has sealed.
abbrev calls : List (Call whole listed)
calls =
    offered_call 0
    ∷ record_call (outcome (pos 0) Class.ok 10)
    ∷ record_call (outcome (pos 1) Class.timeout 3000000000)
    ∷ record_call (outcome (negsuc 4) Class.ok 9000000000)
    ∷ sweep_call 90000000000
    ∷ record_call (outcome (pos 1) Class.ok 4000000000)
    ∷ []

abbrev after : Collector whole listed
after = finish whole listed (run_calls whole listed calls collector)

-- Two recordings of one bucket begin, the sweeper passes by too early to seal it, and the recordings go
-- on in the other order; a third comes after the bucket has sealed.
abbrev interleaved : List Step
interleaved =
    check (recording (outcome (pos 0) Class.ok 3000000000))
    ∷ check (offering 3)
    ∷ check (recording (outcome (pos 1) Class.timeout 3000000001))
    ∷ visit 3500000000 0
    ∷ go_on 2
    ∷ go_on 1
    ∷ go_on 0
    ∷ visit 90000000000 0
    ∷ visit 90000000000 1
    ∷ visit 90000000000 2
    ∷ visit 90000000000 3
    ∷ check (recording (outcome (pos 1) Class.ok 3000000002))
    ∷ []

abbrev beginning : Shared whole listed
beginning = record { collector = collector; pending = [] }

finish-whole_runner_example :
    (after.whole_runner.n ≡ credits whole listed (counting whole listed) collector calls)
    × ((e : Class)
        → after.whole_runner.errs e
          ≡ credits whole listed (counting_class whole listed e) collector calls)
    × (after.whole_runner.bytes_in
        ≡ credits whole listed (counting_bytes_in whole listed) collector calls)
finish-whole_runner_example =
    finish-whole_runner whole listed settings collector calls collector_new
