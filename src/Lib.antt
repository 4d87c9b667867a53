-- ===== src/Lib.antt =====
-- TracePoint is a load generator. A configuration names the operations of up to three runners
-- (HTTP, SQL, Redis). Before a run, the configuration is held against the policy that a human
-- granted: its safety section may tighten the policy, its statements are classified as reads,
-- writes or destructive, and each target is resolved and judged by the scope of its addresses.
-- During a run, each outcome goes to the metrics collector, through a recorder that also shows it
-- to the abort guard; the collector files it in a ring of time buckets and seals each bucket into a
-- summary and into the totals of the run. Every refusal and failure is a coded error, and the
-- process exits with the code of the worst.
--
-- Which file models what:
--   Errs, Errs/Exit: internal/errs/errs.go. Codes, their exit codes and retriability, Worst.
--   Metrics/Outcome: internal/metrics/outcome.go. Classes and the times of an outcome.
--   Metrics/Sketch: internal/metrics/sketch.go, over an interface for the DDSketch library.
--   Metrics/Accum: the accumulators of internal/metrics/collector.go (accum: add, mergeInto, reset,
--     summary).
--   Metrics/Collector: internal/metrics/collector.go. State has the configuration, slots and
--     NewCollector; Sealing has sealSlotLocked, merge and Finish; Recording has Record, recordLate,
--     the counters and SealThrough, each call as one step; Steps has the calls as they interleave.
--     Maps, Invariant, SealLaws, SealLoop, SealSlot, Preserves, Kept, Claim, Recorded, Conservation,
--     Start, Runs and Totals carry the proofs up to whole runs, Interleaved those of Steps.
--   Metrics/Snapshot: Snapshot, measuredWindow and itoa of internal/metrics/summary.go, and Labels of
--     collector.go. Timeline and Digits are about them.
--   Engine/Guard: internal/engine/guard.go. The guard itself; Window shows that the ring counts what
--     the window holds, Refines compares it with counting over the whole history.
--   Policy/Classify: internal/policy/classify.go. Tables, Strip (comments and literals), Sql, Redis;
--     Laws and Opaque are about the classifications.
--   Policy/Target, Policy/TargetLaws: the scopes, CheckTarget, matches and Resolve of
--     internal/policy/policy.go.
--   Policy/Envelope: the rest of internal/policy/policy.go. Tighten, Checks and Load have its
--     operations, Accepts and Laws are about Tighten.
--   Config: the sections of internal/config/types.go; Statements and Apply are ApplyPolicy of
--     internal/config/apply_policy.go, Laws what it lets through. Defaults is defaults.go, and Settled
--     is about it. Validate, with Common, Executors, Http and Storage, is the checks of validate.go,
--     Labels its other methods; Parts, Profiles, Accepts, Runs and Distinct say what passes them.
--     Profiles has the load profile of internal/engine/engine.go (buildExecutors).
--   Schedule: internal/schedule/schedule.go. Profile has NewProfile and the lookups, Arrivals the
--     schedule; Search, Order and Accepts are about them.
--   Template: internal/template. Compile has template.go, Render has render.go; Ends, Literals, Valid,
--     Static, Range, Ready and Uuid are about them.
--   Result: internal/result. Findings and Validity are evaluateValidity and its removal of doubles,
--     Budget is evaluateSLO, Verdict is Analyse with buildVerdict, and outcomeExit of
--     internal/cli/commands.go, Document is Decode; Among and Judged say when a run is valid.
--   Executor: internal/executor. The state and its operations, Lag is lag.go; Steps has the step
--     relation of the generator and the workers, Conserved and Drains are about its runs.
--   Runner: internal/runner/weighted.go, the choice of an operation by its weight. Sql is
--     internal/runner/sqlrun/sqlrun.go: its queries, Failures the classes of errors, Execute the calls
--     to the driver, Perform is Do with the stamps of internal/runner/runner.go; Laws, Texts and Reads
--     compare it with the policy, Settles, Returns and Commits follow its transactions. Redis is
--     internal/runner/redisrun/redisrun.go, and Fast compares its two ways of giving arguments.
--   Base: numbers, texts, lists, an interface for float64, and a sample of it.
--
-- How the model reads the code. A method that changes its receiver is a function to the new
-- receiver; a section under a mutex is one step, so concurrent calls are a sequence of such steps
-- in any order. Record and the counters of the collector compare the bucket with the sealed ones
-- outside the lock of the slot: Metrics/Collector/Steps splits them into that check and the filing,
-- with anything in between, while Recording, Runs and Totals take a call as one step. Slices that
-- are indexed (the ring, the labels) are functions of the index with their length beside them; an
-- index of -1 is `none`. Counters are unbounded where Go has int64, as no run reaches 2 ^ 63;
-- durations are nanoseconds, without overflow. A nil error is `none` or `ok`.
-- A float64 is a value of an interface of which nothing is assumed but what a theorem names.
-- Texts are lists of bytes; upper case and white space are those of ASCII, where Go knows Unicode.
-- The executor is a step relation: any interleaving of the generator and the workers is a run of it.
-- Loops are structural recursion, but for those that take fuel and give `none` without it: the loops of
-- a profile's lookups, with as many rounds as segments, and the loop of Compile, with one more than the
-- length of its source. Schedule/Search and Template/Ends show that this is enough.
--
-- Parameters, since their code is elsewhere: DDSketch, net/netip, the resolver, the YAML decoder,
-- the file system, the environment, time.ParseDuration and Duration.String, encoding/json,
-- math/rand, sort.SearchFloat64s and the SQL drivers, whose answers may be any function of the calls
-- made before.
--
-- Not modelled: the encoded sketches of a snapshot, the assembly of the result document, the loading
-- of configuration files, the start and stop of a run, the clock, the HTTP client, the calls to
-- Redis, the command line and the reports. The messages, hints and JSON form of errors are left out, and so is the order
-- of warnings.
pub mod Base
pub mod Errs
pub mod Metrics
pub mod Engine
pub mod Policy
pub mod Config
pub mod Schedule
pub mod Template
pub mod Result
pub mod Executor
pub mod Runner
