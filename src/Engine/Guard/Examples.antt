-- ===== src/Engine/Guard/Examples.antt =====
-- Runs of the abort guard.
use tracepoint.Base.{ℕ, ◌+◌, true, ◌≡◌, refl, List, [], ◌∷◌, zero, suc, arith, sum_below}
use tracepoint.Base.Int.{pos}
use tracepoint.Base.Sample.{whole}
use tracepoint.Metrics.Outcome.{Class, counts_toward_abort_guard}
use tracepoint.Engine.Guard.{
  new_abort_guard, observe, observe_all, evaluate, file, above, reuse, count_in, place,
}
use tracepoint.Engine.Guard.Refines.{trips, new_abort_guard-trips}

-- A timeout at each of `n` times, `step` apart, from `start` on.
abbrev every : ℕ → ℕ → ℕ → List (Class × ℕ)
every zero step start = []
every (suc n) step start = (Class.timeout, start) ∷ every n step (start + step)

abbrev outage : List (Class × ℕ)
outage = every 24 50000000 0

-- With a window of one second, twenty-four timeouts in a row trip the guard.
outage_trips :
    (observe_all whole outage (new_abort_guard whole true (pos 0) (pos 1000000000))).tripped ≡ true
unfolding observe_all observe evaluate file above reuse count_in place new_abort_guard sum_below
    counts_toward_abort_guard
outage_trips = refl

new_abort_guard-trips_example :
    (observe_all whole outage (new_abort_guard whole true (pos 0) (pos 1000000000))).tripped
    ≡ trips whole
        ((new_abort_guard whole true (pos 0) (pos 1000000000)).ratio)
        ((new_abort_guard whole true (pos 0) (pos 1000000000)).window)
        []
        outage
new_abort_guard-trips_example =
    new_abort_guard-trips whole (pos 0) (pos 1000000000) outage (omega arith)
