-- ===== src/Executor/Examples.antt =====
-- A run of two workers at concrete inputs.
use tracepoint.Base.{◌+◌, ◌≤◌, true, ◌≡◌, refl, []}
use tracepoint.Base.Int.{pos}
use tracepoint.Base.Sample.{whole}
use tracepoint.Errs.{ok}
use tracepoint.Metrics.Collector.Examples.{listed, collector}
use tracepoint.Executor.{ArrivalRate, Job, new_arrival_rate, idle, offer}
use tracepoint.Executor.Lag.{new_lag_tracker}
use tracepoint.Executor.Steps.{
  Run, stay, more, offering, closing, blocking, beginning, close, block, begin,
}
use tracepoint.Executor.Conserved.{IsConserved}
use tracepoint.Executor.Drains.{
  Drains, left, Run-ends, new_arrival_rate-IsConserved, new_arrival_rate-Drains,
}

abbrev two : ArrivalRate whole listed
two = idle whole listed 2 0 (record { sketch = []; n = 0; sum = pos 0; max = pos 0 })

two_new : new_arrival_rate whole listed true true true true (pos 2) (pos 0) ≡ ok two
unfolding new_arrival_rate new_lag_tracker
two_new = refl

-- One worker waits, an arrival goes to it, the next one is dropped, and the queue is closed.
abbrev last : ArrivalRate whole listed
last =
    close whole listed (
      offer whole listed collector 9 9
        (offer whole listed collector 5 7 (block whole listed 1 two)))

two_runs : Run whole listed collector 4 two last
unfolding offer
two_runs =
    more (blocking 1 refl refl refl)
      (more (offering 5 7 refl) (more (offering 9 9 refl) (more (closing refl) stay)))

new_arrival_rate-IsConserved_example : IsConserved whole listed last
new_arrival_rate-IsConserved_example =
    new_arrival_rate-IsConserved whole listed collector true true true true (pos 2) (pos 0) two
      two_new two_runs

last_dropped : last.dropped ≡ 1
unfolding offer
last_dropped = refl

new_arrival_rate-Drains_example : Drains whole listed collector last
new_arrival_rate-Drains_example =
    new_arrival_rate-Drains whole listed collector true true true true (pos 2) (pos 0) two two_new
      two_runs refl

abbrev job : Job
job = record { index = 1; intended = 5; dispatched = 7 }

job_begins : Run whole listed collector 1 last (begin whole listed [] job [] last)
unfolding offer
job_begins = more (beginning [] job [] refl) stay

Run-ends_example :
    1 + left whole listed (begin whole listed [] job [] last) ≤ left whole listed last
Run-ends_example = Run-ends whole listed collector job_begins refl
