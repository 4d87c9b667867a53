-- ===== src/Executor.antt =====
-- internal/executor/executor.go: the open-model executor as a step relation. The generator offers
-- arrivals; the workers take jobs from a buffered channel. A channel is its buffer with the count of
-- workers that are blocked on it: a send succeeds when one of them waits or the buffer has room. The
-- generator alone writes its counters, so one arrival is one step; what a worker does with a job is
-- three steps, as others run in between. Offsets are in nanoseconds and not negative.
pub mod Lag
pub mod Steps
pub mod Conserved
pub mod Drains
mod Examples
use tracepoint.Base.{
  ℕ, zero, suc, ◌+◌, ◌-◌, Bool, true, false, not, List, [], ◌∷◌, ◌++◌, Option, none, some, length,
  if◌then◌else◌, leb, ltb,
}
use tracepoint.Base.Int.{ℤ, pos, negsuc}
use tracepoint.Base.Float.{Float}
use tracepoint.Errs.{Result, ok, err, error, internal}
use tracepoint.Metrics.Sketch.{Sketches, Quantiles}
use tracepoint.Metrics.Collector.State.{Collector, bucket_index_of}
use tracepoint.Metrics.Collector.Runs.{Call, offered_call, dropped_call, in_flight_call}
use tracepoint.Executor.Lag.{LagTracker, new_lag_tracker, add_lag, lag_quantiles}

abbrev pub default_max_in_flight : ℕ
default_max_in_flight = 256

abbrev pub default_queue_depth : ℕ
default_queue_depth = 64

-- What NewArrivalRate makes of the configured sizes.
abbrev pub max_in_flight_or : ℤ → ℕ
max_in_flight_or (pos zero) = default_max_in_flight
max_in_flight_or (pos (suc n)) = suc n
max_in_flight_or (negsuc n) = default_max_in_flight

abbrev pub queue_depth_or : ℤ → ℕ
queue_depth_or (pos n) = n
queue_depth_or (negsuc n) = default_queue_depth

pub record Job : Type 0 where
  pub index : ℕ
  pub intended : ℕ
  pub dispatched : ℕ

module _ (f : Float) (k : Sketches f) where
  -- `ready` workers are about to receive, `waiting` ones are blocked in it, `stopped` ones have
  -- returned. A job is held when it is received, noting when it is counted in flight and its peak is
  -- yet to be noted, and active while the runner performs it. `calls` has what the collector was told,
  -- the latest first.
  pub record ArrivalRate : Type 0 where
    pub max_in_flight : ℕ
    pub queue_depth : ℕ
    pub queue : List Job
    pub closed : Bool
    pub ready : ℕ
    pub waiting : ℕ
    pub stopped : ℕ
    pub held : List Job
    pub noting : List (ℕ × Job)
    pub active : List Job
    pub performed : ℕ
    pub in_flight : ℕ
    pub peak_in_flight : ℕ
    pub offered : ℕ
    pub dispatched : ℕ
    pub dropped : ℕ
    pub lag : LagTracker f k
    pub calls : List (Call f k)

  abbrev pub idle : ℕ → ℕ → LagTracker f k → ArrivalRate
  idle size depth lag = record {
    max_in_flight = size;
    queue_depth = depth;
    queue = [];
    closed = false;
    ready = size;
    waiting = 0;
    stopped = 0;
    held = [];
    noting = [];
    active = [];
    performed = 0;
    in_flight = 0;
    peak_in_flight = 0;
    offered = 0;
    dispatched = 0;
    dropped = 0;
    lag = lag;
    calls = [];
  }

  abbrev pub with_lag : ℕ → ℕ → Result (LagTracker f k) → Result ArrivalRate
  with_lag size depth (err e) = err e
  with_lag size depth (ok lag) = ok (idle size depth lag)

  -- The workers that Run starts are ready; the flags say which parts are given.
  unfoldable pub new_arrival_rate :
      (runner schedule collector clock : Bool) → ℤ → ℤ → Result ArrivalRate
  new_arrival_rate runner schedule collector clock size depth =
      if not runner
      then err (error internal "")
      else if not schedule
      then err (error internal "")
      else if not collector
      then err (error internal "")
      else if not clock
      then err (error internal "")
      else with_lag (max_in_flight_or size) (queue_depth_or depth) (new_lag_tracker f k)

  -- The counters of an arrival, before it is sent.
  abbrev pub counted : ℕ → ℕ → ℕ → ArrivalRate → ArrivalRate
  counted bucket at now s = record s {
    offered = suc s.offered;
    lag = add_lag f k (now - at) s.lag;
    calls = offered_call bucket ∷ s.calls;
  }

  abbrev job_of : ℕ → ℕ → ArrivalRate → Job
  job_of at now s = record { index = s.offered; intended = at; dispatched = now }

  -- The select: a blocked worker, room in the buffer, or the default.
  abbrev pub send : ℕ → Job → ℕ → ArrivalRate → ArrivalRate
  send bucket j (suc w) s = record s {
    waiting = w;
    held = j ∷ s.held;
    dispatched = suc s.dispatched;
  }
  send bucket j zero s =
      if ltb (length s.queue) s.queue_depth
      then record s { queue = s.queue ++ (j ∷ []); dispatched = suc s.dispatched }
      else record s { dropped = suc s.dropped; calls = dropped_call bucket ∷ s.calls }

  module _ (c : Collector f k) where
    unfoldable pub offer : ℕ → ℕ → ArrivalRate → ArrivalRate
    offer at now s =
        let bucket = bucket_index_of f k c (pos at) in
        let s1 = counted bucket at now s in send bucket (job_of at now s1) s1.waiting s1

  abbrev pub note_peak : ℕ → ℕ → ℕ
  note_peak n cur = if leb n cur then cur else n

  pub record Stats : Type 0 where
    pub offered : ℕ
    pub dispatched : ℕ
    pub dropped : ℕ
    pub peak_in_flight : ℕ
    pub max_in_flight : ℕ
    pub dispatch_lag : Quantiles f

  unfoldable pub stats : ArrivalRate → Stats
  stats s = record {
    offered = s.offered;
    dispatched = s.dispatched;
    dropped = s.dropped;
    peak_in_flight = s.peak_in_flight;
    max_in_flight = s.max_in_flight;
    dispatch_lag = lag_quantiles f k s.lag;
  }
