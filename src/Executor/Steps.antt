-- ===== src/Executor/Steps.antt =====
-- `Run`, `generate` and `work` of internal/executor/executor.go as steps. The arrivals end when the
-- schedule is exhausted or a context is done: `close` stands for each way. Runner.Do is one step that
-- records any outcomes.
use tracepoint.Base.{ℕ, suc, ◌-◌, ◌≡◌, true, false, List, [], ◌∷◌, ◌++◌, map}
use tracepoint.Base.Int.{pos}
use tracepoint.Base.Float.{Float}
use tracepoint.Metrics.Sketch.{Sketches}
use tracepoint.Metrics.Outcome.{Outcome}
use tracepoint.Metrics.Collector.State.{Collector, bucket_index_of}
use tracepoint.Metrics.Collector.Runs.{record_call, in_flight_call}
use tracepoint.Executor.{ArrivalRate, Job, offer, note_peak}

module _ (f : Float) (k : Sketches f) where
  abbrev pub close : ArrivalRate f k → ArrivalRate f k
  close s = record s { closed = true }

  abbrev pub block : ℕ → ArrivalRate f k → ArrivalRate f k
  block r s = record s { ready = r; waiting = suc s.waiting }

  abbrev pub receive : ℕ → Job → List Job → ArrivalRate f k → ArrivalRate f k
  receive r j q s = record s { ready = r; queue = q; held = j ∷ s.held }

  abbrev pub leave : ℕ → ArrivalRate f k → ArrivalRate f k
  leave r s = record s { ready = r; stopped = suc s.stopped }

  abbrev pub wake : ℕ → ArrivalRate f k → ArrivalRate f k
  wake w s = record s { waiting = w; stopped = suc s.stopped }

  abbrev pub begin : List Job → Job → List Job → ArrivalRate f k → ArrivalRate f k
  begin xs j ys s = record s {
    held = xs ++ ys;
    in_flight = suc s.in_flight;
    noting = (suc s.in_flight, j) ∷ s.noting;
  }

  abbrev pub finish : List Job → List Job → List Outcome → ArrivalRate f k → ArrivalRate f k
  finish xs ys os s = record s {
    active = xs ++ ys;
    performed = suc s.performed;
    ready = suc s.ready;
    in_flight = s.in_flight - 1;
    calls = map record_call os ++ s.calls;
  }

  module _ (c : Collector f k) where
    abbrev pub note : List (ℕ × Job) → ℕ → Job → List (ℕ × Job) → ArrivalRate f k → ArrivalRate f k
    note xs n j ys s = record s {
      noting = xs ++ ys;
      active = j ∷ s.active;
      peak_in_flight = note_peak f k n s.peak_in_flight;
      calls = in_flight_call (bucket_index_of f k c (pos j.intended)) n ∷ s.calls;
    }

    pub data Step (s : ArrivalRate f k) : ArrivalRate f k → Type 0 where
      offering : (at now : ℕ) → s.closed ≡ false → Step s (offer f k c at now s)
      closing : s.closed ≡ false → Step s (close s)
      blocking : (r : ℕ) → s.ready ≡ suc r → s.queue ≡ [] → s.closed ≡ false → Step s (block r s)
      receiving :
          (r : ℕ) (j : Job) (q : List Job)
          → s.ready ≡ suc r
          → s.queue ≡ j ∷ q
          → Step s (receive r j q s)
      leaving : (r : ℕ) → s.ready ≡ suc r → s.queue ≡ [] → s.closed ≡ true → Step s (leave r s)
      waking : (w : ℕ) → s.waiting ≡ suc w → s.closed ≡ true → Step s (wake w s)
      beginning :
          (xs : List Job) (j : Job) (ys : List Job)
          → s.held ≡ xs ++ j ∷ ys
          → Step s (begin xs j ys s)
      noticing :
          (xs : List (ℕ × Job)) (n : ℕ) (j : Job) (ys : List (ℕ × Job))
          → s.noting ≡ xs ++ (n, j) ∷ ys
          → Step s (note xs n j ys s)
      finishing :
          (xs : List Job) (j : Job) (ys : List Job) (os : List Outcome)
          → s.active ≡ xs ++ j ∷ ys
          → Step s (finish xs ys os s)

    pub data Run : ℕ → ArrivalRate f k → ArrivalRate f k → Type 0 where
      stay : {s : ArrivalRate f k} → Run 0 s s
      more : {n : ℕ} {s t u : ArrivalRate f k} → Step s t → Run n t u → Run (suc n) s u
