-- ===== src/Executor/Drains.antt =====
-- The end of a run: once no arrival comes, the workers finish what was accepted and return.
use tracepoint.Base.{
  ℕ, zero, suc, ◌+◌, ◌*◌, ◌≤◌, ◌<◌, ◌≡◌, ◌⊎◌, inl, inr, refl, Bool, true, List, [], ◌∷◌, length,
  arith, ap, subst, ◌∙◌,
}
use tracepoint.Base.Float.{Float}
use tracepoint.Metrics.Sketch.{Sketches}
use tracepoint.Metrics.Collector.State.{Collector}
use tracepoint.Base.Int.{ℤ}
use tracepoint.Errs.{ok, OnOk}
use tracepoint.Executor.{ArrivalRate, Job, offer, send, counted, new_arrival_rate}
use tracepoint.Executor.Steps.{
  Step, offering, closing, blocking, receiving, leaving, waking, beginning, noticing, finishing,
  Run, stay, more,
}
use tracepoint.Executor.Conserved.{
  IsConserved, length-split, step-IsConserved, Run-IsConserved, Starts, OnOk-new_arrival_rate,
}

module _ (f : Float) (k : Sketches f) where
  -- The steps that are left once the queue is closed.
  abbrev pub left : ArrivalRate f k → ℕ
  left s =
      4 * length s.queue
      + 4 * length s.held
      + 3 * length s.noting
      + 2 * length s.active
      + s.ready
      + s.waiting

  module _ (c : Collector f k) where
    step-left :
        (s t : ArrivalRate f k)
        → Step f k c s t
        → s.closed ≡ true
        → (t.closed ≡ true)
          × (suc (left t) ≤ left s)
          × (t.dispatched ≡ s.dispatched)
          × (t.max_in_flight ≡ s.max_in_flight)
    step-left s t (offering at now o) h = cc
    step-left s t (closing o) h = cc
    step-left s t (blocking r e q o) h = cc
    step-left s t (receiving r j q e z) h = let y = ap length z in ground arith
    step-left s t (leaving r e q o) h = ground arith
    step-left s t (waking w e o) h = ground arith
    step-left s t (beginning xs j ys e) h =
        let z = ap length e in let y = length-split f k xs j ys in ground arith
    step-left s t (noticing xs n j ys e) h =
        let z = ap length e in let y = length-split f k xs (n, j) ys in ground arith
    step-left s t (finishing xs j ys os e) h =
        let z = ap length e in let y = length-split f k xs j ys in ground arith

    -- Once the queue is closed a run is finite: it takes no more steps than four for each job that is
    -- queued or held, three for one to be noted, two for an active one and one for each worker that is
    -- ready or waiting.
    pub Run-ends :
        {m : ℕ} {s t : ArrivalRate f k} → Run f k c m s t → s.closed ≡ true → m + left t ≤ left s
    Run-ends stay h = omega arith
    Run-ends (more x xs) h = let (o, l, _, _) = step-left _ _ x h in omega (arith, Run-ends xs o)

    pub record Next (s : ArrivalRate f k) : Type 0 where
      pub state : ArrivalRate f k
      pub step : Step f k c s state

    progress :
        (s : ArrivalRate f k)
        → IsConserved f k s
        → 0 < s.max_in_flight
        → s.closed ≡ true
        → (left s ≡ 0) ⊎ Next s
    progress s p m h =
        go s.ready refl s.waiting refl s.queue refl s.held refl s.noting refl s.active refl
      where
        go :
            (r : ℕ)
            → s.ready ≡ r
            → (w : ℕ) → s.waiting ≡ w
            → (q : List Job) → s.queue ≡ q
            → (hs : List Job) → s.held ≡ hs
            → (ns : List (ℕ × Job)) → s.noting ≡ ns
            → (as' : List Job) → s.active ≡ as'
            → (left s ≡ 0) ⊎ Next s
        go (suc r) er w ew [] eq hs eh ns en as' ea =
            inr (record { state = _; step = leaving r er eq h })
        go (suc r) er w ew (j ∷ q) eq hs eh ns en as' ea =
            inr (record { state = _; step = receiving r j q er eq })
        go zero er (suc w) ew q eq hs eh ns en as' ea =
            inr (record { state = _; step = waking w ew h })
        go zero er zero ew q eq (j ∷ hs) eh ns en as' ea =
            inr (record { state = _; step = beginning [] j hs eh })
        go zero er zero ew q eq [] eh ((n, j) ∷ ns) en as' ea =
            inr (record { state = _; step = noticing [] n j ns en })
        go zero er zero ew q eq [] eh [] en (j ∷ as') ea =
            inr (record { state = _; step = finishing [] j as' [] ea })
        go zero er zero ew q eq [] eh [] en [] ea =
            let a = ap length eh in
            let b = ap length en in let d = ap length ea in inl (ground arith)

    send-sizes :
        (b : ℕ) (j : Job) (w : ℕ) (s : ArrivalRate f k)
        → (send f k b j w s).max_in_flight ≡ s.max_in_flight
    send-sizes b j (suc w) s = refl
    send-sizes b j zero s = ground arith

    step-sizes : (s t : ArrivalRate f k) → Step f k c s t → t.max_in_flight ≡ s.max_in_flight
    unfolding offer
    step-sizes s t (offering at now o) = send-sizes _ _ s.waiting (counted f k _ at now s)
    step-sizes s t (closing o) = refl
    step-sizes s t (blocking r e q o) = refl
    step-sizes s t (receiving r j q e z) = refl
    step-sizes s t (leaving r e q o) = refl
    step-sizes s t (waking w e o) = refl
    step-sizes s t (beginning xs j ys e) = refl
    step-sizes s t (noticing xs n j ys e) = refl
    step-sizes s t (finishing xs j ys os e) = refl

    -- From here the executor can end with every accepted job performed and every worker returned.
    pub record Drains (s : ArrivalRate f k) : Type 0 where
      pub steps : ℕ
      pub ended : ArrivalRate f k
      pub drained : Run f k c steps s ended
      pub performed : ended.performed ≡ s.dispatched
      pub stopped : ended.stopped ≡ s.max_in_flight
      pub quiet : ended.in_flight ≡ 0

    ended-Drains : (s : ArrivalRate f k) → IsConserved f k s → left s ≡ 0 → Drains s
    ended-Drains s p z = record {
      steps = 0;
      ended = s;
      drained = stay;
      performed = ground arith;
      stopped = ground arith;
      quiet = ground arith;
    }

    closed-Drains :
        (m : ℕ) (s : ArrivalRate f k)
        → left s ≤ m
        → IsConserved f k s
        → 0 < s.max_in_flight
        → s.closed ≡ true
        → Drains s
    closed-Drains zero s l p w h = ended-Drains s p (omega arith)
    closed-Drains (suc m) s l p w h = elim (progress s p w h) [
      | inl z ↦ ended-Drains s p z
      | inr x ↦
          let (o, b, d, e) = step-left s x.state x.step h in
          let q = step-IsConserved f k c s x.state x.step p in
          let rest = closed-Drains m x.state (omega arith) q (omega arith) o in
          record {
            steps = suc rest.steps;
            ended = rest.ended;
            drained = more x.step rest.drained;
            performed = rest.performed ∙ d;
            stopped = rest.stopped ∙ e;
            quiet = rest.quiet;
          }
    ]

    Run-sizes :
        {n : ℕ} {s t : ArrivalRate f k} → Run f k c n s t → t.max_in_flight ≡ s.max_in_flight
    Run-sizes stay = refl
    Run-sizes (more x xs) = Run-sizes xs ∙ step-sizes _ _ x

    module _ (runner schedule collector clock : Bool) (size depth : ℤ) (s : ArrivalRate f k)
        (new : new_arrival_rate f k runner schedule collector clock size depth ≡ ok s) where
      new-Starts : Starts f k s
      new-Starts =
          subst (OnOk (Starts f k)) new
            (OnOk-new_arrival_rate f k runner schedule collector clock size depth)

      -- At each point of a run, whatever the order in which the generator and the workers take their
      -- steps: the arrivals offered are those dispatched and those dropped, the jobs dispatched are
      -- queued, with a worker or performed, the workers are those that were started, the count in flight
      -- is that of the operations begun and neither it nor its peak is above the limit, the queue is not
      -- above its depth, and no worker waits while it holds a job or returns before it is closed and empty.
      pub new_arrival_rate-IsConserved :
          {n : ℕ} {t : ArrivalRate f k} → Run f k c n s t → IsConserved f k t
      new_arrival_rate-IsConserved xs = Run-IsConserved f k c xs new-Starts.0

      -- From each point of a run at which the queue is closed, the executor can go on to an end at which
      -- every job that was dispatched is performed, every worker has returned and nothing is in flight.
      pub new_arrival_rate-Drains :
          {n : ℕ} {t : ArrivalRate f k} → Run f k c n s t → t.closed ≡ true → Drains t
      new_arrival_rate-Drains {t = t} xs h =
          let (p, w, _) = new-Starts in
          closed-Drains (left t) t (omega arith) (Run-IsConserved f k c xs p)
            (omega (arith, Run-sizes xs, w)) h
