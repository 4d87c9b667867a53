-- ===== src/Executor/Conserved.antt =====
-- What holds of the executor at every point of a run, whatever the interleaving.
use tracepoint.Base.{
  ℕ, zero, suc, ◌+◌, ◌-◌, ◌≤◌, ◌<◌, ◌≡◌, ◌⊎◌, inl, inr, refl, Bool, true, false, List, [], ◌∷◌,
  ◌++◌, length, length-append, ltb, arith, Bool-cases, Option, none, some, ap, subst, All,
}
use tracepoint.Base.Float.{Float}
use tracepoint.Metrics.Sketch.{Sketches, zero_f}
use tracepoint.Metrics.Collector.State.{Collector}
use tracepoint.Base.Int.{ℤ, pos, negsuc}
use tracepoint.Errs.{Result, ok, err, OnOk, error, internal}
use tracepoint.Executor.{
  ArrivalRate, Job, offer, send, counted, idle, with_lag, new_arrival_rate, max_in_flight_or,
  queue_depth_or,
}
use tracepoint.Executor.Lag.{LagTracker, add_lag, added, new_lag_tracker}
use tracepoint.Executor.Steps.{
  Step, offering, closing, blocking, receiving, leaving, waking, beginning, noticing, finishing,
  Run, stay, more,
}

module _ (f : Float) (k : Sketches f) where
  -- The workers that have a job.
  abbrev pub busy : ArrivalRate f k → ℕ
  busy s = length s.held + length s.noting + length s.active

  abbrev Below : ℕ → ℕ × Job → Type 0
  Below m p = p.0 ≤ m

  pub record IsConserved (s : ArrivalRate f k) : Type 0 where
    pub arrivals : s.offered ≡ s.dispatched + s.dropped
    pub jobs : s.dispatched ≡ length s.queue + busy s + s.performed
    pub workers : s.ready + s.waiting + s.stopped + busy s ≡ s.max_in_flight
    pub flying : s.in_flight ≡ length s.noting + length s.active
    pub room : length s.queue ≤ s.queue_depth
    pub blocked : (s.waiting ≡ 0) ⊎ (length s.queue ≡ 0)
    pub ended : (s.stopped ≡ 0) ⊎ ((length s.queue ≡ 0) × (s.closed ≡ true))
    pub noted : All (Below s.max_in_flight) s.noting
    pub peak : s.peak_in_flight ≤ s.max_in_flight
    pub lags : s.lag.n ≤ s.offered

  n-add_lag : (d : ℕ) (l : LagTracker f k) → (add_lag f k d l).n ≤ suc l.n
  unfolding add_lag
  n-add_lag d l = n-added _ (k.add l.sketch _)
    where
      n-added : (m : f.F) (s : Option k.S) → (added f k m s l).n ≤ suc l.n
      n-added m none = omega arith
      n-added m (some s) = omega arith

  pub length-split :
      {A : Type 0} (xs : List A) (j : A) (ys : List A)
      → length (xs ++ j ∷ ys) ≡ suc (length (xs ++ ys))
  length-split xs j ys = omega (arith, length-append xs (j ∷ ys), length-append xs ys)

  All-split :
      {A : Type 0} (P : A → Type 0) (xs : List A) (y : A) (ys : List A)
      → All P (xs ++ y ∷ ys)
      → P y × All P (xs ++ ys)
  All-split P [] y ys h = h
  All-split P (x ∷ xs) y ys (a, h) = let (b, r) = All-split P xs y ys h in (b, (a, r))

  send-IsConserved :
      (bucket at now : ℕ) (j : Job) (s : ArrivalRate f k)
      → s.closed ≡ false
      → IsConserved s
      → IsConserved (send f k bucket j s.waiting (counted f k bucket at now s))
  send-IsConserved bucket at now j s o p = go s.waiting refl
    where
      go : (w : ℕ) → s.waiting ≡ w → IsConserved (send f k bucket j w (counted f k bucket at now s))
      go (suc w) e = let l = n-add_lag (now - at) s.lag in ground arith
      go zero e = elim (Bool-cases (ltb (length s.queue) s.queue_depth)) [
        | inl b ↦ rw b (
            let l = n-add_lag (now - at) s.lag in
            let q = length-append s.queue (j ∷ []) in ground arith)
        | inr b ↦ rw b (let l = n-add_lag (now - at) s.lag in ground arith)
      ]

  module _ (c : Collector f k) where
    pub step-IsConserved : (s t : ArrivalRate f k) → Step f k c s t → IsConserved s → IsConserved t
    unfolding offer
    step-IsConserved s t (offering at now o) p = send-IsConserved _ at now _ s o p
    step-IsConserved s t (closing o) p = ground arith
    step-IsConserved s t (blocking r h q o) p = let e = ap length q in ground arith
    step-IsConserved s t (receiving r j q h e) p = let z = ap length e in ground arith
    step-IsConserved s t (leaving r h q o) p = let e = ap length q in ground arith
    step-IsConserved s t (waking w h o) p = ground arith
    step-IsConserved s t (beginning xs j ys e) p =
        let z = ap length e in let y = length-split xs j ys in ground arith
    step-IsConserved s t (noticing xs n j ys e) p =
        let z = ap length e in
        let y = length-split xs (n, j) ys in
        let (a, b) =
          All-split (Below s.max_in_flight) xs (n, j) ys
            (subst (All (Below s.max_in_flight)) e p.noted) in
        ground arith
    step-IsConserved s t (finishing xs j ys os e) p =
        let z = ap length e in let y = length-split xs j ys in ground arith

    pub Run-IsConserved :
        {n : ℕ} {s t : ArrivalRate f k} → Run f k c n s t → IsConserved s → IsConserved t
    Run-IsConserved stay p = p
    Run-IsConserved (more x xs) p = Run-IsConserved xs (step-IsConserved _ _ x p)

  abbrev pub Starts : ArrivalRate f k → Type 0
  Starts s = IsConserved s × (0 < s.max_in_flight) × (s.closed ≡ false)

  max_in_flight_or-positive : (size : ℤ) → 0 < max_in_flight_or size
  max_in_flight_or-positive (pos zero) = omega arith
  max_in_flight_or-positive (pos (suc n)) = omega arith
  max_in_flight_or-positive (negsuc n) = omega arith

  idle-Starts : (m d : ℕ) (l : LagTracker f k) → 0 < m → l.n ≡ 0 → Starts (idle f k m d l)
  idle-Starts m d l h e = ground arith

  OnOk-new_lag_tracker : OnOk (λ l. l.n ≡ 0) (new_lag_tracker f k)
  unfolding new_lag_tracker
  OnOk-new_lag_tracker = go (k.new (f.lit 1 2))
    where
      go :
          (o : Option k.S)
          → OnOk
              (λ (l : LagTracker f k). l.n ≡ 0)
              (elim o as (λ _. Result (LagTracker f k)) [
                | none ↦ err (error internal "")
                | some s ↦ ok (record { sketch = s; n = 0; sum = zero_f f; max = zero_f f })
              ])
      go none = tt
      go (some s) = refl

  pub OnOk-new_arrival_rate :
      (runner schedule collector clock : Bool) (size depth : ℤ)
      → OnOk Starts (new_arrival_rate f k runner schedule collector clock size depth)
  unfolding new_arrival_rate
  OnOk-new_arrival_rate false schedule collector clock size depth = tt
  OnOk-new_arrival_rate true false collector clock size depth = tt
  OnOk-new_arrival_rate true true false clock size depth = tt
  OnOk-new_arrival_rate true true true false size depth = tt
  OnOk-new_arrival_rate true true true true size depth =
      go (new_lag_tracker f k) OnOk-new_lag_tracker
    where
      go :
          (r : Result (LagTracker f k))
          → OnOk (λ l. l.n ≡ 0) r
          → OnOk Starts (with_lag f k (max_in_flight_or size) (queue_depth_or depth) r)
      go (err e) h = tt
      go (ok l) h =
          idle-Starts (max_in_flight_or size) (queue_depth_or depth) l
            (max_in_flight_or-positive size) h
