-- ===== src/Metrics/Collector/Totals.antt =====
-- The collector's guarantee over a whole run: a new collector, any calls in any order, and `Finish`.
use tracepoint.Base.{
  ℕ, zero, suc, ◌<◌, Bool, true, false, ◌≡◌, refl, subst, ◌⊎◌, inl, inr, List, Option, none, some,
  ◌==◌, arith, sum_below, sum_below-zero, ==_iff,
}
use tracepoint.Base.Float.{Float}
use tracepoint.Errs.{ok}
use tracepoint.Metrics.Outcome.{Class}
use tracepoint.Metrics.Sketch.{Sketches}
use tracepoint.Metrics.Accum.{Accum}
use tracepoint.Metrics.Accum.Laws.{Measure, counting, counting_class, counting_bytes_in}
use tracepoint.Metrics.Collector.State.{Collector, Config, new_collector, label_count}
use tracepoint.Metrics.Collector.Sealing.{seal_slot}
use tracepoint.Metrics.Collector.Recording.{seal_any, seal_all, finish}
use tracepoint.Metrics.Collector.Invariant.{IsValid}
use tracepoint.Metrics.Collector.SealSlot.{seal_slot-Freed}
use tracepoint.Metrics.Collector.Kept.{measured, share, from}
use tracepoint.Metrics.Collector.Conservation.{seal_all-Kept, finish-Kept}
use tracepoint.Metrics.Collector.Start.{new_collector-Starts}
use tracepoint.Metrics.Collector.Runs.{Call, run_calls, credits, run_calls-Advanced}

module _ (f : Float) (k : Sketches f) where
  -- After the slots below `n` are sealed, none of them holds a bucket.
  seal_any-free :
      (i j : ℕ) (c : Collector f k)
      → IsValid f k c
      → ((i == j) ≡ true) ⊎ ((c.ring j).index ≡ none)
      → ((seal_any f k i c).ring j).index ≡ none
  unfolding seal_any
  seal_any-free i j c h p = at ((c.ring i).index) refl
    where
      at :
          (o : Option ℕ)
          → (c.ring i).index ≡ o
          → ((elim o as (λ z. Collector f k) [ none ↦ c | some idx ↦ seal_slot f k i idx c ]).ring
              j).index
            ≡ none
      at none e = elim p [
        | inl s ↦ subst (λ n. (c.ring n).index ≡ none) ((==_iff i j).0 s) e
        | inr q ↦ q
      ]
      at (some idx) e =
          let u = seal_slot-Freed f k (counting f k) i idx c h in ground (arith, u.ring j, u.free)

  seal_all-free :
      (n j : ℕ) (c : Collector f k)
      → IsValid f k c
      → j < n
      → ((seal_all f k n c).ring j).index ≡ none
  unfolding seal_all
  seal_all-free zero j c h p = absurd (omega arith)
  seal_all-free (suc n) j c h p =
      seal_any-free n j (seal_all f k n c) (seal_all-Kept f k n c h).valid
        (last (n == j) refl (seal_all-free n j c h))
    where
      last :
          (b : Bool)
          → (n == j) ≡ b
          → (j < n → ((seal_all f k n c).ring j).index ≡ none)
          → ((n == j) ≡ true) ⊎ (((seal_all f k n c).ring j).index ≡ none)
      last true e earlier = inl e
      last false e earlier = inr (earlier (ground arith))

  -- `Finish` leaves no bucket open.
  pub finish-free :
      (c : Collector f k)
      → IsValid f k c
      → (j : ℕ) → j < c.ring_size
      → ((finish f k c).ring j).index ≡ none
  unfolding finish
  finish-free c h j p = seal_all-free c.ring_size j c h p

  pub nothing_open :
      (p : ℕ → Bool) (of : Accum f k → ℕ) (c : Collector f k) (h : IsValid f k c) (l : ℕ)
      → sum_below (finish f k c).ring_size (λ j. share f k p of l ((finish f k c).ring j)) ≡ 0
  nothing_open p of c h l =
      sum_below-zero (finish f k c).ring_size _
        (λ j q. vacant j (finish-free c h j (rw (← (finish-Kept f k c h).ring_size) q)))
    where
      vacant :
          (j : ℕ)
          → ((finish f k c).ring j).index ≡ none
          → share f k p of l ((finish f k c).ring j) ≡ 0
      vacant j e = rw e

  module _ (cfg : Config f k) (c : Collector f k) (xs : List (Call f k))
      (new : new_collector f k cfg ≡ ok c) where
    abbrev done : Collector f k
    done = finish f k (run_calls f k xs c)

    measured_all : (m : Measure f k) → m.of done.whole_runner ≡ credits f k m c xs
    unfolding measured
    measured_all m =
        let (valid, _, empty) = new_collector-Starts f k cfg c new in
        let r = run_calls-Advanced f k xs c valid in
        omega (
          arith,
          empty m,
          r.in_run m,
          (finish-Kept f k _ r.valid).in_run m,
          nothing_open (from done.warmup_buckets) m.of (run_calls f k xs c) r.valid
              (label_count f k done),
        )

    -- After any calls and `Finish`, the whole-run figures of the runner - how many outcomes, how
    -- many of each class, how many bytes came in - are those of the recorded outcomes whose bucket
    -- is past the warm-up, each counted once, late ones included.
    pub finish-whole_runner :
        (done.whole_runner.n ≡ credits f k (counting f k) c xs)
        × ((e : Class) → done.whole_runner.errs e ≡ credits f k (counting_class f k e) c xs)
        × (done.whole_runner.bytes_in ≡ credits f k (counting_bytes_in f k) c xs)
    unfolding counting counting_class counting_bytes_in
    finish-whole_runner = (
      measured_all (counting f k),
      λ e. measured_all (counting_class f k e),
      measured_all (counting_bytes_in f k),
    )
