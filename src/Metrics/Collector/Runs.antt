-- ===== src/Metrics/Collector/Runs.antt =====
-- A whole run: a new collector, any sequence of calls, and `Finish`. Nothing is lost or counted twice.
use tracepoint.Base.{ℕ, ◌+◌, ◌/◌, ◌≡◌, refl, ap, ◌∙◌, List, [], ◌∷◌, if◌then◌else◌, ltb, arith}
use mathlib.Core.Path.{ap₂}
use tracepoint.Base.Float.{Float}
use tracepoint.Base.Int.{ℤ, pos, negsuc, pos_part}
use tracepoint.Metrics.Outcome.{Outcome}
use tracepoint.Metrics.Sketch.{Sketches}
use tracepoint.Metrics.Accum.Laws.{Measure}
use tracepoint.Metrics.Collector.State.{Collector, Config, bucket_index_of}
use tracepoint.Metrics.Collector.Recording.{
  record_outcome, record_offered, record_dropped, observe_in_flight, seal_through,
}
use tracepoint.Metrics.Collector.Invariant.{IsValid}
use tracepoint.Metrics.Collector.Kept.{timeline, measured, Kept}
use tracepoint.Metrics.Collector.Recorded.{credit}
use tracepoint.Metrics.Collector.Conservation.{
  record_outcome-Recorded, record_offered-Kept, record_dropped-Kept, observe_in_flight-Kept,
  seal_through-Kept,
}

module _ (f : Float) (k : Sketches f) where
  -- A call that a worker, the arrival loop or the sweeper makes.
  pub data Call : Type 0 where
    record_call : Outcome → Call
    offered_call dropped_call : ℕ → Call
    in_flight_call : ℕ → ℕ → Call
    sweep_call : ℕ → Call

  unfoldable pub perform : Call → Collector f k → Collector f k
  perform (record_call o) c = record_outcome f k o c
  perform (offered_call i) c = record_offered f k i c
  perform (dropped_call i) c = record_dropped f k i c
  perform (in_flight_call i n) c = observe_in_flight f k i n c
  perform (sweep_call now) c = seal_through f k now c

  unfoldable pub run_calls : List Call → Collector f k → Collector f k
  run_calls [] c = c
  run_calls (x ∷ xs) c = run_calls xs (perform x c)

  -- The outcomes among the calls, and what they amount to after the warm-up.
  abbrev pub outcomes : List Call → ℕ
  outcomes [] = 0
  outcomes (record_call o ∷ xs) = 1 + outcomes xs
  outcomes (_ ∷ xs) = outcomes xs

  abbrev pub credits : Measure f k → Collector f k → List Call → ℕ
  credits m c [] = 0
  credits m c (record_call o ∷ xs) =
      credit f k m c (bucket_index_of f k c o.intended) o + credits m c xs
  credits m c (_ ∷ xs) = credits m c xs

  pub record Advanced (c d : Collector f k) (n : ℕ) (g : Measure f k → ℕ) : Type 1 where
    pub valid : IsValid f k d
    pub warmup_buckets : d.warmup_buckets ≡ c.warmup_buckets
    pub cfg : d.cfg ≡ c.cfg
    pub on_timeline : timeline f k d ≡ timeline f k c + n
    pub in_run : (m : Measure f k) → measured f k m d ≡ measured f k m c + g m

  of_Kept : (c d : Collector f k) → Kept f k c d → Advanced c d 0 (λ m. 0)
  of_Kept c d p = record {
    valid = p.valid;
    warmup_buckets = p.warmup_buckets;
    cfg = p.cfg;
    on_timeline = omega (arith, p.on_timeline);
    in_run = λ m. omega (arith, p.in_run m);
  }

  perform-Advanced :
      (x : Call) (c : Collector f k)
      → IsValid f k c
      → Advanced c (perform x c) (outcomes (x ∷ [])) (λ m. credits m c (x ∷ []))
  unfolding perform
  perform-Advanced (record_call o) c h =
      let r = record_outcome-Recorded f k o c h in
      record {
        valid = r.valid;
        warmup_buckets = r.warmup_buckets;
        cfg = r.cfg;
        on_timeline = omega (arith, r.on_timeline);
        in_run = λ m. omega (arith, r.in_run m);
      }
  perform-Advanced (offered_call i) c h = of_Kept c _ (record_offered-Kept f k i c h)
  perform-Advanced (dropped_call i) c h = of_Kept c _ (record_dropped-Kept f k i c h)
  perform-Advanced (in_flight_call i n) c h = of_Kept c _ (observe_in_flight-Kept f k i n c h)
  perform-Advanced (sweep_call now) c h = of_Kept c _ (seal_through-Kept f k now c h)

  index-congr :
      (c d : Collector f k) (t : ℤ)
      → d.cfg ≡ c.cfg
      → bucket_index_of f k d t ≡ bucket_index_of f k c t
  unfolding bucket_index_of
  index-congr c d (pos t) q = ap (λ (g : Config f k). t / pos_part g.bucket_width) q
  index-congr c d (negsuc t) q = refl

  -- Credits depend on the configuration alone.
  pub credits-congr :
      (m : Measure f k) (c d : Collector f k) (xs : List Call)
      → d.warmup_buckets ≡ c.warmup_buckets
      → d.cfg ≡ c.cfg
      → credits m d xs ≡ credits m c xs
  credits-congr m c d [] p q = refl
  credits-congr m c d (record_call o ∷ xs) p q =
      ap₂ ◌+◌ (ap₂ (λ i w. if ltb i w then 0 else m.share o) (index-congr c d o.intended q) p)
        (credits-congr m c d xs p q)
  credits-congr m c d (offered_call i ∷ xs) p q = credits-congr m c d xs p q
  credits-congr m c d (dropped_call i ∷ xs) p q = credits-congr m c d xs p q
  credits-congr m c d (in_flight_call i n ∷ xs) p q = credits-congr m c d xs p q
  credits-congr m c d (sweep_call n ∷ xs) p q = credits-congr m c d xs p q

  pub run_calls-Advanced :
      (xs : List Call) (c : Collector f k)
      → IsValid f k c
      → Advanced c (run_calls xs c) (outcomes xs) (λ m. credits m c xs)
  unfolding run_calls
  run_calls-Advanced [] c h = record {
    valid = h;
    warmup_buckets = refl;
    cfg = refl;
    on_timeline = omega arith;
    in_run = λ m. omega arith;
  }
  run_calls-Advanced (x ∷ xs) c h =
      let p = perform-Advanced x c h in
      let q = run_calls-Advanced xs (perform x c) p.valid in
      record {
        valid = q.valid;
        warmup_buckets = q.warmup_buckets ∙ p.warmup_buckets;
        cfg = q.cfg ∙ p.cfg;
        on_timeline = omega (arith, q.on_timeline, p.on_timeline, outcomes-cons x xs);
        in_run = λ m. omega (
          arith,
          q.in_run m,
          p.in_run m,
          credits-cons m c x xs,
          credits-congr m c (perform x c) xs p.warmup_buckets p.cfg,
        );
      }
    where
      outcomes-cons :
          (y : Call) (ys : List Call) → outcomes (y ∷ ys) ≡ outcomes (y ∷ []) + outcomes ys
      outcomes-cons (record_call o) ys = omega arith
      outcomes-cons y ys = omega arith

      credits-cons :
          (m : Measure f k) (d : Collector f k) (y : Call) (ys : List Call)
          → credits m d (y ∷ ys) ≡ credits m d (y ∷ []) + credits m d ys
      credits-cons m d (record_call o) ys = omega arith
      credits-cons m d y ys = omega arith
