-- ===== src/Metrics/Collector/Kept.antt =====
-- The two totals that no call may lose from, and the calls that leave both alone: sealing a slot,
-- giving a free slot to a bucket, and both in turn.
use tracepoint.Base.{
  ℕ, ◌+◌, ◌<◌, Bool, true, false, not, ◌≡◌, refl, ap, subst, ◌∙◌, Option, none, some, if◌then◌else◌,
  ◌==◌, ltb, arith, sum_below, sum_below-change,
}
use native.Mathlib.Nat.{mod-lt}
use tracepoint.Base.Float.{Float}
use tracepoint.Metrics.Sketch.{Sketches}
use tracepoint.Metrics.Accum.{Accum}
use tracepoint.Metrics.Accum.Laws.{Measure, counting}
use tracepoint.Metrics.Collector.Maps.{sum_values, sum_values-insert}
use tracepoint.Metrics.Collector.State.{Collector, Slot, BucketSummary, label_count}
use tracepoint.Metrics.Collector.Sealing.{seal_slot}
use tracepoint.Metrics.Collector.Invariant.{IsValid, Frame}
use tracepoint.Metrics.Collector.SealSlot.{Freed, seal_slot-Freed, weight}
use tracepoint.Metrics.Collector.Preserves.{Freed-IsValid, Frame-IsValid}

-- What an open bucket counts for, if its index passes a test.
abbrev pub share_at : (ℕ → Bool) → ℕ → Option ℕ → ℕ
share_at p w none = 0
share_at p w (some x) = if p x then w else 0

abbrev pub always : ℕ → Bool
always x = true

abbrev pub from : ℕ → ℕ → Bool
from start x = not (ltb x start)

module _ (f : Float) (k : Sketches f) where
  abbrev pub share : (ℕ → Bool) → (Accum f k → ℕ) → ℕ → Slot f k → ℕ
  share p of l s = share_at p (weight f k of l s) s.index

  -- The outcomes that are on the timeline, will be, or were too late for it.
  unfoldable pub timeline : Collector f k → ℕ
  timeline c =
      sum_values (λ (b : BucketSummary f k). b.n) c.buckets
      + sum_below c.ring_size (λ i. share always (λ a. a.n) (label_count f k c) (c.ring i))
      + c.late

  -- A quantity of the run's outcomes after the warm-up, sealed or not.
  unfoldable pub measured : Measure f k → Collector f k → ℕ
  measured m c =
      m.of c.whole_runner
      + sum_below c.ring_size
          (λ i. share (from c.warmup_buckets) m.of (label_count f k c) (c.ring i))

  pub record Kept (c d : Collector f k) : Type 1 where
    pub valid : IsValid f k d
    pub ring_size : d.ring_size ≡ c.ring_size
    pub label_names : d.label_names ≡ c.label_names
    pub warmup_buckets : d.warmup_buckets ≡ c.warmup_buckets
    pub cfg : d.cfg ≡ c.cfg
    pub on_timeline : timeline d ≡ timeline c
    pub in_run : (m : Measure f k) → measured m d ≡ measured m c

  pub Kept-trans : (c d e : Collector f k) → Kept c d → Kept d e → Kept c e
  Kept-trans c d e p q = record {
    valid = q.valid;
    ring_size = q.ring_size ∙ p.ring_size;
    label_names = q.label_names ∙ p.label_names;
    warmup_buckets = q.warmup_buckets ∙ p.warmup_buckets;
    cfg = q.cfg ∙ p.cfg;
    on_timeline = q.on_timeline ∙ p.on_timeline;
    in_run = λ m. q.in_run m ∙ p.in_run m;
  }

  pub Kept-refl : (c : Collector f k) → IsValid f k c → Kept c c
  Kept-refl c h = record {
    valid = h;
    ring_size = refl;
    label_names = refl;
    warmup_buckets = refl;
    cfg = refl;
    on_timeline = refl;
    in_run = λ m. refl;
  }

  pub Frame-Kept :
      (c d : Collector f k)
      → Frame f k c d
      → d.whole_labels ≡ c.whole_labels
      → IsValid f k c
      → Kept c d
  unfolding timeline measured
  Frame-Kept c d u e h = record {
    valid = Frame-IsValid f k c d u e h;
    ring_size = u.ring_size;
    label_names = u.label_names;
    warmup_buckets = u.warmup_buckets;
    cfg = u.cfg;
    on_timeline = rw (u.buckets, u.ring_size, u.ring, u.label_names, u.late);
    in_run = λ m. rw (u.whole_runner, u.ring_size, u.ring, u.label_names, u.warmup_buckets);
  }

  -- Changing the slot at one place changes the sum over the open buckets by the difference.
  pub change :
      (p : ℕ → Bool) (of : Accum f k → ℕ) (n l i : ℕ) (q r : ℕ → Slot f k)
      → i < n
      → ((j : ℕ) → (i == j) ≡ false → q j ≡ r j)
      → sum_below n (λ j. share p of l (q j)) + share p of l (r i)
        ≡ sum_below n (λ j. share p of l (r j)) + share p of l (q i)
  change p of n l i q r b h =
      sum_below-change n i (λ j. share p of l (q j)) (λ j. share p of l (r j)) b
        (λ j e. ap (share p of l) (h j (ground arith)))

  module _ (i idx : ℕ) (c : Collector f k) (h : IsValid f k c)
      (e : (c.ring i).index ≡ some idx) where
    in_ring : i < c.ring_size
    in_ring = subst (λ j. j < c.ring_size) (h.placed i idx e) (mod-lt idx h.size)

    module _ (d : Collector f k) (u : (m : Measure f k) → Freed f k m i idx c d) where
      u1 : Freed f k (counting f k) i idx c d
      u1 = u (counting f k)

      now_free : (p : ℕ → Bool) (of : Accum f k → ℕ) (l : ℕ) → share p of l (d.ring i) ≡ 0
      now_free p of l = ground (arith, u1.ring i, u1.free)

      was_open :
          (p : ℕ → Bool) (of : Accum f k → ℕ) (l : ℕ)
          → share p of l (c.ring i) ≡ (if p idx then weight f k of l (c.ring i) else 0)
      was_open p of l = ap (share_at p (weight f k of l (c.ring i))) e

      others : (j : ℕ) → (i == j) ≡ false → d.ring j ≡ c.ring j
      others j q = u1.ring j ∙ rw q

      same_sum :
          (p : ℕ → Bool) (of : Accum f k → ℕ)
          → sum_below d.ring_size (λ j. share p of (label_count f k d) (d.ring j))
            ≡ sum_below c.ring_size (λ j. share p of (label_count f k c) (d.ring j))
      same_sum p of = rw (u1.ring_size, u1.label_names)

      open_sum :
          (p : ℕ → Bool) (of : Accum f k → ℕ)
          → sum_below d.ring_size (λ j. share p of (label_count f k d) (d.ring j))
              + (if p idx then weight f k of (label_count f k c) (c.ring i) else 0)
            ≡ sum_below c.ring_size (λ j. share p of (label_count f k c) (c.ring j))
      open_sum p of =
          let l = label_count f k c in
          omega (
            arith,
            same_sum p of,
            change p of c.ring_size l i d.ring c.ring in_ring others,
            now_free p of l,
            was_open p of l,
          )

      sealed_timeline : timeline d ≡ timeline c
      unfolding timeline
      sealed_timeline = omega (
        arith,
        open_sum always (λ a. a.n),
        u1.late,
        u1.summary_n,
        ap (sum_values (λ (b : BucketSummary f k). b.n)) u1.buckets,
        sum_values-insert (λ (b : BucketSummary f k). b.n) idx u1.summary c.buckets
            (h.unsealed i idx e),
      )

      sealed_measured : (m : Measure f k) → measured m d ≡ measured m c
      unfolding measured
      sealed_measured m =
          rw ((u m).warmup_buckets)
            (ground (arith, (u m).runner, open_sum (from c.warmup_buckets) m.of))

      Freed-Kept : Kept c d
      Freed-Kept = record {
        valid = Freed-IsValid f k i idx c d h u1 e;
        ring_size = u1.ring_size;
        label_names = u1.label_names;
        warmup_buckets = u1.warmup_buckets;
        cfg = u1.cfg;
        on_timeline = sealed_timeline;
        in_run = sealed_measured;
      }

    pub seal_slot-Kept : Kept c (seal_slot f k i idx c)
    seal_slot-Kept = Freed-Kept (seal_slot f k i idx c) (λ m. seal_slot-Freed f k m i idx c h)
