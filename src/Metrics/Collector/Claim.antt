-- ===== src/Metrics/Collector/Claim.antt =====
-- A bucket's slot is made ready for it: `claim` loses nothing, and yields the bucket's slot.
use native.Mathlib.Nat.{mod-lt}
use tracepoint.Base.{
  ℕ, ◌+◌, ◌%◌, ◌<◌, Bool, false, ◌≡◌, refl, sym, ap, subst, ◌∙◌, Option, none, some, if◌then◌else◌,
  ◌==◌, ltb, ltb→lt, arith, sum_below, sum_below-zero, Bool-cases, ==_iff, inl, inr,
}
use mathlib.Core.Option.{some-injective}
use tracepoint.Base.Float.{Float}
use tracepoint.Metrics.Sketch.{Sketches}
use tracepoint.Metrics.Accum.{Accum}
use tracepoint.Metrics.Accum.Laws.{Measure}
use tracepoint.Metrics.Collector.Maps.{lookup}
use tracepoint.Metrics.Collector.State.{Collector, Slot, label_count, covered, raise}
use tracepoint.Metrics.Collector.Sealing.{seal_slot}
use tracepoint.Metrics.Collector.Recording.{set_slot, place, open_slot, claim_at, claim}
use tracepoint.Metrics.Collector.Invariant.{IsValid}
use tracepoint.Metrics.Accum.Laws.{counting}
use tracepoint.Metrics.Collector.SealSlot.{seal_slot-Freed, weight}
use tracepoint.Metrics.Collector.Preserves.{set_slot-IsValid}
use tracepoint.Metrics.Collector.Kept.{
  share, share_at, always, from, timeline, measured, Kept, Kept-trans, Kept-refl, change,
  seal_slot-Kept,
}

covered-raise_lt :
    (o : Option ℕ) (i j : ℕ) → i < j → covered o j ≡ false → covered (raise o i) j ≡ false
covered-raise_lt o i j p h = ground arith

module _ (f : Float) (k : Sketches f) where
  -- A slot put back in its place changes the totals by what it holds.
  module _ (i : ℕ) (s : Slot f k) (c : Collector f k) (b : i < c.ring_size) where
    put_sum :
        (p : ℕ → Bool) (of : Accum f k → ℕ)
        → sum_below c.ring_size
              (λ j. share f k p of (label_count f k c) ((set_slot f k i s c).ring j))
            + share f k p of (label_count f k c) (c.ring i)
          ≡ sum_below c.ring_size (λ j. share f k p of (label_count f k c) (c.ring j))
            + share f k p of (label_count f k c) s
    put_sum p of =
        let l = label_count f k c in
        let d = set_slot f k i s c in
        let here : d.ring i ≡ s = rw ((==_iff i i).1 refl) in
        omega (
          arith,
          ap (share f k p of l) here,
          change f k p of c.ring_size l i d.ring c.ring b (λ j e. rw e),
        )

    pub set_slot-timeline :
        timeline f k (set_slot f k i s c)
          + share f k always (λ a. a.n) (label_count f k c) (c.ring i)
        ≡ timeline f k c + share f k always (λ a. a.n) (label_count f k c) s
    unfolding timeline
    set_slot-timeline = omega (arith, put_sum always (λ a. a.n))

    pub set_slot-measured :
        (m : Measure f k)
        → measured f k m (set_slot f k i s c)
            + share f k (from c.warmup_buckets) m.of (label_count f k c) (c.ring i)
          ≡ measured f k m c + share f k (from c.warmup_buckets) m.of (label_count f k c) s
    unfolding measured
    set_slot-measured m = omega (arith, put_sum (from c.warmup_buckets) m.of)

  module _ (idx : ℕ) (c : Collector f k) (h : IsValid f k c)
      (new : covered c.sealed_above idx ≡ false) where
    pub place-lt : place f k c idx < c.ring_size
    place-lt = mod-lt idx h.size

    module _ (e : (c.ring (place f k c idx)).index ≡ none) where
      fits :
          (x : ℕ)
          → some idx ≡ some x
          → (x % c.ring_size ≡ place f k c idx) × (lookup x c.buckets ≡ none)
      fits x p =
          subst (λ y. (y % c.ring_size ≡ place f k c idx) × (lookup y c.buckets ≡ none))
            (some-injective idx x p) (refl, h.keys idx new)

      open-IsValid : IsValid f k (open_slot f k (place f k c idx) idx c)
      unfolding open_slot
      open-IsValid =
          set_slot-IsValid f k (place f k c idx)
            (record (c.ring (place f k c idx)) { index = some idx }) c h fits
            (h.slots (place f k c idx)) (λ id p q. cc)

      empty : (m : Measure f k) → weight f k m.of (label_count f k c) (c.ring (place f k c idx)) ≡ 0
      empty m =
          sum_below-zero (label_count f k c) _
            (λ id q. m.of-idle _ (h.slots (place f k c idx) id) (h.freed (place f k c idx) id e q))

      was_nothing :
          (p : ℕ → Bool) (of : Accum f k → ℕ) (l : ℕ)
          → share f k p of l (c.ring (place f k c idx)) ≡ 0
      was_nothing p of l = ap (share_at p (weight f k of l (c.ring (place f k c idx)))) e

      pub open_slot-Kept : Kept f k c (open_slot f k (place f k c idx) idx c)
      unfolding open_slot counting
      open_slot-Kept =
          let i = place f k c idx in
          let s : Slot f k = record (c.ring i) { index = some idx } in
          record {
            valid = open-IsValid;
            ring_size = refl;
            label_names = refl;
            warmup_buckets = refl;
            cfg = refl;
            on_timeline = ground (
              arith,
              set_slot-timeline i s c place-lt,
              empty (counting f k),
              was_nothing always (λ a. a.n) (label_count f k c),
            );
            in_run = λ m. ground (
              arith,
              set_slot-measured i s c place-lt m,
              empty m,
              was_nothing (from c.warmup_buckets) m.of (label_count f k c),
            );
          }

  open_slot-index :
      (i idx : ℕ) (c : Collector f k) → ((open_slot f k i idx c).ring i).index ≡ some idx
  unfolding open_slot
  open_slot-index i idx c =
      ap (λ (b : Bool). (if b then record (c.ring i) { index = some idx } else c.ring i).index)
        ((==_iff i i).1 refl)

  -- A slot made ready holds the bucket, and nothing was lost on the way.
  pub record Ready (idx : ℕ) (c d : Collector f k) : Type 1 where
    pub kept : Kept f k c d
    pub index : (d.ring (place f k c idx)).index ≡ some idx

  module _ (idx : ℕ) (c : Collector f k) (h : IsValid f k c)
      (new : covered c.sealed_above idx ≡ false) where
    Ready-free :
        (c.ring (place f k c idx)).index ≡ none
        → Ready idx c (open_slot f k (place f k c idx) idx c)
    Ready-free e = record {
      kept = open_slot-Kept idx c h new e;
      index = open_slot-index (place f k c idx) idx c;
    }

    Ready-older :
        (j : ℕ)
        → j < idx
        → (c.ring (place f k c idx)).index ≡ some j
        → Ready idx c (open_slot f k (place f k c idx) idx (seal_slot f k (place f k c idx) j c))
    Ready-older j p e =
        let i = place f k c idx in
        let d = seal_slot f k i j c in
        let u = seal_slot-Freed f k (counting f k) i j c h in
        let s = seal_slot-Kept f k i j c h e in
        let at : place f k d idx ≡ i = ap (λ n. idx % n) u.ring_size in
        let gone : (d.ring i).index ≡ none =
          ap (λ (t : Slot f k). t.index) (u.ring i)
          ∙ ap (λ (b : Bool). (if b then u.slot else c.ring i).index) ((==_iff i i).1 refl)
          ∙ u.free in
        let later : covered d.sealed_above idx ≡ false =
          ap (λ o. covered o idx) u.sealed_above ∙ covered-raise_lt c.sealed_above j idx p new in
        record {
          kept = Kept-trans f k c d _ s (
              subst (λ n. Kept f k d (open_slot f k n idx d)) at
                (open_slot-Kept idx d s.valid later
                  (subst (λ n. (d.ring n).index ≡ none) (sym at) gone)));
          index = open_slot-index i idx d;
        }

    Ready-same : (c.ring (place f k c idx)).index ≡ some idx → Ready idx c c
    Ready-same e = record { kept = Kept-refl f k c h; index = e }

    claim_at-Ready :
        (o : Option ℕ) (d : Collector f k)
        → (c.ring (place f k c idx)).index ≡ o
        → claim_at f k o (place f k c idx) idx c ≡ some d
        → Ready idx c d
    unfolding claim_at
    claim_at-Ready none d e p = subst (Ready idx c) (some-injective _ _ p) (Ready-free e)
    claim_at-Ready (some j) d e p = elim (Bool-cases (j == idx)) [
      | inl same ↦
          subst (Ready idx c) (some-injective _ _ (rw same at p))
            (Ready-same (e ∙ ap some ((==_iff j idx).0 same)))
      | inr other ↦ elim (Bool-cases (ltb j idx)) [
        | inl older ↦
            subst (Ready idx c) (some-injective _ _ (rw (other, older) at p))
              (Ready-older j (ltb→lt _ _ older) e)
        | inr newer ↦ cc (rw (other, newer) at p)
      ]
    ]

    -- Whatever the slot held, if the claim succeeds then it is ready.
    pub claim-Ready : (d : Collector f k) → claim f k idx c ≡ some d → Ready idx c d
    unfolding claim
    claim-Ready d e = claim_at-Ready ((c.ring (place f k c idx)).index) d refl e
