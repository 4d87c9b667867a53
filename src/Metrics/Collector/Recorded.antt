-- ===== src/Metrics/Collector/Recorded.antt =====
-- `Record` counts an outcome once: on the timeline or as late, and in the run unless it is warm-up.
use tracepoint.Base.{
  ℕ, ◌+◌, ◌<◌, Bool, true, false, ◌≡◌, ◌≢◌, refl, sym, ap, subst, ◌∙◌, some, if◌then◌else◌, ◌==◌,
  ltb, arith, sum_below-change, Bool-cases, ==_iff, inl, inr, update,
}
use tracepoint.Base.Int.{ℤ, pos, negsuc}
use tracepoint.Base.Float.{Float}
use tracepoint.Metrics.Outcome.{Outcome}
use tracepoint.Metrics.Sketch.{Sketches}
use tracepoint.Metrics.Accum.{Accum, add}
use tracepoint.Metrics.Accum.Laws.{IsSound, Measure, add-IsSound, counting}
use tracepoint.Metrics.Collector.State.{Collector, Slot, label_count}
use tracepoint.Metrics.Collector.Recording.{
  set_slot, clamp_label, note_status, note_bucket, record_late, add_to_slot,
}
use tracepoint.Metrics.Collector.Invariant.{IsValid, Frame}
use tracepoint.Metrics.Collector.SealSlot.{weight}
use tracepoint.Metrics.Collector.Preserves.{set_slot-IsValid}
use tracepoint.Metrics.Collector.Kept.{
  share_at, always, from, timeline, measured, Kept, Kept-trans, Frame-Kept,
}
use tracepoint.Metrics.Collector.Claim.{set_slot-timeline, set_slot-measured}

unequal : (i j : ℕ) → i ≢ j → (i == j) ≡ false
unequal i j h = ground arith

module _ (f : Float) (k : Sketches f) where
  pub note_status-Frame :
      (o : Outcome) (c : Collector f k)
      → Frame f k c (note_status f k o c) × ((note_status f k o c).whole_labels ≡ c.whole_labels)
  unfolding note_status
  note_status-Frame o c = ground arith

  pub note_bucket-Frame :
      (idx : ℕ) (c : Collector f k)
      → Frame f k c (note_bucket f k idx c)
        × ((note_bucket f k idx c).whole_labels ≡ c.whole_labels)
  unfolding note_bucket
  note_bucket-Frame idx c = ground arith

  pub note_bucket-Kept :
      (idx : ℕ) (c : Collector f k) → IsValid f k c → Kept f k c (note_bucket f k idx c)
  note_bucket-Kept idx c h = let (u, e) = note_bucket-Frame idx c in Frame-Kept f k c _ u e h

  pub noted-Kept :
      (o : Outcome) (idx : ℕ) (c : Collector f k)
      → IsValid f k c
      → Kept f k c (note_bucket f k idx (note_status f k o c))
  noted-Kept o idx c h =
      let (u, e) = note_status-Frame o c in
      let s = Frame-Kept f k c _ u e h in Kept-trans f k c _ _ s (note_bucket-Kept idx _ s.valid)

  pub clamp_label-lt :
      (c : Collector f k) (l : ℤ) → 0 < label_count f k c → clamp_label f k c l < label_count f k c
  unfolding clamp_label
  clamp_label-lt c (pos n) h = ground arith
  clamp_label-lt c (negsuc n) h = omega arith

  -- What one outcome adds to a quantity of the run.
  abbrev pub credit : Measure f k → Collector f k → ℕ → Outcome → ℕ
  credit m c idx o = if ltb idx c.warmup_buckets then 0 else m.share o

  pub record Recorded (o : Outcome) (idx : ℕ) (c d : Collector f k) : Type 1 where
    pub valid : IsValid f k d
    pub ring_size : d.ring_size ≡ c.ring_size
    pub label_names : d.label_names ≡ c.label_names
    pub warmup_buckets : d.warmup_buckets ≡ c.warmup_buckets
    pub cfg : d.cfg ≡ c.cfg
    pub on_timeline : timeline f k d ≡ timeline f k c + 1
    pub in_run : (m : Measure f k) → measured f k m d ≡ measured f k m c + credit m c idx o

  pub Kept-Recorded :
      (o : Outcome) (idx : ℕ) (c d e : Collector f k)
      → Kept f k c d
      → Recorded o idx d e
      → Recorded o idx c e
  Kept-Recorded o idx c d e p q = record {
    valid = q.valid;
    ring_size = q.ring_size ∙ p.ring_size;
    label_names = q.label_names ∙ p.label_names;
    warmup_buckets = q.warmup_buckets ∙ p.warmup_buckets;
    cfg = q.cfg ∙ p.cfg;
    on_timeline = omega (arith, q.on_timeline, p.on_timeline);
    in_run = λ m. omega (
      arith,
      q.in_run m,
      p.in_run m,
      ap (λ (w : ℕ). if ltb idx w then 0 else m.share o) p.warmup_buckets,
    );
  }

  module _ (id : ℕ) (o : Outcome) (idx : ℕ) (c : Collector f k) (h : IsValid f k c)
      (l : id < label_count f k c) where
    counted_label :
        (j : ℕ) → IsSound f k (update c.whole_labels id (add f k o (c.whole_labels id)) j)
    counted_label j = pick (id == j)
      where
        pick :
            (b : Bool) → IsSound f k (if b then add f k o (c.whole_labels id) else c.whole_labels j)
        pick true = add-IsSound f k o (c.whole_labels id) (h.labels id)
        pick false = h.labels j

    warmup_late : Collector f k
    warmup_late = record c { late = c.late + 1 }

    steady_late : Collector f k
    steady_late = record c {
      late = c.late + 1;
      whole_labels = update c.whole_labels id (add f k o (c.whole_labels id));
      whole_runner = add f k o c.whole_runner;
    }

    warmup-Recorded : ltb idx c.warmup_buckets ≡ true → Recorded o idx c warmup_late
    unfolding warmup_late timeline measured
    warmup-Recorded e = record {
      valid = record {
        placed = h.placed;
        unsealed = h.unsealed;
        keys = h.keys;
        slots = h.slots;
        freed = h.freed;
        runner = h.runner;
        labels = h.labels;
        builds = h.builds;
        size = h.size;
        some_label = h.some_label;
      };
      ring_size = refl;
      label_names = refl;
      warmup_buckets = refl;
      cfg = refl;
      on_timeline = omega arith;
      in_run = λ m. rw e (omega arith);
    }

    steady-Recorded : ltb idx c.warmup_buckets ≡ false → Recorded o idx c steady_late
    unfolding steady_late timeline measured
    steady-Recorded e = record {
      valid = record {
        placed = h.placed;
        unsealed = h.unsealed;
        keys = h.keys;
        slots = h.slots;
        freed = h.freed;
        runner = add-IsSound f k o c.whole_runner h.runner;
        labels = counted_label;
        builds = h.builds;
        size = h.size;
        some_label = h.some_label;
      };
      ring_size = refl;
      label_names = refl;
      warmup_buckets = refl;
      cfg = refl;
      on_timeline = omega arith;
      in_run = λ m.
          omega (arith, m.of-add o c.whole_runner, ap (λ (b : Bool). if b then 0 else m.share o) e);
    }

    pub late-Recorded : Recorded o idx c (record_late f k id o idx c)
    unfolding record_late warmup_late steady_late
    late-Recorded = elim (Bool-cases (ltb idx c.warmup_buckets)) [
      | inl e ↦
          subst (Recorded o idx c)
            (sym (ap (λ (b : Bool). if b then warmup_late else steady_late) e)) (warmup-Recorded e)
      | inr e ↦
          subst (Recorded o idx c)
            (sym (ap (λ (b : Bool). if b then warmup_late else steady_late) e)) (steady-Recorded e)
    ]

    weight-added :
        (m : Measure f k) (s : Slot f k)
        → weight f k m.of (label_count f k c) (add_to_slot f k id o s)
          ≡ weight f k m.of (label_count f k c) s + m.share o
    weight-added m s =
        let here : (add_to_slot f k id o s).labels id ≡ add f k o (s.labels id) =
          ap (λ (b : Bool). if b then add f k o (s.labels id) else s.labels id)
            ((==_iff id id).1 refl) in
        omega (
          arith,
          m.of-add o (s.labels id),
          ap m.of here,
          sum_below-change (label_count f k c) id (λ j. m.of ((add_to_slot f k id o s).labels j))
              (λ j. m.of (s.labels j)) l
              (λ j e. ap m.of (
                ap (λ (b : Bool). if b then add f k o (s.labels id) else s.labels j)
                  (unequal id j e))),
        )

    -- The outcome is filed in the slot at place `i`, which holds its bucket.
    pub filed-Recorded :
        (i : ℕ)
        → i < c.ring_size
        → (c.ring i).index ≡ some idx
        → Recorded o idx c (set_slot f k i (add_to_slot f k id o (c.ring i)) c)
    unfolding counting
    filed-Recorded i b e =
        let s = add_to_slot f k id o (c.ring i) in
        let was = λ (p : ℕ → Bool) (of : Accum f k → ℕ) (t : Slot f k).
          ap (share_at p (weight f k of (label_count f k c) t)) e in
        record {
          valid =
              set_slot-IsValid f k i s c h (λ x p. (h.placed i x p, h.unsealed i x p)) sound
                (λ j p q. cc);
          ring_size = refl;
          label_names = refl;
          warmup_buckets = refl;
          cfg = refl;
          on_timeline = omega (
            arith,
            set_slot-timeline f k i s c b,
            weight-added (counting f k) (c.ring i),
            was always (λ a. a.n) (c.ring i),
            was always (λ a. a.n) s,
          );
          in_run = λ m. ground (
            arith,
            set_slot-measured f k i s c b m,
            weight-added m (c.ring i),
            was (from c.warmup_buckets) m.of (c.ring i),
            was (from c.warmup_buckets) m.of s,
          );
        }
      where
        sound : (j : ℕ) → IsSound f k ((add_to_slot f k id o (c.ring i)).labels j)
        sound j = pick (id == j)
          where
            pick :
                (b : Bool)
                → IsSound f k (if b then add f k o ((c.ring i).labels id) else (c.ring i).labels j)
            pick true = add-IsSound f k o ((c.ring i).labels id) (h.slots i id)
            pick false = h.slots i j
