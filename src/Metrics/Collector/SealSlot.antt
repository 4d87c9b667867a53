-- ===== src/Metrics/Collector/SealSlot.antt =====
-- What `sealSlotLocked` does to a collector, in the terms that the other proofs use.
use tracepoint.Base.{
  ℕ, ◌+◌, ◌<◌, Bool, true, false, ◌≡◌, refl, sym, ap, subst, ◌∙◌, none, some, if◌then◌else◌, ◌==◌,
  ltb, arith, update, sum_below,
}
use tracepoint.Base.Float.{Float}
use tracepoint.Metrics.Sketch.{Sketches}
use tracepoint.Metrics.Accum.{Accum, new_accum, merge_into}
use tracepoint.Metrics.Accum.Laws.{IsSound, Measure, counting, merge_into-IsSound}
use tracepoint.Metrics.Collector.Maps.{insert}
use tracepoint.Metrics.Collector.State.{Collector, Slot, BucketSummary, label_count, raise}
use tracepoint.Metrics.Collector.Sealing.{
  Sealing, seal_labels, bucket_summary, label_summary, merge_runner, seal_slot,
}
use tracepoint.Metrics.Collector.Invariant.{IsValid}
use tracepoint.Metrics.Collector.SealLoop.{Sealed, Sealed-start, seal_labels-Sealed}

module _ (f : Float) (k : Sketches f) where
  -- What a slot's labels add up to.
  abbrev pub weight : (Accum f k → ℕ) → ℕ → Slot f k → ℕ
  weight of count s = sum_below count (λ id. of (s.labels id))

  pub record Freed (m : Measure f k) (i idx : ℕ) (c d : Collector f k) : Type 0 where
    pub cfg : d.cfg ≡ c.cfg
    pub label_names : d.label_names ≡ c.label_names
    pub warmup_buckets : d.warmup_buckets ≡ c.warmup_buckets
    pub ring_size : d.ring_size ≡ c.ring_size
    pub late : d.late ≡ c.late
    pub sealed_above : d.sealed_above ≡ raise c.sealed_above idx
    pub slot : Slot f k
    pub ring : (j : ℕ) → d.ring j ≡ (if i == j then slot else c.ring j)
    pub free : slot.index ≡ none
    pub emptied : (id : ℕ) → id < label_count f k c → (slot.labels id).n ≡ 0
    pub sound : (id : ℕ) → IsSound f k (slot.labels id)
    pub summary : BucketSummary f k
    pub buckets : d.buckets ≡ insert idx summary c.buckets
    pub summary_n : summary.n ≡ weight (λ a. a.n) (label_count f k c) (c.ring i)
    pub runner :
        m.of d.whole_runner
        ≡ m.of c.whole_runner
          + (if ltb idx c.warmup_buckets then 0 else weight m.of (label_count f k c) (c.ring i))
    pub runner_sound : IsSound f k d.whole_runner
    pub labels :
        (id : ℕ)
        → id < label_count f k c
        → m.of (d.whole_labels id)
          ≡ m.of (c.whole_labels id)
            + (if ltb idx c.warmup_buckets then 0 else m.of ((c.ring i).labels id))
    pub labels_sound : (id : ℕ) → IsSound f k (d.whole_labels id)

  merge_runner-Frame :
      (w : Bool) (r : Accum f k) (c : Collector f k)
      → ((merge_runner f k w (some r) c).whole_runner
          ≡ (if w then c.whole_runner else (merge_into f k r c.whole_runner).0))
        × ((merge_runner f k w (some r) c).whole_labels ≡ c.whole_labels)
        × ((merge_runner f k w (some r) c).cfg ≡ c.cfg)
        × ((merge_runner f k w (some r) c).label_names ≡ c.label_names)
        × ((merge_runner f k w (some r) c).warmup_buckets ≡ c.warmup_buckets)
        × ((merge_runner f k w (some r) c).ring_size ≡ c.ring_size)
        × ((merge_runner f k w (some r) c).late ≡ c.late)
        × ((merge_runner f k w (some r) c).sealed_above ≡ c.sealed_above)
        × ((merge_runner f k w (some r) c).ring ≡ c.ring)
        × ((merge_runner f k w (some r) c).buckets ≡ c.buckets)
  unfolding merge_runner
  merge_runner-Frame true r c = (refl, refl, refl, refl, refl, refl, refl, refl, refl, refl)
  merge_runner-Frame false r c = (refl, refl, refl, refl, refl, refl, refl, refl, refl, refl)

  bucket_summary-n :
      (c : Collector f k) (idx : ℕ) (w : Bool) (s : Slot f k) (r : Accum f k)
      → (bucket_summary f k c idx w s (some r)).n ≡ r.n
  unfolding bucket_summary label_summary
  bucket_summary-n c idx w s r = refl

  module _ (m : Measure f k) (i idx : ℕ) (c : Collector f k) (h : IsValid f k c) where
    w : Bool
    w = ltb idx c.warmup_buckets

    start : Sealing f k
    start = record {
      collector = c;
      labels = (c.ring i).labels;
      roll = new_accum f k c.cfg.relative_accuracy;
    }

    st : Sealing f k
    unfolding start w
    st = seal_labels f k idx w (label_count f k c) start

    done : (q : Measure f k) → Sealed f k q w c (c.ring i).labels (label_count f k c) st
    unfolding st start w
    done q =
        let (r, e) = h.builds in
        seal_labels-Sealed f k q w c (c.ring i).labels idx (label_count f k c) start (
          subst
            (λ o.
              Sealed f k q w c (c.ring i).labels 0
                (record { collector = c; labels = (c.ring i).labels; roll = o }))
            (sym e) (Sealed-start f k q w c (c.ring i).labels r e (h.slots i) h.labels))

    fin : Collector f k
    unfolding st start w
    fin = merge_runner f k w st.roll st.collector

    fin-at : fin ≡ merge_runner f k w (some ((done m).roll)) st.collector
    unfolding fin
    fin-at = ap (λ o. merge_runner f k w o st.collector) (done m).rolled

    summary : BucketSummary f k
    unfolding st start w
    summary = bucket_summary f k c idx w (c.ring i) st.roll

    summary-n : summary.n ≡ weight (λ a. a.n) (label_count f k c) (c.ring i)
    unfolding summary counting
    summary-n =
        let q = counting f k in
        ap (λ o. (bucket_summary f k c idx w (c.ring i) o).n) (done q).rolled
        ∙ bucket_summary-n c idx w (c.ring i) (done q).roll
        ∙ (done q).roll_of

    runner-of :
        m.of fin.whole_runner
        ≡ m.of c.whole_runner + (if w then 0 else weight m.of (label_count f k c) (c.ring i))
    runner-of =
        ap (λ (d : Collector f k). m.of d.whole_runner) fin-at
        ∙ ap m.of (merge_runner-Frame w (done m).roll st.collector).0
        ∙ pick w
      where
        pick :
            (b : Bool)
            → m.of (
                if b
                then st.collector.whole_runner
                else (merge_into f k (done m).roll st.collector.whole_runner).0)
              ≡ m.of c.whole_runner + (if b then 0 else weight m.of (label_count f k c) (c.ring i))
        pick true = omega (arith, ap m.of (done m).frame.whole_runner)
        pick false = omega (
          arith,
          ap m.of (done m).frame.whole_runner,
          (done m).roll_of,
          m.of-merge (done m).roll st.collector.whole_runner (done m).roll_sound,
        )

    runner-IsSound : IsSound f k fin.whole_runner
    runner-IsSound =
        subst (λ (d : Collector f k). IsSound f k d.whole_runner) (sym fin-at)
          (subst (IsSound f k) (sym (merge_runner-Frame w (done m).roll st.collector).0) (pick w))
      where
        old : IsSound f k st.collector.whole_runner
        old = subst (IsSound f k) (sym (done m).frame.whole_runner) h.runner

        pick :
            (b : Bool)
            → IsSound f k (
                if b
                then st.collector.whole_runner
                else (merge_into f k (done m).roll st.collector.whole_runner).0)
        pick true = old
        pick false =
            merge_into-IsSound f k (done m).roll st.collector.whole_runner (done m).roll_sound old

    -- A part of the final collector that merging the roll-up leaves alone.
    kept :
        {A : Type 0} (g : Collector f k → A)
        → g (merge_runner f k w (some ((done m).roll)) st.collector) ≡ g st.collector
        → g st.collector ≡ g c
        → g fin ≡ g c
    kept g p q = ap g fin-at ∙ p ∙ q

    labels_at : (id : ℕ) → fin.whole_labels id ≡ st.collector.whole_labels id
    labels_at id =
        ap (λ (d : Collector f k). d.whole_labels id) fin-at
        ∙ ap (λ (g : ℕ → Accum f k). g id) (merge_runner-Frame w (done m).roll st.collector).1

    labels-of :
        (id : ℕ)
        → id < label_count f k c
        → m.of (fin.whole_labels id)
          ≡ m.of (c.whole_labels id) + (if w then 0 else m.of ((c.ring i).labels id))
    labels-of id p = ap m.of (labels_at id) ∙ (done m).whole id ∙ ground arith

    labels-IsSound : (id : ℕ) → IsSound f k (fin.whole_labels id)
    labels-IsSound id = subst (IsSound f k) (sym (labels_at id)) ((done m).whole_sound id)

    pub seal_slot-Freed : Freed m i idx c (seal_slot f k i idx c)
    unfolding seal_slot fin summary st start w
    seal_slot-Freed =
        let r = merge_runner-Frame w (done m).roll st.collector in
        let u = (done m).frame in
        record {
          cfg = kept (λ d. d.cfg) r.2 u.cfg;
          label_names = kept (λ d. d.label_names) r.3 u.label_names;
          warmup_buckets = kept (λ d. d.warmup_buckets) r.4 u.warmup_buckets;
          ring_size = kept (λ d. d.ring_size) r.5 u.ring_size;
          late = kept (λ d. d.late) r.6 u.late;
          sealed_above = ap (λ a. raise a idx) (kept (λ d. d.sealed_above) r.7 u.sealed_above);
          slot = record {
            index = none;
            labels = st.labels;
            offered = 0;
            dropped = 0;
            in_flight_max = 0;
          };
          ring = λ j.
              ap
                (λ (g : ℕ → Slot f k).
                  update g i
                    (record {
                      index = none;
                      labels = st.labels;
                      offered = 0;
                      dropped = 0;
                      in_flight_max = 0;
                    })
                    j)
                (kept (λ d. d.ring) r.8 u.ring);
          free = refl;
          emptied = (done m).emptied;
          sound = (done m).sound;
          summary = summary;
          buckets = ap (insert idx summary) (kept (λ d. d.buckets) r.9 u.buckets);
          summary_n = summary-n;
          runner = runner-of;
          runner_sound = runner-IsSound;
          labels = labels-of;
          labels_sound = labels-IsSound;
        }
