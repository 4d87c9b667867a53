-- ===== src/Metrics/Collector/Conservation.antt =====
-- Each call of the collector, and what it does to the two totals.
use tracepoint.Base.{
  ℕ, zero, suc, ◌<◌, Bool, true, false, ◌≡◌, refl, sym, subst, ◌∙◌, Option, none, some,
  if◌then◌else◌, leb, arith,
}
use native.Mathlib.Nat.{mod-lt}
use tracepoint.Base.Float.{Float}
use tracepoint.Metrics.Outcome.{Outcome}
use tracepoint.Metrics.Sketch.{Sketches}
use tracepoint.Metrics.Accum.{Accum}
use tracepoint.Metrics.Accum.Laws.{IsSound}
use tracepoint.Metrics.Collector.State.{Collector, Slot, label_count, covered, bucket_index_of}
use tracepoint.Metrics.Collector.Sealing.{seal_slot}
use tracepoint.Metrics.Collector.Recording.{
  set_slot, place, claim, clamp_label, note_status, note_bucket, record_late, add_to_slot, file,
  record_outcome, counter_slot, record_offered, record_dropped, observe_in_flight, seal_if_due,
  sweep, seal_through, seal_any, seal_all, finish, seal_deadline, count_offered, count_dropped,
  peak_in_flight,
}
use tracepoint.Metrics.Collector.Invariant.{IsValid}
use tracepoint.Metrics.Collector.Preserves.{set_slot-IsValid}
use tracepoint.Metrics.Collector.Kept.{
  share, always, from, Kept, Kept-trans, Kept-refl, seal_slot-Kept,
}
use tracepoint.Metrics.Collector.Claim.{Ready, claim-Ready, set_slot-timeline, set_slot-measured}
use tracepoint.Metrics.Collector.Recorded.{
  Recorded, Kept-Recorded, filed-Recorded, late-Recorded, noted-Kept, note_bucket-Kept,
  clamp_label-lt,
}

module _ (f : Float) (k : Sketches f) where
  module _ (id : ℕ) (o : Outcome) (idx : ℕ) (c : Collector f k) (h : IsValid f k c)
      (l : id < label_count f k c) where
    claimed-Recorded :
        (d : Collector f k)
        → Ready f k idx c d
        → Recorded f k o idx c
            (set_slot f k (place f k c idx) (add_to_slot f k id o (d.ring (place f k c idx))) d)
    claimed-Recorded d r = Kept-Recorded f k o idx c d _ r.kept (
        filed-Recorded f k id o idx d r.kept.valid (rw r.kept.label_names l) (place f k c idx)
          (rw r.kept.ring_size (mod-lt idx h.size)) r.index)

    pub file-Recorded :
        covered c.sealed_above idx ≡ false → Recorded f k o idx c (file f k id o idx c)
    unfolding file
    file-Recorded new = at (claim f k idx c) refl
      where
        at :
            (q : Option (Collector f k))
            → claim f k idx c ≡ q
            → Recorded f k o idx c (elim q [
              | none ↦ record_late f k id o idx c
              | some d ↦
                  set_slot f k (place f k c idx) (add_to_slot f k id o (d.ring (place f k c idx))) d
            ])
        at none e = late-Recorded f k id o idx c h l
        at (some d) e = claimed-Recorded d (claim-Ready f k idx c h new d e)

    route-Recorded :
        (b : Bool)
        → covered c.sealed_above idx ≡ b
        → Recorded f k o idx c (if b then record_late f k id o idx c else file f k id o idx c)
    route-Recorded true e = late-Recorded f k id o idx c h l
    route-Recorded false e = file-Recorded e

  -- Recording an outcome keeps the collector valid, puts exactly one more outcome on the timeline
  -- or among the late ones, and credits every measured quantity with the outcome's share unless its
  -- bucket belongs to the warm-up.
  pub record_outcome-Recorded :
      (o : Outcome) (c : Collector f k)
      → IsValid f k c
      → Recorded f k o (bucket_index_of f k c o.intended) c (record_outcome f k o c)
  unfolding record_outcome
  record_outcome-Recorded o c h =
      let idx = bucket_index_of f k c o.intended in
      let d = note_bucket f k idx (note_status f k o c) in
      let id = clamp_label f k c o.label in
      let n = noted-Kept f k o idx c h in
      Kept-Recorded f k o idx c d _ n (
        route-Recorded id o idx d n.valid
          (rw n.label_names (clamp_label-lt f k c o.label h.some_label))
          (covered d.sealed_above idx) refl)

  -- A counter leaves a slot's index and its observations alone.
  pub record CountsOnly (apply : Slot f k → Slot f k) : Type 0 where
    pub index : (s : Slot f k) → (apply s).index ≡ s.index
    pub labels : (s : Slot f k) → (apply s).labels ≡ s.labels

  module _ (apply : Slot f k → Slot f k) (a : CountsOnly apply) where
    counted-Kept :
        (i x : ℕ) (c : Collector f k)
        → IsValid f k c
        → i < c.ring_size
        → (c.ring i).index ≡ some x
        → Kept f k c (set_slot f k i (apply (c.ring i)) c)
    counted-Kept i x c h b e =
        let s = apply (c.ring i) in
        let same = λ (p : ℕ → Bool) (of : Accum f k → ℕ). same_share p of (c.ring i) in
        record {
          valid =
              set_slot-IsValid f k i s c h
                (λ y p.
                  let q : (c.ring i).index ≡ some y = sym (a.index (c.ring i)) ∙ p in
                  (h.placed i y q, h.unsealed i y q))
                (λ id.
                  subst (λ (g : ℕ → Accum f k). IsSound f k (g id)) (sym (a.labels (c.ring i)))
                    (h.slots i id))
                (λ id p q. cc (a.index (c.ring i)));
          ring_size = refl;
          label_names = refl;
          warmup_buckets = refl;
          cfg = refl;
          on_timeline = omega (arith, set_slot-timeline f k i s c b, same always (λ a. a.n));
          in_run = λ m.
              omega (arith, set_slot-measured f k i s c b m, same (from c.warmup_buckets) m.of);
        }
      where
        same_share :
            (p : ℕ → Bool) (of : Accum f k → ℕ) (s : Slot f k)
            → share f k p of (label_count f k c) (apply s) ≡ share f k p of (label_count f k c) s
        same_share p of s = rw (a.index s, a.labels s)

    pub claimed-Kept :
        (idx : ℕ) (c : Collector f k)
        → IsValid f k c
        → covered c.sealed_above idx ≡ false
        → (d : Collector f k) → claim f k idx c ≡ some d
        → Kept f k c (set_slot f k (place f k c idx) (apply (d.ring (place f k c idx))) d)
    claimed-Kept idx c h new d e =
        let r = claim-Ready f k idx c h new d e in
        Kept-trans f k c d _ r.kept (
          counted-Kept (place f k c idx) idx d r.kept.valid
            (rw r.kept.ring_size (mod-lt idx h.size)) r.index)

    pub counter_slot-Kept :
        (idx : ℕ) (c : Collector f k) → IsValid f k c → Kept f k c (counter_slot f k apply idx c)
    unfolding counter_slot
    counter_slot-Kept idx c0 h0 = Kept-trans f k c0 c _ n (route (covered c.sealed_above idx) refl)
      where
        c : Collector f k
        c = note_bucket f k idx c0

        n : Kept f k c0 c
        n = note_bucket-Kept f k idx c0 h0

        into : Option (Collector f k) → Collector f k
        into q = elim q [
          | none ↦ c
          | some d ↦ set_slot f k (place f k c idx) (apply (d.ring (place f k c idx))) d
        ]

        at :
            covered c.sealed_above idx ≡ false
            → (q : Option (Collector f k)) → claim f k idx c ≡ q
            → Kept f k c (into q)
        at new none e = Kept-refl f k c n.valid
        at new (some d) e = claimed-Kept idx c n.valid new d e

        route :
            (b : Bool)
            → covered c.sealed_above idx ≡ b
            → Kept f k c (if b then c else into (claim f k idx c))
        route true e = Kept-refl f k c n.valid
        route false e = at e (claim f k idx c) refl

  pub record_offered-Kept :
      (idx : ℕ) (c : Collector f k) → IsValid f k c → Kept f k c (record_offered f k idx c)
  unfolding record_offered
  record_offered-Kept idx c h =
      counter_slot-Kept (count_offered f k) (record { index = λ s. refl; labels = λ s. refl }) idx c
        h

  pub record_dropped-Kept :
      (idx : ℕ) (c : Collector f k) → IsValid f k c → Kept f k c (record_dropped f k idx c)
  unfolding record_dropped
  record_dropped-Kept idx c h =
      counter_slot-Kept (count_dropped f k) (record { index = λ s. refl; labels = λ s. refl }) idx c
        h

  pub observe_in_flight-Kept :
      (idx n : ℕ) (c : Collector f k) → IsValid f k c → Kept f k c (observe_in_flight f k idx n c)
  unfolding observe_in_flight
  observe_in_flight-Kept idx n c h =
      counter_slot-Kept (peak_in_flight f k n) (record { index = λ s. refl; labels = λ s. refl })
        idx c h

  pub seal_if_due-Kept :
      (now i : ℕ) (c : Collector f k) → IsValid f k c → Kept f k c (seal_if_due f k now i c)
  unfolding seal_if_due
  seal_if_due-Kept now i c h = at ((c.ring i).index) refl
    where
      due :
          (b : Bool) (idx : ℕ)
          → (c.ring i).index ≡ some idx
          → Kept f k c (if b then seal_slot f k i idx c else c)
      due true idx e = seal_slot-Kept f k i idx c h e
      due false idx e = Kept-refl f k c h

      at :
          (o : Option ℕ)
          → (c.ring i).index ≡ o
          → Kept f k c (elim o [
            | none ↦ c
            | some idx ↦ if leb (seal_deadline f k c idx) now then seal_slot f k i idx c else c
          ])
      at none e = Kept-refl f k c h
      at (some idx) e = due (leb (seal_deadline f k c idx) now) idx e

  sweep-Kept : (now n : ℕ) (c : Collector f k) → IsValid f k c → Kept f k c (sweep f k now n c)
  unfolding sweep
  sweep-Kept now zero c h = Kept-refl f k c h
  sweep-Kept now (suc n) c h =
      let r = sweep-Kept now n c h in
      Kept-trans f k c (sweep f k now n c) _ r (seal_if_due-Kept now n _ r.valid)

  -- Sealing what is due moves outcomes from open buckets to summaries and loses none.
  pub seal_through-Kept :
      (now : ℕ) (c : Collector f k) → IsValid f k c → Kept f k c (seal_through f k now c)
  unfolding seal_through
  seal_through-Kept now c h = sweep-Kept now c.ring_size c h

  pub seal_any-Kept : (i : ℕ) (c : Collector f k) → IsValid f k c → Kept f k c (seal_any f k i c)
  unfolding seal_any
  seal_any-Kept i c h = at ((c.ring i).index) refl
    where
      at :
          (o : Option ℕ)
          → (c.ring i).index ≡ o
          → Kept f k c (elim o [ none ↦ c | some idx ↦ seal_slot f k i idx c ])
      at none e = Kept-refl f k c h
      at (some idx) e = seal_slot-Kept f k i idx c h e

  pub seal_all-Kept : (n : ℕ) (c : Collector f k) → IsValid f k c → Kept f k c (seal_all f k n c)
  unfolding seal_all
  seal_all-Kept zero c h = Kept-refl f k c h
  seal_all-Kept (suc n) c h =
      let r = seal_all-Kept n c h in
      Kept-trans f k c (seal_all f k n c) _ r (seal_any-Kept n _ r.valid)

  pub finish-Kept : (c : Collector f k) → IsValid f k c → Kept f k c (finish f k c)
  unfolding finish
  finish-Kept c h = seal_all-Kept c.ring_size c h
