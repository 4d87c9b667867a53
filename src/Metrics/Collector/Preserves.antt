-- ===== src/Metrics/Collector/Preserves.antt =====
-- Every call keeps a collector valid.
use tracepoint.Base.{
  ℕ, ◌%◌, ◌<◌, Bool, true, false, ◌≡◌, refl, sym, ap, subst, ◌∙◌, Option, none, some, if◌then◌else◌,
  ◌==◌, arith, ==_iff,
}
use tracepoint.Base.Float.{Float}
use tracepoint.Metrics.Sketch.{Sketches}
use tracepoint.Metrics.Accum.Laws.{IsSound, counting}
use tracepoint.Metrics.Collector.Maps.{lookup, lookup-insert}
use tracepoint.Metrics.Collector.State.{Collector, Slot, label_count, covered, raise}
use tracepoint.Metrics.Collector.Recording.{set_slot}
use tracepoint.Metrics.Collector.Invariant.{IsValid, Frame}
use tracepoint.Metrics.Collector.SealSlot.{Freed}

covered-raise : (o : Option ℕ) (i j : ℕ) → covered (raise o i) j ≡ false → covered o j ≡ false
covered-raise o i j h = ground arith

raise-ne : (o : Option ℕ) (i j : ℕ) → covered (raise o i) j ≡ false → (i == j) ≡ false
raise-ne o i j h = ground arith

module _ (f : Float) (k : Sketches f) where
  module _ (i idx : ℕ) (c d : Collector f k) (h : IsValid f k c)
      (u : Freed f k (counting f k) i idx c d) (e : (c.ring i).index ≡ some idx) where
    index_at :
        (j : ℕ) {x : ℕ}
        → (d.ring j).index ≡ some x
        → ((i == j) ≡ false) × ((c.ring j).index ≡ some x)
    index_at j p = ground (arith, u.ring j, u.free)

    placed : (j x : ℕ) → (d.ring j).index ≡ some x → x % d.ring_size ≡ j
    placed j x p = rw u.ring_size (h.placed j x (index_at j p).1)

    apart : (j x : ℕ) → (d.ring j).index ≡ some x → (idx == x) ≡ false
    apart j x p =
        let (q, r) = index_at j p in
        ground (arith, h.placed j x r, h.placed i idx e, q, ap (λ (y : ℕ). y % c.ring_size))

    unsealed : (j x : ℕ) → (d.ring j).index ≡ some x → lookup x d.buckets ≡ none
    unsealed j x p =
        ap (lookup x) u.buckets
        ∙ lookup-insert idx x u.summary c.buckets
        ∙ rw (apart j x p) (h.unsealed j x (index_at j p).1)

    keys : (x : ℕ) → covered d.sealed_above x ≡ false → lookup x d.buckets ≡ none
    keys x p =
        let q = (ap (λ o. covered o x) (sym u.sealed_above)) ∙ p in
        ap (lookup x) u.buckets
        ∙ lookup-insert idx x u.summary c.buckets
        ∙ rw (raise-ne c.sealed_above idx x q) (h.keys x (covered-raise c.sealed_above idx x q))

    slots : (j id : ℕ) → IsSound f k ((d.ring j).labels id)
    slots j id =
        subst (λ (s : Slot f k). IsSound f k (s.labels id)) (sym (u.ring j)) (pick (i == j))
      where
        pick : (b : Bool) → IsSound f k ((if b then u.slot else c.ring j).labels id)
        pick true = u.sound id
        pick false = h.slots j id

    freed :
        (j id : ℕ) → (d.ring j).index ≡ none → id < label_count f k d → ((d.ring j).labels id).n ≡ 0
    freed j id p q =
        let q' : id < label_count f k c = rw (← u.label_names) q in
        ground (arith, u.ring j, u.emptied id q', h.freed j id)

    pub Freed-IsValid : IsValid f k d
    Freed-IsValid = record {
      placed = placed;
      unsealed = unsealed;
      keys = keys;
      slots = slots;
      freed = freed;
      runner = u.runner_sound;
      labels = u.labels_sound;
      builds = rw u.cfg h.builds;
      size = rw u.ring_size h.size;
      some_label = rw u.label_names h.some_label;
    }

  -- A slot put back in its place.
  module _ (i : ℕ) (s : Slot f k) (c : Collector f k) (h : IsValid f k c)
      (fits : (x : ℕ) → s.index ≡ some x → (x % c.ring_size ≡ i) × (lookup x c.buckets ≡ none))
      (sound : (id : ℕ) → IsSound f k (s.labels id))
      (empty : (id : ℕ) → s.index ≡ none → id < label_count f k c → (s.labels id).n ≡ 0) where
    put_placed :
        (b : Bool) (j x : ℕ)
        → (i == j) ≡ b
        → (if b then s else c.ring j).index ≡ some x
        → x % c.ring_size ≡ j
    put_placed true j x e p = (fits x p).0 ∙ (==_iff i j).0 e
    put_placed false j x e p = h.placed j x p

    put_unsealed :
        (b : Bool) (j x : ℕ)
        → (if b then s else c.ring j).index ≡ some x
        → lookup x c.buckets ≡ none
    put_unsealed true j x p = (fits x p).1
    put_unsealed false j x p = h.unsealed j x p

    put_slots : (b : Bool) (j id : ℕ) → IsSound f k ((if b then s else c.ring j).labels id)
    put_slots true j id = sound id
    put_slots false j id = h.slots j id

    put_freed :
        (b : Bool) (j id : ℕ)
        → (if b then s else c.ring j).index ≡ none
        → id < label_count f k c
        → ((if b then s else c.ring j).labels id).n ≡ 0
    put_freed true j id p q = empty id p q
    put_freed false j id p q = h.freed j id p q

    pub set_slot-IsValid : IsValid f k (set_slot f k i s c)
    set_slot-IsValid = record {
      placed = λ j x p. put_placed (i == j) j x refl p;
      unsealed = λ j x p. put_unsealed (i == j) j x p;
      keys = h.keys;
      slots = λ j id. put_slots (i == j) j id;
      freed = λ j id p q. put_freed (i == j) j id p q;
      runner = h.runner;
      labels = h.labels;
      builds = h.builds;
      size = h.size;
      some_label = h.some_label;
    }

  pub Frame-IsValid :
      (c d : Collector f k)
      → Frame f k c d
      → d.whole_labels ≡ c.whole_labels
      → IsValid f k c
      → IsValid f k d
  Frame-IsValid c d u e h = record {
    placed = rw (u.ring, u.ring_size) h.placed;
    unsealed = rw (u.ring, u.buckets) h.unsealed;
    keys = rw (u.sealed_above, u.buckets) h.keys;
    slots = rw u.ring h.slots;
    freed = rw (u.ring, u.label_names) h.freed;
    runner = rw u.whole_runner h.runner;
    labels = rw e h.labels;
    builds = rw u.cfg h.builds;
    size = rw u.ring_size h.size;
    some_label = rw u.label_names h.some_label;
  }
