-- ===== src/Metrics/Collector/SealLoop.antt =====
-- The loop of `sealSlotLocked` over a slot's labels, round by round: what a quantity adds up to.
use tracepoint.Base.{
  ℕ, zero, suc, ◌+◌, ◌<◌, ◌≤◌, Bool, true, false, ◌≡◌, refl, sym, ap, subst, ◌∙◌, ◌⊎◌, inl, inr,
  some, if◌then◌else◌, ◌==◌, ltb, arith, update, sum_below, Bool-cases, ==_iff,
}
use tracepoint.Base.Float.{Float}
use tracepoint.Metrics.Sketch.{Sketches}
use tracepoint.Metrics.Accum.{Accum, new_accum, merge_into, reset}
use tracepoint.Metrics.Accum.Laws.{
  IsSound, Measure, merge_into-IsSound, reset-IsSound, new_accum-IsSound,
}
use tracepoint.Metrics.Collector.State.{Collector}
use tracepoint.Metrics.Collector.Sealing.{Sealing, seal_label, seal_labels}
use tracepoint.Metrics.Collector.Invariant.{Frame, Frame-refl, Frame-trans}
use tracepoint.Metrics.Collector.SealLaws.{
  busy, seal_label-idle, seal_label-busy, busy-Frame, busy-labels, busy-roll, busy-whole,
}

module _ (f : Float) (k : Sketches f) (m : Measure f k) (w : Bool) (c0 : Collector f k)
    (s0 : ℕ → Accum f k) where
  open m use {of}

  -- What label `id` gives to the whole run once the first `n` labels are done.
  abbrev pub given : ℕ → ℕ → ℕ
  given n id = if w then 0 else (if ltb id n then of (s0 id) else 0)

  pub record Sealed (n : ℕ) (st : Sealing f k) : Type 0 where
    pub frame : Frame f k c0 st.collector
    pub emptied : (id : ℕ) → id < n → (st.labels id).n ≡ 0
    pub kept : (id : ℕ) → n ≤ id → st.labels id ≡ s0 id
    pub sound : (id : ℕ) → IsSound f k (st.labels id)
    pub roll : Accum f k
    pub rolled : st.roll ≡ some roll
    pub roll_sound : IsSound f k roll
    pub roll_of : of roll ≡ sum_below n (λ id. of (s0 id))
    pub whole : (id : ℕ) → of (st.collector.whole_labels id) ≡ of (c0.whole_labels id) + given n id
    pub whole_sound : (id : ℕ) → IsSound f k (st.collector.whole_labels id)

  abbrev extra : ℕ → ℕ → ℕ
  extra n id = if w then 0 else (if n == id then of (s0 n) else 0)

  given-suc : (n id : ℕ) → given (suc n) id ≡ given n id + extra n id
  given-suc n id = ground arith

  last_or_below : (n id : ℕ) → id < suc n → (id < n) ⊎ (n ≡ id)
  last_or_below n id p = omega arith

  module _ (n : ℕ) (st : Sealing f k) (h : Sealed n st) where
    here : st.labels n ≡ s0 n
    here = h.kept n (omega arith)

    idle-Sealed : (st.labels n).n ≡ 0 → Sealed (suc n) st
    unfolding sum_below
    idle-Sealed z =
        let gone : of (s0 n) ≡ 0 = m.of-idle (s0 n) (rw (← here) (h.sound n)) (rw (← here) z) in
        record {
          frame = h.frame;
          emptied =
              λ id p. elim (last_or_below n id p) [ inl q ↦ h.emptied id q | inr e ↦ rw (← e) z ];
          kept = λ id p. h.kept id (omega arith);
          sound = h.sound;
          roll = h.roll;
          rolled = h.rolled;
          roll_sound = h.roll_sound;
          roll_of = omega (arith, h.roll_of);
          whole = λ id. ground (arith, h.whole id, given-suc n id);
          whole_sound = h.whole_sound;
        }

    module _ (idx : ℕ) where
      labels_at :
          (id : ℕ)
          → (busy f k idx w n st).labels id
            ≡ (if n == id then reset f k (st.labels n) else st.labels id)
      labels_at id = ap (λ (g : ℕ → Accum f k). g id) (busy-labels f k idx w n st)

      labels_n : (id : ℕ) → id < suc n → ((busy f k idx w n st).labels id).n ≡ 0
      unfolding reset
      labels_n id p = ground (arith, labels_at id, h.emptied id)

      labels_kept : (id : ℕ) → suc n ≤ id → (busy f k idx w n st).labels id ≡ s0 id
      labels_kept id p = ground (arith, labels_at id, h.kept id)

      labels-IsSound : (id : ℕ) → IsSound f k ((busy f k idx w n st).labels id)
      labels-IsSound id = elim (Bool-cases (n == id)) [
        | inl e ↦ subst (IsSound f k) (sym (labels_at id ∙ rw e)) (reset-IsSound f k (st.labels n))
        | inr e ↦ subst (IsSound f k) (sym (labels_at id ∙ rw e)) (h.sound id)
      ]

      whole_at :
          (id : ℕ)
          → (busy f k idx w n st).collector.whole_labels id ≡ (
              if w
              then st.collector.whole_labels id
              else if n == id
              then (merge_into f k (st.labels n) (st.collector.whole_labels n)).0
              else st.collector.whole_labels id)
      whole_at id = ap (λ (g : ℕ → Accum f k). g id) (busy-whole f k idx w n st) ∙ spread w
        where
          spread :
              (b : Bool)
              → (if b
                    then st.collector.whole_labels
                    else update st.collector.whole_labels n
                        (merge_into f k (st.labels n) (st.collector.whole_labels n)).0)
                  id
                ≡ (if b
                    then st.collector.whole_labels id
                    else if n == id
                    then (merge_into f k (st.labels n) (st.collector.whole_labels n)).0
                    else st.collector.whole_labels id)
          spread true = refl
          spread false = refl

      whole-IsSound : (id : ℕ) → IsSound f k ((busy f k idx w n st).collector.whole_labels id)
      whole-IsSound id = subst (IsSound f k) (sym (whole_at id)) (pick w (n == id))
        where
          pick :
              (b c : Bool)
              → IsSound f k (
                  if b
                  then st.collector.whole_labels id
                  else if c
                  then (merge_into f k (st.labels n) (st.collector.whole_labels n)).0
                  else st.collector.whole_labels id)
          pick true c = h.whole_sound id
          pick false true =
              merge_into-IsSound f k (st.labels n) (st.collector.whole_labels n) (h.sound n)
                (h.whole_sound n)
          pick false false = h.whole_sound id

      whole_of :
          (id : ℕ)
          → of ((busy f k idx w n st).collector.whole_labels id)
            ≡ of (c0.whole_labels id) + given (suc n) id
      whole_of id = ground (
        arith,
        whole_at id,
        h.whole id,
        given-suc n id,
        here,
        m.of-merge (st.labels n) (st.collector.whole_labels n) (h.sound n),
      )

      busy-Sealed : Sealed (suc n) (busy f k idx w n st)
      unfolding sum_below
      busy-Sealed = record {
        frame = Frame-trans f k _ _ _ h.frame (busy-Frame f k idx w n st);
        emptied = labels_n;
        kept = labels_kept;
        sound = labels-IsSound;
        roll = (merge_into f k (st.labels n) h.roll).0;
        rolled = busy-roll f k idx w n st h.roll h.rolled;
        roll_sound = merge_into-IsSound f k (st.labels n) h.roll (h.sound n) h.roll_sound;
        roll_of = omega (arith, h.roll_of, m.of-merge (st.labels n) h.roll (h.sound n), ap of here);
        whole = whole_of;
        whole_sound = whole-IsSound;
      }

      seal_label-Sealed : Sealed (suc n) (seal_label f k idx w n st)
      seal_label-Sealed = elim (Bool-cases ((st.labels n).n == 0)) [
        | inl z ↦
            subst (Sealed (suc n)) (sym (seal_label-idle f k idx w n st ((==_iff _ 0).0 z)))
              (idle-Sealed ((==_iff _ 0).0 z))
        | inr z ↦ subst (Sealed (suc n)) (sym (seal_label-busy f k idx w n st z)) busy-Sealed
      ]

  pub seal_labels-Sealed :
      (idx n : ℕ) (st : Sealing f k) → Sealed 0 st → Sealed n (seal_labels f k idx w n st)
  unfolding seal_labels
  seal_labels-Sealed idx zero st h = h
  seal_labels-Sealed idx (suc n) st h =
      seal_label-Sealed n (seal_labels f k idx w n st) (seal_labels-Sealed idx n st h) idx

  -- Before the first round, with a new roll-up.
  pub Sealed-start :
      (r : Accum f k)
      → new_accum f k c0.cfg.relative_accuracy ≡ some r
      → ((id : ℕ) → IsSound f k (s0 id))
      → ((id : ℕ) → IsSound f k (c0.whole_labels id))
      → Sealed 0 (record { collector = c0; labels = s0; roll = some r })
  unfolding sum_below
  Sealed-start r e s l = record {
    frame = Frame-refl f k c0;
    emptied = λ id p. absurd (omega arith);
    kept = λ id p. refl;
    sound = s;
    roll = r;
    rolled = refl;
    roll_sound = new_accum-IsSound f k _ e;
    roll_of = m.of-new _ r e;
    whole = λ id. ground arith;
    whole_sound = l;
  }
