-- ===== src/Engine/Guard/Window.antt =====
-- The ring of slots counts exactly the observations in the rolling window.
use native.Mathlib.Nat.{mod-lt, div-add-mod}
use tracepoint.Base.{
  ℕ, ◌+◌, ◌*◌, ◌/◌, ◌%◌, ◌<◌, ◌≤◌, Bool, true, false, ◌≡◌, ◌≢◌, refl, ap, subst, List, [], ◌∷◌,
  if◌then◌else◌, ltb, ◌==◌, arith, update, sum_below, sum_below-change, ==_iff,
}
use tracepoint.Metrics.Outcome.{Class}
use tracepoint.Engine.Guard.{
  guard_resolution, Slot, bucket_at, failing, reuse, count_in, live_total, live_failed, place,
}

-- Observations, the newest first, and how many of them start their period at `cutoff` or later.
abbrev pub seen : ℕ → List (Class × ℕ) → ℕ
seen cutoff [] = 0
seen cutoff ((class, at) ∷ xs) = (if ltb (bucket_at at) cutoff then 0 else 1) + seen cutoff xs

abbrev pub seen_failing : ℕ → List (Class × ℕ) → ℕ
seen_failing cutoff [] = 0
seen_failing cutoff ((class, at) ∷ xs) =
    (if ltb (bucket_at at) cutoff then 0 else failing class) + seen_failing cutoff xs

-- A slot that holds something holds a period of its own residue, no later than the newest.
pub record Fits (count now i : ℕ) (s : Slot) : Type 0 where
  pub period : ℕ
  pub start : s.at ≡ period * guard_resolution
  pub residue : period % count ≡ i
  pub past : period ≤ now / guard_resolution

abbrev pub IsRing : ℕ → ℕ → (ℕ → Slot) → Type 0
IsRing count now slots = (i : ℕ) → (0 < (slots i).total) → Fits count now i (slots i)

abbrev pub IsTidy : (ℕ → Slot) → Type 0
IsTidy slots = (i : ℕ) → (slots i).failed ≤ (slots i).total

turns : (a b n : ℕ) → a < b → n * a + n ≤ n * b
turns a b n h = grind arith

turns' : (a b n : ℕ) → a ≤ b → n * a ≤ n * b
turns' a b n h = grind arith

unequal : (i j : ℕ) → i ≢ j → (i == j) ≡ false
unequal i j h = ground arith

-- Two periods of one residue are a whole turn apart.
turn_apart : (p q n : ℕ) → 0 < n → p % n ≡ q % n → p < q → p + n ≤ q
turn_apart p q n h e l = omega (
  arith,
  div-add-mod p n,
  div-add-mod q n,
  turns (p / n) (q / n) n
      (ground (arith, div-add-mod p n, div-add-mod q n, turns' (q / n) (p / n) n)),
)

module _ (count window : ℕ) (positive : 0 < count) (long : window < count * guard_resolution) where
  -- A slot of the ring that holds another period than the new one is out of the window.
  stale :
      (now at : ℕ) (s : Slot)
      → now ≤ at
      → Fits count now (place count at) s
      → s.at ≢ bucket_at at
      → s.at + window < at
  unfolding place
  stale now at s le u ne =
      let older : u.period < at / guard_resolution = omega (arith, u.past, u.start) in
      let apart : u.period + count ≤ at / guard_resolution =
        turn_apart u.period (at / guard_resolution) count positive u.residue older in
      omega (arith, long, u.start, apart)

  module _ (now at : ℕ) (class : Class) (slots : ℕ → Slot) (le : now ≤ at)
      (ring : IsRing count now slots) (tidy : IsTidy slots) where
    abbrev pub here : ℕ
    here = place count at

    abbrev pub filed : Slot
    filed = count_in class (reuse (bucket_at at) (slots here))

    abbrev pub after : ℕ → Slot
    after = update slots here filed

    later : (j : ℕ) (s : Slot) → Fits count now j s → Fits count at j s
    later j s u = record {
      period = u.period;
      start = u.start;
      residue = u.residue;
      past = omega (arith, u.past);
    }

    filed-Fits : Fits count at here filed
    unfolding count_in reuse place
    filed-Fits = record {
      period = at / guard_resolution;
      start = ground arith;
      residue = refl;
      past = omega arith;
    }

    pub after-IsRing : IsRing count at after
    after-IsRing j = pick (here == j) refl
      where
        pick :
            (b : Bool)
            → (here == j) ≡ b
            → 0 < (if b then filed else slots j).total
            → Fits count at j (if b then filed else slots j)
        pick true e p = subst (λ i. Fits count at i filed) ((==_iff here j).0 e) filed-Fits
        pick false e p = later j (slots j) (ring j p)

    -- What the slot counts for grows by the observation, if its period starts in the window.
    filed_total :
        (cutoff : ℕ)
        → at ≤ cutoff + window
        → live_total cutoff filed
          ≡ live_total cutoff (slots here) + (if ltb (bucket_at at) cutoff then 0 else 1)
    unfolding count_in reuse
    filed_total cutoff in_window = ground (arith, ring here, stale now at (slots here) le)

    filed_failed :
        (cutoff : ℕ)
        → at ≤ cutoff + window
        → live_failed cutoff filed
          ≡ live_failed cutoff (slots here)
            + (if ltb (bucket_at at) cutoff then 0 else failing class)
    unfolding count_in reuse
    filed_failed cutoff in_window =
        ground (arith, ring here, tidy here, stale now at (slots here) le)

    filed-le : filed.failed ≤ filed.total
    unfolding count_in reuse
    filed-le = ground (arith, tidy here)

    pub after-IsTidy : IsTidy after
    after-IsTidy j = pick (here == j)
      where
        pick :
            (b : Bool)
            → (if b then filed else slots j).failed ≤ (if b then filed else slots j).total
        pick true = filed-le
        pick false = tidy j

    here-lt : here < count
    unfolding place
    here-lt = mod-lt (at / guard_resolution) positive

    at_here : after here ≡ filed
    at_here = ap (λ (b : Bool). if b then filed else slots here) ((==_iff here here).1 refl)

    elsewhere : (j : ℕ) → here ≢ j → after j ≡ slots j
    elsewhere j e = ap (λ (b : Bool). if b then filed else slots j) (unequal here j e)

    pub after-live_total :
        (cutoff : ℕ)
        → at ≤ cutoff + window
        → sum_below count (λ i. live_total cutoff (after i))
          ≡ sum_below count (λ i. live_total cutoff (slots i))
            + (if ltb (bucket_at at) cutoff then 0 else 1)
    after-live_total cutoff w = omega (
      arith,
      filed_total cutoff w,
      ap (live_total cutoff) at_here,
      sum_below-change count here (λ i. live_total cutoff (after i))
          (λ i. live_total cutoff (slots i)) here-lt
          (λ j e. ap (live_total cutoff) (elsewhere j e)),
    )

    pub after-live_failed :
        (cutoff : ℕ)
        → at ≤ cutoff + window
        → sum_below count (λ i. live_failed cutoff (after i))
          ≡ sum_below count (λ i. live_failed cutoff (slots i))
            + (if ltb (bucket_at at) cutoff then 0 else failing class)
    after-live_failed cutoff w = omega (
      arith,
      filed_failed cutoff w,
      ap (live_failed cutoff) at_here,
      sum_below-change count here (λ i. live_failed cutoff (after i))
          (λ i. live_failed cutoff (slots i)) here-lt
          (λ j e. ap (live_failed cutoff) (elsewhere j e)),
    )
