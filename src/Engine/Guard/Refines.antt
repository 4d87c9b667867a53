-- ===== src/Engine/Guard/Refines.antt =====
-- The guard decides as a direct reading of its history would.
use tracepoint.Base.{
  ℕ, ◌+◌, ◌-◌, ◌*◌, ◌<◌, ◌≤◌, Bool, true, false, ◌≡◌, refl, sym, ap, ◌∙◌, ◌||◌, List, [], ◌∷◌,
  if◌then◌else◌, ltb, arith, sum_below, sum_below-zero, Bool-cases, inl, inr,
}
use tracepoint.Base.Float.{Float}
use tracepoint.Base.Int.{ℤ}
use tracepoint.Metrics.Outcome.{Class}
use tracepoint.Engine.Guard.{
  guard_resolution, AbortGuard, live_total, live_failed, new_abort_guard, above, min_samples,
  evaluate, file, observe, observe_all,
}
use tracepoint.Engine.Guard.Window.{
  seen, seen_failing, IsRing, IsTidy, after-IsRing, after-IsTidy, after-live_total,
  after-live_failed,
}

-- Times that never go back, from `now` on.
abbrev pub InOrder : ℕ → List (Class × ℕ) → Type 0
InOrder now [] = Unit
InOrder now ((class, at) ∷ xs) = (now ≤ at) × InOrder at xs

module _ (f : Float) (ratio : f.F) (window : ℕ) where
  -- What the guard should do at `now`, with all the observations so far: trip if the run is as old
  -- as the window, at least 20 operations started their period in it, and the share of failing ones
  -- is above the ratio.
  abbrev pub should_trip : ℕ → List (Class × ℕ) → Bool
  should_trip now history =
      if ltb now window
      then false
      else if ltb (seen (now - window) history) min_samples
      then false
      else above f ratio (seen_failing (now - window) history) (seen (now - window) history)

  -- Whether it should have tripped by the end, given the observations before, newest first.
  abbrev pub trips : List (Class × ℕ) → List (Class × ℕ) → Bool
  trips history [] = false
  trips history ((class, at) ∷ xs) =
      should_trip at ((class, at) ∷ history) || trips ((class, at) ∷ history) xs

  -- The guard's slots stand for the history up to `now`.
  pub record Tracks (now : ℕ) (history : List (Class × ℕ)) (g : AbortGuard f) : Type 0 where
    pub enabled : g.enabled ≡ true
    pub calm : g.tripped ≡ false
    pub same_ratio : g.ratio ≡ ratio
    pub same_window : g.window ≡ window
    pub positive : 0 < g.slot_count
    pub long : window < g.slot_count * guard_resolution
    pub ring : IsRing g.slot_count now g.slots
    pub tidy : IsTidy g.slots
    pub totals :
        (cutoff : ℕ)
        → now ≤ cutoff + window
        → sum_below g.slot_count (λ i. live_total cutoff (g.slots i)) ≡ seen cutoff history
    pub failures :
        (cutoff : ℕ)
        → now ≤ cutoff + window
        → sum_below g.slot_count (λ i. live_failed cutoff (g.slots i)) ≡ seen_failing cutoff history

  module _ (now : ℕ) (history : List (Class × ℕ)) (g : AbortGuard f) (t : Tracks now history g)
      (class : Class) (at : ℕ) (le : now ≤ at) where
    file-Tracks : Tracks at ((class, at) ∷ history) (file f class at g)
    unfolding file
    file-Tracks = record {
      enabled = t.enabled;
      calm = t.calm;
      same_ratio = t.same_ratio;
      same_window = t.same_window;
      positive = t.positive;
      long = t.long;
      ring =
          after-IsRing g.slot_count window t.positive t.long now at class g.slots le t.ring t.tidy;
      tidy =
          after-IsTidy g.slot_count window t.positive t.long now at class g.slots le t.ring t.tidy;
      totals = λ cutoff w. omega (
        arith,
        t.totals cutoff (omega arith),
        after-live_total g.slot_count window t.positive t.long now at class g.slots le t.ring t.tidy
            cutoff w,
      );
      failures = λ cutoff w. omega (
        arith,
        t.failures cutoff (omega arith),
        after-live_failed g.slot_count window t.positive t.long now at class g.slots le t.ring
            t.tidy cutoff w,
      );
    }

  module _ (now : ℕ) (history : List (Class × ℕ)) (g : AbortGuard f)
      (t : Tracks now history g) where
    evaluate-calm : should_trip now history ≡ false → evaluate f now g ≡ g
    unfolding evaluate
    evaluate-calm e =
        ground
          (arith, t.same_window, t.same_ratio, t.totals (now - window), t.failures (now - window))

    evaluate-trips : should_trip now history ≡ true → (evaluate f now g).tripped ≡ true
    unfolding evaluate
    evaluate-trips e =
        ground
          (arith, t.same_window, t.same_ratio, t.totals (now - window), t.failures (now - window))

  observe-tripped :
      (class : Class) (at : ℕ) (g : AbortGuard f)
      → g.tripped ≡ true
      → (observe f class at g).tripped ≡ true
  unfolding observe
  observe-tripped class at g e = ground arith

  observe-eq-evaluate :
      (class : Class) (at : ℕ) (g : AbortGuard f)
      → g.enabled ≡ true
      → g.tripped ≡ false
      → observe f class at g ≡ evaluate f at (file f class at g)
  unfolding observe
  observe-eq-evaluate class at g e c = rw (e, c)

  stays_tripped :
      (xs : List (Class × ℕ)) (g : AbortGuard f)
      → g.tripped ≡ true
      → (observe_all f xs g).tripped ≡ true
  unfolding observe_all
  stays_tripped [] g e = e
  stays_tripped ((class, at) ∷ xs) g e =
      stays_tripped xs (observe f class at g) (observe-tripped class at g e)

  pub observe_all-Tracks :
      (xs : List (Class × ℕ)) (now : ℕ) (history : List (Class × ℕ)) (g : AbortGuard f)
      → Tracks now history g
      → InOrder now xs
      → (observe_all f xs g).tripped ≡ trips history xs
  unfolding observe_all
  observe_all-Tracks [] now history g t o = t.calm
  observe_all-Tracks ((class, at) ∷ xs) now history g t (le, o) =
      let h = file f class at g in
      let u = file-Tracks now history g t class at le in
      let step = observe-eq-evaluate class at g t.enabled t.calm in
      elim (Bool-cases (should_trip at ((class, at) ∷ history))) [
        | inl e ↦
            stays_tripped xs (observe f class at g)
              (ap (λ (q : AbortGuard f). q.tripped) step ∙ evaluate-trips at _ h u e)
            ∙ sym (ap (λ (b : Bool). b || trips ((class, at) ∷ history) xs) e)
        | inr e ↦
            ap (λ q. (observe_all f xs q).tripped) (step ∙ evaluate-calm at _ h u e)
            ∙ observe_all-Tracks xs at ((class, at) ∷ history) h u o
            ∙ sym (ap (λ (b : Bool). b || trips ((class, at) ∷ history) xs) e)
      ]

new_abort_guard-Tracks :
    (f : Float) (ratio : f.F) (window : ℤ)
    → let g = new_abort_guard f true ratio window in Tracks f g.ratio g.window 0 [] g
unfolding new_abort_guard
new_abort_guard-Tracks f ratio window =
    let g = new_abort_guard f true ratio window in
    record {
      enabled = refl;
      calm = refl;
      same_ratio = refl;
      same_window = refl;
      positive = omega arith;
      long = omega arith;
      ring = λ i p. absurd (omega arith);
      tidy = λ i. omega arith;
      totals = λ cutoff w. sum_below-zero g.slot_count _ (λ i p. ground arith);
      failures = λ cutoff w. sum_below-zero g.slot_count _ (λ i p. ground arith);
    }

-- A new guard that is enabled trips, on observations whose times never go back, exactly when a
-- direct reading of all of them says so: some observation comes when the run is as old as the
-- window, at least 20 observations started their period in the window up to it, and the failing
-- ones are above the ratio.
pub new_abort_guard-trips :
    (f : Float) (ratio : f.F) (window : ℤ) (xs : List (Class × ℕ))
    → InOrder 0 xs
    → (observe_all f xs (new_abort_guard f true ratio window)).tripped
      ≡ trips f
          ((new_abort_guard f true ratio window).ratio)
          ((new_abort_guard f true ratio window).window)
          []
          xs
new_abort_guard-trips f ratio window xs o =
    let g = new_abort_guard f true ratio window in
    observe_all-Tracks f g.ratio g.window xs 0 [] g (new_abort_guard-Tracks f ratio window) o
