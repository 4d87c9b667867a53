-- ===== src/Schedule/Search.antt =====
-- The binary searches of a profile end, and where.
use tracepoint.Base.{
  ℕ, zero, suc, ◌+◌, ◌-◌, ◌/◌, ◌≤◌, ◌<◌, ◌≡◌, Bool, true, false, not, ◌||◌, ltb, ◌==◌, length,
  arith, Bool-cases, inl, inr, ap, ◌∙◌, ◌⊎◌, refl, sym, subst, Option, none, some, ==_iff,
}
use tracepoint.Base.Float.{Float}
use tracepoint.Schedule.Profile.{
  Profile, last_below, segment_at_time, segment_at_count, skip_empty, seg_at, zero_f,
}

-- `r` lies in the range, its place passes the test or is the first, and the next one fails it or lies
-- outside.
abbrev pub Divides : (ℕ → Bool) → (lo hi r : ℕ) → Type 0
Divides test lo hi r =
    (lo ≤ r) × (r ≤ hi) × ((r == lo || test r) ≡ true) × ((r == hi || not (test (suc r))) ≡ true)

at_or_after :
    (r mid lo : ℕ) (test : ℕ → Bool)
    → lo < mid
    → test mid ≡ true
    → mid ≤ r
    → (r == mid || test r) ≡ true
    → (r == lo || test r) ≡ true
at_or_after r mid lo test h t a c = ground arith

before_or_at :
    (r mid hi : ℕ) (test : ℕ → Bool)
    → mid < hi
    → test (suc mid) ≡ false
    → r ≤ mid
    → (r == mid || not (test (suc r))) ≡ true
    → (r == hi || not (test (suc r))) ≡ true
before_or_at r mid hi test h t b d = ground arith

module _ (f : Float) where
  right-Divides :
      (test : ℕ → Bool) (lo mid hi r : ℕ)
      → lo < mid
      → test mid ≡ true
      → Divides test mid hi r
      → Divides test lo hi r
  right-Divides test lo mid hi r h t (a, b, c, d) =
      (omega arith, b, at_or_after r mid lo test h t a c, d)

  left-Divides :
      (test : ℕ → Bool) (lo mid hi r : ℕ)
      → mid < hi
      → test (suc mid) ≡ false
      → Divides test lo mid r
      → Divides test lo hi r
  left-Divides test lo mid hi r h t (a, b, c, d) =
      (a, omega arith, c, before_or_at r mid hi test h t b d)

  -- The search ends, at a place that divides the range.
  abbrev Finds : (test : ℕ → Bool) (lo hi : ℕ) → Option ℕ → Type 0
  Finds test lo hi none = ⊥
  Finds test lo hi (some r) = Divides test lo hi r

  right-Finds :
      (test : ℕ → Bool) (lo mid hi : ℕ) (o : Option ℕ)
      → lo < mid
      → test mid ≡ true
      → Finds test mid hi o
      → Finds test lo hi o
  right-Finds test lo mid hi none h t d = d
  right-Finds test lo mid hi (some r) h t d = right-Divides test lo mid hi r h t d

  left-Finds :
      (test : ℕ → Bool) (lo mid hi : ℕ) (o : Option ℕ)
      → mid < hi
      → test (suc mid) ≡ false
      → Finds test lo mid o
      → Finds test lo hi o
  left-Finds test lo mid hi none h t d = d
  left-Finds test lo mid hi (some r) h t d = left-Divides test lo mid hi r h t d

  here : (test : ℕ → Bool) (lo hi : ℕ) → lo ≤ hi → ltb lo hi ≡ false → Divides test lo hi lo
  here test lo hi h e = ground arith

  last_below-Finds :
      (fuel : ℕ) (test : ℕ → Bool) (lo hi : ℕ)
      → lo ≤ hi
      → hi - lo ≤ fuel
      → Finds test lo hi (last_below f fuel test lo hi)
  unfolding last_below
  last_below-Finds zero test lo hi h k =
      let e : ltb lo hi ≡ false = ground arith in rw e (here test lo hi h e)
  last_below-Finds (suc fuel) test lo hi h k =
      let mid = (lo + hi + 1) / 2 in
      elim (Bool-cases (ltb lo hi)) [
        | inr e ↦ rw e (here test lo hi h e)
        | inl e ↦ elim (Bool-cases (test mid)) [
          | inl t ↦
              rw (e, t)
                (right-Finds test lo mid hi _ (ground arith) t
                  (last_below-Finds fuel test mid hi (ground arith) (ground arith)))
          | inr t ↦
              rw (e, t)
                (left-Finds test lo (mid - 1) hi _ (ground arith) (ap test (ground arith) ∙ t)
                  (last_below-Finds fuel test lo (mid - 1) (ground arith) (ground arith)))
        ]
      ]

  Finds-found :
      (test : ℕ → Bool) (lo hi : ℕ) (o : Option ℕ)
      → Finds test lo hi o
      → (r : ℕ) × (o ≡ some r) × Divides test lo hi r
  Finds-found test lo hi none d = absurd d
  Finds-found test lo hi (some r) d = (r, refl, d)

  pub last_below-found :
      (test : ℕ → Bool) (n : ℕ)
      → 0 < n
      → (r : ℕ) × (last_below f n test 0 (n - 1) ≡ some r) × Divides test 0 (n - 1) r
  last_below-found test n h =
      Finds-found test 0 (n - 1) _ (last_below-Finds n test 0 (n - 1) (omega arith) (omega arith))

  -- The lookup by time ends in a segment of the profile that has begun, unless it is the first, and
  -- that is the last one or has its successor begin later.
  pub segment_at_time-Divides :
      (p : Profile f) (t : f.F)
      → 0 < length p.segs
      → Divides
          (λ i. f.le ((seg_at f p i).start_offset) t)
          0
          (length p.segs - 1)
          (segment_at_time f p t)
  unfolding segment_at_time
  segment_at_time-Divides p t h =
      let (r, e, d) =
        last_below-found (λ i. f.le ((seg_at f p i).start_offset) t) (length p.segs) h in
      rw e d

  -- Whether a place is the last one or offers arrivals.
  abbrev pub offers : Profile f → ℕ → Bool
  offers p i = i == length p.segs - 1 || not (f.eq ((seg_at f p i).capacity) (zero_f f))

  -- The step forward ends, and passes nothing that offers arrivals.
  abbrev Skips : Profile f → ℕ → Option ℕ → Type 0
  Skips p lo none = ⊥
  Skips p lo (some s) =
      (lo ≤ s)
      × (s ≤ length p.segs - 1)
      × (offers p s ≡ true)
      × ((j : ℕ) → lo ≤ j → j < s → offers p j ≡ false)

  stays :
      (p : Profile f) (lo : ℕ) → lo ≤ length p.segs - 1 → offers p lo ≡ true → Skips p lo (some lo)
  stays p lo h o = (omega arith, h, o, λ j a b. absurd (omega arith))

  steps :
      (p : Profile f) (lo : ℕ) (o : Option ℕ)
      → offers p lo ≡ false
      → Skips p (suc lo) o
      → Skips p lo o
  steps p lo none e s = s
  steps p lo (some r) e (a, b, c, d) =
      (omega arith, b, c, λ j l m. passed j l m (Bool-cases (j == lo)))
    where
      passed :
          (j : ℕ) → lo ≤ j → j < r → ((j == lo) ≡ true) ⊎ ((j == lo) ≡ false) → offers p j ≡ false
      passed j l m (inl q) = subst (λ i. offers p i ≡ false) (sym ((==_iff j lo).0 q)) e
      passed j l m (inr q) = d j (ground arith) m

  skip_empty-Skips :
      (fuel : ℕ) (p : Profile f) (lo : ℕ)
      → lo ≤ length p.segs - 1
      → length p.segs - 1 - lo ≤ fuel
      → Skips p lo (skip_empty f fuel p lo)
  unfolding skip_empty
  skip_empty-Skips zero p lo h k =
      let e : ltb lo (length p.segs - 1) ≡ false = ground arith in
      rw e (stays p lo h (ground arith))
  skip_empty-Skips (suc fuel) p lo h k = elim (Bool-cases (ltb lo (length p.segs - 1))) [
    | inr e ↦ rw e (stays p lo h (ground arith))
    | inl e ↦ elim (Bool-cases (f.eq ((seg_at f p lo).capacity) (zero_f f))) [
      | inr t ↦ rw (e, t) (stays p lo h (ground (arith, t)))
      | inl t ↦
          rw (e, t)
            (steps p lo _ (ground (arith, t))
              (skip_empty-Skips fuel p (suc lo) (ground arith) (ground arith)))
    ]
  ]

  Skips-found :
      (p : Profile f) (lo : ℕ) (o : Option ℕ)
      → Skips p lo o
      → (s : ℕ) × (o ≡ some s) × Skips p lo (some s)
  Skips-found p lo none d = absurd d
  Skips-found p lo (some s) d = (s, refl, d)

  -- The lookup by count ends, both its search and its step forward, with as many rounds as segments.
  -- The search ends at a segment before whose start fewer arrivals than the count are due, unless it is
  -- the first, and whose successor does not start so. The lookup is the first segment from there on
  -- that is the last one or offers arrivals, so that none is solved for in an empty one.
  pub segment_at_count-offers :
      (p : Profile f) (k : f.F)
      → 0 < length p.segs
      → (r : ℕ) × (last_below f
            (length p.segs)
            (λ i. f.lt ((seg_at f p i).cum_start) k)
            0
            (length p.segs - 1)
          ≡ some r)
        × Divides (λ i. f.lt ((seg_at f p i).cum_start) k) 0 (length p.segs - 1) r
        × (skip_empty f (length p.segs) p r ≡ some (segment_at_count f p k))
        × (r ≤ segment_at_count f p k)
        × (segment_at_count f p k < length p.segs)
        × (offers p (segment_at_count f p k) ≡ true)
        × ((j : ℕ) → r ≤ j → j < segment_at_count f p k → offers p j ≡ false)
  unfolding segment_at_count
  segment_at_count-offers p k h =
      let (r, e, d) = last_below-found (λ i. f.lt ((seg_at f p i).cum_start) k) (length p.segs) h in
      let (s, q, w) =
        Skips-found p r _ (skip_empty-Skips (length p.segs) p r (d.1) (omega arith)) in
      rw e (rw q (r, refl, d, q, w.0, omega (arith, w.1), w.2, w.3))
