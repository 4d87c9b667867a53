-- ===== src/Schedule/Order.antt =====
-- The arrivals of a schedule come in order, and end for good.
use tracepoint.Base.{
  ℕ, zero, suc, ◌+◌, ◌≡◌, refl, Bool, true, false, List, [], ◌∷◌, Option, none, some, arith, subst,
  ap, if◌then◌else◌,
}
use tracepoint.Base.Int.{ℤ, pos, ◌≤ℤ◌}
use tracepoint.Base.Float.{Float}
use tracepoint.Errs.{ok}
use tracepoint.Schedule.Profile.{Profile, invert}
use tracepoint.Schedule.Arrivals.{
  Arrival, Schedule, new_schedule, next, take, emit, consume, uniform, poisson, unknown,
}

abbrev pub IsOver : List (Option ℤ) → Type 0
IsOver [] = Unit
IsOver (some at ∷ rest) = ⊥
IsOver (none ∷ rest) = IsOver rest

-- Offsets that never go back, and nothing after the end.
abbrev pub IsOrdered : ℤ → List (Option ℤ) → Type 0
IsOrdered last [] = Unit
IsOrdered last (some at ∷ rest) = (last ≤ℤ at) × IsOrdered at rest
IsOrdered last (none ∷ rest) = IsOver rest

abbrev pub arrived : List (Option ℤ) → ℕ
arrived [] = 0
arrived (some _ ∷ rest) = suc (arrived rest)
arrived (none ∷ rest) = arrived rest

module _ (f : Float) where
  next_done : (s : Schedule f) → s.done ≡ true → next f s ≡ (s, none)
  unfolding next
  next_done s h = rw h refl

  take-IsOver :
      (n : ℕ) (s : Schedule f) → s.done ≡ true → IsOver ((take f n s).1) × ((take f n s).0 ≡ s)
  unfolding take
  take-IsOver zero s h = (tt, refl)
  take-IsOver (suc n) s h = rw (next_done s h) (take-IsOver n s h)

  -- One call: it ends the schedule, or gives an offset that is not before the last.
  abbrev Follows : Schedule f → Schedule f × Option ℤ → Type 0
  Follows s (s', none) = (s'.done ≡ true) × (s'.count ≡ s.count)
  Follows s (s', some at) = (s.last ≤ℤ at) × (s'.last ≡ at) × (s'.count ≡ suc s.count)

  consume_keeps :
      (a : Arrival) (s : Schedule f)
      → ((consume f a s).last ≡ s.last) × ((consume f a s).count ≡ s.count)
  consume_keeps uniform s = (refl, refl)
  consume_keeps poisson s = (refl, refl)
  consume_keeps unknown s = (refl, refl)

  emit-Follows :
      (o : Option ℤ) (c s : Schedule f)
      → c.last ≡ s.last
      → c.count ≡ s.count
      → Follows s (emit f o c)
  emit-Follows none c s l n = (refl, n)
  emit-Follows (some at) c s l n = (ground arith, refl, ground arith)

  next-Follows : (s : Schedule f) → Follows s (next f s)
  unfolding next
  next-Follows s = go s.done refl
    where
      go :
          (b : Bool)
          → s.done ≡ b
          → Follows s (
              if b
              then (s, none)
              else emit f
                  (invert f (consume f s.arrival s).profile (consume f s.arrival s).consumed)
                  (consume f s.arrival s))
      go true e = (e, refl)
      go false e =
          emit-Follows (invert f (consume f s.arrival s).profile (consume f s.arrival s).consumed)
            (consume f s.arrival s) s ((consume_keeps s.arrival s).0)
            ((consume_keeps s.arrival s).1)

  -- What some calls give, from a schedule in any state.
  abbrev GivesOrder : ℕ → Schedule f → Type 0
  GivesOrder n s =
      IsOrdered s.last ((take f n s).1)
      × ((take f n s).0.count ≡ s.count + arrived ((take f n s).1))

  no-arrived : (xs : List (Option ℤ)) → IsOver xs → arrived xs ≡ 0
  no-arrived [] h = refl
  no-arrived (some at ∷ xs) h = absurd h
  no-arrived (none ∷ xs) h = no-arrived xs h

  call-GivesOrder :
      (n : ℕ) (s : Schedule f) (r : Schedule f × Option ℤ)
      → Follows s r
      → ((s' : Schedule f) → GivesOrder n s')
      → IsOrdered s.last (r.1 ∷ (take f n r.0).1)
        × ((take f n r.0).0.count ≡ s.count + arrived (r.1 ∷ (take f n r.0).1))
  call-GivesOrder n s (s', none) h more =
      let (over, same) = take-IsOver n s' h.0 in
      (over, omega (arith, ap (λ x. x.count) same, no-arrived ((take f n s').1) over, h.1))
  call-GivesOrder n s (s', some at) h more = (
    (h.0, subst (λ l. IsOrdered l ((take f n s').1)) h.1 (more s').0),
    omega (arith, (more s').1, h.2),
  )

  take-GivesOrder : (n : ℕ) (s : Schedule f) → GivesOrder n s
  unfolding take
  take-GivesOrder zero s = (tt, omega arith)
  take-GivesOrder (suc n) s =
      call-GivesOrder n s (next f s) (next-Follows s) (λ s'. take-GivesOrder n s')

  new_schedule-starts :
      (o : Option (Profile f)) (arrival : Arrival) (rng : Option (ℕ → f.F)) (s : Schedule f)
      → new_schedule f o arrival rng ≡ ok s
      → (s.last ≡ pos 0) × (s.count ≡ 0)
  unfolding new_schedule
  new_schedule-starts none arrival rng s h = ground arith
  new_schedule-starts (some p) uniform none s h = ground arith
  new_schedule-starts (some p) uniform (some rng) s h = ground arith
  new_schedule-starts (some p) poisson none s h = ground arith
  new_schedule-starts (some p) poisson (some rng) s h = ground arith
  new_schedule-starts (some p) unknown rng s h = ground arith

  -- The offsets that a new schedule gives are not negative and never go back, after the first call
  -- that gives none no other gives one, and the count is that of the offsets given.
  pub take-IsOrdered :
      (o : Option (Profile f)) (arrival : Arrival) (rng : Option (ℕ → f.F)) (s : Schedule f) (n : ℕ)
      → new_schedule f o arrival rng ≡ ok s
      → IsOrdered (pos 0) ((take f n s).1) × ((take f n s).0.count ≡ arrived ((take f n s).1))
  take-IsOrdered o arrival rng s n h =
      let (l, c) = new_schedule-starts o arrival rng s h in
      let (a, b) = take-GivesOrder n s in
      (subst (λ x. IsOrdered x ((take f n s).1)) l a, omega (arith, b, c))
