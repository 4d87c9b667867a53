-- ===== src/Schedule/Profile.antt =====
-- `NewProfile` and the functions of a profile.
use tracepoint.Base.{
  ◌&&◌, ℕ, zero, suc, ◌+◌, ◌-◌, ◌/◌, ◌%◌, Bool, not, ◌||◌, List, [], ◌∷◌, ◌++◌, Option, none, some,
  if◌then◌else◌, ltb, length, get_or,
}
use tracepoint.Base.Int.{ℤ, pos, pos_part, ltb_ℤ, ◌+ℤ◌}
use tracepoint.Base.Float.{Float}
use tracepoint.Base.Decimal.{decimal}
use tracepoint.Base.Text.{concat}
use tracepoint.Errs.{Result, ok, err, error, config_invalid_value}
use Prim.Native.String.{String}

abbrev pub nanosecond_rate : ℕ
nanosecond_rate = 1000000000

abbrev stage_path : ℕ → String
stage_path i = concat "/executor/stages/" (decimal i)

module _ (f : Float) where
  pub record Stage : Type 0 where
    pub duration : ℤ
    pub target : f.F

  pub record Segment : Type 0 where
    pub start_offset : f.F
    pub d : f.F
    pub r0 : f.F
    pub r1 : f.F
    pub a : f.F
    pub b : f.F
    pub cum_start : f.F
    pub capacity : f.F

  pub record Profile : Type 0 where
    pub segs : List Segment
    pub duration : ℤ
    pub total : f.F

  abbrev pub zero_f : f.F
  zero_f = f.of_int (pos 0)

  -- Duration.Seconds, of a duration that is not negative.
  abbrev pub in_seconds : ℤ → f.F
  in_seconds d =
      f.add (f.of_int (pos (pos_part d / nanosecond_rate)))
        (f.div (f.of_int (pos (pos_part d % nanosecond_rate))) (f.of_int (pos nanosecond_rate)))

  unfoldable pub seconds : f.F → ℤ
  seconds x = f.trunc (f.mul x (f.of_int (pos nanosecond_rate)))

  abbrev pub is_finite : f.F → Bool
  is_finite v = not (f.is_nan v || f.is_inf v)

  abbrev slope : f.F → f.F → f.F → f.F
  slope prev target d = f.div (f.sub target prev) (f.mul (f.of_int (pos 2)) d)

  abbrev pub segment : (prev offset total : f.F) → Stage → Segment
  segment prev offset total st =
      let d = in_seconds st.duration in
      let a = slope prev st.target d in
      record {
        start_offset = offset;
        d = d;
        r0 = prev;
        r1 = st.target;
        a = a;
        b = prev;
        cum_start = total;
        capacity = f.add (f.mul (f.mul a d) d) (f.mul prev d);
      }

  abbrev pub appended : Segment → ℤ → Profile → Profile
  appended seg d p = record {
    segs = p.segs ++ seg ∷ [];
    duration = p.duration +ℤ d;
    total = f.add p.total seg.capacity;
  }

  -- The loop over the stages, from stage number `i` on.
  unfoldable pub build : ℕ → (prev offset : f.F) → Profile → List Stage → Result Profile
  build i prev offset p [] = ok p
  build i prev offset p (st ∷ sts) =
      let rest =
        build (suc i) st.target (f.add offset (in_seconds st.duration))
          (appended (segment prev offset p.total st) st.duration p) sts in
      if not (ltb_ℤ (pos 0) st.duration)
      then err (error config_invalid_value (stage_path i))
      else if not (is_finite st.target)
      then err (error config_invalid_value (stage_path i))
      else if f.lt st.target zero_f
      then err (error config_invalid_value (stage_path i))
      else rest

  abbrev empty_profile : Profile
  empty_profile = record { segs = []; duration = pos 0; total = zero_f }

  unfoldable pub new_profile : f.F → List Stage → Result Profile
  new_profile start_rate [] = err (error config_invalid_value "")
  new_profile start_rate (st ∷ sts) =
      let built = build 0 start_rate zero_f empty_profile (st ∷ sts) in
      if not (is_finite start_rate)
      then err (error config_invalid_value "")
      else if f.lt start_rate zero_f
      then err (error config_invalid_value "")
      else built

  -- A profile that was built has a segment; where there is none the code would panic.
  abbrev pub no_segment : Segment
  no_segment = record {
    start_offset = zero_f;
    d = zero_f;
    r0 = zero_f;
    r1 = zero_f;
    a = zero_f;
    b = zero_f;
    cum_start = zero_f;
    capacity = zero_f;
  }

  abbrev pub seg_at : Profile → ℕ → Segment
  seg_at p i = get_or p.segs i no_segment

  -- The binary search of both lookups: the last place in [lo, hi] whose segment passes the test.
  -- `none` when the rounds run out before the loop ends.
  unfoldable pub last_below : ℕ → (ℕ → Bool) → ℕ → ℕ → Option ℕ
  last_below zero test lo hi = if ltb lo hi then none else some lo
  last_below (suc fuel) test lo hi =
      let mid = (lo + hi + 1) / 2 in
      let right = last_below fuel test mid hi in
      let left = last_below fuel test lo (mid - 1) in
      if ltb lo hi then (if test mid then right else left) else some lo

  -- The place that a loop ended at.
  abbrev pub ended_at : Option ℕ → ℕ
  ended_at none = 0
  ended_at (some i) = i

  -- Each round leaves fewer places, so as many rounds as segments are enough.
  unfoldable pub segment_at_time : Profile → f.F → ℕ
  segment_at_time p t =
      ended_at
        (last_below (length p.segs) (λ i. f.le ((seg_at p i).start_offset) t) 0 (length p.segs - 1))

  -- The step forward over the segments that offer nothing.
  unfoldable pub skip_empty : ℕ → Profile → ℕ → Option ℕ
  skip_empty zero p lo =
      if ltb lo (length p.segs - 1) && f.eq ((seg_at p lo).capacity) zero_f then none else some lo
  skip_empty (suc fuel) p lo =
      let rest = skip_empty fuel p (suc lo) in
      if ltb lo (length p.segs - 1)
      then (if f.eq ((seg_at p lo).capacity) zero_f then rest else some lo)
      else some lo

  abbrev pub offering : Profile → Option ℕ → Option ℕ
  offering p none = none
  offering p (some lo) = skip_empty (length p.segs) p lo

  unfoldable pub segment_at_count : Profile → f.F → ℕ
  segment_at_count p k = ended_at (
      offering p
        (last_below (length p.segs) (λ i. f.lt ((seg_at p i).cum_start) k) 0 (length p.segs - 1)))

  abbrev nonnegative : f.F → f.F
  nonnegative x = if f.lt x zero_f then zero_f else x

  unfoldable pub solve : f.F → f.F → f.F → f.F
  solve a b c =
      let disc = nonnegative (f.add (f.mul b b) (f.mul (f.mul (f.of_int (pos 4)) a) c)) in
      let den = f.add b (f.sqrt disc) in
      if f.le c zero_f
      then zero_f
      else if f.le den zero_f
      then zero_f
      else f.div (f.mul (f.of_int (pos 2)) c) den

  abbrev at_most : f.F → f.F → f.F
  at_most s d = if f.lt d s then d else s

  -- The local time in a segment, kept within it.
  unfoldable pub local_time : Segment → f.F → f.F
  local_time seg k = at_most (nonnegative (solve seg.a seg.b (f.sub k seg.cum_start))) seg.d

  unfoldable pub invert : Profile → f.F → Option ℤ
  invert p k =
      let seg = seg_at p (segment_at_count p k) in
      if f.le k zero_f
      then some (pos 0)
      else if f.lt p.total k
      then none
      else some (seconds (f.add seg.start_offset (local_time seg k)))

  unfoldable pub rate_at : Profile → ℤ → f.F
  rate_at p at =
      let seg = seg_at p (segment_at_time p (in_seconds at)) in
      let s = at_most (f.sub (in_seconds at) seg.start_offset) seg.d in
      if ltb_ℤ at (pos 0)
      then zero_f
      else if ltb_ℤ p.duration at
      then zero_f
      else f.add seg.r0 (f.mul (f.sub seg.r1 seg.r0) (f.div s seg.d))

  unfoldable pub lambda : Profile → ℤ → f.F
  lambda p at =
      let seg = seg_at p (segment_at_time p (in_seconds at)) in
      let s = f.sub (in_seconds at) seg.start_offset in
      if not (ltb_ℤ (pos 0) at)
      then zero_f
      else if not (ltb_ℤ at p.duration)
      then p.total
      else f.add (f.add seg.cum_start (f.mul (f.mul seg.a s) s)) (f.mul seg.b s)
