-- ===== src/Schedule/Accepts.antt =====
-- Which profiles are built, and what they hold.
use tracepoint.Base.{
  ℕ, suc, ◌+◌, ◌≡◌, refl, Bool, true, false, not, ◌&&◌, List, [], ◌∷◌, all, length, length-append,
  arith,
}
use tracepoint.Base.Int.{ℤ, pos, ltb_ℤ, ◌+ℤ◌}
use tracepoint.Base.Float.{Float}
use tracepoint.Errs.{ok, is_ok}
use tracepoint.Schedule.Profile.{
  Stage, Profile, build, new_profile, is_finite, zero_f, appended, segment, in_seconds,
}

module _ (f : Float) where
  -- A rate that can be offered.
  abbrev pub is_rate : f.F → Bool
  is_rate v = is_finite f v && not (f.lt v (zero_f f))

  abbrev pub is_stage : Stage f → Bool
  is_stage st = ltb_ℤ (pos 0) st.duration && is_rate st.target

  abbrev pub is_null : List (Stage f) → Bool
  is_null [] = true
  is_null (_ ∷ _) = false

  is_ok-build :
      (i : ℕ) (prev offset : f.F) (p : Profile f) (sts : List (Stage f))
      → is_ok (build f i prev offset p sts) ≡ all is_stage sts
  unfolding build all
  is_ok-build i prev offset p [] = refl
  is_ok-build i prev offset p (st ∷ sts) = ground (
    arith,
    is_ok-build (suc i) st.target (f.add offset (in_seconds f st.duration))
        (appended f (segment f prev offset p.total st) st.duration p) sts,
  )

  -- A profile is built exactly when there is a stage, the starting rate and every target are finite
  -- and not negative, and every duration is positive.
  pub new_profile-accepts :
      (start_rate : f.F) (sts : List (Stage f))
      → is_ok (new_profile f start_rate sts)
        ≡ (not (is_null sts) && (is_rate start_rate && all is_stage sts))
  unfolding new_profile
  new_profile-accepts start_rate [] = refl
  new_profile-accepts start_rate (st ∷ sts) = ground (
    arith,
    is_ok-build 0 start_rate (zero_f f) (record { segs = []; duration = pos 0; total = zero_f f })
        (st ∷ sts),
  )

  unfoldable pub total_duration : ℤ → List (Stage f) → ℤ
  total_duration d [] = d
  total_duration d (st ∷ sts) = total_duration (d +ℤ st.duration) sts

  build-lasts :
      (i : ℕ) (prev offset : f.F) (p : Profile f) (sts : List (Stage f)) (q : Profile f)
      → build f i prev offset p sts ≡ ok q
      → (length q.segs ≡ length p.segs + length sts) × (q.duration ≡ total_duration p.duration sts)
  unfolding build total_duration
  build-lasts i prev offset p [] q h = ground arith
  build-lasts i prev offset p (st ∷ sts) q h = ground (
    arith,
    length-append p.segs (segment f prev offset p.total st ∷ []),
    build-lasts (suc i) st.target (f.add offset (in_seconds f st.duration))
        (appended f (segment f prev offset p.total st) st.duration p) sts q,
  )

  -- A profile that is built has one segment for each stage and lasts as long as they do together.
  pub new_profile-lasts :
      (start_rate : f.F) (sts : List (Stage f)) (p : Profile f)
      → new_profile f start_rate sts ≡ ok p
      → (length p.segs ≡ length sts) × (p.duration ≡ total_duration (pos 0) sts)
  unfolding new_profile
  new_profile-lasts start_rate [] p h = ground arith
  new_profile-lasts start_rate (st ∷ sts) p h = ground (
    arith,
    build-lasts 0 start_rate (zero_f f) (record { segs = []; duration = pos 0; total = zero_f f })
        (st ∷ sts) p,
  )
