-- ===== src/Schedule/Examples.antt =====
-- A ramp of two stages, run.
use tracepoint.Base.{
  ℕ, false, ◌≡◌, refl, ◌<◌, ◌≤◌, true, not, List, [], ◌∷◌, none, some, arith, all, ◌&&◌,
}
use tracepoint.Base.Int.{pos, ◌+ℤ◌, ◌-ℤ◌, ◌*ℤ◌}
use tracepoint.Base.Sample.{whole}
use tracepoint.Errs.{ok, is_ok}
use tracepoint.Schedule.Profile.{
  Stage, Profile, new_profile, build, segment_at_time, segment_at_count, last_below, skip_empty,
  seg_at, skip_empty, invert, solve, local_time, seconds,
}
use tracepoint.Schedule.Arrivals.{Schedule, new_schedule, take, next, uniform, started}
use tracepoint.Schedule.Order.{take-IsOrdered, IsOrdered, arrived}
use tracepoint.Schedule.Search.{segment_at_time-Divides, segment_at_count-offers, Divides, offers}
use tracepoint.Schedule.Accepts.{new_profile-accepts, is_null, is_rate, is_stage}

-- Two seconds at two a second, then one second down to none.
abbrev two_stages : List (Stage whole)
two_stages =
    record { duration = pos 2000000000; target = pos 2 }
    ∷ record { duration = pos 1000000000; target = pos 0 }
    ∷ []

abbrev falling : Profile whole
falling = record {
  segs =
      record {
        start_offset = pos 0;
        d = pos 2;
        r0 = pos 2;
        r1 = pos 2;
        a = pos 0;
        b = pos 2;
        cum_start = pos 0;
        capacity = pos 4;
      }
      ∷ record {
        start_offset = pos 2;
        d = pos 1;
        r0 = pos 2;
        r1 = pos 0;
        a = pos 0;
        b = pos 2;
        cum_start = pos 4;
        capacity = pos 2;
      }
      ∷ [];
  duration = pos 3000000000;
  total = pos 6;
}

falling_is_built : new_profile whole (pos 2) two_stages ≡ ok falling
unfolding new_profile build ◌+ℤ◌ ◌-ℤ◌ ◌*ℤ◌
falling_is_built = refl

new_profile-accepts_example :
    is_ok (new_profile whole (pos 2) two_stages)
    ≡ (not (is_null whole two_stages) && (is_rate whole (pos 2) && all (is_stage whole) two_stages))
new_profile-accepts_example = new_profile-accepts whole (pos 2) two_stages

segment_at_time-Divides_example :
    Divides
      (λ i. whole.le ((seg_at whole falling i).start_offset) (pos 2))
      0
      1
      (segment_at_time whole falling (pos 2))
segment_at_time-Divides_example = segment_at_time-Divides whole falling (pos 2) (omega arith)

segment_at_count-offers_example :
    let n = segment_at_count whole falling (pos 5) in
    (r : ℕ) × (last_below whole 2 (λ i. whole.lt ((seg_at whole falling i).cum_start) (pos 5)) 0 1
      ≡ some r)
    × Divides (λ i. whole.lt ((seg_at whole falling i).cum_start) (pos 5)) 0 1 r
    × (skip_empty whole 2 falling r ≡ some n)
    × (r ≤ n)
    × (n < 2)
    × (offers whole falling n ≡ true)
    × ((j : ℕ) → r ≤ j → j < n → offers whole falling j ≡ false)
segment_at_count-offers_example = segment_at_count-offers whole falling (pos 5) (omega arith)

abbrev fresh : Schedule whole
fresh = started whole falling uniform (λ n. pos 0)

fresh_is_new : new_schedule whole (some falling) uniform none ≡ ok fresh
unfolding new_schedule
fresh_is_new = refl

take-IsOrdered_example :
    IsOrdered (pos 0) ((take whole 9 fresh).1)
    × ((take whole 9 fresh).0.count ≡ arrived ((take whole 9 fresh).1))
take-IsOrdered_example = take-IsOrdered whole (some falling) uniform none fresh 9 fresh_is_new

six_arrive : arrived ((take whole 9 fresh).1) ≡ 6
unfolding take next invert segment_at_count last_below skip_empty local_time solve seconds ◌+ℤ◌ ◌-ℤ◌
    ◌*ℤ◌
six_arrive = refl
