-- ===== src/Schedule/Arrivals.antt =====
-- `NewSchedule` and `Next`. The random source of Poisson arrivals is the list of its draws, by index.
use tracepoint.Base.{
  ℕ, zero, suc, Bool, true, false, List, [], ◌∷◌, Option, none, some, if◌then◌else◌,
}
use tracepoint.Base.Int.{ℤ, pos, ltb_ℤ}
use tracepoint.Base.Float.{Float}
use tracepoint.Errs.{Result, ok, err, error, config_invalid_value, internal}
use tracepoint.Schedule.Profile.{Profile, invert}

-- `unknown` stands for every other string.
pub data Arrival : Type 0 where
  uniform poisson unknown : Arrival

module _ (f : Float) where
  -- `rng` gives the draw of ExpFloat64 with each number; `draws` counts those taken.
  pub record Schedule : Type 0 where
    pub profile : Profile f
    pub arrival : Arrival
    pub rng : ℕ → f.F
    pub draws : ℕ
    pub consumed : f.F
    pub last : ℤ
    pub count : ℕ
    pub done : Bool

  abbrev pub started : Profile f → Arrival → (ℕ → f.F) → Schedule
  started p arrival rng = record {
    profile = p;
    arrival = arrival;
    rng = rng;
    draws = 0;
    consumed = f.of_int (pos 0);
    last = pos 0;
    count = 0;
    done = false;
  }

  abbrev no_draws : ℕ → f.F
  no_draws n = f.of_int (pos 0)

  unfoldable pub new_schedule : Option (Profile f) → Arrival → Option (ℕ → f.F) → Result Schedule
  new_schedule none arrival rng = err (error internal "")
  new_schedule (some p) uniform none = ok (started p uniform no_draws)
  new_schedule (some p) uniform (some rng) = ok (started p uniform rng)
  new_schedule (some p) poisson none = err (error internal "")
  new_schedule (some p) poisson (some rng) = ok (started p poisson rng)
  new_schedule (some p) unknown rng = err (error config_invalid_value "/run/arrival")

  -- One more arrival is fed into the inverse.
  abbrev pub consume : Arrival → Schedule → Schedule
  consume poisson s = record s { consumed = f.add s.consumed (s.rng s.draws); draws = suc s.draws }
  consume uniform s = record s { consumed = f.add s.consumed (f.of_int (pos 1)) }
  consume unknown s = s

  abbrev pub later : ℤ → ℤ → ℤ
  later at last = if ltb_ℤ at last then last else at

  abbrev pub emit : Option ℤ → Schedule → Schedule × Option ℤ
  emit none s = (record s { done = true }, none)
  emit (some at) s =
      (record s { last = later at s.last; count = suc s.count }, some (later at s.last))

  unfoldable pub next : Schedule → Schedule × Option ℤ
  next s =
      let c = consume s.arrival s in
      if s.done then (s, none) else emit (invert f c.profile c.consumed) c

  -- The offsets of the first calls.
  unfoldable pub take : ℕ → Schedule → Schedule × List (Option ℤ)
  take zero s = (s, [])
  take (suc n) s = let (s', at) = next s in let (s'', rest) = take n s' in (s'', at ∷ rest)
