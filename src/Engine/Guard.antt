-- ===== src/Engine/Guard.antt =====
-- internal/engine/guard.go: the abort guard. Offsets from the run start are nanoseconds, never
-- negative. The reason keeps the two counts that its message shows.
pub mod Window
pub mod Refines
mod Examples
use tracepoint.Base.{
  ℕ, ◌+◌, ◌-◌, ◌*◌, ◌/◌, ◌%◌, Bool, true, false, ◌||◌, Option, none, some, List, [], ◌∷◌,
  if◌then◌else◌, ltb, leb, ◌==◌, update, sum_below,
}
use tracepoint.Base.Float.{Float}
use tracepoint.Base.Int.{ℤ, pos, negsuc}
use tracepoint.Metrics.Outcome.{Class, counts_toward_abort_guard}

abbrev pub guard_resolution : ℕ
guard_resolution = 250000000

abbrev pub default_abort_window : ℕ
default_abort_window = 10000000000

abbrev pub min_samples : ℕ
min_samples = 20

pub record Slot : Type 0 where
  pub at : ℕ
  pub total : ℕ
  pub failed : ℕ

abbrev pub empty_slot : Slot
empty_slot = record { at = 0; total = 0; failed = 0 }

-- The start of the period that an offset lies in.
abbrev pub bucket_at : ℕ → ℕ
bucket_at at = at / guard_resolution * guard_resolution

abbrev pub failing : Class → ℕ
failing class = if counts_toward_abort_guard class then 1 else 0

-- A slot that holds an older period is reused.
unfoldable pub reuse : ℕ → Slot → Slot
reuse start s = if s.at == start then s else record { at = start; total = 0; failed = 0 }

unfoldable pub count_in : Class → Slot → Slot
count_in class s = record { at = s.at; total = s.total + 1; failed = s.failed + failing class }

-- The slots that the rolling window takes in.
abbrev pub live : ℕ → Slot → Bool
live cutoff s = if ltb s.at cutoff || s.total == 0 then false else true

abbrev pub live_total : ℕ → Slot → ℕ
live_total cutoff s = if live cutoff s then s.total else 0

abbrev pub live_failed : ℕ → Slot → ℕ
live_failed cutoff s = if live cutoff s then s.failed else 0

-- The slot of an offset: `int(at/guardResolution) % len(g.slots)`.
unfoldable pub place : ℕ → ℕ → ℕ
place count at = (at / guard_resolution) % count

module _ (f : Float) where
  pub record AbortGuard : Type 0 where
    pub enabled : Bool
    pub ratio : f.F
    pub window : ℕ
    pub slot_count : ℕ
    pub slots : ℕ → Slot
    pub tripped : Bool
    pub reason : Option (ℕ × ℕ)

  abbrev window_of : ℤ → ℕ
  window_of (pos n) = if n == 0 then default_abort_window else n
  window_of (negsuc n) = default_abort_window

  unfoldable pub new_abort_guard : Bool → f.F → ℤ → AbortGuard
  new_abort_guard enabled ratio window = record {
    enabled = enabled;
    ratio = if f.le ratio (f.of_int (pos 0)) then f.lit 5 1 else ratio;
    window = window_of window;
    slot_count = window_of window / guard_resolution + 1;
    slots = λ i. empty_slot;
    tripped = false;
    reason = none;
  }

  -- `float64(failed) / float64(total) > g.ratio`
  unfoldable pub above : f.F → ℕ → ℕ → Bool
  above ratio failed total = f.lt ratio (f.div (f.of_int (pos failed)) (f.of_int (pos total)))

  judge : ℕ → ℕ → AbortGuard → AbortGuard
  judge total failed g =
      if ltb total min_samples
      then g
      else if above g.ratio failed total
      then record g { tripped = true; reason = some (failed, total) }
      else g

  unfoldable pub evaluate : ℕ → AbortGuard → AbortGuard
  unfolding judge
  evaluate now g =
      let cutoff = now - g.window in
      if ltb now g.window
      then g
      else judge (sum_below g.slot_count (λ i. live_total cutoff (g.slots i)))
          (sum_below g.slot_count (λ i. live_failed cutoff (g.slots i))) g

  unfoldable pub file : Class → ℕ → AbortGuard → AbortGuard
  file class at g =
      let i = place g.slot_count at in
      record g { slots = update g.slots i (count_in class (reuse (bucket_at at) (g.slots i))) }

  unfoldable pub observe : Class → ℕ → AbortGuard → AbortGuard
  observe class at g =
      if g.enabled then (if g.tripped then g else evaluate at (file class at g)) else g

  -- `guardedRecorder.Record`, less the call of the inner recorder: the guard after the outcome, and
  -- whether `abort` has run, which the `sync.Once` makes it do at most once.
  unfoldable pub guarded_record : Class → ℕ → AbortGuard × ℕ → AbortGuard × ℕ
  guarded_record class end (g, aborts) =
      let h = observe class end g in
      (h, if h.tripped then (if aborts == 0 then 1 else aborts) else aborts)

  unfoldable pub observe_all : List (Class × ℕ) → AbortGuard → AbortGuard
  observe_all [] g = g
  observe_all ((class, at) ∷ xs) g = observe_all xs (observe class at g)
