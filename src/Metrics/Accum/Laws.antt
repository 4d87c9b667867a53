-- ===== src/Metrics/Accum/Laws.antt =====
-- What every accumulator satisfies, and the quantities that its operations add up.
use tracepoint.Base.{ℕ, ◌+◌, ◌≤◌, Bool, ◌≡◌, refl, some, if◌then◌else◌, arith}
use tracepoint.Base.Float.{Float}
use tracepoint.Metrics.Outcome.{Class, same_class, Outcome}
use tracepoint.Metrics.Sketch.{Sketches}
use tracepoint.Metrics.Accum.{
  Counts, bump, Accum, new_accum, fresh, add, merge_into, reset, summary,
}

abbrev pub total : Counts → ℕ
total e =
    e Class.ok
    + e Class.timeout
    + e Class.connection
    + e Class.dns
    + e Class.tls
    + e Class.pool_timeout
    + e Class.http_4xx
    + e Class.http_5xx
    + e Class.expect_failed
    + e Class.extract_failed
    + e Class.query_error
    + e Class.canceled
    + e Class.other

total-bump : (e : Counts) (c : Class) → total (bump e c) ≡ total e + 1
total-bump e Class.ok = omega arith
total-bump e c = omega arith

pub le-total : (e : Counts) (c : Class) → e c ≤ total e
le-total e Class.ok = omega arith
le-total e c = omega arith

abbrev pub one_if : Bool → ℕ
one_if b = if b then 1 else 0

pub bump-at : (e : Counts) (c d : Class) → bump e c d ≡ e d + one_if (same_class c d)
bump-at e c d = ground arith

module _ (f : Float) (k : Sketches f) where
  pub record IsSound (a : Accum f k) : Type 0 where
    pub counted : a.n ≡ total a.errs
    pub idle : a.n ≡ 0 → (a.bytes_in ≡ 0) × (a.bytes_out ≡ 0)

  pub new_accum-IsSound : (q : f.F) {a : Accum f k} → new_accum f k q ≡ some a → IsSound a
  unfolding new_accum fresh
  new_accum-IsSound q h = ground arith

  pub add-IsSound : (o : Outcome) (a : Accum f k) → IsSound a → IsSound (add f k o a)
  unfolding add
  add-IsSound o a s = record {
    counted = omega (arith, total-bump a.errs o.class, s.counted);
    idle = λ h. absurd (omega arith);
  }

  pub reset-IsSound : (a : Accum f k) → IsSound (reset f k a)
  unfolding reset
  reset-IsSound a = record { counted = refl; idle = λ h. (refl, refl) }

  pub merge_into-n : (a dst : Accum f k) → (merge_into f k a dst).0.n ≡ dst.n + a.n
  unfolding merge_into
  merge_into-n a dst = ground arith

  -- An accumulator that counted nothing is skipped, and had nothing to give.
  pub merge_into-errs :
      (a dst : Accum f k) (c : Class)
      → IsSound a
      → (merge_into f k a dst).0.errs c ≡ dst.errs c + a.errs c
  unfolding merge_into
  merge_into-errs a dst c s = ground (arith, le-total a.errs c)

  pub merge_into-bytes_in :
      (a dst : Accum f k)
      → IsSound a
      → (merge_into f k a dst).0.bytes_in ≡ dst.bytes_in + a.bytes_in
  unfolding merge_into
  merge_into-bytes_in a dst s = ground arith

  pub merge_into-bytes_out :
      (a dst : Accum f k)
      → IsSound a
      → (merge_into f k a dst).0.bytes_out ≡ dst.bytes_out + a.bytes_out
  unfolding merge_into
  merge_into-bytes_out a dst s = ground arith

  pub merge_into-IsSound :
      (a dst : Accum f k) → IsSound a → IsSound dst → IsSound (merge_into f k a dst).0
  merge_into-IsSound a dst s t =
      let e = λ (c : Class). merge_into-errs a dst c s in
      record {
        counted = omega (
          arith,
          merge_into-n a dst,
          e Class.ok,
          e Class.timeout,
          e Class.connection,
          e Class.dns,
          e Class.tls,
          e Class.pool_timeout,
          e Class.http_4xx,
          e Class.http_5xx,
          e Class.expect_failed,
          e Class.extract_failed,
          e Class.query_error,
          e Class.canceled,
          e Class.other,
        );
        idle = λ h.
            omega (
              arith,
              merge_into-n a dst,
              merge_into-bytes_in a dst s,
              merge_into-bytes_out a dst s,
            );
      }

  -- A quantity of an accumulator to which each outcome contributes a fixed share.
  pub record Measure : Type 0 where
    pub of : Accum f k → ℕ
    pub share : Outcome → ℕ
    pub of-new : (q : f.F) (a : Accum f k) → new_accum f k q ≡ some a → of a ≡ 0
    pub of-idle : (a : Accum f k) → IsSound a → a.n ≡ 0 → of a ≡ 0
    pub of-add : (o : Outcome) (a : Accum f k) → of (add f k o a) ≡ of a + share o
    pub of-reset : (a : Accum f k) → of (reset f k a) ≡ 0
    pub of-merge : (a dst : Accum f k) → IsSound a → of (merge_into f k a dst).0 ≡ of dst + of a

  pub new_accum-n : (q : f.F) (a : Accum f k) → new_accum f k q ≡ some a → a.n ≡ 0
  unfolding new_accum fresh
  new_accum-n q a h = ground arith

  pub new_accum-errs :
      (c : Class) (q : f.F) (a : Accum f k) → new_accum f k q ≡ some a → a.errs c ≡ 0
  unfolding new_accum fresh
  new_accum-errs c q a h = ground arith

  pub new_accum-bytes_in : (q : f.F) (a : Accum f k) → new_accum f k q ≡ some a → a.bytes_in ≡ 0
  unfolding new_accum fresh
  new_accum-bytes_in q a h = ground arith

  pub errs_idle : (c : Class) (a : Accum f k) → IsSound a → a.n ≡ 0 → a.errs c ≡ 0
  errs_idle c a s h = omega (arith, s.counted, le-total a.errs c)

  unfoldable pub counting : Measure
  unfolding add reset
  counting = record {
    of = λ a. a.n;
    share = λ o. 1;
    of-new = new_accum-n;
    of-idle = λ a s h. h;
    of-add = λ o a. refl;
    of-reset = λ a. refl;
    of-merge = λ a dst s. merge_into-n a dst;
  }

  unfoldable pub counting_class : Class → Measure
  unfolding add reset
  counting_class c = record {
    of = λ a. a.errs c;
    share = λ o. one_if (same_class o.class c);
    of-new = new_accum-errs c;
    of-idle = errs_idle c;
    of-add = λ o a. bump-at a.errs o.class c;
    of-reset = λ a. refl;
    of-merge = λ a dst s. merge_into-errs a dst c s;
  }

  unfoldable pub counting_bytes_in : Measure
  unfolding add reset
  counting_bytes_in = record {
    of = λ a. a.bytes_in;
    share = λ o. o.bytes_in;
    of-new = new_accum-bytes_in;
    of-idle = λ a s h. (s.idle h).0;
    of-add = λ o a. refl;
    of-reset = λ a. refl;
    of-merge = λ a dst s. merge_into-bytes_in a dst s;
  }

  -- The failures that a summary reports are those of its classes other than success, all of them.
  pub summary-errors_total :
      (window : ℕ) (a : Accum f k)
      → IsSound a
      → (summary f k window a).ok + (summary f k window a).errors_total ≡ a.n
  unfolding summary
  summary-errors_total window a s = omega (arith, s.counted)
