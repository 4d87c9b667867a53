-- ===== src/Metrics/Collector/Recording.antt =====
-- `Record`, the executor's counters, `SealThrough` and `Finish`.
use tracepoint.Base.{
  ℕ, zero, suc, ◌+◌, ◌*◌, ◌%◌, true, Option, none, some, if◌then◌else◌, ltb, leb, ◌==◌, update,
}
use tracepoint.Base.Float.{Float}
use tracepoint.Base.Int.{ℤ, pos, negsuc, pos_part}
use tracepoint.Metrics.Outcome.{Outcome}
use tracepoint.Metrics.Sketch.{Sketches}
use tracepoint.Metrics.Accum.{add}
use tracepoint.Metrics.Collector.State.{
  Slot, Collector, width, label_count, overflow_id, covered, bucket_index_of,
}
use tracepoint.Metrics.Collector.Sealing.{seal_slot}

module _ (f : Float) (k : Sketches f) where
  -- A label that is out of range is the overflow label.
  unfoldable pub clamp_label : Collector f k → ℤ → ℕ
  clamp_label c (pos n) = if ltb n (label_count f k c) then n else overflow_id f k c
  clamp_label c (negsuc n) = overflow_id f k c

  count_status : ℤ → Collector f k → Collector f k
  count_status (negsuc n) c = record c { statuses_other = c.statuses_other + 1 }
  count_status (pos n) c =
      if n == 0
      then c
      else if ltb n 600
      then record c { statuses = update c.statuses n (c.statuses n + 1) }
      else record c { statuses_other = c.statuses_other + 1 }

  unfoldable pub note_status : Outcome → Collector f k → Collector f k
  unfolding count_status
  note_status o c = if c.cfg.track_statuses then count_status o.status c else c

  unfoldable pub note_bucket : ℕ → Collector f k → Collector f k
  note_bucket idx c =
      if c.seen_any
      then record c {
        min_bucket = if leb c.min_bucket idx then c.min_bucket else idx;
        max_bucket = if leb idx c.max_bucket then c.max_bucket else idx;
      }
      else record c { seen_any = true; min_bucket = idx; max_bucket = idx }

  -- An outcome whose bucket has gone counts towards the run, unless it belongs to the warm-up.
  unfoldable pub record_late : ℕ → Outcome → ℕ → Collector f k → Collector f k
  record_late id o idx c =
      if ltb idx c.warmup_buckets then record c { late = c.late + 1 } else record c {
        late = c.late + 1;
        whole_labels = update c.whole_labels id (add f k o (c.whole_labels id));
        whole_runner = add f k o c.whole_runner;
      }

  abbrev pub place : Collector f k → ℕ → ℕ
  place c idx = idx % c.ring_size

  abbrev pub set_slot : ℕ → Slot f k → Collector f k → Collector f k
  set_slot i s c = record c { ring = update c.ring i s }

  -- A free slot is given to a bucket.
  unfoldable pub open_slot : ℕ → ℕ → Collector f k → Collector f k
  open_slot i idx c = set_slot i (record (c.ring i) { index = some idx }) c

  -- The switch on what the slot at place `i` holds.
  unfoldable pub claim_at : Option ℕ → ℕ → ℕ → Collector f k → Option (Collector f k)
  claim_at none i idx c = some (open_slot i idx c)
  claim_at (some j) i idx c =
      if j == idx
      then some c
      else if ltb j idx
      then some (open_slot i idx (seal_slot f k i j c))
      else none

  -- The slot of a bucket, made ready for it: an older bucket there is sealed first. `none` when the
  -- slot holds a newer bucket.
  unfoldable pub claim : ℕ → Collector f k → Option (Collector f k)
  claim idx c = claim_at ((c.ring (place c idx)).index) (place c idx) idx c

  abbrev pub add_to_slot : ℕ → Outcome → Slot f k → Slot f k
  add_to_slot id o s = record s { labels = update s.labels id (add f k o (s.labels id)) }

  unfoldable pub file : ℕ → Outcome → ℕ → Collector f k → Collector f k
  file id o idx c = elim (claim idx c) [
    | none ↦ record_late id o idx c
    | some d ↦ set_slot (place c idx) (add_to_slot id o (d.ring (place c idx))) d
  ]

  unfoldable pub record_outcome : Outcome → Collector f k → Collector f k
  record_outcome o c0 =
      let id = clamp_label c0 o.label in
      let idx = bucket_index_of f k c0 o.intended in
      let c = note_bucket idx (note_status o c0) in
      if covered c.sealed_above idx then record_late id o idx c else file id o idx c

  -- An executor counter, applied to a bucket's slot; a sealed bucket, or one whose slot a newer one
  -- has taken, drops it.
  unfoldable pub counter_slot : (Slot f k → Slot f k) → ℕ → Collector f k → Collector f k
  counter_slot apply idx c0 =
      let c = note_bucket idx c0 in
      if covered c.sealed_above idx then c else elim (claim idx c) [
        | none ↦ c
        | some d ↦ set_slot (place c idx) (apply (d.ring (place c idx))) d
      ]

  abbrev pub count_offered : Slot f k → Slot f k
  count_offered s = record s { offered = s.offered + 1 }

  abbrev pub count_dropped : Slot f k → Slot f k
  count_dropped s = record s { dropped = s.dropped + 1 }

  abbrev pub peak_in_flight : ℕ → Slot f k → Slot f k
  peak_in_flight n s = record s {
    in_flight_max = if leb n s.in_flight_max then s.in_flight_max else n;
  }

  unfoldable pub record_offered : ℕ → Collector f k → Collector f k
  record_offered idx c = counter_slot count_offered idx c

  unfoldable pub record_dropped : ℕ → Collector f k → Collector f k
  record_dropped idx c = counter_slot count_dropped idx c

  unfoldable pub observe_in_flight : ℕ → ℕ → Collector f k → Collector f k
  observe_in_flight idx n c = counter_slot (peak_in_flight n) idx c

  unfoldable pub seal_deadline : Collector f k → ℕ → ℕ
  seal_deadline c idx = (idx + 1) * width f k c + pos_part c.cfg.seal_delay

  -- One slot of the sweep at time `now` since the start.
  unfoldable pub seal_if_due : ℕ → ℕ → Collector f k → Collector f k
  seal_if_due now i c = elim ((c.ring i).index) [
    | none ↦ c
    | some idx ↦ if leb (seal_deadline c idx) now then seal_slot f k i idx c else c
  ]

  -- The loop over the first `n` slots.
  unfoldable pub sweep : ℕ → ℕ → Collector f k → Collector f k
  sweep now zero c = c
  sweep now (suc n) c = seal_if_due now n (sweep now n c)

  unfoldable pub seal_through : ℕ → Collector f k → Collector f k
  seal_through now c = sweep now c.ring_size c

  unfoldable pub seal_any : ℕ → Collector f k → Collector f k
  seal_any i c = elim ((c.ring i).index) [ none ↦ c | some idx ↦ seal_slot f k i idx c ]

  unfoldable pub seal_all : ℕ → Collector f k → Collector f k
  seal_all zero c = c
  seal_all (suc n) c = seal_any n (seal_all n c)

  unfoldable pub finish : Collector f k → Collector f k
  finish c = seal_all c.ring_size c

  abbrev in_use : Option ℕ → ℕ
  in_use none = 0
  in_use (some i) = 1

  -- The count of slots in use among the first `n`.
  count_open : ℕ → Collector f k → ℕ
  count_open zero c = 0
  count_open (suc n) c = count_open n c + in_use (c.ring n).index

  unfoldable pub open_buckets : Collector f k → ℕ
  unfolding count_open
  open_buckets c = count_open c.ring_size c
