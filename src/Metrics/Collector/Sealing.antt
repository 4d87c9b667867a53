-- ===== src/Metrics/Collector/Sealing.antt =====
-- `sealSlotLocked` and what it calls: a slot is reduced to summaries and freed.
use tracepoint.Base.{
  ℕ, zero, suc, ◌+◌, ◌-◌, ◌*◌, ◌/◌, Bool, true, false, [], ◌∷◌, ◌++◌, Option, none, some,
  if◌then◌else◌, ltb, leb, ◌==◌, update,
}
use tracepoint.Base.Float.{Float}
use tracepoint.Base.Int.{ℤ, pos, negsuc}
use tracepoint.Metrics.Outcome.{Class}
use tracepoint.Metrics.Sketch.{Sketches, Quantiles, zero_f, quantiles_from}
use tracepoint.Metrics.Accum.{Accum, new_accum, merge_into, reset, error_map, seconds}
use tracepoint.Metrics.Collector.Maps.{insert}
use tracepoint.Metrics.Collector.State.{BucketSummary, Slot, Collector, width, label_count, raise}

-- `n >= limit` and `n < limit` against a signed limit.
abbrev pub reaches : ℕ → ℤ → Bool
reaches n (pos m) = leb m n
reaches n (negsuc m) = true

abbrev pub falls_short : ℕ → ℤ → Bool
falls_short n (pos m) = ltb n m
falls_short n (negsuc m) = false

module _ (f : Float) (k : Sketches f) where
  -- A bucket's start in milliseconds, in whole ones.
  unfoldable pub offset_ms : Collector f k → ℕ → f.F
  offset_ms c idx = f.of_int (pos (idx * width f k c / 1000000))

  unfoldable pub rate : Collector f k → ℕ → f.F
  rate c n = f.div (f.of_int (pos n)) (seconds f k (pos (width f k c)))

  unfoldable pub label_summary : Collector f k → ℕ → Accum f k → Bool → BucketSummary f k
  label_summary c idx a warmup = record {
    index = idx;
    offset_ms = offset_ms c idx;
    n = a.n;
    insufficient = falls_short a.n c.cfg.min_samples;
    warmup = warmup;
    response = quantiles_from f k a.response a.n a.sum_resp a.max_resp;
    service = quantiles_from f k a.service a.n a.sum_svc a.max_svc;
    client_wait = quantiles_from f k a.client_wait a.n a.sum_wait a.max_wait;
    errors = error_map a.errs;
    errors_total = a.n - a.errs Class.ok;
    rps = rate c a.n;
    offered = 0;
    dropped = 0;
    in_flight_max = 0;
    bytes_in = a.bytes_in;
  }

  -- Past the budget the label timelines are dropped, once and for all.
  unfoldable pub record_label_bucket : ℕ → ℕ → Accum f k → Bool → Collector f k → Collector f k
  record_label_bucket id idx a warmup c =
      if c.label_timeline_dropped
      then c
      else if reaches c.label_timeline_entries c.cfg.label_timeline_budget
      then record c { label_timeline_dropped = true; label_buckets = λ i. [] }
      else record c {
        label_timeline_entries = c.label_timeline_entries + 1;
        label_buckets =
            update c.label_buckets id (c.label_buckets id ++ label_summary c idx a warmup ∷ []);
      }

  -- `merge`: a failed merge of sketches is counted.
  abbrev pub note_failure : Bool → Collector f k → Collector f k
  note_failure failed c = record c {
    merge_failures = if failed then c.merge_failures + 1 else c.merge_failures;
  }

  pub record Sealing : Type 0 where
    pub collector : Collector f k
    pub labels : ℕ → Accum f k
    pub roll : Option (Accum f k)

  unfoldable pub merge_roll : Accum f k → Sealing → Sealing
  merge_roll a st = elim st.roll [
    | none ↦ st
    | some r ↦ record st {
      collector = note_failure (merge_into f k a r).1 st.collector;
      roll = some (merge_into f k a r).0;
    }
  ]

  unfoldable pub merge_label : Bool → ℕ → Accum f k → Sealing → Sealing
  merge_label warmup id a st =
      let m = merge_into f k a (st.collector.whole_labels id) in
      if warmup then st else record st {
        collector =
            note_failure m.1
              (record (st.collector) { whole_labels = update st.collector.whole_labels id m.0 });
      }

  -- One round of the loop over the slot's labels.
  unfoldable pub seal_label : ℕ → Bool → ℕ → Sealing → Sealing
  seal_label idx warmup id st =
      let a = st.labels id in
      let filed = record st { collector = record_label_bucket id idx a warmup st.collector } in
      let done = merge_label warmup id a (merge_roll a filed) in
      if a.n == 0 then st else record done { labels = update done.labels id (reset f k a) }

  -- The loop: the rounds for the labels below `n`, in order.
  unfoldable pub seal_labels : ℕ → Bool → ℕ → Sealing → Sealing
  seal_labels idx warmup zero st = st
  seal_labels idx warmup (suc n) st = seal_label idx warmup n (seal_labels idx warmup n st)

  -- The bucket's summary, from the roll-up of its labels if there is one.
  unfoldable pub bucket_summary :
      Collector f k → ℕ → Bool → Slot f k → Option (Accum f k) → BucketSummary f k
  bucket_summary c idx warmup s none =
      let nothing : Quantiles f = record {
        p50 = zero_f f;
        p90 = zero_f f;
        p95 = zero_f f;
        p99 = zero_f f;
        p999 = zero_f f;
        max = zero_f f;
        mean = zero_f f;
      } in
      record {
        index = idx;
        offset_ms = offset_ms c idx;
        n = 0;
        insufficient = falls_short 0 c.cfg.min_samples;
        warmup = warmup;
        response = nothing;
        service = nothing;
        client_wait = nothing;
        errors = [];
        errors_total = 0;
        rps = zero_f f;
        offered = s.offered;
        dropped = s.dropped;
        in_flight_max = s.in_flight_max;
        bytes_in = 0;
      }
  bucket_summary c idx warmup s (some r) = record (label_summary c idx r warmup) {
    offered = s.offered;
    dropped = s.dropped;
    in_flight_max = s.in_flight_max;
  }

  unfoldable pub merge_runner : Bool → Option (Accum f k) → Collector f k → Collector f k
  merge_runner warmup none c = c
  merge_runner warmup (some r) c =
      let m = merge_into f k r c.whole_runner in
      if warmup then c else note_failure m.1 (record c { whole_runner = m.0 })

  -- The slot at place `i`, which holds bucket `idx`.
  unfoldable pub seal_slot : ℕ → ℕ → Collector f k → Collector f k
  seal_slot i idx c0 =
      let s = c0.ring i in
      let warmup = ltb idx c0.warmup_buckets in
      let st = seal_labels idx warmup (label_count f k c0) (record {
        collector = c0;
        labels = s.labels;
        roll = new_accum f k c0.cfg.relative_accuracy;
      }) in
      let c = merge_runner warmup st.roll st.collector in
      record c {
        buckets = insert idx (bucket_summary c0 idx warmup s st.roll) c.buckets;
        ring = update c.ring i (record {
          index = none;
          labels = st.labels;
          offered = 0;
          dropped = 0;
          in_flight_max = 0;
        });
        sealed_above = raise c.sealed_above idx;
      }
