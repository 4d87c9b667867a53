-- ===== src/Metrics/Collector/SealLaws.antt =====
-- What the loop of `sealSlotLocked` over a slot's labels does to the counts.
use tracepoint.Base.{ℕ, Bool, false, ◌≡◌, some, if◌then◌else◌, ◌==◌, arith, update, ==_iff}
use tracepoint.Base.Float.{Float}
use tracepoint.Metrics.Sketch.{Sketches}
use tracepoint.Metrics.Accum.{Accum, merge_into, reset}
use tracepoint.Metrics.Collector.State.{Collector}
use tracepoint.Metrics.Collector.Sealing.{
  Sealing, record_label_bucket, merge_roll, merge_label, seal_label,
}
use tracepoint.Metrics.Collector.Invariant.{Frame, Frame-trans}

module _ (f : Float) (k : Sketches f) where
  record_label_bucket-Frame :
      (id idx : ℕ) (a : Accum f k) (w : Bool) (c : Collector f k)
      → Frame f k c (record_label_bucket f k id idx a w c)
        × ((record_label_bucket f k id idx a w c).whole_labels ≡ c.whole_labels)
  unfolding record_label_bucket
  record_label_bucket-Frame id idx a w c = ground arith

  merge_roll-Frame :
      (a : Accum f k) (st : Sealing f k)
      → Frame f k st.collector (merge_roll f k a st).collector
        × ((merge_roll f k a st).collector.whole_labels ≡ st.collector.whole_labels)
        × ((merge_roll f k a st).labels ≡ st.labels)
  unfolding merge_roll
  merge_roll-Frame a st = ground arith

  merge_label-Frame :
      (w : Bool) (id : ℕ) (a : Accum f k) (st : Sealing f k)
      → Frame f k st.collector (merge_label f k w id a st).collector
        × ((merge_label f k w id a st).labels ≡ st.labels)
        × ((merge_label f k w id a st).roll ≡ st.roll)
  unfolding merge_label
  merge_label-Frame w id a st = ground arith

  pub busy : ℕ → Bool → ℕ → Sealing f k → Sealing f k
  busy idx w id st =
      let a = st.labels id in
      let filed = record st { collector = record_label_bucket f k id idx a w st.collector } in
      let done = merge_label f k w id a (merge_roll f k a filed) in
      record done { labels = update done.labels id (reset f k a) }

  pub seal_label-idle :
      (idx : ℕ) (w : Bool) (id : ℕ) (st : Sealing f k)
      → (st.labels id).n ≡ 0
      → seal_label f k idx w id st ≡ st
  unfolding seal_label
  seal_label-idle idx w id st h = rw ((==_iff _ 0).1 h)

  pub seal_label-busy :
      (idx : ℕ) (w : Bool) (id : ℕ) (st : Sealing f k)
      → (((st.labels id).n == 0) ≡ false)
      → seal_label f k idx w id st ≡ busy idx w id st
  unfolding seal_label busy
  seal_label-busy idx w id st h = rw h

  pub busy-Frame :
      (idx : ℕ) (w : Bool) (id : ℕ) (st : Sealing f k)
      → Frame f k st.collector (busy idx w id st).collector
  unfolding busy
  busy-Frame idx w id st =
      let a = st.labels id in
      let filed : Sealing f k = record st {
        collector = record_label_bucket f k id idx a w st.collector;
      } in
      Frame-trans f k _ _ _ (record_label_bucket-Frame id idx a w st.collector).0 (
        Frame-trans f k _ _ _ (merge_roll-Frame a filed).0
          (merge_label-Frame w id a (merge_roll f k a filed)).0)

  pub busy-labels :
      (idx : ℕ) (w : Bool) (id : ℕ) (st : Sealing f k)
      → (busy idx w id st).labels ≡ update st.labels id (reset f k (st.labels id))
  unfolding busy merge_roll merge_label
  busy-labels idx w id st = ground arith

  pub busy-roll :
      (idx : ℕ) (w : Bool) (id : ℕ) (st : Sealing f k) (r : Accum f k)
      → st.roll ≡ some r
      → (busy idx w id st).roll ≡ some (merge_into f k (st.labels id) r).0
  unfolding busy merge_roll merge_label
  busy-roll idx w id st r h = ground arith

  pub busy-whole :
      (idx : ℕ) (w : Bool) (id : ℕ) (st : Sealing f k)
      → (busy idx w id st).collector.whole_labels ≡ (
          if w
          then st.collector.whole_labels
          else update st.collector.whole_labels id
              (merge_into f k (st.labels id) (st.collector.whole_labels id)).0)
  unfolding busy merge_roll merge_label record_label_bucket
  busy-whole idx w id st = ground arith
