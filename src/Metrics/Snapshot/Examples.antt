-- ===== src/Metrics/Snapshot/Examples.antt =====
-- A snapshot of a collector with a gap between its buckets.
use tracepoint.Base.{false, ◌≤◌, ◌-◌, ◌≡◌, refl, some, [], ◌∷◌, get_elem?, arith, length}
use tracepoint.Base.Sample.{whole}
use tracepoint.Metrics.Collector.State.{Collector, BucketSummary}
use tracepoint.Metrics.Collector.Maps.{lookup}
use tracepoint.Metrics.Collector.Examples.{listed, collector}
use tracepoint.Metrics.Snapshot.{
  gap, snapshot, timeline, sorted_bucket_indexes, insert_index, buckets_from, itoa,
}
use tracepoint.Metrics.Snapshot.Timeline.{first_index, snapshot-holds}
use tracepoint.Metrics.Snapshot.Digits.{read_back, itoa-read_back}

abbrev bucket : BucketSummary whole listed
bucket = record (gap whole listed collector 3) { n = 9; insufficient = false }

-- Buckets 5 and 3 are sealed, in this order.
abbrev sealed : Collector whole listed
sealed = record collector { buckets = (5, record bucket { index = 5 }) ∷ (3, bucket) ∷ [] }

sealed_holds : lookup 3 sealed.buckets ≡ some bucket
unfolding lookup
sealed_holds = refl

snapshot-holds_example :
    (first_index whole listed sealed ≤ 3)
    × (get_elem? (snapshot whole listed sealed).buckets (3 - first_index whole listed sealed)
        ≡ some bucket)
snapshot-holds_example = snapshot-holds whole listed sealed 3 bucket sealed_holds

sealed_spans : length (snapshot whole listed sealed).buckets ≡ 3
unfolding snapshot timeline sorted_bucket_indexes insert_index buckets_from
sealed_spans = refl

itoa-read_back_example : read_back (itoa 429) ≡ some 429
itoa-read_back_example = itoa-read_back 429 (omega arith)
