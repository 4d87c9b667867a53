-- ===== src/Metrics/Collector/Invariant.antt =====
-- What holds of a collector between two calls.
use tracepoint.Base.{ℕ, ◌<◌, ◌%◌, false, ◌≡◌, refl, ◌∙◌, none, some}
use tracepoint.Base.Float.{Float}
use tracepoint.Metrics.Sketch.{Sketches}
use tracepoint.Metrics.Accum.{Accum, new_accum}
use tracepoint.Metrics.Accum.Laws.{IsSound}
use tracepoint.Metrics.Collector.Maps.{lookup}
use tracepoint.Metrics.Collector.State.{Collector, label_count, covered}

module _ (f : Float) (k : Sketches f) where
  pub record IsValid (c : Collector f k) : Type 0 where
    -- a bucket is in the slot that its index names, so in one slot at most
    pub placed : (i idx : ℕ) → (c.ring i).index ≡ some idx → idx % c.ring_size ≡ i
    -- no open bucket has a summary yet
    pub unsealed : (i idx : ℕ) → (c.ring i).index ≡ some idx → lookup idx c.buckets ≡ none
    -- every summary is at or below the highest sealed index
    pub keys : (idx : ℕ) → covered c.sealed_above idx ≡ false → lookup idx c.buckets ≡ none
    pub slots : (i id : ℕ) → IsSound f k ((c.ring i).labels id)
    pub freed :
        (i id : ℕ) → (c.ring i).index ≡ none → id < label_count f k c → ((c.ring i).labels id).n ≡ 0
    pub runner : IsSound f k c.whole_runner
    pub labels : (id : ℕ) → IsSound f k (c.whole_labels id)
    pub builds : (a : Accum f k) × (new_accum f k c.cfg.relative_accuracy ≡ some a)
    pub size : 0 < c.ring_size
    pub some_label : 0 < label_count f k c

  -- The parts that sealing a slot's labels leaves alone.
  pub record Frame (c d : Collector f k) : Type 0 where
    pub cfg : d.cfg ≡ c.cfg
    pub label_names : d.label_names ≡ c.label_names
    pub warmup_buckets : d.warmup_buckets ≡ c.warmup_buckets
    pub ring_size : d.ring_size ≡ c.ring_size
    pub ring : d.ring ≡ c.ring
    pub late : d.late ≡ c.late
    pub sealed_above : d.sealed_above ≡ c.sealed_above
    pub whole_runner : d.whole_runner ≡ c.whole_runner
    pub buckets : d.buckets ≡ c.buckets

  pub Frame-refl : (c : Collector f k) → Frame c c
  Frame-refl c = record {
    cfg = refl;
    label_names = refl;
    warmup_buckets = refl;
    ring_size = refl;
    ring = refl;
    late = refl;
    sealed_above = refl;
    whole_runner = refl;
    buckets = refl;
  }

  pub Frame-trans : (c d e : Collector f k) → Frame c d → Frame d e → Frame c e
  Frame-trans c d e p q = record {
    cfg = q.cfg ∙ p.cfg;
    label_names = q.label_names ∙ p.label_names;
    warmup_buckets = q.warmup_buckets ∙ p.warmup_buckets;
    ring_size = q.ring_size ∙ p.ring_size;
    ring = q.ring ∙ p.ring;
    late = q.late ∙ p.late;
    sealed_above = q.sealed_above ∙ p.sealed_above;
    whole_runner = q.whole_runner ∙ p.whole_runner;
    buckets = q.buckets ∙ p.buckets;
  }
