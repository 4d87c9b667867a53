-- ===== src/Metrics/Collector/Start.antt =====
-- A new collector is valid and empty.
use Prim.Native.String.{String}
use tracepoint.Base.{
  Bool, ◌≡◌, refl, subst, List, [], ◌∷◌, Option, none, some, arith, sum_below-zero, length-append,
}
use tracepoint.Base.Float.{Float}
use tracepoint.Errs.{Result, ok, err}
use tracepoint.Metrics.Sketch.{Sketches}
use tracepoint.Metrics.Accum.{Accum, new_accum}
use tracepoint.Metrics.Accum.Laws.{Measure, new_accum-IsSound, new_accum-n}
use tracepoint.Metrics.Collector.Maps.{sum_values, lookup}
use tracepoint.Metrics.Collector.State.{
  Collector, Config, initial, built, new_collector, take_labels, validate, with_defaults, free_slot,
}
use tracepoint.Metrics.Collector.Invariant.{IsValid}
use tracepoint.Metrics.Collector.Kept.{timeline, measured}

ok-injective {ℓ} : {A : Type ℓ} (a b : A) → ok a ≡ ok b → a ≡ b
ok-injective a b e = cc

module _ (f : Float) (k : Sketches f) where
  module _ (cfg : Config f k) (names : List String) (over : Bool) (a : Accum f k)
      (e : new_accum f k cfg.relative_accuracy ≡ some a) where
    initial-IsValid : IsValid f k (initial f k cfg names over a)
    unfolding initial free_slot lookup
    initial-IsValid = record {
      placed = λ i x p. cc;
      unsealed = λ i x p. refl;
      keys = λ x p. refl;
      slots = λ i id. new_accum-IsSound f k _ e;
      freed = λ i id p q. new_accum-n f k _ a e;
      runner = new_accum-IsSound f k _ e;
      labels = λ id. new_accum-IsSound f k _ e;
      builds = (a, e);
      size = ground arith;
      some_label = omega (arith, length-append names ("other" ∷ []));
    }

    initial-timeline : timeline f k (initial f k cfg names over a) ≡ 0
    unfolding initial free_slot timeline sum_values
    initial-timeline =
        omega
          (arith, sum_below-zero (initial f k cfg names over a).ring_size (λ i. 0) (λ i p. refl))

    initial-measured : (m : Measure f k) → measured f k m (initial f k cfg names over a) ≡ 0
    unfolding initial free_slot measured
    initial-measured m = omega (
      arith,
      m.of-new _ a e,
      sum_below-zero (initial f k cfg names over a).ring_size (λ i. 0) (λ i p. refl),
    )

  -- What every new collector satisfies.
  abbrev pub Starts : Collector f k → Type 0
  Starts c = IsValid f k c × (timeline f k c ≡ 0) × ((m : Measure f k) → measured f k m c ≡ 0)

  built-Starts :
      (cfg : Config f k) (ls : List String × Bool) (q : Option (Accum f k)) (c : Collector f k)
      → new_accum f k cfg.relative_accuracy ≡ q
      → built f k cfg ls q ≡ ok c
      → Starts c
  unfolding built
  built-Starts cfg (names, over) none c e p = cc
  built-Starts cfg (names, over) (some a) c e p = subst Starts (ok-injective _ _ p) (
    initial-IsValid cfg names over a e,
    initial-timeline cfg names over a e,
    initial-measured cfg names over a e,
  )

  validated-Starts :
      (r : Result (Config f k)) (c : Collector f k)
      → elim r [
        | err e ↦ err e
        | ok cfg ↦ built f k cfg (take_labels [] cfg.labels) (new_accum f k cfg.relative_accuracy)
      ]
        ≡ ok c
      → Starts c
  validated-Starts (err e) c p = cc
  validated-Starts (ok cfg) c p = built-Starts cfg _ _ c refl p

  pub new_collector-Starts :
      (cfg : Config f k) (c : Collector f k) → new_collector f k cfg ≡ ok c → Starts c
  unfolding new_collector
  new_collector-Starts cfg c p = validated-Starts (validate f k (with_defaults f k cfg)) c p
