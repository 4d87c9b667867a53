-- ===== src/Config/Defaults/Settled.antt =====
-- Defaults are settled by one pass.
use tracepoint.Base.{
  Bool, true, false, ◌≡◌, refl, ap, ◌∙◌, Option, none, some, List, [], ◌∷◌, map, arith, Bool-cases,
  inl, inr,
}
use tracepoint.Base.Int.{ℤ, pos, ltb_ℤ}
use tracepoint.Base.Float.{Float}
use tracepoint.Base.Text.{Text, codes, ◌==◌}
use tracepoint.Config.{
  Stage, Executor, Extract, HttpStep, Journey, Feeder, Http, Db, Redis, Run, Config,
}
use tracepoint.Config.Defaults.{
  default_duration, default_bucket, default_grace, default_timeout, default_min_samples,
  default_arrival, default_feeder_mode, default_method, default_max_in_flight, default_queue_depth,
  default_pick, default_redis_mode, default_executor, number_or, text_or, some_or, is_postgres,
  is_mysql, is_sqlite, normalise_driver, run_defaults, extract_defaults, feeder_defaults,
  step_defaults, journey_defaults, stages_or, arrival_rate_defaults, vus_defaults, typed_defaults,
  typed, executor_defaults, http_defaults, db_defaults, redis_defaults, in_some, apply_defaults,
}

text_or_idem : (d t : Text) → text_or d (text_or d t) ≡ text_or d t
text_or_idem [] [] = refl
text_or_idem (c ∷ cs) [] = refl
text_or_idem d (c ∷ cs) = refl

number_or_idem : (d n : ℤ) → number_or d (number_or d n) ≡ number_or d n
number_or_idem d n = ground arith

some_or_idem : (d : ℤ) (n : Option ℤ) → some_or d (some_or d n) ≡ some_or d n
some_or_idem d none = refl
some_or_idem d (some n) = refl

map_idem :
    {A : Type 0} (g : A → A)
    → ((a : A) → g (g a) ≡ g a)
    → (xs : List A) → map g (map g xs) ≡ map g xs
map_idem g h [] = refl
map_idem g h (x ∷ xs) = cc (h x, map_idem g h xs)

in_some_idem :
    (f : Float) {A : Type 0} (g : A → A)
    → ((a : A) → g (g a) ≡ g a)
    → (o : Option A) → in_some f g (in_some f g o) ≡ in_some f g o
in_some_idem f g h none = refl
in_some_idem f g h (some a) = ap some (h a)

normalise_driver_idem : (t : Text) → normalise_driver (normalise_driver t) ≡ normalise_driver t
unfolding normalise_driver ◌==◌
normalise_driver_idem t = elim (Bool-cases (is_postgres t)) [
  | inl a ↦ rw a refl
  | inr a ↦ rw a (elim (Bool-cases (is_mysql t)) [
    | inl b ↦ rw b refl
    | inr b ↦
        rw b
          (elim (Bool-cases (is_sqlite t)) [ inl c ↦ rw c refl | inr c ↦ rw c (rw (a, b, c) refl) ])
  ])
]

run_defaults_idem : (r : Run) → run_defaults (run_defaults r) ≡ run_defaults r
unfolding run_defaults
run_defaults_idem r = cc (
  number_or_idem default_duration r.duration,
  number_or_idem default_bucket r.bucket,
  number_or_idem default_grace r.grace,
  number_or_idem default_timeout r.timeout,
  number_or_idem default_min_samples r.min_samples,
  text_or_idem default_arrival r.arrival,
)

extract_defaults_idem : (x : Extract) → extract_defaults (extract_defaults x) ≡ extract_defaults x
extract_defaults_idem x = cc (text_or_idem (codes "body") x.from)

feeder_defaults_idem : (x : Feeder) → feeder_defaults (feeder_defaults x) ≡ feeder_defaults x
feeder_defaults_idem x = cc (text_or_idem default_feeder_mode x.mode)

module _ (f : Float) where
  step_defaults_idem : (s : HttpStep f) → step_defaults f (step_defaults f s) ≡ step_defaults f s
  unfolding step_defaults
  step_defaults_idem s = cc (
    text_or_idem default_method s.method,
    map_idem extract_defaults extract_defaults_idem s.extract,
  )

  journey_defaults_idem :
      (j : Journey f) → journey_defaults f (journey_defaults f j) ≡ journey_defaults f j
  journey_defaults_idem j = cc (map_idem (step_defaults f) step_defaults_idem j.steps)

  stages_or_idem :
      (w : Bool) (d : ℤ) (t : f.F) (ss : List (Stage f))
      → stages_or f w d t (stages_or f w d t ss) ≡ stages_or f w d t ss
  stages_or_idem true d t [] = refl
  stages_or_idem false d t [] = refl
  stages_or_idem w d t (s ∷ ss) = refl

  type-typed_defaults : (d : ℤ) (e : Executor f) → (typed_defaults f d e).type ≡ e.type
  unfolding typed_defaults
  type-typed_defaults d e = elim (Bool-cases (e.type == default_executor)) [
    | inl a ↦ rw a refl
    | inr a ↦
        rw a (elim (Bool-cases (e.type == codes "vus")) [ inl b ↦ rw b refl | inr b ↦ rw b refl ])
  ]

  arrival_rate_defaults_idem :
      (d : ℤ) (e : Executor f)
      → arrival_rate_defaults f d (arrival_rate_defaults f d e) ≡ arrival_rate_defaults f d e
  arrival_rate_defaults_idem d e = cc (
    number_or_idem default_max_in_flight e.max_in_flight,
    some_or_idem default_queue_depth e.queue_depth,
    stages_or_idem (f.lt (f.of_int (pos 0)) e.rate) d e.rate e.stages,
  )

  vus_defaults_idem :
      (d : ℤ) (e : Executor f) → vus_defaults f d (vus_defaults f d e) ≡ vus_defaults f d e
  vus_defaults_idem d e = cc (
    text_or_idem default_pick e.pick,
    stages_or_idem (ltb_ℤ (pos 0) e.vus) d (f.of_int e.vus) e.stages,
  )

  typed_defaults_idem :
      (d : ℤ) (e : Executor f) → typed_defaults f d (typed_defaults f d e) ≡ typed_defaults f d e
  unfolding typed_defaults
  typed_defaults_idem d e = elim (Bool-cases (e.type == default_executor)) [
    | inl a ↦ rw a (rw a (arrival_rate_defaults_idem d e))
    | inr a ↦ rw a (elim (Bool-cases (e.type == codes "vus")) [
      | inl b ↦ rw b (rw a (rw b (vus_defaults_idem d e)))
      | inr b ↦ rw b (rw a (rw b refl))
    ])
  ]

  executor_defaults_idem :
      (d : ℤ) (e : Executor f)
      → executor_defaults f d (executor_defaults f d e) ≡ executor_defaults f d e
  unfolding executor_defaults
  executor_defaults_idem d e =
      ap (typed_defaults f d)
        (typed_lem (typed_defaults f d (typed f e)) (type-typed_defaults d (typed f e)))
      ∙ typed_defaults_idem d (typed f e)
    where
      typed_lem : (x : Executor f) → x.type ≡ text_or default_executor e.type → typed f x ≡ x
      typed_lem x h = cc (text_or_idem default_executor e.type, h)

  http_defaults_idem :
      (d : ℤ) (h : Http f) → http_defaults f d (http_defaults f d h) ≡ http_defaults f d h
  http_defaults_idem d h = cc (
    executor_defaults_idem d h.executor,
    map_idem (step_defaults f) step_defaults_idem h.requests,
    map_idem (journey_defaults f) journey_defaults_idem h.journeys,
    map_idem feeder_defaults feeder_defaults_idem h.feeders,
  )

  db_defaults_idem : (d : ℤ) (x : Db f) → db_defaults f d (db_defaults f d x) ≡ db_defaults f d x
  db_defaults_idem d x = cc (executor_defaults_idem d x.executor, normalise_driver_idem x.driver)

  redis_defaults_idem :
      (d : ℤ) (x : Redis f) → redis_defaults f d (redis_defaults f d x) ≡ redis_defaults f d x
  redis_defaults_idem d x =
      cc (executor_defaults_idem d x.executor, text_or_idem default_redis_mode x.mode)

  -- Defaults are settled by one pass: to fill in those of a configuration that has them changes nothing.
  pub apply_defaults_idem :
      (c : Config f) → apply_defaults f (apply_defaults f c) ≡ apply_defaults f c
  unfolding apply_defaults
  apply_defaults_idem c =
      let d = (run_defaults c.run).duration in
      rw (run_defaults_idem c.run) (
        cc (
          in_some_idem f (http_defaults f d) (http_defaults_idem d) c.http,
          in_some_idem f (db_defaults f d) (db_defaults_idem d) c.db,
          in_some_idem f (redis_defaults f d) (redis_defaults_idem d) c.redis,
        ))
