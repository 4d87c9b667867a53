-- ===== src/Config/Validate/Profiles.antt =====
-- An executor that Validate accepts gives a load profile. The stages are converted where the engine
-- builds the profile (internal/engine/engine.go, `buildExecutors`).
use tracepoint.Base.{
  ℕ, suc, Bool, true, false, not, ◌&&◌, ◌||◌, ◌≡◌, refl, sym, ap, ◌∙◌, subst, List, [], ◌∷◌, ◌++◌,
  all, map, arith, if◌then◌else◌, Bool-cases, inl, inr, length, ltb,
}
use tracepoint.Base.Int.{ℤ, pos, ltb_ℤ, eqb_ℤ}
use tracepoint.Base.Float.{Float}
use tracepoint.Base.Text.{codes, concat, ◌==◌}
use tracepoint.Errs.{Error, error, Result, config_stages_mismatch}
use tracepoint.Config.{Stage, Executor}
use tracepoint.Config.Defaults.{
  arrival_rate_defaults, vus_defaults, typed_defaults, start_rate, stages_or, default_executor,
}
use tracepoint.Config.Validate.Common.{
  given, is_blank, is_blank-append, is_blank-given, item, not_positive, invalid, missing,
}
use mathlib.Core.Path.{ap₂}
use tracepoint.Config.Validate.Executors.{
  executor_problems, stages_problems, stage_problems, type_problems, is_bad_target, is_mismatched,
  is_arrival_rate, arrival_rate_problems, vus_problems,
}
use tracepoint.Schedule.Profile.{Profile, new_profile}
use tracepoint.Schedule.Profile.{Stage as ProfileStage}
use tracepoint.Schedule.Accepts.{is_stage}
use Prim.Native.String.{String}

module _ (f : Float) where
  abbrev pub profile_stage : Stage f → ProfileStage f
  profile_stage s = record { duration = s.duration; target = s.target }

  -- The profile that `buildExecutors` makes of an executor's load.
  unfoldable pub executor_profile : Executor f → Result (Profile f)
  executor_profile e = new_profile f (start_rate f e) (map profile_stage e.stages)

  abbrev zero_f : f.F
  zero_f = f.of_int (pos 0)

  is_blank-stages_problems :
      (at : String) (i : ℕ) (ss : List (Stage f))
      → is_blank (stages_problems f at i ss) ≡ all (λ s. is_stage f (profile_stage s)) ss
  unfolding stages_problems all
  is_blank-stages_problems at i [] = refl
  is_blank-stages_problems at i (s ∷ ss) =
      is_blank-append (stage_problems f (item (concat at "/stages") i) s) _
      ∙ ground (
        arith,
        is_blank-append
            (given (not_positive s.duration)
              (invalid (concat (item (concat at "/stages") i) "/duration")))
            (given (is_bad_target f s.target)
              (invalid (concat (item (concat at "/stages") i) "/target"))),
        is_blank-given (not_positive s.duration)
            (invalid (concat (item (concat at "/stages") i) "/duration")),
        is_blank-given (is_bad_target f s.target)
            (invalid (concat (item (concat at "/stages") i) "/target")),
        is_blank-stages_problems at (suc i) ss,
      )

  is_blank-executor_problems :
      (run : ℤ) (at : String) (e : Executor f)
      → is_blank (executor_problems f run at e) ≡ (
          is_blank (type_problems f at e)
          && (not (f.lt zero_f e.rate && ltb 1 (length e.stages))
              && (not (is_blank e.stages && (f.eq e.rate zero_f && eqb_ℤ e.vus (pos 0)))
                  && (all (λ s. is_stage f (profile_stage s)) e.stages
                      && not (is_mismatched f run e)))))
  unfolding executor_problems
  is_blank-executor_problems run at e =
      let combined =
        given (f.lt zero_f e.rate && ltb 1 (length e.stages)) (invalid (concat at "/rate")) in
      let empty =
        given (is_blank e.stages && (f.eq e.rate zero_f && eqb_ℤ e.vus (pos 0))) (missing at) in
      let shapes = stages_problems f at 0 e.stages in
      let lasts =
        given (is_mismatched f run e) (error config_stages_mismatch (concat at "/stages")) in
      is_blank-append (type_problems f at e) (combined ++ (empty ++ (shapes ++ lasts)))
      ∙ ap (λ b. is_blank (type_problems f at e) && b)
          (is_blank-append combined (empty ++ (shapes ++ lasts))
            ∙ ap₂ (λ a b. a && b) (is_blank-given _ _)
                (is_blank-append empty (shapes ++ lasts)
                  ∙ ap₂ (λ a b. a && b) (is_blank-given _ _)
                      (is_blank-append shapes lasts
                        ∙ ap₂ (λ a b. a && b) (is_blank-stages_problems at 0 e.stages)
                            (is_blank-given _ _))))

  -- The rate and the number of users are not negative, as the schema has them.
  abbrev pub is_counted : Executor f → Bool
  is_counted e = (f.lt zero_f e.rate || f.eq e.rate zero_f) && not (ltb_ℤ e.vus (pos 0))

  is_blank-stages_or :
      (w : Bool) (run : ℤ) (v : f.F) (ss : List (Stage f))
      → is_blank (stages_or f w run v ss) ≡ (is_blank ss && not w)
  is_blank-stages_or true run v [] = refl
  is_blank-stages_or false run v [] = refl
  is_blank-stages_or w run v (s ∷ ss) = refl

  -- The test for a load of some kind leaves no executor of a known type without stages.
  no_load :
      (blank rate_above rate_zero : Bool) (vus : ℤ)
      → (rate_above || rate_zero) && not (ltb_ℤ vus (pos 0)) ≡ true
      → not (blank && (rate_zero && eqb_ℤ vus (pos 0))) ≡ true
      → rate_above ≡ false
      → ltb_ℤ (pos 0) vus ≡ false
      → blank ≡ false
  no_load blank rate_above rate_zero vus h p a b = ground arith

  -- What the absence of problems says.
  pub record Accepted (run : ℤ) (at : String) (e : Executor f) : Type 0 where
    pub typed_well : is_blank (type_problems f at e) ≡ true
    pub loaded : not (is_blank e.stages && (f.eq e.rate zero_f && eqb_ℤ e.vus (pos 0))) ≡ true
    pub shaped : all (λ s. is_stage f (profile_stage s)) e.stages ≡ true
    pub lasting : is_mismatched f run e ≡ false

  all_true :
      (a b c d e : Bool)
      → a && (b && (c && (d && not e))) ≡ true
      → (a ≡ true) × (c ≡ true) × (d ≡ true) × (e ≡ false)
  all_true a b c d e h = ground arith

  pub accepted :
      (run : ℤ) (at : String) (e : Executor f)
      → is_blank (executor_problems f run at e) ≡ true
      → Accepted run at e
  accepted run at e h =
      let (a, c, d, l) = all_true _ _ _ _ _ (sym (is_blank-executor_problems run at e) ∙ h) in
      record { typed_well = a; loaded = c; shaped = d; lasting = l }

  blank-given :
      (b : Bool) (x : Error) (rest : List Error) → is_blank (given b x ++ rest) ≡ true → b ≡ false
  blank-given true x rest h = cc
  blank-given false x rest h = refl

  is_arrival_rate-vus :
      (at : String) (e : Executor f)
      → is_arrival_rate e.type ≡ true
      → is_blank (type_problems f at e) ≡ true
      → ltb_ℤ (pos 0) e.vus ≡ false
  unfolding type_problems
  is_arrival_rate-vus at e a h = blank-given _ (invalid (concat at "/vus")) _ (
      subst
        (λ b.
          is_blank (
            if b
            then arrival_rate_problems f at e
            else (if e.type == codes "vus"
                then vus_problems f at e
                else invalid (concat at "/type") ∷ []))
          ≡ true)
        a h)

  is_vus-rate :
      (at : String) (e : Executor f)
      → is_arrival_rate e.type ≡ false
      → is_blank (type_problems f at e) ≡ true
      → (e.type == codes "vus" ≡ true) × (f.lt zero_f e.rate ≡ false)
  unfolding type_problems
  is_vus-rate at e a h = by_type (e.type == codes "vus") (
      subst
        (λ b.
          is_blank (
            if b
            then arrival_rate_problems f at e
            else (if e.type == codes "vus"
                then vus_problems f at e
                else invalid (concat at "/type") ∷ []))
          ≡ true)
        a h)
    where
      by_type :
          (t : Bool)
          → is_blank (if t then vus_problems f at e else invalid (concat at "/type") ∷ []) ≡ true
          → (t ≡ true) × (f.lt zero_f e.rate ≡ false)
      by_type true h = (refl, blank-given _ (invalid (concat at "/rate")) _ h)
      by_type false h = cc

  arrival_rate-stages :
      (run : ℤ) (at : String) (e : Executor f)
      → is_counted e ≡ true
      → is_arrival_rate e.type ≡ true
      → is_blank (executor_problems f run at (arrival_rate_defaults f run e)) ≡ true
      → is_blank (arrival_rate_defaults f run e).stages ≡ false
  arrival_rate-stages run at e h a p =
      let d = arrival_rate_defaults f run e in
      let q = accepted run at d p in
      elim (Bool-cases (f.lt zero_f e.rate)) [
        | inl r ↦ ground (arith, is_blank-stages_or (f.lt zero_f e.rate) run e.rate e.stages)
        | inr r ↦
            no_load (is_blank d.stages) (f.lt zero_f e.rate) (f.eq e.rate zero_f) e.vus h q.loaded r
              (is_arrival_rate-vus at d a q.typed_well)
      ]

  vus-stages :
      (run : ℤ) (at : String) (e : Executor f)
      → is_counted e ≡ true
      → is_arrival_rate e.type ≡ false
      → is_blank (executor_problems f run at (vus_defaults f run e)) ≡ true
      → is_blank (vus_defaults f run e).stages ≡ false
  vus-stages run at e h a p =
      let d = vus_defaults f run e in
      let q = accepted run at d p in
      elim (Bool-cases (ltb_ℤ (pos 0) e.vus)) [
        | inl r ↦
            ground (arith, is_blank-stages_or (ltb_ℤ (pos 0) e.vus) run (f.of_int e.vus) e.stages)
        | inr r ↦
            no_load (is_blank d.stages) (f.lt zero_f e.rate) (f.eq e.rate zero_f) e.vus h q.loaded
              (is_vus-rate at d a q.typed_well).1 r
      ]

  pub typed-stages :
      (run : ℤ) (at : String) (e : Executor f)
      → is_blank e.type ≡ false
      → is_counted (typed_defaults f run e) ≡ true
      → is_blank (executor_problems f run at (typed_defaults f run e)) ≡ true
      → is_blank (typed_defaults f run e).stages ≡ false
  unfolding typed_defaults
  typed-stages run at e n h p = elim (Bool-cases (e.type == default_executor)) [
    | inl a ↦
        let k : typed_defaults f run e ≡ arrival_rate_defaults f run e = rw a refl in
        with_defaults k h p λ h p. arrival_rate-stages run at e h (ground arith) p
    | inr a ↦
        let m : is_arrival_rate e.type ≡ false = ground arith in
        elim (Bool-cases (e.type == codes "vus")) [
          | inl b ↦
              let k : typed_defaults f run e ≡ vus_defaults f run e = rw a (rw b refl) in
              with_defaults k h p λ h p. vus-stages run at e h m p
          | inr b ↦
              let k : typed_defaults f run e ≡ e = rw a (rw b refl) in
              with_defaults k h p
                λ h p. cc (b, (is_vus-rate at e m (accepted run at e p).typed_well).0)
        ]
  ]
    where
      with_defaults :
          {d d' : Executor f}
          → d ≡ d'
          → is_counted d ≡ true
          → is_blank (executor_problems f run at d) ≡ true
          → (is_counted d' ≡ true
              → is_blank (executor_problems f run at d') ≡ true
              → is_blank d'.stages ≡ false)
          → is_blank d.stages ≡ false
      with_defaults {d = d} {d' = d'} k h p g =
          subst (λ x. is_blank x.stages ≡ false) (sym k)
            (g (subst (λ x. is_counted x ≡ true) k h)
              (subst (λ x. is_blank (executor_problems f run at x) ≡ true) k p))
