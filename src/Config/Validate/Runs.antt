-- ===== src/Config/Validate/Runs.antt =====
-- A configuration that is given its defaults and that Validate accepts can be run as it is written.
use tracepoint.Base.{
  Bool, true, false, not, ◌&&◌, ◌≡◌, refl, sym, ◌∙◌, subst, none, some, List, [], ◌∷◌, map, arith,
}
use tracepoint.Base.Int.{ℤ, pos, ◌+ℤ◌, ltb_ℤ, eqb_ℤ}
use tracepoint.Base.Float.{Float}
use tracepoint.Base.Text.{Text}
use tracepoint.Errs.{Result, ok, err, is_ok}
use tracepoint.Config.{Stage, Executor, Config}
use tracepoint.Config.Defaults.{
  apply_defaults, executor_defaults, typed, start_rate, total_duration, sum_durations,
}
use tracepoint.Config.Labels.{executor}
use tracepoint.Config.Validate.{validate}
use tracepoint.Config.Validate.Common.{is_blank}
use tracepoint.Config.Validate.Executors.{executor_problems}
use tracepoint.Config.Validate.Parts.{validate-Parts}
use tracepoint.Config.Validate.Accepts.{
  Rates, Checked, executor-Checked, positive_run, accepted-profile, is_blank-text_or,
}
use tracepoint.Config.Validate.Profiles.{
  profile_stage, executor_profile, is_counted, accepted, typed-stages,
}
use tracepoint.Schedule.Accepts.{new_profile-lasts}
use tracepoint.Schedule.Accepts.{total_duration as profile_duration}
use tracepoint.Schedule.Profile.{Profile}

module _ (f : Float) where
  eqb_ℤ→≡ : (a b : ℤ) → eqb_ℤ a b ≡ true → a ≡ b
  eqb_ℤ→≡ a b h = ground arith

  lasts :
      (blank positive : Bool) (total run : ℤ)
      → not blank && (positive && not (eqb_ℤ total run)) ≡ false
      → blank ≡ false
      → positive ≡ true
      → total ≡ run
  lasts blank positive total run h b p = eqb_ℤ→≡ total run (ground arith)

  Checked-runs :
      (law : Rates f) (run : ℤ) (d : Executor f)
      → ltb_ℤ (pos 0) run ≡ true
      → is_counted f d ≡ true
      → Checked f run d
      → (is_ok (executor_profile f d) ≡ true) × (total_duration f d ≡ run)
  unfolding executor_defaults
  Checked-runs law run d p n q =
      let e = typed f q.written in
      let n' : is_counted f (executor_defaults f run q.written) ≡ true =
        subst (λ x. is_counted f x ≡ true) q.filled n in
      let k : is_blank (executor_problems f run q.at (executor_defaults f run q.written)) ≡ true =
        subst (λ x. is_blank (executor_problems f run q.at x) ≡ true) q.filled q.unproblematic in
      let a = accepted f run q.at d q.unproblematic in
      let s : is_blank d.stages ≡ false =
        subst (λ x. is_blank x.stages ≡ false) (sym q.filled)
          (typed-stages f run q.at e (is_blank-text_or f q.written.type) n' k) in
      (
        subst (λ x. is_ok (executor_profile f x) ≡ true) (sym q.filled)
            (accepted-profile f law run q.at q.written n' k),
        lasts (is_blank d.stages) (ltb_ℤ (pos 0) run) (total_duration f d) run a.lasting s p,
      )

  profile_duration-map :
      (d : ℤ) (ss : List (Stage f))
      → profile_duration f d (map (profile_stage f) ss) ≡ sum_durations f d ss
  unfolding profile_duration sum_durations
  profile_duration-map d [] = refl
  profile_duration-map d (s ∷ ss) = profile_duration-map (d +ℤ s.duration) ss

  -- A profile that lasts for some time.
  abbrev pub Lasting : ℤ → Result (Profile f) → Type 0
  Lasting run (ok p) = p.duration ≡ run
  Lasting run (err e) = ⊥

  executor_profile-Lasting :
      (run : ℤ) (e : Executor f) (r : Result (Profile f))
      → executor_profile f e ≡ r
      → is_ok r ≡ true
      → total_duration f e ≡ run
      → Lasting run r
  unfolding executor_profile total_duration
  executor_profile-Lasting run e (err x) h k t = cc
  executor_profile-Lasting run e (ok p) h k t =
      (new_profile-lasts f (start_rate f e) (map (profile_stage f) e.stages) p h).1
      ∙ (profile_duration-map (pos 0) e.stages ∙ t)

  -- Where zero counts as a rate, and so does what equals a rate: if Validate finds no problem in a
  -- configuration with its defaults, and the runner has an executor whose rate and number of users are
  -- not negative, then a load profile is built from that executor's stages and starting rate, and it
  -- lasts exactly as long as the run.
  pub validate-executor_profile :
      Rates f
      → (c : Config f) (runner : Text) (e : Executor f) → validate f (apply_defaults f c) ≡ none
      → executor f (apply_defaults f c) runner ≡ some e
      → is_counted f e ≡ true
      → Lasting (apply_defaults f c).run.duration (executor_profile f e)
  validate-executor_profile law c runner e h k n =
      let run = (apply_defaults f c).run.duration in
      let (built, lasting) =
        Checked-runs law run e
          (positive_run f (apply_defaults f c) (validate-Parts f (apply_defaults f c) h).run_part) n
          (executor-Checked f c runner e h k) in
      executor_profile-Lasting run e (executor_profile f e) refl built lasting
