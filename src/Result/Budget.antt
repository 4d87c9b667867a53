-- ===== src/Result/Budget.antt =====
-- The budgets of a run: `SLO` and `SLOTarget` of internal/config/types.go, and `evaluateSLO` and `add`
-- of internal/result/analyse.go.
use tracepoint.Base.{
  Bool, true, false, ◌&&◌, ◌≡◌, refl, ◌∙◌, Option, none, some, List, [], ◌∷◌, ◌++◌, all, arith,
  if◌then◌else◌, Bool-cases, inl, inr,
}
use tracepoint.Base.Int.{ℤ}
use tracepoint.Base.Float.{Float}
use tracepoint.Base.Text.{Text, codes, ◌==◌}
use tracepoint.Config.{SloTarget, Slo, is_none, target_is_zero, slo_is_zero, slo_for}
use tracepoint.Result.{Runner, Recorded}
use tracepoint.Result.Validity.{milliseconds}

pub data Metric : Type 0 where
  p95 p99 error_rate : Metric

module _ (f : Float) where
  pub record Check : Type 0 where
    pub runner : Text
    pub metric : Metric
    pub budget : f.F
    pub actual : f.F
    pub pass : Bool

  pub record Verdicts : Type 0 where
    pub pass : Bool
    pub checks : List Check

  unfoldable pub add : Text → Metric → f.F → f.F → Verdicts → Verdicts
  add name m budget actual out =
      let pass = f.le actual budget in
      record {
        pass = if pass then out.pass else false;
        checks =
            out.checks
            ++ (record { runner = name; metric = m; budget = budget; actual = actual; pass = pass }
                ∷ []);
      }

  -- One budget, where it is given.
  unfoldable pub add_if : Text → Metric → Option (f.F) → f.F → Verdicts → Verdicts
  add_if name m none actual out = out
  add_if name m (some budget) actual out = add name m budget actual out

  abbrev in_ms : Option ℤ → Option (f.F)
  in_ms none = none
  in_ms (some d) = some (milliseconds f d)

  unfoldable pub check_runner : SloTarget f → Runner f → Verdicts → Verdicts
  check_runner t rn out =
      if target_is_zero f t
      then out
      else (let one = add_if rn.name p95 (in_ms t.p95) rn.summary.response.p95 out in
          let two = add_if rn.name p99 (in_ms t.p99) rn.summary.response.p99 one in
          add_if rn.name error_rate t.error_rate rn.summary.error_ratio two)

  unfoldable pub check_runners : Slo f → List (Runner f) → Verdicts → Verdicts
  check_runners s [] out = out
  check_runners s (rn ∷ rns) out = check_runners s rns (check_runner (slo_for f s rn.name) rn out)

  abbrev passed : Verdicts
  passed = record { pass = true; checks = [] }

  -- `none` is a nil configuration.
  unfoldable pub evaluate_slo : Recorded f → Option (Slo f) → Verdicts
  evaluate_slo r none = passed
  evaluate_slo r (some s) = if slo_is_zero f s then passed else check_runners s r.runners passed

  -- A budget that is not given is kept.
  abbrev within : f.F → Option (f.F) → Bool
  within actual none = true
  within actual (some budget) = f.le actual budget

  abbrev within_target : Runner f → SloTarget f → Bool
  within_target rn t =
      within rn.summary.response.p95 (in_ms t.p95)
      && (within rn.summary.response.p99 (in_ms t.p99)
          && within rn.summary.error_ratio t.error_rate)

  -- A runner's response time and errors are within its own budgets.
  abbrev pub is_within : Option (Slo f) → Runner f → Bool
  is_within none rn = true
  is_within (some s) rn = within_target rn (slo_for f s rn.name)

  add_if-pass :
      (name : Text) (m : Metric) (b : Option (f.F)) (actual : f.F) (out : Verdicts)
      → (add_if name m b actual out).pass ≡ (out.pass && within actual b)
  unfolding add_if add
  add_if-pass name m none actual out = ground arith
  add_if-pass name m (some b) actual out = ground arith

  within-none : (actual : f.F) (o : Option (f.F)) → is_none o ≡ true → within actual o ≡ true
  within-none actual none z = refl
  within-none actual (some b) z = cc

  within-in_ms : (actual : f.F) (o : Option ℤ) → is_none o ≡ true → within actual (in_ms o) ≡ true
  within-in_ms actual none z = refl
  within-in_ms actual (some b) z = cc

  within_target-zero :
      (rn : Runner f) (t : SloTarget f) → target_is_zero f t ≡ true → within_target rn t ≡ true
  within_target-zero rn t z = ground (
    arith,
    within-in_ms rn.summary.response.p95 t.p95 (ground arith),
    within-in_ms rn.summary.response.p99 t.p99 (ground arith),
    within-none rn.summary.error_ratio t.error_rate (ground arith),
  )

  check_runner-pass :
      (t : SloTarget f) (rn : Runner f) (out : Verdicts)
      → (check_runner t rn out).pass ≡ (out.pass && within_target rn t)
  unfolding check_runner
  check_runner-pass t rn out =
      let one = add_if rn.name p95 (in_ms t.p95) rn.summary.response.p95 out in
      let two = add_if rn.name p99 (in_ms t.p99) rn.summary.response.p99 one in
      elim (Bool-cases (target_is_zero f t)) [
        | inl e ↦ rw e (ground (arith, within_target-zero rn t e))
        | inr e ↦ rw e (
            add_if-pass rn.name error_rate t.error_rate rn.summary.error_ratio two
            ∙ ground (
              arith,
              add_if-pass rn.name p99 (in_ms t.p99) rn.summary.response.p99 one,
              add_if-pass rn.name p95 (in_ms t.p95) rn.summary.response.p95 out,
            ))
      ]

  check_runners-pass :
      (s : Slo f) (rns : List (Runner f)) (out : Verdicts)
      → (check_runners s rns out).pass ≡ (out.pass && all (is_within (some s)) rns)
  unfolding check_runners all
  check_runners-pass s [] out = ground arith
  check_runners-pass s (rn ∷ rns) out =
      check_runners-pass s rns (check_runner (slo_for f s rn.name) rn out)
      ∙ ground (arith, check_runner-pass (slo_for f s rn.name) rn out)

  slo_for-zero :
      (s : Slo f) (name : Text)
      → slo_is_zero f s ≡ true
      → target_is_zero f (slo_for f s name) ≡ true
  unfolding slo_for
  slo_for-zero s name z = elim (Bool-cases (name == codes "http")) [
    | inl a ↦ rw a (ground arith)
    | inr a ↦ rw a (elim (Bool-cases (name == codes "db")) [
      | inl b ↦ rw b (ground arith)
      | inr b ↦ rw b (elim (Bool-cases (name == codes "redis")) [
        | inl c ↦ rw c (ground arith)
        | inr c ↦ rw c refl
      ])
    ])
  ]

  all-zero :
      (s : Slo f) (rns : List (Runner f))
      → slo_is_zero f s ≡ true
      → all (is_within (some s)) rns ≡ true
  unfolding all
  all-zero s [] z = refl
  all-zero s (rn ∷ rns) z = ground (
    arith,
    within_target-zero rn (slo_for f s rn.name) (slo_for-zero s rn.name z),
    all-zero s rns z,
  )

  all-nil : (rns : List (Runner f)) → all (is_within none) rns ≡ true
  unfolding all
  all-nil [] = refl
  all-nil (rn ∷ rns) = all-nil rns

  -- The budgets of a run are met exactly when every runner is within each budget that is given for its
  -- name, and a run without a configuration meets them.
  pub evaluate_slo-pass :
      (r : Recorded f) (cfg : Option (Slo f))
      → (evaluate_slo r cfg).pass ≡ all (is_within cfg) r.runners
  unfolding evaluate_slo
  evaluate_slo-pass r none = ground (arith, all-nil r.runners)
  evaluate_slo-pass r (some s) = elim (Bool-cases (slo_is_zero f s)) [
    | inl e ↦ rw e (ground (arith, all-zero s r.runners e))
    | inr e ↦ rw e (check_runners-pass s r.runners passed ∙ ground arith)
  ]
