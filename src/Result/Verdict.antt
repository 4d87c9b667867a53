-- ===== src/Result/Verdict.antt =====
-- `buildVerdict` and `Analyse` of internal/result/analyse.go, and `outcomeExit` of
-- internal/cli/commands.go. A verdict keeps its bottleneck and confidence; its texts are left out.
use tracepoint.Base.{
  ℕ, Bool, true, false, not, ◌&&◌, ◌≡◌, refl, sym, Option, none, some, List, [], ◌∷◌, any, all,
  if◌then◌else◌, ◌==◌,
}
use tracepoint.Base.Float.{Float}
use tracepoint.Base.Text.{Text, codes}
use tracepoint.Base.Text.{◌==◌ as text_eq}
use tracepoint.Errs.{
  AnyError, nil, coded, error, run_invalid, slo_breach, exit_ok, exit_invalid, exit_breach,
}
use tracepoint.Result.{Runner, Recorded}
use tracepoint.Result.Validity.{
  State, valid, degraded, invalid, Outcome, Saying, lag_limit, evaluate_validity,
}
use tracepoint.Config.{Slo}
use tracepoint.Result.Budget.{Verdicts, evaluate_slo, is_within, evaluate_slo-pass}
use tracepoint.Result.Judged.{is_invalid, is_untrusted, evaluate_validity-invalid}

pub data Bottleneck : Type 0 where
  app db redis client nothing inconclusive : Bottleneck

pub data Confidence : Type 0 where
  low medium high : Confidence

pub record Verdict : Type 0 where
  pub bottleneck : Bottleneck
  pub confidence : Confidence

module _ (f : Float) where
  pub record Analysis : Type 0 where
    pub validity : Outcome
    pub slo : Verdicts f
    pub verdict : Verdict

  -- The first runner of kind "app".
  unfoldable pub find_app : List (Runner f) → Option (Runner f)
  find_app [] = none
  find_app (rn ∷ rns) =
      let rest = find_app rns in if text_eq rn.kind (codes "app") then some rn else rest

  abbrev pub is_idle : Option (Runner f) → Bool
  is_idle none = false
  is_idle (some rn) = rn.summary.n == 0

  abbrev lowered : State → Verdict → Verdict
  lowered degraded v = record { bottleneck = v.bottleneck; confidence = low }
  lowered _ v = v

  abbrev verdict_of : Bottleneck → Confidence → Verdict
  verdict_of b c = record { bottleneck = b; confidence = c }

  unfoldable pub build_verdict : Recorded f → Outcome → Verdicts f → Verdict
  build_verdict r v slo =
      if is_invalid v.state
      then verdict_of client high
      else lowered v.state (
          if not slo.pass
          then verdict_of inconclusive medium
          else if is_idle (find_app r.runners)
          then verdict_of inconclusive low
          else verdict_of nothing medium)

  unfoldable pub analyse : (Saying f → Text) → Recorded f → Option (Slo f) → Analysis
  analyse say r cfg =
      let v = evaluate_validity f say r in
      let slo = evaluate_slo f r cfg in
      record { validity = v; slo = slo; verdict = build_verdict r v slo }

  unfoldable pub outcome_exit : Analysis → Bool → AnyError
  outcome_exit a allow_invalid =
      if is_invalid a.validity.state && not allow_invalid
      then coded (error run_invalid "")
      else if not a.slo.pass
      then coded (error slo_breach "")
      else nil

  -- The first cause that applies.
  abbrev pub cause : (untrusted missed idle : Bool) → Bottleneck
  cause untrusted missed idle =
      if untrusted
      then client
      else if missed
      then inconclusive
      else if idle
      then inconclusive
      else nothing

  bottleneck-cases :
      (s : State) (met idle : Bool)
      → (if is_invalid s
          then verdict_of client high
          else lowered s (
              if not met
              then verdict_of inconclusive medium
              else if idle
              then verdict_of inconclusive low
              else verdict_of nothing medium)).bottleneck
        ≡ cause (is_invalid s) (not met) idle
  bottleneck-cases invalid met idle = refl
  bottleneck-cases valid false idle = refl
  bottleneck-cases valid true true = refl
  bottleneck-cases valid true false = refl
  bottleneck-cases degraded false idle = refl
  bottleneck-cases degraded true true = refl
  bottleneck-cases degraded true false = refl

  build_verdict-cause :
      (r : Recorded f) (v : Outcome) (slo : Verdicts f)
      → (build_verdict r v slo).bottleneck
        ≡ cause (is_invalid v.state) (not slo.pass) (is_idle (find_app r.runners))
  unfolding build_verdict
  build_verdict-cause r v slo = bottleneck-cases v.state slo.pass (is_idle (find_app r.runners))

  -- The exit code for each outcome of the analysis.
  abbrev pub exit_for : (untrusted within allow : Bool) → ℕ
  exit_for untrusted within allow =
      if untrusted && not allow then exit_invalid else if within then exit_ok else exit_breach

  module _ (say : Saying f → Text) (r : Recorded f) (cfg : Option (Slo f)) where
    -- The verdict blames the client exactly when some runner makes the run invalid, whatever the budgets
    -- say; otherwise it is inconclusive when a budget is missed or the first application runner
    -- completed nothing, and otherwise it finds nothing.
    pub analyse-cause :
        (analyse say r cfg).verdict.bottleneck
        ≡ cause
            (any (is_untrusted f (lag_limit f r.bucket_ms)) r.runners)
            (not (all (is_within f cfg) r.runners))
            (is_idle (find_app r.runners))
    unfolding analyse
    analyse-cause =
        rw (sym (evaluate_validity-invalid f say r), sym (evaluate_slo-pass f r cfg))
          (build_verdict-cause r (evaluate_validity f say r) (evaluate_slo f r cfg))
