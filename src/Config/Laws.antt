-- ===== src/Config/Laws.antt =====
-- What a configuration that the policy lets through can do.
use tracepoint.Base.{
  Bool, true, not, ◌&&◌, ◌||◌, ◌≡◌, refl, sym, ap, ◌∙◌, subst, Option, List, [], ◌∷◌, ◌++◌, any,
  all, arith,
}
use tracepoint.Base.Float.{Float}
use tracepoint.Base.Text.{Text, codes, ◌==◌}
use tracepoint.Errs.{Error, Result, ok, err, OnOk}
use tracepoint.Policy.Classify.{Classification, is_write, is_empty}
use tracepoint.Policy.Target.{Net}
use tracepoint.Policy.Envelope.{Durations, Policy, Tightening, Dangerous}
use tracepoint.Policy.Envelope.Tighten.{
  tighten, conclude, with_duration, limit_duration, tightened, problems_of,
}
use tracepoint.Policy.Envelope.Accepts.{is_empty as no_items, is_empty-append}
use tracepoint.Policy.Envelope.Checks.{check_writes, check_dangerous}
use tracepoint.Config.{Config}
use tracepoint.Config.Statements.{
  Item, Scan, Report, Warning, judge, scan, start, report, query_warnings, command_warnings,
}
use tracepoint.Config.Apply.{
  tightening, query_items, command_items, db_report, redis_report, guard_problems, limit_problems,
  refusals, verdict, applied, apply_policy, problem,
}
use Prim.Native.String.{String}

-- Declared to write, or not declared and judged to.
abbrev pub writes : Item → Bool
writes it = (it.type == codes "write") || any (λ g. is_empty it.type && is_write g.op) it.verdicts

abbrev pub harmless : Item → Bool
harmless it = all (λ g. is_empty g.dangerous) it.verdicts

both_true :
    (a b l r x y : Bool) → r ≡ true → r ≡ (a && (b && l)) → a ≡ x → b ≡ y → (x ≡ true) × (y ≡ true)
both_true a b l r x y h e p q = ground (arith, h, e, p, q)

module _ (warn : Item → Classification → List Warning) where
  scan-writes :
      (it : Item) (s : Scan) (gs : List Classification)
      → (scan warn it s gs).writes ≡ (s.writes || any (λ g. is_empty it.type && is_write g.op) gs)
  unfolding scan any judge
  scan-writes it s [] = ground arith
  scan-writes it s (g ∷ gs) = ground (arith, scan-writes it (judge warn it s g) gs)

  judge-dangerous :
      (it : Item) (s : Scan) (g : Classification)
      → no_items ((judge warn it s g).dangerous) ≡ (no_items s.dangerous && is_empty g.dangerous)
  unfolding judge
  judge-dangerous it s g =
      is_empty-append s.dangerous _ ∙ ap (λ b. no_items s.dangerous && b) (ground arith)

  scan-dangerous :
      (it : Item) (s : Scan) (gs : List Classification)
      → no_items ((scan warn it s gs).dangerous)
        ≡ (no_items s.dangerous && all (λ g. is_empty g.dangerous) gs)
  unfolding scan all
  scan-dangerous it s [] = ground arith
  scan-dangerous it s (g ∷ gs) =
      ground (arith, scan-dangerous it (judge warn it s g) gs, judge-dangerous it s g)

  report-labels :
      (its : List Item) → no_items ((report warn its).labels) ≡ all (λ it. not (writes it)) its
  unfolding report all
  report-labels [] = refl
  report-labels (it ∷ its) =
      is_empty-append _ ((report warn its).labels)
      ∙ ground (arith, scan-writes it (start it) it.verdicts, report-labels its)

  report-found : (its : List Item) → no_items ((report warn its).found) ≡ all harmless its
  unfolding report all
  report-found [] = refl
  report-found (it ∷ its) =
      is_empty-append ((scan warn it (start it) it.verdicts).dangerous) ((report warn its).found)
      ∙ ground (arith, scan-dangerous it (start it) it.verdicts, report-found its)

module _ (f : Float) where
  no_items-check_writes :
      (p : Policy f) (runner : String) (ls : List Text)
      → no_items (problem (check_writes f p runner ls)) ≡ (no_items ls || p.allow_writes)
  unfolding check_writes
  no_items-check_writes p runner [] = refl
  no_items-check_writes p runner (l ∷ ls) = ground arith

  no_items-check_dangerous :
      (p : Policy f) (runner : String) (ds : List Dangerous)
      → no_items (problem (check_dangerous f p runner ds)) ≡ (no_items ds || p.allow_dangerous)
  unfolding check_dangerous
  no_items-check_dangerous p runner [] = refl
  no_items-check_dangerous p runner (d ∷ ds) = ground arith

  -- The two guards pass a report.
  abbrev passes : Policy f → Report → Bool
  passes p r = (no_items r.labels || p.allow_writes) && (no_items r.found || p.allow_dangerous)

  no_items-guard_problems :
      (p : Policy f) (runner : String) (r : Report)
      → no_items (guard_problems f p runner r) ≡ passes p r
  no_items-guard_problems p runner r =
      is_empty-append (problem (check_writes f p runner r.labels))
        (problem (check_dangerous f p runner r.found))
      ∙ ground (
        arith,
        no_items-check_writes p runner r.labels,
        no_items-check_dangerous p runner r.found,
      )

  no_items-refusals :
      (tm : Durations) (c : Config f) (p : Policy f)
      → no_items (refusals f tm c p) ≡ (
          passes p (db_report f c)
          && (passes p (redis_report f c) && no_items (limit_problems f tm c p)))
  unfolding refusals
  no_items-refusals tm c p =
      is_empty-append (guard_problems f p "db" (db_report f c)) _
      ∙ ground (
        arith,
        no_items-guard_problems p "db" (db_report f c),
        is_empty-append (guard_problems f p "redis" (redis_report f c)) (limit_problems f tm c p),
        no_items-guard_problems p "redis" (redis_report f c),
      )

  -- What the grants of a policy allow a configuration.
  abbrev pub allowed : (writes_granted dangerous_granted : Bool) → List Item → Bool
  allowed w d its = (all (λ it. not (writes it)) its || w) && (all harmless its || d)

  passes-db :
      (c : Config f) (p : Policy f)
      → passes p (db_report f c) ≡ allowed p.allow_writes p.allow_dangerous (query_items f c.db)
  unfolding db_report
  passes-db c p = ground (
    arith,
    report-labels query_warnings (query_items f c.db),
    report-found query_warnings (query_items f c.db),
  )

  passes-redis :
      (c : Config f) (p : Policy f)
      → passes p (redis_report f c)
        ≡ allowed p.allow_writes p.allow_dangerous (command_items f c.redis)
  unfolding redis_report
  passes-redis c p = ground (
    arith,
    report-labels command_warnings (command_items f c.redis),
    report-found command_warnings (command_items f c.redis),
  )

  module _ (net : Net) (tm : Durations) where
    -- The grants in force are those that the policy and the configuration both make.
    IsBoth : Policy f → Tightening f → Policy f → Type 0
    IsBoth p t q =
        (q.allow_writes ≡ (p.allow_writes && t.allow_writes))
        × (q.allow_dangerous ≡ (p.allow_dangerous && t.allow_dangerous))

    tighten-IsBoth : (p : Policy f) (t : Tightening f) → OnOk (IsBoth p t) (tighten f net tm p t)
    unfolding tighten
    tighten-IsBoth p t = go (limit_duration f net tm p.max_duration t.max_duration)
      where
        final :
            (d : Option Text) (es : List Error)
            → OnOk (IsBoth p t) (conclude f net tm (tightened f net tm p t d) es)
        final d [] = unfold conclude IsBoth in (refl, refl)
        final d (e ∷ es) = unfold conclude in tt

        go :
            (r : Result (Option Text × List Error))
            → OnOk (IsBoth p t) (with_duration f net tm p t r)
        go (err e) = tt
        go (ok d) = final d.0 (problems_of f net tm p t ++ d.1)

    IsAllowed : Policy f → Config f → Policy f × List Warning → Type 0
    IsAllowed granted c r =
        (allowed (granted.allow_writes && c.safety.allow_writes)
            (granted.allow_dangerous && c.safety.allow_dangerous) (query_items f c.db)
          ≡ true)
        × (allowed (granted.allow_writes && c.safety.allow_writes)
              (granted.allow_dangerous && c.safety.allow_dangerous) (command_items f c.redis)
            ≡ true)

    refusals-IsAllowed :
        (granted q : Policy f) (c : Config f) (ws : List Warning)
        → IsBoth granted (tightening f c) q
        → no_items (refusals f tm c q) ≡ true
        → IsAllowed granted c (q, ws)
    unfolding IsAllowed IsBoth tightening
    refusals-IsAllowed granted q c ws b h =
        let (bw, bd) = b in
        rw (sym bw, sym bd)
          (both_true _ _ _ _ _ _ h (no_items-refusals tm c q) (passes-db c q) (passes-redis c q))

    applied-IsAllowed :
        (granted : Policy f) (c : Config f) (r : Result (Policy f))
        → OnOk (IsBoth granted (tightening f c)) r
        → OnOk (IsAllowed granted c) (applied f tm c r)
    applied-IsAllowed granted c (err e) b = tt
    applied-IsAllowed granted c (ok q) b = go (refusals f tm c q) refl
      where
        go :
            (es : List Error)
            → refusals f tm c q ≡ es
            → OnOk
                (IsAllowed granted c)
                (verdict f q ((db_report f c).warned ++ (redis_report f c).warned) es)
        go [] h = refusals-IsAllowed granted q c _ b (ap no_items h)
        go (e ∷ es) h = tt

    -- A configuration that the policy lets through has no query and no command that writes, by its
    -- declared type or, without one, by its statements, unless the policy and the configuration both
    -- grant writes, and none with a destructive statement unless both grant those.
    pub apply_policy-allowed :
        (granted q : Policy f) (c : Config f) (ws : List Warning)
        → apply_policy f net tm c granted ≡ ok (q, ws)
        → (allowed
              (granted.allow_writes && c.safety.allow_writes)
              (granted.allow_dangerous && c.safety.allow_dangerous)
              (query_items f c.db)
            ≡ true)
          × (allowed
                (granted.allow_writes && c.safety.allow_writes)
                (granted.allow_dangerous && c.safety.allow_dangerous)
                (command_items f c.redis)
              ≡ true)
    unfolding apply_policy IsAllowed
    apply_policy-allowed granted q c ws h = subst (OnOk (IsAllowed granted c)) h (
        applied-IsAllowed granted c (tighten f net tm granted (tightening f c))
          (tighten-IsBoth granted (tightening f c)))
