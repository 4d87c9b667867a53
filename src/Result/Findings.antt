-- ===== src/Result/Findings.antt =====
-- Findings and their removal of doubles (`dedupeFindings` of internal/result/analyse.go).
use tracepoint.Base.{
  ℕ, Bool, true, ◌&&◌, ◌||◌, ◌≡◌, refl, List, [], ◌∷◌, any, arith, if◌then◌else◌, Bool-cases, inl,
  inr, zero, suc, ap, sym, ◌∙◌, ==_iff,
}
use tracepoint.Base.{◌==◌ as nat_eq}
use tracepoint.Base.Text.{Text, ◌==◌}

pub data FindingCode : Type 0 where
  generator_behind target_saturated client_capped same_host_target insecure_tls rate_limited
        run_aborted :
      FindingCode

pub data Severity : Type 0 where
  info warn error : Severity

-- The severity that the code gives each kind of finding with.
abbrev pub severity : FindingCode → Severity
severity generator_behind = error
severity target_saturated = warn
severity client_capped = error
severity same_host_target = warn
severity insecure_tls = warn
severity rate_limited = warn
severity run_aborted = warn

pub record Finding : Type 0 where
  pub code : FindingCode
  pub message : Text

abbrev pub number : FindingCode → ℕ
number generator_behind = 0
number target_saturated = 1
number client_capped = 2
number same_host_target = 3
number insecure_tls = 4
number rate_limited = 5
number run_aborted = 6

abbrev same_code : FindingCode → FindingCode → Bool
same_code a b = nat_eq (number a) (number b)

-- The key is the code and the message.
abbrev pub same_key : Finding → Finding → Bool
same_key a b = same_code a.code b.code && (a.message == b.message)

-- `seen` holds the findings that were kept.
unfoldable pub dedupe : List Finding → List Finding → List Finding
dedupe seen [] = []
dedupe seen (x ∷ xs) =
    let kept = x ∷ dedupe (x ∷ seen) xs in
    let rest = dedupe seen xs in if any (same_key x) seen then rest else kept

code_of : ℕ → FindingCode
code_of zero = generator_behind
code_of (suc zero) = target_saturated
code_of (suc (suc zero)) = client_capped
code_of (suc (suc (suc zero))) = same_host_target
code_of (suc (suc (suc (suc zero)))) = insecure_tls
code_of (suc (suc (suc (suc (suc zero))))) = rate_limited
code_of (suc (suc (suc (suc (suc (suc n)))))) = run_aborted

code_of-number : (c : FindingCode) → code_of (number c) ≡ c
unfolding code_of
code_of-number generator_behind = refl
code_of-number target_saturated = refl
code_of-number client_capped = refl
code_of-number same_host_target = refl
code_of-number insecure_tls = refl
code_of-number rate_limited = refl
code_of-number run_aborted = refl

same_code_of_key : (q : FindingCode → Bool) (a b : FindingCode) → same_code a b ≡ true → q a ≡ q b
same_code_of_key q a b h =
    ap q
      (sym (code_of-number a) ∙ ap code_of ((==_iff (number a) (number b)).0 h) ∙ code_of-number b)

any-of_key :
    (q : FindingCode → Bool) (x : Finding) (seen : List Finding)
    → any (same_key x) seen ≡ true
    → q x.code ≡ true
    → any (λ y. q y.code) seen ≡ true
unfolding any
any-of_key q x [] h k = cc
any-of_key q x (y ∷ ys) h k = elim (Bool-cases (same_key x y)) [
  | inl e ↦ ground (arith, same_code_of_key q x.code y.code (ground arith))
  | inr e ↦ ground (arith, any-of_key q x ys (ground arith) k)
]

any-dedupe_from :
    (q : FindingCode → Bool) (seen xs : List Finding)
    → (any (λ y. q y.code) seen || any (λ y. q y.code) (dedupe seen xs))
      ≡ (any (λ y. q y.code) seen || any (λ y. q y.code) xs)
unfolding any dedupe
any-dedupe_from q seen [] = refl
any-dedupe_from q seen (x ∷ xs) =
    let here = any-dedupe_from q seen xs in
    let more = any-dedupe_from q (x ∷ seen) xs in
    elim (Bool-cases (any (same_key x) seen)) [
      | inr e ↦ rw e (ground arith)
      | inl e ↦ rw e (elim (Bool-cases (q x.code)) [
        | inl k ↦ ground (arith, any-of_key q x seen e k)
        | inr k ↦ ground arith
      ])
    ]

-- Removing doubles keeps each kind of finding.
pub any-dedupe :
    (q : FindingCode → Bool) (xs : List Finding)
    → any (λ y. q y.code) (dedupe [] xs) ≡ any (λ y. q y.code) xs
unfolding any
any-dedupe q xs = any-dedupe_from q [] xs
