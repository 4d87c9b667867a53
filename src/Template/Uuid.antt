-- ===== src/Template/Uuid.antt =====
-- The form of a generated UUID.
use tracepoint.Base.{
  ℕ, zero, suc, ◌+◌, ◌/◌, ◌%◌, ◌<◌, ◌≡◌, refl, Bool, true, any, length, get_or, arith, ap, ◌∙◌,
}
use tracepoint.Base.{◌==◌ as nat_eq}
use tracepoint.Base.Text.{codes}
use tracepoint.Template.Render.{uuid_text, hex_from, low_bytes, hex_digit}

abbrev pub is_variant : ℕ → Bool
is_variant c = any (λ d. nat_eq d c) (codes "89ab")

variant_digit : (j : ℕ) → j < 4 → is_variant (hex_digit (8 + j)) ≡ true
unfolding any
variant_digit zero h = refl
variant_digit (suc zero) h = refl
variant_digit (suc (suc zero)) h = refl
variant_digit (suc (suc (suc zero))) h = refl
variant_digit (suc (suc (suc (suc j)))) h = absurd (omega arith)

variant_of : (b : ℕ) → is_variant (hex_digit ((b % 64 + 128) / 16)) ≡ true
variant_of b =
    ap (λ k. is_variant (hex_digit k)) (omega arith) ∙ variant_digit (b % 64 / 16) (omega arith)

version_of : (b : ℕ) → hex_digit ((b % 16 + 64) / 16) ≡ b'4'
version_of b = let e : (b % 16 + 64) / 16 ≡ 4 = omega arith in rw e refl

-- Every UUID, whatever is drawn, has 36 characters, dashes after the 8th, 12th, 16th and 20th digit, the
-- version 4, and the variant 8, 9, a or b.
pub uuid_text_form :
    (hi lo : ℕ)
    → let t = uuid_text hi lo in
      (length t ≡ 36)
      × (get_or t 8 0 ≡ b'-')
      × (get_or t 13 0 ≡ b'-')
      × (get_or t 18 0 ≡ b'-')
      × (get_or t 23 0 ≡ b'-')
      × (get_or t 14 0 ≡ b'4')
      × (is_variant (get_or t 19 0) ≡ true)
unfolding uuid_text hex_from low_bytes
uuid_text_form hi lo = (refl, refl, refl, refl, refl, version_of _, variant_of _)
