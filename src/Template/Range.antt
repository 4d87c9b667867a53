-- ===== src/Template/Range.antt =====
-- The numbers of `randInt`, and when it panics.
use tracepoint.Base.{
  ℕ, ◌+◌, ◌-◌, ◌<◌, ◌≤◌, ◌≡◌, refl, Bool, true, false, not, arith, ltb, leb, ◌==◌, Bool-cases, inl,
  inr, ap, ◌∙◌,
}
use tracepoint.Base.Int.{ℤ, pos, negsuc, ◌+ℤ◌, ◌-ℤ◌, ◌≤ℤ◌, pos_part, neg_part, ltb_ℤ, eqb_ℤ}
use tracepoint.Base.Int64.{half, full, add64, sub64, of_word}
use tracepoint.Template.{rand_int, Value, int}
use tracepoint.Template.Render.{Rand, World, Out, done, failed, panic, generate, draw_above}

-- The numbers of int64.
abbrev pub IsInt64 : ℤ → Type 0
IsInt64 a = (pos_part a < half) × (neg_part a ≤ half)

-- How many numbers lie above `lo` up to `hi`.
abbrev pub span : ℤ → ℤ → ℕ
span lo hi = pos_part hi + neg_part lo - (pos_part lo + neg_part hi)

-ℤ_span : (lo hi : ℤ) → lo ≤ℤ hi → hi -ℤ lo ≡ pos (span lo hi)
unfolding ◌-ℤ◌
-ℤ_span (pos a) (pos b) o = ground arith
-ℤ_span (pos a) (negsuc b) o = ground arith
-ℤ_span (negsuc a) (pos b) o = ground arith
-ℤ_span (negsuc a) (negsuc b) o = ground arith

sub64-span : (lo hi : ℤ) → IsInt64 lo → IsInt64 hi → lo ≤ℤ hi → sub64 hi lo ≡ of_word (span lo hi)
unfolding sub64
sub64-span lo hi l h o =
    let small : span lo hi < full = omega arith in rw (-ℤ_span lo hi o) (ap of_word (omega arith))

of_word_small : (s : ℕ) → s < half → of_word s ≡ pos s
of_word_small s h = ground arith

of_word_large : (s : ℕ) → half ≤ s → of_word s ≡ negsuc (full - 1 - s)
of_word_large s h = ground arith

-- The span and one, as int64 has it: it wraps where the span is too large.
add64-small : (s : ℕ) → s + 1 < half → add64 (of_word s) (pos 1) ≡ pos (s + 1)
unfolding add64 ◌+ℤ◌
add64-small s h = rw (of_word_small s (omega arith)) (ground arith)

add64-large : (s : ℕ) → half ≤ s + 1 → s < full → ltb_ℤ (pos 0) (add64 (of_word s) (pos 1)) ≡ false
unfolding add64 ◌+ℤ◌
add64-large s k h = elim (Bool-cases (ltb s half)) [
  | inl e ↦ rw (of_word_small s (ground arith)) (ground arith)
  | inr e ↦ rw (of_word_large s (ground arith)) (ground arith)
]

eqb_of_word : (s : ℕ) → s < full → eqb_ℤ (of_word s) (pos 0) ≡ (s == 0)
eqb_of_word s h = ground arith

add64-in_range :
    (lo hi : ℤ) (n : ℕ)
    → IsInt64 lo
    → IsInt64 hi
    → lo ≤ℤ hi
    → n ≤ span lo hi
    → (lo ≤ℤ add64 lo (pos n)) × (add64 lo (pos n) ≤ℤ hi)
unfolding add64 ◌+ℤ◌
add64-in_range (pos a) (pos b) n l h o k = ground arith
add64-in_range (pos a) (negsuc b) n l h o k = absurd (omega arith)
add64-in_range (negsuc a) (pos b) n l h o k = ground arith
add64-in_range (negsuc a) (negsuc b) n l h o k = ground arith

module _ (rand : Rand) where
  -- A number from `lo` to `hi` was given.
  abbrev pub InRange : ℤ → ℤ → Out rand Value → Type 0
  InRange lo hi panic = ⊥
  InRange lo hi (failed e w) = ⊥
  InRange lo hi (done (int n) w) = (lo ≤ℤ n) × (n ≤ℤ hi)
  InRange lo hi (done _ w) = ⊥

  -- A draw from a span that int64 holds.
  draw_above-InRange :
      ((n : ℕ) (s : rand.Source) → 0 < n → (rand.int_n n s).0 < n)
      → (lo hi : ℤ) (w : World rand) → IsInt64 lo
      → IsInt64 hi
      → lo ≤ℤ hi
      → InRange lo hi (draw_above rand lo (pos (span lo hi + 1)) w)
  draw_above-InRange law lo hi w l h o =
      let e : (span lo hi + 1 == 0) ≡ false = ground arith in
      rw e
        (add64-in_range lo hi _ l h o (omega (arith, law (span lo hi + 1) w.source (omega arith))))

  -- Where the span is not above the largest int64 less one, `randInt` gives a number from its minimum
  -- to its maximum, both included, if the random source keeps to its bound.
  pub generate-InRange :
      ((n : ℕ) (s : rand.Source) → 0 < n → (rand.int_n n s).0 < n)
      → (clock : ℕ) (lo hi : ℤ) (w : World rand) → IsInt64 lo
      → IsInt64 hi
      → lo ≤ℤ hi
      → span lo hi + 1 < half
      → InRange lo hi (generate rand clock (rand_int lo hi) w)
  unfolding generate
  generate-InRange law clock lo hi w l h o k =
      let small : span lo hi < full = omega arith in
      rw (sub64-span lo hi l h o) (elim (Bool-cases (span lo hi == 0)) [
        | inl e ↦ rw (eqb_of_word (span lo hi) small, e) (omega (arith, o))
        | inr e ↦
            rw (eqb_of_word (span lo hi) small, e, add64-small (span lo hi) k)
              (draw_above-InRange law lo hi w l h o)
      ])

  abbrev pub is_panic : Out rand Value → Bool
  is_panic panic = true
  is_panic (failed e w) = false
  is_panic (done v w) = false

  draw_above-panics :
      (lo n : ℤ) (w : World rand) → is_panic (draw_above rand lo n w) ≡ not (ltb_ℤ (pos 0) n)
  draw_above-panics lo (pos n) w = ground arith
  draw_above-panics lo (negsuc n) w = ground arith

  wraps : (s : ℕ) → s < full → not (ltb_ℤ (pos 0) (add64 (of_word s) (pos 1))) ≡ leb half (s + 1)
  wraps s h = elim (Bool-cases (leb half (s + 1))) [
    | inl k ↦ rw (k, add64-large s (ground arith) h) refl
    | inr k ↦ rw (k, add64-small s (ground arith)) (ground arith)
  ]

  -- `randInt` panics exactly where its span is the largest int64 or more.
  pub generate-panics :
      (clock : ℕ) (lo hi : ℤ) (w : World rand)
      → IsInt64 lo
      → IsInt64 hi
      → lo ≤ℤ hi
      → is_panic (generate rand clock (rand_int lo hi) w) ≡ leb half (span lo hi + 1)
  unfolding generate
  generate-panics clock lo hi w l h o =
      let small : span lo hi < full = omega arith in
      rw (sub64-span lo hi l h o) (elim (Bool-cases (span lo hi == 0)) [
        | inl e ↦ rw (eqb_of_word (span lo hi) small, e) (ground arith)
        | inr e ↦
            rw (eqb_of_word (span lo hi) small, e)
              (draw_above-panics lo (add64 (of_word (span lo hi)) (pos 1)) w
                ∙ wraps (span lo hi) small)
      ])
