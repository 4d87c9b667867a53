-- ===== src/Policy/Classify/Opaque.antt =====
-- A quoted literal is opaque to the classification.
use tracepoint.Base.{
  ℕ, Bool, true, false, ◌||◌, ◌≡◌, refl, sym, ap, ◌∙◌, [], ◌∷◌, ◌++◌, arith, any, ◌==◌,
}
use tracepoint.Base.Text.{Text}
use tracepoint.Policy.Classify.{plain_read}
use tracepoint.Policy.Classify.Strip.{Mode, code, step, strip, quoted, strip_sql_comments}
use tracepoint.Policy.Classify.Sql.{classify_sql, merge_all, split_statements}

-- The mode after a text that the byte `q` follows.
unfoldable pub mode_after : Mode → Text → ℕ → Mode
mode_after m [] q = m
mode_after m (c ∷ cs) q = mode_after (step m c (cs ++ q ∷ [])).1 cs q

abbrev pub is_quote : ℕ → Bool
is_quote q = q == 39 || q == 34

-- One byte is looked ahead.
step-ahead :
    (m : Mode) (c : ℕ) (cs : Text) (q : ℕ) (r : Text)
    → step m c (cs ++ q ∷ r) ≡ step m c (cs ++ q ∷ [])
unfolding step
step-ahead code c [] q r = refl
step-ahead code c (_ ∷ _) q r = refl
step-ahead Mode.line c [] q r = refl
step-ahead Mode.line c (_ ∷ _) q r = refl
step-ahead Mode.opening c cs q r = refl
step-ahead Mode.block c [] q r = refl
step-ahead Mode.block c (_ ∷ _) q r = refl
step-ahead Mode.closing c cs q r = refl
step-ahead (quoted _) c cs q r = refl

strip-after :
    (m : Mode) (pre : Text) (q : ℕ) (r s : Text)
    → mode_after m pre q ≡ code
    → strip code (q ∷ r) ≡ strip code (q ∷ s)
    → strip m (pre ++ q ∷ r) ≡ strip m (pre ++ q ∷ s)
unfolding strip mode_after
strip-after m [] q r s e h = rw e h
strip-after m (c ∷ cs) q r s e h =
    rw (step-ahead m c cs q r, step-ahead m c cs q s)
      (ap (λ t. (step m c (cs ++ q ∷ [])).0 ++ t)
        (strip-after ((step m c (cs ++ q ∷ [])).1) cs q r s e h))

step-close : (q : ℕ) (r : Text) → step (quoted q) q r ≡ (32 ∷ [], code)
unfolding step
step-close q r = ground arith

step-skip : (q c : ℕ) (r : Text) → (c == q) ≡ false → step (quoted q) c r ≡ ([], quoted q)
unfolding step
step-skip q c r h = ground arith

step-open : (q : ℕ) (r : Text) → is_quote q ≡ true → step code q r ≡ (32 ∷ [], quoted q)
unfolding step
step-open q r h = ground arith

-- Inside a literal nothing is written until it closes.
strip-quoted :
    (q : ℕ) (b post : Text)
    → any (λ c. c == q) b ≡ false
    → strip (quoted q) (b ++ q ∷ post) ≡ 32 ∷ strip code post
unfolding strip any
strip-quoted q [] post h = rw (step-close q post) refl
strip-quoted q (c ∷ cs) post h =
    rw (step-skip q c (cs ++ q ∷ post) (ground arith)) (strip-quoted q cs post (ground arith))

strip-literal :
    (q : ℕ) (b post : Text)
    → is_quote q ≡ true
    → any (λ c. c == q) b ≡ false
    → strip code (q ∷ b ++ q ∷ post) ≡ 32 ∷ 32 ∷ strip code post
unfolding strip
strip-literal q b post k h =
    rw (step-open q (b ++ q ∷ post) k) (ap (λ t. 32 ∷ t) (strip-quoted q b post h))

-- Two statements that differ only in what stands between the quotes of a literal are classified
-- alike: the quote is outside comments and other literals, and neither content has that quote.
pub classify_sql-opaque :
    (pre b b' post : Text) (q : ℕ)
    → is_quote q ≡ true
    → mode_after code pre q ≡ code
    → any (λ c. c == q) b ≡ false
    → any (λ c. c == q) b' ≡ false
    → classify_sql (pre ++ q ∷ (b ++ q ∷ post)) ≡ classify_sql (pre ++ q ∷ (b' ++ q ∷ post))
unfolding classify_sql strip_sql_comments
classify_sql-opaque pre b b' post q k e h h' =
    ap (λ s. merge_all plain_read (split_statements s))
      (strip-after code pre q (b ++ q ∷ post) (b' ++ q ∷ post) e
        (strip-literal q b post k h ∙ sym (strip-literal q b' post k h')))
