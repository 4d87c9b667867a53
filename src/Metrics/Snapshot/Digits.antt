-- ===== src/Metrics/Snapshot/Digits.antt =====
-- A status code that is printed is read back.
use tracepoint.Base.{
  ℕ, zero, suc, ◌+◌, ◌*◌, ◌/◌, ◌%◌, ◌^◌, ◌<◌, ◌≡◌, refl, sym, ap, ◌∙◌, leb, ◌&&◌, ◌-◌, [], ◌∷◌,
  Option, none, some, Bool, true, false, arith, ◌==◌,
}
use tracepoint.Base.Text.{Text, read_digits, read_nat}
use tracepoint.Metrics.Snapshot.{digits, itoa}

-- Reading what was printed, where it was.
abbrev pub read_back : Option Text → Option ℕ
read_back none = none
read_back (some t) = read_nat t

abbrev is_some : Option Text → Bool
is_some none = false
is_some (some t) = true

abbrev reading : Option Text → Option ℕ
reading none = none
reading (some t) = read_digits 0 t

last_digit : (i : ℕ) → 10 * (suc i / 10) + (48 + suc i % 10 - 48) ≡ suc i
last_digit i = omega arith

is_digit-last : (i : ℕ) → (leb 48 (48 + suc i % 10) && leb (48 + suc i % 10) 57) ≡ true
is_digit-last i = ground arith

digits-read :
    (room i : ℕ) (acc t : Text) → digits room i acc ≡ some t → read_digits 0 t ≡ read_digits i acc
unfolding digits read_digits
digits-read room zero acc t h = ap reading (sym h)
digits-read zero (suc i) acc t h = cc
digits-read (suc room) (suc i) acc t h =
    digits-read room (suc i / 10) _ t h
    ∙ rw (is_digit-last i) (ap (λ n. read_digits n acc) (last_digit i))

digits-fit : (room i : ℕ) (acc : Text) → i < 10 ^ room → is_some (digits room i acc) ≡ true
unfolding digits
digits-fit room zero acc h = refl
digits-fit zero (suc i) acc h = elim (zero_room h) [ ]
  where
    zero_room : suc i < 10 ^ zero → ⊥
    zero_room h = omega arith
digits-fit (suc room) (suc i) acc h = digits-fit room (suc i / 10) _ (omega arith)

read_nat-digits : (i : ℕ) (t : Text) → read_digits 0 t ≡ some (suc i) → read_nat t ≡ some (suc i)
unfolding read_digits read_nat
read_nat-digits i [] h = cc
read_nat-digits i (c ∷ cs) h = h

read_back-digits :
    (i : ℕ) (o : Option Text)
    → digits 8 (suc i) [] ≡ o
    → is_some o ≡ true
    → read_back o ≡ some (suc i)
unfolding read_digits
read_back-digits i none e h = cc
read_back-digits i (some t) e h = read_nat-digits i t (digits-read 8 (suc i) [] t e)

suc_not_zero : (i : ℕ) → (suc i == 0) ≡ false
suc_not_zero i = ground arith

-- A number below 100000000 is printed, and what is printed is read back as it was.
pub itoa-read_back : (i : ℕ) → i < 100000000 → read_back (itoa i) ≡ some i
unfolding itoa read_nat read_digits
itoa-read_back zero h = refl
itoa-read_back (suc i) h =
    rw (suc_not_zero i)
      (read_back-digits i (digits 8 (suc i) []) refl (digits-fit 8 (suc i) [] (omega arith)))
