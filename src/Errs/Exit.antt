-- ===== src/Errs/Exit.antt =====
-- How exit codes combine (internal/errs/errs.go, `Worst` and `ExitCodeOf`).
use mathlib.Core.List.{Memᴰ}
use tracepoint.Base.{
  ℕ, ◌≤◌, ◌<◌, Bool, true, false, List, [], ◌∷◌, ◌≡◌, refl, ◌⊎◌, inl, inr, arith, All, ltb, ltb→lt,
  if◌then◌else◌,
}
use tracepoint.Errs.{exit_ok, precedence, worst_from, worst}

abbrev pub Below : ℕ → List ℕ → Type 0
Below p cs = All (λ c. precedence c ≤ p) cs

abbrev pub Chosen : ℕ → ℕ → List ℕ → Type 0
Chosen w0 w cs = (precedence w0 ≤ precedence w) × Below (precedence w) cs × ((w ≡ w0) ⊎ Memᴰ w cs)

Chosen-take :
    (w c v : ℕ) (cs : List ℕ) → precedence w < precedence c → Chosen c v cs → Chosen w v (c ∷ cs)
Chosen-take w c v cs p (a, b, inl e) = (omega arith, (a, b), inr (Memᴰ.head e))
Chosen-take w c v cs p (a, b, inr m) = (omega arith, (a, b), inr (Memᴰ.tail m))

Chosen-skip :
    (w c v : ℕ) (cs : List ℕ) → precedence c ≤ precedence w → Chosen w v cs → Chosen w v (c ∷ cs)
Chosen-skip w c v cs p (a, b, inl e) = (a, (omega arith, b), inl e)
Chosen-skip w c v cs p (a, b, inr m) = (a, (omega arith, b), inr (Memᴰ.tail m))

Chosen-step :
    (w c v : ℕ) (cs : List ℕ) (t : Bool)
    → ltb (precedence w) (precedence c) ≡ t
    → Chosen (if t then c else w) v cs
    → Chosen w v (c ∷ cs)
Chosen-step w c v cs true h k = Chosen-take w c v cs (ltb→lt _ _ h) k
Chosen-step w c v cs false h k = Chosen-skip w c v cs (ground arith) k

worst_from-Chosen : (w : ℕ) (cs : List ℕ) → Chosen w (worst_from w cs) cs
unfolding worst_from
worst_from-Chosen w [] = (omega arith, tt, inl refl)
worst_from-Chosen w (c ∷ cs) =
    Chosen-step w c _ cs (ltb (precedence w) (precedence c)) refl
      (worst_from-Chosen (if ltb (precedence w) (precedence c) then c else w) cs)

-- Of several exit codes the one that is reported has the highest precedence of all, and it is
-- either the code of success or one of those given.
pub worst-is_max :
    (cs : List ℕ) → Below (precedence (worst cs)) cs × ((worst cs ≡ exit_ok) ⊎ Memᴰ (worst cs) cs)
unfolding worst
worst-is_max cs = let (a, b, c) = worst_from-Chosen exit_ok cs in (b, c)
