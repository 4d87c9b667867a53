-- ===== src/Template/Ends.antt =====
-- `Compile` ends on every source.
use tracepoint.Base.{
  ℕ, zero, suc, ◌+◌, ◌<◌, ◌≡◌, refl, Option, none, some, List, [], ◌∷◌, length, arith,
}
use tracepoint.Base.Text.{Text, cut_pair, tail, trim_space}
use tracepoint.Errs.{Result, ok, err}
use tracepoint.Template.{Part, Template}
use tracepoint.Template.Compile.{
  Loop, compile_parts, compile, opened, closed, token_part, join, finished, compile_token, template,
}

-- The two bytes are cut out.
pub cut_pair-length : (b : ℕ) (s x y : Text) → cut_pair b s ≡ some (x, y) → length y + 1 < length s
unfolding cut_pair
cut_pair-length b [] x y h = ground arith
cut_pair-length b (c ∷ []) x y h = ground arith
cut_pair-length b (c ∷ d ∷ cs) x y h = ground (arith, cut_pair-length b (d ∷ cs) (tail x) y)

-- A result, whatever it is.
abbrev pub Ended {ℓ} : {A : Type ℓ} → Option A → Type 0
Ended none = ⊥
Ended (some r) = Unit {0}

join-Ended :
    (before : Text) (p : Part) (o : Option (Result (List Part))) → Ended o → Ended (join before p o)
join-Ended before p none h = h
join-Ended before p (some r) h = h

token_part-Ended :
    (loop : Loop) (before after : Text) (r : Result Part)
    → Ended (loop after)
    → Ended (token_part loop before after r)
token_part-Ended loop before after (err e) h = tt
token_part-Ended loop before after (ok p) h = join-Ended before p (loop after) h

closed-Ended :
    (loop : Loop) (before s : Text) (o : Option (Text × Text))
    → cut_pair b'}' s ≡ o
    → ((t : Text) → length t < length s → Ended (loop t))
    → Ended (closed loop before o)
closed-Ended loop before s none e more = tt
closed-Ended loop before s (some (token, after)) e more =
    token_part-Ended loop before after (compile_token (trim_space token))
      (more after (omega (arith, cut_pair-length b'}' s token after e)))

opened-Ended :
    (loop : Loop) (s : Text) (o : Option (Text × Text))
    → cut_pair b'{' s ≡ o
    → ((t : Text) → length t < length s → Ended (loop t))
    → Ended (opened loop s o)
opened-Ended loop s none e more = tt
opened-Ended loop s (some (before, after)) e more =
    closed-Ended loop before after (cut_pair b'}' after) refl
      (λ t h. more t (omega (arith, h, cut_pair-length b'{' s before after e)))

pub compile_parts-Ended : (fuel : ℕ) (s : Text) → length s < fuel → Ended (compile_parts fuel s)
unfolding compile_parts
compile_parts-Ended zero s h = elim h [ ]
compile_parts-Ended (suc fuel) s h =
    opened-Ended (compile_parts fuel) s (cut_pair b'{' s) refl
      (λ t k. compile_parts-Ended fuel t (omega (arith, h, k)))

finished-some :
    (source : Text) (o : Option (Result (List Part)))
    → Ended o
    → (r : Result Template) × (finished source o ≡ some r)
finished-some source none h = absurd h
finished-some source (some r) h = (template source r, refl)

-- Every source is compiled or refused: the fuel, one more than the length of the source, is enough.
pub compile_ends : (source : Text) → (r : Result Template) × (compile source ≡ some r)
unfolding compile
compile_ends source =
    finished-some source (compile_parts (suc (length source)) source)
      (compile_parts-Ended (suc (length source)) source (omega arith))
