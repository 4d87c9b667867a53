-- ===== src/Errs/Examples.antt =====
-- Runs of the exit-code functions.
use tracepoint.Base.{◌≡◌, refl, ◌⊎◌, List, [], ◌∷◌}
use tracepoint.Errs.{exit_breach, exit_invalid, exit_ok, precedence, worst_from, worst}
use tracepoint.Errs.Exit.{Below, worst-is_max}
use mathlib.Core.List.{Memᴰ}
use tracepoint.Base.{ℕ}

abbrev codes : List ℕ
codes = exit_breach ∷ exit_invalid ∷ exit_breach ∷ []

worst_of_codes : worst codes ≡ exit_invalid
unfolding worst worst_from precedence
worst_of_codes = refl

worst-is_max_example :
    Below (precedence (worst codes)) codes × ((worst codes ≡ exit_ok) ⊎ Memᴰ (worst codes) codes)
worst-is_max_example = worst-is_max codes
