-- ===== src/Policy/Classify/Strip.antt =====
-- `stripSQLComments`, as a machine that reads one byte at a time and looks one ahead.
use tracepoint.Base.{ℕ, Bool, false, ◌&&◌, ◌||◌, [], ◌∷◌, ◌++◌, if◌then◌else◌, ◌==◌}
use tracepoint.Base.Text.{Text}

-- Outside; in a line comment; at the `*` that opens a block comment; inside one; at the `/` that
-- closes it; in a literal that the given byte closes.
pub data Mode : Type 0 where
  code line opening block closing : Mode
  quoted : ℕ → Mode

abbrev pub next_is : ℕ → Text → Bool
next_is b [] = false
next_is b (c ∷ cs) = c == b

abbrev in_code : ℕ → Text → Text × Mode
in_code c rest =
    if c == b'-' && next_is b'-' rest
    then ([], line)
    else if c == b'/' && next_is b'*' rest
    then ([], opening)
    else if c == 39 || c == 34
    then (32 ∷ [], quoted c)
    else (c ∷ [], code)

-- What one byte, with the bytes after it, writes, and the mode after it.
unfoldable pub step : Mode → ℕ → Text → Text × Mode
step code c rest = in_code c rest
step line c rest = if c == 10 then in_code c rest else ([], line)
step opening c rest = ([], block)
step block c rest = if c == b'*' && next_is b'/' rest then ([], closing) else ([], block)
step closing c rest = (32 ∷ [], code)
step (quoted q) c rest = if c == q then (32 ∷ [], code) else ([], quoted q)

-- At the end of the text an open literal has its closing space written, an open comment nothing.
unfoldable pub at_end : Mode → Text
at_end (quoted q) = 32 ∷ []
at_end _ = []

unfoldable pub strip : Mode → Text → Text
strip m [] = at_end m
strip m (c ∷ cs) = (step m c cs).0 ++ strip (step m c cs).1 cs

unfoldable pub strip_sql_comments : Text → Text
strip_sql_comments s = strip code s
