-- ===== src/Runner/Sql/Failures.antt =====
-- `poolClass` and `classifyError` of internal/runner/sqlrun/sqlrun.go. A failure is what errors.Is finds in
-- it, and its text.
use tracepoint.Base.{
  ℕ, ◌+◌, Bool, true, false, ◌&&◌, ◌||◌, List, [], ◌∷◌, ◌++◌, any, if◌then◌else◌, ltb,
}
use tracepoint.Base.{◌==◌ as nat_eq}
use tracepoint.Base.Text.{Text, codes}
use tracepoint.Metrics.Outcome.{
  Class, timeout, connection, tls, pool_timeout, query_error, canceled,
}

pub record Failure : Type 0 where
  pub is_deadline : Bool
  pub is_canceled : Bool
  pub is_conn_done : Bool
  pub is_bad_conn : Bool
  pub message : Text

-- fmt.Errorf with a text before `%w`.
abbrev pub wrap : Text → Failure → Failure
wrap said e = record e { message = said ++ e.message }

abbrev pub lower_byte : ℕ → ℕ
lower_byte c = if ltb 64 c && ltb c 91 then c + 32 else c

unfoldable pub lower : Text → Text
lower [] = []
lower (c ∷ cs) = lower_byte c ∷ lower cs

unfoldable pub begins : Text → Text → Bool
begins [] t = true
begins (c ∷ cs) [] = false
begins (c ∷ cs) (d ∷ ds) = nat_eq c d && begins cs ds

-- strings.Contains.
unfoldable pub has_text : Text → Text → Bool
has_text [] part = begins part []
has_text (c ∷ cs) part = begins part (c ∷ cs) || has_text cs part

abbrev has_any : Text → List Text → Bool
has_any msg parts = any (has_text msg) parts

unfoldable pub connection_texts : List Text
connection_texts =
    codes "connection refused"
    ∷ codes "connection reset"
    ∷ codes "broken pipe"
    ∷ codes "server closed"
    ∷ codes "bad connection"
    ∷ codes "no such host"
    ∷ []

unfoldable pub by_message : Text → Class
by_message msg =
    if has_any msg connection_texts
    then connection
    else if has_any msg (codes "timeout" ∷ codes "deadline" ∷ [])
    then timeout
    else if has_any msg (codes "tls" ∷ codes "certificate" ∷ [])
    then tls
    else query_error

-- Whether the context of the operation has ended comes first.
unfoldable pub pool_class : Bool → Failure → Class
pool_class ended e =
    if e.is_canceled
    then canceled
    else if e.is_deadline
    then pool_timeout
    else if ended
    then canceled
    else connection

unfoldable pub classify_error : Bool → Failure → Class
classify_error ended e =
    if e.is_deadline
    then timeout
    else if e.is_canceled
    then canceled
    else if e.is_conn_done || e.is_bad_conn
    then connection
    else if ended
    then canceled
    else by_message (lower e.message)
