-- ===== src/Metrics/Outcome.antt =====
-- internal/metrics/outcome.go: how an operation ended, and when. Times are nanoseconds from the run
-- start, signed as in Go.
use tracepoint.Base.{ℕ, Bool, true, false, List, [], ◌∷◌, ◌==◌}
use tracepoint.Base.Int.{ℤ, ◌-ℤ◌}
use Prim.Native.String.{String}

pub data Class : Type 0 where
  ok timeout connection dns tls pool_timeout http_4xx http_5xx expect_failed : Class
  extract_failed query_error canceled other : Class

unfoldable pub class_name : Class → String
class_name ok = "ok"
class_name timeout = "timeout"
class_name connection = "connection"
class_name dns = "dns"
class_name tls = "tls"
class_name pool_timeout = "pool_timeout"
class_name http_4xx = "http_4xx"
class_name http_5xx = "http_5xx"
class_name expect_failed = "expect_failed"
class_name extract_failed = "extract_failed"
class_name query_error = "query_error"
class_name canceled = "canceled"
class_name other = "other"

-- The constant's number.
abbrev pub ordinal : Class → ℕ
ordinal ok = 0
ordinal timeout = 1
ordinal connection = 2
ordinal dns = 3
ordinal tls = 4
ordinal pool_timeout = 5
ordinal http_4xx = 6
ordinal http_5xx = 7
ordinal expect_failed = 8
ordinal extract_failed = 9
ordinal query_error = 10
ordinal canceled = 11
ordinal other = 12

abbrev pub same_class : Class → Class → Bool
same_class a b = ordinal a == ordinal b

unfoldable pub is_error : Class → Bool
is_error ok = false
is_error _ = true

unfoldable pub counts_toward_abort_guard : Class → Bool
counts_toward_abort_guard timeout = true
counts_toward_abort_guard connection = true
counts_toward_abort_guard dns = true
counts_toward_abort_guard tls = true
counts_toward_abort_guard http_5xx = true
counts_toward_abort_guard _ = false

unfoldable pub classes : List Class
classes =
    ok ∷ timeout ∷ connection ∷ dns ∷ tls ∷ pool_timeout ∷ http_4xx ∷ http_5xx ∷ expect_failed
    ∷ extract_failed ∷ query_error ∷ canceled ∷ other ∷ []

pub record Outcome : Type 0 where
  pub label : ℤ
  pub class : Class
  pub status : ℤ  -- int32
  pub intended : ℤ
  pub dispatched : ℤ
  pub worker_start : ℤ
  pub conn_acquired : ℤ
  pub first_byte : ℤ
  pub end : ℤ
  pub bytes_in : ℕ
  pub bytes_out : ℕ

unfoldable pub response_time : Outcome → ℤ
unfolding ◌-ℤ◌
response_time o = o.end -ℤ o.intended

unfoldable pub service_time : Outcome → ℤ
unfolding ◌-ℤ◌
service_time o = o.end -ℤ o.conn_acquired

unfoldable pub client_wait : Outcome → ℤ
unfolding ◌-ℤ◌
client_wait o = o.conn_acquired -ℤ o.intended

unfoldable pub dispatch_lag : Outcome → ℤ
unfolding ◌-ℤ◌
dispatch_lag o = o.dispatched -ℤ o.intended
