-- ===== src/Monitor/Backoff/RetryAfter.antt =====
-- parseRetryAfter: what a number of seconds becomes.
use ctsubmit.Prelude.{ℕ, ◌*◌, ◌≤◌, ◌<◌, ◌≡◌, String, false, Option, some, ◌==◌, string_eq, arith}
use ctsubmit.Monitor.Backoff.{BackoffConfig, parse_retry_after, second, period_of}

module _ (cfg : BackoffConfig) (atoi parse_rfc1123 : String → Option ℕ) (now : ℕ) (header : String)
    (seconds : ℕ) where
  -- A number of seconds whose nanoseconds an int64 holds is the backoff period.
  parse_retry_after_seconds :
      (default : ℕ)
      → (header == "") ≡ false
      → atoi header ≡ some seconds
      → 0 < seconds
      → seconds ≤ 9_223_372_036
      → period_of cfg default (parse_retry_after atoi parse_rfc1123 now header) ≡ seconds * second
  unfolding parse_retry_after
  parse_retry_after_seconds default given number some_seconds small = ground arith

  -- Beyond that the product wraps: up to 18446744073 seconds the header is ignored and the
  -- configured period applies.
  pub parse_retry_after_overflow :
      (default : ℕ)
      → (header == "") ≡ false
      → atoi header ≡ some seconds
      → 9_223_372_037 ≤ seconds
      → seconds ≤ 18_446_744_073
      → period_of cfg default (parse_retry_after atoi parse_rfc1123 now header) ≡ default
  unfolding parse_retry_after
  parse_retry_after_overflow default given number large small = ground arith
