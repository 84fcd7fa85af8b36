-- ===== src/Monitor/Backoff.antt =====
-- monitor/backoffHandler.go: per-log backoff periods of five kinds. Times are nanoseconds since
-- Go's zero time and durations nanoseconds; the configured periods are not negative. A method reads
-- the clock where it says `now`; the text of the reason is left out.
pub mod Laws
pub mod RetryAfter
use ctsubmit.Prelude.{
  ℕ, ◌+◌, ◌-◌, ◌*◌, ◌%◌, ◌^◌, ◌≤◌, ◌<◌, String, Bool, true, false, not, ◌&&◌, ◌||◌, List, [], ◌∷◌,
  Option, none, some, ltb, leb, ◌==◌, nat_eq, string_eq, lookup, store, if◌then◌else◌,
}
use ctsubmit.Prelude.Int.{ℤ, pos, negsuc, pos_part, sub_ℕ, ltb_ℤ}

pub record BackoffEntry : Type 0 where
  pub backoff_until : ℕ
  pub backoff_period : ℕ
  pub status_code : ℕ

abbrev pub zero_entry : BackoffEntry
zero_entry = record { backoff_until = 0; backoff_period = 0; status_code = 0 }

abbrev pub Backoffs : Type 0
Backoffs = List (String × BackoffEntry)

pub record BackoffConfig : Type 0 where
  pub bad_response_period : ℕ
  pub timeout_period : ℕ
  pub default_5xx_period : ℕ
  pub default_4xx_period : ℕ
  pub slow_response_period : ℕ

pub record BackoffMaps : Type 0 where
  pub bad_response : Backoffs
  pub timeout : Backoffs
  pub http_5xx : Backoffs
  pub http_4xx : Backoffs
  pub slow_response : Backoffs

abbrev pub entry_of : String → Backoffs → BackoffEntry
entry_of url m = elim (lookup url m) [ none ↦ zero_entry | some b ↦ b ]

-- A backoff is only ever extended. The two kinds without a status code leave that field alone.
unfoldable pub extend : ℕ → ℕ → BackoffEntry → BackoffEntry
extend now period b =
    if ltb b.backoff_until (now + period)
    then record b { backoff_until = now + period; backoff_period = period }
    else b

unfoldable pub extend_status : ℕ → ℕ → ℕ → BackoffEntry → BackoffEntry
extend_status now period status b =
    if ltb b.backoff_until (now + period)
    then record { backoff_until = now + period; backoff_period = period; status_code = status }
    else b

module _ (cfg : BackoffConfig) where
  unfoldable pub init_backoff_entries : String → BackoffMaps → BackoffMaps
  init_backoff_entries url m = record {
    bad_response = store url zero_entry m.bad_response;
    timeout = store url zero_entry m.timeout;
    http_5xx = store url zero_entry m.http_5xx;
    http_4xx = store url zero_entry m.http_4xx;
    slow_response = store url zero_entry m.slow_response;
  }

  unfoldable pub record_bad_response : ℕ → String → BackoffMaps → BackoffMaps
  unfolding extend
  record_bad_response now url m = record m {
    bad_response =
        store url (extend now cfg.bad_response_period (entry_of url m.bad_response)) m.bad_response;
  }

  unfoldable pub record_timeout : ℕ → String → BackoffMaps → BackoffMaps
  unfolding extend
  record_timeout now url m = record m {
    timeout = store url (extend now cfg.timeout_period (entry_of url m.timeout)) m.timeout;
  }

  -- A positive Retry-After takes the place of the configured period.
  abbrev pub period_of : ℕ → ℤ → ℕ
  period_of default retry_after =
      if ltb_ℤ (pos 0) retry_after then pos_part retry_after else default

  unfoldable pub record_5xx_response : ℕ → String → ℕ → ℤ → BackoffMaps → BackoffMaps
  unfolding extend_status
  record_5xx_response now url status retry_after m = record m {
    http_5xx =
        store url
          (extend_status now (period_of cfg.default_5xx_period retry_after) status
            (entry_of url m.http_5xx))
          m.http_5xx;
  }

  unfoldable pub record_4xx_response : ℕ → String → ℕ → ℤ → BackoffMaps → BackoffMaps
  unfolding extend_status
  record_4xx_response now url status retry_after m = record m {
    http_4xx =
        store url
          (extend_status now (period_of cfg.default_4xx_period retry_after) status
            (entry_of url m.http_4xx))
          m.http_4xx;
  }

  unfoldable pub record_slow_response : ℕ → String → BackoffMaps → BackoffMaps
  unfolding extend
  record_slow_response now url m = record m {
    slow_response =
        store url (extend now cfg.slow_response_period (entry_of url m.slow_response))
          m.slow_response;
  }

-- The five getters differ in the map they read. The clock is read twice, at `now` for the test and
-- at `later` for `time.Until`.
unfoldable pub get_backoff : ℕ → ℕ → String → Backoffs → ℤ
get_backoff now later url m = elim (lookup url m) [
  | none ↦ pos 0
  | some b ↦ if ltb b.backoff_until now then pos 0 else sub_ℕ b.backoff_until later
]

unfoldable pub get_status_code : ℕ → String → Backoffs → ℕ
get_status_code now url m = elim (lookup url m) [
  | none ↦ 0
  | some b ↦ if ltb b.backoff_until now then 0 else b.status_code
]

-- An int64 from its bits.
unfoldable pub to_int64 : ℕ → ℤ
to_int64 n = let m = n % 2 ^ 64 in if ltb m (2 ^ 63) then pos m else negsuc (2 ^ 64 - m - 1)

abbrev pub second : ℕ
second = 1_000_000_000

-- parseRetryAfter. `atoi` and `parse_rfc1123` are strconv.Atoi and time.Parse with time.RFC1123; a
-- number that is not positive and a negative one are treated alike, so `atoi` gives a number.
unfoldable pub parse_retry_after : (String → Option ℕ) → (String → Option ℕ) → ℕ → String → ℤ
unfolding to_int64
parse_retry_after atoi parse_rfc1123 now header =
    let date : ℤ = elim (parse_rfc1123 header) [
      | none ↦ pos 0
      | some t ↦ if ltb now t then pos (t - now) else pos 0
    ] in
    if header == "" then pos 0 else elim (atoi header) [
      | none ↦ date
      | some seconds ↦ if ltb 0 seconds then to_int64 (seconds * second) else date
    ]
