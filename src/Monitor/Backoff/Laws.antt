-- ===== src/Monitor/Backoff/Laws.antt =====
-- When a backoff is in effect, and that recording never shortens one.
use ctsubmit.Prelude.{
  ℕ, ◌+◌, ◌<◌, ◌≡◌, ◌↔◌, String, Bool, true, ltb, ◌==◌, string_eq, lookup-store, arith,
  if◌then◌else◌,
}
use ctsubmit.Prelude.Int.{ℤ, pos, ltb_ℤ}
use ctsubmit.Monitor.Backoff.{
  BackoffConfig, BackoffMaps, Backoffs, entry_of, period_of, extend, extend_status,
  record_bad_response, record_timeout, record_5xx_response, record_4xx_response,
  record_slow_response, get_backoff,
}

-- The end of the backoff of a log.
abbrev pub until : String → Backoffs → ℕ
until url m = (entry_of url m).backoff_until

abbrev pub in_backoff : ℕ → String → Backoffs → Bool
in_backoff now url m = ltb_ℤ (pos 0) (get_backoff now now url m)

-- The getters report a positive duration exactly until the end of the backoff.
get_backoff_until :
    (now : ℕ) (url : String) (m : Backoffs) → (in_backoff now url m ≡ true) ↔ (now < until url m)
unfolding get_backoff
get_backoff_until now url m = (λ h. ground arith, λ h. ground arith)

-- A recorded event of one of the five kinds, with what the response brings.
pub data Incident : Type 0 where
  bad timed_out slow : Incident
  server_error client_error : ℕ → ℤ → Incident

module _ (cfg : BackoffConfig) where
  unfoldable pub record_incident : ℕ → String → Incident → BackoffMaps → BackoffMaps
  unfolding record_bad_response record_timeout record_5xx_response record_4xx_response
      record_slow_response
  record_incident now url bad m = record_bad_response cfg now url m
  record_incident now url timed_out m = record_timeout cfg now url m
  record_incident now url slow m = record_slow_response cfg now url m
  record_incident now url (server_error status retry) m =
      record_5xx_response cfg now url status retry m
  record_incident now url (client_error status retry) m =
      record_4xx_response cfg now url status retry m

  -- The map that an incident goes to, and the period that it asks for.
  abbrev pub map_of : Incident → BackoffMaps → Backoffs
  map_of bad m = m.bad_response
  map_of timed_out m = m.timeout
  map_of slow m = m.slow_response
  map_of (server_error status retry) m = m.http_5xx
  map_of (client_error status retry) m = m.http_4xx

  abbrev pub period : Incident → ℕ
  period bad = cfg.bad_response_period
  period timed_out = cfg.timeout_period
  period slow = cfg.slow_response_period
  period (server_error status retry) = period_of cfg cfg.default_5xx_period retry
  period (client_error status retry) = period_of cfg cfg.default_4xx_period retry

  -- After an incident the log's backoff of that kind ends at the later of the old end and the
  -- incident's own; other logs' backoffs of that kind end when they did.
  pub record_incident-until :
      (now : ℕ) (url other : String) (x : Incident) (m : BackoffMaps)
      → until other (map_of x (record_incident now url x m)) ≡ (
          if url == other
          then (if ltb (until url (map_of x m)) (now + period x)
              then now + period x
              else until url (map_of x m))
          else until other (map_of x m))
  unfolding record_incident
  record_incident-until now url other bad m = ground (
    arith,
    lookup-store url other (extend now cfg.bad_response_period (entry_of url m.bad_response))
        m.bad_response,
  )
  record_incident-until now url other timed_out m = ground (
    arith,
    lookup-store url other (extend now cfg.timeout_period (entry_of url m.timeout)) m.timeout,
  )
  record_incident-until now url other slow m = ground (
    arith,
    lookup-store url other (extend now cfg.slow_response_period (entry_of url m.slow_response))
        m.slow_response,
  )
  record_incident-until now url other (server_error status retry) m = ground (
    arith,
    lookup-store url other
        (extend_status now (period_of cfg cfg.default_5xx_period retry) status
          (entry_of url m.http_5xx))
        m.http_5xx,
  )
  record_incident-until now url other (client_error status retry) m = ground (
    arith,
    lookup-store url other
        (extend_status now (period_of cfg cfg.default_4xx_period retry) status
          (entry_of url m.http_4xx))
        m.http_4xx,
  )
