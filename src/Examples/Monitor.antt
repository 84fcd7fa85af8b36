-- ===== src/Examples/Monitor.antt =====
-- The monitor's parts on small inputs: backoffs, windows, uptimes and tree heads.
use ctsubmit.Prelude.{
  ℕ, ◌+◌, ◌≡◌, refl, ◌≢◌, String, true, false, List, [], ◌∷◌, ◌++◌, Option, none, some, arith,
  length, ◌==◌, nat_eq, string_eq, ltb, if◌then◌else◌, select, lookup,
}
use ctsubmit.Prelude.Int.{pos}
use ctsubmit.Monitor.Backoff.{BackoffConfig, BackoffMaps, Backoffs, period_of, parse_retry_after}
use ctsubmit.Monitor.Backoff.Laws.{
  slow, until, map_of, period, record_incident, record_incident-until,
}
use ctsubmit.Monitor.Backoff.RetryAfter.{parse_retry_after_overflow}
use ctsubmit.Monitor.Samples.{
  OutcomeSample, ResponseTimeSample, samples_of, get_recent_outcome_counts, get_avg_response_time,
}
use ctsubmit.Monitor.Samples.Window.{
  InOrder, Between, in_window, get_recent_outcome_counts_exact, recent_of,
}
use ctsubmit.Monitor.Uptime.{Floats, Line, UptimeMap, get_uptime, process_lines}
use ctsubmit.Monitor.Uptime.Lowest.{lowest_uptime_covers}
use ctsubmit.Monitor.Sth.{Reply, response, SthData, TreeHead, Checkpoint}

abbrev cfg : BackoffConfig
cfg = record {
  bad_response_period = 10;
  timeout_period = 20;
  default_5xx_period = 30;
  default_4xx_period = 40;
  slow_response_period = 50;
}

abbrev one_entry : Backoffs
one_entry = ("log", record { backoff_until = 120; backoff_period = 50; status_code = 0 }) ∷ []

abbrev maps : BackoffMaps
maps = record {
  bad_response = [];
  timeout = [];
  http_5xx = [];
  http_4xx = [];
  slow_response = one_entry;
}

abbrev log : String
log = "log"

record_incident-until_example :
    until "log" (map_of cfg slow (record_incident cfg 100 "log" slow maps)) ≡ (
      if log == log
      then (if ltb (until "log" (map_of cfg slow maps)) (100 + period cfg slow)
          then 100 + period cfg slow
          else until "log" (map_of cfg slow maps))
      else until "log" (map_of cfg slow maps))
record_incident-until_example = record_incident-until cfg 100 "log" "log" slow maps

abbrev atoi_of : ℕ → String → Option ℕ
atoi_of n s = some n

abbrev no_date : String → Option ℕ
no_date s = none

parse_retry_after_overflow_example :
    period_of cfg 30 (parse_retry_after (atoi_of 10_000_000_000) no_date 0 "10000000000") ≡ 30
parse_retry_after_overflow_example =
    parse_retry_after_overflow cfg (atoi_of 10_000_000_000) no_date 0 "10000000000" 10_000_000_000
      30 refl refl (omega arith) (omega arith)

abbrev outcomes : List (String × List OutcomeSample)
outcomes =
    (
      "log",
      record { time = 1; success = true } ∷ record { time = 40_000_000_000; success = false } ∷ [],
    )
    ∷ []

outcomes-InOrder : InOrder (λ (s : OutcomeSample). s.time) 0 (samples_of "log" outcomes)
unfolding lookup
outcomes-InOrder = (omega arith, (omega arith, tt))

get_recent_outcome_counts_exact_example :
    let recent =
      select
        (in_window (λ (s : OutcomeSample). s.time) 50_000_000_000)
        (samples_of "log" outcomes) in
    let (successes, failures, m') = get_recent_outcome_counts 50_000_000_000 "log" outcomes in
    (successes + failures ≡ length recent)
    × (successes ≡ length (select (λ (s : OutcomeSample). s.success) recent))
    × (samples_of "log" m' ≡ recent)
get_recent_outcome_counts_exact_example =
    get_recent_outcome_counts_exact 50_000_000_000 "log" outcomes outcomes-InOrder

abbrev times : List (String × List ResponseTimeSample)
times =
    (
      "log",
      record { time = 1; duration = 10 } ∷ record { time = 40_000_000_000; duration = 20 } ∷ [],
    )
    ∷ []

times-InOrder : InOrder (λ (s : ResponseTimeSample). s.time) 0 (samples_of "log" times)
unfolding lookup
times-InOrder = (omega arith, (omega arith, tt))

times_recent : Between 15 25 (recent_of 50_000_000_000 "log" times)
unfolding lookup select
times_recent = ((omega arith, omega arith), tt)

times_average : (get_avg_response_time 50_000_000_000 "log" times).0 ≡ some 20
unfolding get_avg_response_time lookup
times_average = refl

-- Percentages in whole percent.
abbrev floats : Floats ℕ
floats = record {
  zero = 0;
  hundred = 100;
  below = ltb;
  parse = λ s. if s == "97" then some 97 else if s == "99" then some 99 else none;
}

abbrev line : String → String → Line
line e p = record { url = "log"; endpoint = e; percentage = p }

abbrev no_uptimes : UptimeMap ℕ
no_uptimes = ("log", none) ∷ []

monitored : lookup "log" no_uptimes ≢ none
unfolding lookup
monitored = λ h. cc

lowest_uptime_covers_example :
    (x : ℕ) × (get_uptime floats "log" "LOWEST"
        (process_lines floats ((line "get-sth" "99" ∷ []) ++ line "get-roots" "97" ∷ []) no_uptimes)
      ≡ some x)
    × (ltb 97 x ≡ false)
lowest_uptime_covers_example =
    lowest_uptime_covers floats (λ a. ground arith) (λ a b c p q. ground arith) "log"
      (line "get-sth" "99" ∷ []) [] (line "get-roots" "97") 97 no_uptimes refl refl monitored

abbrev sth_data : SthData
sth_data = record {
  is_rfc6962_log = false;
  submission_url = "log";
  key_name = "log.example";
  tree_size = 3;
  timestamp = none;
  last_fetched = none;
}

abbrev parse_sth : List ℕ → Option TreeHead
parse_sth b = some (record { size = length b; time = 7 })

abbrev reply : Reply
reply = response 200 (pos 0) (some (1 ∷ 2 ∷ 3 ∷ 4 ∷ []))

abbrev checkpoint_of : List ℕ → Option Checkpoint
checkpoint_of b = some (record { origin = "log.example"; size = length b })
