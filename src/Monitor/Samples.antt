-- ===== src/Monitor/Samples.antt =====
-- monitor/metrics.go: the sliding windows of outcomes and response times. The Prometheus counters
-- are left out. `cutoff` is `now - 30s`, so `at.Before(cutoff)` is `at + 30s < now`.
pub mod Window
use ctsubmit.Prelude.{
  ℕ, suc, ◌+◌, ◌*◌, ◌/◌, String, Bool, true, false, List, [], ◌∷◌, ◌++◌, Option, none, some, length,
  ltb, ◌==◌, string_eq, lookup, store, if◌then◌else◌,
}

abbrev pub response_time_window : ℕ
response_time_window = 30 * 1_000_000_000

pub record OutcomeSample : Type 0 where
  pub time : ℕ
  pub success : Bool

pub record ResponseTimeSample : Type 0 where
  pub time : ℕ
  pub duration : ℕ

abbrev pub samples_of {ℓ} : {A : Type ℓ} → String → List (String × List A) → List A
samples_of url m = elim (lookup url m) [ none ↦ [] | some l ↦ l ]

-- The loop that drops the samples at the front that are older than the window.
unfoldable pub drop_stale : {A : Type 0} → (A → ℕ) → ℕ → List A → List A
drop_stale time now [] = []
drop_stale time now (s ∷ ss) =
    if ltb (time s + response_time_window) now then drop_stale time now ss else s ∷ ss

unfoldable pub record_outcome_sample :
    ℕ → String → String → List (String × List OutcomeSample) → List (String × List OutcomeSample)
unfolding drop_stale
record_outcome_sample now url outcome m =
    if outcome == "cancelled"
    then m
    else store url
        (drop_stale (λ (s : OutcomeSample). s.time) now (samples_of url m)
          ++ record { time = now; success = outcome == "success" } ∷ [])
        m

unfoldable pub count_outcomes : Bool → List OutcomeSample → ℕ
count_outcomes b [] = 0
count_outcomes true (s ∷ ss) =
    if s.success then suc (count_outcomes true ss) else count_outcomes true ss
count_outcomes false (s ∷ ss) =
    if s.success then count_outcomes false ss else suc (count_outcomes false ss)

-- The counts of successes and failures, and the map without the stale samples.
unfoldable pub get_recent_outcome_counts :
    ℕ → String → List (String × List OutcomeSample) → ℕ × ℕ × List (String × List OutcomeSample)
unfolding drop_stale count_outcomes
get_recent_outcome_counts now url m =
    let samples = drop_stale (λ (s : OutcomeSample). s.time) now (samples_of url m) in
    (count_outcomes true samples, count_outcomes false samples, store url samples m)

unfoldable pub record_response_time_sample :
    ℕ
    → String
    → ℕ
    → List (String × List ResponseTimeSample)
    → List (String × List ResponseTimeSample)
unfolding drop_stale
record_response_time_sample now url duration m =
    store url
      (drop_stale (λ (s : ResponseTimeSample). s.time) now (samples_of url m)
        ++ record { time = now; duration = duration } ∷ [])
      m

unfoldable pub total_duration : List ResponseTimeSample → ℕ
total_duration [] = 0
total_duration (s ∷ ss) = s.duration + total_duration ss

unfoldable pub average : List ResponseTimeSample → Option ℕ
unfolding total_duration
average [] = none
average (s ∷ ss) = some (total_duration (s ∷ ss) / length (s ∷ ss))

unfoldable pub get_avg_response_time :
    ℕ
    → String
    → List (String × List ResponseTimeSample)
    → Option ℕ × List (String × List ResponseTimeSample)
unfolding drop_stale average
get_avg_response_time now url m =
    let samples = drop_stale (λ (s : ResponseTimeSample). s.time) now (samples_of url m) in
    (average samples, store url samples m)
