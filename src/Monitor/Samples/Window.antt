-- ===== src/Monitor/Samples/Window.antt =====
-- The windows hold the samples of the last 30 seconds, as long as the clock does not go back.
use ctsubmit.Prelude.{
  ℕ, suc, ◌+◌, ◌*◌, ◌/◌, ◌≤◌, ◌≡◌, refl, String, Bool, true, false, not, List, [], ◌∷◌, ◌++◌, none,
  some, length, ltb, string_eq, lookup-store, ==_refl, select, All, arith, ◌↔◌,
}
use ctsubmit.Monitor.Samples.{
  response_time_window, OutcomeSample, ResponseTimeSample, samples_of, drop_stale, count_outcomes,
  get_recent_outcome_counts, total_duration, average, get_avg_response_time,
}

module _ {A : Type 0} (time : A → ℕ) where
  abbrev pub in_window : ℕ → A → Bool
  in_window now s = not (ltb (time s + response_time_window) now)

  -- Times do not fall along the list, from a bound on.
  abbrev pub InOrder : ℕ → List A → Type 0
  InOrder from [] = Unit
  InOrder from (s ∷ ss) = (from ≤ time s) × InOrder (time s) ss

  select_recent :
      (now from : ℕ) (ss : List A)
      → InOrder from ss
      → now ≤ from + response_time_window
      → select (in_window now) ss ≡ ss
  unfolding select
  select_recent now from [] o h = refl
  select_recent now from (s ∷ ss) o h = ground (arith, select_recent now (time s) ss)

  -- Dropping at the front drops all that is stale.
  pub drop_stale_lem :
      (now from : ℕ) (ss : List A)
      → InOrder from ss
      → drop_stale time now ss ≡ select (in_window now) ss
  unfolding drop_stale select
  drop_stale_lem now from [] o = refl
  drop_stale_lem now from (s ∷ ss) o =
      ground (arith, drop_stale_lem now (time s) ss, select_recent now (time s) ss)

  select-select :
      (now later : ℕ) (ss : List A)
      → now ≤ later
      → select (in_window later) (select (in_window now) ss) ≡ select (in_window later) ss
  unfolding select
  select-select now later [] h = refl
  select-select now later (s ∷ ss) h = ground (arith, select-select now later ss)

  pub InOrder-snoc :
      (from : ℕ) (ss : List A) (s : A)
      → InOrder from ss
      → All (λ x. time x ≤ time s) ss
      → from ≤ time s
      → InOrder from (ss ++ s ∷ [])
  InOrder-snoc from [] s o a h = (h, tt)
  InOrder-snoc from (x ∷ xs) s o a h = (o.0, InOrder-snoc (time x) xs s o.1 a.1 a.0)

counts_all :
    (ss : List OutcomeSample) → count_outcomes true ss + count_outcomes false ss ≡ length ss
unfolding count_outcomes
counts_all [] = refl
counts_all (s ∷ ss) = ground (arith, counts_all ss)

counts_successes :
    (ss : List OutcomeSample)
    → count_outcomes true ss ≡ length (select (λ (s : OutcomeSample). s.success) ss)
unfolding count_outcomes select
counts_successes [] = refl
counts_successes (s ∷ ss) = ground (arith, counts_successes ss)

-- Successes and failures are counted over exactly the samples of the last 30 seconds, and each of
-- those is counted once. The samples stand in the order of their times.
pub get_recent_outcome_counts_exact :
    (now : ℕ) (url : String) (m : List (String × List OutcomeSample))
    → InOrder (λ (s : OutcomeSample). s.time) 0 (samples_of url m)
    → let recent = select (in_window (λ (s : OutcomeSample). s.time) now) (samples_of url m) in
      let (successes, failures, m') = get_recent_outcome_counts now url m in
      (successes + failures ≡ length recent)
      × (successes ≡ length (select (λ (s : OutcomeSample). s.success) recent))
      × (samples_of url m' ≡ recent)
unfolding get_recent_outcome_counts
get_recent_outcome_counts_exact now url m o =
    rw (drop_stale_lem (λ (s : OutcomeSample). s.time) now 0 (samples_of url m) o) (
      counts_all _,
      counts_successes _,
      ground (
        arith,
        lookup-store url url
            (select (in_window (λ (s : OutcomeSample). s.time) now) (samples_of url m)) m,
        ==_refl url,
      ),
    )

-- Bounds on an average.
abbrev pub Between : ℕ → ℕ → List ResponseTimeSample → Type 0
Between lo hi = All (λ (s : ResponseTimeSample). (lo ≤ s.duration) × (s.duration ≤ hi))

total_duration_bounds :
    (lo hi : ℕ) (ss : List ResponseTimeSample)
    → Between lo hi ss
    → (lo * length ss ≤ total_duration ss) × (total_duration ss ≤ hi * length ss)
unfolding total_duration
total_duration_bounds lo hi [] b = (omega arith, omega arith)
total_duration_bounds lo hi (s ∷ ss) b = omega (arith, total_duration_bounds lo hi ss b.1)

div_bounds : (lo hi n d : ℕ) → lo * suc d ≤ n → n ≤ hi * suc d → (lo ≤ n / suc d) × (n / suc d ≤ hi)
div_bounds lo hi n d h k = (grind arith, grind arith)

none_iff : (ss : List ResponseTimeSample) → (average ss ≡ none) ↔ (ss ≡ [])
unfolding average
none_iff [] = (λ h. refl, λ h. refl)
none_iff (s ∷ ss) = (λ h. cc, λ h. cc)

average_bounds :
    (lo hi avg : ℕ) (ss : List ResponseTimeSample)
    → Between lo hi ss
    → average ss ≡ some avg
    → (lo ≤ avg) × (avg ≤ hi)
unfolding average
average_bounds lo hi avg [] b h = cc
average_bounds lo hi avg (s ∷ ss) b h = ground (
  arith,
  div_bounds lo hi (total_duration (s ∷ ss)) (length ss),
  total_duration_bounds lo hi (s ∷ ss) b,
)

abbrev pub recent_of :
    ℕ → String → List (String × List ResponseTimeSample) → List ResponseTimeSample
recent_of now url m = select (in_window (λ (s : ResponseTimeSample). s.time) now) (samples_of url m)

-- There is no average exactly if no sample is of the last 30 seconds. The samples stand in the
-- order of their times.
get_avg_response_time-none :
    (now : ℕ) (url : String) (m : List (String × List ResponseTimeSample))
    → InOrder (λ (s : ResponseTimeSample). s.time) 0 (samples_of url m)
    → ((get_avg_response_time now url m).0 ≡ none) ↔ (recent_of now url m ≡ [])
unfolding get_avg_response_time
get_avg_response_time-none now url m o =
    rw (drop_stale_lem (λ (s : ResponseTimeSample). s.time) now 0 (samples_of url m) o) (none_iff _)

-- The average lies between any bounds on the durations of the samples of the last 30 seconds. The
-- samples stand in the order of their times.
get_avg_response_time_bounds :
    (now lo hi avg : ℕ) (url : String) (m : List (String × List ResponseTimeSample))
    → InOrder (λ (s : ResponseTimeSample). s.time) 0 (samples_of url m)
    → Between lo hi (recent_of now url m)
    → (get_avg_response_time now url m).0 ≡ some avg
    → (lo ≤ avg) × (avg ≤ hi)
unfolding get_avg_response_time
get_avg_response_time_bounds now lo hi avg url m o =
    rw (drop_stale_lem (λ (s : ResponseTimeSample). s.time) now 0 (samples_of url m) o)
      (average_bounds lo hi avg _)
