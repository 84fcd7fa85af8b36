-- ===== src/Examples/LogLists.antt =====
-- Small log lists, a custom list and the health: loglists/filter.go, customTestLogs.go, health.go.
use ctsubmit.Prelude.{
  ℕ, ◌+◌, ◌≡◌, refl, String, Bool, false, not, ◌&&◌, List, [], ◌∷◌, Option, none, some, lookup,
  store, any, ltb, All, ◌==◌, string_eq, nat_eq,
}
use ctsubmit.Submitter.LogList.{Log, Operator}
use ctsubmit.Pki.Discovery.{bytes_equal}
use ctsubmit.LogLists.Filter.{determine_active_tls_logs, determine_test_tls_logs}
use ctsubmit.LogLists.Filter.Partition.{count_logs, count_tiled_logs, determine_tls_logs_share}
use ctsubmit.LogLists.Intersect.{intersect}
use ctsubmit.LogLists.Intersect.Common.{IsCommon, intersect-IsCommon}
use ctsubmit.LogLists.CustomTestLogs.{loaded, load_custom_test_log_list}
use ctsubmit.LogLists.CustomTestLogs.Registered.{AllReady, load_custom_test_log_list-AllReady}
use ctsubmit.Health.{Report, new_health, set_initial_data_ready, is_ready}
use ctsubmit.Health.Busy.{reported, is_recently_busy, is_ready_lem}

abbrev log_of : ℕ → String → String → ℕ → Log
log_of id url kind since = record {
  description = "log";
  log_id = id ∷ [];
  key = id ∷ [];
  log_type = kind;
  url = url;
  mmd = 86400;
  state =
      some (record { usable = some since; read_only = false; retired = false; rejected = false });
  temporal_interval = some (record { start_inclusive = since; end_exclusive = since + 10 });
}

abbrev operator_of : List Log → Operator
operator_of logs = record { name = "A"; logs = logs; tiled_logs = [] }

-- A test log, a log for BIMI and another.
abbrev all_logs : List Operator
all_logs =
    operator_of (log_of 1 "a" "test" 5 ∷ log_of 2 "bimi" "prod" 5 ∷ log_of 3 "c" "prod" 5 ∷ []) ∷ []

abbrev is_bimi : String → Bool
is_bimi url = url == "bimi"

determine_tls_logs_share_example :
    let active = determine_active_tls_logs is_bimi is_bimi all_logs in
    let test = determine_test_tls_logs is_bimi is_bimi all_logs in
    (((count_logs (λ l. l.mmd == 86400) active + count_logs (λ l. l.mmd == 86400) test)
        ≡ count_logs (λ l. (l.mmd == 86400) && not (is_bimi l.url)) all_logs)
      × (count_logs (λ l. (l.mmd == 86400) && (l.log_type == "test")) active ≡ 0)
      × (count_logs (λ l. (l.mmd == 86400) && not (l.log_type == "test")) test ≡ 0))
    × (((count_tiled_logs (λ l. l.mmd == 86400) active
            + count_tiled_logs (λ l. l.mmd == 86400) test)
          ≡ count_tiled_logs (λ l. (l.mmd == 86400) && not (is_bimi l.submission_url)) all_logs)
        × (count_tiled_logs (λ l. (l.mmd == 86400) && (l.log_type == "test")) active ≡ 0)
        × (count_tiled_logs (λ l. (l.mmd == 86400) && not (l.log_type == "test")) test ≡ 0))
determine_tls_logs_share_example =
    determine_tls_logs_share is_bimi is_bimi (λ l. l.mmd == 86400) (λ l. l.mmd == 86400) all_logs

intersect-IsCommon_example :
    All
      (λ (op : Operator).
        All (IsCommon all_logs (operator_of (log_of 3 "c" "prod" 7 ∷ []) ∷ [])) op.logs)
      (intersect all_logs (operator_of (log_of 3 "c" "prod" 7 ∷ []) ∷ []))
intersect-IsCommon_example =
    intersect-IsCommon all_logs (operator_of (log_of 3 "c" "prod" 7 ∷ []) ∷ [])

-- The hash of a key is the key, and a verifier is a number.
abbrev spelled : List ℕ → ℕ
spelled b = elim b [ [] ↦ 0 | n ∷ rest ↦ n ]

abbrev new_verifier : List ℕ → Option ℕ
new_verifier key = some 9

abbrev custom : List Operator
custom = operator_of (log_of 1 "a" "test" 5 ∷ log_of 4 "d" "test" 5 ∷ []) ∷ []

custom_loaded :
    load_custom_test_log_list (λ k. k) spelled new_verifier (some custom) ((1, 8) ∷ [])
    ≡ loaded custom ((1, 8) ∷ (4, 9) ∷ [])
unfolding load_custom_test_log_list bytes_equal lookup store
custom_loaded = refl

load_custom_test_log_list-AllReady_example :
    (some custom ≡ some custom)
    × AllReady (λ k. k) spelled new_verifier ((1, 8) ∷ (4, 9) ∷ []) custom
load_custom_test_log_list-AllReady_example =
    load_custom_test_log_list-AllReady (λ k. k) spelled new_verifier (some custom) ((1, 8) ∷ [])
      ((1, 8) ∷ (4, 9) ∷ []) custom custom_loaded

abbrev reports : List Report
reports =
    record { non_error = some 5; error = none; busy = none }
    ∷ record { non_error = none; error = none; busy = some 7 }
    ∷ record { non_error = none; error = some 6; busy = some 3 }
    ∷ []

is_ready_lem_example :
    is_ready 5 12 (reported reports (set_initial_data_ready new_health))
    ≡ (ltb 5 12 && not (any (is_recently_busy 5 12) reports))
is_ready_lem_example = is_ready_lem 5 12 reports
