-- ===== src/Examples/Strategy.antt =====
-- A request and a strategy on small lists of logs: submitter/request.go, compatibleLogs.go and strategy.go.
use ctsubmit.Prelude.{
  ℕ, ◌+◌, ◌*◌, ◌≤◌, ◌≡◌, refl, String, true, false, not, ◌&&◌, List, [], ◌∷◌, Option, none, some,
  ltb, length, ◌==◌, nat_eq, string_eq, any,
}
use ctsubmit.Prelude.Int.{pos, negsuc}
use ctsubmit.Monitor.Backoff.{BackoffMaps}
use ctsubmit.Monitor.Uptime.{Floats}
use ctsubmit.Monitor.State.{Monitor}
use ctsubmit.Submitter.Types.{
  SubmissionRequest, needs, StrategyMember, zero_member, neutral, is_neutral,
}
use ctsubmit.Submitter.LogList.{LogState, Log, Operator}
use ctsubmit.Submitter.Request.{Certificate, is_mark_certificate}
use ctsubmit.Submitter.CompatibleLogs.{Compatible, compatible, determine_compatible_logs}
use ctsubmit.Submitter.CompatibleLogs.Accepted.{kept, total, determine_compatible_logs_lem}
use ctsubmit.Submitter.SubmitToLog.{precert_log_entry}
use ctsubmit.Submitter.Strategy.{Detail, StrategyConfig}
use ctsubmit.Submitter.Strategy.Order.{Sorted, devize, devize_submission_strategy-Sorted}
use ctsubmit.Submitter.Strategy.Buckets.{
  assessed_bucket, url_excluded, url_preferred, has_sth_data, mmd_blown, low_uptime, any_backoff,
  is_preferred, assess_preferred,
}

abbrev day : ℕ
day = 24 * 3600 * 1_000_000_000

abbrev cert : Certificate
cert = record { unknown_ext_key_usage = 5 ∷ []; not_before = 100 * day; not_after = 300 * day }

abbrev request : SubmissionRequest
request = record {
  chain = [];
  discover_chain = false;
  policy_compliant = true;
  mimics = false;
  test_logs = false;
  operators = negsuc 3;
  scts = pos 1;
  require_rfc6962 = false;
  prefer_static = false;
  verbose = false;
}

no_mark : is_mark_certificate 7 cert ≡ false
unfolding is_mark_certificate any
no_mark = refl

-- A usable log and one that is not yet usable.
abbrev since : ℕ → Option LogState
since t = some (record { usable = some t; read_only = false; retired = false; rejected = false })

abbrev log_of : ℕ → Option LogState → Log
log_of id state = record {
  description = "log";
  log_id = id ∷ [];
  key = [];
  log_type = "prod";
  url = "https://log.example";
  mmd = 86400;
  state = state;
  temporal_interval = none;
}

abbrev log_list : List Operator
log_list =
    record {
      name = "A";
      logs = log_of 1 (since day) ∷ log_of 2 (since (900 * day)) ∷ [];
      tiled_logs = [];
    }
    ∷ []

abbrev one_log : SubmissionRequest
one_log = record request { operators = pos 1 }

abbrev first_byte : List ℕ → Option ℕ
first_byte b = elim b [ [] ↦ none | x ∷ rest ↦ some x ]

abbrev usable_only : List Operator
usable_only = record { name = "A"; logs = log_of 1 (since day) ∷ []; tiled_logs = [] } ∷ []

abbrev determine : List Operator → Compatible
determine =
    determine_compatible_logs (λ c. λ ops. ops) first_byte (λ id. λ interval. true) (200 * day) cert
      one_log

usable_found : determine log_list ≡ compatible usable_only
unfolding determine_compatible_logs
usable_found = refl

determine_compatible_logs_lem_example :
    (usable_only
      ≡ kept
          (λ c. λ ops. ops)
          first_byte
          (λ id. λ interval. true)
          (200 * day)
          cert
          one_log
          log_list)
    × ((needs one_log).operators ≤ length usable_only)
    × ((needs one_log).scts ≤ total usable_only)
determine_compatible_logs_lem_example =
    determine_compatible_logs_lem (λ c. λ ops. ops) first_byte (λ id. λ interval. true) (200 * day)
      cert one_log log_list usable_only usable_found

abbrev floats : Floats ℕ
floats = record { zero = 0; hundred = 100; below = ltb; parse = λ s. none }

abbrev text : Detail ℕ → String
text d = "detail"

abbrev cfg : StrategyConfig ℕ
cfg = record {
  excluded_operators = "B" ∷ [];
  excluded_urls = [];
  preferred_urls = (λ u. u == "https://log.example") ∷ [];
  submit_endpoint_24h = 99;
  lowest_endpoint_90d = 98;
}

abbrev quiet : BackoffMaps
quiet = record { bad_response = []; timeout = []; http_5xx = []; http_4xx = []; slow_response = [] }

abbrev mon : Monitor ℕ
mon = record {
  sth_data =
      (
        "https://log.example",
        record {
          is_rfc6962_log = true;
          submission_url = "https://log.example";
          key_name = "";
          tree_size = 5;
          timestamp = some (200 * day);
          last_fetched = none;
        },
      )
      ∷ [];
  uptime_24h = [];
  uptime_90d = [];
  backoffs = quiet;
  outcome_samples = [];
  response_time_samples = [];
}

abbrev clock : ℕ → ℕ → ℕ
clock i n = 200 * day + n

devize_submission_strategy-Sorted_example :
    Sorted (devize floats text (λ u. u) cfg mon precert_log_entry clock (λ i. 7) log_list)
devize_submission_strategy-Sorted_example =
    devize_submission_strategy-Sorted floats text (λ u. u) cfg mon precert_log_entry clock (λ i. 7)
      log_list

abbrev member : StrategyMember
member = record zero_member {
  submission_url = "https://log.example";
  monitoring_url = "https://log.example";
  mmd = 86400;
  bucket = neutral;
}

assess_preferred_example :
    is_preferred floats text
      (λ u. u)
      cfg
      mon
      precert_log_entry
      (clock 0)
      7
      member
      (assessed_bucket floats text (λ u. u) cfg mon precert_log_entry (clock 0) 7 member)
    ≡ (is_neutral member.bucket
        && (not (url_excluded floats text (λ u. u) cfg mon precert_log_entry (clock 0) 7 member)
            && (has_sth_data floats text (λ u. u) cfg mon precert_log_entry (clock 0) 7 member
                && (not
                      (mmd_blown floats text (λ u. u) cfg mon precert_log_entry (clock 0) 7 member)
                    && (not (
                          low_uptime floats text
                            (λ u. u)
                            cfg
                            mon
                            precert_log_entry
                            (clock 0)
                            7
                            member)
                        && (not (
                              any_backoff floats text
                                (λ u. u)
                                cfg
                                mon
                                precert_log_entry
                                (clock 0)
                                7
                                member)
                            && url_preferred floats text
                                (λ u. u)
                                cfg
                                mon
                                precert_log_entry
                                (clock 0)
                                7
                                member))))))
assess_preferred_example =
    assess_preferred floats text (λ u. u) cfg mon precert_log_entry (clock 0) 7 member refl
