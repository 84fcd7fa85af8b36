-- ===== src/Examples/Log.antt =====
-- Submissions to one log: submitter/submitToLog.go. A body is read as its first byte, which is the
-- SCT's timestamp in seconds; a signature holds if the timestamp is even.
use ctsubmit.Prelude.{
  ◌≤◌, ◌+◌, length, ℕ, ◌+◌, ◌*◌, ◌%◌, ◌^◌, ◌<◌, ◌≡◌, ◌↔◌, String, true, List, [], ◌∷◌, none, some,
  arith, ◌==◌, nat_eq,
}
use ctsubmit.Prelude.Int.{pos}
use ctsubmit.Monitor.Sth.{Reply, response}
use ctsubmit.Submitter.Orchestrate.{Event}
use ctsubmit.Submitter.Orchestrate.{success}
use ctsubmit.Submitter.SubmitToLog.{
  done, success_label, Codec, Failure, x509_log_entry, process_http_response, is_future,
  submit_to_log, Signal, try_next_timer, slow_timer, http_result,
}
use ctsubmit.Submitter.SubmitToLog.Signals.{tries, slows, submit_to_log_events}
use ctsubmit.Submitter.SubmitToLog.Checks.{
  Sound, IsPlain, process_http_response_success, is_future_lem,
}

abbrev codec : Codec ℕ ℕ ℕ
codec = record {
  parse_response = λ b. elim b [ [] ↦ none | x ∷ rest ↦ some x ];
  to_sct = λ r. some (r * 1000);
  timestamp = λ s. s;
  verifier = λ s. some 7;
  verify = λ v s leaf. s % 2 == 0;
}

abbrev text : Failure → String
text f = "failed"

abbrev ok_reply : Reply
ok_reply = response 200 (pos 0) (some (5 ∷ []))

process_http_response_success_example :
    (process_http_response codec text 0 9_000_000_000 none x509_log_entry [] 3 ok_reply
      ≡ done (success 0 5 5000 "Submission successful" 3) none (some success_label) (some 3))
    ↔ (Sound codec text 0 9_000_000_000 none x509_log_entry [] 3 ok_reply 5 5000
        × IsPlain codec text 0 9_000_000_000 none x509_log_entry [] 3 0 "Submission successful" 3
            none
            (some success_label)
            (some 3))
process_http_response_success_example =
    process_http_response_success codec text 0 9_000_000_000 none x509_log_entry [] 3 ok_reply 0 5
      5000 "Submission successful" 3 none (some success_label) (some 3) (omega arith)

is_future_lem_example :
    (is_future codec text 3_000_000_000 5000 ≡ true)
    ↔ ((3_000_000_000 + 1_000_000_000 < 5000 * 1_000_000) × (5000 < 2 ^ 63))
is_future_lem_example = is_future_lem codec text 3_000_000_000 5000 (omega arith)

abbrev signals : List Signal
signals = try_next_timer ∷ slow_timer ∷ try_next_timer ∷ http_result ok_reply none ∷ []

abbrev events : List (Event ℕ ℕ)
events = (submit_to_log codec text 0 9_000_000_000 none x509_log_entry [] 3 true true signals).0

submit_to_log_events_example :
    (tries events ≤ 1) × (slows events ≤ 1) × (tries events + slows events ≡ length events)
submit_to_log_events_example =
    submit_to_log_events codec text 0 9_000_000_000 none x509_log_entry [] 3 true true signals
