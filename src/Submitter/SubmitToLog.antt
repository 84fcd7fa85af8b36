-- ===== src/Submitter/SubmitToLog.antt =====
-- submitter/submitToLog.go: one submission to one log. The HTTP client, JSON, the SCT decoder and
-- the signature verifiers are parameters; what fmt prints of a failure is the parameter `text`. The
-- events of a submission go to the coordinator, the incidents and outcomes to the monitor.
pub mod Checks
pub mod Signals
use ctsubmit.Prelude.{
  ℕ, ◌+◌, ◌*◌, ◌/◌, ◌%◌, ◌^◌, String, Bool, true, false, not, ◌&&◌, List, [], ◌∷◌, ◌++◌, Option,
  none, some, ltb, leb, ◌==◌, nat_eq, string_eq, if◌then◌else◌,
}
use ctsubmit.Prelude.Int.{ℤ, pos, negsuc}
use ctsubmit.Monitor.Backoff.{to_int64, second}
use ctsubmit.Monitor.Backoff.Laws.{Incident, bad, timed_out, server_error, client_error}
use ctsubmit.Monitor.Sth.{Reply, transport_error, response, status_incident}
use ctsubmit.Submitter.Orchestrate.{Event, success, failure, try_next, slow}

pub data EntryType : Type 0 where
  x509_log_entry precert_log_entry : EntryType

-- Why a submission has failed, with the numbers that the text shows.
pub data Failure : Type 0 where
  bad_url bad_request timeout http_error unreadable_body : Failure
  http_status : ℕ → Failure
  invalid_json undecodable_sct : Failure
  future_timestamp : ℕ → Failure
  bad_signature : Failure
  cancelled_quorum_met cancelled_deadline cancelled_request cancelled_other cancelled_silent :
      Failure

-- The label of RecordSubmissionOutcome; `status_class 5` is "5xx".
pub data OutcomeLabel : Type 0 where
  timeout_label http_error_label bad_response_label success_label cancelled_label : OutcomeLabel
  status_class : ℕ → OutcomeLabel

-- context.Cause, as far as cancelledSubmissionOutcome tells causes apart.
pub data Cause : Type 0 where
  quorum_met deadline_exceeded canceled other_cause no_cause : Cause

unfoldable pub cancelled_submission_outcome : Cause → Failure
cancelled_submission_outcome quorum_met = cancelled_quorum_met
cancelled_submission_outcome deadline_exceeded = cancelled_deadline
cancelled_submission_outcome canceled = cancelled_request
cancelled_submission_outcome other_cause = cancelled_other
cancelled_submission_outcome no_cause = cancelled_silent

-- The leaf that the signature covers.
pub data Leaf : Type 0 where
  precert_leaf : ℕ → List ℕ → List ℕ → Leaf
  x509_leaf : ℕ → List ℕ → Leaf

pub data Verdict : Type 0 where
  verified unknown_log wrong_signature : Verdict
  -- The dereference of a nil issuer hash, which ends the process.
  nil_dereference : Verdict

-- How a submission ends: its last event and what it records with the monitor, an incident, an
-- outcome and a response time; `crash` ends the process.
pub data Processed (R S : Type 0) : Type 0 where
  done : Event R S → Option Incident → Option OutcomeLabel → Option ℕ → Processed R S
  crash : Processed R S

-- What the goroutine's select receives: its two timers, the reply, with the cause if the context
-- has been cancelled by then, and the cancellation.
pub data Signal : Type 0 where
  try_next_timer slow_timer : Signal
  http_result : Reply → Option Cause → Signal
  context_done : Cause → Signal

-- The packages that decode and verify. `verifier` is the lookup of LogSignatureVerifierMap.
pub record Codec (R S V : Type 0) : Type 0 where
  pub parse_response : List ℕ → Option R
  pub to_sct : R → Option S
  pub timestamp : S → ℕ
  pub verifier : S → Option V
  pub verify : V → S → Leaf → Bool

module _ {R S V : Type 0} (codec : Codec R S V) (text : Failure → String) where
  abbrev check_leaf : V → S → Leaf → Verdict
  check_leaf v sct leaf = if codec.verify v sct leaf then verified else wrong_signature

  unfoldable pub verify_sct_signature : S → Option (List ℕ) → EntryType → List ℕ → Verdict
  verify_sct_signature sct issuer_hash entry_type entry_data = elim (codec.verifier sct) [
    | none ↦ unknown_log
    | some v ↦ elim entry_type [
      | precert_log_entry ↦ elim issuer_hash [
        | none ↦ nil_dereference
        | some hash ↦ check_leaf v sct (precert_leaf (codec.timestamp sct) hash entry_data)
      ]
      | x509_log_entry ↦ check_leaf v sct (x509_leaf (codec.timestamp sct) entry_data)
    ]
  ]

  -- `time.UnixMilli(int64(sct.Timestamp)).After(time.Now().Add(time.Second))`, in nanoseconds since
  -- the Unix epoch.
  unfoldable pub is_future : ℕ → S → Bool
  unfolding to_int64
  is_future now sct = elim (to_int64 (codec.timestamp sct)) [
    | pos ms ↦ ltb (now + second) (ms * 1_000_000)
    | negsuc _ ↦ false
  ]

  module _ (idx now : ℕ) (issuer_hash : Option (List ℕ)) (entry_type : EntryType)
      (entry_data : List ℕ) (time_taken : ℕ) where
    abbrev fail : Failure → Incident → OutcomeLabel → Processed R S
    fail f x label = done (failure idx (text f) time_taken) (some x) (some label) (some time_taken)

    unfoldable pub process_sct : R → S → Processed R S
    unfolding is_future verify_sct_signature
    process_sct add_chain_response sct =
        if is_future now sct
        then fail (future_timestamp (codec.timestamp sct)) bad bad_response_label
        else elim (verify_sct_signature sct issuer_hash entry_type entry_data) [
          | verified ↦
              done (success idx add_chain_response sct "Submission successful" time_taken) none
                (some success_label) (some time_taken)
          | nil_dereference ↦ crash
          | _ ↦ fail bad_signature bad bad_response_label
        ]

    unfoldable pub process_body : List ℕ → Processed R S
    unfolding process_sct
    process_body content = elim (codec.parse_response content) [
      | none ↦ fail invalid_json bad bad_response_label
      | some r ↦ elim (codec.to_sct r) [
        | none ↦ fail undecodable_sct bad bad_response_label
        | some sct ↦ process_sct r sct
      ]
    ]

    unfoldable pub process_http_response : Reply → Processed R S
    unfolding process_body status_incident
    process_http_response (transport_error true) = fail timeout timed_out timeout_label
    process_http_response (transport_error false) = fail http_error bad http_error_label
    process_http_response (response status retry_after content) = elim content [
      | none ↦ fail unreadable_body bad bad_response_label
      | some b ↦
          if not (status == 200)
          then fail (http_status status) (status_incident status retry_after)
              (status_class (status / 100))
          else process_body b
    ]

    abbrev cancelled_event : Cause → Processed R S
    cancelled_event c =
        done (failure idx (text (cancelled_submission_outcome c)) time_taken) none
          (some cancelled_label) none

    -- The last thing that the loop does, or `none` while it goes on.
    unfoldable pub last_signal : Signal → Option (Processed R S)
    unfolding process_http_response cancelled_submission_outcome
    last_signal try_next_timer = none
    last_signal slow_timer = none
    last_signal (http_result reply none) = some (process_http_response reply)
    last_signal (http_result reply (some cause)) = some (cancelled_event cause)
    last_signal (context_done cause) = some (cancelled_event cause)

    -- The select loop: the events sent before the last, and how it ends; `none` while it waits.
    unfoldable pub submit_loop :
        Bool → Bool → List Signal → List (Event R S) × Option (Processed R S)
    unfolding last_signal
    submit_loop tried slowed [] = ([], none)
    submit_loop tried slowed (try_next_timer ∷ rest) =
        let (events, end) = submit_loop true slowed rest in
        (if tried then events else try_next idx ∷ events, end)
    submit_loop tried slowed (slow_timer ∷ rest) =
        let (events, end) = submit_loop tried true rest in
        (if slowed then events else slow idx ∷ events, end)
    submit_loop tried slowed (http_result reply cause ∷ rest) =
        ([], last_signal (http_result reply cause))
    submit_loop tried slowed (context_done cause ∷ rest) = ([], last_signal (context_done cause))

    -- submitToLog, with what url.JoinPath and http.NewRequest say of the log's URL.
    unfoldable pub submit_to_log :
        Bool → Bool → List Signal → List (Event R S) × Option (Processed R S)
    unfolding submit_loop
    submit_to_log url_ok request_ok signals =
        if not url_ok
        then ([], some (done (failure idx (text bad_url) 0) none none none))
        else if not request_ok
        then ([], some (done (failure idx (text bad_request) 0) none none none))
        else submit_loop false false signals
