-- ===== src/Submitter/SubmitToLog/Checks.antt =====
-- processHTTPResponse: what a success and a failure stand for.
use ctsubmit.Prelude.{
  ℕ, ◌+◌, ◌*◌, ◌^◌, ◌<◌, ◌≤◌, ◌⊎◌, ◌≡◌, ◌↔◌, String, true, false, List, Option, none, some, arith,
  nat_eq,
}
use ctsubmit.Prelude.Int.{ℤ}
use ctsubmit.Monitor.Sth.{Reply, transport_error, response}
use ctsubmit.Submitter.Orchestrate.{success}
use ctsubmit.Monitor.Backoff.Laws.{Incident}
use ctsubmit.Submitter.SubmitToLog.{
  OutcomeLabel, EntryType, Failure, success_label, verified, Codec, verify_sct_signature, is_future,
  Processed, done, process_sct, process_body, process_http_response,
}

module _ {R S V : Type 0} (codec : Codec R S V) (text : Failure → String) (idx now : ℕ)
    (issuer_hash : Option (List ℕ)) (entry_type : EntryType) (entry_data : List ℕ)
    (time_taken : ℕ) where
  abbrev pub process : Reply → Processed R S
  process = process_http_response codec text idx now issuer_hash entry_type entry_data time_taken

  abbrev pub Sound : Reply → R → S → Type 0
  Sound reply r sct =
      (retry : ℤ) × (b : List ℕ) × (reply ≡ response 200 retry (some b))
      × (codec.parse_response b ≡ some r)
      × (codec.to_sct r ≡ some sct)
      × ((codec.timestamp sct * 1_000_000 ≤ now + 1_000_000_000) ⊎ (2 ^ 63 ≤ codec.timestamp sct))
      × (verify_sct_signature codec text sct issuer_hash entry_type entry_data ≡ verified)

  -- The outcome of a success: the event, the incident, the label and the time recorded.
  abbrev pub IsPlain : ℕ → String → ℕ → Option Incident → Option OutcomeLabel → Option ℕ → Type 0
  IsPlain i outcome d x label recorded =
      (i ≡ idx)
      × (outcome ≡ "Submission successful")
      × (d ≡ time_taken)
      × (x ≡ none)
      × (label ≡ some success_label)
      × (recorded ≡ some time_taken)

  timely :
      (sct : S)
      → codec.timestamp sct < 2 ^ 64
      → is_future codec text now sct ≡ false
      → (codec.timestamp sct * 1_000_000 ≤ now + 1_000_000_000) ⊎ (2 ^ 63 ≤ codec.timestamp sct)
  unfolding is_future
  timely sct small h = ground arith

  timely_complete :
      (sct : S)
      → codec.timestamp sct < 2 ^ 64
      → (codec.timestamp sct * 1_000_000 ≤ now + 1_000_000_000) ⊎ (2 ^ 63 ≤ codec.timestamp sct)
      → is_future codec text now sct ≡ false
  unfolding is_future
  timely_complete sct small h = ground arith

  success-Sound :
      (reply : Reply) (i : ℕ) (r : R) (sct : S) (outcome : String) (d : ℕ) (x : Option Incident)
      (label : Option OutcomeLabel) (recorded : Option ℕ)
      → codec.timestamp sct < 2 ^ 64
      → process reply ≡ done (success i r sct outcome d) x label recorded
      → Sound reply r sct × IsPlain i outcome d x label recorded
  unfolding process_http_response process_sct process_body
  success-Sound (transport_error true) i r sct outcome d x label recorded small h = cc
  success-Sound (transport_error false) i r sct outcome d x label recorded small h = cc
  success-Sound (response status retry none) i r sct outcome d x label recorded small h =
      absurd (ground arith)
  success-Sound (response status retry (some b)) i r sct outcome d x label recorded small h = (
    (
      retry,
      b,
      ground arith,
      ground arith,
      ground arith,
      timely sct small (ground arith),
      ground arith,
    ),
    (ground arith, ground arith, ground arith, ground arith, ground arith, ground arith),
  )

  success_complete :
      (reply : Reply) (i : ℕ) (r : R) (sct : S) (outcome : String) (d : ℕ) (x : Option Incident)
      (label : Option OutcomeLabel) (recorded : Option ℕ)
      → codec.timestamp sct < 2 ^ 64
      → Sound reply r sct × IsPlain i outcome d x label recorded
      → process reply ≡ done (success i r sct outcome d) x label recorded
  unfolding process_http_response process_sct process_body
  success_complete reply i r sct outcome d x label recorded small ((retry, b, e, p, t, f, v), q) =
      ground (arith, timely_complete sct small f)

  -- A log's reply makes a success event exactly if it has status 200 and a body that decodes to a
  -- response and an SCT whose timestamp is at most a second ahead of the clock, or so large that its
  -- conversion to int64 is negative, and whose signature verifies; and then the event bears the
  -- submission's index and time, no incident is recorded, and the success and its time are. The
  -- timestamp is below 2 ^ 64.
  pub process_http_response_success :
      (reply : Reply) (i : ℕ) (r : R) (sct : S) (outcome : String) (d : ℕ) (x : Option Incident)
      (label : Option OutcomeLabel) (recorded : Option ℕ)
      → codec.timestamp sct < 2 ^ 64
      → (process reply ≡ done (success i r sct outcome d) x label recorded)
        ↔ (Sound reply r sct × IsPlain i outcome d x label recorded)
  process_http_response_success reply i r sct outcome d x label recorded small = (
    success-Sound reply i r sct outcome d x label recorded small,
    success_complete reply i r sct outcome d x label recorded small,
  )

module _ {R S V : Type 0} (codec : Codec R S V) (text : Failure → String) where
  -- An SCT is in the future exactly if its timestamp, in milliseconds, lies more than a second
  -- ahead of the clock; from 2 ^ 63 on the conversion to int64 makes it negative and it passes.
  pub is_future_lem :
      (now : ℕ) (sct : S)
      → codec.timestamp sct < 2 ^ 64
      → (is_future codec text now sct ≡ true)
        ↔ ((now + 1_000_000_000 < codec.timestamp sct * 1_000_000) × (codec.timestamp sct < 2 ^ 63))
  unfolding is_future
  is_future_lem now sct h = (λ f. (ground arith, ground arith), λ p. ground arith)
