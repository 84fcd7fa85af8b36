-- ===== src/Submitter/SubmitToLog/Signals.antt =====
-- submitToLog, the select loop: which events go before the last.
use ctsubmit.Prelude.{
  ℕ, suc, ◌+◌, ◌≤◌, ◌≡◌, String, Bool, true, false, List, [], ◌∷◌, Option, arith, length,
}
use ctsubmit.Submitter.Orchestrate.{Event, try_next, slow}
use ctsubmit.Submitter.SubmitToLog.{
  EntryType, Failure, Codec, Processed, Signal, try_next_timer, slow_timer, http_result,
  context_done, submit_loop, submit_to_log,
}

-- How many of the events are try-next, slow, and of other kinds.
abbrev pub tries : {R S : Type 0} → List (Event R S) → ℕ
tries [] = 0
tries (try_next i ∷ es) = suc (tries es)
tries (e ∷ es) = tries es

abbrev pub slows : {R S : Type 0} → List (Event R S) → ℕ
slows [] = 0
slows (slow i ∷ es) = suc (slows es)
slows (e ∷ es) = slows es

module _ {R S V : Type 0} (codec : Codec R S V) (text : Failure → String) (idx now : ℕ)
    (issuer_hash : Option (List ℕ)) (entry_type : EntryType) (entry_data : List ℕ)
    (time_taken : ℕ) where
  abbrev loop : Bool → Bool → List Signal → List (Event R S) × Option (Processed R S)
  loop = submit_loop codec text idx now issuer_hash entry_type entry_data time_taken

  abbrev room : Bool → ℕ
  room true = 0
  room false = 1

  loop-events :
      (tried slowed : Bool) (signals : List Signal)
      → let events = (loop tried slowed signals).0 in
        (tries events ≤ room tried)
        × (slows events ≤ room slowed)
        × (tries events + slows events ≡ length events)
  unfolding submit_loop
  loop-events tried slowed [] = ground arith
  loop-events tried slowed (try_next_timer ∷ rest) = ground (arith, loop-events true slowed rest)
  loop-events tried slowed (slow_timer ∷ rest) = ground (arith, loop-events tried true rest)
  loop-events tried slowed (http_result reply cause ∷ rest) = ground arith
  loop-events tried slowed (context_done cause ∷ rest) = ground arith

  abbrev submit : Bool → Bool → List Signal → List (Event R S) × Option (Processed R S)
  submit = submit_to_log codec text idx now issuer_hash entry_type entry_data time_taken

  -- Before its last event a submission sends at most one try-next and one slow event and no
  -- other, whatever the timers do.
  pub submit_to_log_events :
      (url_ok request_ok : Bool) (signals : List Signal)
      → let events = (submit url_ok request_ok signals).0 in
        (tries events ≤ 1) × (slows events ≤ 1) × (tries events + slows events ≡ length events)
  unfolding submit_to_log
  submit_to_log_events url_ok request_ok signals = ground (arith, loop-events false false signals)
