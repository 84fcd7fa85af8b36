-- ===== src/Examples/Run.antt =====
-- Runs of the coordinator over four logs of two operators: submitter/orchestrate.go.
use ctsubmit.Prelude.{
  length, remove_one, All, ℕ, ◌+◌, ◌≡◌, refl, String, true, false, List, [], ◌∷◌, contains, insert,
  remove, keep, any,
}
use ctsubmit.Submitter.Types.{
  LogType, rfc6962, static, neutral, excluded, is_excluded, member_at, zero_member, StrategyMember,
  Needs,
}
use ctsubmit.Submitter.Quorum.{
  Reason, need_scts, need_operators, need_rfc6962, helps_quorum, add_success, would_help,
  assume_success, new_quorum_state, is_quorum_met, quorum_failure_reason,
}
use ctsubmit.Submitter.Quorum.Trim.{
  trim_to_quorum, choose, fill, ensure_static, has_selected, ensure_rfc6962, diversify,
  select_first, can_drop_safely, drop_last, droppable_for_rfc6962, droppable_for_static,
  mark_unneeded, other_rfc6962, shares_operator, unique_operators,
}
use ctsubmit.Submitter.Orchestrate.{
  accept, annotate_not_attempted, dispatch, drain_one, eligible_from, ensure_log_type,
  find_eligible, handle_cancel_drain, handle_quorum_drain, handle_running, land, launch,
  launch_batch, launch_found, mark_cancelled, next_eligible, note_outcome, ready, replace_if_idle,
  return_trimmed, return_with, settle, start_batch, start_drain, start_next_eligible, step, Event,
  success, failure, ok, quorum_not_achieved, finished, start, run_events,
}
use ctsubmit.Submitter.Orchestrate.Launched.{launched_by, submit_contacts}
use ctsubmit.Submitter.Orchestrate.Progress.{is_finished, Genuine, run_events_progress}
use ctsubmit.Submitter.CompatibleLogs.{is_empty}
use ctsubmit.Submitter.Orchestrate.Outcome.{final}

abbrev log : String → LogType → StrategyMember
log op t = record zero_member { operator = op; log_type = t; bucket = neutral }

abbrev logs : List StrategyMember
logs = log "A" rfc6962 ∷ log "A" static ∷ log "B" rfc6962 ∷ log "B" static ∷ []

abbrev policy : Needs
policy = record { operators = 2; scts = 2; require_rfc6962 = true; prefer_static = true }

abbrev clock : ℕ → ℕ
clock n = n + 1

-- Both logs of the initial batch are of A, so one of B is tried next.
abbrev answers : List (Event ℕ ℕ)
answers = success 0 10 20 "ok" 5 ∷ success 1 11 21 "ok" 6 ∷ success 2 12 22 "ok" 7 ∷ []

abbrev failures : List (Event ℕ ℕ)
failures = failure 0 "no" 5 ∷ failure 1 "no" 5 ∷ failure 2 "no" 5 ∷ failure 3 "no" 5 ∷ []

genuine : Genuine clock policy (start clock policy logs) answers
unfolding run_events start is_quorum_met helps_quorum add_success insert contains would_help remove
    remove_one trim_to_quorum keep
genuine = (refl, (refl, (refl, tt)))

run_events_progress_example :
    let s = run_events {R = ℕ} {S = ℕ} clock policy (start clock policy logs) answers in
    (s.in_flight ≡ length s.live) × (is_finished s.phase ≡ is_empty s.live)
run_events_progress_example = run_events_progress ℕ ℕ clock policy logs answers genuine

answered : (final ℕ ℕ clock policy logs answers).phase ≡ finished (ok (11 ∷ 12 ∷ []) (21 ∷ 22 ∷ []))
unfolding run_events start is_quorum_met helps_quorum add_success insert contains would_help remove
    trim_to_quorum keep choose fill ensure_static has_selected ensure_rfc6962 diversify select_first
    any accept annotate_not_attempted dispatch drain_one eligible_from ensure_log_type find_eligible
    handle_cancel_drain handle_quorum_drain handle_running land launch launch_batch launch_found
    mark_cancelled next_eligible note_outcome ready replace_if_idle return_trimmed return_with
    settle start_batch start_drain start_next_eligible step can_drop_safely drop_last
    droppable_for_rfc6962 droppable_for_static mark_unneeded other_rfc6962 shares_operator
    unique_operators assume_success new_quorum_state quorum_failure_reason
answered = refl

-- The static log of A and the RFC 6962 log of B are kept.
abbrev reasons : List Reason
reasons = need_scts 2 0 ∷ need_operators 2 0 ∷ need_rfc6962 ∷ []

failed : (final ℕ ℕ clock policy logs failures).phase ≡ finished (quorum_not_achieved reasons)
unfolding run_events start is_quorum_met helps_quorum add_success insert contains would_help remove
    trim_to_quorum keep choose fill ensure_static has_selected ensure_rfc6962 diversify select_first
    any accept annotate_not_attempted dispatch drain_one eligible_from ensure_log_type find_eligible
    handle_cancel_drain handle_quorum_drain handle_running land launch launch_batch launch_found
    mark_cancelled next_eligible note_outcome ready replace_if_idle return_trimmed return_with
    settle start_batch start_drain start_next_eligible step can_drop_safely drop_last
    droppable_for_rfc6962 droppable_for_static mark_unneeded other_rfc6962 shares_operator
    unique_operators assume_success new_quorum_state quorum_failure_reason
failed = refl

-- The first log of the list is excluded.
abbrev with_excluded : List StrategyMember
with_excluded = record zero_member { operator = "C"; bucket = excluded } ∷ logs

submit_contacts_example :
    All
      (λ i. is_excluded (member_at with_excluded i).bucket ≡ false)
      (launched_by ℕ ℕ clock policy with_excluded (failure 1 "no" 5 ∷ failure 2 "no" 5 ∷ []))
submit_contacts_example =
    submit_contacts ℕ ℕ clock policy with_excluded (failure 1 "no" 5 ∷ failure 2 "no" 5 ∷ [])
