-- ===== src/Submitter/Orchestrate.antt =====
-- submitter/orchestrate.go, submit, from the filtering of the strategy on. The coordinator is a
-- state machine over the events that the submission goroutines send. `live` holds the goroutines
-- that have been started and have not sent their last event, `launched` all that were started and
-- `slow_reports` the calls of RecordSlowResponse. `clock n` is what `time.Since(start)` reads at
-- launch `n`. Marshalling the request body and the API path stand before this part.
pub mod Progress
pub mod Outcome
pub mod Launched
pub mod Kinds
pub mod Answered
pub mod Quorate
pub mod Met
use ctsubmit.Prelude.{
  ℕ, ◌+◌, ◌-◌, String, Bool, not, ◌&&◌, ◌||◌, List, [], ◌∷◌, Option, none, some, length, set, any,
  ltb, leb, ◌==◌, nat_eq, string_eq, insert, remove, remove_one, if◌then◌else◌,
}
use ctsubmit.Submitter.Types.{
  LogType, rfc6962, static, is_type, is_excluded, StrategyMember, member_at, Needs,
}
use ctsubmit.Submitter.Quorum.{
  QuorumState, Reason, new_quorum_state, add_success, is_quorum_met, quorum_failure_reason,
  helps_quorum, would_help,
}
use ctsubmit.Submitter.Quorum.Trim.{trim_to_quorum}

pub data Event (R S : Type 0) : Type 0 where
  success : ℕ → R → S → String → ℕ → Event R S
  failure : ℕ → String → ℕ → Event R S
  try_next slow : ℕ → Event R S
  -- `ctx.Done()`
  cancelled : Event R S

pub data Result (R S : Type 0) : Type 0 where
  ok : List R → List S → Result R S
  no_eligible context_error : Result R S
  quorum_not_achieved : List Reason → Result R S

pub data Phase (R S : Type 0) : Type 0 where
  running quorum_drain cancel_drain : Phase R S
  finished : Result R S → Phase R S

pub record Run (R S : Type 0) : Type 0 where
  pub phase : Phase R S
  pub strategy : List StrategyMember
  pub eligible : List ℕ
  pub in_flight : ℕ
  pub in_flight_indices : List ℕ
  pub slow_in_flight_indices : List ℕ
  pub launch_seq : ℕ
  pub qs : QuorumState R S
  pub live : List ℕ
  pub launched : List ℕ
  pub slow_reports : List String

-- The indices of the members that are not excluded, from `i` on.
unfoldable pub eligible_from : ℕ → List StrategyMember → List ℕ
eligible_from i [] = []
eligible_from i (m ∷ ms) =
    if is_excluded m.bucket then eligible_from (i + 1) ms else i ∷ eligible_from (i + 1) ms

abbrev pub set_outcome : ℕ → String → List StrategyMember → List StrategyMember
set_outcome i o strategy = set strategy i (record (member_at strategy i) { outcome = o })

abbrev pub set_time_taken : ℕ → ℕ → List StrategyMember → List StrategyMember
set_time_taken i d strategy = set strategy i (record (member_at strategy i) { time_taken = d })

abbrev pub set_began_after : ℕ → ℕ → List StrategyMember → List StrategyMember
set_began_after i d strategy = set strategy i (record (member_at strategy i) { began_after = d })

-- The first eligible log that has not been attempted and passes the test.
unfoldable pub find_eligible : (StrategyMember → Bool) → List StrategyMember → List ℕ → Option ℕ
find_eligible p strategy [] = none
find_eligible p strategy (i ∷ rest) =
    let sm = member_at strategy i in
    if not (sm.began_after == 0)
    then find_eligible p strategy rest
    else if p sm
    then some i
    else find_eligible p strategy rest

unfoldable pub annotate_not_attempted : List ℕ → List StrategyMember → List StrategyMember
annotate_not_attempted [] strategy = strategy
annotate_not_attempted (i ∷ rest) strategy = annotate_not_attempted rest (
    if (member_at strategy i).outcome == ""
    then set_outcome i "Submission not attempted" strategy
    else strategy)

unfoldable pub mark_cancelled : List ℕ → List StrategyMember → List StrategyMember
mark_cancelled [] strategy = strategy
mark_cancelled (i ∷ rest) strategy =
    mark_cancelled rest (set_outcome i "Submission cancelled (quorum met)" strategy)

module _ {R S : Type 0} (clock : ℕ → ℕ) (sr : Needs) where
  unfoldable pub launch : ℕ → Run R S → Run R S
  launch i s = record s {
    in_flight = s.in_flight + 1;
    in_flight_indices = insert i s.in_flight_indices;
    launch_seq = s.launch_seq + 1;
    strategy = set_began_after i (clock s.launch_seq) s.strategy;
    live = i ∷ s.live;
    launched = i ∷ s.launched;
  }

  unfoldable pub launch_found : Option ℕ → Run R S → Run R S
  unfolding launch
  launch_found none s = s
  launch_found (some i) s = launch i s

  unfoldable pub ensure_log_type : ℕ → LogType → Run R S → Run R S
  unfolding launch_found
  ensure_log_type initial_batch t s =
      if leb initial_batch s.launch_seq
      then s
      else launch_found (find_eligible (λ sm. is_type sm.log_type t) s.strategy s.eligible) s

  unfoldable pub launch_batch : ℕ → List ℕ → Run R S → Run R S
  unfolding launch
  launch_batch initial_batch [] s = s
  launch_batch initial_batch (i ∷ rest) s =
      let skip = launch_batch initial_batch rest s in
      let start = launch_batch initial_batch rest (launch i s) in
      if not (ltb s.launch_seq initial_batch)
      then s
      else if not ((member_at s.strategy i).began_after == 0)
      then skip
      else start

  -- startNextEligible: is a log type wanted that no submission in flight covers?
  abbrev pub type_uncovered : LogType → Bool → Run R S → Bool
  type_uncovered t wanted s =
      wanted && not (any (λ i. is_type (member_at s.strategy i).log_type t) s.in_flight_indices)

  unfoldable pub next_eligible : Run R S → Option ℕ
  unfolding find_eligible
  next_eligible s =
      let need_rfc6962 =
        type_uncovered rfc6962 (sr.require_rfc6962 && not s.qs.has_rfc6962_sct) s in
      let need_static = type_uncovered static (sr.prefer_static && not s.qs.has_static_sct) s in
      let helps = λ (sm : StrategyMember). would_help s.qs sr sm s.strategy s.in_flight_indices in
      let preferred = λ (sm : StrategyMember).
        (need_rfc6962 && is_type sm.log_type rfc6962 || need_static && is_type sm.log_type static)
        && helps sm in
      let by_type =
        if need_rfc6962 || need_static
        then find_eligible preferred s.strategy s.eligible
        else none in
      elim by_type [ some i ↦ some i | none ↦ find_eligible helps s.strategy s.eligible ]

  unfoldable pub start_next_eligible : Run R S → Run R S
  unfolding next_eligible launch_found
  start_next_eligible s = launch_found (next_eligible s) s

  -- A return: the deferred annotation of the logs that were never contacted.
  unfoldable pub return_with : Result R S → Run R S → Run R S
  unfolding annotate_not_attempted
  return_with r s = record s {
    phase = finished r;
    strategy = annotate_not_attempted s.eligible s.strategy;
  }

  unfoldable pub return_trimmed : Run R S → Run R S
  unfolding return_with
  return_trimmed s =
      let (qs', strategy') = trim_to_quorum s.qs sr s.strategy in
      return_with (ok qs'.responses qs'.scts) (record s { qs = qs'; strategy = strategy' })

  -- `for inFlight > 0` of each phase, and what stands behind the loop.
  unfoldable pub settle : Phase R S → Run R S → Run R S
  unfolding return_trimmed
  settle running s =
      if ltb 0 s.in_flight
      then s
      else if is_quorum_met s.qs sr
      then return_trimmed s
      else return_with (quorum_not_achieved (quorum_failure_reason s.qs sr)) s
  settle quorum_drain s = if ltb 0 s.in_flight then s else return_trimmed s
  settle cancel_drain s = if ltb 0 s.in_flight then s else return_with context_error s
  settle (finished r) s = s

  -- The bookkeeping of a goroutine's last event while the loop runs.
  unfoldable pub land : ℕ → Run R S → Run R S
  land i s = record s {
    in_flight = s.in_flight - 1;
    in_flight_indices = remove i s.in_flight_indices;
    slow_in_flight_indices = remove i s.slow_in_flight_indices;
    live = remove_one i s.live;
  }

  unfoldable pub accept : ℕ → R → S → String → ℕ → Run R S → Run R S
  accept i response sct outcome time_taken s =
      let timed = set_time_taken i time_taken s.strategy in
      if helps_quorum s.qs sr (member_at timed i)
      then (let noted = set_outcome i outcome timed in
          record s { strategy = noted; qs = add_success s.qs noted i response sct })
      else record s {
        strategy = set_outcome i "Submission successful, but doesn't help quorum" timed;
      }

  unfoldable pub start_drain : Run R S → Run R S
  unfolding mark_cancelled
  start_drain s = record s {
    phase = quorum_drain;
    strategy =
        mark_cancelled s.slow_in_flight_indices (mark_cancelled s.in_flight_indices s.strategy);
  }

  unfoldable pub replace_if_idle : Run R S → Run R S
  unfolding start_next_eligible
  replace_if_idle s = if s.in_flight == 0 then start_next_eligible s else s

  unfoldable pub handle_running : Event R S → Run R S → Run R S
  unfolding land accept start_drain replace_if_idle
  handle_running (success i response sct outcome time_taken) s =
      let s' = accept i response sct outcome time_taken (land i s) in
      if is_quorum_met s'.qs sr then start_drain s' else replace_if_idle s'
  handle_running (failure i outcome time_taken) s =
      let s' = land i s in
      replace_if_idle
        (record s' { strategy = set_time_taken i time_taken (set_outcome i outcome s'.strategy) })
  handle_running (try_next i) s = start_next_eligible (record s {
    in_flight_indices = remove i s.in_flight_indices;
    slow_in_flight_indices = insert i s.slow_in_flight_indices;
  })
  handle_running (slow i) s = record s {
    slow_reports = (member_at s.strategy i).submission_url ∷ s.slow_reports;
  }
  handle_running cancelled s = record s { phase = cancel_drain }

  -- While draining, only the last event of each goroutine counts.
  unfoldable pub drain_one : ℕ → ℕ → Run R S → Run R S
  drain_one i time_taken s = record s {
    in_flight = s.in_flight - 1;
    live = remove_one i s.live;
    strategy = set_time_taken i time_taken s.strategy;
  }

  unfoldable pub note_outcome : ℕ → String → Run R S → Run R S
  note_outcome i outcome s =
      if (member_at s.strategy i).outcome == ""
      then record s { strategy = set_outcome i outcome s.strategy }
      else s

  unfoldable pub handle_quorum_drain : Event R S → Run R S → Run R S
  unfolding drain_one
  handle_quorum_drain (success i response sct outcome time_taken) s = drain_one i time_taken s
  handle_quorum_drain (failure i outcome time_taken) s = drain_one i time_taken s
  handle_quorum_drain _ s = s

  unfoldable pub handle_cancel_drain : Event R S → Run R S → Run R S
  unfolding drain_one note_outcome
  handle_cancel_drain (success i response sct outcome time_taken) s =
      note_outcome i outcome (drain_one i time_taken s)
  handle_cancel_drain (failure i outcome time_taken) s =
      note_outcome i outcome (drain_one i time_taken s)
  handle_cancel_drain _ s = s

  unfoldable pub dispatch : Phase R S → Event R S → Run R S → Run R S
  unfolding handle_running handle_quorum_drain handle_cancel_drain
  dispatch running e s = handle_running e s
  dispatch quorum_drain e s = handle_quorum_drain e s
  dispatch cancel_drain e s = handle_cancel_drain e s
  dispatch (finished r) e s = s

  unfoldable pub step : Run R S → Event R S → Run R S
  unfolding dispatch settle
  step s e = let s' = dispatch s.phase e s in settle s'.phase s'

  -- The state before the initial batch.
  unfoldable pub ready : List StrategyMember → Run R S
  unfolding eligible_from new_quorum_state
  ready strategy = record {
    phase = running;
    strategy = strategy;
    eligible = eligible_from 0 strategy;
    in_flight = 0;
    in_flight_indices = [];
    slow_in_flight_indices = [];
    launch_seq = 0;
    qs = new_quorum_state R S;
    live = [];
    launched = [];
    slow_reports = [];
  }

  unfoldable pub start_batch : Run R S → Run R S
  unfolding ensure_log_type launch_batch
  start_batch s =
      let initial_batch = if ltb (length s.eligible) sr.scts then length s.eligible else sr.scts in
      let s₁ = if sr.require_rfc6962 then ensure_log_type initial_batch rfc6962 s else s in
      let s₂ = if sr.prefer_static then ensure_log_type initial_batch static s₁ else s₁ in
      launch_batch initial_batch s.eligible s₂

  unfoldable pub start : List StrategyMember → Run R S
  unfolding ready start_batch settle
  start strategy =
      let s = ready strategy in
      elim s.eligible [
        | [] ↦ record s { phase = finished no_eligible }
        | _ ∷ _ ↦ settle running (start_batch s)
      ]

  unfoldable pub run_events : Run R S → List (Event R S) → Run R S
  unfolding step
  run_events s [] = s
  run_events s (e ∷ es) = run_events (step s e) es
