-- ===== src/Examples/Quorum.antt =====
-- The quorum on a strategy of four logs of two operators: submitter/quorum.go.
use ctsubmit.Prelude.{
  ℕ, ◌≡◌, refl, String, true, false, ◌&&◌, List, [], ◌∷◌, arith, contains, string_eq, insert,
}
use ctsubmit.Submitter.Types.{
  LogType, rfc6962, static, neutral, zero_member, StrategyMember, member_at, Needs,
}
use ctsubmit.Submitter.Quorum.{
  QuorumState, new_quorum_state, add_success, is_quorum_met, helps_quorum, would_help,
}
use ctsubmit.Submitter.Quorum.Trim.{trim_to_quorum}
use ctsubmit.Submitter.Quorum.Invariant.{
  IsValid, new_quorum_state-IsValid, add_success-IsValid, has_type, collected,
}
use ctsubmit.Submitter.Quorum.Help.{
  Answer, indices, add_all, would_help-helps_quorum, helps_quorum_complete,
}
use ctsubmit.Submitter.Quorum.Trimmed.{Meets, trim_to_quorum-Meets, trim_to_quorum_static}
use ctsubmit.Submitter.Quorum.Single.{single_both, trim_to_quorum-single_both}

abbrev log : String → LogType → StrategyMember
log op t = record zero_member { operator = op; log_type = t; bucket = neutral }

abbrev four_logs : List StrategyMember
four_logs = log "A" rfc6962 ∷ log "A" static ∷ log "B" rfc6962 ∷ log "B" static ∷ []

abbrev policy : Needs
policy = record { operators = 2; scts = 2; require_rfc6962 = true; prefer_static = true }

abbrev none_yet : QuorumState ℕ ℕ
none_yet = new_quorum_state ℕ ℕ

-- Both operators' RFC 6962 logs and one static log have answered.
abbrev three_scts : QuorumState ℕ ℕ
three_scts =
    add_success (add_success (add_success none_yet four_logs 0 10 20) four_logs 2 11 21) four_logs 3
      12 22

three_scts-IsValid : IsValid four_logs three_scts
three_scts-IsValid = add_success-IsValid _ four_logs 3 12 22 (
    add_success-IsValid _ four_logs 2 11 21
      (add_success-IsValid _ four_logs 0 10 20 (new_quorum_state-IsValid ℕ ℕ four_logs)))

three_scts_met : is_quorum_met three_scts policy ≡ true
unfolding is_quorum_met add_success new_quorum_state insert contains
three_scts_met = refl

three_scts_static : three_scts.has_static_sct ≡ true
unfolding add_success new_quorum_state
three_scts_static = refl

trim_to_quorum-Meets_example : Meets four_logs policy (trim_to_quorum three_scts policy four_logs).0
trim_to_quorum-Meets_example =
    trim_to_quorum-Meets three_scts policy four_logs three_scts-IsValid three_scts_met (omega arith)
      (omega arith) (λ p. λ q. omega arith)

trim_to_quorum_static_example :
    has_type static
      (collected four_logs (trim_to_quorum three_scts policy four_logs).0.strategy_indices)
    ≡ true
trim_to_quorum_static_example =
    trim_to_quorum_static three_scts policy four_logs three_scts-IsValid three_scts_met
      (omega arith) (omega arith) (λ p. λ q. omega arith) refl three_scts_static

add_success-IsValid_example : IsValid four_logs (add_success three_scts four_logs 1 13 23)
add_success-IsValid_example = add_success-IsValid three_scts four_logs 1 13 23 three_scts-IsValid

abbrev static_answer : Answer ℕ ℕ
static_answer = record { index = 3; response = 12; sct = 22 }

would_help-helps_quorum_example :
    would_help none_yet policy (log "A" static) four_logs (indices (static_answer ∷ []))
    ≡ helps_quorum (add_all four_logs none_yet (static_answer ∷ [])) policy (log "A" static)
would_help-helps_quorum_example =
    would_help-helps_quorum none_yet policy (log "A" static) four_logs (static_answer ∷ [])

three_scts_done : helps_quorum three_scts policy (member_at four_logs 1) ≡ false
unfolding helps_quorum add_success new_quorum_state insert contains
three_scts_done = refl

helps_quorum_complete_example :
    (is_quorum_met (add_success three_scts four_logs 1 13 23) policy
      ≡ is_quorum_met three_scts policy)
    × ((policy.prefer_static && (add_success three_scts four_logs 1 13 23).has_static_sct)
        ≡ (policy.prefer_static && three_scts.has_static_sct))
helps_quorum_complete_example =
    helps_quorum_complete three_scts policy four_logs 1 13 23 three_scts_done

-- A static log of A and an RFC 6962 log of B have answered.
abbrev two_scts : QuorumState ℕ ℕ
two_scts = record {
  responses = 10 ∷ 11 ∷ [];
  scts = 20 ∷ 21 ∷ [];
  operators = "B" ∷ "A" ∷ [];
  has_rfc6962_sct = true;
  has_static_sct = true;
  strategy_indices = 1 ∷ 2 ∷ [];
}

trim_to_quorum-single_both_example :
    (trim_to_quorum two_scts (single_both 1) four_logs).0.responses ≡ two_scts.responses
trim_to_quorum-single_both_example =
    trim_to_quorum-single_both two_scts four_logs 1 1 2 refl refl refl refl (omega arith)
