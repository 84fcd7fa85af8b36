-- ===== src/Submitter/Quorum.antt =====
-- submitter/quorum.go: progress toward a quorum of SCTs. The types of a log's response and of an
-- SCT come from another package and are parameters. A `map[string]bool` is its list of keys.
pub mod Trim
pub mod Select
pub mod Drop
pub mod Stages
pub mod Swap
pub mod Exact
pub mod Invariant
pub mod Trimmed
pub mod Help
pub mod Single
use ctsubmit.Prelude.{
  ℕ, suc, ◌+◌, String, Bool, true, false, not, ◌&&◌, ◌||◌, List, [], ◌∷◌, ◌++◌, length, ltb, leb,
  ◌==◌, contains, insert, string_eq, if◌then◌else◌, map,
}
use ctsubmit.Submitter.Types.{LogType, rfc6962, static, is_type, StrategyMember, member_at, Needs}

pub record QuorumState (R S : Type 0) : Type 0 where
  pub responses : List R
  pub scts : List S
  pub operators : List String
  pub has_rfc6962_sct : Bool
  pub has_static_sct : Bool
  pub strategy_indices : List ℕ

-- The texts of quorumFailureReason, with the numbers that they print.
pub data Reason : Type 0 where
  need_scts need_operators : ℕ → ℕ → Reason
  need_rfc6962 : Reason

module _ (R S : Type 0) where
  unfoldable pub new_quorum_state : QuorumState R S
  new_quorum_state = record {
    responses = [];
    scts = [];
    operators = [];
    has_rfc6962_sct = false;
    has_static_sct = false;
    strategy_indices = [];
  }

module _ {R S : Type 0} where
  unfoldable pub add_success : QuorumState R S → List StrategyMember → ℕ → R → S → QuorumState R S
  add_success qs strategy strategy_idx response sct =
      let sm = member_at strategy strategy_idx in
      record {
        responses = qs.responses ++ response ∷ [];
        scts = qs.scts ++ sct ∷ [];
        operators = insert sm.operator qs.operators;
        has_rfc6962_sct = qs.has_rfc6962_sct || is_type sm.log_type rfc6962;
        has_static_sct = qs.has_static_sct || is_type sm.log_type static;
        strategy_indices = qs.strategy_indices ++ strategy_idx ∷ [];
      }

  unfoldable pub is_quorum_met : QuorumState R S → Needs → Bool
  is_quorum_met qs sr =
      if ltb (length qs.responses) sr.scts
      then false
      else if ltb (length qs.operators) sr.operators
      then false
      else if sr.require_rfc6962 && not qs.has_rfc6962_sct
      then false
      else true

  unfoldable pub quorum_failure_reason : QuorumState R S → Needs → List Reason
  quorum_failure_reason qs sr =
      (if ltb (length qs.responses) sr.scts
        then need_scts sr.scts (length qs.responses) ∷ []
        else [])
      ++ ((if ltb (length qs.operators) sr.operators
            then need_operators sr.operators (length qs.operators) ∷ []
            else [])
          ++ (if sr.require_rfc6962 && not qs.has_rfc6962_sct then need_rfc6962 ∷ [] else []))

  unfoldable pub helps_quorum : QuorumState R S → Needs → StrategyMember → Bool
  helps_quorum qs sr sm =
      if ltb (length qs.responses) sr.scts
      then true
      else if ltb (length qs.operators) sr.operators && not (contains qs.operators sm.operator)
      then true
      else if sr.require_rfc6962 && not qs.has_rfc6962_sct && is_type sm.log_type rfc6962
      then true
      else sr.prefer_static && not qs.has_static_sct && is_type sm.log_type static

-- The optimistic view of `wouldHelp`: what is there once every log in flight has succeeded.
pub record Optimistic : Type 0 where
  pub operators : List String
  pub has_rfc6962 : Bool
  pub has_static : Bool

unfoldable pub assume_success : List StrategyMember → List ℕ → Optimistic → Optimistic
assume_success strategy [] view = view
assume_success strategy (idx ∷ rest) view =
    let sm = member_at strategy idx in
    assume_success strategy rest (record {
      operators = insert sm.operator view.operators;
      has_rfc6962 = view.has_rfc6962 || is_type sm.log_type rfc6962;
      has_static = view.has_static || is_type sm.log_type static;
    })

module _ {R S : Type 0} where
  unfoldable pub would_help :
      QuorumState R S → Needs → StrategyMember → List StrategyMember → List ℕ → Bool
  unfolding assume_success
  would_help qs sr sm strategy in_flight_indices =
      let view = assume_success strategy in_flight_indices (record {
        operators = qs.operators;
        has_rfc6962 = qs.has_rfc6962_sct;
        has_static = qs.has_static_sct;
      }) in
      let optimistic_scts = length qs.responses + length in_flight_indices in
      if ltb optimistic_scts sr.scts
      then true
      else if ltb (length view.operators) sr.operators && not (contains view.operators sm.operator)
      then true
      else if sr.require_rfc6962 && not view.has_rfc6962 && is_type sm.log_type rfc6962
      then true
      else sr.prefer_static && not view.has_static && is_type sm.log_type static
