-- ===== src/Submitter/Quorum/Help.antt =====
-- submitter/quorum.go: isQuorumMet, quorumFailureReason, helpsQuorum and wouldHelp against one
-- another.
use ctsubmit.Prelude.{
  ℕ, ◌+◌, ◌≡◌, refl, ◌↔◌, true, false, ◌&&◌, List, [], ◌∷◌, length, insert, string_eq, arith,
  length-append,
}
use ctsubmit.Submitter.Types.{StrategyMember, member_at, Needs}
use ctsubmit.Submitter.Quorum.{
  QuorumState, add_success, is_quorum_met, quorum_failure_reason, helps_quorum, Optimistic,
  assume_success, would_help,
}

-- An answer of a log: its index in the strategy, the response and the SCT.
pub record Answer (R S : Type 0) : Type 0 where
  pub index : ℕ
  pub response : R
  pub sct : S

abbrev pub indices : {R S : Type 0} → List (Answer R S) → List ℕ
indices [] = []
indices (a ∷ rest) = a.index ∷ indices rest

module _ {R S : Type 0} (strategy : List StrategyMember) where
  pub add_all : QuorumState R S → List (Answer R S) → QuorumState R S
  add_all qs [] = qs
  add_all qs (a ∷ rest) = add_all (add_success qs strategy a.index a.response a.sct) rest

  add_all-length :
      (qs : QuorumState R S) (answers : List (Answer R S))
      → length (add_all qs answers).responses ≡ length qs.responses + length (indices answers)
  unfolding add_all add_success
  add_all-length qs [] = omega arith
  add_all-length qs (a ∷ rest) = omega (
    arith,
    add_all-length (add_success qs strategy a.index a.response a.sct) rest,
    length-append qs.responses (a.response ∷ []),
  )

  abbrev view : QuorumState R S → Optimistic
  view qs = record {
    operators = qs.operators;
    has_rfc6962 = qs.has_rfc6962_sct;
    has_static = qs.has_static_sct;
  }

  add_all-view :
      (qs : QuorumState R S) (answers : List (Answer R S))
      → view (add_all qs answers) ≡ assume_success strategy (indices answers) (view qs)
  unfolding add_all add_success assume_success
  add_all-view qs [] = refl
  add_all-view qs (a ∷ rest) = add_all-view (add_success qs strategy a.index a.response a.sct) rest

module _ {R S : Type 0} (qs : QuorumState R S) (sr : Needs) where
  -- wouldHelp is helpsQuorum in the state in which every log in flight has succeeded, whatever
  -- the logs answer.
  pub would_help-helps_quorum :
      (sm : StrategyMember) (strategy : List StrategyMember) (answers : List (Answer R S))
      → would_help qs sr sm strategy (indices answers)
        ≡ helps_quorum (add_all strategy qs answers) sr sm
  unfolding would_help helps_quorum
  would_help-helps_quorum sm strategy answers =
      rw (add_all-length strategy qs answers, ← add_all-view strategy qs answers)

  -- The failure reason is empty exactly when the quorum is met.
  quorum_failure_reason-nil : (quorum_failure_reason qs sr ≡ []) ↔ (is_quorum_met qs sr ≡ true)
  unfolding quorum_failure_reason is_quorum_met
  quorum_failure_reason-nil = (λ h. ground arith, λ h. ground arith)

  -- A log that does not help changes nothing by its success: neither whether the quorum is met nor,
  -- where static SCTs are preferred, whether one is there.
  pub helps_quorum_complete :
      (strategy : List StrategyMember) (i : ℕ) (response : R) (sct : S)
      → helps_quorum qs sr (member_at strategy i) ≡ false
      → (is_quorum_met (add_success qs strategy i response sct) sr ≡ is_quorum_met qs sr)
        × ((sr.prefer_static && (add_success qs strategy i response sct).has_static_sct)
            ≡ (sr.prefer_static && qs.has_static_sct))
  unfolding helps_quorum is_quorum_met add_success insert
  helps_quorum_complete strategy i response sct h =
      (ground (arith, length-append qs.responses (response ∷ [])), ground arith)
