-- ===== src/Submitter/Quorum/Single.antt =====
-- The case that trimToQuorum's exactness leaves out: one SCT is asked for, an RFC 6962 one is
-- required and a static one preferred.
use ctsubmit.Prelude.{
  ℕ, ◌≤◌, ◌≡◌, refl, true, false, List, [], ◌∷◌, length, arith, keep, string_eq, contains,
}
use ctsubmit.Submitter.Types.{rfc6962, static, StrategyMember, member_at, Needs}
use ctsubmit.Submitter.Quorum.{QuorumState}
use ctsubmit.Submitter.Quorum.Trim.{
  choose, trim_to_quorum, diversify, has_selected, select_first, drop_last, droppable_for_rfc6962,
  droppable_for_static, ensure_rfc6962, ensure_static, fill, can_drop_safely, other_rfc6962, flags,
}

abbrev pub single_both : ℕ → Needs
single_both operators = record {
  operators = operators;
  scts = 1;
  require_rfc6962 = true;
  prefer_static = true;
}

choose-single_both :
    (m n : StrategyMember) (operators : ℕ)
    → m.log_type ≡ static
    → n.log_type ≡ rfc6962
    → operators ≤ 1
    → flags (
        choose
          (single_both operators)
          (record { member = m; selected = false } ∷ record { member = n; selected = false } ∷ []))
      ≡ true ∷ true ∷ []
unfolding choose diversify has_selected select_first drop_last droppable_for_rfc6962
    droppable_for_static ensure_rfc6962 ensure_static fill can_drop_safely other_rfc6962 contains
choose-single_both m n operators p q h = ground arith

keep_two : {A : Type 0} (xs : List A) → length xs ≡ 2 → keep (true ∷ true ∷ []) xs ≡ xs
unfolding keep
keep_two [] h = absurd (omega arith)
keep_two (x ∷ []) h = absurd (omega arith)
keep_two (x ∷ y ∷ []) h = refl
keep_two (x ∷ y ∷ z ∷ zs) h = absurd (omega arith)

-- A static SCT and then an RFC 6962 one have answered a request for a single SCT with both
-- wishes and at most one operator: trimToQuorum keeps both SCTs, one more than was asked for.
pub trim_to_quorum-single_both :
    {R S : Type 0} (qs : QuorumState R S) (strategy : List StrategyMember) (operators i j : ℕ)
    → qs.strategy_indices ≡ i ∷ j ∷ []
    → length qs.responses ≡ 2
    → (member_at strategy i).log_type ≡ static
    → (member_at strategy j).log_type ≡ rfc6962
    → operators ≤ 1
    → (trim_to_quorum qs (single_both operators) strategy).0.responses ≡ qs.responses
unfolding trim_to_quorum
trim_to_quorum-single_both qs strategy operators i j e len p q h =
    rw (len, e)
      (rw (choose-single_both (member_at strategy i) (member_at strategy j) operators p q h)
        (keep_two qs.responses len))
