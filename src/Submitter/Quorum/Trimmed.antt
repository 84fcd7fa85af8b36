-- ===== src/Submitter/Quorum/Trimmed.antt =====
-- trimToQuorum on a valid quorum state: what it returns once the quorum is met.
use ctsubmit.Prelude.{
  ℕ, suc, ◌≤◌, ◌<◌, ◌≡◌, refl, sym, ap, ◌∙◌, Bool, true, false, not, ◌&&◌, List, [], ◌∷◌, length,
  nat_eq, string_eq, arith, Bool-cases, keep, ltb, leb, leb→le, inl, inr,
}
use ctsubmit.Prelude.Distinct.{distinct, distinct-Subset}
use ctsubmit.Submitter.Types.{LogType, rfc6962, static, StrategyMember, member_at, Needs}
use ctsubmit.Submitter.Quorum.{QuorumState, is_quorum_met}
use ctsubmit.Submitter.Quorum.Trim.{Slot, slots_of, flags, choose, trim_to_quorum}
use ctsubmit.Submitter.Quorum.Select.{ops, all_ops, num, total, members, NoneSelected}
use ctsubmit.Submitter.Quorum.Stages.{length_eq}
use ctsubmit.Submitter.Quorum.Exact.{
  choose-members, choose-length, choose_diverse, choose_rfc6962, choose_static,
}
use ctsubmit.Submitter.Quorum.Invariant.{collected, operators_of, has_type, IsValid}

slots_of-members :
    (strategy : List StrategyMember) (is : List ℕ)
    → members (slots_of strategy is) ≡ collected strategy is
slots_of-members strategy [] = refl
slots_of-members strategy (i ∷ is) = ap (◌∷◌ (member_at strategy i)) (slots_of-members strategy is)

slots_of-NoneSelected :
    (strategy : List StrategyMember) (is : List ℕ) → NoneSelected (slots_of strategy is)
slots_of-NoneSelected strategy [] = tt
slots_of-NoneSelected strategy (i ∷ is) = (refl, slots_of-NoneSelected strategy is)

slots_of-all_ops :
    (strategy : List StrategyMember) (is : List ℕ)
    → all_ops (slots_of strategy is) ≡ operators_of (collected strategy is)
slots_of-all_ops strategy [] = refl
slots_of-all_ops strategy (i ∷ is) =
    ap (◌∷◌ (member_at strategy i).operator) (slots_of-all_ops strategy is)

length-slots_of :
    (strategy : List StrategyMember) (is : List ℕ) → length (slots_of strategy is) ≡ length is
length-slots_of strategy [] = refl
length-slots_of strategy (i ∷ is) = ap suc (length-slots_of strategy is)

slots_of-total :
    (t : LogType) (strategy : List StrategyMember) (is : List ℕ)
    → has_type t (collected strategy is) ≡ ltb 0 (total t (slots_of strategy is))
slots_of-total t strategy [] = refl
slots_of-total t strategy (i ∷ is) = ground (arith, slots_of-total t strategy is)

length-keep :
    {A : Type 0} (ss : List Slot) (xs : List A)
    → length xs ≡ length ss
    → length (keep (flags ss) xs) ≡ length (ops ss)
unfolding keep
length-keep [] xs h = refl
length-keep (s ∷ ss) [] h = absurd (omega arith)
length-keep (s ∷ ss) (x ∷ xs) h = ground (arith, length-keep ss xs)

module _ (strategy : List StrategyMember) where
  keep-operators :
      (ss : List Slot) (is : List ℕ)
      → members ss ≡ collected strategy is
      → operators_of (collected strategy (keep (flags ss) is)) ≡ ops ss
  unfolding keep
  keep-operators [] is h = refl
  keep-operators (s ∷ ss) [] h = cc
  keep-operators (s ∷ ss) (i ∷ is) h = ground (arith, keep-operators ss is)

  keep-type :
      (t : LogType) (ss : List Slot) (is : List ℕ)
      → members ss ≡ collected strategy is
      → 0 < num t ss
      → has_type t (collected strategy (keep (flags ss) is)) ≡ true
  unfolding keep
  keep-type t [] is h n = absurd (omega arith)
  keep-type t (s ∷ ss) [] h n = cc
  keep-type t (s ∷ ss) (i ∷ is) h n = ground (arith, keep-type t ss is)

module _ {R S : Type 0} where
  -- What a trimmed state holds: as many SCTs as asked for, in parallel lists, of enough operators
  -- and of the log types asked for.
  pub record Meets (strategy : List StrategyMember) (sr : Needs) (qs : QuorumState R S)
      : Type 0 where
    pub responses_exact : length qs.responses ≡ sr.scts
    pub scts_exact : length qs.scts ≡ sr.scts
    pub indices_exact : length qs.strategy_indices ≡ sr.scts
    pub operators_enough :
        sr.operators ≤ distinct (operators_of (collected strategy qs.strategy_indices))
    pub rfc6962_there :
        (sr.require_rfc6962 && not (has_type rfc6962 (collected strategy qs.strategy_indices)))
        ≡ false

-- A test that holds wherever another does.
only_if : (a b : Bool) → (a ≡ true → b ≡ true) → (a && not b) ≡ false
only_if true b h = ground (arith, h refl)
only_if false b h = refl

module _ {R S : Type 0} (qs : QuorumState R S) (sr : Needs) (strategy : List StrategyMember)
    (v : IsValid strategy qs) (met : is_quorum_met qs sr ≡ true) (one : 1 ≤ sr.operators)
    (le : sr.operators ≤ sr.scts)
    (two : sr.prefer_static ≡ true → sr.require_rfc6962 ≡ true → 2 ≤ sr.scts) where
  met_parts :
      (sr.scts ≤ length qs.responses)
      × (sr.operators ≤ length qs.operators)
      × (sr.require_rfc6962 ≡ true → qs.has_rfc6962_sct ≡ true)
  unfolding is_quorum_met
  met_parts = (ground arith, ground arith, λ req. ground arith)

  enough_operators : sr.operators ≤ distinct (operators_of (collected strategy qs.strategy_indices))
  enough_operators = omega (
    arith,
    v.operators_once,
    met_parts,
    distinct-Subset qs.operators (operators_of (collected strategy qs.strategy_indices))
        (λ a m. sym (v.operators_exact a) ∙ m),
  )

  kept_as_is : length qs.responses ≤ sr.scts → Meets strategy sr qs
  kept_as_is short = record {
    responses_exact = omega (arith, met_parts);
    scts_exact = omega (arith, met_parts, v.responses_parallel, v.scts_parallel);
    indices_exact = omega (arith, met_parts, v.responses_parallel);
    operators_enough = enough_operators;
    rfc6962_there = only_if _ _ (λ req. sym v.rfc6962_exact ∙ met_parts.2 req);
  }

  slots : List Slot
  slots = slots_of strategy qs.strategy_indices

  slots_facts :
      (sr.scts ≤ length slots)
      × (sr.operators ≤ distinct (all_ops slots))
      × (sr.require_rfc6962 ≡ true → 0 < total rfc6962 slots)
  unfolding slots
  slots_facts = (
    omega (arith, met_parts, v.responses_parallel, length-slots_of strategy qs.strategy_indices),
    rw (slots_of-all_ops strategy qs.strategy_indices) enough_operators,
    λ req. ground (
      arith,
      slots_of-total rfc6962 strategy qs.strategy_indices,
      v.rfc6962_exact,
      met_parts.2 req,
    ),
  )

  chosen_members : members (choose sr slots) ≡ collected strategy qs.strategy_indices
  unfolding slots
  chosen_members =
      choose-members sr slots (slots_of-NoneSelected strategy qs.strategy_indices) slots_facts.0 one
        le slots_facts.1 two
      ∙ slots_of-members strategy qs.strategy_indices

  trimmed : Meets strategy sr (record qs {
    responses = keep (flags (choose sr slots)) qs.responses;
    scts = keep (flags (choose sr slots)) qs.scts;
    strategy_indices = keep (flags (choose sr slots)) qs.strategy_indices;
  })
  trimmed = record {
    responses_exact =
        length-keep (choose sr slots) qs.responses (v.responses_parallel ∙ same_length) ∙ exact;
    scts_exact = length-keep (choose sr slots) qs.scts (v.scts_parallel ∙ same_length) ∙ exact;
    indices_exact = length-keep (choose sr slots) qs.strategy_indices same_length ∙ exact;
    operators_enough =
        rw (keep-operators strategy (choose sr slots) qs.strategy_indices chosen_members)
          (choose_diverse sr slots fresh slots_facts.0 one le slots_facts.1 two);
    rfc6962_there = only_if _ _ (λ req.
        keep-type strategy rfc6962 (choose sr slots) qs.strategy_indices chosen_members (
          choose_rfc6962 sr slots fresh slots_facts.0 one le slots_facts.1 two req
            (slots_facts.2 req)));
  }
    where
      fresh : NoneSelected slots
      fresh = unfold slots in slots_of-NoneSelected strategy qs.strategy_indices

      exact : length (ops (choose sr slots)) ≡ sr.scts
      exact = choose-length sr slots fresh slots_facts.0 one le slots_facts.1 two

      same_length : length qs.strategy_indices ≡ length (choose sr slots)
      same_length =
          unfold slots in
          sym (
            length_eq (choose sr slots) slots
              (choose-members sr slots fresh slots_facts.0 one le slots_facts.1 two)
            ∙ length-slots_of strategy qs.strategy_indices)

  -- Once the quorum is met, trimToQuorum leaves exactly the number of SCTs asked for, and these
  -- still meet the quorum: enough distinct operators, and an RFC 6962 SCT if one is required. The
  -- state is valid, at least one operator and no more operators than SCTs are asked for, and a
  -- single SCT is not to be both preferred static and required RFC 6962.
  pub trim_to_quorum-Meets : Meets strategy sr (trim_to_quorum qs sr strategy).0
  unfolding trim_to_quorum slots
  trim_to_quorum-Meets = elim (Bool-cases (leb (length qs.responses) sr.scts)) [
    | inl short ↦ rw short (kept_as_is (leb→le _ _ short))
    | inr more ↦ rw more trimmed
  ]

  -- Once the quorum is met, where static SCTs are preferred and one was collected, trimToQuorum
  -- keeps one. The state is valid, at least one operator and no more operators than SCTs are asked
  -- for, and a single SCT is not to be both preferred static and required RFC 6962.
  pub trim_to_quorum_static :
      sr.prefer_static ≡ true
      → qs.has_static_sct ≡ true
      → has_type static (collected strategy (trim_to_quorum qs sr strategy).0.strategy_indices)
        ≡ true
  unfolding trim_to_quorum slots
  trim_to_quorum_static pref has = elim (Bool-cases (leb (length qs.responses) sr.scts)) [
    | inl short ↦ rw short (sym v.static_exact ∙ has)
    | inr more ↦ rw more (
        keep-type strategy static (choose sr slots) qs.strategy_indices chosen_members (
          choose_static sr slots (slots_of-NoneSelected strategy qs.strategy_indices) slots_facts.0
            one le slots_facts.1 two pref
            (ground (arith, slots_of-total static strategy qs.strategy_indices, v.static_exact))))
  ]
