-- ===== src/Submitter/Orchestrate/Answered.antt =====
-- The answers that a quorum state holds, each with the index of its log.
use ctsubmit.Prelude.{
  ℕ, ◌≡◌, refl, ◌⊎◌, inl, inr, String, Bool, true, false, List, [], ◌∷◌, ◌++◌, keep, All, subst,
  leb, length, Bool-cases,
}
use mathlib.Core.List.{append_assoc}
use ctsubmit.Submitter.Types.{StrategyMember, Needs}
use ctsubmit.Submitter.Quorum.{QuorumState}
use ctsubmit.Submitter.Quorum.Trim.{trim_to_quorum, flags, choose, slots_of}
use ctsubmit.Submitter.Orchestrate.{Event, success, failure, try_next, slow, cancelled}

module _ {R S : Type 0} where
  -- Every index with its response and its SCT has the property, and none is without the others.
  abbrev pub Each : (ℕ → R → S → Type 0) → List ℕ → List R → List S → Type 0
  Each P [] [] [] = Unit
  Each P (i ∷ is) (r ∷ rs) (s ∷ ss) = P i r s × Each P is rs ss
  Each P _ _ _ = ⊥

  -- The event is no success, or one with the property.
  abbrev pub Allows : (ℕ → R → S → Type 0) → Event R S → Type 0
  Allows P (success i r s outcome d) = P i r s
  Allows P _ = Unit

  -- The log at the index has answered with the response and the SCT.
  abbrev pub Answered : List (Event R S) → ℕ → R → S → Type 0
  Answered [] i r s = ⊥
  Answered (e ∷ es) i r s =
      ((outcome : String) × (d : ℕ) × (e ≡ success i r s outcome d)) ⊎ Answered es i r s

  Answered-weaken :
      (i : ℕ) (r : R) (s : S) (es fs : List (Event R S))
      → Answered fs i r s
      → Answered (es ++ fs) i r s
  Answered-weaken i r s [] fs a = a
  Answered-weaken i r s (e ∷ es) fs a = inr (Answered-weaken i r s es fs a)

  Allows-Answered : (es fs : List (Event R S)) (e : Event R S) → Allows (Answered (es ++ e ∷ fs)) e
  Allows-Answered es fs (success i r s outcome d) =
      Answered-weaken i r s es (success i r s outcome d ∷ fs) (inl (outcome, d, refl))
  Allows-Answered es fs (failure i outcome d) = tt
  Allows-Answered es fs (try_next i) = tt
  Allows-Answered es fs (slow i) = tt
  Allows-Answered es fs cancelled = tt

  pub All-Allows : (fs es : List (Event R S)) → All (Allows (Answered (fs ++ es))) es
  All-Allows fs [] = tt
  All-Allows fs (e ∷ es) = (
    Allows-Answered fs es e,
    subst (λ gs. All (Allows (Answered gs)) es) (append_assoc fs (e ∷ []) es)
        (All-Allows (fs ++ e ∷ []) es),
  )

  module _ (P : ℕ → R → S → Type 0) where
    pub Each-snoc :
        (is : List ℕ) (rs : List R) (ss : List S) (i : ℕ) (r : R) (s : S)
        → Each P is rs ss
        → P i r s
        → Each P (is ++ i ∷ []) (rs ++ r ∷ []) (ss ++ s ∷ [])
    Each-snoc [] [] [] i r s a p = (p, tt)
    Each-snoc (j ∷ is) (q ∷ rs) (t ∷ ss) i r s a p = (a.0, Each-snoc is rs ss i r s a.1 p)
    Each-snoc [] [] (t ∷ ss) i r s a p = absurd a
    Each-snoc [] (q ∷ rs) [] i r s a p = absurd a
    Each-snoc [] (q ∷ rs) (t ∷ ss) i r s a p = absurd a
    Each-snoc (j ∷ is) [] [] i r s a p = absurd a
    Each-snoc (j ∷ is) [] (t ∷ ss) i r s a p = absurd a
    Each-snoc (j ∷ is) (q ∷ rs) [] i r s a p = absurd a

    Each-keep :
        (bs : List Bool) (is : List ℕ) (rs : List R) (ss : List S)
        → Each P is rs ss
        → Each P (keep bs is) (keep bs rs) (keep bs ss)
    unfolding keep
    Each-keep [] [] [] [] a = tt
    Each-keep (b ∷ bs) [] [] [] a = tt
    Each-keep [] (j ∷ is) (q ∷ rs) (t ∷ ss) a = tt
    Each-keep (true ∷ bs) (j ∷ is) (q ∷ rs) (t ∷ ss) a = (a.0, Each-keep bs is rs ss a.1)
    Each-keep (false ∷ bs) (j ∷ is) (q ∷ rs) (t ∷ ss) a = Each-keep bs is rs ss a.1
    Each-keep bs [] [] (t ∷ ss) a = absurd a
    Each-keep bs [] (q ∷ rs) [] a = absurd a
    Each-keep bs [] (q ∷ rs) (t ∷ ss) a = absurd a
    Each-keep bs (j ∷ is) [] [] a = absurd a
    Each-keep bs (j ∷ is) [] (t ∷ ss) a = absurd a
    Each-keep bs (j ∷ is) (q ∷ rs) [] a = absurd a

    pub Each-trim :
        (qs : QuorumState R S) (sr : Needs) (strategy : List StrategyMember)
        → Each P qs.strategy_indices qs.responses qs.scts
        → let qs' = (trim_to_quorum qs sr strategy).0 in
          Each P qs'.strategy_indices qs'.responses qs'.scts
    unfolding trim_to_quorum
    Each-trim qs sr strategy a =
        let selected = flags (choose sr (slots_of strategy qs.strategy_indices)) in
        elim (Bool-cases (leb (length qs.responses) sr.scts)) [
          | inl few ↦ rw few a
          | inr many ↦ rw many (Each-keep selected qs.strategy_indices qs.responses qs.scts a)
        ]
