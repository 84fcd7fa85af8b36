-- ===== src/Submitter/Orchestrate/Met.antt =====
-- What a caller of submit may rely on when it returns SCTs.
use ctsubmit.Prelude.{
  All, ℕ, ◌≡◌, refl, sym, ◌∙◌, ap, ◌≤◌, true, false, not, ◌&&◌, List, [], ◌∷◌, length, string_eq,
  subst,
}
use ctsubmit.Prelude.Distinct.{distinct}
use ctsubmit.Submitter.Types.{rfc6962, StrategyMember, Needs}
use ctsubmit.Submitter.Quorum.Trim.{trim_to_quorum}
use ctsubmit.Submitter.Quorum.Invariant.{
  new_quorum_state-IsValid, collected, operators_of, has_type,
}
use ctsubmit.Submitter.Quorum.Trimmed.{trim_to_quorum-Meets}
use ctsubmit.Submitter.Orchestrate.{
  Event, Result, ok, no_eligible, running, finished, Run, settle, ready, start_batch, start,
}
use ctsubmit.Submitter.Orchestrate.Kinds.{kinds, same_operators, same_types}
use ctsubmit.Submitter.Orchestrate.Answered.{Each, Each-trim, Allows, Answered, All-Allows}
use ctsubmit.Submitter.Orchestrate.Outcome.{final, started_phase}
use ctsubmit.Submitter.Orchestrate.Quorate.{Sound, Delivered, Backed, Quorate, settle-Quorate}
use ctsubmit.Submitter.Orchestrate.Quorate.Returned.{run_events-Quorate, started-Sound}

module _ (R S : Type 0) (P : ℕ → R → S → Type 0) (clock : ℕ → ℕ) (sr : Needs) where
  begun-Quorate :
      (strategy : List StrategyMember) (s : Run R S) (l : List ℕ)
      → Sound P (kinds strategy) sr s.qs s.strategy
      → s.phase ≡ running
      → Quorate P (kinds strategy) sr (elim l [
        | [] ↦ record s { phase = finished no_eligible }
        | _ ∷ _ ↦ settle clock sr running (start_batch clock sr s)
      ])
  begun-Quorate strategy s [] h e = tt
  begun-Quorate strategy s (i ∷ is) h e =
      let begun = started_phase clock sr s ∙ e in
      settle-Quorate P (kinds strategy) clock sr running (start_batch clock sr s) begun
        (started-Sound P (kinds strategy) clock sr s h)

  start-Quorate :
      (strategy : List StrategyMember)
      → Quorate P (kinds strategy) sr (start {R = R} {S = S} clock sr strategy)
  unfolding start ready
  start-Quorate strategy =
      let s = ready {R = R} {S = S} clock sr strategy in
      begun-Quorate strategy s s.eligible (refl, new_quorum_state-IsValid R S strategy, tt) refl

  delivered :
      (strategy : List StrategyMember) (es : List (Event R S)) (r : Result R S)
      → All (Allows P) es
      → (final R S clock sr strategy es).phase ≡ finished r
      → Delivered P (kinds strategy) sr r
  delivered strategy es r allowed e =
      let s = final R S clock sr strategy es in
      subst (λ p. Backed P (kinds strategy) sr p s.qs s.strategy) e
        (run_events-Quorate P (kinds strategy) clock sr (start clock sr strategy) es allowed
          (start-Quorate strategy))

module _ (R S : Type 0) (clock : ℕ → ℕ) (sr : Needs) where
  -- `is` are the indices of the logs whose SCTs are returned, each of which has answered with its
  -- response and its SCT.
  pub record Served (strategy : List StrategyMember) (es : List (Event R S)) (rs : List R)
      (ss : List S) (is : List ℕ) : Type 0 where
    pub answered : Each (Answered es) is rs ss
    pub as_many_responses : length rs ≡ sr.scts
    pub as_many_scts : length ss ≡ sr.scts
    pub as_many_logs : length is ≡ sr.scts
    pub operators_enough : sr.operators ≤ distinct (operators_of (collected strategy is))
    pub rfc6962_there :
        (sr.require_rfc6962 && not (has_type rfc6962 (collected strategy is))) ≡ false

  -- Whatever the events and their order, if submit returns SCTs then it returns exactly as many as
  -- are asked for, each with the response that the log at its index has answered with. These logs are of
  -- enough different operators and include an RFC 6962 log where one is required. At least one operator and no more operators than SCTs are
  -- asked for, and a single SCT is not to be both preferred static and required RFC 6962.
  pub submit-Served :
      1 ≤ sr.operators
      → sr.operators ≤ sr.scts
      → (sr.prefer_static ≡ true → sr.require_rfc6962 ≡ true → 2 ≤ sr.scts)
      → (strategy : List StrategyMember) (es : List (Event R S)) (rs : List R) (ss : List S)
      → (final R S clock sr strategy es).phase ≡ finished (ok rs ss)
      → (is : List ℕ) × Served strategy es rs ss is
  submit-Served one le two strategy es rs ss e =
      let (qs, end, (k, v, a), met, responses, scts) =
        delivered R S (Answered es) clock sr strategy es (ok rs ss) (All-Allows [] es) e in
      let m = trim_to_quorum-Meets qs sr end v met one le two in
      let is = (trim_to_quorum qs sr end).0.strategy_indices in
      (
        is,
        record {
          answered =
              subst (λ xs. Each (Answered es) is xs ss) (sym responses)
                (subst (λ ys. Each (Answered es) is (trim_to_quorum qs sr end).0.responses ys)
                  (sym scts) (Each-trim (Answered es) qs sr end a));
          as_many_responses = ap length responses ∙ m.responses_exact;
          as_many_scts = ap length scts ∙ m.scts_exact;
          as_many_logs = m.indices_exact;
          operators_enough =
              subst (λ os. sr.operators ≤ distinct os) (same_operators end strategy is k)
                m.operators_enough;
          rfc6962_there =
              ap (λ b. sr.require_rfc6962 && not b) (sym (same_types rfc6962 end strategy is k))
              ∙ m.rfc6962_there;
        },
      )
