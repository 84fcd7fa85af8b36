-- ===== src/Submitter/Orchestrate/Quorate.antt =====
-- The quorum state of a run belongs to its strategy, and what the run returns is a quorum of it.
pub mod Returned
use ctsubmit.Prelude.{
  ℕ, ◌≡◌, refl, sym, ◌∙◌, String, true, false, List, [], ◌∷◌, Option, none, some, arith, ltb, leb,
  if◌then◌else◌, Bool-cases, inl, inr, remove, insert, nat_eq,
}
use ctsubmit.Submitter.Types.{LogType, rfc6962, static, is_type, StrategyMember, member_at, Needs}
use ctsubmit.Submitter.Quorum.{QuorumState, is_quorum_met, add_success, helps_quorum}
use ctsubmit.Submitter.Quorum.Trim.{trim_to_quorum}
use ctsubmit.Submitter.Quorum.Invariant.{IsValid, add_success-IsValid}
use ctsubmit.Submitter.Orchestrate.{
  Event, success, failure, try_next, slow, cancelled, Result, ok, no_eligible, context_error,
  quorum_not_achieved, Phase, running, quorum_drain, cancel_drain, finished, Run, set_outcome,
  set_time_taken, settle, return_with, return_trimmed, dispatch, handle_running,
  handle_quorum_drain, handle_cancel_drain, land, accept, start_drain, replace_if_idle,
  start_next_eligible, next_eligible, launch_found, launch, mark_cancelled, drain_one, note_outcome,
  step, run_events,
}
use ctsubmit.Submitter.Orchestrate.Answered.{Each, Each-snoc, Allows}
use ctsubmit.Submitter.Orchestrate.Kinds.{
  kinds, kinds-set, kinds-mark_cancelled, timed_kinds, noted_kinds, same-IsValid,
}

module _ {R S : Type 0} (P : ℕ → R → S → Type 0) (ks : List (String × LogType)) (sr : Needs) where
  -- A valid quorum state over a strategy of the kinds `ks`, whose answers all have the property.
  abbrev pub Sound : QuorumState R S → List StrategyMember → Type 0
  Sound qs strategy =
      (kinds strategy ≡ ks) × IsValid strategy qs × Each P qs.strategy_indices qs.responses qs.scts

  abbrev pub Delivered : Result R S → Type 0
  Delivered (ok rs ss) =
      (qs : QuorumState R S) × (strategy : List StrategyMember) × Sound qs strategy
      × (is_quorum_met qs sr ≡ true)
      × (rs ≡ (trim_to_quorum qs sr strategy).0.responses)
      × (ss ≡ (trim_to_quorum qs sr strategy).0.scts)
  Delivered _ = Unit

  abbrev pub Backed : Phase R S → QuorumState R S → List StrategyMember → Type 0
  Backed quorum_drain qs strategy = (is_quorum_met qs sr ≡ true) × Sound qs strategy
  Backed (finished r) qs strategy = Delivered r
  Backed _ qs strategy = Sound qs strategy

  abbrev pub Quorate : Run R S → Type 0
  Quorate s = Backed s.phase s.qs s.strategy

module _ {R S : Type 0} (P : ℕ → R → S → Type 0) (ks : List (String × LogType)) (clock : ℕ → ℕ)
    (sr : Needs) where
  moved-Sound :
      (qs : QuorumState R S) (s t : List StrategyMember)
      → kinds t ≡ kinds s
      → Sound P ks sr qs s
      → Sound P ks sr qs t
  moved-Sound qs s t h (k, v, a) = (h ∙ k, same-IsValid s t qs (sym h) v, a)

  trimmed-Quorate :
      (s : Run R S)
      → is_quorum_met s.qs sr ≡ true
      → Sound P ks sr s.qs s.strategy
      → Quorate P ks sr (return_trimmed clock sr s)
  unfolding return_trimmed return_with
  trimmed-Quorate s met h = (s.qs, s.strategy, h, met, refl, refl)

  pub settle-Quorate :
      (p : Phase R S) (s : Run R S)
      → s.phase ≡ p
      → Backed P ks sr p s.qs s.strategy
      → Quorate P ks sr (settle clock sr p s)
  unfolding settle
  settle-Quorate running s e h = elim (Bool-cases (ltb 0 s.in_flight)) [
    | inl flying ↦ rw (flying, e) h
    | inr landed ↦ elim (Bool-cases (is_quorum_met s.qs sr)) [
      | inl met ↦ rw (landed, met) (trimmed-Quorate s met h)
      | inr unmet ↦ rw (landed, unmet) (unfold return_with in tt)
    ]
  ]
  settle-Quorate quorum_drain s e h = elim (Bool-cases (ltb 0 s.in_flight)) [
    | inl flying ↦ rw (flying, e) h
    | inr landed ↦ rw landed (trimmed-Quorate s h.0 h.1)
  ]
  settle-Quorate cancel_drain s e h = elim (Bool-cases (ltb 0 s.in_flight)) [
    | inl flying ↦ rw (flying, e) h
    | inr landed ↦ rw landed (unfold return_with in tt)
  ]
  settle-Quorate (finished r) s e h = rw e h

  pub found-Sound :
      (o : Option ℕ) (s : Run R S)
      → Sound P ks sr s.qs s.strategy
      → Sound P ks sr (launch_found clock sr o s).qs (launch_found clock sr o s).strategy
  unfolding launch_found launch
  found-Sound none s h = h
  found-Sound (some i) s h = moved-Sound s.qs s.strategy _ (kinds-set s.strategy i _ refl) h

  found_phase : (o : Option ℕ) (s : Run R S) → (launch_found clock sr o s).phase ≡ s.phase
  unfolding launch_found launch
  found_phase none s = refl
  found_phase (some i) s = refl

  -- A run that stays in its loop.
  running-Quorate :
      (s : Run R S) → s.phase ≡ running → Sound P ks sr s.qs s.strategy → Quorate P ks sr s
  running-Quorate s e h = rw e h

  next-Quorate :
      (s : Run R S)
      → s.phase ≡ running
      → Sound P ks sr s.qs s.strategy
      → Quorate P ks sr (start_next_eligible clock sr s)
  unfolding start_next_eligible
  next-Quorate s e h =
      let o = next_eligible clock sr s in
      running-Quorate (launch_found clock sr o s) (found_phase o s ∙ e) (found-Sound o s h)

  replaced-Quorate :
      (s : Run R S)
      → s.phase ≡ running
      → Sound P ks sr s.qs s.strategy
      → Quorate P ks sr (replace_if_idle clock sr s)
  unfolding replace_if_idle
  replaced-Quorate s e h = elim (Bool-cases (nat_eq.beq s.in_flight 0)) [
    | inl idle ↦ rw idle (next-Quorate s e h)
    | inr busy ↦ rw busy (running-Quorate s e h)
  ]

  accept-Sound :
      (i : ℕ) (response : R) (sct : S) (outcome : String) (time_taken : ℕ) (s : Run R S)
      → P i response sct
      → Sound P ks sr s.qs s.strategy
      → let s' = accept clock sr i response sct outcome time_taken s in
        Sound P ks sr s'.qs s'.strategy
  unfolding accept
  accept-Sound i response sct outcome time_taken s holds h =
      let timed = set_time_taken i time_taken s.strategy in
      let (k, v, a) = moved-Sound s.qs s.strategy timed (timed_kinds i time_taken s.strategy) h in
      elim (Bool-cases (helps_quorum s.qs sr (member_at timed i))) [
        | inl helps ↦
            let noted = set_outcome i outcome timed in
            let (k', v', a') =
              moved-Sound s.qs timed noted (noted_kinds i outcome timed) (k, v, a) in
            rw helps (
              k',
              add_success-IsValid s.qs noted i response sct v',
              unfold add_success in
                  Each-snoc P s.qs.strategy_indices s.qs.responses s.qs.scts i response sct a'
                    holds,
            )
        | inr useless ↦ rw useless (moved-Sound s.qs timed _ (noted_kinds i _ timed) (k, v, a))
      ]

  drained-Sound :
      (s : Run R S)
      → is_quorum_met s.qs sr ≡ true
      → Sound P ks sr s.qs s.strategy
      → Quorate P ks sr (start_drain clock sr s)
  unfolding start_drain
  drained-Sound s met h =
      let marked = mark_cancelled s.in_flight_indices s.strategy in
      (
        met,
        moved-Sound s.qs marked _ (kinds-mark_cancelled s.slow_in_flight_indices marked) (
            moved-Sound s.qs s.strategy marked (kinds-mark_cancelled s.in_flight_indices s.strategy)
              h),
      )

  handle_running-Quorate :
      (e : Event R S) (s : Run R S)
      → Allows P e
      → s.phase ≡ running
      → Sound P ks sr s.qs s.strategy
      → Quorate P ks sr (handle_running clock sr e s)
  unfolding handle_running land
  handle_running-Quorate (success i response sct outcome time_taken) s holds e h =
      let s₁ = accept clock sr i response sct outcome time_taken (land clock sr i s) in
      let h₁ = accept-Sound i response sct outcome time_taken (land clock sr i s) holds h in
      elim (Bool-cases (is_quorum_met s₁.qs sr)) [
        | inl met ↦ rw met (drained-Sound s₁ met h₁)
        | inr unmet ↦ rw unmet (replaced-Quorate s₁ (unfold accept in ground arith) h₁)
      ]
  handle_running-Quorate (failure i outcome time_taken) s holds e h = replaced-Quorate _ e (
      moved-Sound s.qs (set_outcome i outcome s.strategy) _ (timed_kinds i time_taken _)
        (moved-Sound s.qs s.strategy _ (noted_kinds i outcome s.strategy) h))
  handle_running-Quorate (try_next i) s holds e h = next-Quorate _ e h
  handle_running-Quorate (slow i) s holds e h =
      running-Quorate (handle_running clock sr (slow i) s) e h
  handle_running-Quorate cancelled s holds e h = h
