-- ===== src/Submitter/Orchestrate/Outcome.antt =====
-- How a run ends: with a quorum, or with the reason that there is none.
use ctsubmit.Prelude.{
  ℕ, ◌≡◌, refl, ◌∙◌, true, false, List, [], ◌∷◌, arith, inl, inr, ltb, if◌then◌else◌, Option, none,
  some, Bool-cases, length, subst,
}
use ctsubmit.Submitter.Types.{LogType, rfc6962, static, is_type, StrategyMember, Needs}
use ctsubmit.Submitter.Quorum.{QuorumState, Reason, is_quorum_met, quorum_failure_reason}
use ctsubmit.Submitter.Quorum.Trim.{trim_to_quorum}
use ctsubmit.Submitter.Orchestrate.{
  Event, success, failure, try_next, slow, cancelled, Result, ok, quorum_not_achieved, Phase,
  running, quorum_drain, cancel_drain, finished, Run, settle, step, start, return_with,
  return_trimmed, dispatch, run_events, handle_running, handle_quorum_drain, handle_cancel_drain,
  land, accept, start_drain, replace_if_idle, start_next_eligible, next_eligible, launch_found,
  launch, launch_batch, ensure_log_type, find_eligible, start_batch, ready, no_eligible, drain_one,
  note_outcome,
}

module _ {R S : Type 0} (sr : Needs) where
  -- The SCTs that a trimmed quorum leaves.
  abbrev pub Trims : List R → List S → Type 0
  Trims rs ss =
      (qs : QuorumState R S) × (strategy : List StrategyMember) × (is_quorum_met qs sr ≡ true)
      × (rs ≡ (trim_to_quorum qs sr strategy).0.responses)
      × (ss ≡ (trim_to_quorum qs sr strategy).0.scts)

  abbrev pub Justified : Result R S → QuorumState R S → Type 0
  Justified (ok rs ss) qs = Trims rs ss
  Justified (quorum_not_achieved reasons) qs =
      (reasons ≡ quorum_failure_reason qs sr) × (is_quorum_met qs sr ≡ false)
  Justified _ qs = Unit

  abbrev pub Holds : Phase R S → QuorumState R S → Type 0
  Holds quorum_drain qs = is_quorum_met qs sr ≡ true
  Holds (finished r) qs = Justified r qs
  Holds _ qs = Unit

  -- What the phase of a run says of its quorum.
  abbrev pub Fair : Run R S → Type 0
  Fair s = Holds s.phase s.qs

module _ {R S : Type 0} (clock : ℕ → ℕ) (sr : Needs) where
  trimmed-Fair : (s : Run R S) → is_quorum_met s.qs sr ≡ true → Fair sr (return_trimmed clock sr s)
  unfolding return_trimmed return_with
  trimmed-Fair s met = (s.qs, s.strategy, met, refl, refl)

  settle-Fair :
      (p : Phase R S) (s : Run R S) → Holds sr p s.qs → s.phase ≡ p → Fair sr (settle clock sr p s)
  unfolding settle
  settle-Fair running s h e = elim (Bool-cases (ltb 0 s.in_flight)) [
    | inl flying ↦ rw (flying, e) tt
    | inr landed ↦ elim (Bool-cases (is_quorum_met s.qs sr)) [
      | inl met ↦ rw (landed, met) (trimmed-Fair s met)
      | inr unmet ↦ rw (landed, unmet) (unfold return_with in (refl, unmet))
    ]
  ]
  settle-Fair quorum_drain s h e = elim (Bool-cases (ltb 0 s.in_flight)) [
    | inl flying ↦ rw (flying, e) h
    | inr landed ↦ rw landed (trimmed-Fair s h)
  ]
  settle-Fair cancel_drain s h e = elim (Bool-cases (ltb 0 s.in_flight)) [
    | inl flying ↦ rw (flying, e) tt
    | inr landed ↦ rw landed (unfold return_with in tt)
  ]
  settle-Fair (finished r) s h e = rw e h

  found-qs :
      (o : Option ℕ) (s : Run R S)
      → ((launch_found clock sr o s).phase ≡ s.phase) × ((launch_found clock sr o s).qs ≡ s.qs)
  unfolding launch_found launch
  found-qs none s = (refl, refl)
  found-qs (some i) s = (refl, refl)

  replaced-Fair : (s : Run R S) → s.phase ≡ running → Fair sr (replace_if_idle clock sr s)
  unfolding replace_if_idle start_next_eligible
  replaced-Fair s e = ground (arith, found-qs (next_eligible clock sr s) s)

  handle_running-Fair :
      (e : Event R S) (s : Run R S) → s.phase ≡ running → Fair sr (handle_running clock sr e s)
  unfolding handle_running
  handle_running-Fair (success i response sct outcome time_taken) s e =
      let s₁ = accept clock sr i response sct outcome time_taken (land clock sr i s) in
      elim (Bool-cases (is_quorum_met s₁.qs sr)) [
        | inl met ↦ rw met (unfold start_drain in met)
        | inr unmet ↦ rw unmet (replaced-Fair s₁ (unfold accept land in ground arith))
      ]
  handle_running-Fair (failure i outcome time_taken) s e = replaced-Fair _ (unfold land in e)
  handle_running-Fair (try_next i) s e =
      unfold start_next_eligible in ground (arith, found-qs (next_eligible clock sr _) _)
  handle_running-Fair (slow i) s e = rw e tt
  handle_running-Fair cancelled s e = tt

  drain_qs :
      (e : Event R S) (s : Run R S)
      → ((handle_quorum_drain clock sr e s).phase ≡ s.phase)
        × ((handle_quorum_drain clock sr e s).qs ≡ s.qs)
        × ((handle_cancel_drain clock sr e s).phase ≡ s.phase)
  unfolding handle_quorum_drain handle_cancel_drain note_outcome drain_one
  drain_qs (success i response sct outcome time_taken) s = ground arith
  drain_qs (failure i outcome time_taken) s = ground arith
  drain_qs (try_next i) s = (refl, refl, refl)
  drain_qs (slow i) s = (refl, refl, refl)
  drain_qs cancelled s = (refl, refl, refl)

  moved-Holds :
      (p q : Phase R S) (a b : QuorumState R S) → p ≡ q → a ≡ b → Holds sr q b → Holds sr p a
  moved-Holds p q a b e f h = rw (e, f) h

  dispatch-Fair :
      (p : Phase R S) (e : Event R S) (s : Run R S)
      → s.phase ≡ p
      → Holds sr p s.qs
      → Fair sr (dispatch clock sr p e s)
  unfolding dispatch
  dispatch-Fair running e s q h = handle_running-Fair e s q
  dispatch-Fair quorum_drain e s q h =
      moved-Holds _ quorum_drain _ s.qs ((drain_qs e s).0 ∙ q) (drain_qs e s).1 h
  dispatch-Fair cancel_drain e s q h =
      let s' = handle_cancel_drain clock sr e s in
      moved-Holds s'.phase cancel_drain s'.qs s'.qs ((drain_qs e s).2 ∙ q) refl tt
  dispatch-Fair (finished r) e s q h = rw q h

  step-Fair : (s : Run R S) (e : Event R S) → Fair sr s → Fair sr (step clock sr s e)
  unfolding step
  step-Fair s e h =
      let s' = dispatch clock sr s.phase e s in
      settle-Fair s'.phase s' (dispatch-Fair s.phase e s refl h) refl

  run_events-Fair :
      (s : Run R S) (es : List (Event R S)) → Fair sr s → Fair sr (run_events clock sr s es)
  unfolding run_events
  run_events-Fair s [] h = h
  run_events-Fair s (e ∷ es) h = run_events-Fair (step clock sr s e) es (step-Fair s e h)

module _ {R S : Type 0} (clock : ℕ → ℕ) (sr : Needs) where
  batch_phase : (n : ℕ) (is : List ℕ) (s : Run R S) → (launch_batch clock sr n is s).phase ≡ s.phase
  unfolding launch_batch launch
  batch_phase n [] s = refl
  batch_phase n (i ∷ is) s =
      ground (arith, batch_phase n is s, batch_phase n is (launch clock sr i s))

  ensured_phase :
      (n : ℕ) (t : LogType) (s : Run R S) → (ensure_log_type clock sr n t s).phase ≡ s.phase
  unfolding ensure_log_type
  ensured_phase n t s = ground (
    arith,
    found-qs clock sr
        (find_eligible (λ (sm : StrategyMember). is_type sm.log_type t) s.strategy s.eligible) s,
  )

  pub started_phase : (s : Run R S) → (start_batch clock sr s).phase ≡ s.phase
  unfolding start_batch
  started_phase s =
      let n = if ltb (length s.eligible) sr.scts then length s.eligible else sr.scts in
      let s₁ = if sr.require_rfc6962 then ensure_log_type clock sr n rfc6962 s else s in
      let s₂ = if sr.prefer_static then ensure_log_type clock sr n static s₁ else s₁ in
      let q : s₁.phase ≡ s.phase = ground (arith, ensured_phase n rfc6962 s) in
      let p : s₂.phase ≡ s₁.phase = ground (arith, ensured_phase n static s₁) in
      batch_phase n s.eligible s₂ ∙ (p ∙ q)

  begun-Fair :
      (s : Run R S) (l : List ℕ)
      → s.phase ≡ running
      → Fair sr (elim l [
        | [] ↦ record s { phase = finished no_eligible }
        | _ ∷ _ ↦ settle clock sr running (start_batch clock sr s)
      ])
  begun-Fair s [] e = tt
  begun-Fair s (i ∷ is) e =
      settle-Fair clock sr running (start_batch clock sr s) tt (started_phase s ∙ e)

module _ (R S : Type 0) (clock : ℕ → ℕ) (sr : Needs) where
  abbrev pub final : List StrategyMember → List (Event R S) → Run R S
  final strategy es = run_events clock sr (start clock sr strategy) es

  start-Fair : (strategy : List StrategyMember) → Fair sr (start {R = R} {S = S} clock sr strategy)
  unfolding start ready
  start-Fair strategy =
      let s = ready {R = R} {S = S} clock sr strategy in begun-Fair clock sr s s.eligible refl

  final-Justified :
      (strategy : List StrategyMember) (es : List (Event R S)) (r : Result R S)
      → (final strategy es).phase ≡ finished r
      → Justified sr r (final strategy es).qs
  final-Justified strategy es r e =
      let s = final strategy es in
      subst (λ p. Holds sr p s.qs) e
        (run_events-Fair clock sr (start clock sr strategy) es (start-Fair strategy))

  -- A run that returns SCTs has collected a quorum, and returns what trimToQuorum leaves of it.
  submit_success :
      (strategy : List StrategyMember) (es : List (Event R S)) (rs : List R) (ss : List S)
      → (final strategy es).phase ≡ finished (ok rs ss)
      → Trims sr rs ss
  submit_success strategy es rs ss = final-Justified strategy es (ok rs ss)

  -- A run that reports that the quorum was not achieved has not met it, and the reasons are those of
  -- the state that it ends in.
  submit_failure :
      (strategy : List StrategyMember) (es : List (Event R S)) (reasons : List Reason)
      → (final strategy es).phase ≡ finished (quorum_not_achieved reasons)
      → (reasons ≡ quorum_failure_reason (final strategy es).qs sr)
        × (is_quorum_met (final strategy es).qs sr ≡ false)
  submit_failure strategy es reasons = final-Justified strategy es (quorum_not_achieved reasons)
