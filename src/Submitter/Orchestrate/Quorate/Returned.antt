-- ===== src/Submitter/Orchestrate/Quorate/Returned.antt =====
-- Whole runs: the SCTs that submit returns meet the request.
use ctsubmit.Prelude.{
  All, ℕ, ◌≡◌, refl, ◌∙◌, String, Bool, true, false, not, List, [], ◌∷◌, some, arith, ltb, leb,
  if◌then◌else◌, Bool-cases, inl, inr, length, string_eq, nat_eq,
}
use ctsubmit.Submitter.Types.{LogType, rfc6962, static, is_type, StrategyMember, member_at, Needs}
use ctsubmit.Submitter.Orchestrate.{
  Event, success, failure, try_next, slow, cancelled, Phase, running, quorum_drain, cancel_drain,
  finished, Run, dispatch, handle_quorum_drain, handle_cancel_drain, launch_found, launch,
  launch_batch, ensure_log_type, find_eligible, drain_one, note_outcome, step, run_events,
  start_batch,
}
use ctsubmit.Submitter.Orchestrate.Answered.{Allows}
use ctsubmit.Submitter.Orchestrate.Kinds.{timed_kinds, noted_kinds}
use ctsubmit.Submitter.Orchestrate.Quorate.{
  Sound, Backed, Quorate, moved-Sound, settle-Quorate, found-Sound, handle_running-Quorate,
}

module _ {R S : Type 0} (P : ℕ → R → S → Type 0) (ks : List (String × LogType)) (clock : ℕ → ℕ)
    (sr : Needs) where
  noted-Sound :
      (i : ℕ) (o : String) (s : Run R S)
      → Sound P ks sr s.qs s.strategy
      → Sound P ks sr (note_outcome clock sr i o s).qs (note_outcome clock sr i o s).strategy
  unfolding note_outcome
  noted-Sound i o s h = elim (Bool-cases (string_eq.beq (member_at s.strategy i).outcome "")) [
    | inl blank ↦
        rw blank (moved-Sound P ks clock sr s.qs s.strategy _ (noted_kinds i o s.strategy) h)
    | inr told ↦ rw told h
  ]

  drain_one-Sound :
      (i d : ℕ) (s : Run R S)
      → Sound P ks sr s.qs s.strategy
      → Sound P ks sr (drain_one clock sr i d s).qs (drain_one clock sr i d s).strategy
  unfolding drain_one
  drain_one-Sound i d s h =
      moved-Sound P ks clock sr s.qs s.strategy _ (timed_kinds i d s.strategy) h

  quorum_drain-Sound :
      (e : Event R S) (s : Run R S)
      → Sound P ks sr s.qs s.strategy
      → let s' = handle_quorum_drain clock sr e s in Sound P ks sr s'.qs s'.strategy
  unfolding handle_quorum_drain
  quorum_drain-Sound (success i response sct outcome d) s h = drain_one-Sound i d s h
  quorum_drain-Sound (failure i outcome d) s h = drain_one-Sound i d s h
  quorum_drain-Sound (try_next i) s h = h
  quorum_drain-Sound (slow i) s h = h
  quorum_drain-Sound cancelled s h = h

  cancel_drain-Sound :
      (e : Event R S) (s : Run R S)
      → Sound P ks sr s.qs s.strategy
      → let s' = handle_cancel_drain clock sr e s in Sound P ks sr s'.qs s'.strategy
  unfolding handle_cancel_drain
  cancel_drain-Sound (success i response sct outcome d) s h =
      noted-Sound i outcome _ (drain_one-Sound i d s h)
  cancel_drain-Sound (failure i outcome d) s h = noted-Sound i outcome _ (drain_one-Sound i d s h)
  cancel_drain-Sound (try_next i) s h = h
  cancel_drain-Sound (slow i) s h = h
  cancel_drain-Sound cancelled s h = h

  drain_kept :
      (e : Event R S) (s : Run R S)
      → ((handle_quorum_drain clock sr e s).phase ≡ s.phase)
        × ((handle_quorum_drain clock sr e s).qs ≡ s.qs)
        × ((handle_cancel_drain clock sr e s).phase ≡ s.phase)
  unfolding handle_quorum_drain handle_cancel_drain note_outcome drain_one
  drain_kept (success i response sct outcome d) s = ground arith
  drain_kept (failure i outcome d) s = ground arith
  drain_kept (try_next i) s = (refl, refl, refl)
  drain_kept (slow i) s = (refl, refl, refl)
  drain_kept cancelled s = (refl, refl, refl)

  dispatch-Quorate :
      (p : Phase R S) (e : Event R S) (s : Run R S)
      → Allows P e
      → s.phase ≡ p
      → Backed P ks sr p s.qs s.strategy
      → Quorate P ks sr (dispatch clock sr p e s)
  unfolding dispatch
  dispatch-Quorate running e s holds q h = handle_running-Quorate P ks clock sr e s holds q h
  dispatch-Quorate quorum_drain e s holds q h =
      rw ((drain_kept e s).0 ∙ q) (rw (drain_kept e s).1 h.0, quorum_drain-Sound e s h.1)
  dispatch-Quorate cancel_drain e s holds q h =
      rw ((drain_kept e s).2 ∙ q) (cancel_drain-Sound e s h)
  dispatch-Quorate (finished r) e s holds q h = rw q h

  step-Quorate :
      (s : Run R S) (e : Event R S)
      → Allows P e
      → Quorate P ks sr s
      → Quorate P ks sr (step clock sr s e)
  unfolding step
  step-Quorate s e holds h =
      let s' = dispatch clock sr s.phase e s in
      settle-Quorate P ks clock sr s'.phase s' refl (dispatch-Quorate s.phase e s holds refl h)

  pub run_events-Quorate :
      (s : Run R S) (es : List (Event R S))
      → All (Allows P) es
      → Quorate P ks sr s
      → Quorate P ks sr (run_events clock sr s es)
  unfolding run_events
  run_events-Quorate s [] a h = h
  run_events-Quorate s (e ∷ es) a h =
      run_events-Quorate (step clock sr s e) es a.1 (step-Quorate s e a.0 h)

  batch-Sound :
      (n : ℕ) (is : List ℕ) (s : Run R S)
      → Sound P ks sr s.qs s.strategy
      → let s' = launch_batch clock sr n is s in Sound P ks sr s'.qs s'.strategy
  unfolding launch_batch
  batch-Sound n [] s h = h
  batch-Sound n (i ∷ is) s h = elim (Bool-cases (not (ltb s.launch_seq n))) [
    | inl full ↦ rw full h
    | inr room ↦ elim (Bool-cases (not (nat_eq.beq (member_at s.strategy i).began_after 0))) [
      | inl begun ↦ rw (room, begun) (batch-Sound n is s h)
      | inr fresh ↦
          rw (room, fresh)
            (batch-Sound n is (launch clock sr i s)
              (unfold launch_found in found-Sound P ks clock sr (some i) s h))
    ]
  ]

  ensured-Sound :
      (n : ℕ) (t : LogType) (s : Run R S)
      → Sound P ks sr s.qs s.strategy
      → let s' = ensure_log_type clock sr n t s in Sound P ks sr s'.qs s'.strategy
  unfolding ensure_log_type
  ensured-Sound n t s h = elim (Bool-cases (leb n s.launch_seq)) [
    | inl full ↦ rw full h
    | inr room ↦ rw room (
        found-Sound P ks clock sr
          (find_eligible (λ (sm : StrategyMember). is_type sm.log_type t) s.strategy s.eligible) s
          h)
  ]

  if-Sound :
      (b : Bool) (s' s : Run R S)
      → Sound P ks sr s'.qs s'.strategy
      → Sound P ks sr s.qs s.strategy
      → let s₁ = if b then s' else s in Sound P ks sr s₁.qs s₁.strategy
  if-Sound true s' s h' h = h'
  if-Sound false s' s h' h = h

  pub started-Sound :
      (s : Run R S)
      → Sound P ks sr s.qs s.strategy
      → let s' = start_batch clock sr s in Sound P ks sr s'.qs s'.strategy
  unfolding start_batch
  started-Sound s h =
      let n = if ltb (length s.eligible) sr.scts then length s.eligible else sr.scts in
      let s₁ = if sr.require_rfc6962 then ensure_log_type clock sr n rfc6962 s else s in
      let s₂ = if sr.prefer_static then ensure_log_type clock sr n static s₁ else s₁ in
      let h₁ = if-Sound sr.require_rfc6962 _ s (ensured-Sound n rfc6962 s h) h in
      batch-Sound n s.eligible s₂ (if-Sound sr.prefer_static _ s₁ (ensured-Sound n static s₁ h₁) h₁)
