-- ===== src/Submitter/Orchestrate/Progress.antt =====
-- submit returns when the last of its goroutines has reported, and not before.
use ctsubmit.Prelude.{
  ℕ, suc, ◌≡◌, refl, sym, ◌∙◌, ap, inl, inr, String, Bool, true, false, not, List, [], ◌∷◌, Option,
  none, some, length, contains, remove_one, nat_eq, ltb, leb, if◌then◌else◌, Bool-cases, arith,
}
use ctsubmit.Submitter.Types.{LogType, rfc6962, static, is_type, StrategyMember, member_at, Needs}
use ctsubmit.Submitter.CompatibleLogs.{is_empty}
use ctsubmit.Submitter.Orchestrate.Outcome.{started_phase}
use ctsubmit.Submitter.Orchestrate.{
  no_eligible, Event, success, failure, try_next, slow, cancelled, Phase, running, quorum_drain,
  cancel_drain, finished, Run, settle, step, start, ready, return_with, return_trimmed, dispatch,
  run_events, launch, launch_found, launch_batch, ensure_log_type, find_eligible, start_batch,
  start_next_eligible, replace_if_idle, next_eligible, land, accept, start_drain, handle_running,
  handle_quorum_drain, handle_cancel_drain, drain_one, note_outcome,
}

module _ {R S : Type 0} where
  abbrev pub is_finished : Phase R S → Bool
  is_finished (finished r) = true
  is_finished _ = false

  -- A goroutine's last event comes from one that is live.
  abbrev pub Comes : Event R S → List ℕ → Type 0
  Comes (success i r s outcome d) live = contains live i ≡ true
  Comes (failure i outcome d) live = contains live i ≡ true
  Comes _ live = Unit

  abbrev Counted : Run R S → Type 0
  Counted s = s.in_flight ≡ length s.live

  -- The count of the goroutines is right, and the run is over if there is none.
  abbrev Settled : Run R S → Type 0
  Settled s = Counted s × (is_finished s.phase ≡ is_empty s.live)

length-remove_one :
    (i : ℕ) (is : List ℕ) → contains is i ≡ true → length is ≡ suc (length (remove_one i is))
unfolding contains remove_one
length-remove_one i [] h = cc
length-remove_one i (j ∷ is) h = elim (Bool-cases (nat_eq.beq j i)) [
  | inl here ↦ rw here refl
  | inr there ↦ rw there (ap suc (length-remove_one i is (ground arith)))
]

empty_eq : (is : List ℕ) → is_empty is ≡ true → is ≡ []
empty_eq [] h = refl
empty_eq (i ∷ is) h = cc

length-is_empty : (is : List ℕ) → is_empty is ≡ not (ltb 0 (length is))
length-is_empty [] = refl
length-is_empty (i ∷ is) = ground arith

module _ {R S : Type 0} (clock : ℕ → ℕ) (sr : Needs) where
  found-Counted : (o : Option ℕ) (s : Run R S) → Counted s → Counted (launch_found clock sr o s)
  unfolding launch_found launch
  found-Counted none s h = h
  found-Counted (some i) s h = omega (arith, h)

  batch-Counted :
      (n : ℕ) (is : List ℕ) (s : Run R S) → Counted s → Counted (launch_batch clock sr n is s)
  unfolding launch_batch
  batch-Counted n [] s h = h
  batch-Counted n (i ∷ is) s h = elim (Bool-cases (not (ltb s.launch_seq n))) [
    | inl full ↦ rw full h
    | inr room ↦ elim (Bool-cases (not (nat_eq.beq (member_at s.strategy i).began_after 0))) [
      | inl begun ↦ rw (room, begun) (batch-Counted n is s h)
      | inr fresh ↦
          rw (room, fresh)
            (batch-Counted n is (launch clock sr i s)
              (unfold launch_found in found-Counted (some i) s h))
    ]
  ]

  if-Counted : (b : Bool) (s' s : Run R S) → Counted s' → Counted s → Counted (if b then s' else s)
  if-Counted true s' s h' h = h'
  if-Counted false s' s h' h = h

  ensured-Counted :
      (n : ℕ) (t : LogType) (s : Run R S) → Counted s → Counted (ensure_log_type clock sr n t s)
  unfolding ensure_log_type
  ensured-Counted n t s h = if-Counted (leb n s.launch_seq) s _ h (
      found-Counted
        (find_eligible (λ (sm : StrategyMember). is_type sm.log_type t) s.strategy s.eligible) s h)

  started-Counted : (s : Run R S) → Counted s → Counted (start_batch clock sr s)
  unfolding start_batch
  started-Counted s h =
      let n = if ltb (length s.eligible) sr.scts then length s.eligible else sr.scts in
      let s₁ = if sr.require_rfc6962 then ensure_log_type clock sr n rfc6962 s else s in
      let s₂ = if sr.prefer_static then ensure_log_type clock sr n static s₁ else s₁ in
      let h₁ = if-Counted sr.require_rfc6962 _ s (ensured-Counted n rfc6962 s h) h in
      batch-Counted n s.eligible s₂
        (if-Counted sr.prefer_static _ s₁ (ensured-Counted n static s₁ h₁) h₁)

  replaced-Counted : (s : Run R S) → Counted s → Counted (replace_if_idle clock sr s)
  unfolding replace_if_idle start_next_eligible
  replaced-Counted s h =
      if-Counted (nat_eq.beq s.in_flight 0) _ s (found-Counted (next_eligible clock sr s) s h) h

  land-Counted :
      (i : ℕ) (s : Run R S) → contains s.live i ≡ true → Counted s → Counted (land clock sr i s)
  unfolding land
  land-Counted i s live h = omega (arith, h, length-remove_one i s.live live)

  accept_kept :
      (i : ℕ) (r : R) (sct : S) (outcome : String) (d : ℕ) (s : Run R S)
      → let s' = accept clock sr i r sct outcome d s in
        (s'.in_flight ≡ s.in_flight) × (s'.live ≡ s.live) × (s'.phase ≡ s.phase)
  unfolding accept
  accept_kept i r sct outcome d s = ground arith

  running-Counted :
      (e : Event R S) (s : Run R S)
      → Comes e s.live
      → Counted s
      → Counted (handle_running clock sr e s)
  unfolding handle_running start_drain start_next_eligible
  running-Counted (success i r sct outcome d) s live h =
      let s' = accept clock sr i r sct outcome d (land clock sr i s) in
      let kept = accept_kept i r sct outcome d (land clock sr i s) in
      let h' : Counted s' = kept.0 ∙ (land-Counted i s live h ∙ ap length (sym kept.1)) in
      if-Counted _ _ _ h' (replaced-Counted s' h')
  running-Counted (failure i outcome d) s live h = replaced-Counted _ (land-Counted i s live h)
  running-Counted (try_next i) s live h = found-Counted _ _ h
  running-Counted (slow i) s live h = h
  running-Counted cancelled s live h = h

  drained-Counted :
      (i d : ℕ) (s : Run R S)
      → contains s.live i ≡ true
      → Counted s
      → Counted (drain_one clock sr i d s)
  unfolding drain_one
  drained-Counted i d s live h = omega (arith, h, length-remove_one i s.live live)

  noted-Counted :
      (i : ℕ) (o : String) (s : Run R S) → Counted s → Counted (note_outcome clock sr i o s)
  unfolding note_outcome
  noted-Counted i o s h = if-Counted _ _ s h h

  dispatch-Counted :
      (p : Phase R S) (e : Event R S) (s : Run R S)
      → Comes e s.live
      → Counted s
      → Counted (dispatch clock sr p e s)
  unfolding dispatch handle_quorum_drain handle_cancel_drain
  dispatch-Counted running e s live h = running-Counted e s live h
  dispatch-Counted quorum_drain (success i r sct outcome d) s live h = drained-Counted i d s live h
  dispatch-Counted quorum_drain (failure i outcome d) s live h = drained-Counted i d s live h
  dispatch-Counted quorum_drain (try_next i) s live h = h
  dispatch-Counted quorum_drain (slow i) s live h = h
  dispatch-Counted quorum_drain cancelled s live h = h
  dispatch-Counted cancel_drain (success i r sct outcome d) s live h =
      noted-Counted i outcome _ (drained-Counted i d s live h)
  dispatch-Counted cancel_drain (failure i outcome d) s live h =
      noted-Counted i outcome _ (drained-Counted i d s live h)
  dispatch-Counted cancel_drain (try_next i) s live h = h
  dispatch-Counted cancel_drain (slow i) s live h = h
  dispatch-Counted cancel_drain cancelled s live h = h
  dispatch-Counted (finished r) e s live h = h

  -- What settle makes of a run that is not over, or that is over with no goroutine left.
  settle-Settled :
      (p : Phase R S) (s : Run R S)
      → s.phase ≡ p
      → (is_finished p ≡ true → s.live ≡ [])
      → Counted s
      → Settled (settle clock sr p s)
  unfolding settle return_trimmed return_with
  settle-Settled running s e over h = ground (arith, length-is_empty s.live)
  settle-Settled quorum_drain s e over h = ground (arith, length-is_empty s.live)
  settle-Settled cancel_drain s e over h = ground (arith, length-is_empty s.live)
  settle-Settled (finished r) s e over h = (h, rw (e, over refl) refl)

  found_phase : (o : Option ℕ) (s : Run R S) → (launch_found clock sr o s).phase ≡ s.phase
  unfolding launch_found launch
  found_phase none s = refl
  found_phase (some i) s = refl

  replaced_phase : (s : Run R S) → (replace_if_idle clock sr s).phase ≡ s.phase
  unfolding replace_if_idle start_next_eligible
  replaced_phase s = ground (arith, found_phase (next_eligible clock sr s) s)

  running_phase :
      (e : Event R S) (s : Run R S)
      → s.phase ≡ running
      → is_finished (handle_running clock sr e s).phase ≡ false
  unfolding handle_running start_drain start_next_eligible land
  running_phase (success i r sct outcome d) s h =
      let s' = accept clock sr i r sct outcome d (land clock sr i s) in
      let kept = accept_kept i r sct outcome d (land clock sr i s) in
      ground (arith, kept.2, replaced_phase s')
  running_phase (failure i outcome d) s h = ap is_finished (replaced_phase _ ∙ h)
  running_phase (try_next i) s h = ap is_finished (found_phase _ _ ∙ h)
  running_phase (slow i) s h = ap is_finished h
  running_phase cancelled s h = refl

  drain_phase :
      (e : Event R S) (s : Run R S)
      → ((handle_quorum_drain clock sr e s).phase ≡ s.phase)
        × ((handle_cancel_drain clock sr e s).phase ≡ s.phase)
  unfolding handle_quorum_drain handle_cancel_drain note_outcome drain_one
  drain_phase (success i r sct outcome d) s = ground arith
  drain_phase (failure i outcome d) s = ground arith
  drain_phase (try_next i) s = (refl, refl)
  drain_phase (slow i) s = (refl, refl)
  drain_phase cancelled s = (refl, refl)

  dispatch_over :
      (p : Phase R S) (e : Event R S) (s : Run R S)
      → s.phase ≡ p
      → is_finished s.phase ≡ is_empty s.live
      → is_finished (dispatch clock sr p e s).phase ≡ true
      → (dispatch clock sr p e s).live ≡ []
  unfolding dispatch
  dispatch_over running e s q h over = cc (running_phase e s q, over)
  dispatch_over quorum_drain e s q h over = cc (ap is_finished ((drain_phase e s).0 ∙ q), over)
  dispatch_over cancel_drain e s q h over = cc (ap is_finished ((drain_phase e s).1 ∙ q), over)
  dispatch_over (finished r) e s q h over = empty_eq s.live (sym h ∙ over)

  step-Settled :
      (s : Run R S) (e : Event R S) → Comes e s.live → Settled s → Settled (step clock sr s e)
  unfolding step
  step-Settled s e live (h, over) =
      let s' = dispatch clock sr s.phase e s in
      settle-Settled s'.phase s' refl (dispatch_over s.phase e s refl over)
        (dispatch-Counted s.phase e s live h)

  -- Every last event comes from a goroutine that is live then.
  abbrev pub Genuine : Run R S → List (Event R S) → Type 0
  Genuine s [] = Unit
  Genuine s (e ∷ es) = Comes e s.live × Genuine (step clock sr s e) es

  run_events-Settled :
      (s : Run R S) (es : List (Event R S))
      → Genuine s es
      → Settled s
      → Settled (run_events clock sr s es)
  unfolding run_events
  run_events-Settled s [] g h = h
  run_events-Settled s (e ∷ es) g h =
      run_events-Settled (step clock sr s e) es g.1 (step-Settled s e g.0 h)

module _ (R S : Type 0) (clock : ℕ → ℕ) (sr : Needs) where
  begun-Settled :
      (s : Run R S) (l : List ℕ)
      → s.live ≡ []
      → s.in_flight ≡ 0
      → s.phase ≡ running
      → Settled (elim l [
        | [] ↦ record s { phase = finished no_eligible }
        | _ ∷ _ ↦ settle clock sr running (start_batch clock sr s)
      ])
  begun-Settled s [] none_live none_flying e = rw (none_live, none_flying) (refl, refl)
  begun-Settled s (i ∷ is) none_live none_flying e =
      settle-Settled clock sr running (start_batch clock sr s) (started_phase clock sr s ∙ e)
        (λ f. cc f) (started-Counted clock sr s (rw (none_live, none_flying) refl))

  start-Settled :
      (strategy : List StrategyMember) → Settled (start {R = R} {S = S} clock sr strategy)
  unfolding start ready
  start-Settled strategy =
      let s = ready {R = R} {S = S} clock sr strategy in begun-Settled s s.eligible refl refl refl

  -- After the start and any events, in which every last event is that of a live goroutine, the
  -- count of the submissions in flight is that of the live goroutines, and submit has returned exactly if
  -- there is none: it never waits for an event that cannot come and leaves no goroutine behind.
  pub run_events_progress :
      (strategy : List StrategyMember) (es : List (Event R S))
      → Genuine clock sr (start clock sr strategy) es
      → let s = run_events clock sr (start clock sr strategy) es in
        (s.in_flight ≡ length s.live) × (is_finished s.phase ≡ is_empty s.live)
  run_events_progress strategy es genuine =
      run_events-Settled clock sr (start clock sr strategy) es genuine (start-Settled strategy)
