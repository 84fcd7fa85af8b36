-- ===== src/Submitter/Orchestrate/Launched.antt =====
-- Which logs the coordinator contacts.
use ctsubmit.Prelude.{
  ℕ, zero, suc, ◌+◌, ◌≤◌, ◌≡◌, refl, ◌∙◌, sym, subst, Bool, true, false, not, ◌&&◌, ◌||◌, List, [],
  ◌∷◌, Option, none, some, arith, All, contains, ◌==◌, nat_eq, ==_refl, ltb, leb, String,
  if◌then◌else◌, length, Bool-cases, inl, inr,
}
use ctsubmit.Submitter.Types.{
  is_excluded, is_type, LogType, rfc6962, static, StrategyMember, member_at, Needs,
}
use ctsubmit.Submitter.Quorum.{is_quorum_met, would_help}
use ctsubmit.Submitter.Orchestrate.{
  type_uncovered, Event, success, failure, try_next, slow, cancelled, Phase, running, quorum_drain,
  cancel_drain, finished, Run, eligible_from, find_eligible, launch, launch_found, ensure_log_type,
  launch_batch, next_eligible, start_next_eligible, settle, return_with, return_trimmed, land,
  accept, start_drain, replace_if_idle, handle_running, drain_one, note_outcome,
  handle_quorum_drain, handle_cancel_drain, dispatch, step, ready, start_batch, start, run_events,
  no_eligible,
}

-- Every index of the first list stands in the second.
abbrev pub AllIn : List ℕ → List ℕ → Type 0
AllIn is js = All (λ i. contains js i ≡ true) is

abbrev Found : List ℕ → Option ℕ → Type 0
Found is none = Unit
Found is (some i) = contains is i ≡ true

find_eligible-Found :
    (p : StrategyMember → Bool) (strategy : List StrategyMember) (is js : List ℕ)
    → AllIn is js
    → Found js (find_eligible p strategy is)
unfolding find_eligible
find_eligible-Found p strategy [] js a = tt
find_eligible-Found p strategy (i ∷ is) js a =
    elim (Bool-cases (not ((member_at strategy i).began_after == 0))) [
      | inl attempted ↦ rw attempted (find_eligible-Found p strategy is js a.1)
      | inr fresh ↦ elim (Bool-cases (p (member_at strategy i))) [
        | inl fits ↦ rw (fresh, fits) a.0
        | inr misses ↦ rw (fresh, misses) (find_eligible-Found p strategy is js a.1)
      ]
    ]

or-Found :
    (is : List ℕ) (o o' : Option ℕ)
    → Found is o
    → Found is o'
    → Found is (elim o [ some i ↦ some i | none ↦ o' ])
or-Found is none o' f g = g
or-Found is (some i) o' f g = f

if-Found : (is : List ℕ) (b : Bool) (o : Option ℕ) → Found is o → Found is (if b then o else none)
if-Found is true o f = f
if-Found is false o f = tt

module _ {R S : Type 0} where
  -- The logs that were contacted, and those that may be.
  abbrev pub Within : List ℕ → Run R S → Type 0
  Within is s = (s.eligible ≡ is) × AllIn s.launched is

module _ {R S : Type 0} (clock : ℕ → ℕ) (sr : Needs) (is : List ℕ) (self : AllIn is is) where
  Found-Within :
      (o : Option ℕ) (s : Run R S)
      → Found is o
      → Within is s
      → Within is (launch_found clock sr o s)
  unfolding launch_found launch
  Found-Within none s f w = w
  Found-Within (some i) s f w = (w.0, (f, w.1))

  batch-Within :
      (n : ℕ) (js : List ℕ) (s : Run R S)
      → AllIn js is
      → Within is s
      → Within is (launch_batch clock sr n js s)
  unfolding launch_batch launch
  batch-Within n [] s a w = w
  batch-Within n (j ∷ js) s a w = elim (Bool-cases (not (ltb s.launch_seq n))) [
    | inl full ↦ rw full w
    | inr free ↦ elim (Bool-cases (not ((member_at s.strategy j).began_after == 0))) [
      | inl attempted ↦ rw (free, attempted) (batch-Within n js s a.1 w)
      | inr fresh ↦ rw (free, fresh) (batch-Within n js (launch clock sr j s) a.1 (w.0, (a.0, w.1)))
    ]
  ]

  find-Within :
      (p : StrategyMember → Bool) (s : Run R S)
      → Within is s
      → Found is (find_eligible p s.strategy s.eligible)
  find-Within p s w = find_eligible-Found p s.strategy s.eligible is (rw w.0 self)

  next-Found : (s : Run R S) → Within is s → Found is (next_eligible clock sr s)
  unfolding next_eligible
  next-Found s w =
      let need_rfc6962 =
        type_uncovered clock sr rfc6962 (sr.require_rfc6962 && not s.qs.has_rfc6962_sct) s in
      let need_static =
        type_uncovered clock sr static (sr.prefer_static && not s.qs.has_static_sct) s in
      let helps = λ (sm : StrategyMember). would_help s.qs sr sm s.strategy s.in_flight_indices in
      let preferred = λ (sm : StrategyMember).
        (need_rfc6962 && is_type sm.log_type rfc6962 || need_static && is_type sm.log_type static)
        && helps sm in
      or-Found is _ _ (if-Found is _ _ (find-Within preferred s w)) (find-Within helps s w)

  moved-Within :
      (s t : Run R S)
      → t.eligible ≡ s.eligible
      → t.launched ≡ s.launched
      → Within is s
      → Within is t
  moved-Within s t e f w = (e ∙ w.0, subst (λ l. AllIn l is) (sym f) w.1)

  started-Within : (s : Run R S) → Within is s → Within is (start_next_eligible clock sr s)
  unfolding start_next_eligible
  started-Within s w = Found-Within (next_eligible clock sr s) s (next-Found s w) w

  replaced-Within : (s : Run R S) → Within is s → Within is (replace_if_idle clock sr s)
  unfolding replace_if_idle
  replaced-Within s w = elim (Bool-cases (s.in_flight == 0)) [
    | inl idle ↦ rw idle (started-Within s w)
    | inr busy ↦ rw busy w
  ]

  accepted :
      (i : ℕ) (r : R) (sct : S) (o : String) (d : ℕ) (s : Run R S)
      → ((accept clock sr i r sct o d s).eligible ≡ s.eligible)
        × ((accept clock sr i r sct o d s).launched ≡ s.launched)
  unfolding accept
  accepted i r sct o d s = ground arith

  handle_running-Within :
      (e : Event R S) (s : Run R S) → Within is s → Within is (handle_running clock sr e s)
  unfolding handle_running
  handle_running-Within (success i r sct o d) s w =
      let s₀ = land clock sr i s in
      let s₁ = accept clock sr i r sct o d s₀ in
      let w₁ : Within is s₁ =
        moved-Within s₀ s₁ (accepted i r sct o d s₀).0 (accepted i r sct o d s₀).1
          (unfold land in w) in
      elim (Bool-cases (is_quorum_met s₁.qs sr)) [
        | inl met ↦ rw met (unfold start_drain in w₁)
        | inr unmet ↦ rw unmet (replaced-Within s₁ w₁)
      ]
  handle_running-Within (failure i o d) s w = replaced-Within _ (unfold land in w)
  handle_running-Within (try_next i) s w = started-Within _ w
  handle_running-Within (slow i) s w = w
  handle_running-Within cancelled s w = w

  drained :
      (e : Event R S) (s : Run R S)
      → ((handle_quorum_drain clock sr e s).eligible ≡ s.eligible)
        × ((handle_quorum_drain clock sr e s).launched ≡ s.launched)
        × ((handle_cancel_drain clock sr e s).eligible ≡ s.eligible)
        × ((handle_cancel_drain clock sr e s).launched ≡ s.launched)
  unfolding handle_quorum_drain handle_cancel_drain note_outcome drain_one
  drained (success i r sct o d) s = ground arith
  drained (failure i o d) s = ground arith
  drained (try_next i) s = (refl, refl, refl, refl)
  drained (slow i) s = (refl, refl, refl, refl)
  drained cancelled s = (refl, refl, refl, refl)

  dispatch-Within :
      (p : Phase R S) (e : Event R S) (s : Run R S)
      → Within is s
      → Within is (dispatch clock sr p e s)
  unfolding dispatch
  dispatch-Within running e s w = handle_running-Within e s w
  dispatch-Within quorum_drain e s w =
      moved-Within s (handle_quorum_drain clock sr e s) (drained e s).0 (drained e s).1 w
  dispatch-Within cancel_drain e s w =
      moved-Within s (handle_cancel_drain clock sr e s) (drained e s).2 (drained e s).3 w
  dispatch-Within (finished r) e s w = w

  settled :
      (p : Phase R S) (s : Run R S)
      → ((settle clock sr p s).eligible ≡ s.eligible)
        × ((settle clock sr p s).launched ≡ s.launched)
  unfolding settle return_trimmed return_with
  settled p s = ground arith

  settle-Within : (p : Phase R S) (s : Run R S) → Within is s → Within is (settle clock sr p s)
  settle-Within p s w = moved-Within s (settle clock sr p s) (settled p s).0 (settled p s).1 w

  run_events-Within :
      (s : Run R S) (es : List (Event R S)) → Within is s → Within is (run_events clock sr s es)
  unfolding run_events step
  run_events-Within s [] w = w
  run_events-Within s (e ∷ es) w =
      let s' = dispatch clock sr s.phase e s in
      run_events-Within (step clock sr s e) es
        (settle-Within s'.phase s' (dispatch-Within s.phase e s w))

  ensured-Within :
      (n : ℕ) (t : LogType) (s : Run R S) → Within is s → Within is (ensure_log_type clock sr n t s)
  unfolding ensure_log_type
  ensured-Within n t s w = elim (Bool-cases (leb n s.launch_seq)) [
    | inl full ↦ rw full w
    | inr free ↦ rw free (Found-Within _ s (find-Within _ s w) w)
  ]

  if-Within :
      (b : Bool) (s t : Run R S) → Within is s → Within is t → Within is (if b then s else t)
  if-Within true s t v w = v
  if-Within false s t v w = w

  start_batch-Within : (s : Run R S) → Within is s → Within is (start_batch clock sr s)
  unfolding start_batch
  start_batch-Within s w =
      let n = if ltb (length s.eligible) sr.scts then length s.eligible else sr.scts in
      let w₁ = if-Within sr.require_rfc6962 _ s (ensured-Within n rfc6962 s w) w in
      let s₁ = if sr.require_rfc6962 then ensure_log_type clock sr n rfc6962 s else s in
      let w₂ = if-Within sr.prefer_static _ s₁ (ensured-Within n static s₁ w₁) w₁ in
      batch-Within n s.eligible _ (rw w.0 self) w₂

  begun-Within :
      (s : Run R S) (l : List ℕ)
      → Within is s
      → Within is (elim l [
        | [] ↦ record s { phase = finished no_eligible }
        | _ ∷ _ ↦ settle clock sr running (start_batch clock sr s)
      ])
  begun-Within s [] w = w
  begun-Within s (i ∷ js) w =
      settle-Within running (start_batch clock sr s) (start_batch-Within s w)

eligible_from-bound :
    (i k : ℕ) (strategy : List StrategyMember)
    → contains (eligible_from i strategy) k ≡ true
    → i ≤ k
unfolding eligible_from contains
eligible_from-bound i k [] h = cc
eligible_from-bound i k (m ∷ ms) h = ground (arith, eligible_from-bound (i + 1) k ms)

-- An index that is kept is that of a member that is not excluded.
eligible_from-member :
    (i k : ℕ) (strategy : List StrategyMember)
    → contains (eligible_from i strategy) (i + k) ≡ true
    → is_excluded (member_at strategy k).bucket ≡ false
unfolding eligible_from contains
eligible_from-member i k [] h = cc
eligible_from-member i zero (m ∷ ms) h = ground (arith, eligible_from-bound (i + 1) (i + 0) ms)
eligible_from-member i (suc k) (m ∷ ms) h = ground (arith, eligible_from-member (i + 1) k ms)

All-map : {P Q : ℕ → Type 0} (xs : List ℕ) → ((x : ℕ) → P x → Q x) → All P xs → All Q xs
All-map [] f a = tt
All-map (x ∷ xs) f a = (f x a.0, All-map xs f a.1)

AllIn-self : (xs : List ℕ) → AllIn xs xs
unfolding contains
AllIn-self [] = tt
AllIn-self (x ∷ xs) = (
  ground (arith, ==_refl x),
  All-map {P = λ y. contains xs y ≡ true} {Q = λ y. contains (x ∷ xs) y ≡ true} xs
      (λ y h. ground arith) (AllIn-self xs),
)

eligible_member :
    (strategy : List StrategyMember) (k : ℕ)
    → contains (eligible_from 0 strategy) k ≡ true
    → is_excluded (member_at strategy k).bucket ≡ false
eligible_member strategy k h =
    let same : 0 + k ≡ k = omega arith in
    eligible_from-member 0 k strategy
      (subst (λ n. contains (eligible_from 0 strategy) n ≡ true) (sym same) h)

module _ (R S : Type 0) (clock : ℕ → ℕ) (sr : Needs) where
  abbrev pub launched_by : List StrategyMember → List (Event R S) → List ℕ
  launched_by strategy es =
      (run_events clock sr (start {R = R} {S = S} clock sr strategy) es).launched

  start-Within :
      (strategy : List StrategyMember)
      → Within (eligible_from 0 strategy) (start {R = R} {S = S} clock sr strategy)
  unfolding start ready
  start-Within strategy =
      let s = ready {R = R} {S = S} clock sr strategy in
      begun-Within clock sr (eligible_from 0 strategy) (AllIn-self (eligible_from 0 strategy)) s
        s.eligible (refl, tt)

  -- No excluded log is ever contacted, whatever the events.
  pub submit_contacts :
      (strategy : List StrategyMember) (es : List (Event R S))
      → All (λ i. is_excluded (member_at strategy i).bucket ≡ false) (launched_by strategy es)
  submit_contacts strategy es =
      All-map (launched_by strategy es) (eligible_member strategy)
        (run_events-Within clock sr (eligible_from 0 strategy)
          (AllIn-self (eligible_from 0 strategy)) (start clock sr strategy) es
          (start-Within strategy)).1
