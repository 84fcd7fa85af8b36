-- ===== src/Submitter/Quorum/Exact.antt =====
-- What trimToQuorum selects as a whole: the stage for a preferred static SCT, the filling up, and
-- their composition with the stages before.
use native.Mathlib.Nat.{le_trans}
use ctsubmit.Prelude.{
  ℕ, zero, suc, ◌+◌, ◌≤◌, ◌<◌, ◌≡◌, refl, ap, ◌∙◌, inl, inr, true, false, not, ◌&&◌, List, [], ◌∷◌,
  length, ltb, nat_eq, string_eq, arith, Bool-cases,
}
use ctsubmit.Prelude.Distinct.{distinct, distinct-Subset, distinct-le-length}
use ctsubmit.Submitter.Types.{rfc6962, static, is_type, Needs}
use ctsubmit.Submitter.Quorum.Trim.{
  Slot, Selection, diversify, has_selected, can_drop_safely, deselect, other_rfc6962, type_at,
  make_room, droppable_for_static, ensure_rfc6962, ensure_static, choose,
}
use ctsubmit.Submitter.Quorum.Select.{
  ops, all_ops, num, total, members, NoneSelected, length-ops, has_selected-num, diversify-members,
  diversify-distinct, select_first-num, select_first-num_other, fill-members, fill-Subset, fill-num,
  fill-length,
}
use ctsubmit.Submitter.Quorum.Drop.{selected_at, get-select_first, num-deselect}
use ctsubmit.Submitter.Quorum.Stages.{
  total_eq, length_eq, num_zero, Fits, AllDifferent, added, diversify-Fits, Outcome,
  make_room_outcome,
}
use ctsubmit.Submitter.Quorum.Swap.{
  added-count-le, outcome-Fits, outcome-members, outcome-num, RfcStage, ensure_rfc6962_stage,
}

-- The guard against dropping the only RFC 6962 entry.
other_rfc6962_past :
    (drop j : ℕ) (ss : List Slot) → drop < j → other_rfc6962 drop j ss ≡ ltb 0 (num rfc6962 ss)
unfolding other_rfc6962
other_rfc6962_past drop j [] h = refl
other_rfc6962_past drop j (s ∷ ss) h = ground (arith, other_rfc6962_past drop (j + 1) ss)

other_rfc6962_lem :
    (drop j i : ℕ) (ss : List Slot)
    → drop ≡ j + i
    → other_rfc6962 drop j ss ≡ ltb 0 (num rfc6962 (deselect i ss))
unfolding other_rfc6962
other_rfc6962_lem drop j i [] h = refl
other_rfc6962_lem drop j zero (s ∷ ss) h = ground (arith, other_rfc6962_past drop (j + 1) ss)
other_rfc6962_lem drop j (suc i) (s ∷ ss) h = ground (arith, other_rfc6962_lem drop (j + 1) i ss)

module _ (sr : Needs) (r : Selection) where
  pub record StaticStage (r' : Selection) : Type 0 where
    pub fits : Fits sr r'
    pub same_members : members r'.slots ≡ members r.slots
    pub keeps_rfc6962 :
        sr.require_rfc6962 ≡ true → 0 < num rfc6962 r.slots → 0 < num rfc6962 r'.slots
    pub has_static : sr.prefer_static ≡ true → 0 < total static r.slots → 0 < num static r'.slots

  spares_static :
      (ss : List Slot) (i : ℕ)
      → droppable_for_static sr ss i ≡ true
      → (is_type (type_at ss i) static ≡ false)
        × (can_drop_safely sr ss i ≡ true)
        × (sr.require_rfc6962 ≡ true → 0 < num rfc6962 (deselect i ss))
  unfolding droppable_for_static
  spares_static ss i h =
      (ground arith, ground arith, λ req. ground (arith, other_rfc6962_lem i 0 i ss (omega arith)))

  -- With room for two SCTs, or no RFC 6962 one required, some entry may go.
  lets_go_static :
      num static r.slots ≡ 0
      → (sr.require_rfc6962 ≡ true → 2 ≤ sr.scts)
      → Fits sr r
      → (i : ℕ) → sr.scts < (added static r).count
      → selected_at r.slots i ≡ true
      → can_drop_safely sr (added static r).slots i ≡ true
      → droppable_for_static sr (added static r).slots i ≡ true
  unfolding droppable_for_static
  lets_go_static none two f i full sel h = ground (
    arith,
    ap (λ (s : Slot). s.member.log_type) (get-select_first static r.count r.slots i sel),
    num_zero static r.slots i none sel,
    two,
    f,
    length-ops r.slots,
    added-count-le static r,
    select_first-num_other static r.count rfc6962 r.slots,
    num-deselect rfc6962 i (added static r).slots
        (ap (λ (s : Slot). s.selected) (get-select_first static r.count r.slots i sel) ∙ sel),
    other_rfc6962_lem i 0 i (added static r).slots (omega arith),
  )

  kept_rfc6962 :
      Outcome sr static (droppable_for_static sr) r
      → sr.require_rfc6962 ≡ true
      → 0 < num rfc6962 r.slots
      → 0 < num rfc6962 (make_room (droppable_for_static sr) sr.scts (added static r)).slots
  kept_rfc6962 (inl (same, le)) req h =
      rw same (omega (arith, select_first-num_other static r.count rfc6962 r.slots refl))
  kept_rfc6962 (inr (full, (k, lt, sel, goes, same))) req h =
      rw same ((spares_static (added static r).slots k goes).2 req)

  module _ (f : Fits sr r)
      (different : sr.prefer_static ≡ true → num static r.slots ≡ 0 → AllDifferent r)
      (some_selected : 0 < length (ops r.slots)) (le : sr.operators ≤ sr.scts)
      (two : sr.prefer_static ≡ true → sr.require_rfc6962 ≡ true → 2 ≤ sr.scts) where
    swapped_static :
        sr.prefer_static ≡ true
        → num static r.slots ≡ 0
        → StaticStage (make_room (droppable_for_static sr) sr.scts (added static r))
    swapped_static pref none = go (
        make_room_outcome sr static (droppable_for_static sr) r f (different pref none)
          some_selected le (lets_go_static none (two pref) f))
      where
        go :
            Outcome sr static (droppable_for_static sr) r
            → StaticStage (make_room (droppable_for_static sr) sr.scts (added static r))
        go o = record {
          fits =
              outcome-Fits sr static (droppable_for_static sr) r f
                (λ ss i h. (spares_static ss i h).1) o;
          same_members = outcome-members sr static (droppable_for_static sr) r o;
          keeps_rfc6962 = kept_rfc6962 o;
          has_static = λ _ some_static. omega (
            arith,
            outcome-num sr static (droppable_for_static sr) r (λ ss i h. (spares_static ss i h).0)
                o,
            select_first-num static r.count r.slots (omega arith),
          );
        }

    pub ensure_static_stage : StaticStage (ensure_static sr r)
    unfolding ensure_static
    ensure_static_stage =
        elim (Bool-cases (sr.prefer_static && not (has_selected static r.slots))) [
          | inr kept ↦ rw kept (record {
            fits = f;
            same_members = refl;
            keeps_rfc6962 = λ req h. h;
            has_static = λ pref some_static. ground (arith, has_selected-num static r.slots);
          })
          | inl missing ↦
              rw missing
                (swapped_static (ground arith) (ground (arith, has_selected-num static r.slots)))
        ]

-- The selection of trimToQuorum: exactly as many as asked for, of enough operators and of the
-- types asked for, unless a single SCT is to be of both types.
module _ (sr : Needs) (slots : List Slot) (fresh : NoneSelected slots)
    (more : sr.scts ≤ length slots) (one : 1 ≤ sr.operators) (le : sr.operators ≤ sr.scts)
    (diverse : sr.operators ≤ distinct (all_ops slots))
    (two : sr.prefer_static ≡ true → sr.require_rfc6962 ≡ true → 2 ≤ sr.scts) where
  first : Selection
  first = diversify sr.scts 0 [] slots

  second : Selection
  second = ensure_rfc6962 sr first

  third : Selection
  third = ensure_static sr second

  first-Fits : Fits sr first
  unfolding first
  first-Fits = diversify-Fits sr slots fresh le diverse

  first-AllDifferent : AllDifferent first
  unfolding first
  first-AllDifferent = diversify-distinct sr.scts 0 [] slots fresh

  Fits-nonempty : (r : Selection) → Fits sr r → 0 < length (ops r.slots)
  Fits-nonempty r f = omega (arith, f, distinct-le-length (ops r.slots))

  second_stage : RfcStage sr first second
  unfolding second
  second_stage =
      ensure_rfc6962_stage sr first first-Fits first-AllDifferent (Fits-nonempty first first-Fits)
        le

  second_different : sr.prefer_static ≡ true → num static second.slots ≡ 0 → AllDifferent second
  second_different pref none = elim (second_stage.static_lost none) [
    | inl same ↦ rw same first-AllDifferent
    | inr (req, single) ↦ absurd (omega (arith, two pref req))
  ]

  third_stage : StaticStage sr second third
  unfolding third
  third_stage =
      ensure_static_stage sr second second_stage.fits second_different
        (Fits-nonempty second second_stage.fits) le two

  pub choose-members : members (choose sr slots) ≡ members slots
  unfolding choose third second first
  choose-members =
      fill-members sr.scts third.count third.slots
      ∙ third_stage.same_members
      ∙ second_stage.same_members
      ∙ diversify-members sr.scts 0 [] slots

  pub choose-length : length (ops (choose sr slots)) ≡ sr.scts
  unfolding choose third second first
  choose-length = omega (
    arith,
    fill-length sr.scts third.count third.slots third_stage.fits.within
        (omega (arith, third_stage.fits, length_eq third.slots slots third-members)),
    third_stage.fits,
  )
    where
      third-members : members third.slots ≡ members slots
      third-members =
          third_stage.same_members
          ∙ second_stage.same_members
          ∙ diversify-members sr.scts 0 [] slots

  pub choose_diverse : sr.operators ≤ distinct (ops (choose sr slots))
  unfolding choose third second first
  choose_diverse = le_trans third_stage.fits.diverse (
      distinct-Subset (ops third.slots) (ops (choose sr slots))
        (fill-Subset sr.scts third.count third.slots))

  pub choose_rfc6962 :
      sr.require_rfc6962 ≡ true → 0 < total rfc6962 slots → 0 < num rfc6962 (choose sr slots)
  unfolding choose third second first
  choose_rfc6962 req some_rfc =
      le_trans
        (third_stage.keeps_rfc6962 req (
          second_stage.has_rfc6962 req (
            rw (total_eq rfc6962 first.slots slots (diversify-members sr.scts 0 [] slots))
              some_rfc)))
        (fill-num sr.scts rfc6962 third.count third.slots)

  pub choose_static :
      sr.prefer_static ≡ true → 0 < total static slots → 0 < num static (choose sr slots)
  unfolding choose third second first
  choose_static pref some_static =
      le_trans
        (third_stage.has_static pref (
          rw
            (total_eq static second.slots slots
              (second_stage.same_members ∙ diversify-members sr.scts 0 [] slots))
            some_static))
        (fill-num sr.scts static third.count third.slots)
