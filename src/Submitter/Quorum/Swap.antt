-- ===== src/Submitter/Quorum/Swap.antt =====
-- The two stages of trimToQuorum that swap in a log type: what making room leaves, and the stage
-- for a required RFC 6962 SCT.
use native.Mathlib.Nat.{le_trans}
use ctsubmit.Prelude.{
  ℕ, suc, ◌+◌, ◌≤◌, ◌<◌, ◌≡◌, refl, ap, ◌∙◌, ◌⊎◌, inl, inr, Bool, true, false, not, ◌&&◌, List,
  length, ltb, nat_eq, string_eq, arith, Bool-cases, ltb→lt,
}
use ctsubmit.Prelude.Distinct.{distinct-Subset}
use ctsubmit.Submitter.Types.{LogType, rfc6962, static, is_type, Needs}
use ctsubmit.Submitter.Quorum.Trim.{
  Slot, Selection, has_selected, can_drop_safely, type_at, make_room, droppable_for_rfc6962,
  ensure_rfc6962,
}
use ctsubmit.Submitter.Quorum.Select.{
  ops, num, total, members, length-ops, has_selected-num, select_first-members, select_first_full,
  select_first-count, select_first-num, select_first-num_other, select_first-Subset,
}
use ctsubmit.Submitter.Quorum.Drop.{
  selected_at, get-select_first, ops-deselect-length, num-deselect, can_drop_safely_elim,
}
use ctsubmit.Submitter.Quorum.Stages.{
  deselect-members, num_zero, Fits, AllDifferent, added, Outcome, make_room_outcome,
}

-- The numbers of an enlarged selection.
module _ (t : LogType) (r : Selection) where
  added_cases :
      ((num t r.slots < total t r.slots)
        × ((added t r).count ≡ r.count + 1)
        × (num t (added t r).slots ≡ suc (num t r.slots)))
      ⊎ ((total t r.slots ≤ num t r.slots) × (added t r ≡ r))
  added_cases = elim (Bool-cases (ltb (num t r.slots) (total t r.slots))) [
    | inl free ↦ inl (
      ltb→lt _ _ free,
      select_first-count t r.count r.slots (ltb→lt _ _ free),
      select_first-num t r.count r.slots (ltb→lt _ _ free),
    )
    | inr taken ↦ inr (ground arith, select_first_full t r.count r.slots (ground arith))
  ]

  added-counted :
      r.count ≡ length (ops r.slots) → (added t r).count ≡ length (ops (added t r).slots)
  added-counted h = elim added_cases [
    | inl (free, c, n) ↦ ground (
      arith,
      length-ops r.slots,
      length-ops (added t r).slots,
      select_first-num_other t r.count rfc6962 r.slots,
      select_first-num_other t r.count static r.slots,
    )
    | inr (full, same) ↦ rw same h
  ]

  pub added-count-le : (added t r).count ≤ r.count + 1
  added-count-le = elim added_cases [
    | inl (free, c, n) ↦ omega arith
    | inr (full, same) ↦ rw same (omega arith)
  ]

module _ (sr : Needs) (t : LogType) (d : List Slot → ℕ → Bool) (r : Selection) where
  abbrev after : Selection
  after = make_room d sr.scts (added t r)

  pub outcome-Fits :
      Fits sr r
      → ((ss : List Slot) (i : ℕ) → d ss i ≡ true → can_drop_safely sr ss i ≡ true)
      → Outcome sr t d r
      → Fits sr after
  outcome-Fits f sound (inl (same, le)) = rw same (record {
    counted = added-counted t r f.counted;
    within = le;
    diverse = le_trans f.diverse (
        distinct-Subset (ops r.slots) (ops (added t r).slots)
          (select_first-Subset t r.count r.slots));
  })
  outcome-Fits f sound (inr (full, (k, lt, sel, goes, same))) = rw same (record {
    counted =
        omega (arith, added-counted t r f.counted, ops-deselect-length k (added t r).slots sel);
    within = omega (arith, f, added-count-le t r);
    diverse = can_drop_safely_elim sr (added t r).slots k (sound _ k goes) (
        le_trans f.diverse (
          distinct-Subset (ops r.slots) (ops (added t r).slots)
            (select_first-Subset t r.count r.slots)));
  })

  pub outcome-members : Outcome sr t d r → members after.slots ≡ members r.slots
  outcome-members (inl (same, le)) = rw same (select_first-members t r.count r.slots)
  outcome-members (inr (full, (k, lt, sel, goes, same))) =
      rw same (deselect-members k (added t r).slots ∙ select_first-members t r.count r.slots)

  -- The type that was missing is there afterwards, if any entry has it.
  pub outcome-num :
      ((ss : List Slot) (i : ℕ) → d ss i ≡ true → is_type (type_at ss i) t ≡ false)
      → Outcome sr t d r
      → num t after.slots ≡ num t (added t r).slots
  outcome-num spares (inl (same, le)) = rw same
  outcome-num spares (inr (full, (k, lt, sel, goes, same))) =
      rw same
        (ground (arith, num-deselect t k (added t r).slots sel, spares (added t r).slots k goes))

-- The RFC 6962 stage.
module _ (sr : Needs) (r : Selection) where
  pub record RfcStage (r' : Selection) : Type 0 where
    pub fits : Fits sr r'
    pub same_members : members r'.slots ≡ members r.slots
    pub has_rfc6962 :
        sr.require_rfc6962 ≡ true → 0 < total rfc6962 r.slots → 0 < num rfc6962 r'.slots
    -- Only a request for a single SCT loses its static one here.
    pub static_lost :
        num static r'.slots ≡ 0 → (r' ≡ r) ⊎ ((sr.require_rfc6962 ≡ true) × (sr.scts ≤ 1))

  spares_rfc6962 :
      (ss : List Slot) (i : ℕ)
      → droppable_for_rfc6962 sr ss i ≡ true
      → (is_type (type_at ss i) rfc6962 ≡ false) × (can_drop_safely sr ss i ≡ true)
  unfolding droppable_for_rfc6962
  spares_rfc6962 ss i h = ground arith

  lets_go_rfc6962 :
      num rfc6962 r.slots ≡ 0
      → (i : ℕ) → sr.scts < (added rfc6962 r).count
      → selected_at r.slots i ≡ true
      → can_drop_safely sr (added rfc6962 r).slots i ≡ true
      → droppable_for_rfc6962 sr (added rfc6962 r).slots i ≡ true
  unfolding droppable_for_rfc6962
  lets_go_rfc6962 none i full sel h =
      let same =
        ap (λ (s : Slot). s.member.log_type) (get-select_first rfc6962 r.count r.slots i sel) in
      rw (h, same, num_zero rfc6962 r.slots i none sel)

  static_survives :
      num rfc6962 r.slots ≡ 0
      → 0 < length (ops r.slots)
      → Fits sr r
      → sr.require_rfc6962 ≡ true
      → (o : Outcome sr rfc6962 (droppable_for_rfc6962 sr) r)
      → num static (make_room (droppable_for_rfc6962 sr) sr.scts (added rfc6962 r)).slots ≡ 0
      → sr.scts ≤ 1
  static_survives none some_selected f req (inl (same, le)) h = absurd (
      omega (
        arith,
        length-ops r.slots,
        select_first-num_other rfc6962 r.count static r.slots refl,
        ap (λ (x : Selection). num static x.slots) same,
      ))
  static_survives none some_selected f req (inr (full, (k, lt, sel, goes, same))) h = ground (
    arith,
    length-ops r.slots,
    f,
    added-count-le rfc6962 r,
    select_first-num_other rfc6962 r.count static r.slots,
    ap (λ (x : Selection). num static x.slots) same,
    num-deselect static k (added rfc6962 r).slots sel,
  )

  module _ (f : Fits sr r) (different : AllDifferent r) (some_selected : 0 < length (ops r.slots))
      (le : sr.operators ≤ sr.scts) where
    swapped_rfc6962 :
        sr.require_rfc6962 ≡ true
        → num rfc6962 r.slots ≡ 0
        → RfcStage (make_room (droppable_for_rfc6962 sr) sr.scts (added rfc6962 r))
    swapped_rfc6962 req none = go (
        make_room_outcome sr rfc6962 (droppable_for_rfc6962 sr) r f different some_selected le
          (lets_go_rfc6962 none))
      where
        go :
            Outcome sr rfc6962 (droppable_for_rfc6962 sr) r
            → RfcStage (make_room (droppable_for_rfc6962 sr) sr.scts (added rfc6962 r))
        go o = record {
          fits =
              outcome-Fits sr rfc6962 (droppable_for_rfc6962 sr) r f
                (λ ss i h. (spares_rfc6962 ss i h).1) o;
          same_members = outcome-members sr rfc6962 (droppable_for_rfc6962 sr) r o;
          has_rfc6962 = λ _ some_rfc. omega (
            arith,
            outcome-num sr rfc6962 (droppable_for_rfc6962 sr) r
                (λ ss i h. (spares_rfc6962 ss i h).0) o,
            select_first-num rfc6962 r.count r.slots (omega arith),
          );
          static_lost = λ h. inr (req, static_survives none some_selected f req o h);
        }

    pub ensure_rfc6962_stage : RfcStage (ensure_rfc6962 sr r)
    unfolding ensure_rfc6962
    ensure_rfc6962_stage =
        elim (Bool-cases (sr.require_rfc6962 && not (has_selected rfc6962 r.slots))) [
          | inr kept ↦ rw kept (record {
            fits = f;
            same_members = refl;
            has_rfc6962 = λ req some_rfc. ground (arith, has_selected-num rfc6962 r.slots);
            static_lost = λ h. inl refl;
          })
          | inl missing ↦
              rw missing
                (swapped_rfc6962 (ground arith) (ground (arith, has_selected-num rfc6962 r.slots)))
        ]
