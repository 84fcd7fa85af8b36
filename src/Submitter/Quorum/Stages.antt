-- ===== src/Submitter/Quorum/Stages.antt =====
-- The stages of trimToQuorum, one after the other: what each leaves selected still fits the
-- request.
use native.Mathlib.Nat.{le_trans}
use ctsubmit.Prelude.{
  ℕ, zero, suc, ◌≤◌, ◌<◌, ◌≡◌, refl, sym, ap, ◌∙◌, ◌⊎◌, inl, inr, Bool, true, false, List, [], ◌∷◌,
  length, ltb, contains, nat_eq, string_eq, if◌then◌else◌, arith, Bool-cases, ltb→lt,
}
use ctsubmit.Prelude.Distinct.{distinct, distinct-Subset}
use ctsubmit.Submitter.Types.{LogType, is_type, StrategyMember, Needs}
use ctsubmit.Submitter.Quorum.Trim.{
  Slot, Selection, diversify, select_first, can_drop_safely, deselect, drop_last, type_at,
  make_room,
}
use ctsubmit.Submitter.Quorum.Select.{
  ops, all_ops, num, total, members, NoneSelected, diversify-count, diversify-le,
  diversify-distinct, diversify_covers, select_first_full, select_first-count,
}
use ctsubmit.Submitter.Quorum.Drop.{
  selected_at, can_drop_safely_intro, Dropped, drop_last_cases, get-select_first,
  length-select_first, select_first_swap,
}

total_members : LogType → List StrategyMember → ℕ
total_members t [] = 0
total_members t (m ∷ ms) =
    if is_type m.log_type t then suc (total_members t ms) else total_members t ms

total_lem : (t : LogType) (ss : List Slot) → total t ss ≡ total_members t (members ss)
unfolding total_members
total_lem t [] = refl
total_lem t (s ∷ ss) = ground (arith, total_lem t ss)

pub total_eq : (t : LogType) (xs ys : List Slot) → members xs ≡ members ys → total t xs ≡ total t ys
total_eq t xs ys h = total_lem t xs ∙ ap (total_members t) h ∙ sym (total_lem t ys)

length-members : (ss : List Slot) → length (members ss) ≡ length ss
length-members [] = refl
length-members (s ∷ ss) = ap suc (length-members ss)

pub length_eq : (xs ys : List Slot) → members xs ≡ members ys → length xs ≡ length ys
length_eq xs ys h = sym (length-members xs) ∙ ap length h ∙ length-members ys

pub deselect-members : (i : ℕ) (ss : List Slot) → members (deselect i ss) ≡ members ss
deselect-members i [] = refl
deselect-members zero (s ∷ ss) = refl
deselect-members (suc i) (s ∷ ss) = ap (◌∷◌ s.member) (deselect-members i ss)

pub num_zero :
    (t : LogType) (ss : List Slot) (i : ℕ)
    → num t ss ≡ 0
    → selected_at ss i ≡ true
    → is_type (type_at ss i) t ≡ false
num_zero t [] i h s = cc
num_zero t (x ∷ ss) zero h s = ground arith
num_zero t (x ∷ ss) (suc i) h s = ground (arith, num_zero t ss i)

-- The selection is counted, keeps to the limit and has enough operators.
pub record Fits (sr : Needs) (r : Selection) : Type 0 where
  pub counted : r.count ≡ length (ops r.slots)
  pub within : r.count ≤ sr.scts
  pub diverse : sr.operators ≤ distinct (ops r.slots)

abbrev pub AllDifferent : Selection → Type 0
AllDifferent r = distinct (ops r.slots) ≡ length (ops r.slots)

-- A selection that has taken in an entry, before room is made and after.
abbrev pub added : LogType → Selection → Selection
added t r = select_first t r.count r.slots

module _ (sr : Needs) (slots : List Slot) (fresh : NoneSelected slots) where
  pub diversify-Fits :
      sr.operators ≤ sr.scts
      → sr.operators ≤ distinct (all_ops slots)
      → Fits sr (diversify sr.scts 0 [] slots)
  unfolding contains
  diversify-Fits h k = record {
    counted = omega (arith, diversify-count sr.scts 0 [] slots fresh);
    within = diversify-le sr.scts 0 [] slots (omega arith);
    diverse = elim (Bool-cases (ltb (diversify sr.scts 0 [] slots).count sr.scts)) [
      | inl short ↦ le_trans k (
          distinct-Subset (all_ops slots) (ops (diversify sr.scts 0 [] slots).slots)
            (λ a m. diversify_covers sr.scts 0 [] slots a fresh (ground arith) m refl))
      | inr full ↦ ground (
        arith,
        diversify-distinct sr.scts 0 [] slots fresh,
        diversify-count sr.scts 0 [] slots fresh,
      )
    ];
  }

module _ (sr : Needs) (t : LogType) (d : List Slot → ℕ → Bool) (r : Selection) where
  abbrev pub Outcome : Type 0
  Outcome =
      ((make_room d sr.scts (added t r) ≡ added t r) × ((added t r).count ≤ sr.scts))
      ⊎ ((sr.scts < (added t r).count)
          × Dropped (d (added t r).slots) (length (added t r).slots) (added t r)
              (make_room d sr.scts (added t r)))

  -- The test lets go what `can_drop_safely` does, if room has to be made.
  abbrev pub LetsGo : Type 0
  LetsGo =
      (i : ℕ)
      → sr.scts < (added t r).count
      → selected_at r.slots i ≡ true
      → can_drop_safely sr (added t r).slots i ≡ true
      → d (added t r).slots i ≡ true

  overfull_free : Fits sr r → sr.scts < (added t r).count → num t r.slots < total t r.slots
  overfull_free f full = elim (Bool-cases (ltb (num t r.slots) (total t r.slots))) [
    | inl free ↦ ltb→lt _ _ free
    | inr taken ↦ absurd (ground (arith, f, select_first_full t r.count r.slots))
  ]

  candidate :
      Fits sr r
      → AllDifferent r
      → 0 < length (ops r.slots)
      → sr.operators ≤ sr.scts
      → LetsGo
      → sr.scts < (added t r).count
      → (i : ℕ) × (i < length (added t r).slots)
        × (selected_at (added t r).slots i ≡ true)
        × (d (added t r).slots i ≡ true)
  candidate f different some_selected le lets_go full =
      go (select_first_swap t r.count r.slots (overfull_free f full) some_selected different)
    where
      go :
          ((i : ℕ) × (i < length r.slots)
            × (selected_at r.slots i ≡ true)
            × (length (ops r.slots) ≤ distinct (ops (deselect i (added t r).slots))))
          → (i : ℕ) × (i < length (added t r).slots)
            × (selected_at (added t r).slots i ≡ true)
            × (d (added t r).slots i ≡ true)
      go (i, lt, sel, left) = (
        i,
        omega (arith, length-select_first t r.count r.slots),
        ap (λ (s : Slot). s.selected) (get-select_first t r.count r.slots i sel) ∙ sel,
        lets_go i full sel (
            can_drop_safely_intro sr (added t r).slots i
              (omega (arith, f, select_first-count t r.count r.slots (overfull_free f full)))),
      )

  -- Room is made whenever there is no room, if the test lets enough entries go.
  pub make_room_outcome :
      Fits sr r
      → AllDifferent r
      → 0 < length (ops r.slots)
      → sr.operators ≤ sr.scts
      → LetsGo
      → Outcome
  make_room_outcome f different some_selected le lets_go =
      elim (Bool-cases (ltb sr.scts (added t r).count)) [
        | inr room ↦ inl (rw room, ground arith)
        | inl full ↦
            stuck_or_dropped full
              (drop_last_cases (d (added t r).slots) (length (added t r).slots) (added t r))
      ]
    where
      stuck_or_dropped :
          ltb sr.scts (added t r).count ≡ true
          → ((drop_last (d (added t r).slots) (length (added t r).slots) (added t r) ≡ added t r)
              × ((k : ℕ)
                  → k < length (added t r).slots
                  → selected_at (added t r).slots k ≡ true
                  → d (added t r).slots k ≡ false))
            ⊎ Dropped
                (d (added t r).slots)
                (length (added t r).slots)
                (added t r)
                (drop_last (d (added t r).slots) (length (added t r).slots) (added t r))
          → Outcome
      stuck_or_dropped full (inr dropped) = inr (ltb→lt _ _ full, rw full dropped)
      stuck_or_dropped full (inl (same, stuck)) =
          refuted stuck (candidate f different some_selected le lets_go (ltb→lt _ _ full))
        where
          refuted :
              ((k : ℕ)
                → k < length (added t r).slots
                → selected_at (added t r).slots k ≡ true
                → d (added t r).slots k ≡ false)
              → ((i : ℕ) × (i < length (added t r).slots)
                  × (selected_at (added t r).slots i ≡ true)
                  × (d (added t r).slots i ≡ true))
              → Outcome
          refuted none_goes (i, lt, sel, goes) = absurd (cc (goes, none_goes i lt sel))
