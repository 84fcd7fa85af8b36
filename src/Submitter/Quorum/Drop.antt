-- ===== src/Submitter/Quorum/Drop.antt =====
-- The dropping loops of trimToQuorum and the test canDropSafely, by what is left selected.
use ctsubmit.Prelude.{
  ℕ, zero, suc, ◌+◌, ◌-◌, ◌≤◌, ◌<◌, ◌≡◌, refl, ◌⊎◌, inl, inr, String, Bool, true, false, not, ◌&&◌,
  ◌||◌, List, [], ◌∷◌, ◌++◌, length, ◌==◌, contains, nat_eq, string_eq, if◌then◌else◌, arith,
  Bool-cases, ==_refl, get_or, contains-append,
}
use native.Mathlib.Nat.{le_antisymm, le_trans}
use mathlib.Core.List.{append-nil}
use ctsubmit.Prelude.Distinct.{distinct, Subset, distinct-Subset}
use ctsubmit.Submitter.Types.{LogType, is_type, Needs}
use ctsubmit.Submitter.Quorum.Trim.{
  Slot, no_slot, Selection, shares_operator, unique_operators, can_drop_safely, deselect, drop_last,
  type_at, select_first,
}
use ctsubmit.Submitter.Quorum.Select.{ops, num, total, select_first-Subset}

abbrev pub selected_at : List Slot → ℕ → Bool
selected_at ss i = (get_or ss i no_slot).selected

abbrev pub op_at : List Slot → ℕ → String
op_at ss i = (get_or ss i no_slot).member.operator

pub ops-deselect-length :
    (i : ℕ) (ss : List Slot)
    → selected_at ss i ≡ true
    → length (ops ss) ≡ suc (length (ops (deselect i ss)))
ops-deselect-length i [] h = cc
ops-deselect-length zero (s ∷ ss) h = ground arith
ops-deselect-length (suc i) (s ∷ ss) h = ground (arith, ops-deselect-length i ss)

pub num-deselect :
    (t : LogType) (i : ℕ) (ss : List Slot)
    → selected_at ss i ≡ true
    → num t ss
      ≡ (if is_type (type_at ss i) t then suc (num t (deselect i ss)) else num t (deselect i ss))
num-deselect t i [] h = cc
num-deselect t zero (s ∷ ss) h = ground arith
num-deselect t (suc i) (s ∷ ss) h = ground (arith, num-deselect t i ss)

-- Nothing but the dropped entry's operator can be lost.
pub deselect_keeps :
    (i : ℕ) (ss : List Slot) (a : String)
    → contains (ops ss) a ≡ true
    → (op_at ss i == a || contains (ops (deselect i ss)) a) ≡ true
unfolding contains
deselect_keeps i [] a m = cc
deselect_keeps zero (s ∷ ss) a m = ground arith
deselect_keeps (suc i) (s ∷ ss) a m = ground (arith, deselect_keeps i ss a)

-- The loops that leave out entry `drop` see what `deselect` leaves.
shares_operator_past :
    (drop j : ℕ) (op : String) (ss : List Slot)
    → drop < j
    → shares_operator drop j op ss ≡ contains (ops ss) op
unfolding shares_operator contains
shares_operator_past drop j op [] h = refl
shares_operator_past drop j op (s ∷ ss) h = ground (arith, shares_operator_past drop (j + 1) op ss)

shares_operator_lem :
    (drop j i : ℕ) (op : String) (ss : List Slot)
    → drop ≡ j + i
    → shares_operator drop j op ss ≡ contains (ops (deselect i ss)) op
unfolding shares_operator contains
shares_operator_lem drop j i op [] h = refl
shares_operator_lem drop j zero op (s ∷ ss) h =
    ground (arith, shares_operator_past drop (j + 1) op ss)
shares_operator_lem drop j (suc i) op (s ∷ ss) h =
    ground (arith, shares_operator_lem drop (j + 1) i op ss)

-- How many operators of a list are new, given those seen.
count_new : List String → List String → ℕ
count_new seen [] = 0
count_new seen (x ∷ xs) =
    let same = count_new seen xs in
    let more = suc (count_new (x ∷ seen) xs) in if contains seen x then same else more

unique_operators_past :
    (drop j : ℕ) (seen : List String) (ss : List Slot)
    → drop < j
    → unique_operators drop j seen ss ≡ count_new seen (ops ss)
unfolding unique_operators count_new
unique_operators_past drop j seen [] h = refl
unique_operators_past drop j seen (s ∷ ss) h = ground (
  arith,
  unique_operators_past drop (j + 1) seen ss,
  unique_operators_past drop (j + 1) (s.member.operator ∷ seen) ss,
)

unique_operators_lem :
    (drop j i : ℕ) (seen : List String) (ss : List Slot)
    → drop ≡ j + i
    → unique_operators drop j seen ss ≡ count_new seen (ops (deselect i ss))
unfolding unique_operators count_new
unique_operators_lem drop j i seen [] h = refl
unique_operators_lem drop j zero seen (s ∷ ss) h =
    ground (arith, unique_operators_past drop (j + 1) seen ss)
unique_operators_lem drop j (suc i) seen (s ∷ ss) h = ground (
  arith,
  unique_operators_lem drop (j + 1) i seen ss,
  unique_operators_lem drop (j + 1) i (s.member.operator ∷ seen) ss,
)

distinct-middle :
    (x : String) (xs ys : List String) → distinct (xs ++ x ∷ ys) ≡ distinct (x ∷ (xs ++ ys))
unfolding contains
distinct-middle x xs ys =
    le_antisymm
      (distinct-Subset (xs ++ x ∷ ys) (x ∷ (xs ++ ys))
        (λ a m. ground (arith, contains-append a xs (x ∷ ys), contains-append a xs ys)))
      (distinct-Subset (x ∷ (xs ++ ys)) (xs ++ x ∷ ys)
        (λ a m. ground (arith, contains-append a xs (x ∷ ys), contains-append a xs ys)))

count_new_lem : (seen xs : List String) → count_new seen xs + distinct seen ≡ distinct (xs ++ seen)
unfolding count_new distinct
count_new_lem seen [] = omega arith
count_new_lem seen (x ∷ xs) = ground (
  arith,
  count_new_lem seen xs,
  count_new_lem (x ∷ seen) xs,
  distinct-middle x xs seen,
  contains-append x xs seen,
)

module _ (sr : Needs) (ss : List Slot) (i : ℕ) where
  pub can_drop_safely_intro :
      sr.operators ≤ distinct (ops (deselect i ss)) → can_drop_safely sr ss i ≡ true
  unfolding can_drop_safely distinct
  can_drop_safely_intro h = ground (
    arith,
    unique_operators_lem i 0 i [] ss (omega arith),
    count_new_lem [] (ops (deselect i ss)),
    ap_distinct,
  )
    where
      ap_distinct : distinct (ops (deselect i ss) ++ []) ≡ distinct (ops (deselect i ss))
      ap_distinct = rw append-nil

  -- Where the test passes, the operators that are left still suffice.
  pub can_drop_safely_elim :
      can_drop_safely sr ss i ≡ true
      → sr.operators ≤ distinct (ops ss)
      → sr.operators ≤ distinct (ops (deselect i ss))
  unfolding can_drop_safely contains distinct
  can_drop_safely_elim h k = elim (Bool-cases (contains (ops (deselect i ss)) (op_at ss i))) [
    | inl kept ↦ le_trans k (
        distinct-Subset (ops ss) (ops (deselect i ss))
          (λ a m. ground (arith, deselect_keeps i ss a m, string_eq.beq_iff (op_at ss i) a)))
    | inr lost ↦ ground (
      arith,
      shares_operator_lem i 0 i (op_at ss i) ss (omega arith),
      unique_operators_lem i 0 i [] ss (omega arith),
      count_new_lem [] (ops (deselect i ss)),
      append-nil (ops (deselect i ss)),
    )
  ]

-- `drop_last` drops one entry that passes, or finds none.
abbrev pub Dropped : (ℕ → Bool) → ℕ → Selection → Selection → Type 0
Dropped ok n r r' =
    (k : ℕ) × (k < n)
    × (selected_at r.slots k ≡ true)
    × (ok k ≡ true)
    × (r' ≡ record { slots = deselect k r.slots; count = r.count - 1 })

pub drop_last_cases :
    (ok : ℕ → Bool) (n : ℕ) (r : Selection)
    → ((drop_last ok n r ≡ r) × ((k : ℕ) → k < n → selected_at r.slots k ≡ true → ok k ≡ false))
      ⊎ Dropped ok n r (drop_last ok n r)
unfolding drop_last
drop_last_cases ok zero r = inl (refl, λ k h s. absurd (omega arith))
drop_last_cases ok (suc n) r = elim (Bool-cases (selected_at r.slots n && ok n)) [
  | inl here ↦ inr (n, omega arith, ground arith, ground arith, ground arith)
  | inr not_here ↦ elim (drop_last_cases ok n r) [
    | inl none_below ↦ inl (
      ground arith,
      λ k h s. elim (Bool-cases (k == n)) [
        | inl same ↦ ground (arith, nat_eq.beq_iff k n)
        | inr less ↦ ground (arith, nat_eq.beq_iff k n, none_below.1 k)
      ],
    )
    | inr d ↦ inr (d.0, omega arith, d.2, d.3, ground arith)
  ]
]

pub find_operator :
    (ss : List Slot) (a : String)
    → contains (ops ss) a ≡ true
    → (i : ℕ) × (i < length ss) × (selected_at ss i ≡ true) × (op_at ss i ≡ a)
unfolding contains
find_operator [] a m = cc
find_operator (s ∷ ss) a m = elim (Bool-cases (s.selected && s.member.operator == a)) [
  | inl here ↦ (0, omega arith, ground arith, ground (arith, string_eq.beq_iff s.member.operator a))
  | inr later ↦
      let (i, lt, sel, op) = find_operator ss a (ground arith) in (suc i, omega arith, sel, op)
]

find_selected :
    (ss : List Slot) → 0 < length (ops ss) → (i : ℕ) × (i < length ss) × (selected_at ss i ≡ true)
find_selected [] h = absurd (omega arith)
find_selected (s ∷ ss) h = elim (Bool-cases s.selected) [
  | inl here ↦ (0, omega arith, here)
  | inr later ↦ let (i, lt, sel) = find_selected ss (ground arith) in (suc i, omega arith, sel)
]

deselect-Subset : (i : ℕ) (ss : List Slot) → Subset (ops (deselect i ss)) (ops ss)
unfolding contains
deselect-Subset i [] a m = m
deselect-Subset zero (s ∷ ss) a m = ground arith
deselect-Subset (suc i) (s ∷ ss) a m = ground (arith, deselect-Subset i ss a)

pub distinct-deselect :
    (i : ℕ) (ss : List Slot) → distinct (ops ss) ≤ suc (distinct (ops (deselect i ss)))
unfolding distinct contains
distinct-deselect i ss = ground (
  arith,
  distinct-Subset (ops ss) (op_at ss i ∷ ops (deselect i ss)) (λ a. deselect_keeps i ss a),
)

-- The operator of the entry that `select_first` adds.
abbrev added_operator : LogType → List Slot → String
added_operator t [] = ""
added_operator t (s ∷ ss) =
    if not s.selected && is_type s.member.log_type t then s.member.operator else added_operator t ss

module _ (t : LogType) (c : ℕ) where
  pub get-select_first :
      (ss : List Slot) (i : ℕ)
      → selected_at ss i ≡ true
      → get_or (select_first t c ss).slots i no_slot ≡ get_or ss i no_slot
  unfolding select_first
  get-select_first [] i h = refl
  get-select_first (s ∷ ss) zero h = ground arith
  get-select_first (s ∷ ss) (suc i) h = ground (arith, get-select_first ss i)

  pub length-select_first : (ss : List Slot) → length (select_first t c ss).slots ≡ length ss
  unfolding select_first
  length-select_first [] = refl
  length-select_first (s ∷ ss) = ground (arith, length-select_first ss)

  select_first_adds :
      (ss : List Slot)
      → num t ss < total t ss
      → contains (ops (select_first t c ss).slots) (added_operator t ss) ≡ true
  unfolding select_first contains
  select_first_adds [] h = absurd (omega arith)
  select_first_adds (s ∷ ss) h = ground (arith, select_first_adds ss, ==_refl s.member.operator)

  -- Another entry may go, and the added operator stays.
  select_first-deselect :
      (ss : List Slot) (i : ℕ) (a : String)
      → num t ss < total t ss
      → selected_at ss i ≡ true
      → contains (added_operator t ss ∷ ops (deselect i ss)) a ≡ true
      → contains (ops (deselect i (select_first t c ss).slots)) a ≡ true
  unfolding select_first contains
  select_first-deselect [] i a h s m = cc
  select_first-deselect (x ∷ ss) zero a h s m = ground (
    arith,
    select_first_adds ss,
    select_first-Subset t c ss a,
    string_eq.beq_iff (added_operator t ss) a,
  )
  select_first-deselect (x ∷ ss) (suc i) a h s m =
      ground (arith, select_first-deselect ss i a, string_eq.beq_iff (added_operator t ss) a)

  -- Among selected entries of different operators there is one that may make room for the
  -- added one with as many operators as before.
  pub select_first_swap :
      (ss : List Slot)
      → num t ss < total t ss
      → 0 < length (ops ss)
      → distinct (ops ss) ≡ length (ops ss)
      → (i : ℕ) × (i < length ss)
        × (selected_at ss i ≡ true)
        × (length (ops ss) ≤ distinct (ops (deselect i (select_first t c ss).slots)))
  unfolding distinct contains
  select_first_swap ss free some_selected different =
      elim (Bool-cases (contains (ops ss) (added_operator t ss))) [
        | inl known ↦
            let (i, lt, sel, op) = find_operator ss (added_operator t ss) known in
            (
              i,
              lt,
              sel,
              rw (← different) (
                  distinct-Subset (ops ss) (ops (deselect i (select_first t c ss).slots)) (λ a m.
                    select_first-deselect ss i a free sel
                      (ground (arith, deselect_keeps i ss a m)))),
            )
        | inr new ↦
            let (i, lt, sel) = find_selected ss some_selected in
            (
              i,
              lt,
              sel,
              ground (
                arith,
                distinct-deselect i ss,
                deselect-Subset i ss (added_operator t ss),
                distinct-Subset (added_operator t ss ∷ ops (deselect i ss))
                    (ops (deselect i (select_first t c ss).slots))
                    (λ a. select_first-deselect ss i a free sel),
              ),
            )
      ]
