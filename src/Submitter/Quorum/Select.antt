-- ===== src/Submitter/Quorum/Select.antt =====
-- The selecting loops of trimToQuorum: what `diversify`, `select_first` and `fill` leave selected.
use ctsubmit.Prelude.{
  ℕ, suc, ◌+◌, ◌≤◌, ◌<◌, ◌≡◌, refl, String, true, false, ◌&&◌, List, [], ◌∷◌, length, ltb, contains,
  nat_eq, string_eq, if◌then◌else◌, arith, ==_refl,
}
use ctsubmit.Prelude.Distinct.{distinct, Subset}
use ctsubmit.Submitter.Types.{LogType, rfc6962, static, is_type, StrategyMember}
use ctsubmit.Submitter.Quorum.Trim.{Slot, diversify, has_selected, select_first, fill}

-- The operators of the selected entries, and of all.
abbrev pub ops : List Slot → List String
ops [] = []
ops (s ∷ ss) = if s.selected then s.member.operator ∷ ops ss else ops ss

abbrev pub all_ops : List Slot → List String
all_ops [] = []
all_ops (s ∷ ss) = s.member.operator ∷ all_ops ss

-- How many entries of a type are selected, and how many there are.
abbrev pub num : LogType → List Slot → ℕ
num t [] = 0
num t (s ∷ ss) = if s.selected && is_type s.member.log_type t then suc (num t ss) else num t ss

abbrev pub total : LogType → List Slot → ℕ
total t [] = 0
total t (s ∷ ss) = if is_type s.member.log_type t then suc (total t ss) else total t ss

abbrev pub members : List Slot → List StrategyMember
members [] = []
members (s ∷ ss) = s.member ∷ members ss

abbrev pub NoneSelected : List Slot → Type 0
NoneSelected [] = Unit
NoneSelected (s ∷ ss) = (s.selected ≡ false) × NoneSelected ss

pub length-ops : (ss : List Slot) → length (ops ss) ≡ num rfc6962 ss + num static ss
length-ops [] = omega arith
length-ops (s ∷ ss) = ground (arith, length-ops ss)

pub has_selected-num : (t : LogType) (ss : List Slot) → has_selected t ss ≡ ltb 0 (num t ss)
unfolding has_selected
has_selected-num t [] = refl
has_selected-num t (s ∷ ss) = ground (arith, has_selected-num t ss)

pub ops-NoneSelected : (ss : List Slot) → NoneSelected ss → ops ss ≡ []
ops-NoneSelected [] h = refl
ops-NoneSelected (s ∷ ss) h = ground (arith, ops-NoneSelected ss)

-- `diversify`: one loop invariant for each line.
module _ (limit : ℕ) where
  pub diversify-members :
      (count : ℕ) (seen : List String) (ss : List Slot)
      → members (diversify limit count seen ss).slots ≡ members ss
  unfolding diversify
  diversify-members count seen [] = refl
  diversify-members count seen (s ∷ ss) = ground (
    arith,
    diversify-members count seen ss,
    diversify-members (count + 1) (s.member.operator ∷ seen) ss,
  )

  pub diversify-count :
      (count : ℕ) (seen : List String) (ss : List Slot)
      → NoneSelected ss
      → (diversify limit count seen ss).count
        ≡ count + length (ops (diversify limit count seen ss).slots)
  unfolding diversify
  diversify-count count seen [] h = omega arith
  diversify-count count seen (s ∷ ss) h = ground (
    arith,
    ops-NoneSelected ss,
    diversify-count count seen ss,
    diversify-count (count + 1) (s.member.operator ∷ seen) ss,
  )

  pub diversify-le :
      (count : ℕ) (seen : List String) (ss : List Slot)
      → count ≤ limit
      → (diversify limit count seen ss).count ≤ limit
  unfolding diversify
  diversify-le count seen [] h = h
  diversify-le count seen (s ∷ ss) h =
      ground
        (arith, diversify-le count seen ss, diversify-le (count + 1) (s.member.operator ∷ seen) ss)

  -- What it selects was not seen before.
  diversify_fresh :
      (count : ℕ) (seen : List String) (ss : List Slot) (a : String)
      → NoneSelected ss
      → contains seen a ≡ true
      → contains (ops (diversify limit count seen ss).slots) a ≡ false
  unfolding diversify contains
  diversify_fresh count seen [] a h m = refl
  diversify_fresh count seen (s ∷ ss) a h m = ground (
    arith,
    ops-NoneSelected ss,
    diversify_fresh count seen ss a,
    diversify_fresh (count + 1) (s.member.operator ∷ seen) ss a,
    string_eq.beq_iff s.member.operator a,
  )

  pub diversify-distinct :
      (count : ℕ) (seen : List String) (ss : List Slot)
      → NoneSelected ss
      → distinct (ops (diversify limit count seen ss).slots)
        ≡ length (ops (diversify limit count seen ss).slots)
  unfolding diversify distinct
  diversify-distinct count seen [] h = refl
  diversify-distinct count seen (s ∷ ss) h = ground (
    arith,
    ops-NoneSelected ss,
    diversify-distinct count seen ss,
    diversify-distinct (count + 1) (s.member.operator ∷ seen) ss,
    diversify_fresh (count + 1) (s.member.operator ∷ seen) ss s.member.operator h.1
        (unfold contains in ground (arith, ==_refl s.member.operator)),
  )

  -- Short of the limit, it covers every operator.
  pub diversify_covers :
      (count : ℕ) (seen : List String) (ss : List Slot) (a : String)
      → NoneSelected ss
      → (diversify limit count seen ss).count < limit
      → contains (all_ops ss) a ≡ true
      → contains seen a ≡ false
      → contains (ops (diversify limit count seen ss).slots) a ≡ true
  unfolding diversify contains
  diversify_covers count seen [] a h lt m f = cc
  diversify_covers count seen (s ∷ ss) a h lt m f = ground (
    arith,
    diversify_covers count seen ss a,
    diversify_covers (count + 1) (s.member.operator ∷ seen) ss a,
    string_eq.beq_iff s.member.operator a,
  )

-- `select_first`: either every entry of the type is selected already, or one more is.
module _ (t : LogType) (c : ℕ) where
  pub select_first-members : (ss : List Slot) → members (select_first t c ss).slots ≡ members ss
  unfolding select_first
  select_first-members [] = refl
  select_first-members (s ∷ ss) = ground (arith, select_first-members ss)

  pub select_first_full :
      (ss : List Slot)
      → total t ss ≤ num t ss
      → select_first t c ss ≡ record { slots = ss; count = c }
  unfolding select_first
  select_first_full [] h = refl
  select_first_full (s ∷ ss) h = ground (arith, select_first_full ss, num-le-total t ss)
    where
      num-le-total : (u : LogType) (xs : List Slot) → num u xs ≤ total u xs
      num-le-total u [] = omega arith
      num-le-total u (x ∷ xs) = ground (arith, num-le-total u xs)

  pub select_first-count :
      (ss : List Slot) → num t ss < total t ss → (select_first t c ss).count ≡ c + 1
  unfolding select_first
  select_first-count [] h = absurd (omega arith)
  select_first-count (s ∷ ss) h = ground (arith, select_first-count ss)

  pub select_first-num :
      (ss : List Slot) → num t ss < total t ss → num t (select_first t c ss).slots ≡ suc (num t ss)
  unfolding select_first
  select_first-num [] h = absurd (omega arith)
  select_first-num (s ∷ ss) h = ground (arith, select_first-num ss)

  pub select_first-num_other :
      (u : LogType) (ss : List Slot)
      → is_type t u ≡ false
      → num u (select_first t c ss).slots ≡ num u ss
  unfolding select_first
  select_first-num_other u [] h = refl
  select_first-num_other u (s ∷ ss) h = ground (arith, select_first-num_other u ss)

  pub select_first-Subset : (ss : List Slot) → Subset (ops ss) (ops (select_first t c ss).slots)
  unfolding select_first contains
  select_first-Subset [] a m = m
  select_first-Subset (s ∷ ss) a m = ground (arith, select_first-Subset ss a)

-- `fill`.
module _ (limit : ℕ) where
  pub fill-members : (count : ℕ) (ss : List Slot) → members (fill limit count ss).slots ≡ members ss
  unfolding fill
  fill-members count [] = refl
  fill-members count (s ∷ ss) = ground (arith, fill-members count ss, fill-members (count + 1) ss)

  pub fill-Subset : (count : ℕ) (ss : List Slot) → Subset (ops ss) (ops (fill limit count ss).slots)
  unfolding fill contains
  fill-Subset count [] a m = m
  fill-Subset count (s ∷ ss) a m =
      ground (arith, fill-Subset count ss a, fill-Subset (count + 1) ss a)

  pub fill-num :
      (t : LogType) (count : ℕ) (ss : List Slot) → num t ss ≤ num t (fill limit count ss).slots
  unfolding fill
  fill-num t count [] = omega arith
  fill-num t count (s ∷ ss) = ground (arith, fill-num t count ss, fill-num t (count + 1) ss)

  -- With enough entries it reaches the limit exactly.
  pub fill-length :
      (count : ℕ) (ss : List Slot)
      → count ≤ limit
      → limit + length (ops ss) ≤ count + length ss
      → length (ops (fill limit count ss).slots) + count ≡ limit + length (ops ss)
  unfolding fill
  fill-length count [] h k = omega arith
  fill-length count (s ∷ ss) h k = ground (arith, fill-length count ss, fill-length (count + 1) ss)

  -- At the limit or past it, nothing changes.
  pub fill_full : (count : ℕ) (ss : List Slot) → limit ≤ count → (fill limit count ss).slots ≡ ss
  unfolding fill
  fill_full count [] h = refl
  fill_full count (s ∷ ss) h = ground arith
