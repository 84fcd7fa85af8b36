-- ===== src/Prelude/Distinct.antt =====
-- How many different elements a list has, and when one list has at least as many as another.
use ctsubmit.Prelude.Tests.{if◌then◌else◌, Bool-cases}
use ctsubmit.Prelude.Keys.{Eq, contains, remove, contains-remove, ==_refl}
use ctsubmit.Prelude.Lists.{length}
use Prim.Native.Nat.{ℕ, suc, ◌≤◌}
use mathlib.Core.Path.{◌≡◌, refl}
use mathlib.Core.Logic.{inl, inr}
use mathlib.Core.Bool.{true, false}
use mathlib.Core.List.{List, [], ◌∷◌}
use native.Mathlib.Omega.{arith}

module _ {ℓ} {A : Type ℓ} ⦃e : Eq A⦄ where
  unfoldable pub distinct : List A → ℕ
  distinct [] = 0
  distinct (x ∷ xs) = if contains xs x then distinct xs else suc (distinct xs)

  abbrev pub Subset : List A → List A → Type ℓ
  Subset xs ys = (a : A) → contains xs a ≡ true → contains ys a ≡ true

  pub distinct-le-length : (xs : List A) → distinct xs ≤ length xs
  unfolding distinct
  distinct-le-length [] = omega arith
  distinct-le-length (x ∷ xs) = ground (arith, distinct-le-length xs)

  remove_absent : (a : A) (xs : List A) → contains xs a ≡ false → remove a xs ≡ xs
  unfolding contains remove
  remove_absent a [] h = refl
  remove_absent a (x ∷ xs) h = ground (arith, remove_absent a xs)

  distinct-remove :
      (a : A) (xs : List A) → contains xs a ≡ true → distinct xs ≡ suc (distinct (remove a xs))
  unfolding distinct contains remove
  distinct-remove a [] h = cc
  distinct-remove a (x ∷ xs) h = ground (
    arith,
    distinct-remove a xs,
    remove_absent a xs,
    e.beq_iff x a,
    contains-remove a x xs,
    e.beq_iff a x,
  )

  -- The pigeonhole principle.
  pub distinct-Subset : (xs ys : List A) → Subset xs ys → distinct xs ≤ distinct ys
  unfolding distinct contains
  distinct-Subset [] ys h = omega arith
  distinct-Subset (x ∷ xs) ys h = elim (Bool-cases (contains xs x)) [
    | inl again ↦ rw again (distinct-Subset xs ys (λ a m. h a (ground arith)))
    | inr fresh ↦ rw fresh (
        omega (
          arith,
          distinct-remove x ys (h x (ground (arith, ==_refl x))),
          distinct-Subset xs (remove x ys)
              (λ a m. ground (arith, contains-remove x a ys, h a, e.beq_iff x a)),
        ))
  ]
