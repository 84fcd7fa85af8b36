-- ===== src/Pki/FinalTbs/Detox.antt =====
-- Exactly the poison goes, and nothing else changes.
use ctsubmit.Prelude.{
  ℕ, zero, suc, ◌+◌, ◌≤◌, ◌≡◌, Option, none, some, refl, ◌↔◌, Bool, not, List, [], ◌∷◌, some,
  length, select, arith, Bool-cases, inl, inr, ◌⊎◌,
}
use ctsubmit.Pki.Discovery.{bytes_equal}
use ctsubmit.Pki.FinalTbs.{
  Extension, TbsCertificate, detoxed, nowhere, twice, here, remove_at, find_poison,
  detox_tbs_certificate_from_precertificate,
}

module _ (poison : List ℕ) where
  abbrev pub is_poison : Extension → Bool
  is_poison e = bytes_equal e.id poison

  abbrev pub poisons : List Extension → ℕ
  poisons es = length (select is_poison es)

  abbrev pub others : List Extension → List Extension
  others es = select (λ e. not (is_poison e)) es

  others-clean : (es : List Extension) → poisons es ≡ 0 → others es ≡ es
  unfolding select
  others-clean [] h = refl
  others-clean (e ∷ es) h = ground (arith, others-clean es)

  find-twice : (i : ℕ) (es : List Extension) → find_poison poison twice i es ≡ twice
  unfolding find_poison
  find-twice i [] = refl
  find-twice i (e ∷ es) = refl

  -- After one poison: another makes it two.
  find-here :
      (j i : ℕ) (es : List Extension)
      → find_poison poison (here j) i es ≡ elim (poisons es) [ zero ↦ here j | suc n ↦ twice ]
  unfolding find_poison select
  find-here j i [] = refl
  find-here j i (e ∷ es) = ground (arith, find-here j (i + 1) es, find-twice (i + 1) es)

  -- With exactly one poison its index is found, and dropping the entry there leaves the others.
  find-one :
      (i : ℕ) (es : List Extension)
      → poisons es ≡ 1
      → (k : ℕ) × (find_poison poison nowhere i es ≡ here (i + k)) × (remove_at k es ≡ others es)
  unfolding find_poison select
  find-one i [] h = absurd (omega arith)
  find-one i (e ∷ es) h = elim (Bool-cases (bytes_equal e.id poison)) [
    | inl bad ↦ (0, ground (arith, find-here i (i + 1) es), ground (arith, others-clean es))
    | inr fine ↦
        let (k, found, left) = find-one (i + 1) es (ground arith) in
        (suc k, ground arith, ground arith)
  ]

  find-none :
      (i : ℕ) (es : List Extension) → poisons es ≡ 0 → find_poison poison nowhere i es ≡ nowhere
  unfolding find_poison select
  find-none i [] h = refl
  find-none i (e ∷ es) h = ground (arith, find-none (i + 1) es)

  find-many :
      (i : ℕ) (es : List Extension) → 2 ≤ poisons es → find_poison poison nowhere i es ≡ twice
  unfolding find_poison select
  find-many i [] h = absurd (omega arith)
  find-many i (e ∷ es) h = ground (arith, find-here i (i + 1) es, find-many (i + 1) es)

  count-cases : (n : ℕ) → (n ≡ 0) ⊎ (n ≡ 1) ⊎ (2 ≤ n)
  count-cases n = ground arith

  -- A precertificate that parses without trailing data is detoxed exactly if it has exactly one
  -- poison; then the other extensions stay in their order and no other field changes.
  pub detox_tbs_certificate_lem :
      {Other : Type 0} (tbs t : TbsCertificate Other)
      → (detox_tbs_certificate_from_precertificate poison (some (tbs, [])) ≡ detoxed t)
        ↔ ((poisons tbs.extensions ≡ 1) × (t ≡ record tbs { extensions = others tbs.extensions }))
  unfolding detox_tbs_certificate_from_precertificate
  detox_tbs_certificate_lem tbs t = elim (count-cases (poisons tbs.extensions)) [
    | inl none_there ↦ ground (arith, find-none 0 tbs.extensions none_there)
    | inr (inl one) ↦ let (k, found, left) = find-one 0 tbs.extensions one in ground (arith)
    | inr (inr many) ↦ ground (arith, find-many 0 tbs.extensions many)
  ]

  pub detox_parsed :
      {Other : Type 0} (parsed : Option (TbsCertificate Other × List ℕ)) (t : TbsCertificate Other)
      → detox_tbs_certificate_from_precertificate poison parsed ≡ detoxed t
      → (tbs : TbsCertificate Other) × (parsed ≡ some (tbs, []))
        × (poisons tbs.extensions ≡ 1)
        × (t ≡ record tbs { extensions = others tbs.extensions })
  unfolding detox_tbs_certificate_from_precertificate
  detox_parsed none t h = cc
  detox_parsed (some (tbs, [])) t h =
      let (one, clean) = (detox_tbs_certificate_lem tbs t).0 h in (tbs, refl, one, clean)
  detox_parsed (some (tbs, b ∷ bs)) t h = cc
