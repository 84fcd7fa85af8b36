-- ===== src/Pki/FinalTbs.antt =====
-- pki/finalTBSCertificate.go: from a precertificate to the certificate without the poison and with
-- the SCT list. Package asn1 is a parameter, and so are the two object identifiers of package x509.
-- The fields of a TBSCertificate that the code leaves alone are `Other`.
pub mod Detox
use ctsubmit.Prelude.{
  ℕ, zero, suc, ◌+◌, ◌==◌, nat_eq, Bool, true, false, List, [], ◌∷◌, ◌++◌, Option, none, some,
  if◌then◌else◌,
}
use ctsubmit.Pki.Discovery.{bytes_equal}

pub record Extension : Type 0 where
  pub id : List ℕ
  pub critical : Bool
  pub value : List ℕ

pub record TbsCertificate (Other : Type 0) : Type 0 where
  pub other : Other
  pub extensions : List Extension

pub data Detoxed (Other : Type 0) : Type 0 where
  detoxed : TbsCertificate Other → Detoxed Other
  not_asn1 trailing_data multiple_poisons no_poison : Detoxed Other

-- poisonIdx after the loop over the extensions, or that there is a second one.
pub data PoisonIdx : Type 0 where
  nowhere twice : PoisonIdx
  here : ℕ → PoisonIdx

abbrev pub remove_at {ℓ} : {A : Type ℓ} → ℕ → List A → List A
remove_at i [] = []
remove_at zero (x ∷ xs) = xs
remove_at (suc i) (x ∷ xs) = x ∷ remove_at i xs

module _ (poison : List ℕ) where
  -- Extension `i` is the first of the list.
  unfoldable pub find_poison : PoisonIdx → ℕ → List Extension → PoisonIdx
  unfolding bytes_equal
  find_poison found i [] = found
  find_poison twice i (e ∷ es) = twice
  find_poison nowhere i (e ∷ es) =
      find_poison (if bytes_equal e.id poison then here i else nowhere) (i + 1) es
  find_poison (here j) i (e ∷ es) =
      find_poison (if bytes_equal e.id poison then twice else here j) (i + 1) es

  unfoldable pub detox_tbs_certificate_from_precertificate :
      {Other : Type 0} → Option (TbsCertificate Other × List ℕ) → Detoxed Other
  unfolding find_poison
  detox_tbs_certificate_from_precertificate none = not_asn1
  detox_tbs_certificate_from_precertificate (some (tbs, b ∷ bs)) = trailing_data
  detox_tbs_certificate_from_precertificate (some (tbs, [])) =
      elim (find_poison nowhere 0 tbs.extensions) [
        | nowhere ↦ no_poison
        | twice ↦ multiple_poisons
        | here i ↦ detoxed (record tbs { extensions = remove_at i tbs.extensions })
      ]

-- `octet_string` and `marshal` are asn1.Marshal of the SCT list and of the certificate.
module _ {Other : Type 0} (octet_string : List ℕ → Option (List ℕ))
    (marshal : TbsCertificate Other → Option (List ℕ)) (sct_list_id : List ℕ) where
  abbrev pub with_sct_list : TbsCertificate Other → List ℕ → TbsCertificate Other
  with_sct_list tbs value = record tbs {
    extensions =
        tbs.extensions ++ record { id = sct_list_id; critical = false; value = value } ∷ [];
  }

  unfoldable pub produce_final_tbs_certificate : TbsCertificate Other → List ℕ → Option (List ℕ)
  produce_final_tbs_certificate tbs sct_list = elim (octet_string sct_list) [
    | none ↦ none
    | some value ↦ marshal (with_sct_list tbs value)
  ]
