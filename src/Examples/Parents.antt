-- ===== src/Examples/Parents.antt =====
-- The search for chains, the selection and the table: cmd/optimalparents/main.go.
use Prim.Native.String.{String}
use text.Mathlib.TextEquality.{eq_iff}
use ctsubmit.Prelude.{
  zero, suc, Option, none, store, Bool-cases, arith, sym, ap, ◌∙◌, subst, ℕ, ◌≡◌, refl, ◌≢◌, ◌⊎◌,
  false, List, [], ◌∷◌, some, lookup, ltb, ◌&&◌, All, contains, insert, select, ◌==◌, string_eq,
  inl, inr, nat_eq, if◌then◌else◌,
}
use ctsubmit.Pki.Discovery.{init_optimal_parents, bytes_equal}
use ctsubmit.OptimalParents.{
  index_certs, CertInfo, Index, is_self_signed, found, exhausted, build_chains,
}
use ctsubmit.OptimalParents.Total.{build_chains_total}
use ctsubmit.OptimalParents.Rooted.{Rooted, Ascends, last_cert}
use ctsubmit.OptimalParents.Complete.{Member, build_chains_lem}
use ctsubmit.Submitter.CompatibleLogs.{is_empty}
use ctsubmit.OptimalParents.Selection.{
  Entry, LogGroup, RootSets, best_of, entries, ContextGroups, row_of, optimal_parents_csv,
  has_any_parent,
}
use ctsubmit.OptimalParents.Selection.Reload.{
  hash_of, OnlyKey, init_optimal_parents-optimal_parents_csv,
}
use ctsubmit.OptimalParents.Selection.Best.{is_better, Occurs, best_of_lem}

-- Certificate 3 is issued by 2, which is issued by the root 1; certificate 9 has the key of 2 and
-- is issued by 3.
abbrev info : ℕ → List ℕ → List ℕ → CertInfo
info n aki ski = record {
  cert = record {
    authority_key_id = some aki;
    subject_key_id = some ski;
    raw_issuer = [];
    raw_subject = [];
  };
  not_after = 7;
  raw = n ∷ [];
  sha256 = n;
}

abbrev root : CertInfo
root = info 1 (4 ∷ []) (4 ∷ [])

abbrev inner : CertInfo
inner = info 2 (4 ∷ []) (5 ∷ [])

abbrev leaf : CertInfo
leaf = info 3 (5 ∷ []) (6 ∷ [])

abbrev cross : CertInfo
cross = info 9 (6 ∷ []) (5 ∷ [])

abbrev hex : List ℕ → String
hex b = if bytes_equal b (4 ∷ []) then "4" else if bytes_equal b (5 ∷ []) then "5" else "6"

abbrev index : Index
index = ("4", root ∷ []) ∷ ("5", inner ∷ cross ∷ []) ∷ ("6", leaf ∷ []) ∷ []

build_chains_total_example : build_chains hex index leaf ≢ exhausted
build_chains_total_example = build_chains_total hex index leaf

abbrev one_chain : List (List (List ℕ))
one_chain = ((3 ∷ []) ∷ (2 ∷ []) ∷ (1 ∷ []) ∷ []) ∷ []

leaf_chains : build_chains hex index leaf ≡ found one_chain
unfolding build_chains lookup bytes_equal contains insert select
leaf_chains = refl

not_root : is_self_signed leaf ≡ false
unfolding is_self_signed
not_root = refl

-- The certificate with a hash.
abbrev by_hash : ℕ → CertInfo
by_hash n = if n == 1 then root else if n == 2 then inner else if n == 9 then cross else leaf

known : (c : CertInfo) → Member hex index leaf c → c ≡ by_hash c.sha256
known c (inl e) = subst (λ (d : CertInfo). d ≡ by_hash d.sha256) (sym e) refl
known c (inr (inl e)) = subst (λ (d : CertInfo). d ≡ by_hash d.sha256) (sym e) refl
known c (inr (inr (inl e))) = subst (λ (d : CertInfo). d ≡ by_hash d.sha256) (sym e) refl
known c (inr (inr (inr (inl e)))) = subst (λ (d : CertInfo). d ≡ by_hash d.sha256) (sym e) refl
known c (inr (inr (inr (inr (inl e))))) =
    subst (λ (d : CertInfo). d ≡ by_hash d.sha256) (sym e) refl
known c (inr (inr (inr (inr (inr x))))) = elim x [ ]

one_each :
    (c d : CertInfo)
    → Member hex index leaf c
    → Member hex index leaf d
    → c.sha256 ≡ d.sha256
    → c ≡ d
one_each c d m n e = known c m ∙ (ap by_hash e ∙ sym (known d n))

build_chains_lem_example :
    (All (Rooted hex index leaf) one_chain × (is_empty one_chain ≡ false))
    ⊎ ((one_chain ≡ ((3 ∷ []) ∷ []) ∷ [])
        × ((certs : List CertInfo)
            → Ascends hex index leaf certs
            → is_self_signed (last_cert leaf certs) ≡ false))
build_chains_lem_example = build_chains_lem hex index leaf one_each one_chain not_root leaf_chains

-- Two logs accept root 1. The hash of a certificate is its first byte.
abbrev sha256 : List ℕ → ℕ
sha256 b = elim b [ [] ↦ 0 | n ∷ rest ↦ n ]

abbrev sets : RootSets
sets = (70, 1 ∷ []) ∷ []

abbrev groups : List LogGroup
groups = record { roots_hash = 70; count = 2 } ∷ []

abbrev chosen : Entry
chosen = record { score = 2; chain_len = 2; not_after = 7; hash = 2 }

inner_best : best_of sha256 hex index sets groups (cross ∷ inner ∷ []) ≡ some chosen
unfolding best_of build_chains lookup bytes_equal contains insert select
inner_best = refl

best_of_lem_example :
    Occurs chosen (entries sha256 hex index sets groups (cross ∷ inner ∷ []))
    × All
        (λ e. (ltb 0 e.score && is_better e chosen) ≡ false)
        (entries sha256 hex index sets groups (cross ∷ inner ∷ []))
best_of_lem_example =
    best_of_lem sha256 hex index sets groups (cross ∷ inner ∷ []) chosen inner_best

-- A hash as a text of so many letters and one more.
abbrev letters : ℕ → String
letters zero = "x"
letters (suc n) = String.◌∷◌ "x" (letters n)

abbrev count_letters : String → Option ℕ
count_letters String.[] = none
count_letters (String.◌∷◌ c s) = elim (count_letters s) [ none ↦ some 0 | some n ↦ some (suc n) ]

counted : (h : ℕ) → count_letters (letters h) ≡ some h
counted zero = refl
counted (suc n) = rw (counted n) refl

not_empty : (h : ℕ) → (letters h == "") ≡ false
not_empty zero = refl
not_empty (suc n) = elim (Bool-cases (letters (suc n) == "")) [
  | inl empty ↦ cc ((eq_iff (letters (suc n)) "").0 empty)
  | inr more ↦ more
]

abbrev all_groups : ContextGroups
all_groups = record { usable_tls = groups; active_tls = []; test_tls = []; usable_bimi = [] }

abbrev same : String → String
same s = s

abbrev all_certs_read : List CertInfo
all_certs_read = root ∷ inner ∷ cross ∷ leaf ∷ []

only_five :
    OnlyKey same count_letters sha256 hex letters "5"
      (inner ∷ cross ∷ [])
      (index_certs hex all_certs_read [])
unfolding index_certs lookup store bytes_equal
only_five = inr (refl, inl (refl, refl, (refl, tt)))

init_optimal_parents-optimal_parents_csv_example :
    let certs_index = index_certs hex all_certs_read [] in
    let best = λ (gs : List LogGroup).
      hash_of same count_letters sha256 hex letters
        (best_of sha256 hex certs_index sets gs (inner ∷ cross ∷ [])) in
    lookup "5" (
      init_optimal_parents same count_letters
        (optimal_parents_csv sha256 hex letters same all_certs_read sets all_groups))
    ≡ (if has_any_parent
          (row_of sha256 hex letters same certs_index sets all_groups "5" (inner ∷ cross ∷ []))
        then some (record {
          usable_tls = best groups;
          active_tls = best [];
          test_tls = best [];
          usable_bimi = best [];
        })
        else none)
init_optimal_parents-optimal_parents_csv_example =
    init_optimal_parents-optimal_parents_csv same count_letters sha256 hex letters (λ s. refl)
      (λ h small. counted h) not_empty all_certs_read sets all_groups "5" (inner ∷ cross ∷ [])
      only_five (omega arith, (omega arith, tt))
