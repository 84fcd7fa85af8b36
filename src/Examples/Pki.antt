-- ===== src/Examples/Pki.antt =====
-- Small chains, tables and certificates: pki/chain.go, discovery.go and finalTBSCertificate.go.
use ctsubmit.Prelude.{
  nat_beq_iff, ℕ, ◌≡◌, refl, ◌↔◌, ◌≢◌, String, Bool, false, List, [], ◌∷◌, ◌++◌, Option, none, some,
  length, leb, ◌==◌, nat_eq, lookup, contains, insert, if◌then◌else◌, arith,
}
use ctsubmit.Submitter.LogList.{TemporalInterval}
use ctsubmit.Pki.Chain.{init_cache, validate_chain}
use ctsubmit.Pki.Chain.Sound.{Request, validate_each, validate_chain_reuse}
use ctsubmit.Pki.Chain.First.{answered_by, validate_each-first}
use ctsubmit.Pki.Discovery.{
  Table, X509, col_usable_tls, extended, exhausted, discover_chain, last_of, aki_of, bytes_equal,
}
use ctsubmit.Pki.Discovery.Total.{discover_chain_total}
use ctsubmit.Pki.Discovery.Linked.{Linked, discover_chain-Linked}
use ctsubmit.Pki.FinalTbs.{
  Extension, TbsCertificate, detoxed, detox_tbs_certificate_from_precertificate,
}
use ctsubmit.Pki.FinalTbs.Detox.{poisons, others, detox_tbs_certificate_lem}

-- A validator that only accepts the leaf 9, and a hash that is the number of certificates.
abbrev strict_leaf : ℕ → List (List ℕ) → Option TemporalInterval → Bool
strict_leaf id [] interval = false
strict_leaf id (leaf ∷ rest) interval = bytes_equal leaf (9 ∷ [])

abbrev rooted : ℕ → Bool
rooted id = id == 4

cache_there : lookup 4 (init_cache (4 ∷ [])) ≢ none
unfolding init_cache lookup
cache_there h = ground arith

validate_chain_reuse_example :
    let (valid, m') =
      validate_chain length rooted strict_leaf 4
        ((8 ∷ []) ∷ (1 ∷ []) ∷ [])
        none
        (init_cache (4 ∷ [])) in
    validate_chain length rooted strict_leaf 4 ((9 ∷ []) ∷ (1 ∷ []) ∷ []) none m' ≡ (valid, m')
validate_chain_reuse_example =
    validate_chain_reuse length rooted strict_leaf 4 (8 ∷ []) (9 ∷ []) (1 ∷ []) [] none none
      (init_cache (4 ∷ [])) refl cache_there

-- A validator that accepts chains of up to three certificates.
abbrev short_enough : ℕ → List (List ℕ) → Option TemporalInterval → Bool
short_enough id chain interval = leb (length chain) 3

abbrev requests : List Request
requests =
    record { log_id = 4; chain = (8 ∷ []) ∷ (1 ∷ []) ∷ []; interval = none }
    ∷ record { log_id = 4; chain = (9 ∷ []) ∷ (1 ∷ []) ∷ []; interval = none }
    ∷ record { log_id = 5; chain = (9 ∷ []) ∷ []; interval = none }
    ∷ []

rooted_logs : (id : ℕ) → rooted id ≡ contains (4 ∷ []) id
unfolding contains
rooted_logs id = ground (arith, nat_beq_iff id 4, nat_beq_iff 4 id)

validate_each-first_example :
    validate_each length rooted short_enough requests (init_cache (4 ∷ []))
    ≡ answered_by length rooted short_enough [] requests
validate_each-first_example =
    validate_each-first length rooted short_enough (4 ∷ []) rooted_logs requests

-- The parent of the leaf is certificate 7, which names no issuer itself.
abbrev table : Table
table = ("AA", record { usable_tls = 7; active_tls = 0; test_tls = 0; usable_bimi = 0 }) ∷ []

abbrev known : ℕ → Option (List ℕ)
known h = if h == 7 then some (1 ∷ 1 ∷ []) else none

abbrev parse : List ℕ → Option X509
parse der =
    if bytes_equal der (9 ∷ [])
    then some (record {
      authority_key_id = some (2 ∷ []);
      subject_key_id = none;
      raw_issuer = 5 ∷ [];
      raw_subject = 6 ∷ [];
    })
    else some (record {
      authority_key_id = none;
      subject_key_id = some (2 ∷ []);
      raw_issuer = [];
      raw_subject = 5 ∷ [];
    })

abbrev hex_upper : List ℕ → String
hex_upper [] = ""
hex_upper (b ∷ bs) = "AA"

discover_chain_total_example :
    discover_chain table known parse hex_upper length col_usable_tls (9 ∷ []) [] ≢ exhausted
discover_chain_total_example =
    discover_chain_total table known parse hex_upper length col_usable_tls (9 ∷ []) []

found_chain :
    discover_chain table known parse hex_upper length col_usable_tls (9 ∷ []) []
    ≡ extended ((9 ∷ []) ∷ (1 ∷ 1 ∷ []) ∷ [])
unfolding discover_chain lookup bytes_equal contains insert
found_chain = refl

discover_chain-Linked_example :
    (cert : X509) × (added : List (List ℕ)) × (parse (last_of (9 ∷ []) []) ≡ some cert)
    × ((9 ∷ []) ∷ (1 ∷ 1 ∷ []) ∷ [] ≡ ((9 ∷ []) ∷ []) ++ added)
    × (added ≢ [])
    × Linked table known parse hex_upper length col_usable_tls
        (aki_of table known parse hex_upper length col_usable_tls cert)
        added
discover_chain-Linked_example =
    discover_chain-Linked table known parse hex_upper length col_usable_tls (9 ∷ []) []
      ((9 ∷ []) ∷ (1 ∷ 1 ∷ []) ∷ []) found_chain

-- Extensions 3, the poison 1, and 5.
abbrev extension : ℕ → Extension
extension n = record { id = n ∷ []; critical = false; value = [] }

abbrev tbs : TbsCertificate ℕ
tbs = record { other = 6; extensions = extension 3 ∷ extension 1 ∷ extension 5 ∷ [] }

abbrev clean : TbsCertificate ℕ
clean = record { other = 6; extensions = extension 3 ∷ extension 5 ∷ [] }

detox_tbs_certificate_lem_example :
    (detox_tbs_certificate_from_precertificate (1 ∷ []) (some (tbs, [])) ≡ detoxed clean) ↔ (
      (poisons (1 ∷ []) tbs.extensions ≡ 1)
      × (clean ≡ record tbs { extensions = others (1 ∷ []) tbs.extensions }))
detox_tbs_certificate_lem_example = detox_tbs_certificate_lem (1 ∷ []) tbs clean
