-- ===== src/OptimalParents.antt =====
-- cmd/optimalparents/main.go, the search for chains. A hash is the number that its bytes spell;
-- `hex` is hex.EncodeToString. A map from key identifiers is an association list.
pub mod Total
pub mod Rooted
pub mod Visited
pub mod Complete
pub mod Selection
use ctsubmit.Prelude.{
  ℕ, zero, suc, ◌+◌, String, Bool, true, false, not, List, [], ◌∷◌, ◌++◌, Option, none, some,
  length, ltb, lookup, store, insert, contains, select, ◌==◌, nat_eq, string_eq, if◌then◌else◌,
}
use ctsubmit.Pki.Discovery.{X509, bytes_of, is_self_signed_cert}

pub record CertInfo : Type 0 where
  pub cert : X509
  pub not_after : ℕ
  pub raw : List ℕ
  pub sha256 : ℕ

abbrev pub Index : Type 0
Index = List (String × List CertInfo)

abbrev pub certs_at : String → Index → List CertInfo
certs_at ski index = elim (lookup ski index) [ none ↦ [] | some cs ↦ cs ]

unfoldable pub is_self_signed : CertInfo → Bool
unfolding is_self_signed_cert
is_self_signed ci = is_self_signed_cert ci.cert

-- A node of the search, with the certificates that lead to it.
pub record Node : Type 0 where
  pub ci : CertInfo
  pub path : List (List ℕ)

pub record Search : Type 0 where
  pub queue : List Node
  pub visited : List ℕ
  pub seen_roots : List ℕ
  pub chains : List (List (List ℕ))

-- The result of buildChains, with `exhausted` for a search that has run out of fuel.
pub data Chains : Type 0 where
  found : List (List (List ℕ)) → Chains
  exhausted : Chains

module _ (hex : List ℕ → String) where
  -- The index by the subject key identifier.
  unfoldable pub index_certs : List CertInfo → Index → Index
  index_certs [] index = index
  index_certs (ci ∷ cis) index =
      let ski = bytes_of ci.cert.subject_key_id in
      index_certs cis (
        if ltb 0 (length ski)
        then store (hex ski) (certs_at (hex ski) index ++ ci ∷ []) index
        else index)

  unfoldable pub find_parents : Index → CertInfo → List CertInfo
  find_parents index ci =
      let aki = bytes_of ci.cert.authority_key_id in
      if length aki == 0
      then []
      else select (λ (c : CertInfo). not (c.sha256 == ci.sha256)) (certs_at (hex aki) index)

-- One parent of a node.
unfoldable pub visit : Node → CertInfo → Search → Search
unfolding is_self_signed
visit node parent s =
    let new_path = node.path ++ parent.raw ∷ [] in
    if contains s.visited parent.sha256
    then s
    else if is_self_signed parent
    then (if contains s.seen_roots parent.sha256 then s else record s {
      seen_roots = insert parent.sha256 s.seen_roots;
      chains = s.chains ++ new_path ∷ [];
    })
    else record s {
      visited = insert parent.sha256 s.visited;
      queue = s.queue ++ record { ci = parent; path = new_path } ∷ [];
    }

unfoldable pub visit_all : Node → List CertInfo → Search → Search
unfolding visit
visit_all node [] s = s
visit_all node (parent ∷ parents) s = visit_all node parents (visit node parent s)

-- How many certificates an index holds.
abbrev pub size : Index → ℕ
size [] = 0
size ((ski, cs) ∷ index) = length cs + size index

module _ (hex : List ℕ → String) (index : Index) where
  unfoldable pub search : ℕ → Search → Option Search
  unfolding find_parents visit_all
  search zero s = none
  search (suc fuel) s = elim s.queue [
    | [] ↦ some s
    | node ∷ rest ↦
        search fuel (visit_all node (find_parents hex index node.ci) (record s { queue = rest }))
  ]

  abbrev pub search_from : CertInfo → Search
  search_from ci = record {
    queue = record { ci = ci; path = ci.raw ∷ [] } ∷ [];
    visited = ci.sha256 ∷ [];
    seen_roots = [];
    chains = [];
  }

  -- Each round takes a node off the queue and each certificate is put on it at most once, so the
  -- fuel is the number of certificates and two.
  unfoldable pub build_chains : CertInfo → Chains
  unfolding search is_self_signed
  build_chains ci =
      let result = search (suc (suc (size index))) (search_from ci) in
      if is_self_signed ci then found [] else elim result [
        | none ↦ exhausted
        | some s ↦ found (elim s.chains [ [] ↦ (ci.raw ∷ []) ∷ [] | _ ∷ _ ↦ s.chains ])
      ]
