-- ===== src/Pki/Discovery/Linked.antt =====
-- What DiscoverChain adds: a chain of optimal parents.
use ctsubmit.Prelude.{
  ℕ, zero, suc, ◌<◌, ◌≡◌, ◌∙◌, ◌≢◌, String, false, List, [], ◌∷◌, ◌++◌, Option, some, length,
  lookup, insert, ◌==◌, nat_eq, string_eq, arith, Option-cases, Bool-cases, inl, inr,
}
use mathlib.Core.List.{append-nil, append_assoc}
use ctsubmit.Pki.Discovery.{
  Parents, Context, parent_in, Table, X509, Next, extended, last_of, all_seen, next_parent, aki_of,
  is_self_signed_cert, discover, discover_chain,
}

module _ (table : Table) (known : ℕ → Option (List ℕ)) (parse : List ℕ → Option X509)
    (hex_upper : List ℕ → String) (sha256 : List ℕ → ℕ) (context : Context) where
  -- Each certificate is the table's parent for the authority key identifier before it, which is
  -- known, parses and is not self-signed.
  abbrev pub Linked : String → List (List ℕ) → Type 0
  Linked aki [] = Unit
  Linked aki (der ∷ ders) =
      (p : Parents) × (cert : X509) × (lookup aki table ≡ some p)
      × (known (parent_in context p) ≡ some der)
      × (parse der ≡ some cert)
      × (is_self_signed_cert cert ≡ false)
      × Linked (aki_of table known parse hex_upper sha256 context cert) ders

  next-Linked :
      (aki : String) (seen : List ℕ) (n : Next)
      → next_parent table known parse hex_upper sha256 context aki seen ≡ some n
      → (p : Parents) × (lookup aki table ≡ some p)
        × (known (parent_in context p) ≡ some n.der)
        × (parse n.der ≡ some n.cert)
        × (is_self_signed_cert n.cert ≡ false)
  unfolding next_parent
  next-Linked aki seen n h = elim (Option-cases (lookup aki table)) [
    | inl missing ↦ absurd (ground arith)
    | inr (p, found) ↦ (p, found, ground arith, ground arith, ground arith)
  ]

  discover-Linked :
      (fuel : ℕ) (aki : String) (seen : List ℕ) (chain result : List (List ℕ))
      → discover table known parse hex_upper sha256 context fuel aki seen chain ≡ some result
      → (added : List (List ℕ)) × (result ≡ chain ++ added) × Linked aki added
  unfolding discover
  discover-Linked zero aki seen chain result h = cc
  discover-Linked (suc fuel) aki seen chain result h =
      elim (Option-cases (next_parent table known parse hex_upper sha256 context aki seen)) [
        | inl stop ↦ ([], ground (arith, append-nil chain), tt)
        | inr (n, e) ↦
            let (p, found, der, parsed, unsigned) = next-Linked aki seen n e in
            let aki' = aki_of table known parse hex_upper sha256 context n.cert in
            elim (Bool-cases (aki' == "")) [
              | inl end ↦ (n.der ∷ [], ground arith, (p, n.cert, found, der, parsed, unsigned, tt))
              | inr more ↦
                  let (added, eq, linked) =
                    discover-Linked fuel aki' (insert n.hash seen) (chain ++ n.der ∷ []) result
                      (ground arith) in
                  (
                    n.der ∷ added,
                    eq ∙ append_assoc chain (n.der ∷ []) added,
                    (p, n.cert, found, der, parsed, unsigned, linked),
                  )
            ]
      ]

  -- A chain that is returned is the submitted one with at least one certificate added to its end,
  -- and what is added links on: each certificate is the known, parsed and not self-signed optimal
  -- parent of the one before.
  pub discover_chain-Linked :
      (leaf : List ℕ) (issuers chain : List (List ℕ))
      → discover_chain table known parse hex_upper sha256 context leaf issuers ≡ extended chain
      → (cert : X509) × (added : List (List ℕ)) × (parse (last_of leaf issuers) ≡ some cert)
        × (chain ≡ (leaf ∷ issuers) ++ added)
        × (added ≢ [])
        × Linked (aki_of table known parse hex_upper sha256 context cert) added
  unfolding discover_chain
  discover_chain-Linked leaf issuers chain h = elim (Option-cases (parse (last_of leaf issuers))) [
    | inl bad ↦ absurd (ground arith)
    | inr (cert, good) ↦
        let aki = aki_of table known parse hex_upper sha256 context cert in
        let seen = all_seen table known parse hex_upper sha256 context (leaf ∷ issuers) in
        let found : discover table known parse hex_upper sha256 context (suc (length table)) aki
              seen (leaf ∷ issuers)
            ≡ some chain =
          ground arith in
        let longer : length (leaf ∷ issuers) < length chain = ground arith in
        let (added, eq, linked) =
          discover-Linked (suc (length table)) aki seen (leaf ∷ issuers) chain found in
        (cert, added, good, eq, λ e. absurd (ground (arith, append-nil (leaf ∷ issuers))), linked)
  ]
