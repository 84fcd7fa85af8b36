-- ===== src/Pki/Discovery/Total.antt =====
-- The loop of DiscoverChain ends: every round sees a new hash of the table.
use ctsubmit.Prelude.{
  ℕ, zero, suc, ◌≤◌, ◌<◌, ◌≡◌, ◌≢◌, String, false, List, [], ◌∷◌, ◌++◌, Option, none, some, length,
  lookup, insert, contains, contains-insert, nat_eq, string_eq, arith, if◌then◌else◌, Option-cases,
  inl, inr, ==_refl,
}
use ctsubmit.Pki.Discovery.{
  Parents, Context, parent_in, Table, X509, Next, exhausted, last_of, all_seen, next_parent, aki_of,
  discover, discover_chain,
}

-- How many rows have a parent that has not been seen.
unseen : Context → List ℕ → Table → ℕ
unseen c seen [] = 0
unseen c seen ((aki, p) ∷ rows) =
    if contains seen (parent_in c p) then unseen c seen rows else suc (unseen c seen rows)

unseen-le : (c : Context) (seen : List ℕ) (table : Table) → unseen c seen table ≤ length table
unfolding unseen
unseen-le c seen [] = omega arith
unseen-le c seen ((aki, p) ∷ rows) = ground (arith, unseen-le c seen rows)

unseen-insert-le :
    (c : Context) (h : ℕ) (seen : List ℕ) (table : Table)
    → unseen c (insert h seen) table ≤ unseen c seen table
unfolding unseen
unseen-insert-le c h seen [] = omega arith
unseen-insert-le c h seen ((aki, p) ∷ rows) =
    ground (arith, contains-insert h (parent_in c p) seen, unseen-insert-le c h seen rows)

-- A row that is found and whose parent is new leaves one less to see.
unseen-insert-lt :
    (c : Context) (aki : String) (p : Parents) (seen : List ℕ) (table : Table)
    → lookup aki table ≡ some p
    → contains seen (parent_in c p) ≡ false
    → unseen c (insert (parent_in c p) seen) table < unseen c seen table
unfolding unseen lookup
unseen-insert-lt c aki p seen [] h n = cc
unseen-insert-lt c aki p seen ((a, q) ∷ rows) h n = ground (
  arith,
  contains-insert (parent_in c p) (parent_in c q) seen,
  ==_refl (parent_in c p),
  unseen-insert-le c (parent_in c p) seen rows,
  unseen-insert-lt c aki p seen rows,
)

module _ (table : Table) (known : ℕ → Option (List ℕ)) (parse : List ℕ → Option X509)
    (hex_upper : List ℕ → String) (sha256 : List ℕ → ℕ) (context : Context) where
  next-lt :
      (aki : String) (seen : List ℕ) (n : Next)
      → next_parent table known parse hex_upper sha256 context aki seen ≡ some n
      → unseen context (insert n.hash seen) table < unseen context seen table
  unfolding next_parent
  next-lt aki seen n h = elim (Option-cases (lookup aki table)) [
    | inl missing ↦ ground arith
    | inr (p, found) ↦ ground (arith, unseen-insert-lt context aki p seen table)
  ]

  discover-ne-none :
      (fuel : ℕ) (aki : String) (seen : List ℕ) (chain : List (List ℕ))
      → unseen context seen table < fuel
      → discover table known parse hex_upper sha256 context fuel aki seen chain ≢ none
  unfolding discover
  discover-ne-none zero aki seen chain h = absurd (omega arith)
  discover-ne-none (suc fuel) aki seen chain h =
      elim (Option-cases (next_parent table known parse hex_upper sha256 context aki seen)) [
        | inl stop ↦ ground arith
        | inr (n, e) ↦ ground (
          arith,
          next-lt aki seen n e,
          discover-ne-none fuel (aki_of table known parse hex_upper sha256 context n.cert)
              (insert n.hash seen) (chain ++ n.der ∷ []),
        )
      ]

  -- The search for parents always ends: the fuel is never used up, even if the table has cycles.
  pub discover_chain_total :
      (leaf : List ℕ) (issuers : List (List ℕ))
      → discover_chain table known parse hex_upper sha256 context leaf issuers ≢ exhausted
  unfolding discover_chain
  discover_chain_total leaf issuers = elim (Option-cases (parse (last_of leaf issuers))) [
    | inl bad ↦ ground arith
    | inr (cert, good) ↦
        let aki = aki_of table known parse hex_upper sha256 context cert in
        let seen = all_seen table known parse hex_upper sha256 context (leaf ∷ issuers) in
        let room : unseen context seen table < suc (length table) =
          omega (arith, unseen-le context seen table) in
        ground (arith, discover-ne-none (suc (length table)) aki seen (leaf ∷ issuers) room)
  ]
