-- ===== src/Pki/Chain/Sound.antt =====
-- What the cache gives away: a result stands for every chain with the same issuers.
use ctsubmit.Prelude.{
  ℕ, ◌≡◌, refl, Bool, true, List, [], ◌∷◌, Option, none, some, lookup, store, ◌==◌, nat_eq,
  lookup-store, ==_refl, arith, if◌then◌else◌, Option-cases, nat_beq_iff, inl, inr, ◌≢◌,
}
use ctsubmit.Submitter.LogList.{TemporalInterval}
use ctsubmit.Pki.Chain.{
  Cache, init_cache, cached_validate_chain_result, cache_validate_chain_result, validate_chain,
}

-- The arguments of a call.
pub record Request : Type 0 where
  pub log_id : ℕ
  pub chain : List (List ℕ)
  pub interval : Option TemporalInterval

-- The answers to a sequence of calls.
abbrev pub validate_each :
    (List (List ℕ) → ℕ)
    → (ℕ → Bool)
    → (ℕ → List (List ℕ) → Option TemporalInterval → Bool)
    → List Request
    → Cache
    → List Bool
validate_each sha256 has_roots validate [] m = []
validate_each sha256 has_roots validate (r ∷ rs) m =
    let (valid, m') = validate_chain sha256 has_roots validate r.log_id r.chain r.interval m in
    valid ∷ validate_each sha256 has_roots validate rs m'

pub cached-cache :
    (id hash id' hash' : ℕ) (valid : Bool) (m : Cache)
    → cached_validate_chain_result id' hash' (cache_validate_chain_result id hash valid m) ≡ (
        if id == id'
        then elim (lookup id m) [
          | none ↦ none
          | some results ↦ if hash == hash' then some valid else lookup hash' results
        ]
        else cached_validate_chain_result id' hash' m)
unfolding cached_validate_chain_result cache_validate_chain_result
cached-cache id hash id' hash' valid m = elim (Option-cases (lookup id m)) [
  | inl missing ↦ ground (arith, nat_beq_iff id id')
  | inr (results, found) ↦ ground (
    arith,
    nat_beq_iff id id',
    lookup-store id id' (store hash valid results) m,
    lookup-store hash hash' valid results,
  )
]

pub cached-init :
    (id hash : ℕ) (ids : List ℕ) → cached_validate_chain_result id hash (init_cache ids) ≡ none
unfolding cached_validate_chain_result init_cache lookup
cached-init id hash [] = refl
cached-init id hash (i ∷ ids) = ground (arith, cached-init id hash ids)

module _ (sha256 : List (List ℕ) → ℕ) (has_roots : ℕ → Bool)
    (validate : ℕ → List (List ℕ) → Option TemporalInterval → Bool) where
  -- Once a chain has been validated for a log with accepted roots, every other leaf with the same
  -- issuers gets the same answer from the cache, whatever a validation of it would give.
  pub validate_chain_reuse :
      (id : ℕ) (leaf leaf' issuer : List ℕ) (rest : List (List ℕ))
      (interval interval' : Option TemporalInterval) (m : Cache)
      → has_roots id ≡ true
      → lookup id m ≢ none
      → let (valid, m') =
          validate_chain sha256 has_roots validate id (leaf ∷ issuer ∷ rest) interval m in
        validate_chain sha256 has_roots validate id (leaf' ∷ issuer ∷ rest) interval' m'
        ≡ (valid, m')
  unfolding validate_chain
  validate_chain_reuse id leaf leaf' issuer rest interval interval' m roots there =
      let hash = sha256 (issuer ∷ rest) in
      ground (
        arith,
        ==_refl id,
        ==_refl hash,
        cached-cache id hash id hash (validate id (leaf ∷ issuer ∷ rest) interval) m,
      )
