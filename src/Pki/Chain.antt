-- ===== src/Pki/Chain.antt =====
-- pki/chain.go: the cache of chain validations. A log ID and a hash are what their bytes spell;
-- `sha256` is the hash of the joined certificates after the first. ctfe.ValidateChain with the
-- options of a log, its accepted roots and its temporal interval, is the parameter `validate`.
pub mod Sound
pub mod First
use ctsubmit.Prelude.{
  ℕ, Bool, true, false, List, [], ◌∷◌, Option, none, some, length, ltb, lookup, store, ◌==◌, nat_eq,
  contains, if◌then◌else◌,
}
use ctsubmit.Submitter.LogList.{TemporalInterval}

-- For each log with accepted roots, the results by the hash of the issuers.
abbrev pub Cache : Type 0
Cache = List (ℕ × List (ℕ × Bool))

-- The cache when the package has been initialised.
unfoldable pub init_cache : List ℕ → Cache
init_cache [] = []
init_cache (id ∷ ids) = (id, []) ∷ init_cache ids

unfoldable pub cached_validate_chain_result : ℕ → ℕ → Cache → Option Bool
cached_validate_chain_result log_id hash m = elim (lookup log_id m) [
  | none ↦ none
  | some results ↦ lookup hash results
]

unfoldable pub cache_validate_chain_result : ℕ → ℕ → Bool → Cache → Cache
cache_validate_chain_result log_id hash valid m = elim (lookup log_id m) [
  | none ↦ m
  | some results ↦ store log_id (store hash valid results) m
]

-- `submittedChain[1:]`
abbrev pub issuers : List (List ℕ) → List (List ℕ)
issuers [] = []
issuers (leaf ∷ rest) = rest

module _ (sha256 : List (List ℕ) → ℕ) (has_roots : ℕ → Bool)
    (validate : ℕ → List (List ℕ) → Option TemporalInterval → Bool) where
  -- A cache miss, or no cache: the result and the cache after it.
  unfoldable pub validate_uncached :
      ℕ → List (List ℕ) → Option TemporalInterval → Cache → Bool × Cache
  unfolding cache_validate_chain_result
  validate_uncached log_id chain interval m =
      let valid = validate log_id chain interval in
      if has_roots log_id
      then (
        valid,
        if ltb 1 (length chain)
            then cache_validate_chain_result log_id (sha256 (issuers chain)) valid m
            else m,
      )
      else (true, m)

  unfoldable pub validate_chain : ℕ → List (List ℕ) → Option TemporalInterval → Cache → Bool × Cache
  unfolding cached_validate_chain_result validate_uncached
  validate_chain log_id chain interval m =
      let cached : Option Bool =
        if ltb 1 (length chain)
        then cached_validate_chain_result log_id (sha256 (issuers chain)) m
        else none in
      elim cached [ none ↦ validate_uncached log_id chain interval m | some valid ↦ (valid, m) ]
