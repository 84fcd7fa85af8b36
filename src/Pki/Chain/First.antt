-- ===== src/Pki/Chain/First.antt =====
-- A sequence of validations with the cache, against a reference without one.
use ctsubmit.Prelude.{
  not, sym, ap, ◌∙◌, subst, false, contains, ◌&&◌, ◌++◌, length, ltb, Bool-cases, ℕ, ◌≡◌, refl,
  Bool, true, List, [], ◌∷◌, Option, none, some, lookup, store, ◌==◌, nat_eq, lookup-store, ==_refl,
  arith, if◌then◌else◌, Option-cases, nat_beq_iff, inl, inr,
}
use ctsubmit.Submitter.LogList.{TemporalInterval}
use ctsubmit.Pki.Chain.{
  issuers, Cache, init_cache, cached_validate_chain_result, cache_validate_chain_result,
  validate_chain,
}
use ctsubmit.Pki.Chain.Sound.{Request, validate_each, cached-cache, cached-init}

abbrev is_present : {V : Type 0} → Option V → Bool
is_present none = false
is_present (some v) = true

cached_here :
    (id hash : ℕ) (valid : Bool) (m : Cache)
    → is_present (lookup id m) ≡ true
    → cached_validate_chain_result id hash (cache_validate_chain_result id hash valid m)
      ≡ some valid
cached_here id hash valid m h =
    ground (arith, ==_refl id, ==_refl hash, cached-cache id hash id hash valid m)

cached_elsewhere :
    (id hash id' hash' : ℕ) (valid : Bool) (m : Cache)
    → ((id == id') && (hash == hash')) ≡ false
    → cached_validate_chain_result id' hash' (cache_validate_chain_result id hash valid m)
      ≡ cached_validate_chain_result id' hash' m
unfolding cached_validate_chain_result
cached_elsewhere id hash id' hash' valid m h = elim (Bool-cases (id == id')) [
  | inl same ↦ elim (Option-cases (lookup id m)) [
    | inl missing ↦ ground (arith, cached-cache id hash id' hash' valid m, nat_beq_iff id id')
    | inr (results, found) ↦
        ground (arith, cached-cache id hash id' hash' valid m, nat_beq_iff id id')
  ]
  | inr other ↦ cached-cache id hash id' hash' valid m ∙ rw other refl
]

module _ (sha256 : List (List ℕ) → ℕ) (has_roots : ℕ → Bool)
    (validate : ℕ → List (List ℕ) → Option TemporalInterval → Bool) where
  -- What a validation without the cache gives.
  abbrev pub direct : ℕ → List (List ℕ) → Option TemporalInterval → Bool
  direct id chain interval = if has_roots id then validate id chain interval else true

  abbrev pub direct_of : Request → Bool
  direct_of r = direct r.log_id r.chain r.interval

  -- Is the result of the call cached for the log under the hash?
  abbrev pub has_key : Request → ℕ → ℕ → Bool
  has_key r id hash =
      (r.log_id == id) && (ltb 1 (length r.chain) && (sha256 (issuers r.chain) == hash))

  -- The first of the earlier calls for the same log with a chain of the same issuers, or the call
  -- itself if there is none or its chain has no issuers.
  abbrev pub first_like : List Request → Request → Request
  first_like [] r = r
  first_like (q ∷ qs) r =
      if ltb 1 (length r.chain) && has_key q r.log_id (sha256 (issuers r.chain))
      then q
      else first_like qs r

  -- Each call is answered by the validation of the first like it.
  abbrev pub answered_by : List Request → List Request → List Bool
  answered_by earlier [] = []
  answered_by earlier (r ∷ rs) =
      direct_of (first_like earlier r) ∷ answered_by (earlier ++ r ∷ []) rs

  abbrev first_answer : List Request → ℕ → ℕ → Option Bool
  first_answer [] id hash = none
  first_answer (q ∷ qs) id hash =
      if has_key q id hash then some (direct_of q) else first_answer qs id hash

  abbrev or_answer : Option Bool → Bool → Bool
  or_answer none b = b
  or_answer (some v) b = v

  abbrev or_else : Option Bool → Option Bool → Option Bool
  or_else none o = o
  or_else (some v) o = some v

  first_answer-snoc :
      (qs : List Request) (r : Request) (id hash : ℕ)
      → first_answer (qs ++ r ∷ []) id hash
        ≡ or_else (first_answer qs id hash) (if has_key r id hash then some (direct_of r) else none)
  first_answer-snoc [] r id hash = refl
  first_answer-snoc (q ∷ qs) r id hash = elim (Bool-cases (has_key q id hash)) [
    | inl here ↦ rw (first_answer, here) refl
    | inr there ↦ rw (first_answer, there) (first_answer-snoc qs r id hash)
  ]

  first_like_short :
      (qs : List Request) (r : Request) → ltb 1 (length r.chain) ≡ false → first_like qs r ≡ r
  first_like_short [] r h = refl
  first_like_short (q ∷ qs) r h = rw (first_like, h) (first_like_short qs r h)

  first_like_answer :
      (qs : List Request) (r : Request)
      → ltb 1 (length r.chain) ≡ true
      → direct_of (first_like qs r)
        ≡ or_answer (first_answer qs r.log_id (sha256 (issuers r.chain))) (direct_of r)
  first_like_answer [] r h = refl
  first_like_answer (q ∷ qs) r h =
      elim (Bool-cases (has_key q r.log_id (sha256 (issuers r.chain)))) [
        | inl here ↦ rw (first_like, first_answer, h, here) refl
        | inr there ↦ rw (first_like, first_answer, h, there) (first_like_answer qs r h)
      ]

  first_like_rootless :
      (qs : List Request) (r : Request)
      → has_roots r.log_id ≡ false
      → direct_of (first_like qs r) ≡ true
  first_like_rootless [] r h = rw h refl
  first_like_rootless (q ∷ qs) r h =
      elim (Bool-cases (ltb 1 (length r.chain) && has_key q r.log_id (sha256 (issuers r.chain)))) [
        | inl here ↦ rw (first_like, here) (ground (arith, nat_beq_iff q.log_id r.log_id))
        | inr there ↦ rw (first_like, there) (first_like_rootless qs r h)
      ]

  -- The cache after some calls: it has an entry for each log with accepted roots, which answers by the first
  -- call with the key.
  abbrev Remembers : List Request → Cache → Type 0
  Remembers earlier m =
      (id : ℕ)
      → (is_present (lookup id m) ≡ has_roots id)
        × ((hash : ℕ)
            → cached_validate_chain_result id hash m
              ≡ (if has_roots id then first_answer earlier id hash else none))

  present-cache :
      (id hash id' : ℕ) (valid : Bool) (m : Cache)
      → is_present (lookup id' (cache_validate_chain_result id hash valid m))
        ≡ is_present (lookup id' m)
  unfolding cache_validate_chain_result
  present-cache id hash id' valid m = elim (Option-cases (lookup id m)) [
    | inl missing ↦ ground arith
    | inr (results, found) ↦
        ground (arith, nat_beq_iff id id', lookup-store id id' (store hash valid results) m)
  ]

  present-init : (id : ℕ) (ids : List ℕ) → is_present (lookup id (init_cache ids)) ≡ contains ids id
  unfolding init_cache lookup contains
  present-init id [] = refl
  present-init id (i ∷ ids) = ground (arith, present-init id ids)

  validate_value :
      (earlier : List Request) (r : Request) (m : Cache)
      → Remembers earlier m
      → (validate_chain sha256 has_roots validate r.log_id r.chain r.interval m).0
        ≡ direct_of (first_like earlier r)
  unfolding validate_chain
  validate_value earlier r m h = elim (Bool-cases (ltb 1 (length r.chain))) [
    | inl long ↦ elim (Bool-cases (has_roots r.log_id)) [
      | inl rooted ↦
          ground
            (arith, first_like_answer earlier r long, (h r.log_id).1 (sha256 (issuers r.chain)))
      | inr rootless ↦
          ground (
            arith,
            first_like_rootless earlier r rootless,
            (h r.log_id).1 (sha256 (issuers r.chain)),
          )
    ]
    | inr short ↦ ground (arith, first_like_short earlier r short)
  ]

  -- Is the result of the call a new one?
  abbrev is_stored : Request → Cache → Bool
  is_stored r m =
      ltb 1 (length r.chain)
      && (has_roots r.log_id
          && not (is_present (cached_validate_chain_result r.log_id (sha256 (issuers r.chain)) m)))

  validate-cache :
      (r : Request) (m : Cache)
      → (validate_chain sha256 has_roots validate r.log_id r.chain r.interval m).1 ≡ (
          if is_stored r m
          then cache_validate_chain_result r.log_id
              (sha256 (issuers r.chain))
              (validate r.log_id r.chain r.interval)
              m
          else m)
  unfolding validate_chain
  validate-cache r m =
      elim (Option-cases (cached_validate_chain_result r.log_id (sha256 (issuers r.chain)) m)) [
        | inl missing ↦ ground arith
        | inr (valid, found) ↦ ground arith
      ]

  stored_here :
      (earlier : List Request) (r : Request) (m : Cache)
      → is_stored r m ≡ true
      → Remembers earlier m
      → let key = sha256 (issuers r.chain) in
        cached_validate_chain_result r.log_id key
          (cache_validate_chain_result r.log_id key (validate r.log_id r.chain r.interval) m)
        ≡ (if has_roots r.log_id then first_answer (earlier ++ r ∷ []) r.log_id key else none)
  stored_here earlier r m new h =
      let key = sha256 (issuers r.chain) in
      ground (
        arith,
        first_answer-snoc earlier r r.log_id key,
        (h r.log_id).0,
        (h r.log_id).1 key,
        ==_refl r.log_id,
        ==_refl key,
        cached_here r.log_id key (validate r.log_id r.chain r.interval) m,
      )

  stored_elsewhere :
      (earlier : List Request) (r : Request) (m : Cache) (id hash : ℕ)
      → is_stored r m ≡ true
      → has_key r id hash ≡ false
      → Remembers earlier m
      → cached_validate_chain_result id hash (
          cache_validate_chain_result r.log_id
            (sha256 (issuers r.chain))
            (validate r.log_id r.chain r.interval)
            m)
        ≡ (if has_roots id then first_answer (earlier ++ r ∷ []) id hash else none)
  stored_elsewhere earlier r m id hash new other h =
      cached_elsewhere r.log_id (sha256 (issuers r.chain)) id hash
        (validate r.log_id r.chain r.interval) m (ground arith)
      ∙ ((h id).1 hash ∙ ground (arith, first_answer-snoc earlier r id hash))

  stored-Remembers :
      (earlier : List Request) (r : Request) (m : Cache)
      → is_stored r m ≡ true
      → Remembers earlier m
      → Remembers (earlier ++ r ∷ []) (
          cache_validate_chain_result r.log_id
            (sha256 (issuers r.chain))
            (validate r.log_id r.chain r.interval)
            m)
  stored-Remembers earlier r m new h id = (
    present-cache r.log_id (sha256 (issuers r.chain)) id (validate r.log_id r.chain r.interval) m
        ∙ (h id).0,
    λ hash. elim (Bool-cases (has_key r id hash)) [
      | inl same ↦
          let key = sha256 (issuers r.chain) in
          let at_log : r.log_id ≡ id = ground (arith, nat_beq_iff r.log_id id) in
          let at_key : key ≡ hash = ground (arith, nat_beq_iff key hash) in
          let answer = λ (i k : ℕ).
            cached_validate_chain_result i k
              (cache_validate_chain_result r.log_id key (validate r.log_id r.chain r.interval) m)
            ≡ (if has_roots i then first_answer (earlier ++ r ∷ []) i k else none) in
          subst (λ i. answer i hash) at_log
            (subst (λ k. answer r.log_id k) at_key (stored_here earlier r m new h))
      | inr other ↦ stored_elsewhere earlier r m id hash new other h
    ],
  )

  kept-Remembers :
      (earlier : List Request) (r : Request) (m : Cache)
      → is_stored r m ≡ false
      → Remembers earlier m
      → Remembers (earlier ++ r ∷ []) m
  kept-Remembers earlier r m old h id = (
    (h id).0,
    λ hash. ground (
      arith,
      first_answer-snoc earlier r id hash,
      (h id).0,
      (h id).1 hash,
      nat_beq_iff r.log_id id,
      nat_beq_iff (sha256 (issuers r.chain)) hash,
    ),
  )

  validate-Remembers :
      (earlier : List Request) (r : Request) (m : Cache)
      → Remembers earlier m
      → Remembers
          (earlier ++ r ∷ [])
          (validate_chain sha256 has_roots validate r.log_id r.chain r.interval m).1
  validate-Remembers earlier r m h = elim (Bool-cases (is_stored r m)) [
    | inl new ↦
        subst (Remembers (earlier ++ r ∷ []))
          (sym (
            validate-cache r m
            ∙ ap
                (λ b.
                  if b
                  then cache_validate_chain_result r.log_id (sha256 (issuers r.chain))
                      (validate r.log_id r.chain r.interval) m
                  else m)
                new))
          (stored-Remembers earlier r m new h)
    | inr old ↦
        subst (Remembers (earlier ++ r ∷ []))
          (sym (
            validate-cache r m
            ∙ ap
                (λ b.
                  if b
                  then cache_validate_chain_result r.log_id (sha256 (issuers r.chain))
                      (validate r.log_id r.chain r.interval) m
                  else m)
                old))
          (kept-Remembers earlier r m old h)
  ]

  each-Remembers :
      (earlier requests : List Request) (m : Cache)
      → Remembers earlier m
      → validate_each sha256 has_roots validate requests m ≡ answered_by earlier requests
  each-Remembers earlier [] m h = refl
  each-Remembers earlier (r ∷ rs) m h = cc (
    validate_value earlier r m h,
    each-Remembers (earlier ++ r ∷ []) rs
        (validate_chain sha256 has_roots validate r.log_id r.chain r.interval m).1
        (validate-Remembers earlier r m h),
  )

  -- With the cache as it is initialised, for the logs with accepted roots, a sequence of calls gives what a
  -- reference without a cache gives: each call is answered by the validation of the first call so far
  -- for the same log with issuers of the same hash. A chain of one certificate is always validated itself.
  pub validate_each-first :
      (ids : List ℕ)
      → ((id : ℕ) → has_roots id ≡ contains ids id)
      → (requests : List Request)
      → validate_each sha256 has_roots validate requests (init_cache ids) ≡ answered_by [] requests
  validate_each-first ids roots requests = each-Remembers [] requests (init_cache ids) (λ id.
      (present-init id ids ∙ sym (roots id), λ hash. ground (arith, cached-init id hash ids)))
