-- ===== src/LogLists/CustomTestLogs/Registered.antt =====
-- What holds of a custom list that has been loaded.
use ctsubmit.Prelude.{
  ℕ, ◌≡◌, refl, sym, ap, subst, String, Bool, true, false, List, [], ◌∷◌, ◌++◌, Option, none, some,
  lookup, store, lookup-store, ◌==◌, string_eq, nat_eq, ==_refl, arith, All, Option-cases, inl, inr,
}
use ctsubmit.Pki.Discovery.{bytes_equal}
use ctsubmit.Submitter.LogList.{Log, TiledLog, Operator}
use ctsubmit.LogLists.CustomTestLogs.{
  loaded, log_id_matches, validate_log, validate_tiled_log, validate_logs, validate_tiled_logs,
  validate_log_list, register_signature_verifier, register_keys, log_keys, tiled_log_keys,
  register_signature_verifiers, load_custom_test_log_list,
}

bytes_equal_eq : (a b : List ℕ) → bytes_equal a b ≡ true → a ≡ b
unfolding bytes_equal
bytes_equal_eq [] [] h = refl
bytes_equal_eq [] (b ∷ bs) h = cc
bytes_equal_eq (a ∷ rest) [] h = cc
bytes_equal_eq (a ∷ rest) (b ∷ bs) h = ground (arith, bytes_equal_eq rest bs)

module _ {V : Type 0} where
  -- Is there a verifier for the ID?
  abbrev pub has_verifier : List (ℕ × V) → ℕ → Bool
  has_verifier m id = elim (lookup id m) [ none ↦ false | some v ↦ true ]

module _ (sha256 : List ℕ → List ℕ) {V : Type 0} (spelled : List ℕ → ℕ)
    (new_verifier : List ℕ → Option V) where
  register_one :
      (key : List ℕ) (m m' : List (ℕ × V)) (id : ℕ)
      → register_signature_verifier sha256 spelled new_verifier key m ≡ some m'
      → (has_verifier m' (spelled (sha256 key)) ≡ true)
        × ((has_verifier m id ≡ true) → has_verifier m' id ≡ true)
  unfolding register_signature_verifier
  register_one key m m' id h = elim (Option-cases (lookup (spelled (sha256 key)) m)) [
    | inr (v, there) ↦ (ground arith, λ old. ground arith)
    | inl missing ↦ elim (Option-cases (new_verifier key)) [
      | inl bad ↦ absurd (ground arith)
      | inr (v, made) ↦
          let k = spelled (sha256 key) in
          let is : store k v m ≡ m' = ground arith in
          (
            subst (λ n. has_verifier n k ≡ true) is
                (ground (arith, lookup-store k k v m, ==_refl k)),
            λ old. subst (λ n. has_verifier n id ≡ true) is (ground (arith, lookup-store k id v m)),
          )
    ]
  ]

  register_more :
      (keys : List (List ℕ)) (m m' : List (ℕ × V)) (id : ℕ)
      → register_keys sha256 spelled new_verifier keys m ≡ some m'
      → has_verifier m id ≡ true
      → has_verifier m' id ≡ true
  unfolding register_keys
  register_more [] m m' id h old = ground arith
  register_more (key ∷ keys) m m' id h old =
      elim (Option-cases (register_signature_verifier sha256 spelled new_verifier key m)) [
        | inl bad ↦ absurd (ground arith)
        | inr (n, done) ↦
            register_more keys n m' id (ground arith) ((register_one key m n id done).1 old)
      ]

  Registered : List (ℕ × V) → List (List ℕ) → Type 0
  Registered m keys = All (λ key. has_verifier m (spelled (sha256 key)) ≡ true) keys

  register-Registered :
      (keys : List (List ℕ)) (m m' : List (ℕ × V))
      → register_keys sha256 spelled new_verifier keys m ≡ some m'
      → Registered m' keys
  unfolding register_keys Registered
  register-Registered [] m m' h = tt
  register-Registered (key ∷ keys) m m' h =
      elim (Option-cases (register_signature_verifier sha256 spelled new_verifier key m)) [
        | inl bad ↦ absurd (ground arith)
        | inr (n, done) ↦
            let rest : register_keys sha256 spelled new_verifier keys n ≡ some m' = ground arith in
            (
              register_more keys n m' (spelled (sha256 key)) rest (register_one key m n 0 done).0,
              register-Registered keys n m' rest,
            )
      ]

  more-Registered :
      (keys more : List (List ℕ)) (m m' : List (ℕ × V))
      → register_keys sha256 spelled new_verifier more m ≡ some m'
      → Registered m keys
      → Registered m' keys
  unfolding Registered
  more-Registered [] more m m' h r = tt
  more-Registered (key ∷ keys) more m m' h r =
      (register_more more m m' (spelled (sha256 key)) h r.0, more-Registered keys more m m' h r.1)

  -- A test log whose SCTs can be verified: the verifier stands under the log's ID.
  abbrev pub IsReady : List (ℕ × V) → String → List ℕ → Type 0
  IsReady m log_type log_id =
      ((log_type == "test") ≡ true) × (has_verifier m (spelled log_id) ≡ true)

  log_parts :
      (l : Log)
      → validate_log sha256 l ≡ none
      → ((l.log_type == "test") ≡ true) × (l.log_id ≡ sha256 l.key)
  unfolding validate_log log_id_matches
  log_parts l h = (ground arith, bytes_equal_eq l.log_id (sha256 l.key) (ground arith))

  tiled_log_parts :
      (l : TiledLog)
      → validate_tiled_log sha256 l ≡ none
      → ((l.log_type == "test") ≡ true) × (l.log_id ≡ sha256 l.key)
  unfolding validate_tiled_log log_id_matches
  tiled_log_parts l h = (ground arith, bytes_equal_eq l.log_id (sha256 l.key) (ground arith))

  logs-IsReady :
      (m : List (ℕ × V)) (ls : List Log)
      → validate_logs sha256 ls ≡ none
      → Registered m (log_keys sha256 spelled new_verifier ls)
      → All (λ (l : Log). IsReady m l.log_type l.log_id) ls
  unfolding validate_logs Registered
  logs-IsReady m [] h r = tt
  logs-IsReady m (l ∷ ls) h r =
      let valid : validate_log sha256 l ≡ none = ground arith in
      let (test, id) = log_parts l valid in
      (
        (test, subst (λ i. has_verifier m (spelled i) ≡ true) (sym id) r.0),
        logs-IsReady m ls (ground arith) r.1,
      )

  tiled_logs-IsReady :
      (m : List (ℕ × V)) (ls : List TiledLog)
      → validate_tiled_logs sha256 ls ≡ none
      → Registered m (tiled_log_keys sha256 spelled new_verifier ls)
      → All (λ (l : TiledLog). IsReady m l.log_type l.log_id) ls
  unfolding validate_tiled_logs Registered
  tiled_logs-IsReady m [] h r = tt
  tiled_logs-IsReady m (l ∷ ls) h r =
      let valid : validate_tiled_log sha256 l ≡ none = ground arith in
      let (test, id) = tiled_log_parts l valid in
      (
        (test, subst (λ i. has_verifier m (spelled i) ≡ true) (sym id) r.0),
        tiled_logs-IsReady m ls (ground arith) r.1,
      )

  all_keys : List Operator → List (List ℕ)
  all_keys [] = []
  all_keys (op ∷ ops) =
      log_keys sha256 spelled new_verifier op.logs
      ++ (tiled_log_keys sha256 spelled new_verifier op.tiled_logs ++ all_keys ops)

  then_register : List (List ℕ) → Option (List (ℕ × V)) → Option (List (ℕ × V))
  then_register keys none = none
  then_register keys (some m) = register_keys sha256 spelled new_verifier keys m

  register_keys-append :
      (keys more : List (List ℕ)) (m : List (ℕ × V))
      → register_keys sha256 spelled new_verifier (keys ++ more) m
        ≡ then_register more (register_keys sha256 spelled new_verifier keys m)
  unfolding register_keys then_register
  register_keys-append [] more m = refl
  register_keys-append (key ∷ keys) more m =
      elim (Option-cases (register_signature_verifier sha256 spelled new_verifier key m)) [
        | inl bad ↦ ground arith
        | inr (n, done) ↦ ground (arith, register_keys-append keys more n)
      ]

  register_all :
      (ops : List Operator) (m m' : List (ℕ × V))
      → register_signature_verifiers sha256 spelled new_verifier ops m ≡ some m'
      → register_keys sha256 spelled new_verifier (all_keys ops) m ≡ some m'
  unfolding register_signature_verifiers all_keys then_register
  register_all [] m m' h = h
  register_all (op ∷ ops) m m' h =
      let keys = log_keys sha256 spelled new_verifier op.logs in
      let tiled = tiled_log_keys sha256 spelled new_verifier op.tiled_logs in
      elim (Option-cases (register_keys sha256 spelled new_verifier keys m)) [
        | inl bad ↦ absurd (ground arith)
        | inr (n, done) ↦ elim (Option-cases (register_keys sha256 spelled new_verifier tiled n)) [
          | inl bad ↦ absurd (ground arith)
          | inr (n', done') ↦ ground (
            arith,
            register_keys-append keys (tiled ++ all_keys ops) m,
            register_keys-append tiled (all_keys ops) n,
            register_all ops n' m',
          )
        ]
      ]

  Registered-split :
      (keys more : List (List ℕ)) (m : List (ℕ × V))
      → Registered m (keys ++ more)
      → Registered m keys × Registered m more
  unfolding Registered
  Registered-split [] more m r = (tt, r)
  Registered-split (key ∷ keys) more m r =
      let (a, b) = Registered-split keys more m r.1 in ((r.0, a), b)

  abbrev pub AllReady : List (ℕ × V) → List Operator → Type 0
  AllReady m ops =
      All
        (λ (op : Operator).
          All (λ (l : Log). IsReady m l.log_type l.log_id) op.logs
          × All (λ (l : TiledLog). IsReady m l.log_type l.log_id) op.tiled_logs)
        ops

  operators-AllReady :
      (ops : List Operator) (m : List (ℕ × V))
      → validate_log_list sha256 ops ≡ none
      → Registered m (all_keys ops)
      → AllReady m ops
  unfolding validate_log_list all_keys
  operators-AllReady [] m h r = tt
  operators-AllReady (op ∷ ops) m h r =
      let (logs, more) = Registered-split (log_keys sha256 spelled new_verifier op.logs) _ m r in
      let (tiled, rest) =
        Registered-split (tiled_log_keys sha256 spelled new_verifier op.tiled_logs) _ m more in
      (
        (
          logs-IsReady m op.logs (ground arith) logs,
          tiled_logs-IsReady m op.tiled_logs (ground arith) tiled,
        ),
        operators-AllReady ops m (ground arith) rest,
      )

  -- Once a custom list has been loaded, every log of it is a test log and has a signature verifier
  -- under its log ID, as the verification of its SCTs needs it.
  pub load_custom_test_log_list-AllReady :
      (file : Option (List Operator)) (m m' : List (ℕ × V)) (ops : List Operator)
      → load_custom_test_log_list sha256 spelled new_verifier file m ≡ loaded ops m'
      → (file ≡ some ops) × AllReady m' ops
  unfolding load_custom_test_log_list
  load_custom_test_log_list-AllReady none m m' ops h = cc
  load_custom_test_log_list-AllReady (some list) m m' ops h =
      elim (Option-cases (validate_log_list sha256 list)) [
        | inr (e, wrong) ↦ absurd (ground arith)
        | inl valid ↦
            elim (Option-cases (register_signature_verifiers sha256 spelled new_verifier list m)) [
              | inl bad ↦ absurd (ground arith)
              | inr (n, done) ↦
                  let same : n ≡ m' = ground arith in
                  let same_list : list ≡ ops = ground arith in
                  let r = register-Registered (all_keys list) m n (register_all list m n done) in
                  (
                    ap some same_list,
                    subst (λ o. AllReady m' o) same_list
                        (subst (λ k. AllReady k list) same (operators-AllReady list n valid r)),
                  )
            ]
      ]
