-- ===== src/Pki/Discovery.antt =====
-- pki/discovery.go: extending a chain by the optimal parents of an embedded table. A SHA-256 hash
-- is the number that it spells, and 0 stands for "no parent". strings.ToUpper, hex and csv,
-- x509.ParseCertificate and the certificates of ccadb_data are parameters.
pub mod Total
pub mod Linked
use ctsubmit.Prelude.{
  ℕ, zero, suc, ◌+◌, String, Bool, true, false, not, ◌&&◌, ◌||◌, List, [], ◌∷◌, ◌++◌, Option, none,
  some, length, ltb, leb, lookup, store, insert, contains, ◌==◌, nat_eq, string_eq, if◌then◌else◌,
}
use ctsubmit.Submitter.Request.{
  BaseLogList, test_tls_logs, usable_bimi_logs, usable_tls_logs, crtsh_v3_active,
}

-- A row's parent hashes, a column for each context.
pub record Parents : Type 0 where
  pub usable_tls : ℕ
  pub active_tls : ℕ
  pub test_tls : ℕ
  pub usable_bimi : ℕ

pub data Context : Type 0 where
  col_usable_tls col_active_tls col_test_tls col_usable_bimi : Context

unfoldable pub context_index : BaseLogList → Context
context_index usable_tls_logs = col_usable_tls
context_index test_tls_logs = col_test_tls
context_index usable_bimi_logs = col_usable_bimi
context_index crtsh_v3_active = col_active_tls

abbrev pub parent_in : Context → Parents → ℕ
parent_in col_usable_tls p = p.usable_tls
parent_in col_active_tls p = p.active_tls
parent_in col_test_tls p = p.test_tls
parent_in col_usable_bimi p = p.usable_bimi

abbrev pub Table : Type 0
Table = List (String × Parents)

-- What the code reads of a certificate. A key identifier that is not there is nil.
pub record X509 : Type 0 where
  pub authority_key_id : Option (List ℕ)
  pub subject_key_id : Option (List ℕ)
  pub raw_issuer : List ℕ
  pub raw_subject : List ℕ

-- bytes.Equal
unfoldable pub bytes_equal : List ℕ → List ℕ → Bool
bytes_equal [] [] = true
bytes_equal [] (b ∷ bs) = false
bytes_equal (a ∷ rest) [] = false
bytes_equal (a ∷ rest) (b ∷ bs) = a == b && bytes_equal rest bs

unfoldable pub is_self_signed_cert : X509 → Bool
unfolding bytes_equal
is_self_signed_cert cert = elim cert.authority_key_id [
  | none ↦ bytes_equal cert.raw_issuer cert.raw_subject
  | some aki ↦ elim cert.subject_key_id [
    | none ↦ bytes_equal cert.raw_issuer cert.raw_subject
    | some ski ↦ bytes_equal aki ski
  ]
]

abbrev pub bytes_of : Option (List ℕ) → List ℕ
bytes_of none = []
bytes_of (some b) = b

-- The loop of init over the rows after the header: `decode_hash` is hex.DecodeString where it gives
-- 32 bytes. An empty field or one that does not decode leaves the zero hash.
module _ (to_upper : String → String) (decode_hash : String → Option ℕ) where
  unfoldable pub parent_hash : String → ℕ
  parent_hash field = if field == "" then 0 else elim (decode_hash field) [ none ↦ 0 | some h ↦ h ]

  unfoldable pub load_rows : List (List String) → Table → Table
  unfolding parent_hash
  load_rows [] m = m
  load_rows ((aki ∷ a ∷ b ∷ c ∷ d ∷ more) ∷ rows) m = load_rows rows (
      store (to_upper aki)
        (record {
          usable_tls = parent_hash a;
          active_tls = parent_hash b;
          test_tls = parent_hash c;
          usable_bimi = parent_hash d;
        })
        m)
  load_rows (short ∷ rows) m = load_rows rows m

  -- init: an empty file leaves the table empty.
  unfoldable pub init_optimal_parents : List (List String) → Table
  unfolding load_rows
  init_optimal_parents [] = []
  init_optimal_parents (header ∷ rows) = load_rows rows []

-- The result of DiscoverChain, with `exhausted` for a loop that has run out of fuel.
pub data Discovered : Type 0 where
  extended : List (List ℕ) → Discovered
  not_extended exhausted : Discovered

-- The certificate that the next round appends, with its hash.
pub record Next : Type 0 where
  pub hash : ℕ
  pub der : List ℕ
  pub cert : X509

abbrev pub last_of : List ℕ → List (List ℕ) → List ℕ
last_of x [] = x
last_of x (y ∷ ys) = last_of y ys

module _ (table : Table) (known : ℕ → Option (List ℕ)) (parse : List ℕ → Option X509)
    (hex_upper : List ℕ → String) (sha256 : List ℕ → ℕ) (context : Context) where
  unfoldable pub all_seen : List (List ℕ) → List ℕ
  all_seen [] = []
  all_seen (der ∷ ders) = insert (sha256 der) (all_seen ders)

  unfoldable pub next_parent : String → List ℕ → Option Next
  unfolding is_self_signed_cert
  next_parent aki seen = elim (lookup aki table) [
    | none ↦ none
    | some parents ↦
        let hash = parent_in context parents in
        if hash == 0 || contains seen hash then none else elim (known hash) [
          | none ↦ none
          | some der ↦ elim (parse der) [
            | none ↦ none
            | some cert ↦
                if is_self_signed_cert cert
                then none
                else some (record { hash = hash; der = der; cert = cert })
          ]
        ]
  ]

  abbrev pub aki_of : X509 → String
  aki_of cert = hex_upper (bytes_of cert.authority_key_id)

  unfoldable pub discover : ℕ → String → List ℕ → List (List ℕ) → Option (List (List ℕ))
  unfolding next_parent
  discover zero aki seen chain = none
  discover (suc fuel) aki seen chain = elim (next_parent aki seen) [
    | none ↦ some chain
    | some n ↦
        let rest = discover fuel (aki_of n.cert) (insert n.hash seen) (chain ++ n.der ∷ []) in
        if aki_of n.cert == "" then some (chain ++ n.der ∷ []) else rest
  ]

  -- The partial chain is its first certificate and the others. Each round sees a hash of the table
  -- for the first time, so the fuel is the number of rows and one.
  unfoldable pub discover_chain : List ℕ → List (List ℕ) → Discovered
  unfolding all_seen discover
  discover_chain leaf issuers = elim (parse (last_of leaf issuers)) [
    | none ↦ not_extended
    | some cert ↦
        elim (discover (suc (length table)) (aki_of cert) (all_seen (leaf ∷ issuers))
          (leaf ∷ issuers)) [
            | none ↦ exhausted
            | some chain ↦
                if ltb (length (leaf ∷ issuers)) (length chain)
                then extended chain
                else not_extended
          ]
  ]
