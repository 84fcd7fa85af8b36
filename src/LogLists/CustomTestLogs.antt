-- ===== src/LogLists/CustomTestLogs.antt =====
-- loglists/customTestLogs.go: the list that replaces the test logs. A log ID and the hash of a key
-- are lists of bytes; the keys of LogSignatureVerifierMap are what they spell. Reading the file and
-- the fallback of its timestamp are left out.
pub mod Registered
use ctsubmit.Prelude.{
  ℕ, String, Bool, true, false, not, List, [], ◌∷◌, Option, none, some, lookup, store, ◌==◌,
  string_eq, nat_eq, if◌then◌else◌,
}
use ctsubmit.Pki.Discovery.{bytes_equal}
use ctsubmit.Submitter.LogList.{Log, TiledLog, Operator}

-- The errors of validateLogList, with the description of the log.
pub data Invalid : Type 0 where
  url_required submission_url_required monitoring_url_required : String → Invalid
  not_test log_id_differs : String → Invalid

pub data Loaded (V : Type 0) : Type 0 where
  loaded : List Operator → List (ℕ × V) → Loaded V
  not_json bad_key : Loaded V
  invalid : Invalid → Loaded V

module _ (sha256 : List ℕ → List ℕ) where
  unfoldable pub log_id_matches : List ℕ → List ℕ → Bool
  unfolding bytes_equal
  log_id_matches log_id key = bytes_equal log_id (sha256 key)

  unfoldable pub validate_log : Log → Option Invalid
  unfolding log_id_matches
  validate_log log =
      if log.url == ""
      then some (url_required log.description)
      else if not (log.log_type == "test")
      then some (not_test log.description)
      else if not (log_id_matches log.log_id log.key)
      then some (log_id_differs log.description)
      else none

  unfoldable pub validate_tiled_log : TiledLog → Option Invalid
  unfolding log_id_matches
  validate_tiled_log log =
      if log.submission_url == ""
      then some (submission_url_required log.description)
      else if log.monitoring_url == ""
      then some (monitoring_url_required log.description)
      else if not (log.log_type == "test")
      then some (not_test log.description)
      else if not (log_id_matches log.log_id log.key)
      then some (log_id_differs log.description)
      else none

  unfoldable pub validate_logs : List Log → Option Invalid
  unfolding validate_log
  validate_logs [] = none
  validate_logs (l ∷ ls) = elim (validate_log l) [ some e ↦ some e | none ↦ validate_logs ls ]

  unfoldable pub validate_tiled_logs : List TiledLog → Option Invalid
  unfolding validate_tiled_log
  validate_tiled_logs [] = none
  validate_tiled_logs (l ∷ ls) = elim (validate_tiled_log l) [
    | some e ↦ some e
    | none ↦ validate_tiled_logs ls
  ]

  unfoldable pub validate_log_list : List Operator → Option Invalid
  unfolding validate_logs validate_tiled_logs
  validate_log_list [] = none
  validate_log_list (op ∷ ops) = elim (validate_logs op.logs) [
    | some e ↦ some e
    | none ↦ elim (validate_tiled_logs op.tiled_logs) [
      | some e ↦ some e
      | none ↦ validate_log_list ops
    ]
  ]

  -- `spelled` is the number that a hash spells, `new_verifier` the parsing of the key and
  -- ctgo.NewSignatureVerifier.
  module _ {V : Type 0} (spelled : List ℕ → ℕ) (new_verifier : List ℕ → Option V) where
    unfoldable pub register_signature_verifier : List ℕ → List (ℕ × V) → Option (List (ℕ × V))
    register_signature_verifier key m = elim (lookup (spelled (sha256 key)) m) [
      | some v ↦ some m
      | none ↦ elim (new_verifier key) [
        | none ↦ none
        | some v ↦ some (store (spelled (sha256 key)) v m)
      ]
    ]

    unfoldable pub register_keys : List (List ℕ) → List (ℕ × V) → Option (List (ℕ × V))
    unfolding register_signature_verifier
    register_keys [] m = some m
    register_keys (key ∷ keys) m = elim (register_signature_verifier key m) [
      | none ↦ none
      | some m' ↦ register_keys keys m'
    ]

    abbrev pub log_keys : List Log → List (List ℕ)
    log_keys [] = []
    log_keys (l ∷ ls) = l.key ∷ log_keys ls

    abbrev pub tiled_log_keys : List TiledLog → List (List ℕ)
    tiled_log_keys [] = []
    tiled_log_keys (l ∷ ls) = l.key ∷ tiled_log_keys ls

    unfoldable pub register_signature_verifiers :
        List Operator → List (ℕ × V) → Option (List (ℕ × V))
    unfolding register_keys
    register_signature_verifiers [] m = some m
    register_signature_verifiers (op ∷ ops) m = elim (register_keys (log_keys op.logs) m) [
      | none ↦ none
      | some m' ↦ elim (register_keys (tiled_log_keys op.tiled_logs) m') [
        | none ↦ none
        | some m'' ↦ register_signature_verifiers ops m''
      ]
    ]

    -- The list that loglist3.NewFromJSON reads, if it can.
    unfoldable pub load_custom_test_log_list : Option (List Operator) → List (ℕ × V) → Loaded V
    unfolding validate_log_list register_signature_verifiers
    load_custom_test_log_list none m = not_json
    load_custom_test_log_list (some ops) m = elim (validate_log_list ops) [
      | some e ↦ invalid e
      | none ↦ elim (register_signature_verifiers ops m) [
        | none ↦ bad_key
        | some m' ↦ loaded ops m'
      ]
    ]
