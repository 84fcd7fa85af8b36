-- ===== src/LogLists/Filter.antt =====
-- loglists/filter.go, determineActiveTLSLogs and determineTestTLSLogs, and the names of logNames.go.
pub mod Partition
use ctsubmit.Prelude.{
  ℕ, ◌+◌, String, Bool, true, false, not, ◌&&◌, ◌||◌, List, [], ◌∷◌, ◌++◌, Option, none, some,
  length, select, lookup, store, ◌==◌, string_eq, nat_eq, if◌then◌else◌,
}
use ctsubmit.Pki.Discovery.{bytes_equal}
use ctsubmit.Submitter.LogList.{Log, TiledLog, Operator}
use ctsubmit.Submitter.CompatibleLogs.{is_empty}

-- `bimi_log` and `bimi_tiled_log` say whether BimiV3Approved has a log of a URL.
module _ (bimi_log bimi_tiled_log : String → Bool) where
  abbrev pub is_test_log : Log → Bool
  is_test_log log = log.log_type == "test"

  abbrev pub is_test_tiled_log : TiledLog → Bool
  is_test_tiled_log log = log.log_type == "test"

  -- The operators that keep a log, with the logs that they keep.
  unfoldable pub filter_operators : (Log → Bool) → (TiledLog → Bool) → List Operator → List Operator
  filter_operators keeps keeps_tiled [] = []
  filter_operators keeps keeps_tiled (op ∷ ops) =
      let logs = select (λ (l : Log). keeps l && not (bimi_log l.url)) op.logs in
      let tiled =
        select (λ (l : TiledLog). keeps_tiled l && not (bimi_tiled_log l.submission_url))
          op.tiled_logs in
      let rest = filter_operators keeps keeps_tiled ops in
      if not (is_empty logs) || not (is_empty tiled)
      then record op { logs = logs; tiled_logs = tiled } ∷ rest
      else rest

  unfoldable pub determine_active_tls_logs : List Operator → List Operator
  unfolding filter_operators
  determine_active_tls_logs ops =
      filter_operators (λ l. not (is_test_log l)) (λ l. not (is_test_tiled_log l)) ops

  unfoldable pub determine_test_tls_logs : List Operator → List Operator
  unfolding filter_operators
  determine_test_tls_logs ops = filter_operators is_test_log is_test_tiled_log ops

-- logNames.go: the description of the first log with the ID.
unfoldable pub find_description : List ℕ → List Log → Option String
unfolding bytes_equal
find_description id [] = none
find_description id (l ∷ ls) =
    if bytes_equal id l.log_id then some l.description else find_description id ls

unfoldable pub find_tiled_description : List ℕ → List TiledLog → Option String
unfolding bytes_equal
find_tiled_description id [] = none
find_tiled_description id (l ∷ ls) =
    if bytes_equal id l.log_id then some l.description else find_tiled_description id ls

unfoldable pub crtsh_description : List ℕ → List Operator → Option String
unfolding find_description
crtsh_description id [] = none
crtsh_description id (op ∷ ops) = elim (find_description id op.logs) [
  | some d ↦ some d
  | none ↦ crtsh_description id ops
]

unfoldable pub crtsh_tiled_description : List ℕ → List Operator → Option String
unfolding find_tiled_description
crtsh_tiled_description id [] = none
crtsh_tiled_description id (op ∷ ops) = elim (find_tiled_description id op.tiled_logs) [
  | some d ↦ some d
  | none ↦ crtsh_tiled_description id ops
]

module _ (crtsh_v3_all : List Operator) where
  unfoldable pub rename_logs : List Log → List Log
  unfolding crtsh_description
  rename_logs [] = []
  rename_logs (l ∷ ls) = elim (crtsh_description l.log_id crtsh_v3_all) [
    | none ↦ l ∷ rename_logs ls
    | some d ↦ record l { description = d } ∷ rename_logs ls
  ]

  unfoldable pub rename_tiled_logs : List TiledLog → List TiledLog
  unfolding crtsh_tiled_description
  rename_tiled_logs [] = []
  rename_tiled_logs (l ∷ ls) = elim (crtsh_tiled_description l.log_id crtsh_v3_all) [
    | none ↦ l ∷ rename_tiled_logs ls
    | some d ↦ record l { description = d } ∷ rename_tiled_logs ls
  ]

  unfoldable pub use_crtsh_log_names : List Operator → List Operator
  unfolding rename_logs rename_tiled_logs
  use_crtsh_log_names [] = []
  use_crtsh_log_names (op ∷ ops) =
      record op { logs = rename_logs op.logs; tiled_logs = rename_tiled_logs op.tiled_logs }
      ∷ use_crtsh_log_names ops

-- A log that another package has registered.
pub record ExtraLogEntry : Type 0 where
  pub operator : String
  pub log_name : String

unfoldable pub register_log_name :
    ℕ → String → String → List (ℕ × ExtraLogEntry) → List (ℕ × ExtraLogEntry)
register_log_name key_id operator name m =
    store key_id (record { operator = operator; log_name = name }) m

-- The operator and the description of the log in one list, then in the lists in their order.
unfoldable pub name_in : List ℕ → List Operator → Option (String × String)
unfolding find_description find_tiled_description
name_in id [] = none
name_in id (op ∷ ops) = elim (find_description id op.logs) [
  | some d ↦ some (op.name, d)
  | none ↦ elim (find_tiled_description id op.tiled_logs) [
    | some d ↦ some (op.name, d)
    | none ↦ name_in id ops
  ]
]

unfoldable pub name_in_lists : List ℕ → List (Option (List Operator)) → Option (String × String)
unfolding name_in
name_in_lists id [] = none
name_in_lists id (none ∷ lists) = name_in_lists id lists
name_in_lists id (some ops ∷ lists) = elim (name_in id ops) [
  | some n ↦ some n
  | none ↦ name_in_lists id lists
]

-- `key_of` reads an ID of 32 bytes. The lists are those of usable, active, test and BIMI logs.
unfoldable pub get_log_name :
    (List ℕ → ℕ)
    → List (ℕ × ExtraLogEntry)
    → List (Option (List Operator))
    → List ℕ
    → String × String
unfolding name_in_lists
get_log_name key_of extra lists id = elim (name_in_lists id lists) [
  | some n ↦ n
  | none ↦
      if length id == 32
      then (elim (lookup (key_of id) extra) [ none ↦ ("", "") | some e ↦ (e.operator, e.log_name) ])
      else ("", "")
]
