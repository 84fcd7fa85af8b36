-- ===== src/OptimalParents/Selection.antt =====
-- cmd/optimalparents/main.go, main and forEachLog: the best certificate of each key for each of
-- four log lists, and the table that is written. `upper` is strings.ToUpper, `hex_hash`
-- hex.EncodeToString of a hash, and the accepted roots are those of package ctloglists. The order in
-- which Go walks a map is that of the association list.
pub mod Best
pub mod Reload
use Prim.Native.String.{compare as compare_text}
use text.Mathlib.Text.{is_lt}
use ctsubmit.Prelude.{
  ℕ, ◌+◌, String, Bool, true, false, not, ◌||◌, List, [], ◌∷◌, ◌++◌, Option, none, some, length,
  ltb, lookup, store, contains, map, ◌==◌, nat_eq, string_eq, if◌then◌else◌,
}
use ctsubmit.Submitter.LogList.{Log, TiledLog, Operator}
use ctsubmit.OptimalParents.{
  CertInfo, Index, is_self_signed, Chains, found, exhausted, build_chains, index_certs,
}

pub record LogGroup : Type 0 where
  pub roots_hash : ℕ
  pub count : ℕ

-- The hashes of the roots in each pool.
abbrev pub RootSets : Type 0
RootSets = List (ℕ × List ℕ)

-- A chain that leads to accepted roots, as the selection compares it.
pub record Entry : Type 0 where
  pub score : ℕ
  pub chain_len : ℕ
  pub not_after : ℕ
  pub hash : ℕ

-- bestScore and the other variables, if hasResult. The cases of the switch in their order.
unfoldable pub replaces : Option Entry → Entry → Bool
replaces none e = true
replaces (some best) e =
    if ltb best.score e.score
    then true
    else if ltb e.score best.score
    then false
    else if ltb e.chain_len best.chain_len
    then true
    else if ltb best.chain_len e.chain_len
    then false
    else if ltb best.not_after e.not_after
    then true
    else if ltb e.not_after best.not_after
    then false
    else ltb e.hash best.hash

unfoldable pub consider : Option Entry → Entry → Option Entry
unfolding replaces
consider best e = if ltb 0 e.score then (if replaces best e then some e else best) else best

unfoldable pub consider_all : Option Entry → List Entry → Option Entry
unfolding consider
consider_all best [] = best
consider_all best (e ∷ es) = consider_all (consider best e) es

abbrev pub last_der : List (List ℕ) → List ℕ
last_der [] = []
last_der (c ∷ []) = c
last_der (c ∷ d ∷ cs) = last_der (d ∷ cs)

unfoldable pub log_keys : List Log → List TiledLog → List (List ℕ)
log_keys [] [] = []
log_keys [] (tl ∷ tls) = tl.key ∷ log_keys [] tls
log_keys (l ∷ ls) tls = l.key ∷ log_keys ls tls

module _ (sha256 : List ℕ → ℕ) where
  -- forEachLog: the IDs of all logs.
  unfoldable pub for_each_log : List Operator → List ℕ
  unfolding log_keys
  for_each_log [] = []
  for_each_log (op ∷ ops) = map sha256 (log_keys op.logs op.tiled_logs) ++ for_each_log ops

  unfoldable pub count_groups : List (ℕ × ℕ) → List ℕ → List (ℕ × ℕ) → List (ℕ × ℕ)
  count_groups accepted [] groups = groups
  count_groups accepted (id ∷ ids) groups = count_groups accepted ids (elim (lookup id accepted) [
    | none ↦ groups
    | some roots ↦ store roots (elim (lookup roots groups) [ none ↦ 0 | some n ↦ n ] + 1) groups
  ])

  -- The log groups of a list, by the hash of their roots.
  unfoldable pub log_groups : List (ℕ × ℕ) → List Operator → List LogGroup
  unfolding for_each_log count_groups
  log_groups accepted ops =
      map (λ g. record { roots_hash = g.0; count = g.1 })
        (count_groups accepted (for_each_log ops) [])

  unfoldable pub score_of : RootSets → ℕ → List LogGroup → ℕ
  score_of sets root [] = 0
  score_of sets root (g ∷ gs) =
      (if contains (elim (lookup g.roots_hash sets) [ none ↦ [] | some roots ↦ roots ]) root
        then g.count
        else 0)
      + score_of sets root gs

  unfoldable pub chain_entries :
      RootSets → List LogGroup → CertInfo → List (List (List ℕ)) → List Entry
  unfolding score_of
  chain_entries sets groups ci [] = []
  chain_entries sets groups ci (chain ∷ chains) =
      record {
        score = score_of sets (sha256 (last_der chain)) groups;
        chain_len = length chain;
        not_after = ci.not_after;
        hash = ci.sha256;
      }
      ∷ chain_entries sets groups ci chains

  module _ (hex : List ℕ → String) (index : Index) where
    unfoldable pub chains_of : CertInfo → List (List (List ℕ))
    unfolding is_self_signed build_chains
    chains_of ci =
        if is_self_signed ci
        then (ci.raw ∷ []) ∷ []
        else elim (build_chains hex index ci) [ found chains ↦ chains | exhausted ↦ [] ]

    unfoldable pub entries : RootSets → List LogGroup → List CertInfo → List Entry
    unfolding chain_entries chains_of
    entries sets groups [] = []
    entries sets groups (ci ∷ cis) =
        chain_entries sets groups ci (chains_of ci) ++ entries sets groups cis

    unfoldable pub best_of : RootSets → List LogGroup → List CertInfo → Option Entry
    unfolding consider_all entries
    best_of sets groups candidates = consider_all none (entries sets groups candidates)

-- A line of the table; a parent is a text, empty if there is none.
pub record Row : Type 0 where
  pub ski : String
  pub usable_tls : String
  pub active_tls : String
  pub test_tls : String
  pub usable_bimi : String

-- A record of the groups of the four log lists.
pub record ContextGroups : Type 0 where
  pub usable_tls : List LogGroup
  pub active_tls : List LogGroup
  pub test_tls : List LogGroup
  pub usable_bimi : List LogGroup

abbrev pub has_any_parent : Row → Bool
has_any_parent r =
    not (r.usable_tls == "")
    || (not (r.active_tls == "") || (not (r.test_tls == "") || not (r.usable_bimi == "")))

unfoldable pub place_row : Row → List Row → List Row
place_row r [] = r ∷ []
place_row r (s ∷ rows) =
    if is_lt (compare_text s.ski r.ski) then s ∷ place_row r rows else r ∷ s ∷ rows

unfoldable pub sort_rows : List Row → List Row
unfolding place_row
sort_rows [] = []
sort_rows (r ∷ rows) = place_row r (sort_rows rows)

module _ (sha256 : List ℕ → ℕ) (hex : List ℕ → String) (hex_hash : ℕ → String)
    (upper : String → String) where
  unfoldable pub parent_text : Option Entry → String
  parent_text none = ""
  parent_text (some best) = upper (hex_hash best.hash)

  unfoldable pub row_of : Index → RootSets → ContextGroups → String → List CertInfo → Row
  unfolding best_of parent_text
  row_of index sets groups ski candidates =
      let parent =
        λ (gs : List LogGroup). parent_text (best_of sha256 hex index sets gs candidates) in
      record {
        ski = upper ski;
        usable_tls = parent groups.usable_tls;
        active_tls = parent groups.active_tls;
        test_tls = parent groups.test_tls;
        usable_bimi = parent groups.usable_bimi;
      }

  unfoldable pub rows_of : Index → RootSets → ContextGroups → Index → List Row
  unfolding row_of
  rows_of index sets groups [] = []
  rows_of index sets groups ((ski, candidates) ∷ rest) =
      let r = row_of index sets groups ski candidates in
      let rows = rows_of index sets groups rest in if has_any_parent r then r ∷ rows else rows

  abbrev pub header : List String
  header =
      "Authority Key Identifier" ∷ "Parent (Usable TLS)" ∷ "Parent (Active TLS)"
      ∷ "Parent (Test TLS)" ∷ "Parent (Usable BIMI)" ∷ []

  abbrev pub record_of : Row → List String
  record_of r = r.ski ∷ r.usable_tls ∷ r.active_tls ∷ r.test_tls ∷ r.usable_bimi ∷ []

  unfoldable pub optimal_parents_csv : List CertInfo → RootSets → ContextGroups → List (List String)
  unfolding index_certs rows_of sort_rows
  optimal_parents_csv certs sets groups =
      let index = index_certs hex certs [] in
      header ∷ map record_of (sort_rows (rows_of index sets groups index))
