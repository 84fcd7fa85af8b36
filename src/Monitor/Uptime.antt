-- ===== src/Monitor/Uptime.antt =====
-- monitor/uptimeFetcher.go: endpoint uptimes from lines of a CSV file. A percentage is a float64:
-- its type, `<`, 0, 100 and strconv.ParseFloat are parameters. A map's nil entry is `none`.
pub mod Lowest
use ctsubmit.Prelude.{
  ℕ, String, Bool, true, false, List, [], ◌∷◌, Option, none, some, ◌==◌, string_eq, lookup, store,
  if◌then◌else◌,
}

pub record EndpointUptimes (P : Type 0) : Type 0 where
  pub lowest : P
  pub add_chain : P
  pub add_pre_chain : P
  pub get_entries : P
  pub get_proof_by_hash : P
  pub get_roots : P
  pub get_sth : P
  pub get_sth_consistency : P
  pub checkpoint : P
  pub tile : P

abbrev pub UptimeMap : Type 0 → Type 0
UptimeMap P = List (String × Option (EndpointUptimes P))

pub record Line : Type 0 where
  pub url : String
  pub endpoint : String
  pub percentage : String

pub record Floats (P : Type 0) : Type 0 where
  pub zero : P
  pub hundred : P
  pub below : P → P → Bool
  pub parse : String → Option P

module _ {P : Type 0} (floats : Floats P) where
  unfoldable pub fresh_uptimes : EndpointUptimes P
  fresh_uptimes = record {
    lowest = floats.hundred;
    add_chain = floats.zero;
    add_pre_chain = floats.zero;
    get_entries = floats.zero;
    get_proof_by_hash = floats.zero;
    get_roots = floats.zero;
    get_sth = floats.zero;
    get_sth_consistency = floats.zero;
    checkpoint = floats.zero;
    tile = floats.zero;
  }

  -- The switch on the endpoint's name. An unknown one is only logged.
  unfoldable pub set_endpoint : String → P → EndpointUptimes P → EndpointUptimes P
  set_endpoint name p u =
      if name == "add-chain"
      then record u { add_chain = p }
      else if name == "add-pre-chain"
      then record u { add_pre_chain = p }
      else if name == "get-entries"
      then record u { get_entries = p }
      else if name == "get-proof-by-hash"
      then record u { get_proof_by_hash = p }
      else if name == "get-roots"
      then record u { get_roots = p }
      else if name == "get-sth"
      then record u { get_sth = p }
      else if name == "get-sth-consistency"
      then record u { get_sth_consistency = p }
      else if name == "checkpoint"
      then record u { checkpoint = p }
      else if name == "tile"
      then record u { tile = p }
      else u

  unfoldable pub lower : P → EndpointUptimes P → EndpointUptimes P
  lower p u = if floats.below p u.lowest then record u { lowest = p } else u

  unfoldable pub update_uptimes : String → Option P → EndpointUptimes P → EndpointUptimes P
  unfolding set_endpoint lower
  update_uptimes endpoint none u = u
  update_uptimes endpoint (some p) u = lower p (set_endpoint endpoint p u)

  -- A line for a log that is not in the map is passed over.
  unfoldable pub process_line : Line → UptimeMap P → UptimeMap P
  unfolding fresh_uptimes update_uptimes
  process_line line m = elim (lookup line.url m) [
    | none ↦ m
    | some none ↦
        store line.url
          (some (update_uptimes line.endpoint (floats.parse line.percentage) fresh_uptimes)) m
    | some (some u) ↦
        store line.url (some (update_uptimes line.endpoint (floats.parse line.percentage) u)) m
  ]

  unfoldable pub process_lines : List Line → UptimeMap P → UptimeMap P
  unfolding process_line
  process_lines [] m = m
  process_lines (l ∷ ls) m = process_lines ls (process_line l m)

  unfoldable pub get_endpoint_uptime : Option (EndpointUptimes P) → String → Option P
  get_endpoint_uptime none name = none
  get_endpoint_uptime (some u) name =
      if name == "LOWEST"
      then some u.lowest
      else if name == "add-chain"
      then some u.add_chain
      else if name == "add-pre-chain"
      then some u.add_pre_chain
      else if name == "get-entries"
      then some u.get_entries
      else if name == "get-proof-by-hash"
      then some u.get_proof_by_hash
      else if name == "get-roots"
      then some u.get_roots
      else if name == "get-sth"
      then some u.get_sth
      else if name == "get-sth-consistency"
      then some u.get_sth_consistency
      else if name == "checkpoint"
      then some u.checkpoint
      else if name == "tile"
      then some u.tile
      else none

  -- A missing key reads as nil.
  unfoldable pub get_uptime : String → String → UptimeMap P → Option P
  unfolding get_endpoint_uptime
  get_uptime url name m = elim (lookup url m) [ none ↦ none | some u ↦ get_endpoint_uptime u name ]
