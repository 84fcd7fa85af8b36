-- ===== src/Monitor/Init.antt =====
-- What monitor/monitor.go, monitor/backoffHandler.go and monitor/uptimeFetcher.go do for all the
-- monitored logs: the first entries of the maps, and a fetch of the uptimes from its reply on.
-- url.JoinPath with a slash is `join`; the two monitored log lists are the operators of both.
pub mod Fresh
use ctsubmit.Prelude.{
  ℕ, String, Bool, true, false, not, List, [], ◌∷◌, ◌++◌, Option, none, some, ◌==◌, nat_eq,
  string_eq, store, map, if◌then◌else◌,
}
use ctsubmit.Submitter.LogList.{Log, TiledLog, Operator}
use ctsubmit.Monitor.Backoff.{BackoffConfig, BackoffMaps, init_backoff_entries}
use ctsubmit.Monitor.Uptime.{UptimeMap, Line, Floats, process_lines}

-- Of an operator, the RFC 6962 logs come first.
unfoldable pub submission_urls : (String → String) → List Operator → List String
submission_urls join [] = []
submission_urls join (op ∷ ops) =
    map (λ l. join l.url) op.logs
    ++ map (λ t. join t.submission_url) op.tiled_logs
    ++ submission_urls join ops

unfoldable pub init_all : BackoffConfig → List String → BackoffMaps → BackoffMaps
init_all cfg [] m = m
init_all cfg (url ∷ urls) m = init_all cfg urls (init_backoff_entries cfg url m)

unfoldable pub init_backoff_maps :
    BackoffConfig → (String → String) → List Operator → BackoffMaps → BackoffMaps
unfolding init_all submission_urls
init_backoff_maps cfg join ops m = init_all cfg (submission_urls join ops) m

-- What the client and the CSV reader return: no reply, or a status and the records if they parse.
abbrev pub CsvReply : Type 0
CsvReply = Option (ℕ × Option (List Line))

-- The map is as before, or the new one. `records[1:]` panics where there is no record.
pub data UptimeFetch (P : Type 0) : Type 0 where
  kept panicked : UptimeFetch P
  updated : UptimeMap P → UptimeFetch P

module _ {P : Type 0} where
  unfoldable pub clear : List String → UptimeMap P → UptimeMap P
  clear [] m = m
  clear (url ∷ urls) m = clear urls (store url none m)

  unfoldable pub initialize_uptime_map :
      (String → String) → List Operator → UptimeMap P → UptimeMap P
  unfolding clear submission_urls
  initialize_uptime_map join ops m = clear (submission_urls join ops) m

  unfoldable pub read_records :
      Floats P → (String → String) → List Operator → List Line → UptimeMap P → UptimeFetch P
  unfolding initialize_uptime_map
  read_records floats join ops [] m = panicked
  read_records floats join ops (header ∷ lines) m =
      updated (process_lines floats lines (initialize_uptime_map join ops m))

  unfoldable pub fetch_endpoint_uptimes :
      Floats P → (String → String) → List Operator → CsvReply → UptimeMap P → UptimeFetch P
  unfolding read_records
  fetch_endpoint_uptimes floats join ops none m = kept
  fetch_endpoint_uptimes floats join ops (some (status, content)) m =
      if not (status == 200)
      then kept
      else elim content [ none ↦ kept | some records ↦ read_records floats join ops records m ]
