-- ===== src/Examples/Uptimes.antt =====
-- A fetch of uptimes for one log: monitor/uptimeFetcher.go.
use ctsubmit.Prelude.{
  contains, true, ℕ, ◌≡◌, refl, String, List, [], ◌∷◌, none, some, ltb, string_eq, store, lookup,
}
use ctsubmit.Submitter.LogList.{Operator}
use ctsubmit.Monitor.Uptime.{EndpointUptimes, Floats, UptimeMap, process_lines}
use ctsubmit.Monitor.Init.{submission_urls, CsvReply, updated, fetch_endpoint_uptimes}
use ctsubmit.Monitor.Init.Fresh.{fetch_endpoint_uptimes_fresh}

abbrev floats : Floats ℕ
floats = record { zero = 0; hundred = 100; below = ltb; parse = λ s. some 97 }

abbrev slash : String → String
slash url = url

abbrev logs : List Operator
logs =
    record {
      name = "operator";
      logs =
          record {
            description = "first";
            log_id = [];
            key = [];
            log_type = "prod";
            url = "log/";
            mmd = 86400;
            state = none;
            temporal_interval = none;
          }
          ∷ [];
      tiled_logs = [];
    }
    ∷ []

abbrev reply : CsvReply
reply = some (
  200,
  some (
      record { url = "url"; endpoint = "endpoint"; percentage = "percentage" }
      ∷ record { url = "log/"; endpoint = "get-sth"; percentage = "97" }
      ∷ []),
)

abbrev fresh : EndpointUptimes ℕ
fresh = record {
  lowest = 100;
  add_chain = 0;
  add_pre_chain = 0;
  get_entries = 0;
  get_proof_by_hash = 0;
  get_roots = 0;
  get_sth = 0;
  get_sth_consistency = 0;
  checkpoint = 0;
  tile = 0;
}

abbrev fetched : UptimeMap ℕ
fetched = ("log/", some (record fresh { lowest = 97; get_sth = 97 })) ∷ []

abbrev earlier : UptimeMap ℕ
earlier = ("log/", some (record fresh { lowest = 12; get_roots = 12 })) ∷ []

fetched_first : fetch_endpoint_uptimes floats slash logs reply [] ≡ updated fetched
unfolding fetch_endpoint_uptimes process_lines lookup store
fetched_first = refl

fetched_again : fetch_endpoint_uptimes floats slash logs reply earlier ≡ updated fetched
unfolding fetch_endpoint_uptimes process_lines lookup store
fetched_again = refl

monitored : contains (submission_urls slash logs) "log/" ≡ true
unfolding contains submission_urls
monitored = refl

fetch_endpoint_uptimes_fresh_example : lookup "log/" fetched ≡ lookup "log/" fetched
fetch_endpoint_uptimes_fresh_example =
    fetch_endpoint_uptimes_fresh floats slash logs "log/" reply [] earlier fetched fetched
      fetched_first fetched_again monitored
