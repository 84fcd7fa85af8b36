-- ===== src/Monitor/Sth.antt =====
-- monitor/sthMonitor.go: fetching tree heads and checkpoints. The HTTP client, JSON, the
-- signature and note verification and sunlight's parser are parameters: a reply is what the client
-- returned, and each parser gives what the code reads of its result. A note has at least one
-- verified signature if `open_note` gives one, whose timestamp `signature_timestamp` reads. A URL that no request can be made from is left out.
pub mod Fetched
use ctsubmit.Prelude.{
  ℕ, ◌+◌, String, Bool, true, false, not, ◌&&◌, List, [], ◌∷◌, ◌++◌, Option, none, some, ltb, leb,
  ◌==◌, nat_eq, string_eq, if◌then◌else◌, lookup,
}
use ctsubmit.Prelude.Int.{ℤ}
use ctsubmit.Monitor.Backoff.Laws.{Incident, bad, timed_out, server_error, client_error}

-- What http.Client.Do and io.ReadAll return: an error that is a timeout or not, or a status, the
-- parsed Retry-After header and the body, `none` if it cannot be read.
pub data Reply : Type 0 where
  transport_error : Bool → Reply
  response : ℕ → ℤ → Option (List ℕ) → Reply

-- The record that a status other than 200 leaves.
unfoldable pub status_incident : ℕ → ℤ → Incident
status_incident status retry_after =
    if leb 500 status && ltb status 600
    then server_error status retry_after
    else if leb 400 status && ltb status 500
    then client_error status retry_after
    else bad

-- fetchResource: the body, or the incident recorded for the log.
pub data Fetch : Type 0 where
  body : List ℕ → Fetch
  failed : Incident → Fetch

unfoldable pub fetch_resource : Reply → Fetch
unfolding status_incident
fetch_resource (transport_error true) = failed timed_out
fetch_resource (transport_error false) = failed bad
fetch_resource (response status retry_after content) =
    if not (status == 200)
    then failed (status_incident status retry_after)
    else elim content [ none ↦ failed bad | some b ↦ body b ]

-- The fields that a fetch updates, and the name that a checkpoint has to bear.
pub record SthData : Type 0 where
  pub is_rfc6962_log : Bool
  pub submission_url : String
  pub key_name : String
  pub tree_size : ℕ
  pub timestamp : Option ℕ
  pub last_fetched : Option ℕ

pub record TreeHead : Type 0 where
  pub size : ℕ
  pub time : ℕ

pub record Checkpoint : Type 0 where
  pub origin : String
  pub size : ℕ

abbrev pub update : ℕ → ℕ → ℕ → SthData → SthData
update now size time sd = record sd {
  tree_size = size;
  last_fetched = some now;
  timestamp = some time;
}

-- The new data, and the incident recorded.
abbrev pub Fetched : Type 0
Fetched = SthData × Option Incident

module _ (parse_sth : List ℕ → Option TreeHead) (verify : TreeHead → Bool) where
  -- `parse_sth` is json.Unmarshal and ToSignedTreeHead, which fail alike.
  unfoldable pub fetch_sth : ℕ → Reply → SthData → Fetched
  unfolding fetch_resource
  fetch_sth now reply sd = elim (fetch_resource reply) [
    | failed x ↦ (sd, some x)
    | body b ↦ elim (parse_sth b) [
      | none ↦ (sd, some bad)
      | some sth ↦
          if not (verify sth) then (sd, some bad) else (update now sth.size sth.time sd, none)
    ]
  ]

module _ (Note : Type 0) (open_note : List ℕ → Option Note) (signature_timestamp : Note → Option ℕ)
    (parse_checkpoint : Note → Option Checkpoint) where
  unfoldable pub fetch_checkpoint : ℕ → Reply → SthData → Fetched
  unfolding fetch_resource
  fetch_checkpoint now reply sd = elim (fetch_resource reply) [
    | failed x ↦ (sd, some x)
    | body b ↦ elim (open_note b) [
      | none ↦ (sd, some bad)
      | some n ↦ elim (parse_checkpoint n) [
        | none ↦ (sd, some bad)
        | some c ↦
            if not (c.origin == sd.key_name) then (sd, some bad) else elim (signature_timestamp n) [
              | none ↦ (sd, some bad)
              | some t ↦ (update now c.size t sd, none)
            ]
      ]
    ]
  ]

unfoldable pub get_sth_data : String → List (String × SthData) → Option SthData
get_sth_data url m = lookup url m
