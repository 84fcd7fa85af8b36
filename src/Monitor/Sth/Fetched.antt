-- ===== src/Monitor/Sth/Fetched.antt =====
-- A fetch updates the data of a log exactly if everything about the reply is in order.
use ctsubmit.Prelude.{
  ℕ, ◌≡◌, refl, ◌⊎◌, inl, inr, Bool, true, false, List, Option, none, some, arith, nat_eq,
  string_eq, ◌==◌, ◌≢◌, Option-cases, Bool-cases,
}
use text.Mathlib.TextEquality.{eq_iff}
use ctsubmit.Prelude.Int.{ℤ}
use ctsubmit.Monitor.Backoff.Laws.{Incident}
use ctsubmit.Monitor.Sth.{
  Reply, transport_error, response, Fetch, body, failed, fetch_resource, SthData, TreeHead,
  Checkpoint, update, fetch_sth, fetch_checkpoint,
}

-- A body comes from a response with status 200 alone.
fetch_resource-body :
    (reply : Reply) (b : List ℕ)
    → fetch_resource reply ≡ body b
    → (retry : ℤ) × (reply ≡ response 200 retry (some b))
unfolding fetch_resource
fetch_resource-body (transport_error true) b h = cc
fetch_resource-body (transport_error false) b h = cc
fetch_resource-body (response status retry content) b h = (retry, ground arith)

Fetch-cases : (f : Fetch) → ((x : Incident) × (f ≡ failed x)) ⊎ ((b : List ℕ) × (f ≡ body b))
Fetch-cases (failed x) = inl (x, refl)
Fetch-cases (body b) = inr (b, refl)

module _ (Note : Type 0) (open_note : List ℕ → Option Note) (signature_timestamp : Note → Option ℕ)
    (parse_checkpoint : Note → Option Checkpoint) (now : ℕ) (reply : Reply) (sd : SthData) where
  -- Either the fetch of a checkpoint records one incident and leaves the log's data alone, or it
  -- records none, the reply was a 200 with a verified note of the expected origin, and the size
  -- and time of that checkpoint are stored with the time of the fetch.
  fetch_checkpoint_lem :
      let result =
        fetch_checkpoint Note open_note signature_timestamp parse_checkpoint now reply sd in
      ((result.0 ≡ sd) × (result.1 ≢ none))
      ⊎ ((retry : ℤ) × (b : List ℕ) × (n : Note) × (c : Checkpoint) × (t : ℕ) × (reply
            ≡ response 200 retry (some b))
          × (open_note b ≡ some n)
          × (parse_checkpoint n ≡ some c)
          × (signature_timestamp n ≡ some t)
          × (c.origin ≡ sd.key_name)
          × (result ≡ (update now c.size t sd, none)))
  unfolding fetch_checkpoint
  fetch_checkpoint_lem = elim (Fetch-cases (fetch_resource reply)) [
    | inl (x, e) ↦ inl (ground arith, ground arith)
    | inr (b, e) ↦ elim (Option-cases (open_note b)) [
      | inl closed ↦ inl (ground arith, ground arith)
      | inr (n, en) ↦ elim (Option-cases (parse_checkpoint n)) [
        | inl unparsed ↦ inl (ground arith, ground arith)
        | inr (c, ec) ↦ elim (Bool-cases (c.origin == sd.key_name)) [
          | inr other ↦ inl (ground arith, ground arith)
          | inl same ↦ elim (Option-cases (signature_timestamp n)) [
            | inl undated ↦ inl (ground arith, ground arith)
            | inr (t, et) ↦
                let (retry, er) = fetch_resource-body reply b e in
                inr (retry, b, n, c, t, er, en, ec, et, (eq_iff _ _).0 same, ground arith)
          ]
        ]
      ]
    ]
  ]

-- Either the fetch of a tree head records one incident and leaves the log's data alone, or it
-- records none, the reply was a 200 with a tree head whose signature verifies, and the size and
-- time of that tree head are stored with the time of the fetch.
fetch_sth_lem :
    (parse_sth : List ℕ → Option TreeHead) (verify : TreeHead → Bool) (now : ℕ) (reply : Reply)
    (sd : SthData)
    → let result = fetch_sth parse_sth verify now reply sd in
      ((result.0 ≡ sd) × (result.1 ≢ none))
      ⊎ ((retry : ℤ) × (b : List ℕ) × (sth : TreeHead) × (reply ≡ response 200 retry (some b))
          × (parse_sth b ≡ some sth)
          × (verify sth ≡ true)
          × (result ≡ (update now sth.size sth.time sd, none)))
unfolding fetch_sth
fetch_sth_lem parse_sth verify now reply sd = elim (Fetch-cases (fetch_resource reply)) [
  | inl (x, e) ↦ inl (ground arith, ground arith)
  | inr (b, e) ↦ elim (Option-cases (parse_sth b)) [
    | inl unparsed ↦ inl (ground arith, ground arith)
    | inr (sth, es) ↦ elim (Bool-cases (verify sth)) [
      | inr forged ↦ inl (ground arith, ground arith)
      | inl genuine ↦
          let (retry, er) = fetch_resource-body reply b e in
          inr (retry, b, sth, er, es, genuine, ground arith)
    ]
  ]
]
