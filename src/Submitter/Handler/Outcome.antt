-- ===== src/Submitter/Handler/Outcome.antt =====
-- What a response that is not an error says of the submission behind it.
use ctsubmit.Prelude.{
  ℕ, ◌≡◌, refl, ◌∙◌, ap, inl, inr, Bool, true, if◌then◌else◌, List, [], ◌++◌, Option, none, some,
  arith, Option-cases, Bool-cases, string_eq, nat_eq,
}
use mathlib.Core.List.{append-nil}
use ctsubmit.Submitter.Types.{SubmissionRequest}
use ctsubmit.Submitter.Orchestrate.{
  Event, ok, no_eligible, context_error, quorum_not_achieved, Phase, running, quorum_drain,
  cancel_drain, finished,
}
use ctsubmit.Submitter.Handler.{
  Endpoint, ResponseConfig, SubmissionResponse, pass, responded, Plan, Services, make_plan,
  issuer_hash, submit, new_response,
}
use ctsubmit.Submitter.Handler.Finish.{
  append_mimics, encode, finish, add_mimics, after_success, conclude, after_submission, handle_plan,
  handle,
}
use ctsubmit.Submitter.Handler.Planned.{Step-cases}

module _ {Other R S P D : Type 0} (sv : Services Other R S P D) (cfg : ResponseConfig) where
  finish_parts :
      (plan : Plan Other) (issuer : Option ℕ) (scts : List S) (response r : SubmissionResponse R)
      → finish sv cfg plan issuer scts response ≡ responded r
      → (sct_list : List ℕ) × (sv.marshal_sct_list scts ≡ some sct_list)
        × (encode sv cfg plan issuer sct_list response ≡ responded r)
  unfolding finish
  finish_parts plan issuer scts response r h = elim (Option-cases (sv.marshal_sct_list scts)) [
    | inl bad ↦ absurd (ground arith)
    | inr (sct_list, good) ↦ (sct_list, good, ground arith)
  ]

  -- The mimic SCTs: none without the issuer's hash or if the request does not want them, and else
  -- those that are generated.
  abbrev pub mimics_for : Plan Other → Option ℕ → Option (List S)
  mimics_for plan none = some []
  mimics_for plan (some hash) =
      if plan.request.mimics then sv.generate_mimic_scts plan.entry.entry_data hash else some []

  -- What a response is made from: the mimics (perhaps none) behind the SCTs, and the encoded list.
  abbrev pub Encoded : Plan Other → Option ℕ → List S → SubmissionResponse R → Type 0
  Encoded plan issuer scts r =
      (mimics : List S) × (sct_list : List ℕ) × (response : SubmissionResponse R) × (mimics_for plan
          issuer
        ≡ some mimics)
      × (sv.marshal_sct_list (scts ++ mimics) ≡ some sct_list)
      × (encode sv cfg plan issuer sct_list response ≡ responded r)

  finish-Encoded :
      (plan : Plan Other) (issuer : Option ℕ) (scts : List S) (response r : SubmissionResponse R)
      → mimics_for plan issuer ≡ some []
      → finish sv cfg plan issuer scts response ≡ responded r
      → Encoded plan issuer scts r
  finish-Encoded plan issuer scts response r no_mimics h =
      let (sct_list, marshalled, encoded) = finish_parts plan issuer scts response r h in
      (
        [],
        sct_list,
        response,
        no_mimics,
        ap sv.marshal_sct_list (append-nil scts) ∙ marshalled,
        encoded,
      )

  add_mimics-Encoded :
      (plan : Plan Other) (hash : ℕ) (scts : List S) (response r : SubmissionResponse R)
      → plan.request.mimics ≡ true
      → add_mimics sv cfg plan hash scts response ≡ responded r
      → Encoded plan (some hash) scts r
  unfolding add_mimics
  add_mimics-Encoded plan hash scts response r wanted h =
      elim (Option-cases (sv.generate_mimic_scts plan.entry.entry_data hash)) [
        | inl none_made ↦ absurd (ground arith)
        | inr (mimics, made) ↦
            let logs = append_mimics sv cfg mimics response.log_response in
            let response' = record response { log_response = logs.0 } in
            let done : finish sv cfg plan (some hash) (scts ++ mimics) response' ≡ responded r =
              ground arith in
            let (sct_list, marshalled, encoded) =
              finish_parts plan (some hash) (scts ++ mimics) response' r done in
            (mimics, sct_list, response', rw wanted made, marshalled, encoded)
      ]

  success-Encoded :
      (plan : Plan Other) (issuer : Option ℕ) (scts : List S) (response r : SubmissionResponse R)
      → after_success sv cfg plan issuer scts response ≡ responded r
      → Encoded plan issuer scts r
  unfolding after_success
  success-Encoded plan none scts response r h = finish-Encoded plan none scts response r refl h
  success-Encoded plan (some hash) scts response r h = elim (Bool-cases plan.request.mimics) [
    | inl wanted ↦ add_mimics-Encoded plan hash scts response r wanted (ground arith)
    | inr unwanted ↦
        finish-Encoded plan (some hash) scts response r (rw unwanted refl) (ground arith)
  ]

  conclude_parts :
      (plan : Plan Other) (issuer : Option ℕ) (response r : SubmissionResponse R) (p : Phase R S)
      → conclude sv cfg plan issuer response p ≡ responded r
      → (rs : List R) × (ss : List S) × (p ≡ finished (ok rs ss)) × Encoded plan issuer ss r
  unfolding conclude
  conclude_parts plan issuer response r running h = cc
  conclude_parts plan issuer response r quorum_drain h = cc
  conclude_parts plan issuer response r cancel_drain h = cc
  conclude_parts plan issuer response r (finished (ok rs ss)) h =
      (rs, ss, refl, success-Encoded plan issuer ss (record response { log_response = rs }) r h)
  conclude_parts plan issuer response r (finished no_eligible) h = cc
  conclude_parts plan issuer response r (finished context_error) h = cc
  conclude_parts plan issuer response r (finished (quorum_not_achieved reasons)) h = cc

  -- A response that is not an error comes from a plan, whose submission has returned SCTs.
  pub handle_parts :
      (endpoint : Endpoint) (sr : SubmissionRequest) (ended : Bool) (events : List (Event R S))
      (r : SubmissionResponse R)
      → handle sv cfg endpoint sr ended events ≡ responded r
      → (plan : Plan Other) × (issuer : Option ℕ) × (rs : List R) × (ss : List S) × (make_plan sv
            cfg endpoint sr
          ≡ pass plan)
        × (issuer_hash sv cfg plan ≡ pass issuer)
        × ((submit sv cfg plan ended events).phase ≡ finished (ok rs ss))
        × Encoded plan issuer ss r
  unfolding handle handle_plan after_submission
  handle_parts endpoint sr ended events r h = elim (Step-cases (make_plan sv cfg endpoint sr)) [
    | inl (e, refused) ↦ absurd (ground arith)
    | inr (plan, planned) ↦ elim (Step-cases (issuer_hash sv cfg plan)) [
      | inl (e, refused) ↦ absurd (ground arith)
      | inr (issuer, hashed) ↦
          let run = submit sv cfg plan ended events in
          let response = new_response sv cfg plan run.strategy in
          let concluded : conclude sv cfg plan issuer response run.phase ≡ responded r =
            ground arith in
          let (rs, ss, returned, encoded) =
            conclude_parts plan issuer response r run.phase concluded in
          (plan, issuer, rs, ss, planned, hashed, returned, encoded)
    ]
  ]
