-- ===== src/Submitter/Handler/Shown.antt =====
-- The strategy that a response shows.
use ctsubmit.Prelude.{
  ℕ, ◌≡◌, inl, inr, Bool, List, [], ◌++◌, Option, none, some, arith, Option-cases, if◌then◌else◌,
}
use ctsubmit.Pki.FinalTbs.{TbsCertificate}
use ctsubmit.Submitter.Types.{SubmissionRequest, StrategyMember}
use ctsubmit.Submitter.Orchestrate.{
  Event, ok, no_eligible, context_error, quorum_not_achieved, Phase, running, quorum_drain,
  cancel_drain, finished,
}
use ctsubmit.Submitter.Handler.{
  Endpoint, ResponseConfig, SubmissionResponse, fail, pass, Handled, failed, responded, Plan,
  Services, make_plan, issuer_hash, submit, new_response,
}
use ctsubmit.Submitter.Handler.Finish.{
  append_mimics, return_response, include_sct_list_in, embed, encode, finish, add_mimics,
  after_success, conclude, after_submission, handle_plan, handle,
}
use ctsubmit.Submitter.Handler.Planned.{Step-cases}

-- The response that is returned, with an error or without.
abbrev pub response_of : {R S : Type 0} → Handled R S → Option (SubmissionResponse R)
response_of (failed r e) = some r
response_of (responded r) = some r
response_of _ = none

module _ {Other R S P D : Type 0} (sv : Services Other R S P D) (cfg : ResponseConfig) where
  -- Does what is returned show the strategy of `response`?
  abbrev Shows : SubmissionResponse R → Handled R S → Type 0
  Shows response h =
      (r : SubmissionResponse R) → response_of h ≡ some r → r.strategy ≡ response.strategy

  return-Shows :
      (response : SubmissionResponse R) → Shows response (return_response sv cfg response)
  unfolding return_response
  return-Shows response r h = ground arith

  embed-Shows :
      (test_logs : Bool) (issuer : Option ℕ) (tbs : TbsCertificate Other) (sct_list : List ℕ)
      (response : SubmissionResponse R)
      → Shows response (embed sv cfg test_logs issuer tbs sct_list response)
  unfolding embed return_response
  embed-Shows test_logs issuer tbs sct_list response r h = ground arith

  encode-Shows :
      (plan : Plan Other) (issuer : Option ℕ) (sct_list : List ℕ) (response : SubmissionResponse R)
      → Shows response (encode sv cfg plan issuer sct_list response)
  unfolding encode
  encode-Shows plan issuer sct_list response r h =
      let noted = include_sct_list_in sv cfg sct_list response in
      ground (
        arith,
        return-Shows noted r,
        return-Shows response r,
        embed-Shows plan.request.test_logs issuer _ sct_list noted r,
      )

  finish-Shows :
      (plan : Plan Other) (issuer : Option ℕ) (scts : List S) (response : SubmissionResponse R)
      → Shows response (finish sv cfg plan issuer scts response)
  unfolding finish
  finish-Shows plan issuer scts response r h = elim (Option-cases (sv.marshal_sct_list scts)) [
    | inl bad ↦ ground arith
    | inr (sct_list, good) ↦ encode-Shows plan issuer sct_list response r (ground arith)
  ]

  add_mimics-Shows :
      (plan : Plan Other) (hash : ℕ) (scts : List S) (response : SubmissionResponse R)
      → Shows response (add_mimics sv cfg plan hash scts response)
  unfolding add_mimics
  add_mimics-Shows plan hash scts response r h =
      elim (Option-cases (sv.generate_mimic_scts plan.entry.entry_data hash)) [
        | inl none_made ↦ ground arith
        | inr (mimics, made) ↦
            let logs = append_mimics sv cfg mimics response.log_response in
            let response' = record response { log_response = logs.0 } in
            ground (arith, finish-Shows plan (some hash) (scts ++ mimics) response' r)
      ]

  success-Shows :
      (plan : Plan Other) (issuer : Option ℕ) (scts : List S) (response : SubmissionResponse R)
      → Shows response (after_success sv cfg plan issuer scts response)
  unfolding after_success
  success-Shows plan none scts response r h = finish-Shows plan none scts response r h
  success-Shows plan (some hash) scts response r h = ground (
    arith,
    add_mimics-Shows plan hash scts response r,
    finish-Shows plan (some hash) scts response r,
  )

  conclude-Shows :
      (plan : Plan Other) (issuer : Option ℕ) (response : SubmissionResponse R) (p : Phase R S)
      → Shows response (conclude sv cfg plan issuer response p)
  unfolding conclude
  conclude-Shows plan issuer response running r h = cc
  conclude-Shows plan issuer response quorum_drain r h = cc
  conclude-Shows plan issuer response cancel_drain r h = cc
  conclude-Shows plan issuer response (finished (ok rs ss)) r h =
      success-Shows plan issuer ss (record response { log_response = rs }) r h
  conclude-Shows plan issuer response (finished no_eligible) r h = ground arith
  conclude-Shows plan issuer response (finished context_error) r h = ground arith
  conclude-Shows plan issuer response (finished (quorum_not_achieved reasons)) r h = ground arith

  -- The strategy as Handle leaves it: as planned if the issuer does not parse, and else with what
  -- the submission has noted in it.
  abbrev pub left_strategy : Plan Other → Bool → List (Event R S) → List StrategyMember
  left_strategy plan ended events = elim (issuer_hash sv cfg plan) [
    | fail e ↦ plan.strategy
    | pass issuer ↦ (submit sv cfg plan ended events).strategy
  ]

  -- Every response shows the strategy as the submission has left it if the request asks for it, and
  -- else no strategy, whether it comes with an error or without.
  pub handle-strategy :
      (endpoint : Endpoint) (sr : SubmissionRequest) (ended : Bool) (events : List (Event R S))
      (plan : Plan Other) (r : SubmissionResponse R)
      → make_plan sv cfg endpoint sr ≡ pass plan
      → response_of (handle sv cfg endpoint sr ended events) ≡ some r
      → r.strategy ≡ (if plan.request.verbose then left_strategy plan ended events else [])
  unfolding handle handle_plan after_submission
  handle-strategy endpoint sr ended events plan r planned h =
      elim (Step-cases (issuer_hash sv cfg plan)) [
        | inl (e, refused) ↦ ground arith
        | inr (issuer, hashed) ↦
            let run = submit sv cfg plan ended events in
            ground (
              arith,
              conclude-Shows plan issuer (new_response sv cfg plan run.strategy) run.phase r,
            )
      ]
