-- ===== src/Submitter/Handler/Finish.antt =====
-- submitter/handler.go, from the submission to the return.
use ctsubmit.Prelude.{ℕ, Bool, true, false, List, [], ◌∷◌, ◌++◌, Option, none, some, if◌then◌else◌}
use ctsubmit.Pki.FinalTbs.{TbsCertificate, produce_final_tbs_certificate}
use ctsubmit.Submitter.Types.{SubmissionRequest}
use ctsubmit.Submitter.SubmitToLog.{x509_log_entry, precert_log_entry}
use ctsubmit.Submitter.Orchestrate.{Event, ok, Phase, finished, Run}
use ctsubmit.Submitter.Ctlint.{run_ctlint}
use ctsubmit.Submitter.Handler.{
  Endpoint, ResponseConfig, SubmissionResponse, submission_failed, mimics_not_generated,
  mimic_not_marshalled, scts_not_marshalled, final_not_generated, fail, pass, Handled, rejected,
  failed, responded, waiting, crash, Plan, Services, make_plan, issuer_hash, new_response, submit,
}

module _ {Other R S P D : Type 0} (sv : Services Other R S P D) (cfg : ResponseConfig) where
  -- The responses for the mimic SCTs, up to the first that does not marshal; did all of them?
  unfoldable pub append_mimics : List S → List R → List R × Bool
  append_mimics [] log_response = (log_response, true)
  append_mimics (mimic ∷ mimics) log_response = elim (sv.mimic_response mimic) [
    | none ↦ (log_response, false)
    | some r ↦ append_mimics mimics (log_response ++ r ∷ [])
  ]

  unfoldable pub return_response : SubmissionResponse R → Handled R S
  return_response response =
      responded
        (if cfg.include_log_responses then response else record response { log_response = [] })

  abbrev pub include_sct_list_in : List ℕ → SubmissionResponse R → SubmissionResponse R
  include_sct_list_in sct_list response =
      if cfg.include_sct_list
      then record response { sct_list_b64 = sv.base64 sct_list }
      else response

  -- The optional final certificate and its findings.
  unfoldable pub embed :
      Bool → Option ℕ → TbsCertificate Other → List ℕ → SubmissionResponse R → Handled R S
  unfolding return_response
  embed test_logs issuer tbs sct_list response =
      if cfg.produce_final_tbs_cert
      then (elim (produce_final_tbs_certificate sv.octet_string sv.marshal sv.sct_list_id tbs
          sct_list) [
            | none ↦ failed response final_not_generated
            | some der ↦
                elim (run_ctlint sv.make_dummy_certificate sv.check_certificate sv.failed_to_create
                  der issuer test_logs) [
                    | none ↦ crash
                    | some findings ↦
                        return_response (record response {
                          final_tbs_cert_b64 = sv.base64 der;
                          ctlint = findings;
                        })
                  ]
          ])
      else return_response response

  -- For a precertificate the detoxed certificate is there; its dereference would panic if not.
  unfoldable pub encode : Plan Other → Option ℕ → List ℕ → SubmissionResponse R → Handled R S
  unfolding embed return_response
  encode plan issuer sct_list response = elim plan.entry.entry_type [
    | x509_log_entry ↦ return_response response
    | precert_log_entry ↦ elim plan.entry.detoxed_tbs_cert [
      | none ↦
          if cfg.produce_final_tbs_cert
          then crash
          else return_response (include_sct_list_in sct_list response)
      | some tbs ↦
          embed plan.request.test_logs issuer tbs sct_list (include_sct_list_in sct_list response)
    ]
  ]

  unfoldable pub finish : Plan Other → Option ℕ → List S → SubmissionResponse R → Handled R S
  unfolding encode
  finish plan issuer scts response = elim (sv.marshal_sct_list scts) [
    | none ↦ failed response scts_not_marshalled
    | some sct_list ↦ encode plan issuer sct_list response
  ]

  unfoldable pub add_mimics : Plan Other → ℕ → List S → SubmissionResponse R → Handled R S
  unfolding append_mimics finish
  add_mimics plan hash scts response = elim (sv.generate_mimic_scts plan.entry.entry_data hash) [
    | none ↦ failed response mimics_not_generated
    | some mimics ↦
        let (log_response, all_marshalled) = append_mimics mimics response.log_response in
        let response' = record response { log_response = log_response } in
        if all_marshalled
        then finish plan (some hash) (scts ++ mimics) response'
        else failed response' mimic_not_marshalled
  ]

  unfoldable pub after_success : Plan Other → Option ℕ → List S → SubmissionResponse R → Handled R S
  unfolding add_mimics finish
  after_success plan none scts response = finish plan none scts response
  after_success plan (some hash) scts response =
      if plan.request.mimics
      then add_mimics plan hash scts response
      else finish plan (some hash) scts response

  -- What submit has returned, by the phase of its run.
  unfoldable pub conclude : Plan Other → Option ℕ → SubmissionResponse R → Phase R S → Handled R S
  unfolding after_success
  conclude plan issuer response (finished (ok responses scts)) =
      after_success plan issuer scts (record response { log_response = responses })
  conclude plan issuer response (finished error) = failed response (submission_failed error)
  conclude plan issuer response _ = waiting

  unfoldable pub after_submission : Plan Other → Option ℕ → Run R S → Handled R S
  unfolding conclude
  after_submission plan issuer run =
      conclude plan issuer (new_response sv cfg plan run.strategy) run.phase

  unfoldable pub handle_plan : Plan Other → Bool → List (Event R S) → Handled R S
  unfolding issuer_hash submit after_submission
  handle_plan plan ended events = elim (issuer_hash sv cfg plan) [
    | fail e ↦ failed (new_response sv cfg plan plan.strategy) e
    | pass issuer ↦ after_submission plan issuer (submit sv cfg plan ended events)
  ]

  unfoldable pub handle : Endpoint → SubmissionRequest → Bool → List (Event R S) → Handled R S
  unfolding make_plan handle_plan
  handle endpoint sr ended events = elim (make_plan sv cfg endpoint sr) [
    | fail e ↦ rejected e
    | pass plan ↦ handle_plan plan ended events
  ]
