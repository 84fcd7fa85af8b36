-- ===== src/Submitter/Handler/FinalCert.antt =====
-- The final certificate in a response.
use ctsubmit.Prelude.{
  ℕ, ◌≡◌, refl, subst, inl, inr, Bool, true, List, [], ◌++◌, Option, some, arith, Option-cases,
  String,
}
use ctsubmit.Pki.FinalTbs.{TbsCertificate, produce_final_tbs_certificate, with_sct_list}
use ctsubmit.Pki.FinalTbs.Detox.{poisons, others}
use ctsubmit.Submitter.Types.{SubmissionRequest}
use ctsubmit.Submitter.SubmitToLog.{precert_log_entry}
use ctsubmit.Submitter.Orchestrate.{Event, ok, finished}
use ctsubmit.Submitter.Ctlint.{run_ctlint}
use ctsubmit.Submitter.Handler.{
  add_pre_chain, ResponseConfig, SubmissionResponse, issuer_hash, pass, responded, Plan, Services,
  make_plan, submit,
}
use ctsubmit.Submitter.Handler.Finish.{return_response, include_sct_list_in, embed, encode, handle}
use ctsubmit.Submitter.Handler.Planned.{make_plan_parts, make_entry_detoxed}
use ctsubmit.Submitter.Handler.Outcome.{mimics_for, handle_parts}

module _ {Other R S P D : Type 0} (sv : Services Other R S P D) (cfg : ResponseConfig) where
  -- `b64` is the certificate that carries `sct_list`.
  abbrev pub Carries : TbsCertificate Other → List ℕ → String → Type 0
  Carries tbs sct_list b64 =
      (value : List ℕ) × (der : List ℕ) × (sv.octet_string sct_list ≡ some value)
      × (sv.marshal (with_sct_list sv.octet_string sv.marshal sv.sct_list_id tbs value) ≡ some der)
      × (b64 ≡ sv.base64 der)

  produce_parts :
      (tbs : TbsCertificate Other) (sct_list der : List ℕ)
      → produce_final_tbs_certificate sv.octet_string sv.marshal sv.sct_list_id tbs sct_list
        ≡ some der
      → Carries tbs sct_list (sv.base64 der)
  unfolding produce_final_tbs_certificate
  produce_parts tbs sct_list der h = elim (Option-cases (sv.octet_string sct_list)) [
    | inl bad ↦ absurd (ground arith)
    | inr (value, good) ↦ (value, der, good, ground arith, refl)
  ]

  returned_final :
      (response r : SubmissionResponse R)
      → return_response sv cfg response ≡ responded r
      → response.final_tbs_cert_b64 ≡ r.final_tbs_cert_b64
  unfolding return_response
  returned_final response r h = ground arith

  embed-Carries :
      (test_logs : Bool) (issuer : Option ℕ) (tbs : TbsCertificate Other) (sct_list : List ℕ)
      (response r : SubmissionResponse R)
      → cfg.produce_final_tbs_cert ≡ true
      → embed sv cfg test_logs issuer tbs sct_list response ≡ responded r
      → Carries tbs sct_list r.final_tbs_cert_b64
  unfolding embed
  embed-Carries test_logs issuer tbs sct_list response r wanted h =
      elim (Option-cases
        (produce_final_tbs_certificate sv.octet_string sv.marshal sv.sct_list_id tbs sct_list)) [
          | inl bad ↦ absurd (ground arith)
          | inr (der, made) ↦
              elim (Option-cases (
                run_ctlint sv.make_dummy_certificate sv.check_certificate sv.failed_to_create der
                  issuer test_logs)) [
                    | inl panic ↦ absurd (ground arith)
                    | inr (findings, linted) ↦
                        let response' = record response {
                          final_tbs_cert_b64 = sv.base64 der;
                          ctlint = findings;
                        } in
                        let done : return_response sv cfg response' ≡ responded r = ground arith in
                        subst (Carries tbs sct_list) (returned_final response' r done)
                          (produce_parts tbs sct_list der made)
                  ]
        ]

  encode-Carries :
      (plan : Plan Other) (issuer : Option ℕ) (tbs : TbsCertificate Other) (sct_list : List ℕ)
      (response r : SubmissionResponse R)
      → cfg.produce_final_tbs_cert ≡ true
      → plan.entry.entry_type ≡ precert_log_entry
      → plan.entry.detoxed_tbs_cert ≡ some tbs
      → encode sv cfg plan issuer sct_list response ≡ responded r
      → Carries tbs sct_list r.final_tbs_cert_b64
  unfolding encode
  encode-Carries plan issuer tbs sct_list response r wanted type' there h =
      embed-Carries plan.request.test_logs issuer tbs sct_list
        (include_sct_list_in sv cfg sct_list response) r wanted (ground arith)

  -- Where final certificates are configured, the one in the response to add-pre-chain is the
  -- submitted precertificate without its only poison, in everything else as submitted, with one
  -- extension more at its end: the encoded list of the SCTs that the submission has returned, with
  -- the mimics behind them that are generated for the entry and the issuer's hash, if the request
  -- wants them and the hash is known, and else with nothing behind them.
  pub handle_final :
      (sr : SubmissionRequest) (ended : Bool) (events : List (Event R S)) (r : SubmissionResponse R)
      → cfg.produce_final_tbs_cert ≡ true
      → handle sv cfg add_pre_chain sr ended events ≡ responded r
      → (plan : Plan Other) × (tbs : TbsCertificate Other) × (rs : List R) × (ss : List S)
        × (issuer : Option ℕ) × (mimics : List S) × (sct_list : List ℕ) × (make_plan sv cfg
              add_pre_chain sr
            ≡ pass plan)
        × (sv.unmarshal plan.cert.raw ≡ some (tbs, []))
        × (poisons sv.poison tbs.extensions ≡ 1)
        × ((submit sv cfg plan ended events).phase ≡ finished (ok rs ss))
        × (issuer_hash sv cfg plan ≡ pass issuer)
        × (mimics_for sv cfg plan issuer ≡ some mimics)
        × (sv.marshal_sct_list (ss ++ mimics) ≡ some sct_list)
        × Carries
            (record tbs { extensions = others sv.poison tbs.extensions })
            sct_list
            r.final_tbs_cert_b64
  handle_final sr ended events r wanted h =
      let (plan, issuer, rs, ss, planned, hashed, returned, made_of) =
        handle_parts sv cfg add_pre_chain sr ended events r h in
      let (mimics, sct_list, response, mimicked, marshalled, encoded) = made_of in
      let (leaf, issuers, chain, parsed, made, settled) =
        make_plan_parts sv cfg add_pre_chain sr plan planned in
      let (tbs, unmarshalled, one, type', there) =
        make_entry_detoxed sv cfg plan.cert plan.entry made in
      (
        plan,
        tbs,
        rs,
        ss,
        issuer,
        mimics,
        sct_list,
        planned,
        unmarshalled,
        one,
        returned,
        hashed,
        mimicked,
        marshalled,
        encode-Carries plan issuer _ sct_list response r wanted type' there encoded,
      )
