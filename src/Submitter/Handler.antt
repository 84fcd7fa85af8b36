-- ===== src/Submitter/Handler.antt =====
-- submitter/handler.go and response.go: a request from its chain to the response. What other
-- packages do, and the state that Handle only reads, are the fields of `Services`. The submission's
-- events are an argument; `ended` says that the context has ended before the submission.
pub mod Planned
pub mod Finish
pub mod Outcome
pub mod Promise
pub mod FinalCert
pub mod Shown
use ctsubmit.Prelude.{
  ℕ, String, Bool, true, false, ◌&&◌, List, [], ◌∷◌, ◌++◌, Option, none, some, if◌then◌else◌,
}
use ctsubmit.Monitor.State.{Monitor}
use ctsubmit.Monitor.Uptime.{Floats}
use ctsubmit.Pki.Discovery.{Table, X509, context_index, Discovered, extended, discover_chain}
use ctsubmit.Pki.FinalTbs.{
  TbsCertificate, Detoxed, detoxed, detox_tbs_certificate_from_precertificate,
  produce_final_tbs_certificate,
}
use ctsubmit.Submitter.Types.{SubmissionRequest, StrategyMember, needs, Needs}
use ctsubmit.Submitter.LogList.{TemporalInterval, Operator}
use ctsubmit.Submitter.Request.{Certificate, BaseLogList, determine_submission_requirements}
use ctsubmit.Submitter.CompatibleLogs.{Compatible, compatible, determine_compatible_logs}
use ctsubmit.Submitter.Strategy.{Detail, StrategyConfig, devize_submission_strategy}
use ctsubmit.Submitter.SubmitToLog.{EntryType, x509_log_entry, precert_log_entry}
use ctsubmit.Submitter.Orchestrate.{
  Event, Result, ok, context_error, Phase, finished, Run, ready, start, run_events,
}
use ctsubmit.Submitter.Ctlint.{CtlintResult, run_ctlint}

pub data Endpoint : Type 0 where
  add_chain add_pre_chain : Endpoint

-- What Handle reads of an x509.Certificate.
pub record Parsed : Type 0 where
  pub raw : List ℕ
  pub is_precertificate : Bool
  pub certificate : Certificate
  pub x509 : X509
  pub raw_subject_public_key_info : List ℕ

pub record ResponseConfig : Type 0 where
  pub include_sct_list : Bool
  pub produce_final_tbs_cert : Bool
  pub include_log_responses : Bool

pub record SubmissionResponse (R : Type 0) : Type 0 where
  pub log_response : List R
  pub sct_list_b64 : String
  pub final_tbs_cert_b64 : String
  pub ctlint : List CtlintResult
  pub strategy : List StrategyMember

pub data HandleError (R S : Type 0) : Type 0 where
  missing_chain leaf_not_parsed : HandleError R S
  precertificate_to_add_chain certificate_to_add_pre_chain : HandleError R S
  not_detoxed tbs_not_marshalled : HandleError R S
  incompatible : Compatible → HandleError R S
  issuer_not_parsed : HandleError R S
  submission_failed : Result R S → HandleError R S
  mimics_not_generated mimic_not_marshalled scts_not_marshalled final_not_generated :
      HandleError R S

-- Before there is a response.
pub data Step (R S A : Type 0) : Type 0 where
  fail : HandleError R S → Step R S A
  pass : A → Step R S A

-- What Handle returns; `waiting` while the submission has not returned, `crash` for a panic.
pub data Handled (R S : Type 0) : Type 0 where
  rejected : HandleError R S → Handled R S
  failed : SubmissionResponse R → HandleError R S → Handled R S
  responded : SubmissionResponse R → Handled R S
  waiting crash : Handled R S

pub record Entry (Other : Type 0) : Type 0 where
  pub entry_type : EntryType
  pub entry_data : List ℕ
  pub detoxed_tbs_cert : Option (TbsCertificate Other)

-- What is settled before the response is made: the request with its numbers and its chain.
pub record Plan (Other : Type 0) : Type 0 where
  pub request : SubmissionRequest
  pub cert : Parsed
  pub entry : Entry Other
  pub strategy : List StrategyMember

pub record Services (Other R S P D : Type 0) : Type 0 where
  pub parse_certificate : List ℕ → Option Parsed
  pub unmarshal : List ℕ → Option (TbsCertificate Other × List ℕ)
  pub marshal : TbsCertificate Other → Option (List ℕ)
  pub octet_string : List ℕ → Option (List ℕ)
  pub poison : List ℕ
  pub sct_list_id : List ℕ
  pub brand_indicator : ℕ
  pub log_lists : BaseLogList → List Operator
  pub optimal_parent : Table
  pub known : ℕ → Option (List ℕ)
  pub parse_issuer : List ℕ → Option X509
  pub hex_upper : List ℕ → String
  pub sha256 : List ℕ → ℕ
  pub temporally_compatible : Certificate → List Operator → List Operator
  pub parse_log_id : List ℕ → Option ℕ
  pub validate_chain : List (List ℕ) → ℕ → Option TemporalInterval → Bool
  pub now : ℕ
  pub floats : Floats P
  pub text : Detail P → String
  pub join : String → String
  pub strategy_config : StrategyConfig P
  pub monitor : Monitor P
  pub strategy_clock : ℕ → ℕ → ℕ
  pub weight : ℕ → ℕ
  pub launch_clock : ℕ → ℕ
  -- ccadb_data.GetIssuerSPKISHA256ByKeyIdentifier
  pub issuer_spki_by_key_id : Option (List ℕ) → Option ℕ
  pub generate_mimic_scts : List ℕ → ℕ → Option (List S)
  -- The response for a mimic SCT, if its signature marshals.
  pub mimic_response : S → Option R
  pub marshal_sct_list : List S → Option (List ℕ)
  pub base64 : List ℕ → String
  pub make_dummy_certificate : List ℕ → Option D
  pub check_certificate : D → Option ℕ → List String
  pub failed_to_create : String

module _ {Other R S P D : Type 0} (sv : Services Other R S P D) (cfg : ResponseConfig) where
  unfoldable pub detox_entry : Parsed → Step R S (Entry Other)
  detox_entry cert =
      elim (detox_tbs_certificate_from_precertificate sv.poison (sv.unmarshal cert.raw)) [
        | detoxed tbs ↦ elim (sv.marshal tbs) [
          | none ↦ fail tbs_not_marshalled
          | some data' ↦ pass (record {
            entry_type = precert_log_entry;
            entry_data = data';
            detoxed_tbs_cert = some tbs;
          })
        ]
        | _ ↦ fail not_detoxed
      ]

  abbrev pub plain_entry : Parsed → Entry Other
  plain_entry cert = record {
    entry_type = x509_log_entry;
    entry_data = cert.raw;
    detoxed_tbs_cert = none;
  }

  unfoldable pub make_entry : Endpoint → Parsed → Step R S (Entry Other)
  unfolding detox_entry
  make_entry add_chain cert =
      if cert.is_precertificate then fail precertificate_to_add_chain else pass (plain_entry cert)
  make_entry add_pre_chain cert =
      if cert.is_precertificate then detox_entry cert else fail certificate_to_add_pre_chain

  unfoldable pub discover_rest : BaseLogList → SubmissionRequest → SubmissionRequest
  discover_rest base sr = elim sr.chain [
    | [] ↦ sr
    | leaf ∷ issuers ↦
        if sr.discover_chain
        then (elim (discover_chain sv.optimal_parent sv.known sv.parse_issuer sv.hex_upper sv.sha256
            (context_index base) leaf issuers) [
              | extended chain ↦ record sr { chain = chain }
              | _ ↦ sr
            ])
        else sr
  ]

  unfoldable pub find_compatible : SubmissionRequest → Parsed → BaseLogList → Compatible
  find_compatible sr cert base =
      determine_compatible_logs sv.temporally_compatible sv.parse_log_id
        (sv.validate_chain sr.chain) sv.now cert.certificate sr (sv.log_lists base)

  unfoldable pub strategize : EntryType → List Operator → List StrategyMember
  strategize entry_type operators =
      devize_submission_strategy sv.floats sv.text sv.join sv.strategy_config sv.monitor entry_type
        sv.strategy_clock sv.weight operators

  -- From the parsed leaf and its entry to the strategy.
  unfoldable pub plan_entry : SubmissionRequest → Parsed → Entry Other → Step R S (Plan Other)
  unfolding discover_rest find_compatible strategize
  plan_entry sr cert entry =
      let (base, settled) =
        determine_submission_requirements sv.brand_indicator sr cert.certificate in
      let request = discover_rest base settled in
      elim (find_compatible request cert base) [
        | compatible operators ↦ pass (record {
          request = request;
          cert = cert;
          entry = entry;
          strategy = strategize entry.entry_type operators;
        })
        | problem ↦ fail (incompatible problem)
      ]

  unfoldable pub make_plan : Endpoint → SubmissionRequest → Step R S (Plan Other)
  unfolding make_entry plan_entry
  make_plan endpoint sr = elim sr.chain [
    | [] ↦ fail missing_chain
    | leaf ∷ issuers ↦ elim (sv.parse_certificate leaf) [
      | none ↦ fail leaf_not_parsed
      | some cert ↦ elim (make_entry endpoint cert) [
        | fail e ↦ fail e
        | pass entry ↦ plan_entry sr cert entry
      ]
    ]
  ]

  unfoldable pub issuer_hash : Plan Other → Step R S (Option ℕ)
  issuer_hash plan = elim plan.request.chain [
    | leaf ∷ issuer ∷ rest ↦ elim (sv.parse_certificate issuer) [
      | none ↦ fail issuer_not_parsed
      | some cert ↦ pass (some (sv.sha256 cert.raw_subject_public_key_info))
    ]
    | _ ↦ pass (sv.issuer_spki_by_key_id plan.cert.x509.authority_key_id)
  ]

  -- The response that is made up-front. The strategy is a slice that submit writes to, so the
  -- response shows what the submission has left in it.
  abbrev pub new_response : Plan Other → List StrategyMember → SubmissionResponse R
  new_response plan strategy = record {
    log_response = [];
    sct_list_b64 = "";
    final_tbs_cert_b64 = "";
    ctlint = [];
    strategy = if plan.request.verbose then strategy else [];
  }

  unfoldable pub submit : Plan Other → Bool → List (Event R S) → Run R S
  submit plan ended events =
      if ended
      then record (ready sv.launch_clock (needs plan.request) plan.strategy) {
        phase = finished context_error;
      }
      else run_events sv.launch_clock (needs plan.request)
          (start sv.launch_clock (needs plan.request) plan.strategy) events
