-- ===== src/Examples/Handler.antt =====
-- A precertificate from its request to the response: submitter/handler.go.
use Prim.Native.String.{len}
use ctsubmit.Submitter.Ctlint.Suppressed.{all_findings, reported, read_findings_lem}
use ctsubmit.Submitter.Orchestrate.Met.{Served, submit-Served}
use ctsubmit.Submitter.Orchestrate.Outcome.{final}
use ctsubmit.Submitter.SubmitToLog.{precert_log_entry}
use ctsubmit.Submitter.Quorum.Trim.{trim_to_quorum}
use ctsubmit.Submitter.Ctlint.{read_findings, run_ctlint}
use ctsubmit.Submitter.Quorum.{is_quorum_met, helps_quorum, add_success}
use ctsubmit.Monitor.Uptime.{get_uptime}
use ctsubmit.Submitter.Strategy.{devize_submission_strategy}
use ctsubmit.Submitter.CompatibleLogs.{determine_compatible_logs}
use ctsubmit.Prelude.{
  any, ltb, ap, arith, any, contains, lookup, insert, ℕ, ◌+◌, ◌*◌, ◌≤◌, ◌≡◌, refl, String, true,
  false, List, [], ◌∷◌, ◌++◌, Option, none, some, ltb, length, ◌==◌, nat_eq, string_eq,
  if◌then◌else◌,
}
use ctsubmit.Prelude.Int.{pos}
use ctsubmit.Prelude.Distinct.{distinct}
use ctsubmit.Monitor.Backoff.{get_backoff}
use ctsubmit.Monitor.State.{Monitor}
use ctsubmit.Monitor.Sth.{SthData}
use ctsubmit.Pki.FinalTbs.{
  detox_tbs_certificate_from_precertificate, produce_final_tbs_certificate, Extension,
  TbsCertificate,
}
use ctsubmit.Pki.FinalTbs.Detox.{poisons, others}
use ctsubmit.Submitter.Types.{zero_member, neutral, Needs, SubmissionRequest, StrategyMember, needs}
use ctsubmit.Submitter.LogList.{Log, Operator}
use ctsubmit.Submitter.Request.{determine_submission_requirements, is_mark_certificate}
use ctsubmit.Submitter.Quorum.Invariant.{collected, operators_of}
use ctsubmit.Submitter.Orchestrate.{run_events, start, Event, success, ok, finished}
use ctsubmit.Submitter.Handler.Outcome.{mimics_for}
use ctsubmit.Submitter.Orchestrate.Answered.{Each, Answered}
use ctsubmit.Submitter.Handler.{
  issuer_hash, Parsed, ResponseConfig, SubmissionResponse, Plan, Services, add_pre_chain, pass,
  responded, make_plan, submit,
}
use ctsubmit.Submitter.Handler.Finish.{handle}
use ctsubmit.Submitter.Handler.Planned.{takes_precertificates, entry_type_of, make_plan_endpoint}
use ctsubmit.Submitter.Handler.Promise.{lifetime_scts, handle_policy}
use ctsubmit.Submitter.Handler.FinalCert.{Carries, handle_final}
use ctsubmit.Submitter.Handler.Shown.{response_of, left_strategy, handle-strategy}

abbrev day : ℕ
day = 24 * 3600 * 1_000_000_000

abbrev log_of : ℕ → String → Log
log_of id url = record {
  description = "log";
  log_id = id ∷ [];
  key = [];
  log_type = "prod";
  url = url;
  mmd = 86400;
  state = some (record { usable = some day; read_only = false; retired = false; rejected = false });
  temporal_interval = none;
}

abbrev two_logs : List Operator
two_logs =
    record { name = "A"; logs = log_of 1 "a" ∷ []; tiled_logs = [] }
    ∷ record { name = "B"; logs = log_of 2 "b" ∷ []; tiled_logs = [] }
    ∷ []

abbrev head_of : String → SthData
head_of url = record {
  is_rfc6962_log = true;
  submission_url = url;
  key_name = "";
  tree_size = 5;
  timestamp = some (200 * day);
  last_fetched = none;
}

abbrev mon : Monitor ℕ
mon = record {
  sth_data = ("a", head_of "a") ∷ ("b", head_of "b") ∷ [];
  uptime_24h = [];
  uptime_90d = [];
  backoffs = record {
    bad_response = [];
    timeout = [];
    http_5xx = [];
    http_4xx = [];
    slow_response = [];
  };
  outcome_samples = [];
  response_time_samples = [];
}

abbrev extension : ℕ → Extension
extension n = record { id = n ∷ []; critical = false; value = [] }

-- Extensions 3, the poison 1, and 5.
abbrev tbs : TbsCertificate ℕ
tbs = record { other = 6; extensions = extension 3 ∷ extension 1 ∷ extension 5 ∷ [] }

abbrev leaf : Parsed
leaf = record {
  raw = 9 ∷ [];
  is_precertificate = true;
  certificate = record {
    unknown_ext_key_usage = [];
    not_before = 150 * day;
    not_after = 250 * day;
  };
  x509 = record {
    authority_key_id = none;
    subject_key_id = none;
    raw_issuer = [];
    raw_subject = [];
  };
  raw_subject_public_key_info = [];
}

abbrev first_byte : List ℕ → Option ℕ
first_byte b = elim b [ [] ↦ none | x ∷ rest ↦ some x ]

-- SCTs and responses are numbers. A certificate marshals to the values of its extensions.
abbrev values : List Extension → List ℕ
values [] = []
values (e ∷ es) = e.id ++ e.value ++ values es

abbrev pub services : Services ℕ ℕ ℕ ℕ ℕ
services = record {
  parse_certificate = λ der. some leaf;
  unmarshal = λ der. some (tbs, []);
  marshal = λ t. some (values t.extensions);
  octet_string = λ b. some b;
  poison = 1 ∷ [];
  sct_list_id = 8 ∷ [];
  brand_indicator = 7;
  log_lists = λ base. two_logs;
  optimal_parent = [];
  known = λ h. none;
  parse_issuer = λ der. none;
  hex_upper = λ b. "";
  sha256 = length;
  temporally_compatible = λ c ops. ops;
  parse_log_id = first_byte;
  validate_chain = λ chain id interval. true;
  now = 200 * day;
  floats = record { zero = 0; hundred = 100; below = ltb; parse = λ s. none };
  text = λ d. "detail";
  join = λ u. u;
  strategy_config = record {
    excluded_operators = [];
    excluded_urls = [];
    preferred_urls = [];
    submit_endpoint_24h = 99;
    lowest_endpoint_90d = 98;
  };
  monitor = mon;
  strategy_clock = λ i n. 200 * day + n;
  weight = λ i. i;
  launch_clock = λ n. n + 1;
  issuer_spki_by_key_id = λ id. some 5;
  generate_mimic_scts = λ b h. some [];
  mimic_response = λ s. some s;
  marshal_sct_list = λ scts. some scts;
  base64 = λ b. if length b == 4 then "four" else "other";
  make_dummy_certificate = λ der. some 0;
  check_certificate = λ d h. [];
  failed_to_create = "Failed to create dummy certificate";
}

abbrev pub response_config : ResponseConfig
response_config = record {
  include_sct_list = false;
  produce_final_tbs_cert = true;
  include_log_responses = true;
}

abbrev pub request : SubmissionRequest
request = record {
  chain = (9 ∷ []) ∷ [];
  discover_chain = false;
  policy_compliant = true;
  mimics = false;
  test_logs = false;
  operators = pos 1;
  scts = pos 1;
  require_rfc6962 = false;
  prefer_static = false;
  verbose = false;
}

abbrev pub answers : List (Event ℕ ℕ)
answers = success 0 10 20 "ok" 5 ∷ success 1 11 21 "ok" 6 ∷ []

abbrev pub response : SubmissionResponse ℕ
response = record {
  log_response = 10 ∷ 11 ∷ [];
  sct_list_b64 = "";
  final_tbs_cert_b64 = "other";
  ctlint = [];
  strategy = [];
}

pub handled :
    handle services response_config add_pre_chain request false answers ≡ responded response
unfolding handle detox_tbs_certificate_from_precertificate determine_compatible_logs
    determine_submission_requirements any run_events start devize_submission_strategy contains
    lookup get_uptime get_backoff needs is_quorum_met helps_quorum add_success insert
    produce_final_tbs_certificate run_ctlint trim_to_quorum
handled = refl

abbrev member : String → String → ℕ → StrategyMember
member operator url weight = record zero_member {
  submission_url = url;
  monitoring_url = url;
  operator = operator;
  log_name = "log";
  mmd = 86400;
  bucket = neutral;
  random_weight = weight;
}

abbrev plan : Plan ℕ
plan = record {
  request = record request { operators = pos 2; scts = pos 2; prefer_static = true };
  cert = leaf;
  entry = record {
    entry_type = precert_log_entry;
    entry_data = 3 ∷ 5 ∷ [];
    detoxed_tbs_cert = some (record { other = 6; extensions = extension 3 ∷ extension 5 ∷ [] });
  };
  strategy = member "A" "a" 0 ∷ member "B" "b" 1 ∷ [];
}

planned : make_plan services response_config add_pre_chain request ≡ pass plan
unfolding make_plan detox_tbs_certificate_from_precertificate determine_compatible_logs
    determine_submission_requirements any devize_submission_strategy contains lookup get_uptime
    get_backoff
planned = refl

make_plan_endpoint_example :
    (first : List ℕ) × (issuers : List (List ℕ)) × (request.chain ≡ first ∷ issuers)
    × (services.parse_certificate first ≡ some plan.cert)
    × (plan.cert.is_precertificate ≡ takes_precertificates add_pre_chain)
    × (plan.entry.entry_type ≡ entry_type_of add_pre_chain)
    × (1 ≤ (needs plan.request).operators)
    × ((needs plan.request).operators ≤ (needs plan.request).scts)
make_plan_endpoint_example =
    make_plan_endpoint services response_config add_pre_chain request plan planned

unmarked : is_mark_certificate 7 leaf.certificate ≡ false
unfolding is_mark_certificate any
unmarked = refl

handle_policy_example :
    (plan : Plan ℕ) × (rs : List ℕ) × (ss : List ℕ) × (is : List ℕ) × (make_plan services
        response_config add_pre_chain request
      ≡ pass plan)
    × ((submit services response_config plan false answers).phase ≡ finished (ok rs ss))
    × (lifetime_scts services response_config leaf ≤ length ss)
    × (length is ≡ length ss)
    × Each (Answered answers) is rs ss
    × (2 ≤ distinct (operators_of (collected plan.strategy is)))
handle_policy_example =
    handle_policy services response_config add_pre_chain request false answers response (9 ∷ []) []
      leaf refl refl refl unmarked handled

handle_final_example :
    (plan : Plan ℕ) × (tbs : TbsCertificate ℕ) × (rs : List ℕ) × (ss : List ℕ) × (issuer : Option ℕ)
    × (mimics : List ℕ) × (sct_list : List ℕ) × (make_plan services response_config add_pre_chain
          request
        ≡ pass plan)
    × (services.unmarshal plan.cert.raw ≡ some (tbs, []))
    × (poisons services.poison tbs.extensions ≡ 1)
    × ((submit services response_config plan false answers).phase ≡ finished (ok rs ss))
    × (issuer_hash services response_config plan ≡ pass issuer)
    × (mimics_for services response_config plan issuer ≡ some mimics)
    × (services.marshal_sct_list (ss ++ mimics) ≡ some sct_list)
    × Carries services response_config
        (record tbs { extensions = others services.poison tbs.extensions })
        sct_list
        response.final_tbs_cert_b64
handle_final_example =
    handle_final services response_config request false answers response refl handled

shown :
    response_of (handle services response_config add_pre_chain request false answers)
    ≡ some response
shown = ap response_of handled

handle-strategy_example : response.strategy ≡ (
    if plan.request.verbose then left_strategy services response_config plan false answers else [])
handle-strategy_example =
    handle-strategy services response_config add_pre_chain request false answers plan response
      planned shown

-- Two SCTs of two operators.
abbrev policy : Needs
policy = record { operators = 2; scts = 2; require_rfc6962 = false; prefer_static = true }

returned :
    (final ℕ ℕ (λ n. n + 1) policy plan.strategy answers).phase
    ≡ finished (ok (10 ∷ 11 ∷ []) (20 ∷ 21 ∷ []))
unfolding run_events start is_quorum_met helps_quorum add_success insert trim_to_quorum contains
returned = refl

submit-Served_example :
    (is : List ℕ) × Served ℕ ℕ
      (λ n. n + 1)
      policy
      plan.strategy
      answers
      (10 ∷ 11 ∷ [])
      (20 ∷ 21 ∷ [])
      is
submit-Served_example =
    submit-Served ℕ ℕ (λ n. n + 1) policy (omega arith) (omega arith) (λ p r. omega arith)
      plan.strategy answers (10 ∷ 11 ∷ []) (20 ∷ 21 ∷ []) returned

read_findings_lem_example :
    read_findings true ("W: SCT is from an unknown log" ∷ "E: no SCT list" ∷ []) ≡ (
      if any (λ s. ltb (len s) 3) ("W: SCT is from an unknown log" ∷ "E: no SCT list" ∷ [])
      then none
      else some
          (reported true (all_findings ("W: SCT is from an unknown log" ∷ "E: no SCT list" ∷ []))))
read_findings_lem_example =
    read_findings_lem true ("W: SCT is from an unknown log" ∷ "E: no SCT list" ∷ [])
