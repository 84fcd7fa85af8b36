-- ===== src/Submitter/Handler/Promise.antt =====
-- What a caller of Handle may rely on when it gets a response.
use ctsubmit.Prelude.{
  ℕ, ◌≡◌, sym, ◌∙◌, ◌≤◌, ◌-◌, ◌+◌, subst, Bool, true, false, List, ◌∷◌, some, arith, if◌then◌else◌,
  ltb, length, string_eq,
}
use ctsubmit.Prelude.Distinct.{distinct}
use ctsubmit.Submitter.Types.{SubmissionRequest, needs}
use ctsubmit.Submitter.Request.{
  is_mark_certificate, long_lifetime, determine_submission_requirements,
}
use ctsubmit.Submitter.Request.Policy.{
  determine_submission_requirements_policy, determine_submission_requirements_needs,
}
use ctsubmit.Submitter.Quorum.Invariant.{collected, operators_of}
use ctsubmit.Submitter.Orchestrate.{Event, ok, finished}
use ctsubmit.Submitter.Orchestrate.Answered.{Each, Answered}
use ctsubmit.Submitter.Orchestrate.Outcome.{final}
use ctsubmit.Submitter.Orchestrate.Met.{submit-Served}
use ctsubmit.Submitter.Handler.{
  Endpoint, Parsed, ResponseConfig, SubmissionResponse, pass, responded, Plan, Services, make_plan,
  submit,
}
use ctsubmit.Submitter.Handler.Finish.{handle}
use ctsubmit.Submitter.Handler.Planned.{make_plan_parts}
use ctsubmit.Submitter.Handler.Outcome.{handle_parts}

module _ {Other R S P D : Type 0} (sv : Services Other R S P D) (cfg : ResponseConfig) where
  -- A submission that returns SCTs has run its events.
  submit-final :
      (plan : Plan Other) (ended : Bool) (events : List (Event R S)) (rs : List R) (ss : List S)
      → (submit sv cfg plan ended events).phase ≡ finished (ok rs ss)
      → (final R S sv.launch_clock (needs plan.request) plan.strategy events).phase
        ≡ finished (ok rs ss)
  unfolding submit
  submit-final plan true events rs ss h = cc
  submit-final plan false events rs ss h = h

  -- How many SCTs the lifetime of a certificate calls for.
  abbrev pub lifetime_scts : Parsed → ℕ
  lifetime_scts cert =
      2
      + (if ltb long_lifetime (cert.certificate.not_after - cert.certificate.not_before)
          then 1
          else 0)

  planned_policy :
      (endpoint : Endpoint) (sr : SubmissionRequest) (plan : Plan Other) (leaf : List ℕ)
      (issuers : List (List ℕ)) (cert : Parsed)
      → sr.chain ≡ leaf ∷ issuers
      → sv.parse_certificate leaf ≡ some cert
      → sr.policy_compliant ≡ true
      → is_mark_certificate sv.brand_indicator cert.certificate ≡ false
      → make_plan sv cfg endpoint sr ≡ pass plan
      → (1 ≤ (needs plan.request).operators)
        × ((needs plan.request).operators ≤ (needs plan.request).scts)
        × (2 ≤ (needs plan.request).operators)
        × (lifetime_scts cert ≤ (needs plan.request).scts)
  planned_policy endpoint sr plan leaf issuers cert chain parsed wanted unmarked planned =
      let (leaf', issuers', chain', parsed', made, settled) =
        make_plan_parts sv cfg endpoint sr plan planned in
      let same : plan.cert ≡ cert = ground arith in
      let asked : needs plan.request
          ≡ needs (determine_submission_requirements sv.brand_indicator sr cert.certificate).1 =
        cc in
      let (one, le) =
        determine_submission_requirements_needs sv.brand_indicator sr cert.certificate in
      let (two, more, static) =
        determine_submission_requirements_policy sv.brand_indicator sr cert.certificate wanted
          unmarked in
      (
        subst (λ n. 1 ≤ n.operators) (sym asked) one,
        subst (λ n. n.operators ≤ n.scts) (sym asked) le,
        subst (λ n. 2 ≤ n.operators) (sym asked) two,
        subst (λ n. lifetime_scts cert ≤ n.scts) (sym asked) more,
      )

  -- The response to a request that wants policy compliance, for a certificate that is not a Mark
  -- Certificate, rests on SCTs that the submission has returned: at least two, three if the
  -- certificate lives for more than 180 days. Each of them is what the log at its index in the
  -- strategy has answered with, and these logs are of at least two operators.
  pub handle_policy :
      (endpoint : Endpoint) (sr : SubmissionRequest) (ended : Bool) (events : List (Event R S))
      (r : SubmissionResponse R) (leaf : List ℕ) (issuers : List (List ℕ)) (cert : Parsed)
      → sr.chain ≡ leaf ∷ issuers
      → sv.parse_certificate leaf ≡ some cert
      → sr.policy_compliant ≡ true
      → is_mark_certificate sv.brand_indicator cert.certificate ≡ false
      → handle sv cfg endpoint sr ended events ≡ responded r
      → (plan : Plan Other) × (rs : List R) × (ss : List S) × (is : List ℕ) × (make_plan sv cfg
            endpoint sr
          ≡ pass plan)
        × ((submit sv cfg plan ended events).phase ≡ finished (ok rs ss))
        × (lifetime_scts cert ≤ length ss)
        × (length is ≡ length ss)
        × Each (Answered events) is rs ss
        × (2 ≤ distinct (operators_of (collected plan.strategy is)))
  handle_policy endpoint sr ended events r leaf issuers cert chain parsed wanted unmarked h =
      let (plan, issuer, rs, ss, planned, hashed, returned, encoded) =
        handle_parts sv cfg endpoint sr ended events r h in
      let (one, le, two, more) =
        planned_policy endpoint sr plan leaf issuers cert chain parsed wanted unmarked planned in
      let (is, served) =
        submit-Served R S sv.launch_clock (needs plan.request) one le
          (λ p q. omega (arith, le, two)) plan.strategy events rs ss
          (submit-final plan ended events rs ss returned) in
      (
        plan,
        rs,
        ss,
        is,
        planned,
        returned,
        omega (arith, more, served.as_many_scts),
        served.as_many_logs ∙ sym served.as_many_scts,
        served.answered,
        omega (arith, two, served.operators_enough),
      )
