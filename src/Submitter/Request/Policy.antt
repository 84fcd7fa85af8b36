-- ===== src/Submitter/Request/Policy.antt =====
-- The numbers that determineSubmissionRequirements settles on.
use ctsubmit.Prelude.{ℕ, ◌+◌, ◌-◌, ◌≤◌, ◌≡◌, true, false, ltb, arith, nat_eq, if◌then◌else◌}
use ctsubmit.Prelude.Int.{ltb_ℤ}
use ctsubmit.Submitter.Types.{SubmissionRequest, needs}
use ctsubmit.Submitter.Request.{
  Certificate, is_mark_certificate, determine_submission_requirements, long_lifetime,
}

module _ (brand_indicator : ℕ) (sr : SubmissionRequest) (cert : Certificate) where
  abbrev pub settled : SubmissionRequest
  settled = (determine_submission_requirements brand_indicator sr cert).1

  -- Whatever numbers a request has, at least one operator is then asked for and at least as many
  -- SCTs as operators, which is what the quorum relies on.
  pub determine_submission_requirements_needs :
      (1 ≤ (needs settled).operators) × ((needs settled).operators ≤ (needs settled).scts)
  unfolding determine_submission_requirements needs
  determine_submission_requirements_needs = ground arith

  -- No number of a request is lowered.
  determine_submission_requirements_keeps :
      (ltb_ℤ settled.operators sr.operators ≡ false) × (ltb_ℤ settled.scts sr.scts ≡ false)
  unfolding determine_submission_requirements
  determine_submission_requirements_keeps = ground arith

  -- Where policy compliance is wanted and the certificate is not a Mark Certificate, at least two
  -- operators and two SCTs are asked for, three SCTs if the certificate lives for more than 180
  -- days, and static SCTs are preferred.
  pub determine_submission_requirements_policy :
      sr.policy_compliant ≡ true
      → is_mark_certificate brand_indicator cert ≡ false
      → (2 ≤ (needs settled).operators)
        × (2 + (if ltb long_lifetime (cert.not_after - cert.not_before) then 1 else 0)
            ≤ (needs settled).scts)
        × (settled.prefer_static ≡ true)
  unfolding determine_submission_requirements needs
  determine_submission_requirements_policy p m = ground arith
