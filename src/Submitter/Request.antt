-- ===== src/Submitter/Request.antt =====
-- submitter/request.go: what a request needs. The certificate is what the code reads of it, with
-- times in nanoseconds; the log lists are those of package loglists.
pub mod Policy
use ctsubmit.Prelude.{
  ℕ, ◌+◌, ◌-◌, ◌*◌, Bool, true, false, not, ◌&&◌, List, [], ◌∷◌, ltb, any, ◌==◌, nat_eq,
  if◌then◌else◌,
}
use ctsubmit.Prelude.Int.{ℤ, pos, negsuc, ltb_ℤ}
use ctsubmit.Submitter.Types.{SubmissionRequest}

pub record Certificate : Type 0 where
  pub unknown_ext_key_usage : List ℕ
  pub not_before : ℕ
  pub not_after : ℕ

-- The lists from which determineSubmissionRequirements chooses.
pub data BaseLogList : Type 0 where
  test_tls_logs usable_bimi_logs usable_tls_logs crtsh_v3_active : BaseLogList

unfoldable pub new_submission_request : SubmissionRequest
new_submission_request = record {
  chain = [];
  discover_chain = false;
  policy_compliant = true;
  mimics = false;
  test_logs = false;
  operators = pos 1;
  scts = pos 1;
  require_rfc6962 = false;
  prefer_static = false;
  verbose = false;
}

-- 180 days.
abbrev pub long_lifetime : ℕ
long_lifetime = 180 * 24 * 3600 * 1_000_000_000

-- `if x < n { x = n }`
abbrev pub at_least : ℤ → ℤ → ℤ
at_least n x = if ltb_ℤ x n then n else x

-- An object identifier is a number; `brand_indicator` is OIDEKUBrandIndicatorforMessageIdentification.
module _ (brand_indicator : ℕ) where
  unfoldable pub is_mark_certificate : Certificate → Bool
  is_mark_certificate cert = any (λ eku. eku == brand_indicator) cert.unknown_ext_key_usage

  unfoldable pub base_log_list : SubmissionRequest → Certificate → BaseLogList
  unfolding is_mark_certificate
  base_log_list sr cert =
      if sr.test_logs
      then test_tls_logs
      else if sr.policy_compliant
      then (if is_mark_certificate cert then usable_bimi_logs else usable_tls_logs)
      else crtsh_v3_active

  unfoldable pub policy_scts : Certificate → ℤ
  policy_scts cert = if ltb long_lifetime (cert.not_after - cert.not_before) then pos 3 else pos 2

  unfoldable pub apply_policy : SubmissionRequest → Certificate → SubmissionRequest
  unfolding is_mark_certificate policy_scts
  apply_policy sr cert =
      if sr.policy_compliant && not (is_mark_certificate cert)
      then record sr {
        prefer_static = true;
        operators = at_least (pos 2) sr.operators;
        scts = at_least (policy_scts cert) sr.scts;
      }
      else sr

  unfoldable pub apply_minimum : SubmissionRequest → SubmissionRequest
  apply_minimum sr =
      let operators' = at_least (pos 1) sr.operators in
      record sr { operators = operators'; scts = at_least operators' (at_least (pos 1) sr.scts) }

  unfoldable pub determine_submission_requirements :
      SubmissionRequest → Certificate → BaseLogList × SubmissionRequest
  unfolding base_log_list apply_policy apply_minimum
  determine_submission_requirements sr cert =
      (base_log_list sr cert, apply_minimum (apply_policy sr cert))
