-- ===== src/Submitter/Ctlint.antt =====
-- submitter/ctlint.go: the linter's findings on the final certificate. pki.MakeDummyCertificate and
-- ctlint.CheckCertificate are parameters.
pub mod Suppressed
use Prim.Native.String.{len}
use text.Mathlib.Text.{get?, find?}
use ctsubmit.Prelude.{
  ℕ, String, Bool, true, false, ◌&&◌, List, [], ◌∷◌, Option, none, some, ltb, any, ◌==◌, string_eq,
  if◌then◌else◌,
}

pub record CtlintResult : Type 0 where
  pub finding : String
  pub severity : String

abbrev pub test_log_finding_substrings : List String
test_log_finding_substrings =
    "logs currently approved by the" ∷ "fewer approved SCTs than required by the"
    ∷ "SCT list satisfies the" ∷ "fewer log operators than required by the"
    ∷ "fewer SCTs from RFC6962-compliant logs than required"
    ∷ "Certificate expires outside log's temporal interval" ∷ "SCT is from an unknown log" ∷ []

-- strings.Contains
abbrev pub contains_text : String → String → Bool
contains_text s t = elim (find? s t) [ none ↦ false | some i ↦ true ]

unfoldable pub is_test_log_finding : String → Bool
is_test_log_finding finding = any (contains_text finding) test_log_finding_substrings

-- The severity that the first three bytes stand for.
unfoldable pub severity_of : String → Option String
severity_of prefix =
    if prefix == "I: "
    then some "info"
    else if prefix == "N: "
    then some "notice"
    else if prefix == "W: "
    then some "warning"
    else if prefix == "E: "
    then some "error"
    else if prefix == "B: "
    then some "bug"
    else if prefix == "F: "
    then some "fatal"
    else none

-- `result[0:3]` and `result[3:]` of a text of at least three bytes. If the third byte is not the end
-- of a character, the prefix is none of the six.
unfoldable pub read_finding : String → Option CtlintResult
unfolding severity_of
read_finding result = elim (get? result 0 3) [
  | none ↦ none
  | some prefix ↦ elim (severity_of prefix) [
    | none ↦ none
    | some s ↦ elim (get? result 3 (len result)) [
      | none ↦ none
      | some finding ↦ some (record { finding = finding; severity = s })
    ]
  ]
]

-- One round of the loop: what is reported of a result, before the others.
unfoldable pub add_finding : Bool → Option CtlintResult → List CtlintResult → List CtlintResult
unfolding is_test_log_finding
add_finding test_mode none rest = rest
add_finding test_mode (some r) rest =
    if test_mode && is_test_log_finding r.finding then rest else r ∷ rest

-- `none` is the panic of slicing a text of fewer than three bytes.
unfoldable pub read_findings : Bool → List String → Option (List CtlintResult)
unfolding read_finding add_finding
read_findings test_mode [] = some []
read_findings test_mode (result ∷ results) =
    if ltb (len result) 3 then none else elim (read_findings test_mode results) [
      | none ↦ none
      | some rest ↦ some (add_finding test_mode (read_finding result) rest)
    ]

module _ {D : Type 0} (make_dummy_certificate : List ℕ → Option D)
    (check_certificate : D → Option ℕ → List String) (failed_to_create : String) where
  unfoldable pub run_ctlint : List ℕ → Option ℕ → Bool → Option (List CtlintResult)
  unfolding read_findings
  run_ctlint tbs_certificate issuer test_mode = elim (make_dummy_certificate tbs_certificate) [
    | none ↦ some (record { finding = failed_to_create; severity = "fatal" } ∷ [])
    | some dummy ↦ read_findings test_mode (check_certificate dummy issuer)
  ]
