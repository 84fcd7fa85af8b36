-- ===== src/Submitter/Ctlint/Suppressed.antt =====
-- What test mode suppresses.
use Prim.Native.String.{len}
use ctsubmit.Prelude.{
  ◌∙◌, any, Option-cases, ◌||◌, ltb, ap, Bool-cases, inl, inr, refl, ◌≡◌, String, Bool, true, false,
  not, List, [], ◌∷◌, Option, none, some, select, if◌then◌else◌,
}
use ctsubmit.Submitter.Ctlint.{
  CtlintResult, is_test_log_finding, read_finding, add_finding, read_findings,
}

abbrev pub shown : List CtlintResult → List CtlintResult
shown rs = select (λ (r : CtlintResult). not (is_test_log_finding r.finding)) rs

-- The results that stand for a finding, read each for itself.
abbrev pub all_findings : List String → List CtlintResult
all_findings [] = []
all_findings (result ∷ results) = elim (read_finding result) [
  | none ↦ all_findings results
  | some r ↦ r ∷ all_findings results
]

-- What the mode lets through.
abbrev pub reported : Bool → List CtlintResult → List CtlintResult
reported true rs = shown rs
reported false rs = rs

add_finding-reported :
    (test_mode : Bool) (result : String) (results : List String)
    → add_finding test_mode (read_finding result) (reported test_mode (all_findings results))
      ≡ reported test_mode (all_findings (result ∷ results))
unfolding add_finding select
add_finding-reported test_mode result results = elim (Option-cases (read_finding result)) [
  | inl unread ↦ rw (all_findings, unread) refl
  | inr (r, read) ↦ elim (Bool-cases test_mode) [
    | inl test ↦ elim (Bool-cases (is_test_log_finding r.finding)) [
      | inl hidden ↦ rw (all_findings, read, test, hidden) refl
      | inr visible ↦ rw (all_findings, read, test, visible) refl
    ]
    | inr production ↦ rw (all_findings, read, production) refl
  ]
]

read_step :
    (short panics : Bool) (f : List CtlintResult → List CtlintResult)
    (read : Option (List CtlintResult)) (rest : List CtlintResult)
    → read ≡ (if panics then none else some rest)
    → (if short then none else elim read [ none ↦ none | some rs ↦ some (f rs) ])
      ≡ (if short || panics then none else some (f rest))
read_step true panics f read rest h = refl
read_step false true f read rest h = rw h refl
read_step false false f read rest h = rw h refl

-- In both modes the reading of the results panics exactly if one of them has fewer than three bytes.
-- Otherwise every result with a known severity is reported, in the order of the results, but in
-- test mode those in which a text for test logs occurs are left out.
pub read_findings_lem :
    (test_mode : Bool) (results : List String)
    → read_findings test_mode results ≡ (
        if any (λ s. ltb (len s) 3) results
        then none
        else some (reported test_mode (all_findings results)))
unfolding read_findings any
read_findings_lem test_mode [] = elim (Bool-cases test_mode) [
  | inl test ↦ rw test (unfold select in refl)
  | inr production ↦ rw production refl
]
read_findings_lem test_mode (result ∷ results) =
    let panics = any (λ s. ltb (len s) 3) results in
    read_step (ltb (len result) 3) panics (add_finding test_mode (read_finding result))
      (read_findings test_mode results) (reported test_mode (all_findings results))
      (read_findings_lem test_mode results)
    ∙ ap (λ rs. if ltb (len result) 3 || panics then none else some rs)
        (add_finding-reported test_mode result results)
