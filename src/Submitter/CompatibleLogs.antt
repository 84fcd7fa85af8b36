-- ===== src/Submitter/CompatibleLogs.antt =====
-- submitter/compatibleLogs.go: which logs of a list can take the certificate. The time is `now`
-- throughout a call. TemporallyCompatible and logid.FromBytes are loglist3's and logid's; a log ID is the
-- number that its 32 bytes spell. `validate_chain` is pki.ValidateChain with the request's chain.
pub mod Accepted
use ctsubmit.Prelude.{
  ℕ, ◌+◌, Bool, true, false, not, ◌&&◌, ◌||◌, List, [], ◌∷◌, Option, none, some, ltb, length, ◌==◌,
  nat_eq, if◌then◌else◌,
}
use ctsubmit.Prelude.Int.{ℤ, pos, ltb_ℤ}
use ctsubmit.Submitter.Types.{SubmissionRequest}
use ctsubmit.Submitter.LogList.{LogState, TemporalInterval, Log, TiledLog, Operator}
use ctsubmit.Submitter.Request.{Certificate}

abbrev pub log_id_daedalus : ℕ
log_id_daedalus = 13121127781003247835375969929413509455483792526606540382552884278089867863547

pub data Compatible : Type 0 where
  compatible : List Operator → Compatible
  expired bad_log_id : Compatible
  not_enough_operators not_enough_scts : ℤ → ℕ → Compatible

-- What the loop over the operators has gathered, with the number of logs.
pub record Gathered : Type 0 where
  pub operators : List Operator
  pub total_logs : ℕ

abbrev pub is_empty {ℓ} : {A : Type ℓ} → List A → Bool
is_empty [] = true
is_empty (x ∷ xs) = false

module _ (temporally_compatible : Certificate → List Operator → List Operator)
    (parse_log_id : List ℕ → Option ℕ) (validate_chain : ℕ → Option TemporalInterval → Bool)
    (now : ℕ) (cert : Certificate) (sr : SubmissionRequest) where
  -- Compliance is wanted and no test logs are.
  abbrev pub strict : Bool
  strict = sr.policy_compliant && not sr.test_logs

  unfoldable pub is_usable : Option LogState → Bool
  is_usable none = false
  is_usable (some s) = elim s.usable [
    | none ↦ false
    | some t ↦ not (ltb now t) && not (s.read_only || (s.retired || s.rejected))
  ]

  unfoldable pub takes_log : ℕ → Log → Bool
  unfolding is_usable
  takes_log id log =
      if id == log_id_daedalus && ltb now cert.not_after
      then false
      else if strict && not (is_usable log.state)
      then false
      else validate_chain id log.temporal_interval

  unfoldable pub takes_tiled_log : ℕ → TiledLog → Bool
  unfolding is_usable
  takes_tiled_log id log =
      if strict && not (is_usable log.state) then false else validate_chain id log.temporal_interval

  unfoldable pub filter_logs : List Log → Option (List Log)
  unfolding takes_log
  filter_logs [] = some []
  filter_logs (log ∷ logs) = elim (parse_log_id log.log_id) [
    | none ↦ none
    | some id ↦ elim (filter_logs logs) [
      | none ↦ none
      | some rest ↦ some (if takes_log id log then log ∷ rest else rest)
    ]
  ]

  unfoldable pub filter_tiled_logs : List TiledLog → Option (List TiledLog)
  unfolding takes_tiled_log
  filter_tiled_logs [] = some []
  filter_tiled_logs (log ∷ logs) = elim (parse_log_id log.log_id) [
    | none ↦ none
    | some id ↦ elim (filter_tiled_logs logs) [
      | none ↦ none
      | some rest ↦ some (if takes_tiled_log id log then log ∷ rest else rest)
    ]
  ]

  unfoldable pub gather : List Operator → Option Gathered
  unfolding filter_logs filter_tiled_logs
  gather [] = some (record { operators = []; total_logs = 0 })
  gather (op ∷ ops) = elim (filter_logs op.logs) [
    | none ↦ none
    | some logs ↦ elim (filter_tiled_logs op.tiled_logs) [
      | none ↦ none
      | some tiled ↦ elim (gather ops) [
        | none ↦ none
        | some g ↦
            let kept = record op { logs = logs; tiled_logs = tiled } in
            some (record {
              operators =
                  if is_empty logs && is_empty tiled then g.operators else kept ∷ g.operators;
              total_logs = length logs + length tiled + g.total_logs;
            })
      ]
    ]
  ]

  unfoldable pub check_enough : Gathered → Compatible
  check_enough g =
      if ltb_ℤ (pos (length g.operators)) sr.operators
      then not_enough_operators sr.operators (length g.operators)
      else if ltb_ℤ (pos g.total_logs) sr.scts
      then not_enough_scts sr.scts g.total_logs
      else compatible g.operators

  unfoldable pub determine_compatible_logs : List Operator → Compatible
  unfolding gather check_enough
  determine_compatible_logs log_list =
      if strict && ltb cert.not_after now
      then expired
      else elim (gather (temporally_compatible cert log_list)) [
        | none ↦ bad_log_id
        | some g ↦ check_enough g
      ]
