-- ===== src/Submitter/CompatibleLogs/Accepted.antt =====
-- The logs that are returned are those that one test accepts, and they are enough.
use ctsubmit.Prelude.{
  ℕ, ◌+◌, ◌≤◌, ◌≡◌, refl, Bool, true, false, not, ◌&&◌, ◌||◌, List, [], ◌∷◌, Option, none, some,
  ltb, length, select, arith, ◌⊎◌, inr, ◌==◌, nat_eq,
}
use ctsubmit.Submitter.Types.{SubmissionRequest, needs}
use ctsubmit.Submitter.LogList.{TemporalInterval, Log, TiledLog, Operator}
use ctsubmit.Submitter.Request.{Certificate}
use ctsubmit.Submitter.CompatibleLogs.{
  log_id_daedalus, Compatible, compatible, is_empty, takes_log, takes_tiled_log, is_usable,
  filter_logs, filter_tiled_logs, gather, check_enough, determine_compatible_logs,
}

-- How many logs a list of operators has.
abbrev pub total : List Operator → ℕ
total [] = 0
total (op ∷ ops) = length op.logs + length op.tiled_logs + total ops

-- An operator without a log is not kept.
abbrev pub has_logs : Operator → Bool
has_logs op = not (is_empty op.logs && is_empty op.tiled_logs)

module _ (temporally_compatible : Certificate → List Operator → List Operator)
    (parse_log_id : List ℕ → Option ℕ) (validate_chain : ℕ → Option TemporalInterval → Bool)
    (now : ℕ) (cert : Certificate) (sr : SubmissionRequest) where
  -- The log's ID is one, and its chain, state and dates are in order.
  abbrev pub accepts_log : Log → Bool
  accepts_log log = elim (parse_log_id log.log_id) [
    | none ↦ false
    | some id ↦
        not (id == log_id_daedalus && ltb now cert.not_after)
        && ((not (sr.policy_compliant && not sr.test_logs)
              || is_usable temporally_compatible parse_log_id validate_chain now cert sr log.state)
            && validate_chain id log.temporal_interval)
  ]

  abbrev pub accepts_tiled_log : TiledLog → Bool
  accepts_tiled_log log = elim (parse_log_id log.log_id) [
    | none ↦ false
    | some id ↦
        (not (sr.policy_compliant && not sr.test_logs)
          || is_usable temporally_compatible parse_log_id validate_chain now cert sr log.state)
        && validate_chain id log.temporal_interval
  ]

  abbrev pub accepted : List Operator → List Operator
  accepted [] = []
  accepted (op ∷ ops) =
      record op {
        logs = select accepts_log op.logs;
        tiled_logs = select accepts_tiled_log op.tiled_logs;
      }
      ∷ accepted ops

  filter_logs_lem :
      (logs : List Log)
      → let result =
          filter_logs temporally_compatible parse_log_id validate_chain now cert sr logs in
        (result ≡ none) ⊎ (result ≡ some (select accepts_log logs))
  unfolding filter_logs takes_log select
  filter_logs_lem [] = inr refl
  filter_logs_lem (log ∷ logs) = ground (arith, filter_logs_lem logs)

  filter_tiled_logs_lem :
      (logs : List TiledLog)
      → let result =
          filter_tiled_logs temporally_compatible parse_log_id validate_chain now cert sr logs in
        (result ≡ none) ⊎ (result ≡ some (select accepts_tiled_log logs))
  unfolding filter_tiled_logs takes_tiled_log select
  filter_tiled_logs_lem [] = inr refl
  filter_tiled_logs_lem (log ∷ logs) = ground (arith, filter_tiled_logs_lem logs)

  abbrev pub kept : List Operator → List Operator
  kept ops = select has_logs (accepted ops)

  length-is_empty : {A : Type 0} (xs : List A) → is_empty xs ≡ true → length xs ≡ 0
  length-is_empty xs h = ground arith

  gather_lem :
      (ops : List Operator)
      → let result = gather temporally_compatible parse_log_id validate_chain now cert sr ops in
        (result ≡ none)
        ⊎ (result ≡ some (record { operators = kept ops; total_logs = total (kept ops) }))
  unfolding gather select
  gather_lem [] = inr refl
  gather_lem (op ∷ ops) = ground (
    arith,
    filter_logs_lem op.logs,
    filter_tiled_logs_lem op.tiled_logs,
    gather_lem ops,
    length-is_empty (select accepts_log op.logs),
    length-is_empty (select accepts_tiled_log op.tiled_logs),
  )

  abbrev pub determine : List Operator → Compatible
  determine =
      determine_compatible_logs temporally_compatible parse_log_id validate_chain now cert sr

  -- The logs that are returned are, of those that fit the certificate's dates, exactly the ones
  -- that one test accepts, under their operators without the operators that have none; and they are
  -- of as many operators, and as many, as the request asks for.
  pub determine_compatible_logs_lem :
      (log_list ops : List Operator)
      → determine log_list ≡ compatible ops
      → (ops ≡ kept (temporally_compatible cert log_list))
        × ((needs sr).operators ≤ length ops)
        × ((needs sr).scts ≤ total ops)
  unfolding determine_compatible_logs check_enough needs
  determine_compatible_logs_lem log_list ops h =
      ground (arith, gather_lem (temporally_compatible cert log_list))
