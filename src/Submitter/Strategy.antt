-- ===== src/Submitter/Strategy.antt =====
-- submitter/strategy.go: which logs to try, in which order. Compiled expressions are predicates on
-- URLs; url.JoinPath with "/" is `join`; the text of a detail is `text`; percentages are those of
-- Monitor.Uptime. A member's checks read the clock in turn: `clock n` is the reading `n`. The draw of
-- a random weight for member `i` is `weight i`, below 1000 in the code.
pub mod Buckets
pub mod Order
use ctsubmit.Prelude.{
  ℕ, suc, ◌+◌, ◌-◌, ◌*◌, String, Bool, true, false, not, ◌&&◌, List, [], ◌∷◌, ◌++◌, Option, none,
  some, ltb, map, contains, string_eq, if◌then◌else◌,
}
use ctsubmit.Prelude.Int.{ℤ, pos, negsuc, ltb_ℤ}
use ctsubmit.Monitor.State.{Monitor}
use ctsubmit.Monitor.Backoff.{second, get_backoff}
use ctsubmit.Monitor.Sth.{get_sth_data}
use ctsubmit.Monitor.Uptime.{Floats, get_uptime}
use ctsubmit.Submitter.Types.{
  rfc6962, static, bucket_rank, excluded, dispreferred_mmdblown, dispreferred_lowuptime,
  dispreferred_recentbadresponse, dispreferred_recenttimeout, dispreferred_recent5xx,
  dispreferred_recent4xx, dispreferred_slowresponses, neutral, preferred_byconfig, is_excluded,
  is_neutral, StrategyMember, zero_member, Bucket,
}
use ctsubmit.Submitter.LogList.{Log, TiledLog, Operator}
use ctsubmit.Submitter.SubmitToLog.{EntryType, x509_log_entry, precert_log_entry}

-- What DispreferredDetail says. The last is the reason that a backoff getter gives.
pub data Detail (P : Type 0) : Type 0 where
  sth_age : ℕ → ℕ → Detail P
  submission_uptime lowest_uptime : P → P → Detail P
  backoff_reason : Bucket → ℤ → Detail P

pub record StrategyConfig (P : Type 0) : Type 0 where
  pub excluded_operators : List String
  pub excluded_urls : List (String → Bool)
  pub preferred_urls : List (String → Bool)
  pub submit_endpoint_24h : P
  pub lowest_endpoint_90d : P

-- cmp.Compare
abbrev pub compare : ℕ → ℕ → ℤ
compare a b = if ltb a b then negsuc 0 else if ltb b a then pos 1 else pos 0

abbrev pub negate : ℤ → ℤ
negate (pos n) = if ltb 0 n then negsuc (n - 1) else pos 0
negate (negsuc n) = pos (suc n)

unfoldable pub sort_strategy_members : StrategyMember → StrategyMember → ℤ
unfolding bucket_rank
sort_strategy_members sm₁ sm₂ = elim (compare (bucket_rank sm₁.bucket) (bucket_rank sm₂.bucket)) [
  | negsuc n ↦ negate (negsuc n)
  | pos n ↦ if ltb 0 n then negate (pos n) else compare sm₁.random_weight sm₂.random_weight
]

-- slices.SortFunc, which leaves open how it orders members that compare as equal.
unfoldable pub place : StrategyMember → List StrategyMember → List StrategyMember
unfolding sort_strategy_members
place m [] = m ∷ []
place m (n ∷ ns) = if ltb_ℤ (pos 0) (sort_strategy_members m n) then n ∷ place m ns else m ∷ n ∷ ns

unfoldable pub sort_members : List StrategyMember → List StrategyMember
unfolding place
sort_members [] = []
sort_members (m ∷ ms) = place m (sort_members ms)

unfoldable pub apply_log_exclusion_config :
    String → List (String → Bool) → StrategyMember → StrategyMember
apply_log_exclusion_config url [] sm = sm
apply_log_exclusion_config url (re ∷ res) sm =
    let rest = apply_log_exclusion_config url res sm in
    if re url then record sm { bucket = excluded; outcome = "Log excluded by config" } else rest

unfoldable pub first_preference : String → List (String → Bool) → StrategyMember → StrategyMember
first_preference url [] sm = sm
first_preference url (re ∷ res) sm =
    let rest = first_preference url res sm in
    if re url then record sm { bucket = preferred_byconfig } else rest

unfoldable pub apply_log_preference_config :
    String → List (String → Bool) → StrategyMember → StrategyMember
unfolding first_preference
apply_log_preference_config url res sm =
    if is_excluded sm.bucket then sm else first_preference url res sm

module _ {P : Type 0} (floats : Floats P) (text : Detail P → String) (join : String → String)
    (cfg : StrategyConfig P) (mon : Monitor P) (entry_type : EntryType) where
  unfoldable pub disprefer_if_mmd_blown : ℕ → StrategyMember → StrategyMember
  unfolding get_sth_data
  disprefer_if_mmd_blown now sm = elim (get_sth_data sm.monitoring_url mon.sth_data) [
    | none ↦ record sm { bucket = excluded; outcome = "No STH timestamp available" }
    | some sd ↦ elim sd.timestamp [
      | none ↦ sm
      | some t ↦
          if ltb (sm.mmd * second) (now - t)
          then record sm {
            bucket = dispreferred_mmdblown;
            dispreferred_detail = text (sth_age (now - t) sm.mmd);
          }
          else sm
    ]
  ]

  abbrev pub endpoint_of : EntryType → String
  endpoint_of precert_log_entry = "add-pre-chain"
  endpoint_of x509_log_entry = "add-chain"

  -- `ok && endpointUptime < threshold`
  abbrev pub too_low : Option P → P → Bool
  too_low none threshold = false
  too_low (some p) threshold = floats.below p threshold

  abbrev pub mark_low : (P → P → Detail P) → Option P → P → StrategyMember → StrategyMember
  mark_low detail none threshold sm = sm
  mark_low detail (some p) threshold sm =
      if floats.below p threshold
      then record sm {
        bucket = dispreferred_lowuptime;
        dispreferred_detail = text (detail p threshold);
      }
      else sm

  unfoldable pub disprefer_if_low_uptime : StrategyMember → StrategyMember
  disprefer_if_low_uptime sm =
      let sm₁ =
        mark_low submission_uptime
          (get_uptime floats sm.submission_url (endpoint_of entry_type) mon.uptime_24h)
          cfg.submit_endpoint_24h sm in
      mark_low lowest_uptime (get_uptime floats sm.submission_url "LOWEST" mon.uptime_90d)
        cfg.lowest_endpoint_90d sm₁

  -- The five dispreferIf...Backoff functions.
  unfoldable pub disprefer_if_backoff : Bucket → ℤ → StrategyMember → StrategyMember
  disprefer_if_backoff b duration sm =
      if ltb_ℤ (pos 0) duration
      then record sm { bucket = b; dispreferred_detail = text (backoff_reason b duration) }
      else sm

  abbrev pub when_neutral : (StrategyMember → StrategyMember) → StrategyMember → StrategyMember
  when_neutral f sm = if is_neutral sm.bucket then f sm else sm

  unfoldable pub assess_backoffs : (ℕ → ℕ) → StrategyMember → StrategyMember
  unfolding disprefer_if_backoff
  assess_backoffs clock sm =
      let url = sm.submission_url in
      let left₁ = get_backoff (clock 1) (clock 2) url mon.backoffs.bad_response in
      let left₂ = get_backoff (clock 3) (clock 4) url mon.backoffs.timeout in
      let left₃ = get_backoff (clock 5) (clock 6) url mon.backoffs.http_5xx in
      let left₄ = get_backoff (clock 7) (clock 8) url mon.backoffs.http_4xx in
      let left₅ = get_backoff (clock 9) (clock 10) url mon.backoffs.slow_response in
      let sm₁ = when_neutral (disprefer_if_backoff dispreferred_recentbadresponse left₁) sm in
      let sm₂ = when_neutral (disprefer_if_backoff dispreferred_recenttimeout left₂) sm₁ in
      let sm₃ = when_neutral (disprefer_if_backoff dispreferred_recent5xx left₃) sm₂ in
      let sm₄ = when_neutral (disprefer_if_backoff dispreferred_recent4xx left₄) sm₃ in
      when_neutral (disprefer_if_backoff dispreferred_slowresponses left₅) sm₄

  -- One round of the loop over the strategy.
  unfoldable pub assess : (ℕ → ℕ) → ℕ → StrategyMember → StrategyMember
  unfolding apply_log_exclusion_config disprefer_if_mmd_blown disprefer_if_low_uptime
      assess_backoffs apply_log_preference_config
  assess clock draw sm =
      let sm₁ = apply_log_exclusion_config sm.submission_url cfg.excluded_urls sm in
      let sm₂ = when_neutral (disprefer_if_mmd_blown (clock 0)) sm₁ in
      let sm₃ = when_neutral disprefer_if_low_uptime sm₂ in
      let sm₄ = assess_backoffs clock sm₃ in
      let sm₅ =
        when_neutral (apply_log_preference_config sm.submission_url cfg.preferred_urls) sm₄ in
      if is_excluded sm₅.bucket then sm₅ else record sm₅ { random_weight = draw }

  unfoldable pub assess_all : (ℕ → ℕ → ℕ) → (ℕ → ℕ) → ℕ → List StrategyMember → List StrategyMember
  unfolding assess
  assess_all clock weight i [] = []
  assess_all clock weight i (sm ∷ sms) =
      assess (clock i) (weight i) sm ∷ assess_all clock weight (i + 1) sms

  unfoldable pub operator_member : Operator → StrategyMember
  operator_member op =
      let sm = record zero_member { operator = op.name; bucket = neutral } in
      if contains cfg.excluded_operators op.name
      then record sm { bucket = excluded; outcome = "Operator excluded by config" }
      else sm

  unfoldable pub log_member : StrategyMember → Log → StrategyMember
  log_member sm log = record sm {
    submission_url = join log.url;
    monitoring_url = join log.url;
    log_name = log.description;
    log_type = rfc6962;
    mmd = log.mmd;
  }

  unfoldable pub tiled_log_member : StrategyMember → TiledLog → StrategyMember
  tiled_log_member sm log = record sm {
    submission_url = join log.submission_url;
    monitoring_url = join log.monitoring_url;
    log_name = log.description;
    log_type = static;
    mmd = log.mmd;
  }

  unfoldable pub populate : List Operator → List StrategyMember
  unfolding operator_member log_member tiled_log_member
  populate [] = []
  populate (op ∷ ops) =
      (map (log_member (operator_member op)) op.logs
        ++ map (tiled_log_member (operator_member op)) op.tiled_logs)
      ++ populate ops

  unfoldable pub devize_submission_strategy :
      (ℕ → ℕ → ℕ) → (ℕ → ℕ) → List Operator → List StrategyMember
  unfolding populate assess_all sort_members
  devize_submission_strategy clock weight operators =
      sort_members (assess_all clock weight 0 (populate operators))
