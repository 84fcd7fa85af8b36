-- ===== src/LogLists/Intersect.antt =====
-- loglists/filter.go, intersect and the usable logs. The code narrows the logs of the first list in
-- place, so each of its entries shows all that was narrowed. The lists come from SelectByStatus
-- (the parameter of determine_usable_tls_logs), so that each log has a state.
pub mod Common
use ctsubmit.Prelude.{
  ℕ, String, Bool, true, false, not, ◌&&◌, ◌||◌, List, [], ◌∷◌, ◌++◌, Option, none, some, ltb,
  if◌then◌else◌,
}
use ctsubmit.Pki.Discovery.{bytes_equal}
use ctsubmit.Submitter.LogList.{LogState, TemporalInterval, Log, TiledLog, Operator}
use ctsubmit.Submitter.CompatibleLogs.{is_empty}
use ctsubmit.Submitter.Ctlint.{contains_text}
use ctsubmit.LogLists.Filter.{use_crtsh_log_names}

-- `if t2.After(t1) { t1 = t2 }` and `if t2.Before(t1) { t1 = t2 }`
abbrev pub later : ℕ → ℕ → ℕ
later t₁ t₂ = if ltb t₁ t₂ then t₂ else t₁

abbrev pub earlier : ℕ → ℕ → ℕ
earlier t₁ t₂ = if ltb t₂ t₁ then t₂ else t₁

abbrev pub usable_since : Option LogState → Option ℕ
usable_since none = none
usable_since (some s) = s.usable

unfoldable pub narrow_usable : Option ℕ → Option ℕ → Option ℕ
narrow_usable none u₂ = none
narrow_usable (some t₁) none = some t₁
narrow_usable (some t₁) (some t₂) = some (later t₁ t₂)

unfoldable pub narrow_state : Option LogState → Option LogState → Option LogState
unfolding narrow_usable
narrow_state none s₂ = none
narrow_state (some s₁) s₂ = some (record s₁ { usable = narrow_usable s₁.usable (usable_since s₂) })

unfoldable pub narrow_interval :
    Option TemporalInterval → Option TemporalInterval → Option TemporalInterval
narrow_interval none i₂ = none
narrow_interval (some i₁) none = some i₁
narrow_interval (some i₁) (some i₂) = some (record {
  start_inclusive = later i₁.start_inclusive i₂.start_inclusive;
  end_exclusive = earlier i₁.end_exclusive i₂.end_exclusive;
})

unfoldable pub narrow : Log → Log → Log
unfolding narrow_state narrow_interval
narrow log₁ log₂ = record log₁ {
  state = narrow_state log₁.state log₂.state;
  temporal_interval = narrow_interval log₁.temporal_interval log₂.temporal_interval;
}

unfoldable pub narrow_tiled : TiledLog → TiledLog → TiledLog
unfolding narrow_state narrow_interval
narrow_tiled log₁ log₂ = record log₁ {
  state = narrow_state log₁.state log₂.state;
  temporal_interval = narrow_interval log₁.temporal_interval log₂.temporal_interval;
}

-- The log at which the innermost loop breaks off.
unfoldable pub first_match : List ℕ → List Log → Option Log
unfolding bytes_equal
first_match id [] = none
first_match id (l ∷ ls) = if bytes_equal id l.log_id then some l else first_match id ls

unfoldable pub first_tiled_match : List ℕ → List TiledLog → Option TiledLog
unfolding bytes_equal
first_tiled_match id [] = none
first_tiled_match id (l ∷ ls) = if bytes_equal id l.log_id then some l else first_tiled_match id ls

abbrev pub cons_some {ℓ} : {A : Type ℓ} → Option A → List A → List A
cons_some none xs = xs
cons_some (some x) xs = x ∷ xs

-- The matches of a log in the second list, at most one from each operator.
unfoldable pub matches : List ℕ → List Operator → List Log
unfolding first_match
matches id [] = []
matches id (op ∷ ops) = cons_some (first_match id op.logs) (matches id ops)

unfoldable pub tiled_matches : List ℕ → List Operator → List TiledLog
unfolding first_tiled_match
tiled_matches id [] = []
tiled_matches id (op ∷ ops) = cons_some (first_tiled_match id op.tiled_logs) (tiled_matches id ops)

unfoldable pub narrow_all : Log → List Log → Log
unfolding narrow
narrow_all log [] = log
narrow_all log (m ∷ ms) = narrow_all (narrow log m) ms

unfoldable pub narrow_tiled_all : TiledLog → List TiledLog → TiledLog
unfolding narrow_tiled
narrow_tiled_all log [] = log
narrow_tiled_all log (m ∷ ms) = narrow_tiled_all (narrow_tiled log m) ms

module _ (ll₂ : List Operator) where
  unfoldable pub narrowed : Log → Log
  unfolding matches narrow_all
  narrowed log = narrow_all log (matches log.log_id ll₂)

  unfoldable pub narrowed_tiled : TiledLog → TiledLog
  unfolding tiled_matches narrow_tiled_all
  narrowed_tiled log = narrow_tiled_all log (tiled_matches log.log_id ll₂)

  -- The logs of an operator of the first list that an operator of the second has.
  unfoldable pub common_with : List Log → List Log → List Log
  unfolding narrowed first_match
  common_with logs₂ [] = []
  common_with logs₂ (l ∷ ls) =
      let rest = common_with logs₂ ls in
      elim (first_match l.log_id logs₂) [
        | none ↦ rest
        | some m ↦ if contains_text l.url "bogus" then rest else narrowed l ∷ rest
      ]

  unfoldable pub common_logs : List Operator → List Log → List Log
  unfolding common_with
  common_logs [] logs = []
  common_logs (op ∷ ops) logs = common_with op.logs logs ++ common_logs ops logs

  -- An entry for each match of the log.
  unfoldable pub repeat_for {ℓ} : {A B : Type ℓ} → A → List B → List A
  repeat_for x [] = []
  repeat_for x (m ∷ ms) = x ∷ repeat_for x ms

  unfoldable pub common_tiled_logs : List TiledLog → List TiledLog
  unfolding narrowed_tiled repeat_for
  common_tiled_logs [] = []
  common_tiled_logs (l ∷ ls) =
      repeat_for (narrowed_tiled l) (tiled_matches l.log_id ll₂) ++ common_tiled_logs ls

unfoldable pub intersect : List Operator → List Operator → List Operator
unfolding common_logs common_tiled_logs
intersect [] ll₂ = []
intersect (op ∷ ops) ll₂ =
    let logs = common_logs ll₂ ll₂ op.logs in
    let tiled = common_tiled_logs ll₂ op.tiled_logs in
    let rest = intersect ops ll₂ in
    if not (is_empty logs) || not (is_empty tiled)
    then record op { logs = logs; tiled_logs = tiled } ∷ rest
    else rest

-- SelectByStatus with the statuses of each program.
unfoldable pub determine_usable_tls_logs :
    (List Operator → List Operator)
    → (List Operator → List Operator)
    → List Operator
    → List Operator
    → List Operator
    → List Operator
    → List Operator
unfolding intersect use_crtsh_log_names
determine_usable_tls_logs select_usable select_admissible crtsh_v3_all chrome apple mozilla =
    use_crtsh_log_names crtsh_v3_all (
      intersect (intersect (select_usable chrome) (select_usable apple))
        (select_admissible mozilla))

unfoldable pub determine_usable_bimi_logs :
    (List Operator → List Operator) → List Operator → List Operator → List Operator
unfolding use_crtsh_log_names
determine_usable_bimi_logs select_usable crtsh_v3_all approved =
    use_crtsh_log_names crtsh_v3_all (select_usable approved)
