-- ===== src/Health/Busy.antt =====
-- What the verdicts say of all reports so far.
use ctsubmit.Prelude.{
  ℕ, ◌+◌, ◌≡◌, ◌∙◌, Bool, false, not, ◌&&◌, List, [], ◌∷◌, none, some, ltb, any, arith,
}
use ctsubmit.Health.{
  Health, Report, new_health, set_initial_data_ready, update_latest_timestamps, is_ready,
}

-- The reports in the order in which they were made.
abbrev pub reported : List Report → Health → Health
reported [] h = h
reported (r ∷ rs) h = reported rs (update_latest_timestamps r h)

-- Does the report say that the service was busy so recently?
abbrev pub is_recently_busy : ℕ → ℕ → Report → Bool
is_recently_busy remember now r = elim r.busy [
  | none ↦ false
  | some t ↦ not (ltb (t + remember) now)
]

ready_step :
    (remember now : ℕ) (r : Report) (h : Health)
    → is_ready remember now (update_latest_timestamps r h)
      ≡ (is_ready remember now h && not (is_recently_busy remember now r))
unfolding is_ready update_latest_timestamps
ready_step remember now r h = ground arith

ready_all :
    (remember now : ℕ) (rs : List Report) (h : Health)
    → is_ready remember now (reported rs h)
      ≡ (is_ready remember now h && not (any (is_recently_busy remember now) rs))
unfolding any
ready_all remember now [] h = ground arith
ready_all remember now (r ∷ rs) h =
    ground
      (arith, ready_step remember now r h, ready_all remember now rs (update_latest_timestamps r h))

-- Once the initial data is there, the service is ready exactly if none of the reports made so far,
-- in whatever order, says that it was busy within the remembered time.
pub is_ready_lem :
    (remember now : ℕ) (rs : List Report)
    → is_ready remember now (reported rs (set_initial_data_ready new_health))
      ≡ (ltb remember now && not (any (is_recently_busy remember now) rs))
is_ready_lem remember now rs =
    ready_all remember now rs (set_initial_data_ready new_health)
    ∙ unfold is_ready set_initial_data_ready new_health in ground arith
