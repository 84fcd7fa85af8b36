-- ===== src/Submitter/Strategy/Buckets.antt =====
-- What each bucket of the strategy stands for.
use ctsubmit.Prelude.{
  Bool-cases, inl, inr, ℕ, ◌+◌, ◌-◌, ◌*◌, ◌≡◌, refl, ◌∙◌, String, Bool, true, false, not, ◌&&◌,
  ◌||◌, List, [], ◌∷◌, none, some, ltb, arith, any, if◌then◌else◌,
}
use ctsubmit.Prelude.Int.{ℤ, pos, ltb_ℤ}
use ctsubmit.Monitor.State.{Monitor}
use ctsubmit.Monitor.Backoff.{second, get_backoff, Backoffs}
use ctsubmit.Monitor.Sth.{get_sth_data}
use ctsubmit.Monitor.Uptime.{Floats, get_uptime}
use ctsubmit.Submitter.Types.{
  Bucket, excluded, dispreferred_recentbadresponse, dispreferred_recenttimeout,
  dispreferred_recent5xx, dispreferred_recent4xx, dispreferred_slowresponses, neutral,
  preferred_byconfig, is_excluded, is_neutral, StrategyMember,
}
use ctsubmit.Submitter.SubmitToLog.{EntryType}
use ctsubmit.Submitter.Strategy.{
  Detail, StrategyConfig, apply_log_exclusion_config, first_preference, apply_log_preference_config,
  disprefer_if_mmd_blown, disprefer_if_low_uptime, assess_backoffs, assess, disprefer_if_backoff,
  endpoint_of, too_low, when_neutral,
}

exclusion_bucket :
    (url : String) (res : List (String → Bool)) (sm : StrategyMember)
    → (apply_log_exclusion_config url res sm).bucket
      ≡ (if any (λ re. re url) res then excluded else sm.bucket)
unfolding apply_log_exclusion_config any
exclusion_bucket url [] sm = refl
exclusion_bucket url (re ∷ res) sm = ground (arith, exclusion_bucket url res sm)

preference_bucket :
    (url : String) (res : List (String → Bool)) (sm : StrategyMember)
    → (first_preference url res sm).bucket
      ≡ (if any (λ re. re url) res then preferred_byconfig else sm.bucket)
unfolding first_preference any
preference_bucket url [] sm = refl
preference_bucket url (re ∷ res) sm = ground (arith, preference_bucket url res sm)

exclusion_urls :
    (url : String) (res : List (String → Bool)) (sm : StrategyMember)
    → ((apply_log_exclusion_config url res sm).submission_url ≡ sm.submission_url)
      × ((apply_log_exclusion_config url res sm).monitoring_url ≡ sm.monitoring_url)
      × ((apply_log_exclusion_config url res sm).mmd ≡ sm.mmd)
unfolding apply_log_exclusion_config
exclusion_urls url [] sm = (refl, refl, refl)
exclusion_urls url (re ∷ res) sm = ground (arith, exclusion_urls url res sm)

module _ {P : Type 0} (floats : Floats P) (text : Detail P → String) (join : String → String)
    (cfg : StrategyConfig P) (mon : Monitor P) (entry_type : EntryType) (clock : ℕ → ℕ) (draw : ℕ)
    (sm : StrategyMember) where
  abbrev pub has_sth_data : Bool
  has_sth_data = elim (get_sth_data sm.monitoring_url mon.sth_data) [
    | none ↦ false
    | some sd ↦ true
  ]

  -- There is a tree head, and it is older than the log's maximum merge delay.
  abbrev pub mmd_blown : Bool
  mmd_blown = elim (get_sth_data sm.monitoring_url mon.sth_data) [
    | none ↦ false
    | some sd ↦ elim sd.timestamp [ none ↦ false | some t ↦ ltb (sm.mmd * second) (clock 0 - t) ]
  ]

  abbrev pub low_uptime : Bool
  low_uptime =
      too_low floats text join cfg mon entry_type
        (get_uptime floats sm.submission_url
          (endpoint_of floats text join cfg mon entry_type entry_type) mon.uptime_24h)
        cfg.submit_endpoint_24h
      || too_low floats text join cfg mon entry_type
          (get_uptime floats sm.submission_url "LOWEST" mon.uptime_90d) cfg.lowest_endpoint_90d

  abbrev pub backing_off : ℕ → Backoffs → Bool
  backing_off n m = ltb_ℤ (pos 0) (get_backoff (clock n) (clock (n + 1)) sm.submission_url m)

  abbrev pub any_backoff : Bool
  any_backoff =
      backing_off 1 mon.backoffs.bad_response
      || (backing_off 3 mon.backoffs.timeout
          || (backing_off 5 mon.backoffs.http_5xx
              || (backing_off 7 mon.backoffs.http_4xx || backing_off 9 mon.backoffs.slow_response)))

  abbrev pub url_excluded : Bool
  url_excluded = any (λ re. re sm.submission_url) cfg.excluded_urls

  abbrev pub url_preferred : Bool
  url_preferred = any (λ re. re sm.submission_url) cfg.preferred_urls

  abbrev pub assessed_bucket : Bucket
  assessed_bucket = (assess floats text join cfg mon entry_type clock draw sm).bucket

  backoffs_neutral :
      (s : StrategyMember)
      → s.submission_url ≡ sm.submission_url
      → (is_neutral (assess_backoffs floats text join cfg mon entry_type clock s).bucket
          ≡ (is_neutral s.bucket && not any_backoff))
        × (is_excluded (assess_backoffs floats text join cfg mon entry_type clock s).bucket
            ≡ is_excluded s.bucket)
  unfolding assess_backoffs
  backoffs_neutral s e = ground arith

  abbrev mmd_stage : StrategyMember → StrategyMember
  mmd_stage =
      when_neutral floats text join cfg mon entry_type
        (disprefer_if_mmd_blown floats text join cfg mon entry_type (clock 0))

  abbrev uptime_stage : StrategyMember → StrategyMember
  uptime_stage =
      when_neutral floats text join cfg mon entry_type
        (disprefer_if_low_uptime floats text join cfg mon entry_type)

  mmd_neutral :
      (s : StrategyMember)
      → s.monitoring_url ≡ sm.monitoring_url
      → s.mmd ≡ sm.mmd
      → (is_neutral (mmd_stage s).bucket ≡ (is_neutral s.bucket && (has_sth_data && not mmd_blown)))
        × (is_excluded (mmd_stage s).bucket
            ≡ (is_excluded s.bucket || (is_neutral s.bucket && not has_sth_data)))
        × ((mmd_stage s).submission_url ≡ s.submission_url)
  unfolding disprefer_if_mmd_blown
  mmd_neutral s e d = ground arith

  uptime_neutral :
      (s : StrategyMember)
      → s.submission_url ≡ sm.submission_url
      → (is_neutral (uptime_stage s).bucket ≡ (is_neutral s.bucket && not low_uptime))
        × (is_excluded (uptime_stage s).bucket ≡ is_excluded s.bucket)
        × ((uptime_stage s).submission_url ≡ s.submission_url)
  unfolding disprefer_if_low_uptime
  uptime_neutral s e = ground arith

  abbrev fourth : StrategyMember
  fourth =
      assess_backoffs floats text join cfg mon entry_type clock (
        uptime_stage
          (mmd_stage (apply_log_exclusion_config sm.submission_url cfg.excluded_urls sm)))

  fourth_neutral :
      (is_neutral fourth.bucket ≡ (
        is_neutral sm.bucket
        && (not url_excluded
            && (has_sth_data && not mmd_blown && not low_uptime && not any_backoff))))
      × (is_excluded fourth.bucket
          ≡ (is_excluded sm.bucket || (url_excluded || (is_neutral sm.bucket && not has_sth_data))))
  fourth_neutral =
      let s₁ = apply_log_exclusion_config sm.submission_url cfg.excluded_urls sm in
      let urls = exclusion_urls sm.submission_url cfg.excluded_urls sm in
      let b₁ = exclusion_bucket sm.submission_url cfg.excluded_urls sm in
      let m = mmd_neutral s₁ urls.1 urls.2 in
      let u = uptime_neutral (mmd_stage s₁) (m.2 ∙ urls.0) in
      let b = backoffs_neutral (uptime_stage (mmd_stage s₁)) (u.2 ∙ (m.2 ∙ urls.0)) in
      ground (arith, b₁, m.0, m.1, u.0, u.1, b.0, b.1)

  abbrev pub is_preferred : Bucket → Bool
  is_preferred preferred_byconfig = true
  is_preferred _ = false

  neutral_bucket : (b : Bucket) → is_neutral b ≡ true → b ≡ neutral
  neutral_bucket b h = ground arith

  abbrev last_stage : StrategyMember → StrategyMember
  last_stage =
      when_neutral floats text join cfg mon entry_type
        (apply_log_preference_config sm.submission_url cfg.preferred_urls)

  last_bucket :
      (s : StrategyMember)
      → is_preferred s.bucket ≡ false
      → (is_excluded (last_stage s).bucket ≡ is_excluded s.bucket)
        × (is_preferred (last_stage s).bucket ≡ (is_neutral s.bucket && url_preferred))
  unfolding apply_log_preference_config
  last_bucket s h = ground (arith, preference_bucket sm.submission_url cfg.preferred_urls s)

  -- A step that prefers no log.
  abbrev Unpreferring : (StrategyMember → StrategyMember) → Type 0
  Unpreferring f =
      (s : StrategyMember) → is_preferred s.bucket ≡ false → is_preferred (f s).bucket ≡ false

  when_neutral-Unpreferring :
      (f : StrategyMember → StrategyMember)
      → Unpreferring f
      → Unpreferring (when_neutral floats text join cfg mon entry_type f)
  when_neutral-Unpreferring f h s p = elim (Bool-cases (is_neutral s.bucket)) [
    | inl n ↦ rw n (h s p)
    | inr n ↦ rw n p
  ]

  mmd-Unpreferring :
      Unpreferring (disprefer_if_mmd_blown floats text join cfg mon entry_type (clock 0))
  unfolding disprefer_if_mmd_blown
  mmd-Unpreferring s p = ground arith

  uptime-Unpreferring : Unpreferring (disprefer_if_low_uptime floats text join cfg mon entry_type)
  unfolding disprefer_if_low_uptime
  uptime-Unpreferring s p = ground arith

  backoff-Unpreferring :
      (b : Bucket) (d : ℤ)
      → is_preferred b ≡ false
      → Unpreferring (
          when_neutral floats text join cfg mon entry_type
            (disprefer_if_backoff floats text join cfg mon entry_type b d))
  unfolding disprefer_if_backoff
  backoff-Unpreferring b d h =
      when_neutral-Unpreferring (disprefer_if_backoff floats text join cfg mon entry_type b d)
        (λ s p. ground arith)

  backoffs-Unpreferring : Unpreferring (assess_backoffs floats text join cfg mon entry_type clock)
  unfolding assess_backoffs
  backoffs-Unpreferring s p =
      let d₁ = get_backoff (clock 1) (clock 2) s.submission_url mon.backoffs.bad_response in
      let s₁ =
        when_neutral floats text join cfg mon entry_type
          (disprefer_if_backoff floats text join cfg mon entry_type dispreferred_recentbadresponse
            d₁)
          s in
      let p₁ = backoff-Unpreferring dispreferred_recentbadresponse d₁ refl s p in
      let d₂ = get_backoff (clock 3) (clock 4) s.submission_url mon.backoffs.timeout in
      let s₂ =
        when_neutral floats text join cfg mon entry_type
          (disprefer_if_backoff floats text join cfg mon entry_type dispreferred_recenttimeout d₂)
          s₁ in
      let p₂ = backoff-Unpreferring dispreferred_recenttimeout d₂ refl s₁ p₁ in
      let d₃ = get_backoff (clock 5) (clock 6) s.submission_url mon.backoffs.http_5xx in
      let s₃ =
        when_neutral floats text join cfg mon entry_type
          (disprefer_if_backoff floats text join cfg mon entry_type dispreferred_recent5xx d₃) s₂ in
      let p₃ = backoff-Unpreferring dispreferred_recent5xx d₃ refl s₂ p₂ in
      let d₄ = get_backoff (clock 7) (clock 8) s.submission_url mon.backoffs.http_4xx in
      let s₄ =
        when_neutral floats text join cfg mon entry_type
          (disprefer_if_backoff floats text join cfg mon entry_type dispreferred_recent4xx d₄) s₃ in
      let p₄ = backoff-Unpreferring dispreferred_recent4xx d₄ refl s₃ p₃ in
      let d₅ = get_backoff (clock 9) (clock 10) s.submission_url mon.backoffs.slow_response in
      backoff-Unpreferring dispreferred_slowresponses d₅ refl s₄ p₄

  exclusion-Unpreferring :
      (url : String) (res : List (String → Bool))
      → Unpreferring (apply_log_exclusion_config url res)
  exclusion-Unpreferring url res s p = ground (arith, exclusion_bucket url res s)

  fourth_bucket : is_preferred sm.bucket ≡ false → is_preferred fourth.bucket ≡ false
  fourth_bucket h =
      let s₁ = apply_log_exclusion_config sm.submission_url cfg.excluded_urls sm in
      let p₁ = exclusion-Unpreferring sm.submission_url cfg.excluded_urls sm h in
      let p₂ =
        when_neutral-Unpreferring
          (disprefer_if_mmd_blown floats text join cfg mon entry_type (clock 0)) mmd-Unpreferring s₁
          p₁ in
      backoffs-Unpreferring (uptime_stage (mmd_stage s₁)) (
        when_neutral-Unpreferring (disprefer_if_low_uptime floats text join cfg mon entry_type)
          uptime-Unpreferring (mmd_stage s₁) p₂)

  assess_bucket : assessed_bucket ≡ (last_stage fourth).bucket
  unfolding assess
  assess_bucket = ground arith

  -- A log is excluded exactly if its operator is excluded by the configuration, its URL matches an
  -- excluded pattern or the monitor has no entry for its tree head. The member comes with the
  -- bucket that its operator gives it, neutral or excluded.
  assess_excluded :
      (is_neutral sm.bucket || is_excluded sm.bucket) ≡ true
      → is_excluded assessed_bucket ≡ (is_excluded sm.bucket || (url_excluded || not has_sth_data))
  assess_excluded h =
      ground (arith, assess_bucket, last_bucket fourth, fourth_bucket, fourth_neutral)

  -- A log is preferred exactly if its operator and URL are not excluded, the monitor has an entry for
  -- its tree head, in which the time of the tree head is still missing or not too old, its uptimes are not below the thresholds, no backoff of any kind is in
  -- effect and its URL matches a preferred pattern. The member comes with the bucket that its
  -- operator gives it, neutral or excluded.
  pub assess_preferred :
      (is_neutral sm.bucket || is_excluded sm.bucket) ≡ true
      → is_preferred assessed_bucket ≡ (
          is_neutral sm.bucket
          && (not url_excluded
              && (has_sth_data
                  && (not mmd_blown && (not low_uptime && (not any_backoff && url_preferred))))))
  assess_preferred h =
      ground (arith, assess_bucket, last_bucket fourth, fourth_bucket, fourth_neutral)
