-- ===== src/LogLists/Intersect/Common.antt =====
-- What a log of the intersection is.
use ctsubmit.Prelude.{
  ℕ, ◌≡◌, ◌≢◌, refl, sym, ap, ◌∙◌, subst, Bool, true, false, not, ◌&&◌, ◌||◌, List, [], ◌∷◌, ◌++◌,
  Option, none, some, leb, arith, All, All-append, Option-cases, Bool-cases, inl, inr, ◌⊎◌,
}
use ctsubmit.Submitter.LogList.{LogState, TemporalInterval, Log, Operator}
use ctsubmit.Submitter.CompatibleLogs.{is_empty}
use ctsubmit.Submitter.Ctlint.{contains_text}
use ctsubmit.LogLists.Intersect.{
  usable_since, narrow_state, narrow_interval, narrow, first_match, matches, narrow_all, narrowed,
  common_with, common_logs, common_tiled_logs, intersect,
}

-- Where both have one, the first time is not before the second.
abbrev pub not_before : Option ℕ → Option ℕ → Bool
not_before none t₂ = true
not_before (some t₁) none = true
not_before (some t₁) (some t₂) = leb t₂ t₁

abbrev pub inside : Option TemporalInterval → Option TemporalInterval → Bool
inside none i₂ = true
inside (some i₁) none = true
inside (some i₁) (some i₂) =
    leb i₂.start_inclusive i₁.start_inclusive && leb i₁.end_exclusive i₂.end_exclusive

-- The first log is no wider than the second: usable no sooner, for no longer a period.
abbrev pub IsWithin : Log → Log → Type 0
IsWithin log m =
    (not_before (usable_since log.state) (usable_since m.state) ≡ true)
    × (inside log.temporal_interval m.temporal_interval ≡ true)

narrow-usable :
    (s₁ s₂ : Option LogState) (t : Option ℕ)
    → (not_before (usable_since s₁) t ≡ true
        → not_before (usable_since (narrow_state s₁ s₂)) t ≡ true)
      × (not_before (usable_since (narrow_state s₁ s₂)) (usable_since s₂) ≡ true)
unfolding narrow_state
narrow-usable s₁ s₂ t = ground arith

narrow-inside :
    (i₁ i₂ i : Option TemporalInterval)
    → (inside i₁ i ≡ true → inside (narrow_interval i₁ i₂) i ≡ true)
      × (inside (narrow_interval i₁ i₂) i₂ ≡ true)
unfolding narrow_interval
narrow-inside i₁ i₂ i = ground arith

narrow-IsWithin :
    (log m x : Log) → (IsWithin log x → IsWithin (narrow log m) x) × IsWithin (narrow log m) m
unfolding narrow
narrow-IsWithin log m x =
    let (old_usable, new_usable) = narrow-usable log.state m.state (usable_since x.state) in
    let (old_interval, new_interval) =
      narrow-inside log.temporal_interval m.temporal_interval x.temporal_interval in
    (λ h. (old_usable h.0, old_interval h.1), (new_usable, new_interval))

narrow_all-IsWithin :
    (log : Log) (ms : List Log) (x : Log) → IsWithin log x → IsWithin (narrow_all log ms) x
unfolding narrow_all
narrow_all-IsWithin log [] x h = h
narrow_all-IsWithin log (m ∷ ms) x h =
    narrow_all-IsWithin (narrow log m) ms x ((narrow-IsWithin log m x).0 h)

narrow_all-All : (log : Log) (ms : List Log) → All (IsWithin (narrow_all log ms)) ms
unfolding narrow_all
narrow_all-All log [] = tt
narrow_all-All log (m ∷ ms) = (
  narrow_all-IsWithin (narrow log m) ms m (narrow-IsWithin log m m).1,
  narrow_all-All (narrow log m) ms,
)

narrow_all_same :
    (log : Log) (ms : List Log)
    → ((narrow_all log ms).log_id ≡ log.log_id) × ((narrow_all log ms).url ≡ log.url)
unfolding narrow_all narrow
narrow_all_same log [] = (refl, refl)
narrow_all_same log (m ∷ ms) = narrow_all_same (narrow log m) ms

IsWithin-refl : (log : Log) → IsWithin log log
IsWithin-refl log = (ground arith, ground arith)

-- Is the log one of the list's?
abbrev pub IsLogOf : Log → List Log → Type 0
IsLogOf log [] = ⊥
IsLogOf log (l ∷ ls) = (log ≡ l) ⊎ IsLogOf log ls

abbrev pub all_logs : List Operator → List Log
all_logs [] = []
all_logs (op ∷ ops) = op.logs ++ all_logs ops

-- A log of the first list that the second has too, no wider than it is in either.
abbrev pub IsCommon : List Operator → List Operator → Log → Type 0
IsCommon ll₁ ll₂ log =
    (log₁ : Log) × IsLogOf log₁ (all_logs ll₁)
    × (log.log_id ≡ log₁.log_id)
    × (contains_text log.url "bogus" ≡ false)
    × (matches log.log_id ll₂ ≢ [])
    × IsWithin log log₁
    × All (IsWithin log) (matches log.log_id ll₂)

here_match :
    (id : List ℕ) (op : Operator) (ops : List Operator)
    → first_match id op.logs ≢ none
    → matches id (op ∷ ops) ≢ []
unfolding matches
here_match id op ops there = elim (Option-cases (first_match id op.logs)) [
  | inl missing ↦ absurd (there missing)
  | inr (m, found) ↦ λ e. cc (found, e)
]

there_match :
    (id : List ℕ) (op : Operator) (ops : List Operator)
    → matches id ops ≢ []
    → matches id (op ∷ ops) ≢ []
unfolding matches
there_match id op ops there = elim (Option-cases (first_match id op.logs)) [
  | inl missing ↦ λ e. there (cc (missing, e))
  | inr (m, found) ↦ λ e. cc (found, e)
]

-- What is known of the logs of an operator.
module _ (ll₁ ll₂ : List Operator) where
  narrowed-IsCommon :
      (l : Log)
      → IsLogOf l (all_logs ll₁)
      → contains_text l.url "bogus" ≡ false
      → matches l.log_id ll₂ ≢ []
      → IsCommon ll₁ ll₂ (narrowed ll₂ l)
  unfolding narrowed
  narrowed-IsCommon l there real some_match =
      let ms = matches l.log_id ll₂ in
      let (id, url) = narrow_all_same l ms in
      (
        l,
        there,
        id,
        ap (λ u. contains_text u "bogus") url ∙ real,
        subst (λ i. matches i ll₂ ≢ []) (sym id) some_match,
        narrow_all-IsWithin l ms l (IsWithin-refl l),
        subst (λ i. All (IsWithin (narrow_all l ms)) (matches i ll₂)) (sym id)
            (narrow_all-All l ms),
      )

  Listed : List Log → Type 0
  Listed ls = All (λ l. IsLogOf l (all_logs ll₁)) ls

  common_with-IsCommon :
      (logs₂ ls : List Log)
      → ((id : List ℕ) → first_match id logs₂ ≢ none → matches id ll₂ ≢ [])
      → Listed ls
      → All (IsCommon ll₁ ll₂) (common_with ll₂ logs₂ ls)
  unfolding common_with Listed
  common_with-IsCommon logs₂ [] has h = tt
  common_with-IsCommon logs₂ (l ∷ ls) has h =
      let rest = common_with-IsCommon logs₂ ls has h.1 in
      let skipped = common_with ll₂ logs₂ ls in
      elim (Option-cases (first_match l.log_id logs₂)) [
        | inl missing ↦
            let is : skipped ≡ common_with ll₂ logs₂ (l ∷ ls) = ground arith in
            subst (All (IsCommon ll₁ ll₂)) is rest
        | inr (m, found) ↦ elim (Bool-cases (contains_text l.url "bogus")) [
          | inl bogus ↦
              let is : skipped ≡ common_with ll₂ logs₂ (l ∷ ls) = ground arith in
              subst (All (IsCommon ll₁ ll₂)) is rest
          | inr real ↦
              let is : narrowed ll₂ l ∷ skipped ≡ common_with ll₂ logs₂ (l ∷ ls) = ground arith in
              subst (All (IsCommon ll₁ ll₂)) is
                (narrowed-IsCommon l h.0 real (has l.log_id (λ e. cc (e, found))), rest)
        ]
      ]

  -- `ops` are operators of the second list.
  common_logs-IsCommon :
      (ops : List Operator) (ls : List Log)
      → ((id : List ℕ) → matches id ops ≢ [] → matches id ll₂ ≢ [])
      → Listed ls
      → All (IsCommon ll₁ ll₂) (common_logs ll₂ ops ls)
  unfolding common_logs
  common_logs-IsCommon [] ls has h = tt
  common_logs-IsCommon (op ∷ ops) ls has h =
      All-append (IsCommon ll₁ ll₂) (common_with ll₂ op.logs ls) (common_logs ll₂ ops ls)
        (common_with-IsCommon op.logs ls (λ id there. has id (here_match id op ops there)) h)
        (common_logs-IsCommon ops ls (λ id there. has id (there_match id op ops there)) h)

  intersect_from :
      (ops : List Operator)
      → All (λ (op : Operator). Listed op.logs) ops
      → All (λ (op : Operator). All (IsCommon ll₁ ll₂) op.logs) (intersect ops ll₂)
  unfolding intersect
  intersect_from [] h = tt
  intersect_from (op ∷ ops) h =
      let logs = common_logs ll₂ ll₂ op.logs in
      let common = common_logs-IsCommon ll₂ op.logs (λ id there. there) h.0 in
      let rest = intersect_from ops h.1 in
      elim (Bool-cases
        (not (is_empty logs) || not (is_empty (common_tiled_logs ll₂ op.tiled_logs)))) [
          | inl kept ↦ rw kept (common, rest)
          | inr dropped ↦ rw dropped rest
        ]

weaken : (l : Log) (ls xs : List Log) → IsLogOf l xs → IsLogOf l (ls ++ xs)
weaken l [] xs h = h
weaken l (m ∷ ls) xs h = inr (weaken l ls xs h)

weaken_each :
    (ys xs zs : List Log) → All (λ m. IsLogOf m xs) zs → All (λ m. IsLogOf m (ys ++ xs)) zs
weaken_each ys xs [] h = tt
weaken_each ys xs (z ∷ zs) h = (weaken z ys xs h.0, weaken_each ys xs zs h.1)

own : (ls rest : List Log) → All (λ l. IsLogOf l (ls ++ rest)) ls
own [] rest = tt
own (l ∷ ls) rest = (inl refl, weaken_each (l ∷ []) (ls ++ rest) ls (own ls rest))

weaken_operators :
    (ys xs : List Log) (ops : List Operator)
    → All (λ (op : Operator). All (λ m. IsLogOf m xs) op.logs) ops
    → All (λ (op : Operator). All (λ m. IsLogOf m (ys ++ xs)) op.logs) ops
weaken_operators ys xs [] h = tt
weaken_operators ys xs (op ∷ ops) h =
    (weaken_each ys xs op.logs h.0, weaken_operators ys xs ops h.1)

listed :
    (ops : List Operator) → All (λ (op : Operator). All (λ m. IsLogOf m (all_logs ops)) op.logs) ops
listed [] = tt
listed (op ∷ ops) =
    (own op.logs (all_logs ops), weaken_operators op.logs (all_logs ops) ops (listed ops))

-- Every RFC 6962 log of an intersection is a log of the first list, not a bogus one, that the
-- second list has too, and it is no wider than it is in any of the two: where both have the times,
-- it is usable no sooner, and its temporal interval starts no sooner and ends no later.
pub intersect-IsCommon :
    (ll₁ ll₂ : List Operator)
    → All (λ (op : Operator). All (IsCommon ll₁ ll₂) op.logs) (intersect ll₁ ll₂)
intersect-IsCommon ll₁ ll₂ = intersect_from ll₁ ll₂ ll₁ (unfold Listed in listed ll₁)
