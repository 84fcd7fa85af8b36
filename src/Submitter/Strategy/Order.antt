-- ===== src/Submitter/Strategy/Order.antt =====
-- The order of the strategy: better buckets first, and lower weights first within a bucket.
use ctsubmit.Prelude.{
  ℕ, suc, ◌+◌, ◌≡◌, refl, ◌∙◌, ap, String, Bool, true, false, not, ◌&&◌, ◌||◌, List, [], ◌∷◌, ◌++◌,
  ltb, leb, ◌==◌, nat_eq, arith, length, length-map, length-append, map, All, Bool-cases, inl, inr,
  if◌then◌else◌,
}
use ctsubmit.Prelude.Int.{pos, ltb_ℤ}
use ctsubmit.Monitor.State.{Monitor}
use ctsubmit.Monitor.Uptime.{Floats}
use ctsubmit.Submitter.Types.{bucket_rank, StrategyMember}
use ctsubmit.Submitter.LogList.{Operator}
use ctsubmit.Submitter.SubmitToLog.{EntryType}
use ctsubmit.Submitter.Strategy.{
  Detail, StrategyConfig, sort_strategy_members, place, sort_members, assess_all, operator_member,
  log_member, tiled_log_member, populate, devize_submission_strategy,
}

-- May the first member stand in front of the second?
abbrev pub in_order : StrategyMember → StrategyMember → Bool
in_order m n =
    ltb (bucket_rank n.bucket) (bucket_rank m.bucket)
    || (bucket_rank n.bucket == bucket_rank m.bucket && leb m.random_weight n.random_weight)

abbrev pub Sorted : List StrategyMember → Type 0
Sorted [] = Unit
Sorted (m ∷ ms) = All (λ n. in_order m n ≡ true) ms × Sorted ms

follows-in_order :
    (m n : StrategyMember) → ltb_ℤ (pos 0) (sort_strategy_members m n) ≡ not (in_order m n)
unfolding sort_strategy_members
follows-in_order m n = ground arith

in_order-total : (m n : StrategyMember) → in_order m n ≡ false → in_order n m ≡ true
in_order-total m n h = ground arith

in_order-transitive :
    (l m n : StrategyMember) → in_order l m ≡ true → in_order m n ≡ true → in_order l n ≡ true
in_order-transitive l m n h k = ground arith

All-in_order :
    (l m : StrategyMember) (ns : List StrategyMember)
    → in_order l m ≡ true
    → All (λ n. in_order m n ≡ true) ns
    → All (λ n. in_order l n ≡ true) ns
All-in_order l m [] h a = tt
All-in_order l m (n ∷ ns) h a = (in_order-transitive l m n h a.0, All-in_order l m ns h a.1)

place-All :
    (l m : StrategyMember) (ns : List StrategyMember)
    → in_order l m ≡ true
    → All (λ n. in_order l n ≡ true) ns
    → All (λ n. in_order l n ≡ true) (place m ns)
unfolding place
place-All l m [] h a = (h, tt)
place-All l m (n ∷ ns) h a = elim (Bool-cases (ltb_ℤ (pos 0) (sort_strategy_members m n))) [
  | inl later ↦ rw later (a.0, place-All l m ns h a.1)
  | inr sooner ↦ rw sooner (h, a)
]

place-Sorted : (m : StrategyMember) (ns : List StrategyMember) → Sorted ns → Sorted (place m ns)
unfolding place
place-Sorted m [] s = (tt, tt)
place-Sorted m (n ∷ ns) s = elim (Bool-cases (ltb_ℤ (pos 0) (sort_strategy_members m n))) [
  | inl later ↦ rw later (
    place-All n m ns (in_order-total m n (ground (arith, follows-in_order m n))) s.0,
    place-Sorted m ns s.1,
  )
  | inr sooner ↦ rw sooner (
    (
      ground (arith, follows-in_order m n),
      All-in_order m n ns (ground (arith, follows-in_order m n)) s.0,
    ),
    s,
  )
]

sort_members-Sorted : (ms : List StrategyMember) → Sorted (sort_members ms)
unfolding sort_members
sort_members-Sorted [] = tt
sort_members-Sorted (m ∷ ms) = place-Sorted m (sort_members ms) (sort_members-Sorted ms)

-- How many members pass a test.
abbrev pub count : (StrategyMember → Bool) → List StrategyMember → ℕ
count p [] = 0
count p (m ∷ ms) = if p m then suc (count p ms) else count p ms

count-place :
    (p : StrategyMember → Bool) (m : StrategyMember) (ns : List StrategyMember)
    → count p (place m ns) ≡ count p (m ∷ ns)
unfolding place
count-place p m [] = refl
count-place p m (n ∷ ns) = ground (arith, count-place p m ns)

count-sort_members :
    (p : StrategyMember → Bool) (ms : List StrategyMember) → count p (sort_members ms) ≡ count p ms
unfolding sort_members
count-sort_members p [] = refl
count-sort_members p (m ∷ ms) =
    ground (arith, count-place p m (sort_members ms), count-sort_members p ms)

-- How many logs a list of operators has.
abbrev pub log_count : List Operator → ℕ
log_count [] = 0
log_count (op ∷ ops) = length op.logs + length op.tiled_logs + log_count ops

module _ {P : Type 0} (floats : Floats P) (text : Detail P → String) (join : String → String)
    (cfg : StrategyConfig P) (mon : Monitor P) (entry_type : EntryType) where
  abbrev pub devize : (ℕ → ℕ → ℕ) → (ℕ → ℕ) → List Operator → List StrategyMember
  devize = devize_submission_strategy floats text join cfg mon entry_type

  abbrev pub assessed : (ℕ → ℕ → ℕ) → (ℕ → ℕ) → List Operator → List StrategyMember
  assessed clock weight ops =
      assess_all floats text join cfg mon entry_type clock weight 0
        (populate floats text join cfg mon entry_type ops)

  -- The strategy stands in the order of its buckets, best first, and within a bucket in the order
  -- of the random weights.
  pub devize_submission_strategy-Sorted :
      (clock : ℕ → ℕ → ℕ) (weight : ℕ → ℕ) (ops : List Operator) → Sorted (devize clock weight ops)
  unfolding devize_submission_strategy
  devize_submission_strategy-Sorted clock weight ops =
      sort_members-Sorted (assessed clock weight ops)

  -- Sorting neither loses nor adds a member: as many pass any test before it as after it.
  devize_submission_strategy_permutes :
      (clock : ℕ → ℕ → ℕ) (weight : ℕ → ℕ) (ops : List Operator) (p : StrategyMember → Bool)
      → count p (devize clock weight ops) ≡ count p (assessed clock weight ops)
  unfolding devize_submission_strategy
  devize_submission_strategy_permutes clock weight ops p =
      count-sort_members p (assessed clock weight ops)

  length-place :
      (m : StrategyMember) (ns : List StrategyMember) → length (place m ns) ≡ suc (length ns)
  unfolding place
  length-place m [] = refl
  length-place m (n ∷ ns) = ground (arith, length-place m ns)

  length-sort_members : (ms : List StrategyMember) → length (sort_members ms) ≡ length ms
  unfolding sort_members
  length-sort_members [] = refl
  length-sort_members (m ∷ ms) = length-place m (sort_members ms) ∙ ap suc (length-sort_members ms)

  length-assess_all :
      (clock : ℕ → ℕ → ℕ) (weight : ℕ → ℕ) (i : ℕ) (ms : List StrategyMember)
      → length (assess_all floats text join cfg mon entry_type clock weight i ms) ≡ length ms
  unfolding assess_all
  length-assess_all clock weight i [] = refl
  length-assess_all clock weight i (m ∷ ms) = ap suc (length-assess_all clock weight (i + 1) ms)

  length-populate :
      (ops : List Operator)
      → length (populate floats text join cfg mon entry_type ops) ≡ log_count ops
  unfolding populate
  length-populate [] = refl
  length-populate (op ∷ ops) =
      let sm = operator_member floats text join cfg mon entry_type op in
      let log = log_member floats text join cfg mon entry_type sm in
      let tiled = tiled_log_member floats text join cfg mon entry_type sm in
      omega (
        arith,
        length-append (map log op.logs ++ map tiled op.tiled_logs)
            (populate floats text join cfg mon entry_type ops),
        length-append (map log op.logs) (map tiled op.tiled_logs),
        length-map log op.logs,
        length-map tiled op.tiled_logs,
        length-populate ops,
      )

  -- The strategy has one member for each compatible log.
  length-devize_submission_strategy :
      (clock : ℕ → ℕ → ℕ) (weight : ℕ → ℕ) (ops : List Operator)
      → length (devize clock weight ops) ≡ log_count ops
  unfolding devize_submission_strategy
  length-devize_submission_strategy clock weight ops =
      length-sort_members (assessed clock weight ops)
      ∙ (length-assess_all clock weight 0 (populate floats text join cfg mon entry_type ops)
          ∙ length-populate ops)
