-- ===== src/LogLists/Filter/Partition.antt =====
-- The active and the test logs share out the logs of the list.
use ctsubmit.Prelude.{
  ℕ, ◌+◌, ◌≡◌, refl, ◌∙◌, String, Bool, true, false, not, ◌&&◌, List, [], ◌∷◌, length, select, ◌==◌,
  string_eq, arith,
}
use ctsubmit.Submitter.LogList.{Log, TiledLog, Operator}
use ctsubmit.Submitter.CompatibleLogs.{is_empty}
use ctsubmit.LogLists.Filter.{
  is_test_log, is_test_tiled_log, filter_operators, determine_active_tls_logs,
  determine_test_tls_logs,
}

-- How many items of a list of operators pass a test; `items` are the logs or the tiled logs.
abbrev count_items : {A : Type 0} → (Operator → List A) → (A → Bool) → List Operator → ℕ
count_items items p [] = 0
count_items items p (op ∷ ops) = length (select p (items op)) + count_items items p ops

abbrev pub count_logs : (Log → Bool) → List Operator → ℕ
count_logs p ops = count_items (λ (op : Operator). op.logs) p ops

abbrev pub count_tiled_logs : (TiledLog → Bool) → List Operator → ℕ
count_tiled_logs p ops = count_items (λ (op : Operator). op.tiled_logs) p ops

module _ {A : Type 0} where
  select_twice :
      (p q : A → Bool) (xs : List A)
      → length (select p (select q xs)) ≡ length (select (λ x. p x && q x) xs)
  unfolding select
  select_twice p q [] = refl
  select_twice p q (x ∷ xs) = ground (arith, select_twice p q xs)

  empty_none : (p : A → Bool) (xs : List A) → is_empty xs ≡ true → length (select p xs) ≡ 0
  unfolding select
  empty_none p [] h = refl
  empty_none p (x ∷ xs) h = cc

  count_split :
      (p t b : A → Bool) (xs : List A)
      → length (select (λ x. p x && (not (t x) && b x)) xs)
          + length (select (λ x. p x && (t x && b x)) xs)
        ≡ length (select (λ x. p x && b x) xs)
  unfolding select
  count_split p t b [] = omega arith
  count_split p t b (x ∷ xs) = ground (arith, count_split p t b xs)

  count_all :
      (items : Operator → List A) (p t b : A → Bool) (ops : List Operator)
      → count_items items (λ x. p x && (not (t x) && b x)) ops
          + count_items items (λ x. p x && (t x && b x)) ops
        ≡ count_items items (λ x. p x && b x) ops
  count_all items p t b [] = omega arith
  count_all items p t b (op ∷ ops) =
      omega (arith, count_split p t b (items op), count_all items p t b ops)

  select_never : (q : A → Bool) → ((x : A) → q x ≡ false) → (xs : List A) → length (select q xs) ≡ 0
  unfolding select
  select_never q never [] = refl
  select_never q never (x ∷ xs) = rw (never x) (select_never q never xs)

  count_never :
      (items : Operator → List A) (q : A → Bool)
      → ((x : A) → q x ≡ false)
      → (ops : List Operator) → count_items items q ops ≡ 0
  count_never items q never [] = refl
  count_never items q never (op ∷ ops) =
      omega (arith, select_never q never (items op), count_never items q never ops)

not_both : (p t b : Bool) → ((p && t) && (not t && b)) ≡ false
not_both p t b = ground arith

not_neither : (p t b : Bool) → ((p && not t) && (t && b)) ≡ false
not_neither p t b = ground arith

module _ (bimi_log bimi_tiled_log : String → Bool) where
  count_filtered :
      (p keeps : Log → Bool) (keeps_tiled : TiledLog → Bool) (ops : List Operator)
      → count_logs p (filter_operators bimi_log bimi_tiled_log keeps keeps_tiled ops)
        ≡ count_logs (λ l. p l && (keeps l && not (bimi_log l.url))) ops
  unfolding filter_operators
  count_filtered p keeps keeps_tiled [] = refl
  count_filtered p keeps keeps_tiled (op ∷ ops) =
      let kept = select (λ (l : Log). keeps l && not (bimi_log l.url)) op.logs in
      ground (
        arith,
        count_filtered p keeps keeps_tiled ops,
        select_twice p (λ l. keeps l && not (bimi_log l.url)) op.logs,
        empty_none p kept,
      )

  count_filtered_tiled :
      (p : TiledLog → Bool) (keeps : Log → Bool) (keeps_tiled : TiledLog → Bool)
      (ops : List Operator)
      → count_tiled_logs p (filter_operators bimi_log bimi_tiled_log keeps keeps_tiled ops)
        ≡ count_tiled_logs
            (λ l. p l && (keeps_tiled l && not (bimi_tiled_log l.submission_url)))
            ops
  unfolding filter_operators
  count_filtered_tiled p keeps keeps_tiled [] = refl
  count_filtered_tiled p keeps keeps_tiled (op ∷ ops) =
      let kept =
        select (λ (l : TiledLog). keeps_tiled l && not (bimi_tiled_log l.submission_url))
          op.tiled_logs in
      ground (
        arith,
        count_filtered_tiled p keeps keeps_tiled ops,
        select_twice p (λ l. keeps_tiled l && not (bimi_tiled_log l.submission_url)) op.tiled_logs,
        empty_none p kept,
      )

  -- The active and the test logs share out the RFC 6962 and the static logs that are not approved
  -- for BIMI: of those with any property, each counts in exactly one of the two lists, in the test
  -- logs if it is of the type "test" and else in the active logs.
  pub determine_tls_logs_share :
      (p : Log → Bool) (q : TiledLog → Bool) (ops : List Operator)
      → let active = determine_active_tls_logs bimi_log bimi_tiled_log ops in
        let test = determine_test_tls_logs bimi_log bimi_tiled_log ops in
        ((count_logs p active + count_logs p test
            ≡ count_logs (λ l. p l && not (bimi_log l.url)) ops)
          × (count_logs (λ l. p l && (l.log_type == "test")) active ≡ 0)
          × (count_logs (λ l. p l && not (l.log_type == "test")) test ≡ 0))
        × ((count_tiled_logs q active + count_tiled_logs q test
              ≡ count_tiled_logs (λ l. q l && not (bimi_tiled_log l.submission_url)) ops)
            × (count_tiled_logs (λ l. q l && (l.log_type == "test")) active ≡ 0)
            × (count_tiled_logs (λ l. q l && not (l.log_type == "test")) test ≡ 0))
  unfolding determine_active_tls_logs determine_test_tls_logs
  determine_tls_logs_share p q ops =
      let t = is_test_log bimi_log bimi_tiled_log in
      let t' = is_test_tiled_log bimi_log bimi_tiled_log in
      let b = λ (l : Log). not (bimi_log l.url) in
      let b' = λ (l : TiledLog). not (bimi_tiled_log l.submission_url) in
      let a = λ (l : Log). not (t l) in
      let a' = λ (l : TiledLog). not (t' l) in
      let logs = λ (op : Operator). op.logs in
      let tiled = λ (op : Operator). op.tiled_logs in
      (
        (
          cc (count_filtered p a a' ops, count_filtered p t t' ops, count_all logs p t b ops),
          count_filtered (λ l. p l && t l) a a' ops
              ∙ count_never logs _ (λ l. not_both (p l) (t l) (b l)) ops,
          count_filtered (λ l. p l && not (t l)) t t' ops
              ∙ count_never logs _ (λ l. not_neither (p l) (t l) (b l)) ops,
        ),
        (
          cc (
            count_filtered_tiled q a a' ops,
            count_filtered_tiled q t t' ops,
            count_all tiled q t' b' ops,
          ),
          count_filtered_tiled (λ l. q l && t' l) a a' ops
              ∙ count_never tiled _ (λ l. not_both (q l) (t' l) (b' l)) ops,
          count_filtered_tiled (λ l. q l && not (t' l)) t t' ops
              ∙ count_never tiled _ (λ l. not_neither (q l) (t' l) (b' l)) ops,
        ),
      )
