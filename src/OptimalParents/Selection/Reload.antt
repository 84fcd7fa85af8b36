-- ===== src/OptimalParents/Selection/Reload.antt =====
-- The table that the tool writes, read back by pki/discovery.go.
use Prim.Native.String.{compare as compare_text}
use text.Mathlib.Text.{is_lt}
use ctsubmit.Prelude.{
  ◌<◌, ◌^◌, true, Bool-cases, inl, inr, ◌⊎◌, ℕ, ◌≡◌, refl, sym, ap, ◌∙◌, String, false, List, [],
  ◌∷◌, Option, none, some, lookup, lookup-store, store, ==_refl, map, All, ◌==◌, string_eq, arith,
  if◌then◌else◌,
}
use ctsubmit.Pki.Discovery.{Parents, Table, parent_hash, load_rows, init_optimal_parents}
use ctsubmit.OptimalParents.Selection.Best.{best_of_lem, entries-hash}
use ctsubmit.OptimalParents.{index_certs, CertInfo, Index}
use ctsubmit.OptimalParents.Selection.{
  LogGroup, RootSets, ContextGroups, Entry, Row, has_any_parent, place_row, sort_rows, rows_of,
  optimal_parents_csv, record_of, best_of, parent_text, row_of,
}

module _ (upper : String → String) (decode_hash : String → Option ℕ) (sha256 : List ℕ → ℕ)
    (hex : List ℕ → String) (hex_hash : ℕ → String) where
  abbrev pub records : List Row → List (List String)
  records rows = map (record_of sha256 hex hex_hash upper) rows

  -- The parents that a row names.
  abbrev parents_of : Row → Parents
  parents_of r = record {
    usable_tls = parent_hash upper decode_hash r.usable_tls;
    active_tls = parent_hash upper decode_hash r.active_tls;
    test_tls = parent_hash upper decode_hash r.test_tls;
    usable_bimi = parent_hash upper decode_hash r.usable_bimi;
  }

  -- None of the rows is for the key identifier.
  abbrev pub Others : String → List Row → Type 0
  Others ski rows = All (λ (r : Row). (upper r.ski == ski) ≡ false) rows

  load-Others :
      (ski : String) (rows : List Row) (m : Table)
      → Others ski rows
      → lookup ski (load_rows upper decode_hash (records rows) m) ≡ lookup ski m
  unfolding load_rows
  load-Others ski [] m o = refl
  load-Others ski (r ∷ rows) m o =
      load-Others ski rows (store (upper r.ski) (parents_of r) m) o.1
      ∙ (lookup-store (upper r.ski) ski (parents_of r) m
          ∙ ap (λ b. if b then some (parents_of r) else lookup ski m) o.0)

  -- Only the row `r` is for the key, and it is there.
  abbrev IsFor : String → Row → Row → Type 0
  IsFor key r s = ((upper s.ski == key) ≡ false) ⊎ (s ≡ r)

  abbrev Present : Row → List Row → Type 0
  Present r [] = ⊥
  Present r (s ∷ rows) = (s ≡ r) ⊎ Present r rows

  load-Present :
      (key : String) (r : Row) (rows : List Row) (m : Table)
      → (upper r.ski == key) ≡ true
      → All (IsFor key r) rows
      → Present r rows ⊎ (lookup key m ≡ some (parents_of r))
      → lookup key (load_rows upper decode_hash (records rows) m) ≡ some (parents_of r)
  unfolding load_rows
  load-Present key r [] m k a (inl p) = absurd p
  load-Present key r [] m k a (inr h) = h
  load-Present key r (s ∷ rows) m k a p = elim a.0 [
    | inl other ↦ load-Present key r rows _ k a.1 (elim p [
      | inl (inl e) ↦ absurd (cc (ap (λ (t : Row). upper t.ski == key) e, other, k))
      | inl (inr q) ↦ inl q
      | inr h ↦ inr (
          lookup-store (upper s.ski) key (parents_of s) m
          ∙ (ap (λ b. if b then some (parents_of s) else lookup key m) other ∙ h))
    ])
    | inr e ↦ load-Present key r rows _ k a.1 (
        inr (
          lookup-store (upper s.ski) key (parents_of s) m
          ∙ (ap (λ b. if b then some (parents_of s) else lookup key m)
                (ap (λ (t : Row). upper t.ski == key) e ∙ k)
              ∙ ap (λ t. some (parents_of t)) e)))
  ]

  -- Sorting moves rows only.
  place-All :
      (P : Row → Type 0) (r : Row) (rows : List Row) → P r → All P rows → All P (place_row r rows)
  unfolding place_row
  place-All P r [] p a = (p, tt)
  place-All P r (s ∷ rows) p a = elim (Bool-cases (is_lt (compare_text s.ski r.ski))) [
    | inl before ↦ rw before (a.0, place-All P r rows p a.1)
    | inr after ↦ rw after (p, a)
  ]

  sort-All : (P : Row → Type 0) (rows : List Row) → All P rows → All P (sort_rows rows)
  unfolding sort_rows
  sort-All P [] a = tt
  sort-All P (r ∷ rows) a = place-All P r (sort_rows rows) a.0 (sort-All P rows a.1)

  place-Present :
      (t r : Row) (rows : List Row) → (r ≡ t) ⊎ Present t rows → Present t (place_row r rows)
  unfolding place_row
  place-Present t r [] (inl e) = inl e
  place-Present t r [] (inr p) = absurd p
  place-Present t r (s ∷ rows) p = elim (Bool-cases (is_lt (compare_text s.ski r.ski))) [
    | inl before ↦ rw before (elim p [
      | inl e ↦ inr (place-Present t r rows (inl e))
      | inr (inl here) ↦ inl here
      | inr (inr there) ↦ inr (place-Present t r rows (inr there))
    ])
    | inr after ↦ rw after p
  ]

  sort-Present : (t : Row) (rows : List Row) → Present t rows → Present t (sort_rows rows)
  unfolding sort_rows
  sort-Present t [] p = absurd p
  sort-Present t (r ∷ rows) (inl e) = place-Present t r (sort_rows rows) (inl e)
  sort-Present t (r ∷ rows) (inr p) =
      place-Present t r (sort_rows rows) (inr (sort-Present t rows p))

  abbrev pub hash_of : Option Entry → ℕ
  hash_of none = 0
  hash_of (some best) = best.hash

  -- The key identifier is one of the index, with the candidates, and no other key is the same in
  -- upper case.
  abbrev NoKey : String → Index → Type 0
  NoKey ski index =
      All (λ (k : String × List CertInfo). (upper (upper k.0) == upper ski) ≡ false) index

  abbrev pub OnlyKey : String → List CertInfo → Index → Type 0
  OnlyKey ski candidates [] = ⊥
  OnlyKey ski candidates ((k, cs) ∷ index) =
      ((k ≡ ski) × (cs ≡ candidates) × NoKey ski index)
      ⊎ (((upper (upper k) == upper ski) ≡ false) × OnlyKey ski candidates index)

  module _ (index : Index) (sets : RootSets) (groups : ContextGroups) where
    abbrev row : String → List CertInfo → Row
    row = row_of sha256 hex hex_hash upper index sets groups

    abbrev rows : Index → List Row
    rows = rows_of sha256 hex hex_hash upper index sets groups

    rows-Others : (ski : String) (rest : Index) → NoKey ski rest → Others (upper ski) (rows rest)
    unfolding rows_of row_of
    rows-Others ski [] n = tt
    rows-Others ski ((k, cs) ∷ rest) n = elim (Bool-cases (has_any_parent (row k cs))) [
      | inl written ↦ rw written (n.0, rows-Others ski rest n.1)
      | inr left_out ↦ rw left_out (rows-Others ski rest n.1)
    ]

    other_rows :
        (ski : String) (candidates : List CertInfo) (rest : List Row)
        → Others (upper ski) rest
        → All (IsFor (upper ski) (row ski candidates)) rest
    other_rows ski candidates [] o = tt
    other_rows ski candidates (s ∷ rest) o = (inl o.0, other_rows ski candidates rest o.1)

    -- The rows of an index with one entry for the key, whose row is written.
    rows-Present :
        (ski : String) (candidates : List CertInfo) (rest : Index)
        → OnlyKey ski candidates rest
        → has_any_parent (row ski candidates) ≡ true
        → All (IsFor (upper ski) (row ski candidates)) (rows rest)
          × Present (row ski candidates) (rows rest)
    unfolding rows_of row_of
    rows-Present ski candidates [] o h = absurd o
    rows-Present ski candidates ((k, cs) ∷ rest) (inl (e, f, n)) h =
        let same : row k cs ≡ row ski candidates = cc (e, f) in
        let written : has_any_parent (row k cs) ≡ true = ap has_any_parent same ∙ h in
        rw written
          ((inr same, other_rows ski candidates (rows rest) (rows-Others ski rest n)), inl same)
    rows-Present ski candidates ((k, cs) ∷ rest) (inr (other, o)) h =
        let (a, p) = rows-Present ski candidates rest o h in
        elim (Bool-cases (has_any_parent (row k cs))) [
          | inl written ↦ rw written ((inl other, a), inr p)
          | inr left_out ↦ rw left_out (a, p)
        ]

    -- Or is not written.
    rows-None :
        (ski : String) (candidates : List CertInfo) (rest : Index)
        → OnlyKey ski candidates rest
        → has_any_parent (row ski candidates) ≡ false
        → Others (upper ski) (rows rest)
    unfolding rows_of row_of
    rows-None ski candidates [] o h = absurd o
    rows-None ski candidates ((k, cs) ∷ rest) (inl (e, f, n)) h =
        let same : row k cs ≡ row ski candidates = cc (e, f) in
        rw (ap has_any_parent same ∙ h) (rows-Others ski rest n)
    rows-None ski candidates ((k, cs) ∷ rest) (inr (other, o)) h =
        elim (Bool-cases (has_any_parent (row k cs))) [
          | inl written ↦ rw written (other, rows-None ski candidates rest o h)
          | inr left_out ↦ rw left_out (rows-None ski candidates rest o h)
        ]

  module _ (upper_idem : (s : String) → upper (upper s) ≡ upper s)
      (decodes : (h : ℕ) → h < 2 ^ 256 → decode_hash (upper (hex_hash h)) ≡ some h)
      (not_empty : (h : ℕ) → (upper (hex_hash h) == "") ≡ false) where
    parent_hash-parent_text :
        (best : Option Entry)
        → ((b : Entry) → best ≡ some b → b.hash < 2 ^ 256)
        → parent_hash upper decode_hash (parent_text sha256 hex hex_hash upper best) ≡ hash_of best
    unfolding parent_hash parent_text
    parent_hash-parent_text none small = ground arith
    parent_hash-parent_text (some best) small =
        ground (arith, decodes best.hash (small best refl), not_empty best.hash)

    -- What the tool selects for a key of its index is what discovery reads from the table that the tool
    -- writes, for each of the four log lists, with 0 for no parent; a key for which no parent is selected
    -- is not in the table. No other key of the index is the same in upper case, upper case is stable, and
    -- hashes are of 256 bits, whose hexadecimal digits are not empty and decode to them.
    pub init_optimal_parents-optimal_parents_csv :
        (certs : List CertInfo) (sets : RootSets) (groups : ContextGroups) (ski : String)
        (candidates : List CertInfo)
        → let index = index_certs hex certs [] in
          let best =
            λ (gs : List LogGroup). hash_of (best_of sha256 hex index sets gs candidates) in
          OnlyKey ski candidates index
          → All (λ (c : CertInfo). c.sha256 < 2 ^ 256) candidates
          → lookup (upper ski) (
              init_optimal_parents upper decode_hash
                (optimal_parents_csv sha256 hex hex_hash upper certs sets groups))
            ≡ (if has_any_parent (row_of sha256 hex hex_hash upper index sets groups ski candidates)
                then some (record {
                  usable_tls = best groups.usable_tls;
                  active_tls = best groups.active_tls;
                  test_tls = best groups.test_tls;
                  usable_bimi = best groups.usable_bimi;
                })
                else none)
    unfolding init_optimal_parents optimal_parents_csv
    init_optimal_parents-optimal_parents_csv certs sets groups ski candidates only small =
        let index = index_certs hex certs [] in
        let r = row index sets groups ski candidates in
        let all = rows index sets groups index in
        let best = λ (gs : List LogGroup). best_of sha256 hex index sets gs candidates in
        let text = λ (gs : List LogGroup). parent_hash-parent_text (best gs) (λ b e.
          entries-hash sha256 hex index sets gs candidates b small
            (best_of_lem sha256 hex index sets gs candidates b e).0) in
        let v : Parents = record {
          usable_tls = hash_of (best groups.usable_tls);
          active_tls = hash_of (best groups.active_tls);
          test_tls = hash_of (best groups.test_tls);
          usable_bimi = hash_of (best groups.usable_bimi);
        } in
        let same : parents_of r ≡ v =
          unfold row_of in
          cc (
            text groups.usable_tls,
            text groups.active_tls,
            text groups.test_tls,
            text groups.usable_bimi,
          ) in
        let key : (upper r.ski == upper ski) ≡ true =
          unfold row_of in ap (λ k. k == upper ski) (upper_idem ski) ∙ ==_refl (upper ski) in
        elim (Bool-cases (has_any_parent r)) [
          | inl written ↦
              let (a, p) = rows-Present index sets groups ski candidates index only written in
              load-Present (upper ski) r (sort_rows all) [] key
                (sort-All (IsFor (upper ski) r) all a) (inl (sort-Present r all p))
              ∙ (ap some same ∙ ap (λ b. if b then some v else none) (sym written))
          | inr left_out ↦
              let o = rows-None index sets groups ski candidates index only left_out in
              load-Others (upper ski) (sort_rows all) []
                (sort-All (λ (s : Row). (upper s.ski == upper ski) ≡ false) all o)
              ∙ (unfold lookup in ap (λ b. if b then some v else none) (sym left_out))
        ]
