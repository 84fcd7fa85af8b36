-- ===== src/OptimalParents/Total.antt =====
-- The search for chains ends.
use ctsubmit.Prelude.{
  ℕ, zero, suc, ◌+◌, ◌≤◌, ◌<◌, ◌≡◌, ◌≢◌, refl, String, Bool, true, false, not, List, [], ◌∷◌, ◌++◌,
  none, length, lookup, insert, contains, contains-insert, contains-append, select, ◌==◌, nat_eq,
  string_eq, nat_beq_iff, arith, All, length-append, if◌then◌else◌, Bool-cases, List-cases, inl,
  inr,
}
use ctsubmit.Pki.Discovery.{bytes_of}
use ctsubmit.OptimalParents.{
  CertInfo, Index, certs_at, Node, Search, exhausted, find_parents, visit, visit_all, size, search,
  search_from, build_chains,
}

-- How many numbers of a list are not in a set.
abbrev unvisited : List ℕ → List ℕ → ℕ
unvisited v [] = 0
unvisited v (x ∷ xs) = if contains v x then unvisited v xs else suc (unvisited v xs)

unvisited-le : (v xs : List ℕ) → unvisited v xs ≤ length xs
unvisited-le v [] = omega arith
unvisited-le v (x ∷ xs) = ground (arith, unvisited-le v xs)

unvisited-insert : (x : ℕ) (v xs : List ℕ) → unvisited (insert x v) xs ≤ unvisited v xs
unvisited-insert x v [] = omega arith
unvisited-insert x v (y ∷ ys) = ground (arith, unvisited-insert x v ys, contains-insert x y v)

unvisited-insert_lt :
    (x : ℕ) (v xs : List ℕ)
    → contains xs x ≡ true
    → contains v x ≡ false
    → unvisited (insert x v) xs < unvisited v xs
unfolding contains
unvisited-insert_lt x v [] h k = absurd (ground arith)
unvisited-insert_lt x v (y ∷ ys) h k = ground (
  arith,
  contains-insert x y v,
  nat_beq_iff x y,
  nat_beq_iff y x,
  unvisited-insert x v ys,
  unvisited-insert_lt x v ys,
)

abbrev shas : List CertInfo → List ℕ
shas [] = []
shas (c ∷ cs) = c.sha256 ∷ shas cs

abbrev all_shas : Index → List ℕ
all_shas [] = []
all_shas ((ski, cs) ∷ index) = shas cs ++ all_shas index

length-shas : (cs : List CertInfo) → length (shas cs) ≡ length cs
length-shas [] = refl
length-shas (c ∷ cs) = omega (arith, length-shas cs)

length-all_shas : (index : Index) → length (all_shas index) ≡ size index
length-all_shas [] = refl
length-all_shas ((ski, cs) ∷ index) =
    omega (arith, length-append (shas cs) (all_shas index), length-shas cs, length-all_shas index)

-- Are all certificates of the first list among the second?
abbrev Known : List CertInfo → List ℕ → Type 0
Known cs xs = All (λ c. contains xs c.sha256 ≡ true) cs

Known-append : (cs : List CertInfo) (ys xs : List ℕ) → Known cs xs → Known cs (ys ++ xs)
Known-append [] ys xs k = tt
Known-append (c ∷ cs) ys xs k =
    (ground (arith, contains-append c.sha256 ys xs, k.0), Known-append cs ys xs k.1)

Known-shas : (cs : List CertInfo) (xs : List ℕ) → Known cs (shas cs ++ xs)
unfolding contains
Known-shas [] xs = tt
Known-shas (c ∷ cs) xs = (
  ground (arith, nat_beq_iff c.sha256 c.sha256),
  Known-append cs (c.sha256 ∷ []) (shas cs ++ xs) (Known-shas cs xs),
)

Known-select :
    (p : CertInfo → Bool) (cs : List CertInfo) (xs : List ℕ) → Known cs xs → Known (select p cs) xs
unfolding select
Known-select p [] xs k = tt
Known-select p (c ∷ cs) xs k = elim (Bool-cases (p c)) [
  | inl kept ↦ rw kept (k.0, Known-select p cs xs k.1)
  | inr left_out ↦ rw left_out (Known-select p cs xs k.1)
]

certs_at-Known : (ski : String) (index : Index) → Known (certs_at ski index) (all_shas index)
unfolding lookup
certs_at-Known ski [] = tt
certs_at-Known ski ((k, cs) ∷ index) = elim (Bool-cases (k == ski)) [
  | inl here ↦ rw (certs_at, here) (Known-shas cs (all_shas index))
  | inr there ↦
      rw (certs_at, there)
        (Known-append (certs_at ski index) (shas cs) (all_shas index) (certs_at-Known ski index))
]

module _ (hex : List ℕ → String) (index : Index) where
  find_parents-Known : (ci : CertInfo) → Known (find_parents hex index ci) (all_shas index)
  unfolding find_parents
  find_parents-Known ci =
      let aki = bytes_of ci.cert.authority_key_id in
      elim (Bool-cases (length aki == 0)) [
        | inl none_named ↦ rw none_named tt
        | inr named ↦ rw named (
            Known-select (λ (c : CertInfo). not (c.sha256 == ci.sha256)) (certs_at (hex aki) index)
              (all_shas index) (certs_at-Known (hex aki) index))
      ]

  measure : Search → ℕ
  measure s = length s.queue + unvisited s.visited (all_shas index)

  visit-measure :
      (node : Node) (parent : CertInfo) (s : Search)
      → contains (all_shas index) parent.sha256 ≡ true
      → measure (visit node parent s) ≤ measure s
  unfolding visit measure
  visit-measure node parent s h = ground (
    arith,
    unvisited-insert_lt parent.sha256 s.visited (all_shas index),
    length-append s.queue (record { ci = parent; path = node.path ++ parent.raw ∷ [] } ∷ []),
  )

  visit_all-measure :
      (node : Node) (parents : List CertInfo) (s : Search)
      → Known parents (all_shas index)
      → measure (visit_all node parents s) ≤ measure s
  unfolding visit_all
  visit_all-measure node [] s k = omega arith
  visit_all-measure node (p ∷ ps) s k =
      omega (arith, visit_all-measure node ps (visit node p s) k.1, visit-measure node p s k.0)

  search-ne-none : (fuel : ℕ) (s : Search) → measure s < fuel → search hex index fuel s ≢ none
  unfolding search
  search-ne-none zero s h = absurd (omega arith)
  search-ne-none (suc fuel) s h = elim (List-cases s.queue) [
    | inl empty ↦ ground arith
    | inr (node, rest, more) ↦
        let popped = record s { queue = rest } in
        let parents = find_parents hex index node.ci in
        let less = visit_all-measure node parents popped (find_parents-Known node.ci) in
        let room : measure popped < fuel = unfold measure in ground (arith, h) in
        ground
          (arith, search-ne-none fuel (visit_all node parents popped) (omega (arith, less, room)))
  ]

  -- The search of buildChains always ends: its fuel is never used up, even if certificates sign
  -- each other in a circle.
  pub build_chains_total : (ci : CertInfo) → build_chains hex index ci ≢ exhausted
  unfolding build_chains
  build_chains_total ci =
      let fits : measure (search_from hex index ci) < suc (suc (size index)) =
        unfold measure in
        omega (arith, unvisited-le (ci.sha256 ∷ []) (all_shas index), length-all_shas index) in
      ground (arith, search-ne-none (suc (suc (size index))) (search_from hex index ci) fits)
