-- ===== src/OptimalParents/Rooted.antt =====
-- The chains that the search finds.
use ctsubmit.Prelude.{
  ℕ, zero, suc, ◌≡◌, refl, sym, ap, ◌∙◌, subst, String, true, List, [], ◌∷◌, ◌++◌, some, contains,
  nat_eq, string_eq, arith, All, All-append, Bool-cases, List-cases, inl, inr, ◌⊎◌,
}
use mathlib.Core.List.{append_assoc}
use ctsubmit.OptimalParents.{
  CertInfo, Index, is_self_signed, Node, Search, find_parents, visit, visit_all, size, search,
  search_from,
}

abbrev pub Among : CertInfo → List CertInfo → Type 0
Among p [] = ⊥
Among p (c ∷ cs) = (p ≡ c) ⊎ Among p cs

abbrev pub last_cert : CertInfo → List CertInfo → CertInfo
last_cert c [] = c
last_cert c (p ∷ ps) = last_cert p ps

abbrev pub raws : List CertInfo → List (List ℕ)
raws [] = []
raws (c ∷ cs) = c.raw ∷ raws cs

Among-weaken : (p : CertInfo) (cs xs : List CertInfo) → Among p xs → Among p (cs ++ xs)
Among-weaken p [] xs m = m
Among-weaken p (c ∷ cs) xs m = inr (Among-weaken p cs xs m)

All-Among : (cs : List CertInfo) → (xs : List CertInfo) → All (λ p. Among p (xs ++ cs)) cs
All-Among [] xs = tt
All-Among (c ∷ cs) xs = (
  Among-weaken c xs (c ∷ cs) (inl refl),
  subst (λ ys. All (λ p. Among p ys) cs) (append_assoc xs (c ∷ []) cs)
      (All-Among cs (xs ++ c ∷ [])),
)

module _ (hex : List ℕ → String) (index : Index) where
  -- Each certificate is among the parents of the one before.
  abbrev pub Ascends : CertInfo → List CertInfo → Type 0
  Ascends ci [] = Unit
  Ascends ci (p ∷ ps) = Among p (find_parents hex index ci) × Ascends p ps

  -- From `ci` up to a self-signed certificate.
  abbrev pub Rooted : CertInfo → List (List ℕ) → Type 0
  Rooted ci chain =
      (certs : List CertInfo) × (chain ≡ ci.raw ∷ raws certs)
      × Ascends ci certs
      × (is_self_signed (last_cert ci certs) ≡ true)

  abbrev Reached : CertInfo → Node → Type 0
  Reached ci node =
      (certs : List CertInfo) × (node.path ≡ ci.raw ∷ raws certs)
      × Ascends ci certs
      × (last_cert ci certs ≡ node.ci)

  abbrev Sound : CertInfo → Search → Type 0
  Sound ci s = All (Reached ci) s.queue × All (Rooted ci) s.chains

  -- A path and one parent more.
  extend_path :
      (ci : CertInfo) (certs : List CertInfo) (p : CertInfo)
      → Ascends ci certs
      → Among p (find_parents hex index (last_cert ci certs))
      → Ascends ci (certs ++ p ∷ [])
        × (last_cert ci (certs ++ p ∷ []) ≡ p)
        × (raws (certs ++ p ∷ []) ≡ raws certs ++ p.raw ∷ [])
  extend_path ci [] p a m = ((m, tt), refl, refl)
  extend_path ci (c ∷ cs) p a m =
      let (a', last, r) = extend_path c cs p a.1 m in ((a.0, a'), last, ap (λ rs. c.raw ∷ rs) r)

  visit-Sound :
      (ci : CertInfo) (node : Node) (p : CertInfo) (s : Search)
      → Reached ci node
      → Among p (find_parents hex index node.ci)
      → Sound ci s
      → Sound ci (visit node p s)
  unfolding visit
  visit-Sound ci node p s (certs, path, a, last) m (q, ch) =
      let m' = subst (λ c. Among p (find_parents hex index c)) (sym last) m in
      let (a', last', r) = extend_path ci certs p a m' in
      let path' : node.path ++ p.raw ∷ [] ≡ ci.raw ∷ raws (certs ++ p ∷ []) = cc in
      elim (Bool-cases (contains s.visited p.sha256)) [
        | inl again ↦ rw again (q, ch)
        | inr new ↦ elim (Bool-cases (is_self_signed p)) [
          | inl root ↦ elim (Bool-cases (contains s.seen_roots p.sha256)) [
            | inl known ↦ rw (new, root, known) (q, ch)
            | inr unknown ↦
                rw (new, root, unknown)
                  (
                    q,
                    All-append (Rooted ci) s.chains _ ch
                        ((certs ++ p ∷ [], path', a', ap is_self_signed last' ∙ root), tt),
                  )
          ]
          | inr inner ↦
              rw (new, inner)
                (All-append (Reached ci) s.queue _ q ((certs ++ p ∷ [], path', a', last'), tt), ch)
        ]
      ]

  visit_all-Sound :
      (ci : CertInfo) (node : Node) (ps : List CertInfo) (s : Search)
      → Reached ci node
      → All (λ p. Among p (find_parents hex index node.ci)) ps
      → Sound ci s
      → Sound ci (visit_all node ps s)
  unfolding visit_all
  visit_all-Sound ci node [] s n m h = h
  visit_all-Sound ci node (p ∷ ps) s n m h =
      visit_all-Sound ci node ps (visit node p s) n m.1 (visit-Sound ci node p s n m.0 h)

  search-Rooted :
      (ci : CertInfo) (fuel : ℕ) (s end : Search)
      → Sound ci s
      → search hex index fuel s ≡ some end
      → All (Rooted ci) end.chains
  unfolding search
  search-Rooted ci zero s end h e = cc
  search-Rooted ci (suc fuel) s end h e = elim (List-cases s.queue) [
    | inl empty ↦
        let same : s ≡ end = ground arith in subst (λ t. All (Rooted ci) t.chains) same h.1
    | inr (node, rest, more) ↦
        let queued : All (Reached ci) (node ∷ rest) = subst (All (Reached ci)) more h.0 in
        let popped = record s { queue = rest } in
        let parents = find_parents hex index node.ci in
        search-Rooted ci fuel (visit_all node parents popped) end
          (visit_all-Sound ci node parents popped queued.0 (All-Among parents []) (queued.1, h.1))
          (ground arith)
  ]

  pub found-Rooted :
      (ci : CertInfo) (end : Search)
      → search hex index (suc (suc (size index))) (search_from hex index ci) ≡ some end
      → All (Rooted ci) end.chains
  found-Rooted ci end done =
      let start : Reached ci (record { ci = ci; path = ci.raw ∷ [] }) = ([], refl, tt, refl) in
      search-Rooted ci (suc (suc (size index))) (search_from hex index ci) end ((start, tt), tt)
        done
