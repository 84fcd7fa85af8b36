-- ===== src/OptimalParents/Visited.antt =====
-- What the search for chains does with the certificates that it visits.
use ctsubmit.Prelude.{
  if◌then◌else◌, lookup, select, ℕ, ◌≡◌, refl, subst, String, Bool, true, false, List, [], ◌∷◌,
  ◌++◌, some, none, contains-insert, nat_beq_iff, contains, nat_eq, string_eq, arith, Bool-cases,
  inl, ◌==◌, inr, ◌⊎◌,
}
use ctsubmit.Submitter.CompatibleLogs.{is_empty}
use ctsubmit.OptimalParents.{
  CertInfo, Index, certs_at, is_self_signed, Node, Search, visit, visit_all,
}
use ctsubmit.OptimalParents.Rooted.{Among}

abbrev pub InQueue : CertInfo → List Node → Type 0
InQueue c [] = ⊥
InQueue c (n ∷ ns) = (n.ci ≡ c) ⊎ InQueue c ns

InQueue-append : (c : CertInfo) (q r : List Node) → InQueue c q → InQueue c (q ++ r)
InQueue-append c [] r m = absurd m
InQueue-append c (n ∷ q) r (inl here) = inl here
InQueue-append c (n ∷ q) r (inr there) = inr (InQueue-append c q r there)

pub InQueue-snoc : (c : CertInfo) (q : List Node) (n : Node) → n.ci ≡ c → InQueue c (q ++ n ∷ [])
InQueue-snoc c [] n e = inl e
InQueue-snoc c (m ∷ q) n e = inr (InQueue-snoc c q n e)

is_empty-snoc : {A : Type 0} (xs : List A) (x : A) → is_empty (xs ++ x ∷ []) ≡ false
is_empty-snoc [] x = refl
is_empty-snoc (y ∷ xs) x = refl

-- The parent has been dealt with: it is visited, or a root, of which there is a chain then.
abbrev pub Done : Search → CertInfo → Type 0
Done s p =
    (contains s.visited p.sha256 ≡ true) ⊎ ((is_self_signed p ≡ true) × (is_empty s.chains ≡ false))

-- What a step keeps.
pub record Grows (s t : Search) : Type 0 where
  pub visited_stays : (x : ℕ) → contains s.visited x ≡ true → contains t.visited x ≡ true
  pub chains_stay : is_empty s.chains ≡ false → is_empty t.chains ≡ false
  pub queue_stays : (c : CertInfo) → InQueue c s.queue → InQueue c t.queue

pub Grows-refl : (s : Search) → Grows s s
Grows-refl s = record { visited_stays = λ x h. h; chains_stay = λ h. h; queue_stays = λ c m. m }

pub Grows-trans : (s t u : Search) → Grows s t → Grows t u → Grows s u
Grows-trans s t u f g = record {
  visited_stays = λ x h. g.visited_stays x (f.visited_stays x h);
  chains_stay = λ h. g.chains_stay (f.chains_stay h);
  queue_stays = λ c m. g.queue_stays c (f.queue_stays c m);
}

pub Done-Grows : (s t : Search) (p : CertInfo) → Grows s t → Done s p → Done t p
Done-Grows s t p g (inl v) = inl (g.visited_stays p.sha256 v)
Done-Grows s t p g (inr (root, some_chain)) = inr (root, g.chains_stay some_chain)

pub visit-Grows : (node : Node) (p : CertInfo) (s : Search) → Grows s (visit node p s)
unfolding visit
visit-Grows node p s = elim (Bool-cases (contains s.visited p.sha256)) [
  | inl again ↦ rw again (Grows-refl s)
  | inr new ↦ elim (Bool-cases (is_self_signed p)) [
    | inl root ↦ elim (Bool-cases (contains s.seen_roots p.sha256)) [
      | inl known ↦ rw (new, root, known) (Grows-refl s)
      | inr unknown ↦
          rw (new, root, unknown)
            (record {
              visited_stays = λ x h. h;
              chains_stay = λ h. is_empty-snoc s.chains _;
              queue_stays = λ c m. m;
            })
    ]
    | inr inner ↦
        rw (new, inner)
          (record {
            visited_stays = λ x h. ground (arith, contains-insert p.sha256 x s.visited);
            chains_stay = λ h. h;
            queue_stays = λ c m. InQueue-append c s.queue _ m;
          })
  ]
]

pub visit_all-Grows :
    (node : Node) (ps : List CertInfo) (s : Search) → Grows s (visit_all node ps s)
unfolding visit_all
visit_all-Grows node [] s = Grows-refl s
visit_all-Grows node (p ∷ ps) s =
    Grows-trans s (visit node p s) (visit_all node ps (visit node p s)) (visit-Grows node p s)
      (visit_all-Grows node ps (visit node p s))

-- A root that is seen has given a chain.
abbrev pub Chained : Search → Type 0
Chained s = (x : ℕ) → contains s.seen_roots x ≡ true → is_empty s.chains ≡ false

pub visit-Done :
    (node : Node) (p : CertInfo) (s : Search)
    → Chained s
    → Done (visit node p s) p × Chained (visit node p s)
unfolding visit
visit-Done node p s h = elim (Bool-cases (contains s.visited p.sha256)) [
  | inl again ↦ rw again (inl again, h)
  | inr new ↦ elim (Bool-cases (is_self_signed p)) [
    | inl root ↦ elim (Bool-cases (contains s.seen_roots p.sha256)) [
      | inl known ↦ rw (new, root, known) (inr (refl, h p.sha256 known), h)
      | inr unknown ↦
          rw (new, root, unknown)
            (inr (refl, is_empty-snoc s.chains _), λ x seen. is_empty-snoc s.chains _)
    ]
    | inr inner ↦
        rw (new, inner)
          (
            inl (
                ground (
                  arith,
                  contains-insert p.sha256 p.sha256 s.visited,
                  nat_beq_iff p.sha256 p.sha256,
                )),
            h,
          )
  ]
]

-- All certificates of an index.
abbrev pub all_certs : Index → List CertInfo
all_certs [] = []
all_certs ((ski, cs) ∷ index) = cs ++ all_certs index

Among-right : (p : CertInfo) (cs xs : List CertInfo) → Among p xs → Among p (cs ++ xs)
Among-right p [] xs m = m
Among-right p (c ∷ cs) xs m = inr (Among-right p cs xs m)

Among-left : (p : CertInfo) (cs xs : List CertInfo) → Among p cs → Among p (cs ++ xs)
Among-left p [] xs m = absurd m
Among-left p (c ∷ cs) xs (inl e) = inl e
Among-left p (c ∷ cs) xs (inr m) = inr (Among-left p cs xs m)

pub select-Among :
    (q : CertInfo → Bool) (p : CertInfo) (cs : List CertInfo) → Among p (select q cs) → Among p cs
unfolding select
select-Among q p [] m = m
select-Among q p (c ∷ cs) m = elim (Bool-cases (q c)) [
  | inl kept ↦ elim (subst (λ b. Among p (if b then c ∷ select q cs else select q cs)) kept m) [
    | inl here ↦ inl here
    | inr there ↦ inr (select-Among q p cs there)
  ]
  | inr left_out ↦ inr (
      select-Among q p cs
        (subst (λ b. Among p (if b then c ∷ select q cs else select q cs)) left_out m))
]

pub certs_at-Among :
    (ski : String) (index : Index) (p : CertInfo)
    → Among p (certs_at ski index)
    → Among p (all_certs index)
unfolding lookup
certs_at-Among ski [] p m = m
certs_at-Among ski ((k, cs) ∷ index) p m = elim (Bool-cases (k == ski)) [
  | inl here ↦ Among-left p cs (all_certs index) (
      subst
        (λ b. Among p (elim (if b then some cs else lookup ski index) [ none ↦ [] | some ds ↦ ds ]))
        here m)
  | inr there ↦ Among-right p cs (all_certs index) (
      certs_at-Among ski index p (
        subst
          (λ b.
            Among p (elim (if b then some cs else lookup ski index) [ none ↦ [] | some ds ↦ ds ]))
          there m))
]
