-- ===== src/OptimalParents/Selection/Best.antt =====
-- The selection picks the best chain.
use ctsubmit.Prelude.{
  ◌++◌, ap, ◌^◌, ℕ, String, ◌≡◌, refl, sym, subst, ◌<◌, Bool, true, false, ◌&&◌, ◌||◌, List, [],
  ◌∷◌, Option, none, some, ltb, ◌==◌, nat_eq, arith, All, if◌then◌else◌, Bool-cases, inl, inr, ◌⊎◌,
}
use ctsubmit.OptimalParents.{CertInfo, Index}
use ctsubmit.OptimalParents.Selection.{
  Entry, LogGroup, RootSets, chain_entries, chains_of, replaces, consider, consider_all, entries,
  best_of,
}

-- More logs accept the chain's root, or as many do and the chain is shorter, or then the
-- certificate is valid for longer, or then its hash is smaller.
abbrev pub is_better : Entry → Entry → Bool
is_better a b =
    ltb b.score a.score
    || (a.score == b.score
        && (ltb a.chain_len b.chain_len
            || (a.chain_len == b.chain_len
                && (ltb b.not_after a.not_after
                    || (a.not_after == b.not_after && ltb a.hash b.hash)))))

replaces-is_better : (best e : Entry) → replaces (some best) e ≡ is_better e best
unfolding replaces
replaces-is_better best e = ground arith

-- Nothing that is better than the second is better than a better one.
is_better-transitive :
    (x a b : Entry) → is_better x a ≡ false → is_better b a ≡ true → is_better x b ≡ false
is_better-transitive x a b h k = ground arith

-- The entry has no accepting log, or the best so far stands against it.
abbrev pub Beats : Option Entry → Entry → Type 0
Beats none e = ltb 0 e.score ≡ false
Beats (some best) e = (ltb 0 e.score && is_better e best) ≡ false

-- The one of the two that stands.
abbrev wins : Option Entry → Entry → Bool
wins none e = ltb 0 e.score
wins (some best) e = ltb 0 e.score && is_better e best

consider-wins :
    (best : Option Entry) (e : Entry) → consider best e ≡ (if wins best e then some e else best)
unfolding consider replaces
consider-wins none e = refl
consider-wins (some best) e = ground (arith, replaces-is_better best e)

irreflexive : (e : Entry) → (ltb 0 e.score && is_better e e) ≡ false
irreflexive e = ground arith

wins-Beats : (best : Option Entry) (e : Entry) → wins best e ≡ false → Beats best e
wins-Beats none e h = h
wins-Beats (some best) e h = h

kept-Beats :
    (best : Option Entry) (x e : Entry) → wins best e ≡ true → Beats best x → Beats (some e) x
kept-Beats none x e w h = ground arith
kept-Beats (some best) x e w h = ground (arith, is_better-transitive x best e)

consider-Beats :
    (best : Option Entry) (x e : Entry)
    → (Beats best x → Beats (consider best e) x) × Beats (consider best e) e
consider-Beats best x e = elim (Bool-cases (wins best e)) [
  | inl won ↦
      let is : consider best e ≡ some e = cc (consider-wins best e, won) in
      (
        λ h. subst (λ o. Beats o x) (sym is) (kept-Beats best x e won h),
        subst (λ o. Beats o e) (sym is) (irreflexive e),
      )
  | inr lost ↦
      let is : consider best e ≡ best = cc (consider-wins best e, lost) in
      (
        λ h. subst (λ o. Beats o x) (sym is) h,
        subst (λ o. Beats o e) (sym is) (wins-Beats best e lost),
      )
]

consider_all-Beats :
    (best : Option Entry) (x : Entry) (es : List Entry)
    → Beats best x
    → Beats (consider_all best es) x
unfolding consider_all
consider_all-Beats best x [] h = h
consider_all-Beats best x (e ∷ es) h =
    consider_all-Beats (consider best e) x es ((consider-Beats best x e).0 h)

consider_all-All : (best : Option Entry) (es : List Entry) → All (Beats (consider_all best es)) es
unfolding consider_all
consider_all-All best [] = tt
consider_all-All best (e ∷ es) = (
  consider_all-Beats (consider best e) e es (consider-Beats best e e).1,
  consider_all-All (consider best e) es,
)

-- An entry of the list that some log accepts.
abbrev pub Occurs : Entry → List Entry → Type 0
Occurs b [] = ⊥
Occurs b (e ∷ es) = ((b ≡ e) × (0 < e.score)) ⊎ Occurs b es

wins-positive : (best : Option Entry) (e : Entry) → wins best e ≡ true → 0 < e.score
wins-positive none e h = ground arith
wins-positive (some best) e h = ground arith

consider_all-Occurs :
    (best : Option Entry) (es : List Entry) (b : Entry)
    → consider_all best es ≡ some b
    → (best ≡ some b) ⊎ Occurs b es
unfolding consider_all
consider_all-Occurs best [] b h = inl h
consider_all-Occurs best (e ∷ es) b h = elim (consider_all-Occurs (consider best e) es b h) [
  | inr later ↦ inr (inr later)
  | inl here ↦ elim (Bool-cases (wins best e)) [
    | inl won ↦ inr (inl (cc (consider-wins best e, won, here), wins-positive best e won))
    | inr lost ↦ inl (cc (consider-wins best e, lost, here))
  ]
]

consider_all_best :
    (es : List Entry) (b : Entry)
    → consider_all none es ≡ some b
    → Occurs b es × All (λ e. (ltb 0 e.score && is_better e b) ≡ false) es
consider_all_best es b h = (
  elim (consider_all-Occurs none es b h) [ inl never ↦ cc | inr there ↦ there ],
  subst (λ o. All (Beats o) es) h (consider_all-All none es),
)

module _ (sha256 : List ℕ → ℕ) (hex : List ℕ → String) (index : Index) (sets : RootSets)
    (groups : List LogGroup) (candidates : List CertInfo) where
  -- If a certificate is selected for a key, then some log accepts the root of its chain, and of all
  -- chains of the key's certificates that some log accepts none is better: accepted by more logs, or
  -- by as many and shorter, or then of a certificate that is valid for longer, or then of one with a
  -- smaller hash.
  pub best_of_lem :
      (b : Entry)
      → best_of sha256 hex index sets groups candidates ≡ some b
      → let es = entries sha256 hex index sets groups candidates in
        Occurs b es × All (λ e. (ltb 0 e.score && is_better e b) ≡ false) es
  unfolding best_of
  best_of_lem b h = consider_all_best (entries sha256 hex index sets groups candidates) b h

module _ (sha256 : List ℕ → ℕ) (hex : List ℕ → String) where
  Occurs-append : (b : Entry) (xs ys : List Entry) → Occurs b (xs ++ ys) → Occurs b xs ⊎ Occurs b ys
  Occurs-append b [] ys o = inr o
  Occurs-append b (x ∷ xs) ys (inl here) = inl (inl here)
  Occurs-append b (x ∷ xs) ys (inr o) = elim (Occurs-append b xs ys o) [
    | inl left ↦ inl (inr left)
    | inr right ↦ inr right
  ]

  -- An entry has the hash of its certificate.
  chain_entries-hash :
      (sets : RootSets) (gs : List LogGroup) (ci : CertInfo) (chains : List (List (List ℕ)))
      (b : Entry)
      → Occurs b (chain_entries sha256 sets gs ci chains)
      → b.hash ≡ ci.sha256
  unfolding chain_entries
  chain_entries-hash sets gs ci [] b o = absurd o
  chain_entries-hash sets gs ci (c ∷ cs) b (inl (e, accepted)) = ap (λ (x : Entry). x.hash) e
  chain_entries-hash sets gs ci (c ∷ cs) b (inr o) = chain_entries-hash sets gs ci cs b o

  pub entries-hash :
      (index : Index) (sets : RootSets) (gs : List LogGroup) (candidates : List CertInfo)
      (b : Entry)
      → All (λ (c : CertInfo). c.sha256 < 2 ^ 256) candidates
      → Occurs b (entries sha256 hex index sets gs candidates)
      → b.hash < 2 ^ 256
  unfolding entries
  entries-hash index sets gs [] b small o = absurd o
  entries-hash index sets gs (c ∷ cs) b small o =
      elim (Occurs-append b (chain_entries sha256 sets gs c (chains_of sha256 hex index c)) _ o) [
        | inl here ↦
            subst (λ n. n < 2 ^ 256)
              (sym (chain_entries-hash sets gs c (chains_of sha256 hex index c) b here)) small.0
        | inr later ↦ entries-hash index sets gs cs b small.1 later
      ]
