-- ===== src/OptimalParents/Complete.antt =====
-- The search finds a root wherever there is one.
use ctsubmit.Prelude.{
  if◌then◌else◌, length, select, ℕ, zero, suc, ◌≡◌, refl, sym, ap, ◌∙◌, subst, String, true, false,
  not, List, [], ◌∷◌, some, contains-insert, nat_beq_iff, contains, nat_eq, string_eq, arith, All,
  Bool-cases, Option-cases, List-cases, inl, ◌==◌, inr, ◌⊎◌,
}
use ctsubmit.Submitter.CompatibleLogs.{is_empty}
use ctsubmit.Pki.Discovery.{bytes_of}
use ctsubmit.OptimalParents.{
  CertInfo, Index, certs_at, is_self_signed, Node, Search, found, find_parents, visit, visit_all,
  size, search, search_from, build_chains,
}
use ctsubmit.OptimalParents.Rooted.{Among, Ascends, Rooted, last_cert, found-Rooted}
use ctsubmit.OptimalParents.Visited.{
  InQueue, InQueue-snoc, Done, Grows-refl, Grows-trans, Done-Grows, visit-Grows, visit_all-Grows,
  Chained, visit-Done, all_certs, select-Among, certs_at-Among, Grows,
}

module _ (hex : List ℕ → String) (index : Index) (ci : CertInfo) where
  -- The certificate itself, or one of the index.
  abbrev pub Member : CertInfo → Type 0
  Member c = (c ≡ ci) ⊎ Among c (all_certs index)

  parent-Member : (c p : CertInfo) → Among p (find_parents hex index c) → Member p
  unfolding find_parents
  parent-Member c p m =
      let aki = bytes_of c.cert.authority_key_id in
      elim (Bool-cases (length aki == 0)) [
        | inl nobody ↦ absurd (
            subst
              (λ b. Among p (
                if b
                then []
                else select (λ (d : CertInfo). not (d.sha256 == c.sha256))
                    (certs_at (hex aki) index)))
              nobody m)
        | inr named ↦ inr (
            certs_at-Among (hex aki) index p (
              select-Among (λ d. not (d.sha256 == c.sha256)) p (certs_at (hex aki) index)
                (subst
                  (λ b. Among p (
                    if b
                    then []
                    else select (λ (d : CertInfo). not (d.sha256 == c.sha256))
                        (certs_at (hex aki) index)))
                  named m)))
      ]

  abbrev Expanded : Search → CertInfo → Type 0
  Expanded s c = (p : CertInfo) → Among p (find_parents hex index c) → Done s p

  -- A visited certificate is no root and waits in the queue, or its parents have been dealt with, or
  -- it is the one that is being dealt with.
  abbrev Handled : (CertInfo → Type 0) → Search → Type 0
  Handled Current s =
      (c : CertInfo)
      → Member c
      → contains s.visited c.sha256 ≡ true
      → (is_self_signed c ≡ false) × (InQueue c s.queue ⊎ (Expanded s c ⊎ Current c))

  module _ (one_each : (c d : CertInfo) → Member c → Member d → c.sha256 ≡ d.sha256 → c ≡ d) where
    -- The state of a certificate that was visited before a step.
    handled_stays :
        (Current : CertInfo → Type 0) (s t : Search) (c : CertInfo)
        → Grows s t
        → InQueue c s.queue ⊎ (Expanded s c ⊎ Current c)
        → InQueue c t.queue ⊎ (Expanded t c ⊎ Current c)
    handled_stays Current s t c g (inl m) = inl (g.queue_stays c m)
    handled_stays Current s t c g (inr (inl e)) = inr (inl (λ p m. Done-Grows s t p g (e p m)))
    handled_stays Current s t c g (inr (inr now)) = inr (inr now)

    visit-visited :
        (node : Node) (p : CertInfo) (s : Search) (x : ℕ)
        → contains (visit node p s).visited x ≡ true
        → (contains s.visited x ≡ true)
          ⊎ ((p.sha256 ≡ x) × (is_self_signed p ≡ false) × InQueue p (visit node p s).queue)
    unfolding visit
    visit-visited node p s x h = elim (Bool-cases (contains s.visited x)) [
      | inl before ↦ inl before
      | inr unseen ↦ elim (Bool-cases (contains s.visited p.sha256)) [
        | inl again ↦ absurd (ground arith)
        | inr new ↦ elim (Bool-cases (is_self_signed p)) [
          | inl root ↦ absurd (ground arith)
          | inr inner ↦ inr (
            ground (arith, contains-insert p.sha256 x s.visited, nat_beq_iff p.sha256 x),
            inner,
            rw (new, inner) (InQueue-snoc p s.queue _ refl),
          )
        ]
      ]
    ]

    visit-Handled :
        (Current : CertInfo → Type 0) (node : Node) (p : CertInfo) (s : Search)
        → Member p
        → Handled Current s
        → Handled Current (visit node p s)
    visit-Handled Current node p s m h c mc v = elim (visit-visited node p s c.sha256 v) [
      | inl before ↦ (
        (h c mc before).0,
        handled_stays Current s (visit node p s) c (visit-Grows node p s) (h c mc before).1,
      )
      | inr (same, inner, queued) ↦
          let e : p ≡ c = one_each p c m mc same in
          (
            subst (λ d. is_self_signed d ≡ false) e inner,
            inl (subst (λ d. InQueue d (visit node p s).queue) e queued),
          )
    ]

    visit_all-Handled :
        (Current : CertInfo → Type 0) (node : Node) (ps : List CertInfo) (s : Search)
        → All Member ps
        → Chained s
        → Handled Current s
        → Handled Current (visit_all node ps s)
          × Chained (visit_all node ps s)
          × Grows s (visit_all node ps s)
          × All (Done (visit_all node ps s)) ps
    unfolding visit_all
    visit_all-Handled Current node [] s m k h = (h, k, Grows-refl s, tt)
    visit_all-Handled Current node (p ∷ ps) s m k h =
        let t = visit node p s in
        let (d, k') = visit-Done node p s k in
        let (h', k'', g, ds) =
          visit_all-Handled Current node ps t m.1 k' (visit-Handled Current node p s m.0 h) in
        (
          h',
          k'',
          Grows-trans s t (visit_all node ps t) (visit-Grows node p s) g,
          (Done-Grows t (visit_all node ps t) p g d, ds),
        )

    All-Among_elim :
        (P : CertInfo → Type 0) (ps : List CertInfo) → All P ps → (p : CertInfo) → Among p ps → P p
    All-Among_elim P [] a p m = absurd m
    All-Among_elim P (q ∷ ps) a p (inl e) = subst P (sym e) a.0
    All-Among_elim P (q ∷ ps) a p (inr m) = All-Among_elim P ps a.1 p m

    parents-Member :
        (c : CertInfo) (ps : List CertInfo)
        → ((p : CertInfo) → Among p ps → Among p (find_parents hex index c))
        → All Member ps
    parents-Member c [] sub = tt
    parents-Member c (p ∷ ps) sub =
        (parent-Member c p (sub p (inl refl)), parents-Member c ps (λ q m. sub q (inr m)))

    abbrev Never : CertInfo → Type 0
    Never c = ⊥

    -- The node that is taken off the queue.
    popped_case :
        (s : Search) (node : Node) (rest : List Node)
        → s.queue ≡ node ∷ rest
        → (c : CertInfo) → InQueue c s.queue ⊎ (Expanded s c ⊎ Never c)
        → InQueue c rest ⊎ (Expanded (record s { queue = rest }) c ⊎ (node.ci ≡ c))
    popped_case s node rest e c (inl m) = elim (subst (InQueue c) e m) [
      | inl now ↦ inr (inr now)
      | inr later ↦ inl later
    ]
    popped_case s node rest e c (inr (inl x)) = inr (inl x)
    popped_case s node rest e c (inr (inr n)) = absurd n

    dealt_case :
        (node : Node) (t : Search)
        → All (Done t) (find_parents hex index node.ci)
        → (c : CertInfo) → InQueue c t.queue ⊎ (Expanded t c ⊎ (node.ci ≡ c))
        → InQueue c t.queue ⊎ (Expanded t c ⊎ Never c)
    dealt_case node t ds c (inl m) = inl m
    dealt_case node t ds c (inr (inl x)) = inr (inl x)
    dealt_case node t ds c (inr (inr now)) = inr (
        inl (λ p m.
          All-Among_elim (Done t) (find_parents hex index node.ci) ds p
            (subst (λ d. Among p (find_parents hex index d)) (sym now) m)))

    expanded-Handled :
        (node : Node) (t : Search)
        → All (Done t) (find_parents hex index node.ci)
        → Handled (λ c. node.ci ≡ c) t
        → Handled Never t
    expanded-Handled node t ds h c mc v =
        let (inner, waits) = h c mc v in (inner, dealt_case node t ds c waits)

    popped-Handled :
        (s : Search) (node : Node) (rest : List Node)
        → s.queue ≡ node ∷ rest
        → Handled Never s
        → Handled (λ c. node.ci ≡ c) (record s { queue = rest })
    popped-Handled s node rest e h c mc v =
        let (inner, waits) = h c mc v in (inner, popped_case s node rest e c waits)

    search-Handled :
        (fuel : ℕ) (s end : Search)
        → Chained s
        → Handled Never s
        → search hex index fuel s ≡ some end
        → Handled Never end × (end.queue ≡ [])
    unfolding search
    search-Handled zero s end k h e = cc
    search-Handled (suc fuel) s end k h e = elim (List-cases s.queue) [
      | inl empty ↦
          let same : s ≡ end = ground arith in
          (subst (Handled Never) same h, ap (λ t. t.queue) (sym same) ∙ empty)
      | inr (node, rest, more) ↦
          let popped = record s { queue = rest } in
          let parents = find_parents hex index node.ci in
          let t = visit_all node parents popped in
          let (h', k', g, ds) =
            visit_all-Handled (λ c. node.ci ≡ c) node parents popped
              (parents-Member node.ci parents (λ p m. m)) k (popped-Handled s node rest more h) in
          search-Handled fuel t end k' (expanded-Handled node t ds h') (ground arith)
    ]

    start-Handled : is_self_signed ci ≡ false → Handled Never (search_from hex index ci)
    unfolding contains
    start-Handled inner c mc v =
        let e : ci ≡ c =
          one_each ci c (inl refl) mc (ground (arith, nat_beq_iff ci.sha256 c.sha256)) in
        (subst (λ d. is_self_signed d ≡ false) e inner, inl (inl e))

    unrooted :
        (end : Search)
        → Handled Never end
        → end.queue ≡ []
        → end.chains ≡ []
        → (c : CertInfo) (certs : List CertInfo) → Member c
        → contains end.visited c.sha256 ≡ true
        → Ascends hex index c certs
        → is_self_signed (last_cert c certs) ≡ false
    unrooted end h over nowhere c [] mc v a = (h c mc v).0
    unrooted end h over nowhere c (p ∷ ps) mc v a = elim (h c mc v).1 [
      | inl waits ↦ absurd (subst (InQueue c) over waits)
      | inr (inr n) ↦ absurd n
      | inr (inl x) ↦ elim (x p a.0) [
        | inl visited ↦ unrooted end h over nowhere p ps (parent-Member c p a.0) visited a.1
        | inr (root, chain) ↦ absurd (ground arith)
      ]
    ]

    start_stays :
        (fuel : ℕ) (s end : Search) (x : ℕ)
        → contains s.visited x ≡ true
        → search hex index fuel s ≡ some end
        → contains end.visited x ≡ true
    unfolding search
    start_stays zero s end x h e = cc
    start_stays (suc fuel) s end x h e = elim (List-cases s.queue) [
      | inl empty ↦
          let same : s ≡ end = ground arith in
          subst (λ (t : Search). contains t.visited x ≡ true) same h
      | inr (node, rest, more) ↦
          let popped = record s { queue = rest } in
          let parents = find_parents hex index node.ci in
          start_stays fuel (visit_all node parents popped) end x
            ((visit_all-Grows node parents popped).visited_stays x h) (ground arith)
    ]

    -- The search for the chains of a certificate that is not self-signed gives paths of the index, each from
    -- the certificate from parent to parent up to a self-signed one, and gives at least one where there is
    -- one: only if no path of parents ends in a self-signed certificate, the result is the certificate
    -- alone. Certificates of the index with the same hash are the same.
    pub build_chains_lem :
        (chains : List (List (List ℕ)))
        → is_self_signed ci ≡ false
        → build_chains hex index ci ≡ found chains
        → (All (Rooted hex index ci) chains × (is_empty chains ≡ false))
          ⊎ ((chains ≡ (ci.raw ∷ []) ∷ [])
              × ((certs : List CertInfo)
                  → Ascends hex index ci certs
                  → is_self_signed (last_cert ci certs) ≡ false))
    unfolding build_chains
    build_chains_lem chains inner h =
        let fuel = suc (suc (size index)) in
        let start = search_from hex index ci in
        elim (Option-cases (search hex index fuel start)) [
          | inl out ↦ absurd (ground arith)
          | inr (end, done) ↦
              let (handled, over) =
                search-Handled fuel start end (λ x v. unfold contains in cc v) (start-Handled inner)
                  done in
              elim (List-cases end.chains) [
                | inl nowhere ↦ inr (
                  ground arith,
                  λ certs a.
                      unrooted end handled over nowhere ci certs (inl refl)
                        (start_stays fuel start end ci.sha256
                          (unfold contains in ground (arith, nat_beq_iff ci.sha256 ci.sha256)) done)
                        a,
                )
                | inr (chain, more, there) ↦ inl (
                  subst (All (Rooted hex index ci)) (ground arith)
                      (found-Rooted hex index ci end done),
                  ground arith,
                )
              ]
        ]
