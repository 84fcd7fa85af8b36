-- ===== src/Monitor/Uptime/Lowest.antt =====
-- The lowest uptime of a log is a lower bound of all that were read, and reading back what was
-- stored.
use ctsubmit.Prelude.{
  ◌≡◌, refl, ◌≢◌, String, Bool, true, false, List, [], ◌∷◌, Option, none, some, ◌==◌, string_eq,
  lookup, lookup-store, arith, if◌then◌else◌, ◌⊎◌, inl, inr, Bool-cases, nat_eq, ap, sym, ◌∙◌, ◌++◌,
  subst,
}
use text.Mathlib.TextEquality.{eq_iff}
use ctsubmit.Monitor.Uptime.{
  EndpointUptimes, UptimeMap, Line, Floats, fresh_uptimes, set_endpoint, lower, update_uptimes,
  process_line, process_lines, get_endpoint_uptime, get_uptime,
}

-- The endpoints that the CSV file reports.
pub data IsEndpoint : String → Type 0 where
  add_chain : IsEndpoint "add-chain"
  add_pre_chain : IsEndpoint "add-pre-chain"
  get_entries : IsEndpoint "get-entries"
  get_proof_by_hash : IsEndpoint "get-proof-by-hash"
  get_roots : IsEndpoint "get-roots"
  get_sth : IsEndpoint "get-sth"
  get_sth_consistency : IsEndpoint "get-sth-consistency"
  checkpoint : IsEndpoint "checkpoint"
  tile : IsEndpoint "tile"

module _ {P : Type 0} (floats : Floats P) where
  lowest-if :
      (b : Bool) {l : P} (u v : EndpointUptimes P)
      → u.lowest ≡ l
      → v.lowest ≡ l
      → (if b then u else v).lowest ≡ l
  lowest-if true u v p q = p
  lowest-if false u v p q = q

  lowest-set_endpoint :
      (name : String) (p : P) (u : EndpointUptimes P)
      → (set_endpoint floats name p u).lowest ≡ u.lowest
  unfolding set_endpoint
  lowest-set_endpoint name p u = lowest-if (name == "add-chain") _ _ refl (
      lowest-if (name == "add-pre-chain") _ _ refl (
        lowest-if (name == "get-entries") _ _ refl (
          lowest-if (name == "get-proof-by-hash") _ _ refl (
            lowest-if (name == "get-roots") _ _ refl (
              lowest-if (name == "get-sth") _ _ refl (
                lowest-if (name == "get-sth-consistency") _ _ refl (
                  lowest-if (name == "checkpoint") _ _ refl
                    (lowest-if (name == "tile") _ _ refl refl))))))))

  -- A percentage that was parsed for an endpoint is what the getter returns for that endpoint.
  get_endpoint_uptime-update_uptimes :
      {name : String} (e : IsEndpoint name) (p : P) (u : EndpointUptimes P)
      → get_endpoint_uptime floats (some (update_uptimes floats name (some p) u)) name ≡ some p
  unfolding update_uptimes get_endpoint_uptime
  get_endpoint_uptime-update_uptimes add_chain p u = ground arith
  get_endpoint_uptime-update_uptimes add_pre_chain p u = ground arith
  get_endpoint_uptime-update_uptimes get_entries p u = ground arith
  get_endpoint_uptime-update_uptimes get_proof_by_hash p u = ground arith
  get_endpoint_uptime-update_uptimes get_roots p u = ground arith
  get_endpoint_uptime-update_uptimes get_sth p u = ground arith
  get_endpoint_uptime-update_uptimes get_sth_consistency p u = ground arith
  get_endpoint_uptime-update_uptimes checkpoint p u = ground arith
  get_endpoint_uptime-update_uptimes tile p u = ground arith

  abbrev new_lowest : Option P → P → P
  new_lowest none x = x
  new_lowest (some p) x = if floats.below p x then p else x

  lowest-update_uptimes :
      (name : String) (o : Option P) (u : EndpointUptimes P)
      → (update_uptimes floats name o u).lowest ≡ new_lowest o u.lowest
  unfolding update_uptimes lower
  lowest-update_uptimes name none u = refl
  lowest-update_uptimes name (some p) u = ground (arith, lowest-set_endpoint name p u)

  -- The log has an entry whose lowest percentage `p` is not below.
  abbrev Covers : String → P → UptimeMap P → Type 0
  Covers url p m =
      (u : EndpointUptimes P) × (lookup url m ≡ some (some u)) × (floats.below p u.lowest ≡ false)

  -- What a line stores for its log.
  abbrev pub stored : Line → EndpointUptimes P → EndpointUptimes P
  stored l u = update_uptimes floats l.endpoint (floats.parse l.percentage) u

  pub lookup-process_line :
      (l : Line) (m : UptimeMap P) (u : EndpointUptimes P) (url : String)
      → lookup l.url m ≡ some (some u)
      → lookup url (process_line floats l m)
        ≡ (if l.url == url then some (some (stored l u)) else lookup url m)
  unfolding process_line
  lookup-process_line l m u url e = ground (arith, lookup-store l.url url (some (stored l u)) m)

  pub lookup-process_line_fresh :
      (l : Line) (m : UptimeMap P) (url : String)
      → lookup l.url m ≡ some none
      → lookup url (process_line floats l m)
        ≡ (if l.url == url then some (some (stored l (fresh_uptimes floats))) else lookup url m)
  unfolding process_line
  lookup-process_line_fresh l m url e =
      ground (arith, lookup-store l.url url (some (stored l (fresh_uptimes floats))) m)

  pub process_line_unknown :
      (l : Line) (m : UptimeMap P) → lookup l.url m ≡ none → process_line floats l m ≡ m
  unfolding process_line
  process_line_unknown l m e = rw (e, process_line)

  -- The three states of a key.
  pub Entry-cases :
      (o : Option (Option (EndpointUptimes P)))
      → (o ≡ none) ⊎ ((o ≡ some none) ⊎ ((u : EndpointUptimes P) × (o ≡ some (some u))))
  Entry-cases none = inl refl
  Entry-cases (some none) = inr (inl refl)
  Entry-cases (some (some u)) = inr (inr (u, refl))

  module _ (irreflexive : (a : P) → floats.below a a ≡ false)
      (transitive : (a b c : P)
        → floats.below a b ≡ true
        → floats.below b c ≡ true
        → floats.below a c ≡ true)
      (url : String) where
    new_lowest_keeps :
        (o : Option P) (p x : P)
        → floats.below p x ≡ false
        → floats.below p (new_lowest o x) ≡ false
    new_lowest_keeps none p x h = h
    new_lowest_keeps (some q) p x h = ground (arith, transitive p q x)

    new_lowest_covers : (p x : P) → floats.below p (new_lowest (some p) x) ≡ false
    new_lowest_covers p x = ground (arith, irreflexive p)

    process_line-Covers :
        (l : Line) (p : P) (m : UptimeMap P)
        → Covers url p m
        → Covers url p (process_line floats l m)
    process_line-Covers l p m (u, e, h) = elim (Bool-cases (l.url == url)) [
      | inl same ↦ (
        stored l u,
        ground (arith, lookup-process_line l m u url, eq_iff l.url url),
        ground (
          arith,
          lowest-update_uptimes l.endpoint (floats.parse l.percentage) u,
          new_lowest_keeps (floats.parse l.percentage) p u.lowest h,
        ),
      )
      | inr other ↦ (
        u,
        elim (Entry-cases (lookup l.url m)) [
          | inl unknown ↦ rw (process_line_unknown l m unknown) e
          | inr (inl fresh) ↦ ground (arith, lookup-process_line_fresh l m url)
          | inr (inr (w, known)) ↦ ground (arith, lookup-process_line l m w url)
        ],
        h,
      )
    ]

    process_lines-Covers :
        (ls : List Line) (p : P) (m : UptimeMap P)
        → Covers url p m
        → Covers url p (process_lines floats ls m)
    unfolding process_lines
    process_lines-Covers [] p m c = c
    process_lines-Covers (l ∷ ls) p m c =
        process_lines-Covers ls p (process_line floats l m) (process_line-Covers l p m c)

    -- The line itself.
    line_read-Covers :
        (l : Line) (p : P) (m : UptimeMap P)
        → l.url ≡ url
        → floats.parse l.percentage ≡ some p
        → lookup url m ≢ none
        → Covers url p (process_line floats l m)
    line_read-Covers l p m e h known = elim (Entry-cases (lookup l.url m)) [
      | inl unknown ↦ absurd (known (ap (λ k. lookup k m) (sym e) ∙ unknown))
      | inr (inl fresh) ↦ (
        stored l (fresh_uptimes floats),
        ground (arith, lookup-process_line_fresh l m url, eq_iff l.url url),
        ground (
          arith,
          lowest-update_uptimes l.endpoint (floats.parse l.percentage) (fresh_uptimes floats),
          new_lowest_covers p (fresh_uptimes floats).lowest,
        ),
      )
      | inr (inr (u, there)) ↦ (
        stored l u,
        ground (arith, lookup-process_line l m u url, eq_iff l.url url),
        ground (
          arith,
          lowest-update_uptimes l.endpoint (floats.parse l.percentage) u,
          new_lowest_covers p u.lowest,
        ),
      )
    ]

    known_stays :
        (l : Line) (m : UptimeMap P)
        → lookup url m ≢ none
        → lookup url (process_line floats l m) ≢ none
    known_stays l m known gone = elim (Entry-cases (lookup l.url m)) [
      | inl unknown ↦
          known (subst (λ w. lookup url w ≡ none) (process_line_unknown l m unknown) gone)
      | inr (inl fresh) ↦ ground (arith, lookup-process_line_fresh l m url, known)
      | inr (inr (u, there)) ↦ ground (arith, lookup-process_line l m u url, known)
    ]

    lowest_reads :
        (m : UptimeMap P) (u : EndpointUptimes P)
        → lookup url m ≡ some (some u)
        → get_uptime floats url "LOWEST" m ≡ some u.lowest
    unfolding get_uptime get_endpoint_uptime
    lowest_reads m u e = ground arith

    -- After the lines are read, the lowest uptime of a monitored log is not above any percentage
    -- that was parsed from one of its lines. `<` on percentages is irreflexive and transitive, as
    -- on floats.
    pub lowest_uptime_covers :
        (before rest : List Line) (l : Line) (p : P) (m : UptimeMap P)
        → l.url ≡ url
        → floats.parse l.percentage ≡ some p
        → lookup url m ≢ none
        → (x : P) × (get_uptime floats url "LOWEST" (process_lines floats (before ++ l ∷ rest) m)
            ≡ some x)
          × (floats.below p x ≡ false)
    unfolding process_lines
    lowest_uptime_covers [] rest l p m e h known =
        let (u, there, low) =
          process_lines-Covers rest p (process_line floats l m)
            (line_read-Covers l p m e h known) in
        (u.lowest, lowest_reads (process_lines floats rest (process_line floats l m)) u there, low)
    lowest_uptime_covers (b ∷ bs) rest l p m e h known =
        lowest_uptime_covers bs rest l p (process_line floats b m) e h (known_stays b m known)
