-- ===== src/Monitor/Init/Fresh.antt =====
-- Uptimes of an earlier fetch do not stay.
use ctsubmit.Prelude.{
  ◌≡◌, refl, ◌∙◌, sym, ap, String, true, List, [], ◌∷◌, Option, none, some, ◌==◌, string_eq, nat_eq,
  lookup, lookup-store, store, contains, arith, if◌then◌else◌, inl, inr,
}
use text.Mathlib.TextEquality.{eq_iff}
use ctsubmit.Submitter.LogList.{Operator}
use ctsubmit.Monitor.Uptime.{
  EndpointUptimes, UptimeMap, Line, Floats, fresh_uptimes, process_line, process_lines,
}
use ctsubmit.Monitor.Uptime.Lowest.{
  Entry-cases, stored, lookup-process_line, lookup-process_line_fresh, process_line_unknown,
}
use ctsubmit.Monitor.Init.{
  submission_urls, clear, initialize_uptime_map, read_records, CsvReply, updated,
  fetch_endpoint_uptimes,
}

module _ {P : Type 0} (floats : Floats P) (url : String) where
  -- What a line makes of its log's entry.
  abbrev entry_after :
      Line → Option (Option (EndpointUptimes P)) → Option (Option (EndpointUptimes P))
  entry_after l none = none
  entry_after l (some none) = some (some (stored floats l (fresh_uptimes floats)))
  entry_after l (some (some u)) = some (some (stored floats l u))

  lookup_line :
      (l : Line) (m : UptimeMap P)
      → lookup url (process_line floats l m)
        ≡ (if l.url == url then entry_after l (lookup url m) else lookup url m)
  lookup_line l m = elim (Entry-cases floats (lookup l.url m)) [
    | inl unknown ↦ ground (arith, process_line_unknown floats l m unknown, eq_iff l.url url)
    | inr (inl fresh) ↦
        ground (arith, lookup-process_line_fresh floats l m url fresh, eq_iff l.url url)
    | inr (inr (u, known)) ↦
        ground (arith, lookup-process_line floats l m u url known, eq_iff l.url url)
  ]

  lines_agree :
      (ls : List Line) (m m' : UptimeMap P)
      → lookup url m ≡ lookup url m'
      → lookup url (process_lines floats ls m) ≡ lookup url (process_lines floats ls m')
  unfolding process_lines
  lines_agree [] m m' e = e
  lines_agree (l ∷ ls) m m' e =
      lines_agree ls (process_line floats l m) (process_line floats l m') (
        lookup_line l m
        ∙ ap (λ o. if l.url == url then entry_after l o else o) e
        ∙ sym (lookup_line l m'))

  lookup-clear :
      (urls : List String) (m : UptimeMap P)
      → lookup url (clear urls m) ≡ (if contains urls url then some none else lookup url m)
  unfolding clear contains
  lookup-clear [] m = refl
  lookup-clear (u ∷ urls) m = ground (
    arith,
    lookup-clear urls (store u none m),
    lookup-store u url none m,
    eq_iff u url,
    eq_iff url u,
  )

module _ {P : Type 0} (floats : Floats P) (join : String → String) (ops : List Operator)
    (url : String) where
  cleared :
      (m : UptimeMap P)
      → contains (submission_urls join ops) url ≡ true
      → lookup url (initialize_uptime_map join ops m) ≡ some none
  unfolding initialize_uptime_map
  cleared m known = ground (arith, lookup-clear floats url (submission_urls join ops) m)

  read_records_fresh :
      (records : List Line) (m m' n n' : UptimeMap P)
      → read_records floats join ops records m ≡ updated n
      → read_records floats join ops records m' ≡ updated n'
      → contains (submission_urls join ops) url ≡ true
      → lookup url n ≡ lookup url n'
  unfolding read_records
  read_records_fresh [] m m' n n' p p' known = absurd (ground arith)
  read_records_fresh (header ∷ lines) m m' n n' p p' known = ground (
    arith,
    lines_agree floats url lines (initialize_uptime_map join ops m)
        (initialize_uptime_map join ops m') (cleared m known ∙ sym (cleared m' known)),
  )

  -- After a fetch that has succeeded, the uptimes of a monitored log come from the fetched file alone:
  -- they are the same whatever was in the map before.
  pub fetch_endpoint_uptimes_fresh :
      (reply : CsvReply) (m m' n n' : UptimeMap P)
      → fetch_endpoint_uptimes floats join ops reply m ≡ updated n
      → fetch_endpoint_uptimes floats join ops reply m' ≡ updated n'
      → contains (submission_urls join ops) url ≡ true
      → lookup url n ≡ lookup url n'
  unfolding fetch_endpoint_uptimes
  fetch_endpoint_uptimes_fresh none m m' n n' p p' known = absurd (ground arith)
  fetch_endpoint_uptimes_fresh (some (status, none)) m m' n n' p p' known = absurd (ground arith)
  fetch_endpoint_uptimes_fresh (some (status, some records)) m m' n n' p p' known =
      read_records_fresh records m m' n n' (ground arith) (ground arith) known
