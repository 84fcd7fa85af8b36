-- ===== src/Submitter/Handler/Planned.antt =====
-- What holds of a request for which Handle has a strategy.
use ctsubmit.Prelude.{
  ℕ, ◌≡◌, refl, sym, ◌∙◌, ap, ◌≤◌, subst, ◌⊎◌, inl, inr, Bool, true, false, List, [], ◌∷◌, some,
  arith, Option-cases, List-cases,
}
use ctsubmit.Pki.FinalTbs.{
  TbsCertificate, Detoxed, detoxed, detox_tbs_certificate_from_precertificate, not_asn1,
  trailing_data, multiple_poisons, no_poison,
}
use ctsubmit.Pki.FinalTbs.Detox.{poisons, others, detox_parsed}
use ctsubmit.Submitter.Types.{SubmissionRequest, needs}
use ctsubmit.Submitter.Request.{BaseLogList, determine_submission_requirements}
use ctsubmit.Submitter.Request.Policy.{determine_submission_requirements_needs}
use ctsubmit.Submitter.SubmitToLog.{EntryType, x509_log_entry, precert_log_entry}
use ctsubmit.Submitter.Handler.{
  Endpoint, add_chain, add_pre_chain, Parsed, ResponseConfig, HandleError, Step, fail, pass, Entry,
  Plan, Services, detox_entry, make_entry, discover_rest, plan_entry, make_plan,
}

pub Step-cases :
    {R S A : Type 0} (s : Step R S A)
    → ((e : HandleError R S) × (s ≡ fail e)) ⊎ ((a : A) × (s ≡ pass a))
Step-cases (fail e) = inl (e, refl)
Step-cases (pass a) = inr (a, refl)

abbrev is_detoxed : {Other : Type 0} → Detoxed Other → Bool
is_detoxed (detoxed t) = true
is_detoxed _ = false

Detoxed-cases :
    {Other : Type 0} (d : Detoxed Other)
    → ((t : TbsCertificate Other) × (d ≡ detoxed t)) ⊎ (is_detoxed d ≡ false)
Detoxed-cases (detoxed t) = inl (t, refl)
Detoxed-cases not_asn1 = inr refl
Detoxed-cases trailing_data = inr refl
Detoxed-cases multiple_poisons = inr refl
Detoxed-cases no_poison = inr refl

abbrev pub takes_precertificates : Endpoint → Bool
takes_precertificates add_chain = false
takes_precertificates add_pre_chain = true

-- The entry is for the type of certificate that the endpoint takes.
abbrev pub entry_type_of : Endpoint → EntryType
entry_type_of add_chain = x509_log_entry
entry_type_of add_pre_chain = precert_log_entry

module _ {Other R S P D : Type 0} (sv : Services Other R S P D) (cfg : ResponseConfig) where
  make_entry-type :
      (endpoint : Endpoint) (cert : Parsed) (entry : Entry Other)
      → make_entry sv cfg endpoint cert ≡ pass entry
      → (cert.is_precertificate ≡ takes_precertificates endpoint)
        × (entry.entry_type ≡ entry_type_of endpoint)
  unfolding make_entry detox_entry
  make_entry-type add_chain cert entry h = ground arith
  make_entry-type add_pre_chain cert entry h = ground arith

  discover_needs :
      (base : BaseLogList) (sr : SubmissionRequest)
      → needs (discover_rest sv cfg base sr) ≡ needs sr
  unfolding discover_rest needs
  discover_needs base sr = ground arith

  plan_entry_lem :
      (sr : SubmissionRequest) (cert : Parsed) (entry : Entry Other) (plan : Plan Other)
      → plan_entry sv cfg sr cert entry ≡ pass plan
      → (plan.cert ≡ cert)
        × (plan.entry ≡ entry)
        × (needs plan.request
            ≡ needs (determine_submission_requirements sv.brand_indicator sr cert.certificate).1)
  unfolding plan_entry
  plan_entry_lem sr cert entry plan h =
      let (base, settled) =
        determine_submission_requirements sv.brand_indicator sr cert.certificate in
      ground (arith, discover_needs base settled)

  -- There is a plan only for a request whose leaf parses, with an entry of that leaf, and with the
  -- numbers that determineSubmissionRequirements settles on.
  pub make_plan_parts :
      (endpoint : Endpoint) (sr : SubmissionRequest) (plan : Plan Other)
      → make_plan sv cfg endpoint sr ≡ pass plan
      → (leaf : List ℕ) × (issuers : List (List ℕ)) × (sr.chain ≡ leaf ∷ issuers)
        × (sv.parse_certificate leaf ≡ some plan.cert)
        × (make_entry sv cfg endpoint plan.cert ≡ pass plan.entry)
        × (needs plan.request
            ≡ needs
                (determine_submission_requirements sv.brand_indicator sr plan.cert.certificate).1)
  unfolding make_plan
  make_plan_parts endpoint sr plan h = elim (List-cases sr.chain) [
    | inl empty ↦ absurd (ground arith)
    | inr (leaf, issuers, chain) ↦ elim (Option-cases (sv.parse_certificate leaf)) [
      | inl bad ↦ absurd (ground arith)
      | inr (cert, parsed) ↦ elim (Step-cases (make_entry sv cfg endpoint cert)) [
        | inl (e, refused) ↦ absurd (ground arith)
        | inr (entry, made) ↦
            let (c, n, settled) = plan_entry_lem sr cert entry plan (ground arith) in
            (leaf, issuers, chain, cc, cc, cc)
      ]
    ]
  ]

  -- A request gets as far as a strategy only if the first certificate of its chain parses and is of
  -- the type that the endpoint takes; it then asks for at least one operator and at least as many
  -- SCTs as operators.
  pub make_plan_endpoint :
      (endpoint : Endpoint) (sr : SubmissionRequest) (plan : Plan Other)
      → make_plan sv cfg endpoint sr ≡ pass plan
      → (leaf : List ℕ) × (issuers : List (List ℕ)) × (sr.chain ≡ leaf ∷ issuers)
        × (sv.parse_certificate leaf ≡ some plan.cert)
        × (plan.cert.is_precertificate ≡ takes_precertificates endpoint)
        × (plan.entry.entry_type ≡ entry_type_of endpoint)
        × (1 ≤ (needs plan.request).operators)
        × ((needs plan.request).operators ≤ (needs plan.request).scts)
  make_plan_endpoint endpoint sr plan h =
      let (leaf, issuers, chain, parsed, made, settled) = make_plan_parts endpoint sr plan h in
      let (type', entry_type) = make_entry-type endpoint plan.cert plan.entry made in
      let (one, le) =
        determine_submission_requirements_needs sv.brand_indicator sr plan.cert.certificate in
      (
        leaf,
        issuers,
        chain,
        parsed,
        type',
        entry_type,
        subst (λ n. 1 ≤ n.operators) (sym settled) one,
        subst (λ n. n.operators ≤ n.scts) (sym settled) le,
      )

  detox_there :
      (cert : Parsed) (entry : Entry Other)
      → make_entry sv cfg add_pre_chain cert ≡ pass entry
      → (t : TbsCertificate Other) × (detox_tbs_certificate_from_precertificate sv.poison
            (sv.unmarshal cert.raw)
          ≡ detoxed t)
        × (entry.entry_type ≡ precert_log_entry)
        × (entry.detoxed_tbs_cert ≡ some t)
  unfolding make_entry detox_entry
  detox_there cert entry h =
      elim (Detoxed-cases
        (detox_tbs_certificate_from_precertificate sv.poison (sv.unmarshal cert.raw))) [
          | inl (t, found) ↦ (t, found, ground arith, ground arith)
          | inr missing ↦ absurd (ground arith)
        ]

  -- The entry of a precertificate: the certificate without its one poison.
  pub make_entry_detoxed :
      (cert : Parsed) (entry : Entry Other)
      → make_entry sv cfg add_pre_chain cert ≡ pass entry
      → (tbs : TbsCertificate Other) × (sv.unmarshal cert.raw ≡ some (tbs, []))
        × (poisons sv.poison tbs.extensions ≡ 1)
        × (entry.entry_type ≡ precert_log_entry)
        × (entry.detoxed_tbs_cert
            ≡ some (record tbs { extensions = others sv.poison tbs.extensions }))
  unfolding make_entry detox_entry
  make_entry_detoxed cert entry h =
      let (t, found, type', there) = detox_there cert entry h in
      let (tbs, parsed, one, clean) = detox_parsed sv.poison (sv.unmarshal cert.raw) t found in
      (tbs, parsed, one, type', there ∙ ap some clean)
