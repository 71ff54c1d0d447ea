-- ===== src/Catalyst/Strength.antt =====
-- How strong the decisions of packages/catalyst/policy.py are, and on what they rest.
use dayjaview.Prelude.{
  ℕ, ◌≤◌, ◌+◌, Bool, false, Option, none, some, List, [], ◌∷◌, String-discrete, ◌≡◌, ◌↔◌, refl,
  arith, Bool-cases, inl, ◌⊎◌, inr, leb, ltb,
}
use dayjaview.Prelude.Unique.{TwoDiffer, unique_differ, differ_unique}
use dayjaview.Catalyst.Models.{
  ThemeContext, CatalystEvidence, EvidenceRevision, TextTools, searching, multi_source_confirmed,
  no_new_catalyst,
}
use dayjaview.Catalyst.Policy.{
  decide, strength, without_evidence, without_previous, status_of, publisher_names, title_names,
  EvidenceDecision, count_distinct,
}

abbrev pub previous_strength : Option EvidenceRevision → ℕ
previous_strength none = 0
previous_strength (some r) = strength r.evidence_status

-- The decision says what the revision said.
abbrev pub Maintains : Option EvidenceRevision → EvidenceDecision → Type 0
Maintains none d = ⊥
Maintains (some r) d =
    (d.evidence_status ≡ r.evidence_status)
    × (d.summary ≡ r.summary)
    × (d.news_ids ≡ r.news_ids)
    × (d.catalyst_key ≡ r.catalyst_key)

-- No evidence is claimed, and its absence only where the sources are healthy and the time is up.
abbrev pub ClaimsNothing : ThemeContext → ℕ → Bool → ℕ → EvidenceDecision → Type 0
ClaimsNothing context now degraded after d =
    (d.summary ≡ none)
    × (d.news_ids ≡ [])
    × (d.catalyst_key ≡ none)
    × ((d.evidence_status ≡ searching)
        ⊎ (d.evidence_status ≡ no_new_catalyst)
          × (degraded ≡ false)
          × (context.activated_at + after ≤ now))

module _ (tools : TextTools) (context : ThemeContext) (now : ℕ) (degraded : Bool) (after : ℕ) where
  without_previous-ClaimsNothing :
      ClaimsNothing context now degraded after (without_previous context now degraded after)
      × (strength (without_previous context now degraded after).evidence_status ≡ 0)
  unfolding without_previous
  without_previous-ClaimsNothing = elim (Bool-cases degraded) [
    | inl sick ↦ rw (sick, without_previous) ((refl, refl, refl, inl refl), refl)
    | inr healthy ↦ elim (Bool-cases (leb (context.activated_at + after) now)) [
      | inl over ↦
          rw (healthy, over, without_previous)
            ((refl, refl, refl, inr (refl, refl, ground arith)), refl)
      | inr early ↦ rw (healthy, early, without_previous) ((refl, refl, refl, inl refl), refl)
    ]
  ]

  -- Without evidence and without an after-close summary, the decision is just as strong as the previous revision (0 where
  -- there is none). It either repeats the previous revision's status, summary, news and key, or claims nothing; and it says that
  -- there is no catalyst only where the sources are not degraded and the time since the activation is up.
  pub decide-strength :
      (previous : Option EvidenceRevision)
      → (strength (decide tools context [] now previous degraded none after).evidence_status
          ≡ previous_strength previous)
        × (Maintains previous (decide tools context [] now previous degraded none after)
            ⊎ ClaimsNothing context now degraded after
                (decide tools context [] now previous degraded none after))
  unfolding decide without_evidence
  decide-strength none = (without_previous-ClaimsNothing.1, inr without_previous-ClaimsNothing.0)
  decide-strength (some r) = elim (Bool-cases (ltb 0 (strength r.evidence_status))) [
    | inl strong ↦ rw (strong, decide, without_evidence) (refl, inl (refl, refl, refl, refl))
    | inr weak ↦
        rw (weak, decide, without_evidence)
          (
            omega (arith, without_previous-ClaimsNothing.1, weakest r weak),
            inr without_previous-ClaimsNothing.0,
          )
  ]
    where
      weakest :
          (r : EvidenceRevision)
          → ltb 0 (strength r.evidence_status) ≡ false
          → strength r.evidence_status ≡ 0
      weakest r weak = ground arith

  -- With evidence and without an after-close summary, the status is that of several confirmed sources just where two of the
  -- evidence's publishers differ and two of its titles differ, as they are compared: blank ones
  -- left out, in one case, without outer spaces, and with single spaces in the titles.
  pub decide-multi_source :
      (previous : Option EvidenceRevision) (e : CatalystEvidence) (es : List CatalystEvidence)
      → ((decide tools context (e ∷ es) now previous degraded none after).evidence_status
          ≡ multi_source_confirmed)
        ↔ (TwoDiffer String-discrete (publisher_names tools (e ∷ es))
            × TwoDiffer String-discrete (title_names tools (e ∷ es)))
  unfolding decide status_of
  decide-multi_source previous e es = (
    λ confirmed.
        let counts = two_counts confirmed in
        (
          unique_differ String-discrete (publisher_names tools (e ∷ es)) counts.0,
          unique_differ String-discrete (title_names tools (e ∷ es)) counts.1,
        ),
    λ (publishers, titles). ground (
      arith,
      differ_unique String-discrete (publisher_names tools (e ∷ es)) publishers,
      differ_unique String-discrete (title_names tools (e ∷ es)) titles,
    ),
  )
    where
      two_counts :
          (decide tools context (e ∷ es) now previous degraded none after).evidence_status
            ≡ multi_source_confirmed
          → (2 ≤ count_distinct tools (publisher_names tools (e ∷ es)))
            × (2 ≤ count_distinct tools (title_names tools (e ∷ es)))
      two_counts confirmed = ground arith
