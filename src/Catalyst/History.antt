-- ===== src/Catalyst/History.antt =====
-- What the store of packages/catalyst/revisions.py holds after any decisions.
use dayjaview.Prelude.{
  ℕ, true, false, Option, none, some, [], ◌∷◌, ◌++◌, String, String-discrete, ite, ◌≡◌, refl,
  Bool-cases, inl, inr, arith, ap, subst, sym, ◌∙◌,
}
use dayjaview.Prelude.Dict.{put, get-put}
use dayjaview.Prelude.Exec.{ok, Result}
use dayjaview.Catalyst.Policy.{EvidenceDecision}
use dayjaview.Catalyst.Models.{EvidenceRevision, EvidenceStatus}
use dayjaview.Catalyst.Revisions.{
  status_code, is_unchanged, is_alike, RevisionStore, revision_of, history, current,
  append_revision, record_decision, newest,
}

-- The decision says what the revision says.
abbrev pub Repeats : EvidenceRevision → EvidenceDecision → Type 0
Repeats r d =
    (r.evidence_status ≡ d.evidence_status)
    × (r.summary ≡ d.summary)
    × (r.news_ids ≡ d.news_ids)
    × (r.catalyst_key ≡ d.catalyst_key)

status_code_inj : (a b : EvidenceStatus) → status_code a ≡ status_code b → a ≡ b
unfolding status_code
status_code_inj a b h = ground (arith, h)

is_unchanged-true :
    (r : EvidenceRevision) (d : EvidenceDecision) → is_unchanged r d ≡ true → Repeats r d
unfolding is_unchanged is_alike
is_unchanged-true r d h = ground (arith, status_code_inj r.evidence_status d.evidence_status)

is_unchanged-false :
    (r : EvidenceRevision) (d : EvidenceDecision) → is_unchanged r d ≡ false → ¬ Repeats r d
unfolding is_unchanged is_alike
is_unchanged-false r d h same = ground arith

module _ (event_id : String) (d : EvidenceDecision) (now : ℕ) (store : RevisionStore) where
  abbrev pub new_revision : EvidenceRevision
  new_revision = revision_of event_id d now (history event_id store)

  pub data Recorded (r : Result EvidenceRevision) (after : RevisionStore) : Type 0 where
    keeps :
        (previous : EvidenceRevision)
        → current event_id store ≡ some previous
        → Repeats previous d
        → r ≡ ok previous
        → ((id : String) → history id after ≡ history id store)
        → Recorded r after
    adds :
        ((previous : EvidenceRevision)
          → current event_id store ≡ some previous
          → ¬ Repeats previous d)
        → r ≡ ok new_revision
        → ((id : String)
            → history id after ≡ (
                ite
                  (String-discrete event_id id)
                  (history event_id store ++ (new_revision ∷ []))
                  (history id store)))
        → Recorded r after

  -- `setdefault` changes no history.
  abbrev entries : RevisionStore
  entries = put String-discrete event_id (history event_id store) store

  history-entries : (id : String) → history id entries ≡ history id store
  history-entries id =
      ground (arith, get-put String-discrete event_id id (history event_id store) store)

  append_revision-Recorded :
      ((previous : EvidenceRevision)
        → current event_id store ≡ some previous
        → ¬ Repeats previous d)
      → Recorded
          (append_revision event_id d now entries).0
          (append_revision event_id d now entries).1
  unfolding append_revision
  append_revision-Recorded fresh =
      let same = history-entries event_id in
      adds fresh (ground (arith, same)) (λ id. ground (
        arith,
        same,
        get-put String-discrete event_id id (history event_id store ++ (new_revision ∷ [])) entries,
        history-entries id,
      ))

  -- Recording a decision does one of two. Where the Event's latest revision says the same (status,
  -- summary, news and key), that revision is returned and no history changes. Otherwise a revision
  -- with the next number is returned and appended to the history of its Event, and no other changes.
  pub record_decision-Recorded :
      Recorded (record_decision event_id d now store).0 (record_decision event_id d now store).1
  unfolding record_decision
  record_decision-Recorded = by_newest (current event_id store) refl
    where
      latest : newest (history event_id entries) ≡ current event_id store
      latest = ap newest (history-entries event_id)

      none_some :
          (r : EvidenceRevision)
          → current event_id store ≡ some r
          → current event_id store ≡ none
          → ⊥
      none_some r e found = cc

      some_inj : (a b : EvidenceRevision) → some a ≡ some b → a ≡ b
      some_inj a b e = cc

      by_newest :
          (o : Option EvidenceRevision)
          → current event_id store ≡ o
          → Recorded
              (record_decision event_id d now store).0
              (record_decision event_id d now store).1
      by_newest none found =
          let adds_it : record_decision event_id d now store
              ≡ append_revision event_id d now entries =
            ground (arith, latest, found) in
          subst (λ p. Recorded p.0 p.1) (sym adds_it)
            (append_revision-Recorded (λ previous e. absurd (none_some previous e found)))
      by_newest (some previous) found = elim (Bool-cases (is_unchanged previous d)) [
        | inl unchanged ↦
            let keeps_it : record_decision event_id d now store ≡ (ok previous, entries) =
              ground (arith, latest, found) in
            subst (λ p. Recorded p.0 p.1) (sym keeps_it)
              (keeps previous found (is_unchanged-true previous d unchanged) refl history-entries)
        | inr changed ↦
            let adds_it : record_decision event_id d now store
                ≡ append_revision event_id d now entries =
              ground (arith, latest, found) in
            subst (λ p. Recorded p.0 p.1) (sym adds_it)
              (append_revision-Recorded (λ r e.
                subst (λ x. ¬ Repeats x d) (some_inj previous r (sym found ∙ e))
                  (is_unchanged-false previous d changed)))
      ]
