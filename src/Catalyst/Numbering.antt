-- ===== src/Catalyst/Numbering.antt =====
-- The histories of packages/catalyst/revisions.py after any sequence of decisions.
use dayjaview.Prelude.{
  ℕ, suc, List, [], ◌∷◌, ◌++◌, Option, none, some, String, String-discrete, ite, length, ◌≡◌, refl,
  arith, ◌+◌, subst, sym, ◌∙◌,
}
use dayjaview.Catalyst.Models.{EvidenceRevision}
use dayjaview.Catalyst.Policy.{EvidenceDecision}
use dayjaview.Catalyst.Revisions.{RevisionStore, history, newest, record_decision}
use dayjaview.Catalyst.History.{
  Recorded, keeps, adds, Repeats, record_decision-Recorded, new_revision,
}
use dayjaview.Prelude.Exec.{Result}
use dayjaview.Prelude.Dict.{get}

-- A decision for an Event at a time.
pub record Ruling : Type 0 where
  pub event : String
  pub decision : EvidenceDecision
  pub time : ℕ

unfoldable pub record_all : List Ruling → RevisionStore → RevisionStore
record_all [] store = store
record_all (x ∷ xs) store = record_all xs (record_decision x.event x.decision x.time store).1

-- A revision says something else than the one before it.
abbrev pub Differs : Option EvidenceRevision → EvidenceRevision → Type 0
Differs none r = Unit
Differs (some p) r = ¬ (
    (p.evidence_status ≡ r.evidence_status)
    × (p.summary ≡ r.summary)
    × (p.news_ids ≡ r.news_ids)
    × (p.catalyst_key ≡ r.catalyst_key))

-- The revisions are the Event's own, are numbered on from `n`, and each says something new.
abbrev pub IsHistory : String → ℕ → Option EvidenceRevision → List EvidenceRevision → Type 0
IsHistory event_id n before [] = Unit
IsHistory event_id n before (r ∷ rs) =
    (r.event_id ≡ event_id)
    × (r.revision ≡ n)
    × Differs before r
    × IsHistory event_id (suc n) (some r) rs

-- The newest of a list that follows `before`.
abbrev newest_after : Option EvidenceRevision → List EvidenceRevision → Option EvidenceRevision
newest_after before [] = before
newest_after before (r ∷ rs) = newest_after (some r) rs

newest_after-newest :
    (before : Option EvidenceRevision) (rs : List EvidenceRevision)
    → newest_after before rs ≡ (elim (newest rs) [ none ↦ before | some x ↦ some x ])
unfolding newest
newest_after-newest before [] = refl
newest_after-newest before (r ∷ rs) = ground (arith, newest_after-newest (some r) rs)

append-IsHistory :
    (event_id : String) (n : ℕ) (before : Option EvidenceRevision) (rs : List EvidenceRevision)
    (r : EvidenceRevision)
    → IsHistory event_id n before rs
    → r.event_id ≡ event_id
    → r.revision ≡ length rs + n
    → Differs (newest_after before rs) r
    → IsHistory event_id n before (rs ++ (r ∷ []))
append-IsHistory event_id n before [] r h own number new = (own, omega (arith, number), new, tt)
append-IsHistory event_id n before (x ∷ rs) r h own number new = (
  h.0,
  h.1,
  h.2,
  append-IsHistory event_id (suc n) (some x) rs r h.3 own (omega (arith, number)) new,
)

module _ (event_id : String) (d : EvidenceDecision) (now : ℕ) (store : RevisionStore)
    (sound : (id : String) → IsHistory id 1 none (history id store)) where
  new_revision-Differs :
      (o : Option EvidenceRevision)
      → ((previous : EvidenceRevision) → o ≡ some previous → ¬ Repeats previous d)
      → Differs o (new_revision event_id d now store)
  new_revision-Differs none fresh = tt
  new_revision-Differs (some p) fresh = fresh p refl

  newest_differs : (rs : List EvidenceRevision) → newest_after none rs ≡ newest rs
  newest_differs rs = newest_after-newest none rs ∙ same (newest rs)
    where
      same : (o : Option EvidenceRevision) → (elim o [ none ↦ none | some x ↦ some x ]) ≡ o
      same none = refl
      same (some x) = refl

  Recorded-IsHistory :
      (r : Result EvidenceRevision) (after : RevisionStore)
      → Recorded event_id d now store r after
      → (id : String) → IsHistory id 1 none (history id after)
  Recorded-IsHistory r after (keeps previous _ _ _ same) id =
      subst (λ h. IsHistory id 1 none h) (sym (same id)) (sound id)
  Recorded-IsHistory r after (adds fresh _ grown) id =
      subst (λ h. IsHistory id 1 none h) (sym (grown id))
        (elim (String-discrete event_id id)
          as (λ x. IsHistory id 1 none (
            ite x (history event_id store ++ (new_revision event_id d now store ∷ []))
              (history id store))) [
                | yes same ↦
                    subst
                      (λ i.
                        IsHistory i 1 none
                          (history event_id store ++ (new_revision event_id d now store ∷ [])))
                      same
                      (append-IsHistory event_id 1 none (history event_id store)
                        (new_revision event_id d now store) (sound event_id) refl (omega arith)
                        (subst (λ o. Differs o (new_revision event_id d now store))
                          (sym (newest_differs (history event_id store)))
                          (new_revision-Differs (newest (history event_id store)) fresh)))
                | no other ↦ sound id
              ])

record_all-IsHistory_from :
    (xs : List Ruling) (store : RevisionStore)
    → ((id : String) → IsHistory id 1 none (history id store))
    → (id : String) → IsHistory id 1 none (history id (record_all xs store))
unfolding record_all
record_all-IsHistory_from [] store sound = sound
record_all-IsHistory_from (x ∷ xs) store sound = record_all-IsHistory_from xs _ (
    Recorded-IsHistory x.event x.decision x.time store sound _ _
      (record_decision-Recorded x.event x.decision x.time store))

-- Whatever decisions are recorded in a new store, in any order: the history of an Event holds its own
-- revisions, numbered from 1 without a gap, and each differs from the one before it in its
-- status, its summary, its news or its key.
pub record_all-IsHistory :
    (xs : List Ruling) (id : String) → IsHistory id 1 none (history id (record_all xs []))
unfolding get
record_all-IsHistory xs = record_all-IsHistory_from xs [] (λ id. tt)
