-- ===== src/Catalyst/Revisions.antt =====
-- packages/catalyst/revisions.py: the evidence revisions of each Event.
use dayjaview.Prelude.{
  ℕ, suc, Bool, true, false, ◌&&◌, not, Option, none, some, List, [], ◌∷◌, ◌++◌, String,
  String-discrete, ite, length, get_or, ◌==◌, if◌then◌else◌,
}
use dayjaview.Prelude.Dict.{Dict, get, put}
use dayjaview.Prelude.Exec.{Result, ok, raised, construct}
use dayjaview.Catalyst.Models.{
  EvidenceRevision, EvidenceStatus, searching, single_source, multi_source_confirmed,
  no_new_catalyst, reemergence, after_close_confirmed, check_revision,
}
use dayjaview.Catalyst.Policy.{EvidenceDecision}

abbrev pub RevisionStore : Type 0
RevisionStore = Dict String (List EvidenceRevision)

-- `history`
abbrev pub history : String → RevisionStore → List EvidenceRevision
history event_id store = get_or (get String-discrete event_id store) []

-- `history[-1] if history else None`
unfoldable pub newest : List EvidenceRevision → Option EvidenceRevision
newest [] = none
newest (r ∷ rs) = let rest = newest rs in elim rest [ none ↦ some r | some x ↦ some x ]

-- `current`
abbrev pub current : String → RevisionStore → Option EvidenceRevision
current event_id store = newest (history event_id store)

unfoldable pub status_code : EvidenceStatus → ℕ
status_code searching = 0
status_code single_source = 1
status_code multi_source_confirmed = 2
status_code no_new_catalyst = 3
status_code reemergence = 4
status_code after_close_confirmed = 5

unfoldable pub is_alike : {A : Type 0} → Discrete A → A → A → Bool
is_alike dec a b = ite (dec a b) true false

-- `_unchanged`
unfoldable pub is_unchanged : EvidenceRevision → EvidenceDecision → Bool
unfolding status_code is_alike String-discrete
is_unchanged r d =
    status_code r.evidence_status == status_code d.evidence_status
    && is_alike (hlevel String-discrete) r.summary d.summary
    && is_alike (hlevel String-discrete) r.news_ids d.news_ids
    && is_alike (hlevel String-discrete) r.catalyst_key d.catalyst_key

abbrev pub is_nonempty : List String → Bool
is_nonempty [] = false
is_nonempty (x ∷ xs) = true

-- The time of the last change of the news that the evidence rests on.
unfoldable pub confirmed_at : EvidenceDecision → ℕ → Option EvidenceRevision → Option ℕ
unfolding is_alike String-discrete
confirmed_at d now none = if is_nonempty d.news_ids then some now else none
confirmed_at d now (some previous) =
    if is_nonempty d.news_ids
      && not (is_alike (hlevel String-discrete) previous.news_ids d.news_ids)
    then some now
    else previous.evidence_confirmed_at

abbrev pub revision_of : String → EvidenceDecision → ℕ → List EvidenceRevision → EvidenceRevision
revision_of event_id d now before = record {
  event_id = event_id;
  revision = suc (length before);
  evidence_status = d.evidence_status;
  summary = d.summary;
  news_ids = d.news_ids;
  catalyst_key = d.catalyst_key;
  reason = d.reason;
  policy_version = d.policy_version;
  decided_at = now;
  evidence_confirmed_at = confirmed_at d now (newest before);
}

-- The part of `record` after the test for an unchanged decision: `entries` has the Event's list.
unfoldable pub append_revision :
    String → EvidenceDecision → ℕ → RevisionStore → Result EvidenceRevision × RevisionStore
append_revision event_id d now entries =
    elim (construct check_revision (revision_of event_id d now (history event_id entries))) [
      | raised e ↦ (raised e, entries)
      | ok revision ↦ (
        ok revision,
        put String-discrete event_id (history event_id entries ++ (revision ∷ [])) entries,
      )
    ]

-- `record`
unfoldable pub record_decision :
    String → EvidenceDecision → ℕ → RevisionStore → Result EvidenceRevision × RevisionStore
unfolding newest is_unchanged append_revision
record_decision event_id d now store =
    let entries = put String-discrete event_id (history event_id store) store in
    elim (newest (history event_id entries)) [
      | none ↦ append_revision event_id d now entries
      | some previous ↦
          if is_unchanged previous d
          then (ok previous, entries)
          else append_revision event_id d now entries
    ]
