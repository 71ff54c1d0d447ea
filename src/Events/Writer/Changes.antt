-- ===== src/Events/Writer/Changes.antt =====
-- The decisions and the new values of packages/events/writer.py: what `_transition` and `_reconcile`
-- share, and what they write into an Event, its log and its message.
use dayjaview.Prelude.{
  ℕ, ◌+◌, Bool, false, Option, none, some, List, [], ◌∷◌, String, leb, ltb, if◌then◌else◌,
}
use dayjaview.Prelude.Exec.{Result, ok, raised, concurrent_event_write}
use dayjaview.Domain.State.{
  lifecycle_value, ReconciliationStatus, matched, unmatched, reconciliation_value, lifecycle,
  reconciliation,
}
use dayjaview.Events.Models.{
  EventInputMetadata, EventClassification, confirmed, infostock, CanonicalEvent,
  TransitionLifecycleCommand, ReconcileEventCommand, EventWriteDisposition, already_in_state,
  stale_source_sequence, stale_state_version, stale_occurred_at, EventWriteResult, on_lifecycle,
  on_reconciliation, EventStateLog,
}
use dayjaview.Events.Outbox.{PayloadValue, text, number}

-- A result that changed nothing.
abbrev pub unchanged : CanonicalEvent → EventWriteDisposition → EventWriteResult
unchanged event disposition = record {
  event = event;
  disposition = disposition;
  outbox_message_id = none;
}

-- The guards that `_transition` and `_reconcile` share: the disposition of a command that is not to
-- be carried out, if it is not.
unfoldable pub judge :
    Option ℕ
    → EventInputMetadata
    → ℕ
    → Bool
    → CanonicalEvent
    → Result (Option EventWriteDisposition)
judge latest metadata expected already event =
    if (elim latest [ none ↦ false | some n ↦ leb metadata.source_sequence n ])
    then ok (some stale_source_sequence)
    else if ltb expected event.state_version
    then ok (some stale_state_version)
    else if ltb event.state_version expected
    then raised concurrent_event_write
    else if ltb metadata.occurred_at event.changed_at
    then ok (some stale_occurred_at)
    else if already
    then ok (some already_in_state)
    else ok none

-- The fields that every change of an Event replaces.
abbrev pub revised : CanonicalEvent → EventInputMetadata → String → CanonicalEvent
revised event metadata policy_version = record event {
  state_version = event.state_version + 1;
  state_policy_version = policy_version;
  changed_at = metadata.occurred_at;
  last_source = metadata.source;
  last_source_sequence = metadata.source_sequence;
  last_received_at = metadata.received_at;
  lineage = metadata.lineage;
}

-- A MATCHED Event is confirmed by Infostock; any other keeps its classification.
unfoldable pub reclassify : ReconciliationStatus → ℕ → EventClassification → EventClassification
reclassify ReconciliationStatus.pending at c = c
reclassify matched at c = record c {
  classification_version = c.classification_version + 1;
  certainty = confirmed;
  source = infostock;
  changed_at = at;
}
reclassify unmatched at c = c

abbrev pub moved : CanonicalEvent → TransitionLifecycleCommand → CanonicalEvent
moved event c = record (revised event c.metadata c.policy_version) { lifecycle_status = c.target }

abbrev pub reconciled :
    CanonicalEvent → ReconcileEventCommand → EventClassification → CanonicalEvent
reconciled event c classification = record (revised event c.metadata c.policy_version) {
  reconciliation_status = c.target;
  classification = classification;
}

abbrev pub lifecycle_log :
    TransitionLifecycleCommand → CanonicalEvent → CanonicalEvent → EventStateLog
lifecycle_log c event updated = record {
  event_id = updated.event_id;
  state_version = updated.state_version;
  from_status = some (on_lifecycle event.lifecycle_status);
  to_status = on_lifecycle updated.lifecycle_status;
  policy_version = c.policy_version;
  reason = c.reason;
  occurred_at = c.metadata.occurred_at;
  received_at = c.metadata.received_at;
  source = c.metadata.source;
  source_sequence = c.metadata.source_sequence;
  command_message_id = c.metadata.message_id;
  lineage = c.metadata.lineage;
  axis = lifecycle;
}

abbrev pub reconciliation_log :
    ReconcileEventCommand → CanonicalEvent → CanonicalEvent → EventStateLog
reconciliation_log c event updated = record {
  event_id = updated.event_id;
  state_version = updated.state_version;
  from_status = some (on_reconciliation event.reconciliation_status);
  to_status = on_reconciliation c.target;
  policy_version = c.policy_version;
  reason = c.reason;
  occurred_at = c.metadata.occurred_at;
  received_at = c.metadata.received_at;
  source = c.metadata.source;
  source_sequence = c.metadata.source_sequence;
  command_message_id = c.metadata.message_id;
  lineage = c.metadata.lineage;
  axis = reconciliation;
}

abbrev pub lifecycle_payload :
    TransitionLifecycleCommand → CanonicalEvent → CanonicalEvent → List (String × PayloadValue)
lifecycle_payload c event updated =
    ("eventId", text updated.event_id)
    ∷ ("fromLifecycleStatus", text (lifecycle_value event.lifecycle_status))
    ∷ ("lifecycleStatus", text (lifecycle_value updated.lifecycle_status))
    ∷ ("stateVersion", number updated.state_version)
    ∷ ("policyVersion", text c.policy_version)
    ∷ ("reason", text c.reason)
    ∷ []

abbrev pub reconciliation_payload :
    ReconcileEventCommand → CanonicalEvent → CanonicalEvent → List (String × PayloadValue)
reconciliation_payload c event updated =
    ("eventId", text updated.event_id)
    ∷ ("fromReconciliationStatus", text (reconciliation_value event.reconciliation_status))
    ∷ ("reconciliationStatus", text (reconciliation_value updated.reconciliation_status))
    ∷ ("stateVersion", number updated.state_version)
    ∷ ("classificationVersion", number updated.classification.classification_version)
    ∷ ("policyVersion", text c.policy_version)
    ∷ ("reason", text c.reason)
    ∷ []
