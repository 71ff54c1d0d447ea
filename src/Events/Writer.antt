-- ===== src/Events/Writer.antt =====
-- packages/events/writer.py: the writer of canonical Events.
pub mod Effects
pub mod Commit
pub mod Reachable
pub mod Preservation
pub mod History
pub mod WellFormed
pub mod Atomic
pub mod Replay
pub mod Changes
unfoldable pub use Changes.*
use dayjaview.Prelude.{
  ℕ, ◌+◌, Bool, true, false, Option, none, some, List, [], ◌∷◌, String, String-discrete, ite, leb,
  ltb, if◌then◌else◌,
}
use dayjaview.Prelude.Exec.{
  Result, ok, raised, event_not_found, idempotency_conflict, concurrent_event_write, construct,
  Exec, pure, raise, lift, ◌>>=◌, ◌>>◌,
}
use dayjaview.Domain.State.{
  candidate, lifecycle_value, LifecycleStatus-discrete, transition_lifecycle, ReconciliationStatus,
  matched, unmatched, reconciliation_value, ReconciliationStatus-discrete,
  transition_reconciliation, lifecycle, reconciliation,
}
use dayjaview.Events.Models.{
  EventInputMetadata, EventClassification, check_classification, confirmed, infostock,
  CanonicalEvent, check_event, CreateEventCommand, TransitionLifecycleCommand,
  ReconcileEventCommand, EventCommand, create_event, transition_event, reconcile_event, metadata_of,
  EventWriteDisposition, applied, duplicate_identity, already_in_state, stale_source_sequence,
  stale_state_version, stale_occurred_at, EventWriteResult, CommandReceipt, on_lifecycle,
  on_reconciliation, EventStateLog, Digests,
}
use dayjaview.Events.Outbox.{PayloadValue, text, number, versions, OutboxMessage, check_message}
use dayjaview.Events.Store.{
  EventStore, transaction, get_receipt, get_event, get_event_by_identity, latest_source_sequence,
  insert_event, update_event, append_state_log, save_receipt, enqueue_outbox,
}

module _ (d : Digests) where
  -- `_event_message`
  unfoldable pub event_message :
      CanonicalEvent
      → EventInputMetadata
      → String
      → List (String × PayloadValue)
      → Result OutboxMessage
  event_message event metadata event_type payload = construct check_message (record {
    message_id = d.outbox_message_id metadata.message_id event_type;
    event_type = event_type;
    event_version = "1";
    aggregate_id = event.event_id;
    occurred_at = metadata.occurred_at;
    received_at = metadata.received_at;
    producer = "dayjaview.events";
    correlation_id = metadata.correlation_id;
    causation_id = metadata.causation_id;
    payload = payload;
  })

  -- Enqueues the message, and reports the change.
  unfoldable pub announce :
      CanonicalEvent
      → EventInputMetadata
      → String
      → List (String × PayloadValue)
      → Exec EventStore EventWriteResult
  unfolding event_message enqueue_outbox
  announce event metadata event_type payload = do
    message ← lift (event_message event metadata event_type payload)
    enqueue_outbox message
    pure (record {
      event = event;
      disposition = applied;
      outbox_message_id = some message.message_id;
    })

  abbrev pub first_classification : CreateEventCommand → EventClassification
  first_classification c = record {
    classification_version = 1;
    theme_id = c.identity.canonical_theme_id;
    display_name = c.display_name;
    kind = c.classification_kind;
    certainty = c.classification_certainty;
    source = c.classification_source;
    changed_at = c.metadata.occurred_at;
  }

  abbrev pub first_event : CreateEventCommand → CanonicalEvent
  first_event c = record {
    event_id = d.event_id c.identity;
    identity_key = d.identity_key c.identity;
    market_date = c.identity.market_date;
    canonical_theme_id = c.identity.canonical_theme_id;
    catalyst_key = c.identity.catalyst_key;
    lifecycle_status = candidate;
    reconciliation_status = ReconciliationStatus.pending;
    state_version = 1;
    state_policy_version = c.versions.ranking_model_version;
    classification = first_classification c;
    first_detected_at = c.metadata.occurred_at;
    changed_at = c.metadata.occurred_at;
    last_source = c.metadata.source;
    last_source_sequence = c.metadata.source_sequence;
    last_received_at = c.metadata.received_at;
    lineage = c.metadata.lineage;
    versions = c.versions;
  }

  abbrev pub first_log : CreateEventCommand → CanonicalEvent → EventStateLog
  first_log c event = record {
    event_id = event.event_id;
    state_version = event.state_version;
    from_status = none;
    to_status = on_lifecycle candidate;
    policy_version = event.state_policy_version;
    reason = "최초 후보 탐지";
    occurred_at = c.metadata.occurred_at;
    received_at = c.metadata.received_at;
    source = c.metadata.source;
    source_sequence = c.metadata.source_sequence;
    command_message_id = c.metadata.message_id;
    lineage = c.metadata.lineage;
    axis = lifecycle;
  }

  -- `_create`, where no Event has the identity
  unfoldable pub create_new : CreateEventCommand → Exec EventStore EventWriteResult
  unfolding insert_event append_state_log announce
  create_new c = do
    classification ← lift (construct check_classification (first_classification c))
    event ←
        lift (construct check_event (record (first_event c) { classification = classification }))
    insert_event event
    append_state_log (first_log c event)
    announce event c.metadata "canonical_event.created" (
        ("eventId", text event.event_id)
        ∷ ("lifecycleStatus", text (lifecycle_value event.lifecycle_status))
        ∷ ("stateVersion", number event.state_version)
        ∷ ("classificationVersion", number event.classification.classification_version)
        ∷ ("versions", versions event.versions)
        ∷ [])

  -- `_create`
  unfoldable pub create : CreateEventCommand → Exec EventStore EventWriteResult
  unfolding get_event_by_identity create_new
  create c = do
    existing ← get_event_by_identity (d.identity_key c.identity)
    elim existing [ some event ↦ pure (unchanged event duplicate_identity) | none ↦ create_new c ]

  -- Writes the new state of an Event, its log and its message.
  unfoldable pub commit_change :
      CanonicalEvent
      → EventStateLog
      → EventInputMetadata
      → String
      → List (String × PayloadValue)
      → ℕ
      → Exec EventStore EventWriteResult
  unfolding update_event append_state_log announce
  commit_change updated log metadata event_type payload expected = do
    update_event updated expected
    append_state_log log
    announce updated metadata event_type payload

  -- `_transition`, where the guards let the command through
  unfoldable pub transition_passed :
      TransitionLifecycleCommand → CanonicalEvent → Exec EventStore EventWriteResult
  unfolding commit_change
  transition_passed c event = do
    _ ← lift (transition_lifecycle event.lifecycle_status c.target c.policy_version)
    updated ← lift (construct check_event (moved event c))
    commit_change updated (lifecycle_log c event updated) c.metadata
        "canonical_event.lifecycle_changed" (lifecycle_payload c event updated) event.state_version

  -- `_transition`
  unfoldable pub transition : TransitionLifecycleCommand → Exec EventStore EventWriteResult
  unfolding get_event latest_source_sequence transition_passed
  transition c = do
    found ← get_event c.event_id
    elim found [
      | none ↦ raise event_not_found
      | some event ↦ do
        latest ← latest_source_sequence event.event_id c.metadata.source
        verdict ← lift (
            judge latest c.metadata c.expected_state_version
              (ite (LifecycleStatus-discrete c.target event.lifecycle_status) true false) event)
        elim verdict [
          | some disposition ↦ pure (unchanged event disposition)
          | none ↦ transition_passed c event
        ]
    ]

  -- `_reconcile`, where the guards let the command through
  unfoldable pub reconcile_passed :
      ReconcileEventCommand → CanonicalEvent → Exec EventStore EventWriteResult
  unfolding commit_change
  reconcile_passed c event = do
    _ ← lift (transition_reconciliation event.reconciliation_status c.target c.policy_version)
    classification ← lift (
        construct check_classification
          (reclassify c.target c.metadata.occurred_at event.classification))
    updated ← lift (construct check_event (reconciled event c classification))
    commit_change updated (reconciliation_log c event updated) c.metadata
        "canonical_event.reconciled" (reconciliation_payload c event updated) event.state_version

  -- `_reconcile`
  unfoldable pub reconcile : ReconcileEventCommand → Exec EventStore EventWriteResult
  unfolding get_event latest_source_sequence reconcile_passed
  reconcile c = do
    found ← get_event c.event_id
    elim found [
      | none ↦ raise event_not_found
      | some event ↦ do
        latest ← latest_source_sequence event.event_id c.metadata.source
        verdict ← lift (
            judge latest c.metadata c.expected_state_version
              (ite (ReconciliationStatus-discrete c.target event.reconciliation_status) true false)
              event)
        elim verdict [
          | some disposition ↦ pure (unchanged event disposition)
          | none ↦ reconcile_passed c event
        ]
    ]

  -- The branches on the class of the command.
  unfoldable pub dispatch : EventCommand → Exec EventStore EventWriteResult
  dispatch (create_event c) = create c
  dispatch (transition_event c) = transition c
  dispatch (reconcile_event c) = reconcile c

  abbrev pub receipt_of : EventCommand → EventWriteResult → CommandReceipt
  receipt_of command result = record {
    message_id = (metadata_of command).message_id;
    command_fingerprint = d.command_fingerprint command;
    event_id = result.event.event_id;
    source = (metadata_of command).source;
    source_sequence = (metadata_of command).source_sequence;
    received_at = (metadata_of command).received_at;
    result = result;
  }

  -- What `write` does with a command that no receipt answers.
  unfoldable pub carry_out : EventCommand → Exec EventStore EventWriteResult
  unfolding dispatch save_receipt
  carry_out command = do
    result ← dispatch command
    save_receipt (receipt_of command result)
    pure result

  -- The body of the transaction in `write`.
  unfoldable pub write_body : EventCommand → Exec EventStore EventWriteResult
  unfolding get_receipt carry_out
  write_body command = do
    receipt ← get_receipt (metadata_of command).message_id
    elim receipt [
      | some old ↦
          ite (String-discrete old.command_fingerprint (d.command_fingerprint command))
            (pure old.result) (raise idempotency_conflict)
      | none ↦ carry_out command
    ]

  -- `EventWriter.write`
  unfoldable pub write : EventCommand → Exec EventStore EventWriteResult
  unfolding transaction write_body
  write command = transaction (write_body command)
