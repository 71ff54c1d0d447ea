-- ===== src/Tests/Events.antt =====
-- packages/events/writer.py at concrete inputs.
use dayjaview.Prelude.{
  ◌⊎◌, true, ℕ, ◌≡◌, refl, ite, false, Option, none, some, List, [], ◌∷◌, String, String-discrete,
  is_blank, ◌+◌, take_text,
}
use dayjaview.Prelude.Dict.{get, put}
use dayjaview.Prelude.Exec.{
  simulated_commit_failure, ok, raised, event_not_found, idempotency_conflict,
}
use dayjaview.Domain.State.{
  LifecycleStatus-discrete, ReconciliationStatus-discrete, transition_lifecycle,
  transition_reconciliation, active, matched,
}
use dayjaview.Events.Models.{
  CanonicalEvent, EventInputMetadata, CreateEventCommand, TransitionLifecycleCommand,
  ReconcileEventCommand, EventCommand, create_event, transition_event, reconcile_event, metadata_of,
  EventWriteResult, applied, Digests, provisional, live_engine, infostock_theme, check_event,
  check_classification,
}
use dayjaview.Events.Digest.{
  Hashing, digests_of, identity_key, event_id, command_fingerprint, outbox_message_id,
}
use dayjaview.Events.Outbox.{check_message}
use dayjaview.Events.Store.{SourceKey-discrete, EventStore, empty_store, has_log}
use dayjaview.Events.Writer.{create, transition, reconcile, judge, reclassify, write, first_event}
use dayjaview.Events.Writer.Atomic.{write_atomic}
use dayjaview.Events.Writer.Replay.{write_all, write_once}
use dayjaview.Events.Writer.WellFormed.{IsWellFormed}
use dayjaview.Events.Writer.Reachable.{write_all-IsWellFormed}

-- A digest that keeps the text.
abbrev hashing : Hashing
hashing = record {
  sha256 = λ text. text;
  identity_json = λ i. i.catalyst_key;
  command_json = λ c. (metadata_of c).correlation_id;
}

abbrev digests : Digests
digests = digests_of hashing

abbrev metadata : String → ℕ → EventInputMetadata
metadata id n = record {
  message_id = id;
  source = "engine";
  source_sequence = n;
  occurred_at = n;
  received_at = n + 5;
  correlation_id = id;
  causation_id = none;
  lineage = [];
}

abbrev creation : CreateEventCommand
creation = record {
  metadata = metadata "m-1" 1;
  identity = record {
    market_date = 20_000;
    canonical_theme_id = "theme-1";
    catalyst_key = "catalyst-1";
  };
  display_name = "2차전지";
  versions = record {
    calculation_version = "c1";
    ranking_model_version = "r1";
    membership_version = "m1";
    baseline_version = none;
  };
  classification_kind = infostock_theme;
  classification_certainty = provisional;
  classification_source = live_engine;
}

abbrev activation : TransitionLifecycleCommand
activation = record {
  metadata = metadata "m-2" 2;
  event_id = "evt_eventkey_catalyst-1";
  target = active;
  expected_state_version = 1;
  reason = "활성 기준 지속 충족";
  policy_version = "p1";
}

abbrev matching : ReconcileEventCommand
matching = record {
  metadata = metadata "m-3" 3;
  event_id = "evt_eventkey_catalyst-1";
  target = matched;
  expected_state_version = 2;
  reason = "장후 확정";
  policy_version = "p1";
}

abbrev commands : List EventCommand
commands = create_event creation ∷ transition_event activation ∷ reconcile_event matching ∷ []

write_all-IsWellFormed_example : IsWellFormed (write_all digests commands empty_store)
write_all-IsWellFormed_example = write_all-IsWellFormed digests commands

abbrev created : EventWriteResult
created = record {
  event = first_event digests creation;
  disposition = applied;
  outbox_message_id = some "msg_m-1:canonical_event.created";
}

abbrev after_creation : EventStore
after_creation = (write digests (create_event creation) empty_store).1

creation_written : write digests (create_event creation) empty_store ≡ (ok created, after_creation)
unfolding identity_key event_id command_fingerprint outbox_message_id take_text write create get put
    String-discrete is_blank check_event check_classification check_message has_log
creation_written = refl

abbrev later : List EventCommand
later = transition_event activation ∷ []

write_once_example :
    write digests (create_event creation) (write_all digests later after_creation)
    ≡ ite
        (String-discrete
          (digests.command_fingerprint (create_event creation))
          (digests.command_fingerprint (create_event creation)))
        (ok created, write_all digests later after_creation)
        (raised idempotency_conflict, write_all digests later after_creation)
write_once_example =
    write_once digests (create_event creation) (create_event creation) empty_store after_creation
      created later creation_written refl

missing_raises :
    write digests (transition_event activation) empty_store ≡ (raised event_not_found, empty_store)
unfolding identity_key event_id command_fingerprint outbox_message_id take_text write transition get
    put String-discrete
missing_raises = refl

write_atomic_example :
    (empty_store ≡ empty_store)
    ⊎ ((event_not_found ≡ simulated_commit_failure)
        × (empty_store.fail_next_commit ≡ true)
        × (empty_store ≡ record empty_store { fail_next_commit = false }))
write_atomic_example =
    write_atomic digests (transition_event activation) empty_store empty_store event_not_found
      missing_raises

-- The three commands leave a matched, active Event at version 3.
abbrev finished : EventStore
finished = write_all digests commands empty_store

abbrev version_at : Option CanonicalEvent → ℕ
version_at none = 0
version_at (some e) = e.state_version

all_written : version_at (get String-discrete "evt_eventkey_catalyst-1" finished.events) ≡ 3
unfolding identity_key event_id command_fingerprint outbox_message_id take_text write_all write
    create transition reconcile judge get put String-discrete SourceKey-discrete is_blank
    check_event check_classification check_message has_log transition_lifecycle
    transition_reconciliation LifecycleStatus-discrete ReconciliationStatus-discrete reclassify
all_written = refl
