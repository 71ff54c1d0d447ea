-- ===== src/Events/Models.antt =====
-- packages/events/models.py: commands, canonical Events and what is kept of them. A date is the
-- number of its day, an aware `datetime` the number of microseconds since a fixed instant.
use dayjaview.Prelude.{
  ℕ, not, ◌&&◌, ◌||◌, Option, List, String, ltb, is_blank, if◌then◌else◌, String-discrete,
  all_distinct, map, ite, true, false,
}
use dayjaview.Prelude.Exec.{Result, raised, value_error, require}
use dayjaview.Domain.State.{
  LifecycleStatus, ReconciliationStatus, StateAxis, ReconciliationStatus-discrete,
}
use dayjaview.Events.Lineage.{LineageRef, is_text}

pub record EventInputMetadata : Type 0 where
  pub message_id : String
  pub source : String
  pub source_sequence : ℕ
  pub occurred_at : ℕ
  pub received_at : ℕ
  pub correlation_id : String
  pub causation_id : Option String
  pub lineage : List LineageRef

abbrev pub lineage_key : LineageRef → String × String × Option String
lineage_key l = (l.kind, l.identifier, l.version)

unfoldable pub LineageKey-discrete : Discrete (String × String × Option String)
unfolding String-discrete
LineageKey-discrete = hlevel String-discrete

-- `__post_init__`
unfoldable pub check_metadata : EventInputMetadata → Result (Unit {0})
check_metadata m =
    if is_blank m.message_id || is_blank m.source || is_blank m.correlation_id
    then raised value_error
    else if not (is_text m.causation_id)
    then raised value_error
    else if ltb m.received_at m.occurred_at
    then raised value_error
    else require (all_distinct LineageKey-discrete (map lineage_key m.lineage)) value_error

pub record CanonicalEventIdentity : Type 0 where
  pub market_date : ℕ
  pub canonical_theme_id : String
  pub catalyst_key : String

pub record EventVersions : Type 0 where
  pub calculation_version : String
  pub ranking_model_version : String
  pub membership_version : String
  pub baseline_version : Option String

pub data ClassificationKind : Type 0 where
  infostock_theme unclassified_cluster temporary_theme : ClassificationKind

pub data ClassificationCertainty : Type 0 where
  provisional confirmed : ClassificationCertainty

pub data ClassificationSource : Type 0 where
  live_engine operator infostock : ClassificationSource

pub record EventClassification : Type 0 where
  pub classification_version : ℕ
  pub theme_id : String
  pub display_name : String
  pub kind : ClassificationKind
  pub certainty : ClassificationCertainty
  pub source : ClassificationSource
  pub changed_at : ℕ

-- `__post_init__`
unfoldable pub check_classification : EventClassification → Result (Unit {0})
check_classification c =
    require
      (not (ltb c.classification_version 1)
        && not (is_blank c.theme_id)
        && not (is_blank c.display_name))
      value_error

pub record CanonicalEvent : Type 0 where
  pub event_id : String
  pub identity_key : String
  pub market_date : ℕ
  pub canonical_theme_id : String
  pub catalyst_key : String
  pub lifecycle_status : LifecycleStatus
  pub reconciliation_status : ReconciliationStatus
  pub state_version : ℕ
  pub state_policy_version : String
  pub classification : EventClassification
  pub first_detected_at : ℕ
  pub changed_at : ℕ
  pub last_source : String
  pub last_source_sequence : ℕ
  pub last_received_at : ℕ
  pub lineage : List LineageRef
  pub versions : EventVersions

-- `__post_init__`
unfoldable pub check_event : CanonicalEvent → Result (Unit {0})
check_event e =
    if is_blank e.event_id
      || is_blank e.identity_key
      || is_blank e.canonical_theme_id
      || is_blank e.catalyst_key
      || is_blank e.state_policy_version
      || is_blank e.last_source
    then raised value_error
    else if ltb e.state_version 1
    then raised value_error
    else require (not (ltb e.changed_at e.first_detected_at)) value_error

pub record CreateEventCommand : Type 0 where
  pub metadata : EventInputMetadata
  pub identity : CanonicalEventIdentity
  pub display_name : String
  pub versions : EventVersions
  pub classification_kind : ClassificationKind
  pub classification_certainty : ClassificationCertainty
  pub classification_source : ClassificationSource

pub record TransitionLifecycleCommand : Type 0 where
  pub metadata : EventInputMetadata
  pub event_id : String
  pub target : LifecycleStatus
  pub expected_state_version : ℕ
  pub reason : String
  pub policy_version : String

pub record ReconcileEventCommand : Type 0 where
  pub metadata : EventInputMetadata
  pub event_id : String
  pub target : ReconciliationStatus
  pub expected_state_version : ℕ
  pub reason : String
  pub policy_version : String

-- `__post_init__` of the three commands
unfoldable pub check_create : CreateEventCommand → Result (Unit {0})
check_create c = require (not (is_blank c.display_name)) value_error

unfoldable pub check_transition : TransitionLifecycleCommand → Result (Unit {0})
check_transition c =
    require
      (not (is_blank c.event_id)
        && not (is_blank c.reason)
        && not (is_blank c.policy_version)
        && not (ltb c.expected_state_version 1))
      value_error

unfoldable pub check_reconcile : ReconcileEventCommand → Result (Unit {0})
check_reconcile c =
    require
      (not (is_blank c.event_id)
        && not (is_blank c.reason)
        && not (is_blank c.policy_version)
        && not
            (ite (ReconciliationStatus-discrete c.target ReconciliationStatus.pending) true false)
        && not (ltb c.expected_state_version 1))
      value_error

pub data EventCommand : Type 0 where
  create_event : CreateEventCommand → EventCommand
  transition_event : TransitionLifecycleCommand → EventCommand
  reconcile_event : ReconcileEventCommand → EventCommand

abbrev pub metadata_of : EventCommand → EventInputMetadata
metadata_of (create_event c) = c.metadata
metadata_of (transition_event c) = c.metadata
metadata_of (reconcile_event c) = c.metadata

pub data EventWriteDisposition : Type 0 where
  applied duplicate_identity already_in_state : EventWriteDisposition
  stale_source_sequence stale_state_version stale_occurred_at : EventWriteDisposition

pub record EventWriteResult : Type 0 where
  pub event : CanonicalEvent
  pub disposition : EventWriteDisposition
  pub outbox_message_id : Option String

pub record CommandReceipt : Type 0 where
  pub message_id : String
  pub command_fingerprint : String
  pub event_id : String
  pub source : String
  pub source_sequence : ℕ
  pub received_at : ℕ
  pub result : EventWriteResult

-- `LifecycleStatus | ReconciliationStatus`
pub data LoggedStatus : Type 0 where
  on_lifecycle : LifecycleStatus → LoggedStatus
  on_reconciliation : ReconciliationStatus → LoggedStatus

pub record EventStateLog : Type 0 where
  pub event_id : String
  pub state_version : ℕ
  pub from_status : Option LoggedStatus
  pub to_status : LoggedStatus
  pub policy_version : String
  pub reason : String
  pub occurred_at : ℕ
  pub received_at : ℕ
  pub source : String
  pub source_sequence : ℕ
  pub command_message_id : String
  pub lineage : List LineageRef
  pub axis : StateAxis

-- The SHA-256 digests of canonical texts that name commands, Events and outbox messages.
pub record Digests : Type 0 where
  pub command_fingerprint : EventCommand → String
  pub identity_key : CanonicalEventIdentity → String
  pub event_id : CanonicalEventIdentity → String
  pub outbox_message_id : String → String → String
