-- ===== src/Events/Outbox.antt =====
-- packages/events/outbox.py: what waits to be published.
use dayjaview.Prelude.{
  ℕ, ◌||◌, not, Option, List, String, String-discrete, ℕ_discrete, ltb, is_blank, if◌then◌else◌,
}
use dayjaview.Prelude.Exec.{Result, raised, value_error, require}
use dayjaview.Events.Lineage.{is_text}
use dayjaview.Events.Models.{EventVersions}

-- The JSON values that the writer puts into a payload.
pub data PayloadValue : Type 0 where
  text : String → PayloadValue
  number : ℕ → PayloadValue
  versions : EventVersions → PayloadValue

pub record OutboxMessage : Type 0 where
  pub message_id : String
  pub event_type : String
  pub event_version : String
  pub aggregate_id : String
  pub occurred_at : ℕ
  pub received_at : ℕ
  pub producer : String
  pub correlation_id : String
  pub causation_id : Option String
  pub payload : List (String × PayloadValue)

unfoldable pub EventVersions-discrete : Discrete EventVersions
unfolding ℕ_discrete String-discrete
EventVersions-discrete = hlevel (ℕ_discrete, String-discrete)

unfoldable pub PayloadValue-discrete : Discrete PayloadValue
unfolding ℕ_discrete String-discrete EventVersions-discrete
PayloadValue-discrete = hlevel (ℕ_discrete, String-discrete, EventVersions-discrete)

unfoldable pub OutboxMessage-discrete : Discrete OutboxMessage
unfolding ℕ_discrete String-discrete PayloadValue-discrete
OutboxMessage-discrete = hlevel (ℕ_discrete, String-discrete, PayloadValue-discrete)

-- `__post_init__`; the payloads here are JSON objects by their type
unfoldable pub check_message : OutboxMessage → Result (Unit {0})
check_message m =
    if is_blank m.message_id
      || is_blank m.event_type
      || is_blank m.event_version
      || is_blank m.aggregate_id
      || is_blank m.producer
      || is_blank m.correlation_id
    then raised value_error
    else if not (is_text m.causation_id)
    then raised value_error
    else require (not (ltb m.received_at m.occurred_at)) value_error

pub data OutboxStatus : Type 0 where
  pending claimed published : OutboxStatus

pub record OutboxRecord : Type 0 where
  pub message : OutboxMessage
  pub status : OutboxStatus
  pub attempts : ℕ
  pub available_at : ℕ
  pub claimed_until : Option ℕ
  pub published_at : Option ℕ
  pub last_error : Option String
