-- ===== src/Events/Store.antt =====
-- packages/events/memory.py: the transactional store. The lock makes each method one step, and a
-- transaction one step of the writer.
use dayjaview.Prelude.{
  ℕ, ◌+◌, Bool, true, false, not, Option, none, some, List, [], ◌∷◌, ◌++◌, String, String-discrete,
  ite, ltb, is_none, ◌==◌, if◌then◌else◌,
}
use dayjaview.Prelude.Dict.{Dict, get, put}
use dayjaview.Prelude.Exec.{
  ok, raised, key_error, event_identity_conflict, idempotency_conflict, concurrent_event_write,
  simulated_commit_failure, Exec, pure, raise, gets,
}
use dayjaview.Events.Models.{CanonicalEvent, CommandReceipt, EventStateLog}
use dayjaview.Events.Outbox.{OutboxMessage, OutboxMessage-discrete, pending, OutboxRecord}

abbrev pub SourceKey : Type 0
SourceKey = String × String

unfoldable pub SourceKey-discrete : Discrete SourceKey
unfolding String-discrete
SourceKey-discrete = hlevel String-discrete

pub record EventStore : Type 0 where
  pub events : Dict String CanonicalEvent
  pub identities : Dict String String
  pub receipts : Dict String CommandReceipt
  pub source_sequences : Dict SourceKey ℕ
  pub state_logs : List EventStateLog
  pub outbox : Dict String OutboxRecord
  pub fail_next_commit : Bool

abbrev pub empty_store : EventStore
empty_store = record {
  events = [];
  identities = [];
  receipts = [];
  source_sequences = [];
  state_logs = [];
  outbox = [];
  fail_next_commit = false;
}

-- `transaction`: what the body did is undone if it raised, or if the commit fails
unfoldable pub transaction : {A : Type 0} → Exec EventStore A → Exec EventStore A
transaction body store =
    let (r, s) = body store in
    elim r [
      | ok a ↦
          if s.fail_next_commit
          then (raised simulated_commit_failure, record store { fail_next_commit = false })
          else (ok a, s)
      | raised e ↦ (raised e, record store { fail_next_commit = s.fail_next_commit })
    ]

unfoldable pub get_receipt : String → Exec EventStore (Option CommandReceipt)
get_receipt message_id = gets (λ s. get String-discrete message_id s.receipts)

unfoldable pub get_event : String → Exec EventStore (Option CanonicalEvent)
get_event event_id = gets (λ s. get String-discrete event_id s.events)

-- `self._store._events[event_id]`, which raises for a missing key
unfoldable pub event_or_raise : Option CanonicalEvent → Exec EventStore (Option CanonicalEvent)
event_or_raise none = raise key_error
event_or_raise (some e) = pure (some e)

unfoldable pub get_event_by_identity : String → Exec EventStore (Option CanonicalEvent)
unfolding event_or_raise
get_event_by_identity identity_key store =
    elim (get String-discrete identity_key store.identities) [
      | none ↦ (ok none, store)
      | some event_id ↦ event_or_raise (get String-discrete event_id store.events) store
    ]

unfoldable pub latest_source_sequence : String → String → Exec EventStore (Option ℕ)
latest_source_sequence event_id source =
    gets (λ s. get SourceKey-discrete (event_id, source) s.source_sequences)

unfoldable pub insert_event : CanonicalEvent → Exec EventStore (Unit {0})
insert_event event store =
    if not (is_none (get String-discrete event.event_id store.events))
    then (raised event_identity_conflict, store)
    else if not (is_none (get String-discrete event.identity_key store.identities))
    then (raised event_identity_conflict, store)
    else (
      ok tt,
      record store {
        events = put String-discrete event.event_id event store.events;
        identities = put String-discrete event.identity_key event.event_id store.identities;
      },
    )

-- The test on the current Event.
abbrev pub has_version : Option CanonicalEvent → ℕ → Bool
has_version none n = false
has_version (some e) n = e.state_version == n

unfoldable pub update_event : CanonicalEvent → ℕ → Exec EventStore (Unit {0})
update_event event expected store =
    if not (has_version (get String-discrete event.event_id store.events) expected)
    then (raised concurrent_event_write, store)
    else if not (event.state_version == expected + 1)
    then (raised concurrent_event_write, store)
    else (ok tt, record store { events = put String-discrete event.event_id event store.events })

unfoldable pub has_log : String → ℕ → List EventStateLog → Bool
has_log event_id version [] = false
has_log event_id version (l ∷ ls) =
    ite (String-discrete l.event_id event_id)
      (if l.state_version == version then true else has_log event_id version ls)
      (has_log event_id version ls)

unfoldable pub append_state_log : EventStateLog → Exec EventStore (Unit {0})
append_state_log log store =
    if has_log log.event_id log.state_version store.state_logs
    then (raised concurrent_event_write, store)
    else (ok tt, record store { state_logs = store.state_logs ++ log ∷ [] })

abbrev pub rises : ℕ → Option ℕ → Bool
rises n none = true
rises n (some m) = ltb m n

abbrev pub note_sequence : SourceKey → ℕ → Dict SourceKey ℕ → Dict SourceKey ℕ
note_sequence key n sequences =
    if rises n (get SourceKey-discrete key sequences)
    then put SourceKey-discrete key n sequences
    else sequences

unfoldable pub save_receipt : CommandReceipt → Exec EventStore (Unit {0})
save_receipt receipt store = elim (get String-discrete receipt.message_id store.receipts) [
  | some existing ↦
      ite (String-discrete existing.command_fingerprint receipt.command_fingerprint) (ok tt, store)
        (raised idempotency_conflict, store)
  | none ↦ (
    ok tt,
    record store {
      receipts = put String-discrete receipt.message_id receipt store.receipts;
      source_sequences =
          note_sequence (receipt.event_id, receipt.source) receipt.source_sequence
            store.source_sequences;
    },
  )
]

unfoldable pub enqueue_outbox : OutboxMessage → Exec EventStore (Unit {0})
enqueue_outbox message store = elim (get String-discrete message.message_id store.outbox) [
  | some existing ↦
      ite (OutboxMessage-discrete existing.message message) (ok tt, store)
        (raised idempotency_conflict, store)
  | none ↦ (
    ok tt,
    record store {
      outbox =
          put String-discrete message.message_id
            (record {
              message = message;
              status = pending;
              attempts = 0;
              available_at = message.received_at;
              claimed_until = none;
              published_at = none;
              last_error = none;
            })
            store.outbox;
    },
  )
]

-- `fail_next_commit`
abbrev pub arm_failure : EventStore → EventStore
arm_failure store = record store { fail_next_commit = true }

unfoldable pub read_event : String → EventStore → Option CanonicalEvent
read_event event_id store = get String-discrete event_id store.events

unfoldable pub read_outbox : String → EventStore → Option OutboxMessage
read_outbox message_id store = elim (get String-discrete message_id store.outbox) [
  | none ↦ none
  | some r ↦ some r.message
]

-- The logs of one Event, in the order written.
unfoldable pub logs_of : String → List EventStateLog → List EventStateLog
logs_of event_id [] = []
logs_of event_id (l ∷ ls) =
    ite (String-discrete l.event_id event_id) (l ∷ logs_of event_id ls) (logs_of event_id ls)

-- `state_logs`
unfoldable pub read_state_logs : Option String → EventStore → List EventStateLog
unfolding logs_of
read_state_logs none store = store.state_logs
read_state_logs (some event_id) store = logs_of event_id store.state_logs
