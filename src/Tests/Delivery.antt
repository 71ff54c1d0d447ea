-- ===== src/Tests/Delivery.antt =====
-- The delivery of packages/events/outbox.py at a concrete outbox.
use dayjaview.Prelude.{
  sort_by, ◌≡◌, ◌≢◌, refl, arith, Bool, true, false, Option, none, some, List, [], ◌∷◌, String,
  String-discrete, All,
}
use dayjaview.Prelude.Dict.{get, put}
use dayjaview.Prelude.Exec.{ok}
use dayjaview.Events.Outbox.{OutboxMessage, OutboxRecord, pending, text}
use dayjaview.Events.Store.{EventStore, empty_store}
use dayjaview.Events.Delivery.{
  claim_pending, publish_pending, OutboxPublisher, claim, is_eligible, comes_first,
}
use dayjaview.Events.Delivery.Claims.{IsOutbox}
use dayjaview.Events.Delivery.Leases.{claim_exclusive}
use dayjaview.Events.Delivery.Answers.{Settles, publish_pending-Settles}

abbrev message : String → OutboxMessage
message id = record {
  message_id = id;
  event_type = "canonical_event.created";
  event_version = "1";
  aggregate_id = "evt_1";
  occurred_at = 100;
  received_at = 105;
  producer = "dayjaview.events";
  correlation_id = "c-1";
  causation_id = none;
  payload = ("eventId", text "evt_1") ∷ [];
}

abbrev waiting : String → OutboxRecord
waiting id = record {
  message = message id;
  status = pending;
  attempts = 0;
  available_at = 105;
  claimed_until = none;
  published_at = none;
  last_error = none;
}

abbrev store : EventStore
store = record empty_store { outbox = ("m-1", waiting "m-1") ∷ ("m-2", waiting "m-2") ∷ [] }

store-IsOutbox : IsOutbox store.outbox
unfolding get String-discrete
store-IsOutbox = record { distinct = (refl, (refl, tt)); keyed = (refl, (refl, tt)) }

-- A claim of one record for 30 seconds, and a second claim 10 seconds later.
abbrev once : EventStore
once = (claim_pending 200 1 30 store).1

abbrev twice : EventStore
twice = (claim_pending 210 5 30 once).1

abbrev first : List OutboxRecord
first = claim 200 30 (waiting "m-1") ∷ []

abbrev second : List OutboxRecord
second = claim 210 30 (waiting "m-2") ∷ []

claim_pending-first : claim_pending 200 1 30 store ≡ (ok first, once)
unfolding claim_pending is_eligible comes_first sort_by get put String-discrete
claim_pending-first = refl

claim_pending-second : claim_pending 210 5 30 once ≡ (ok second, twice)
unfolding claim_pending is_eligible comes_first sort_by get put String-discrete
claim_pending-second = refl

claim_exclusive_example :
    All (λ a. All (λ b. a.message.message_id ≢ b.message.message_id) second) first
claim_exclusive_example =
    claim_exclusive store once twice 200 1 30 210 5 30 first second store-IsOutbox
      claim_pending-first claim_pending-second (ground arith)

abbrev publisher : OutboxPublisher
publisher = record { lease = 30; retry_delay = 1 }

-- A transport that fails on its first message.
abbrev publish : OutboxMessage → Bool → Option String × Bool
publish m true = (none, true)
publish m false = (some "ConnectionError: closed", true)

publish_pending-Settles_example :
    Settles publish publisher 200 100 store false
      (publish_pending publish publisher 200 100 store false).0
publish_pending-Settles_example =
    publish_pending-Settles publish publisher 200 100 store false (ground arith) store-IsOutbox

-- One message is published, one fails.
one_failed :
    (publish_pending publish publisher 200 100 store false).0.0
    ≡ ok (record { claimed = 2; published = 1; failed = 1 })
unfolding publish_pending is_eligible comes_first sort_by get put String-discrete
one_failed = refl
