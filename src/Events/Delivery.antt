-- ===== src/Events/Delivery.antt =====
-- The delivery of the outbox: `claim_pending`, `mark_published` and `release_after_failure` of
-- packages/events/memory.py, and `OutboxPublisher` of packages/events/outbox.py.
pub mod Batches
pub mod Answers
pub mod Claims
pub mod Publishing
pub mod Leases
use Prim.Native.Nat.{compare}
use Prim.Native.String.{compare as compare_text, then as thenby}
use text.Mathlib.Text.{is_le}
use dayjaview.Prelude.{
  sort_by, ℕ, zero, suc, ◌+◌, Bool, true, false, not, ◌&&◌, Option, none, some, List, [], ◌∷◌, map,
  String, String-discrete, leb, ltb, length, if◌then◌else◌,
}
use dayjaview.Prelude.Dict.{Dict, get, put}
use dayjaview.Prelude.Exec.{Result, ok, raised, value_error, key_error, Exec, pure, ◌>>=◌}
use dayjaview.Events.Outbox.{OutboxMessage, OutboxStatus, pending, claimed, published, OutboxRecord}
use dayjaview.Events.Store.{EventStore}

abbrev pub is_published : OutboxStatus → Bool
is_published pending = false
is_published claimed = false
is_published published = true

-- `record.claimed_until is None or record.claimed_until <= now`
abbrev pub lease_over : ℕ → Option ℕ → Bool
lease_over now none = true
lease_over now (some until) = leb until now

-- The status test with the lease: a pending record needs no lease that is over.
abbrev pub is_free : ℕ → OutboxStatus → Option ℕ → Bool
is_free now pending until = true
is_free now claimed until = lease_over now until
is_free now published until = false

unfoldable pub is_eligible : ℕ → OutboxRecord → Bool
is_eligible now r = leb r.available_at now && is_free now r.status r.claimed_until

-- `[record for record in self._outbox.values() if ...]`
unfoldable pub eligible : ℕ → Dict String OutboxRecord → List OutboxRecord
eligible now [] = []
eligible now ((k, r) ∷ d) = if is_eligible now r then r ∷ eligible now d else eligible now d

-- The sort key is the tuple of `available_at` and the message id.
unfoldable pub comes_first : OutboxRecord → OutboxRecord → Bool
comes_first a b = is_le (
    thenby (compare a.available_at b.available_at)
      (compare_text a.message.message_id b.message.message_id))

-- `eligible.sort(...)`
unfoldable pub sort_records : List OutboxRecord → List OutboxRecord
sort_records rs = sort_by comes_first rs

-- `eligible[:limit]`
unfoldable pub take_records : ℕ → List OutboxRecord → List OutboxRecord
take_records zero rs = []
take_records (suc n) [] = []
take_records (suc n) (r ∷ rs) = r ∷ take_records n rs

abbrev pub claim : ℕ → ℕ → OutboxRecord → OutboxRecord
claim now lease r = record r {
  status = claimed;
  attempts = r.attempts + 1;
  claimed_until = some (now + lease);
  last_error = none;
}

-- The loop over the records that are to be claimed.
unfoldable pub claim_all :
    ℕ → ℕ → List OutboxRecord → Dict String OutboxRecord → Dict String OutboxRecord
claim_all now lease [] outbox = outbox
claim_all now lease (r ∷ rs) outbox =
    claim_all now lease rs (put String-discrete r.message.message_id (claim now lease r) outbox)

-- What `claim_pending` claims.
unfoldable pub to_claim : ℕ → ℕ → Dict String OutboxRecord → List OutboxRecord
unfolding eligible sort_records take_records
to_claim now limit outbox = take_records limit (sort_records (eligible now outbox))

unfoldable pub claim_pending : ℕ → ℕ → ℕ → Exec EventStore (List OutboxRecord)
unfolding to_claim claim_all
claim_pending now limit lease store = if ltb limit 1 then (raised value_error, store) else (
  ok (map (claim now lease) (to_claim now limit store.outbox)),
  record store { outbox = claim_all now lease (to_claim now limit store.outbox) store.outbox },
)

-- The shape that `mark_published` and `release_after_failure` share.
unfoldable pub change_unpublished :
    String → (OutboxRecord → OutboxRecord) → Exec EventStore (Unit {0})
change_unpublished message_id change store = elim (get String-discrete message_id store.outbox) [
  | none ↦ (raised key_error, store)
  | some r ↦
      if is_published r.status
      then (ok tt, store)
      else (ok tt, record store { outbox = put String-discrete message_id (change r) store.outbox })
]

abbrev pub as_published : ℕ → OutboxRecord → OutboxRecord
as_published at r = record r {
  status = published;
  claimed_until = none;
  published_at = some at;
  last_error = none;
}

abbrev pub as_released : ℕ → String → OutboxRecord → OutboxRecord
as_released retry_at error r = record r {
  status = pending;
  available_at = retry_at;
  claimed_until = none;
  last_error = some error;
}

unfoldable pub mark_published : String → ℕ → Exec EventStore (Unit {0})
unfolding change_unpublished
mark_published message_id published_at = change_unpublished message_id (as_published published_at)

unfoldable pub release_after_failure : String → ℕ → String → Exec EventStore (Unit {0})
unfolding change_unpublished
release_after_failure message_id retry_at error =
    change_unpublished message_id (as_released retry_at error)

pub record PublishBatchResult : Type 0 where
  pub claimed : ℕ
  pub published : ℕ
  pub failed : ℕ

pub record OutboxPublisher : Type 0 where
  pub lease : ℕ
  pub retry_delay : ℕ

-- `OutboxPublisher.__init__`
unfoldable pub check_publisher : OutboxPublisher → Result (Unit {0})
check_publisher p = if ltb 0 p.lease then ok tt else raised value_error

-- The transport is a service: it answers each message, after what it was sent before, with nothing
-- or with the text of the exception that it raised.
module _ {World : Type 0} (publish : OutboxMessage → World → Option String × World) where
  -- One turn of the loop: whether the message was published.
  unfoldable pub deliver :
      OutboxPublisher → ℕ → OutboxRecord → EventStore → World → (Result Bool × EventStore) × World
  unfolding mark_published release_after_failure
  deliver p now r store world =
      let (answer, world') = publish r.message world in
      elim answer [
        | some error ↦ (
          (release_after_failure r.message.message_id (now + p.retry_delay) error >>= λ _.
                pure false)
              store,
          world',
        )
        | none ↦ ((mark_published r.message.message_id now >>= λ _. pure true) store, world')
      ]

  -- The loop, with the numbers of published and of failed messages.
  unfoldable pub deliver_all :
      OutboxPublisher
      → ℕ
      → List OutboxRecord
      → ℕ × ℕ
      → EventStore
      → World
      → (Result (ℕ × ℕ) × EventStore) × World
  unfolding deliver
  deliver_all p now [] counts store world = ((ok counts, store), world)
  deliver_all p now (r ∷ rs) counts store world =
      let ((sent, store'), world') = deliver p now r store world in
      elim sent [
        | ok true ↦ deliver_all p now rs (counts.0 + 1, counts.1) store' world'
        | ok false ↦ deliver_all p now rs (counts.0, counts.1 + 1) store' world'
        | raised e ↦ ((raised e, store'), world')
      ]

  -- What is done with the records that were claimed.
  unfoldable pub relay :
      OutboxPublisher
      → ℕ
      → World
      → Result (List OutboxRecord) × EventStore
      → (Result PublishBatchResult × EventStore) × World
  unfolding deliver_all
  relay p now world (raised e, store) = ((raised e, store), world)
  relay p now world (ok rs, store) =
      let ((counts, store'), world') = deliver_all p now rs (0, 0) store world in
      (
        (
          elim counts [
            | raised e ↦ raised e
            | ok (sent, failed) ↦
                ok (record { claimed = length rs; published = sent; failed = failed })
          ],
          store',
        ),
        world',
      )

  unfoldable pub publish_pending :
      OutboxPublisher
      → ℕ
      → ℕ
      → EventStore
      → World
      → (Result PublishBatchResult × EventStore) × World
  unfolding claim_pending relay
  publish_pending p now limit store world =
      if ltb limit 1
      then ((raised value_error, store), world)
      else relay p now world (claim_pending now limit p.lease store)
