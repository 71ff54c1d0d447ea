-- ===== src/Realtime/HotState/Store.antt =====
-- `HotStateStore` of packages/realtime/hot_state.py. The lock makes each method one step.
use Prim.Native.Nat.{compare, Ordering}
use Prim.Native.String.{compare as compare_text, then as thenby}
use text.Mathlib.Text.{is_le}
use dayjaview.Prelude.{
  ℕ, ◌+◌, max, Bool, Option, none, some, [], String, String-discrete, ℕ_discrete, ite, leb, ltb,
  if◌then◌else◌,
}
use dayjaview.Prelude.Dict.{Dict, get, put}
use dayjaview.Prelude.Exec.{Result, ok, raised, hot_state_idempotency_conflict}
use dayjaview.Realtime.Models.{
  StockRealtimeUpdate, HotStockState, from_update, HotApplyDisposition, HotApplyResult, applied,
  duplicate, stale_source_sequence, stale_received_at, stale_observation, SourceCursor,
}

abbrev pub StateKey : Type 0
StateKey = ℕ × String

abbrev pub CursorKey : Type 0
CursorKey = ℕ × String × String

unfoldable pub StateKey-discrete : Discrete StateKey
unfolding ℕ_discrete String-discrete
StateKey-discrete = hlevel (ℕ_discrete, String-discrete)

unfoldable pub CursorKey-discrete : Discrete CursorKey
unfolding ℕ_discrete String-discrete
CursorKey-discrete = hlevel (ℕ_discrete, String-discrete)

pub record HotStateStore : Type 0 where
  pub states : Dict StateKey HotStockState
  pub processed_messages : Dict String String
  pub source_cursors : Dict CursorKey SourceCursor

abbrev pub empty_store : HotStateStore
empty_store = record { states = []; processed_messages = []; source_cursors = [] }

-- The tuples `incoming_order` and `current_order`.
pub record ObservationOrder : Type 0 where
  pub occurred_at : ℕ
  pub received_at : ℕ
  pub source : String
  pub source_sequence : ℕ
  pub message_id : String

abbrev pub update_order : StockRealtimeUpdate → ObservationOrder
update_order u = record {
  occurred_at = u.occurred_at;
  received_at = u.received_at;
  source = u.source;
  source_sequence = u.source_sequence;
  message_id = u.message_id;
}

abbrev pub state_order : HotStockState → ObservationOrder
state_order s = record {
  occurred_at = s.occurred_at;
  received_at = s.received_at;
  source = s.source;
  source_sequence = s.source_sequence;
  message_id = s.last_message_id;
}

-- Python compares tuples by their first difference, texts by code points.
unfoldable pub compare_order : ObservationOrder → ObservationOrder → Ordering
compare_order a b = thenby (compare a.occurred_at b.occurred_at) (
    thenby (compare a.received_at b.received_at) (
      thenby (compare_text a.source b.source) (
        thenby (compare a.source_sequence b.source_sequence)
          (compare_text a.message_id b.message_id))))

abbrev pub is_not_newer : ObservationOrder → ObservationOrder → Bool
is_not_newer a b = is_le (compare_order a b)

abbrev pub state_key : StockRealtimeUpdate → StateKey
state_key u = (u.market_date, u.stock_id)

abbrev pub cursor_key : StockRealtimeUpdate → CursorKey
cursor_key u = (u.market_date, u.stock_id, u.source)

-- `_record_cursor`
unfoldable pub record_cursor : CursorKey → StockRealtimeUpdate → HotStateStore → HotStateStore
record_cursor key u store = record store {
  source_cursors =
      put CursorKey-discrete key
        (record {
          market_date = u.market_date;
          stock_id = u.stock_id;
          source = u.source;
          source_sequence = u.source_sequence;
          received_at = elim (get CursorKey-discrete key store.source_cursors) [
            | none ↦ u.received_at
            | some previous ↦ max previous.received_at u.received_at
          ];
        })
        store.source_cursors;
}

-- `self._processed_messages[update.message_id] = fingerprint`
abbrev pub process : StockRealtimeUpdate → String → HotStateStore → HotStateStore
process u fingerprint store = record store {
  processed_messages = put String-discrete u.message_id fingerprint store.processed_messages;
}

-- The same state before and after.
abbrev pub unchanged : HotApplyDisposition → Option HotStockState → Result HotApplyResult
unchanged disposition previous =
    ok (record { disposition = disposition; previous = previous; current = previous })

-- Stores the update as the next version of its stock.
unfoldable pub commit :
    StockRealtimeUpdate
    → Option HotStockState
    → HotStateStore
    → Result HotApplyResult × HotStateStore
commit u previous store =
    let version : ℕ = elim previous [ none ↦ 1 | some p ↦ p.version + 1 ] in
    elim (from_update u version) [
      | raised e ↦ (raised e, store)
      | ok current ↦ (
        ok (record { disposition = applied; previous = previous; current = some current }),
        record store { states = put StateKey-discrete (state_key u) current store.states },
      )
    ]

-- The part of `apply` that compares with the state of the stock.
unfoldable pub observe :
    StockRealtimeUpdate
    → Option HotStockState
    → HotStateStore
    → Result HotApplyResult × HotStateStore
unfolding commit
observe u none store = commit u none store
observe u (some previous) store =
    if is_not_newer (update_order u) (state_order previous)
    then (unchanged stale_observation (some previous), store)
    else commit u (some previous) store

-- The part of `apply` after the test for a message that was seen before.
unfoldable pub admit :
    StockRealtimeUpdate
    → String
    → Option HotStockState
    → Option SourceCursor
    → HotStateStore
    → Result HotApplyResult × HotStateStore
unfolding record_cursor
admit u fingerprint previous none store =
    observe u previous (process u fingerprint (record_cursor (cursor_key u) u store))
admit u fingerprint previous (some cursor) store =
    if leb u.source_sequence cursor.source_sequence
    then (unchanged stale_source_sequence previous, process u fingerprint store)
    else if ltb u.received_at cursor.received_at
    then (
      unchanged stale_received_at previous,
      process u fingerprint (record_cursor (cursor_key u) u store),
    )
    else observe u previous (process u fingerprint (record_cursor (cursor_key u) u store))

-- The fingerprint is the SHA-256 of the update's canonical JSON.
module _ (fingerprint : StockRealtimeUpdate → String) where
  unfoldable pub apply : StockRealtimeUpdate → HotStateStore → Result HotApplyResult × HotStateStore
  apply u store =
      let previous = get StateKey-discrete (state_key u) store.states in
      elim (get String-discrete u.message_id store.processed_messages) [
        | some seen ↦
            ite (String-discrete seen (fingerprint u)) (unchanged duplicate previous, store)
              (raised hot_state_idempotency_conflict, store)
        | none ↦
            admit u (fingerprint u) previous
              (get CursorKey-discrete (cursor_key u) store.source_cursors) store
      ]
