-- ===== src/Realtime/HotState/Soundness.antt =====
-- `apply` of packages/realtime/hot_state.py and the invariant of the store.
use dayjaview.Prelude.{
  ℕ, ◌≤◌, ◌<◌, ◌≡◌, ◌≢◌, Option, none, some, String, String-discrete, arith, ite, max,
}
use dayjaview.Prelude.Dict.{get, put, get-put}
use dayjaview.Prelude.Exec.{Result, ok}
use dayjaview.Realtime.Models.{
  StockRealtimeUpdate, check_update, HotStockState, state_of_update, HotApplyResult, SourceCursor,
}
use dayjaview.Realtime.HotState.Store.{
  StateKey, CursorKey, StateKey-discrete, CursorKey-discrete, HotStateStore, state_key, cursor_key,
  record_cursor, process, apply,
}
use dayjaview.Realtime.HotState.Invariant.{
  state_at, cursor_at, seen_at, Covers, IsStateSound, IsCursorSound, IsSound,
}
use dayjaview.Realtime.HotState.Steps.{
  Applies, recorded, repeats, conflicts, late_sequence, late_receipt, late_observation, stores,
  apply-Applies, next_version, Passes,
}

-- The message is remembered, and no other is forgotten.
pub seen_at-process :
    (u : StockRealtimeUpdate) (fp : String) (store : HotStateStore) (m : String)
    → seen_at m (process u fp store)
      ≡ ite (String-discrete u.message_id m) (some fp) (seen_at m store)
seen_at-process u fp store m = get-put String-discrete u.message_id m fp store.processed_messages

-- The cursor that `record_cursor` leaves.
abbrev pub next_cursor : StockRealtimeUpdate → Option SourceCursor → SourceCursor
next_cursor u c = record {
  market_date = u.market_date;
  stock_id = u.stock_id;
  source = u.source;
  source_sequence = u.source_sequence;
  received_at = elim c [
    | none ↦ u.received_at
    | some previous ↦ max previous.received_at u.received_at
  ];
}

pub cursor_at-record_cursor :
    (u : StockRealtimeUpdate) (store : HotStateStore) (key : CursorKey)
    → cursor_at key (record_cursor (cursor_key u) u store)
      ≡ ite
          (CursorKey-discrete (cursor_key u) key)
          (some (next_cursor u (cursor_at (cursor_key u) store)))
          (cursor_at key store)
unfolding record_cursor
cursor_at-record_cursor u store key =
    get-put CursorKey-discrete (cursor_key u) key (next_cursor u (cursor_at (cursor_key u) store))
      store.source_cursors

process-IsSound :
    (u : StockRealtimeUpdate) (fp : String) (store : HotStateStore)
    → IsSound store
    → IsSound (process u fp store)
process-IsSound u fp store h = record {
  state_sound = λ key s e.
      let old = h.state_sound key s e in
      record {
        date = old.date;
        stock = old.stock;
        versioned = old.versioned;
        in_time = old.in_time;
        covered = old.covered;
        processed = ground (arith, old.processed, seen_at-process u fp store s.last_message_id);
      };
  cursor_sound = h.cursor_sound;
}

-- The old cursor, if any, has a smaller sequence.
abbrev Rises : StockRealtimeUpdate → Option SourceCursor → Type 0
Rises u none = Unit
Rises u (some c) = c.source_sequence < u.source_sequence

record_cursor-IsSound :
    (u : StockRealtimeUpdate) (store : HotStateStore)
    → Rises u (cursor_at (cursor_key u) store)
    → IsSound store
    → IsSound (record_cursor (cursor_key u) u store)
unfolding record_cursor
record_cursor-IsSound u store rises h = record {
  state_sound = λ key s e.
      let old = h.state_sound key s e in
      record {
        date = old.date;
        stock = old.stock;
        versioned = old.versioned;
        in_time = old.in_time;
        covered = ground (
          arith,
          old.covered,
          get-put CursorKey-discrete (cursor_key u) (key.0, key.1, s.source)
              (next_cursor u (cursor_at (cursor_key u) store)) store.source_cursors,
        );
        processed = old.processed;
      };
  cursor_sound =
      λ key c e. cursor_of key c (cursor_at-record_cursor u store key) (h.cursor_sound key c) e;
}
  where
    cursor_of :
        (key : CursorKey) (c : SourceCursor)
        → cursor_at key (record_cursor (cursor_key u) u store)
          ≡ ite
              (CursorKey-discrete (cursor_key u) key)
              (some (next_cursor u (cursor_at (cursor_key u) store)))
              (cursor_at key store)
        → (cursor_at key store ≡ some c → IsCursorSound key c)
        → cursor_at key (record_cursor (cursor_key u) u store) ≡ some c
        → IsCursorSound key c
    cursor_of key c p old e = ground arith

-- The state that is stored is sound where its cursor and its message are recorded.
put_state-IsSound :
    (u : StockRealtimeUpdate) (n : ℕ) (store : HotStateStore)
    → 1 ≤ n
    → u.occurred_at ≤ u.received_at
    → Covers (cursor_at (cursor_key u) store) (state_of_update u n)
    → seen_at u.message_id store ≢ none
    → IsSound store
    → IsSound (record store {
      states = put StateKey-discrete (state_key u) (state_of_update u n) store.states;
    })
put_state-IsSound u n store positive in_time covered seen h = record {
  state_sound = λ key s e.
      put_of key s (get-put StateKey-discrete (state_key u) key (state_of_update u n) store.states)
        (h.state_sound key s) e;
  cursor_sound = h.cursor_sound;
}
  where
    put_of :
        (key : StateKey) (s : HotStockState)
        → get StateKey-discrete key
            (put StateKey-discrete (state_key u) (state_of_update u n) store.states)
          ≡ ite
              (StateKey-discrete (state_key u) key)
              (some (state_of_update u n))
              (state_at key store)
        → (state_at key store ≡ some s → IsStateSound store key s)
        → get StateKey-discrete key
            (put StateKey-discrete (state_key u) (state_of_update u n) store.states)
          ≡ some s
        → IsStateSound
            (record store {
              states = put StateKey-discrete (state_key u) (state_of_update u n) store.states;
            })
            key
            s
    put_of key s p old e = elim (StateKey-discrete (state_key u) key) [
      | yes same ↦ ground arith
      | no other ↦ ground arith
    ]

Passes→Rises : (u : StockRealtimeUpdate) (c : Option SourceCursor) → Passes u c → Rises u c
Passes→Rises u none p = tt
Passes→Rises u (some c) p = p.0

next_version_pos : (o : Option HotStockState) → 1 ≤ next_version o
next_version_pos none = omega arith
next_version_pos (some s) = omega arith

-- After `record_cursor` and `process`, the update's own cursor and message are there.
recorded_covers :
    (u : StockRealtimeUpdate) (fp : String) (n : ℕ) (store : HotStateStore)
    → Covers
        (cursor_at (cursor_key u) (process u fp (record_cursor (cursor_key u) u store)))
        (state_of_update u n)
recorded_covers u fp n store = ground (arith, cursor_at-record_cursor u store (cursor_key u))

recorded_seen :
    (u : StockRealtimeUpdate) (fp : String) (store : HotStateStore)
    → seen_at u.message_id (process u fp store) ≢ none
recorded_seen u fp store = ground (arith, seen_at-process u fp store u.message_id)

module _ (fingerprint : StockRealtimeUpdate → String) (u : StockRealtimeUpdate)
    (store : HotStateStore) (in_time : u.occurred_at ≤ u.received_at) (h : IsSound store) where
  recorded-IsSound :
      Rises u (cursor_at (cursor_key u) store) → IsSound (recorded fingerprint u store)
  recorded-IsSound rises =
      process-IsSound u (fingerprint u) _ (record_cursor-IsSound u store rises h)

  apply_case-IsSound :
      (r : Result HotApplyResult) (after : HotStateStore)
      → Applies fingerprint u store r after
      → IsSound after
  unfolding record_cursor
  apply_case-IsSound r after (repeats _ _ e) = rw e h
  apply_case-IsSound r after (conflicts _ _ _ _ e) = rw e h
  apply_case-IsSound r after (late_sequence _ _ _ _ _ e) =
      rw e (process-IsSound u (fingerprint u) store h)
  apply_case-IsSound r after (late_receipt c _ at lt _ _ e) = rw e (recorded-IsSound (ground arith))
  apply_case-IsSound r after (late_observation s _ pass _ _ _ e) =
      rw e (recorded-IsSound (Passes→Rises u _ pass))
  apply_case-IsSound r after (stores _ pass _ _ e) = rw e (
      put_state-IsSound u _ (recorded fingerprint u store) (next_version_pos _) in_time
        (recorded_covers u (fingerprint u) _ store)
        (recorded_seen u (fingerprint u) (record_cursor (cursor_key u) u store))
        (recorded-IsSound (Passes→Rises u _ pass)))

checked_in_time : (u : StockRealtimeUpdate) → check_update u ≡ ok tt → u.occurred_at ≤ u.received_at
unfolding check_update
checked_in_time u h = ground arith

-- Every call with a checked update keeps the store sound: each state stands under its own key,
-- was not received before it occurred, and is covered by its source's cursor and by the messages.
pub apply-IsSound :
    (fingerprint : StockRealtimeUpdate → String) (u : StockRealtimeUpdate) (store : HotStateStore)
    → check_update u ≡ ok tt
    → IsSound store
    → IsSound (apply fingerprint u store).1
apply-IsSound fingerprint u store valid h =
    apply_case-IsSound fingerprint u store (checked_in_time u valid) h _ _
      (apply-Applies fingerprint u store valid)
