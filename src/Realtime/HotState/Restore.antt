-- ===== src/Realtime/HotState/Restore.antt =====
-- What `restore` makes of a checkpoint of the store of packages/realtime/hot_state.py.
use dayjaview.Prelude.{
  ◌≡◌, String, String-discrete, All, List, ℕ, ◌∷◌, [], sort_by-All, All-imp, arith, ◌≤◌, is_blank,
  text_first,
}
use dayjaview.Prelude.Dict.{Distinct, put-Distinct, All-get}
use dayjaview.Realtime.HotState.Checkpoint.{
  checkpoint, checkpoint_of, restore, observed_times, state_first, cursor_first, key_of_state,
  key_of_cursor, latest,
}
use dayjaview.Realtime.HotState.Store.{
  HotStateStore, StateKey-discrete, process, record_cursor, CursorKey-discrete, cursor_key,
  empty_store, state_key,
}
use dayjaview.Realtime.HotState.Runs.{feed, AllChecked, feed-IsSound}
use dayjaview.Realtime.Models.{StockRealtimeUpdate, HotApplyResult, HotStateCheckpoint}
use dayjaview.Prelude.Entries.{
  sorted_entries, get-sorted_entries, load, sorted_values, dict_of_lem, sorted_entries-Distinct,
  load_lem,
}
use dayjaview.Prelude.Exec.{Result, value_error, ok}
use dayjaview.Realtime.HotState.Invariant.{IsSound}
use dayjaview.Realtime.HotState.Agreement.{Agrees}
use dayjaview.Realtime.HotState.Steps.{
  recorded, Applies, repeats, apply-Applies, conflicts, late_sequence, late_receipt,
  late_observation, stores,
}

-- Each of the three dictionaries has each key once.
pub record HasKeys (store : HotStateStore) : Type 0 where
  pub states_keyed : Distinct StateKey-discrete store.states
  pub messages_keyed : Distinct String-discrete store.processed_messages
  pub cursors_keyed : Distinct CursorKey-discrete store.source_cursors

module _ (fingerprint : StockRealtimeUpdate → String) (u : StockRealtimeUpdate)
    (store : HotStateStore) (h : HasKeys store) where
  process-HasKeys : HasKeys (process u (fingerprint u) store)
  process-HasKeys = record {
    states_keyed = h.states_keyed;
    messages_keyed =
        put-Distinct String-discrete u.message_id (fingerprint u) store.processed_messages
          h.messages_keyed;
    cursors_keyed = h.cursors_keyed;
  }

  recorded-HasKeys : HasKeys (recorded fingerprint u store)
  unfolding record_cursor
  recorded-HasKeys = record {
    states_keyed = h.states_keyed;
    messages_keyed =
        put-Distinct String-discrete u.message_id (fingerprint u) store.processed_messages
          h.messages_keyed;
    cursors_keyed =
        put-Distinct CursorKey-discrete (cursor_key u) _ store.source_cursors h.cursors_keyed;
  }

  case-HasKeys :
      (r : Result HotApplyResult) (after : HotStateStore)
      → Applies fingerprint u store r after
      → HasKeys after
  case-HasKeys r after (repeats _ _ e) = rw e h
  case-HasKeys r after (conflicts _ _ _ _ e) = rw e h
  case-HasKeys r after (late_sequence _ _ _ _ _ e) = rw e process-HasKeys
  case-HasKeys r after (late_receipt c _ _ _ _ _ e) = rw e recorded-HasKeys
  case-HasKeys r after (late_observation s _ _ _ _ _ e) = rw e recorded-HasKeys
  case-HasKeys r after (stores _ _ _ _ e) = rw e (record {
    states_keyed = put-Distinct StateKey-discrete (state_key u) _ store.states h.states_keyed;
    messages_keyed = recorded-HasKeys.messages_keyed;
    cursors_keyed = recorded-HasKeys.cursors_keyed;
  })

feed-HasKeys :
    (fingerprint : StockRealtimeUpdate → String) (us : List StockRealtimeUpdate)
    (store : HotStateStore)
    → AllChecked fingerprint us
    → HasKeys store
    → HasKeys (feed fingerprint us store)
unfolding feed
feed-HasKeys fingerprint [] store valid h = h
feed-HasKeys fingerprint (u ∷ us) store valid h =
    feed-HasKeys fingerprint us _ valid.1
      (case-HasKeys fingerprint u store h _ _ (apply-Applies fingerprint u store valid.0))

-- The store with its entries in the order of the checkpoint.
abbrev sorted_store : HotStateStore → HotStateStore
sorted_store store = record {
  states = sorted_entries state_first store.states;
  processed_messages = sorted_entries text_first store.processed_messages;
  source_cursors = sorted_entries cursor_first store.source_cursors;
}

sorted_store-Agrees : (store : HotStateStore) → HasKeys store → Agrees (sorted_store store) store
sorted_store-Agrees store h = record {
  states_agree =
      λ k. get-sorted_entries state_first StateKey-discrete k store.states h.states_keyed;
  cursors_agree = λ k.
      get-sorted_entries cursor_first CursorKey-discrete k store.source_cursors h.cursors_keyed;
  messages_agree = λ k.
      get-sorted_entries text_first String-discrete k store.processed_messages h.messages_keyed;
}

module _ (store : HotStateStore) (sound : IsSound store) (h : HasKeys store) where
  load_states :
      load StateKey-discrete key_of_state value_error (sorted_values state_first store.states) []
      ≡ ok (sorted_entries state_first store.states)
  load_states =
      load_lem StateKey-discrete key_of_state value_error _
        (sorted_entries-Distinct state_first StateKey-discrete store.states h.states_keyed)
        (sort_by-All _ _ store.states (
          All-imp store.states
            (λ e found. let s = sound.state_sound e.0 e.1 found in cc (s.date, s.stock))
            (All-get StateKey-discrete store.states h.states_keyed)))

  load_cursors :
      load CursorKey-discrete key_of_cursor value_error
        (sorted_values cursor_first store.source_cursors)
        []
      ≡ ok (sorted_entries cursor_first store.source_cursors)
  load_cursors =
      load_lem CursorKey-discrete key_of_cursor value_error _
        (sorted_entries-Distinct cursor_first CursorKey-discrete store.source_cursors
          h.cursors_keyed)
        (sort_by-All _ _ store.source_cursors (
          All-imp store.source_cursors
            (λ e found. let c = sound.cursor_sound e.0 e.1 found in cc (c.date, c.stock, c.source))
            (All-get CursorKey-discrete store.source_cursors h.cursors_keyed)))

  restore-checkpoint_of : (at : ℕ) → restore (checkpoint_of at store) ≡ ok (sorted_store store)
  unfolding restore
  restore-checkpoint_of at =
      rw
        (
          load_states,
          dict_of_lem String-discrete (sorted_entries text_first store.processed_messages) (
              sorted_entries-Distinct text_first String-discrete store.processed_messages
                h.messages_keyed),
          load_cursors,
        )
        (ground arith)

latest_le : (at : ℕ) (ts : List ℕ) → All (λ t. t ≤ at) ts → latest ts at ≤ at
unfolding latest
latest_le at [] h = omega arith
latest_le at (t ∷ []) h = h.0
latest_le at (t ∷ u ∷ ts) h = omega (arith, h.0, latest_le at (u ∷ ts) h.1)

checkpoint_lem :
    (at : ℕ) (store : HotStateStore)
    → All (λ t. t ≤ at) (observed_times store)
    → checkpoint at store ≡ ok (checkpoint_of at store)
unfolding checkpoint is_blank
checkpoint_lem at store h = ground (arith, latest_le at (observed_times store) h)

empty_store-HasKeys : HasKeys empty_store
empty_store-HasKeys = record { states_keyed = tt; messages_keyed = tt; cursors_keyed = tt }

-- A round trip: of a new store that was fed checked updates, a checkpoint at or after every time it
-- has observed is made, is restored, and the restored store answers every lookup of a state, of a
-- cursor and of a processed message as the store did.
pub restore-checkpoint :
    (fingerprint : StockRealtimeUpdate → String) (us : List StockRealtimeUpdate) (at : ℕ)
    → AllChecked fingerprint us
    → All (λ t. t ≤ at) (observed_times (feed fingerprint us empty_store))
    → (c : HotStateCheckpoint) × (checkpoint at (feed fingerprint us empty_store) ≡ ok c)
      × (restored : HotStateStore) × (restore c ≡ ok restored)
      × Agrees restored (feed fingerprint us empty_store)
restore-checkpoint fingerprint us at valid h =
    let store : HotStateStore = feed fingerprint us empty_store in
    let keys = feed-HasKeys fingerprint us empty_store valid empty_store-HasKeys in
    (
      checkpoint_of at store,
      checkpoint_lem at store h,
      sorted_store store,
      restore-checkpoint_of store (feed-IsSound fingerprint us valid) keys at,
      sorted_store-Agrees store keys,
    )
