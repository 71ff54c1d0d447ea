-- ===== src/Realtime/HotState/Checkpoint.antt =====
-- `get`, `states_for`, `checkpoint` and `restore` of `HotStateStore` in
-- packages/realtime/hot_state.py.
use Prim.Native.Nat.{compare}
use Prim.Native.String.{compare as compare_text, then as thenby}
use text.Mathlib.Text.{is_le}
use dayjaview.Prelude.{
  ◌==◌, ℕ, max, Bool, Option, none, some, List, [], ◌∷◌, ◌++◌, map, String, String-discrete, ite,
  length, sort_by, if◌then◌else◌, true, false, not, unique, text_first,
}
use dayjaview.Prelude.Dict.{get}
use dayjaview.Prelude.Entries.{sorted_entries, sorted_values, load, dict_of}
use dayjaview.Prelude.Exec.{Result, ok, raised, value_error, and_then, construct}
use dayjaview.Realtime.Models.{HotStockState, SourceCursor, HotStateCheckpoint, check_checkpoint}
use dayjaview.Realtime.HotState.Store.{
  StateKey, CursorKey, StateKey-discrete, CursorKey-discrete, HotStateStore,
}

-- `HotStateStore.get`
abbrev pub state_of : ℕ → String → HotStateStore → Option HotStockState
state_of market_date stock_id store = get StateKey-discrete (market_date, stock_id) store.states

-- Keys in the order in which Python sorts them.
unfoldable pub state_first : StateKey → StateKey → Bool
state_first a b = is_le (thenby (compare a.0 b.0) (compare_text a.1 b.1))

unfoldable pub cursor_first : CursorKey → CursorKey → Bool
cursor_first a b =
    is_le (thenby (compare a.0 b.0) (thenby (compare_text a.1 b.1) (compare_text a.2 b.2)))

-- The states of the given stocks that have one.
unfoldable pub present : ℕ → List String → HotStateStore → List HotStockState
present market_date [] store = []
present market_date (id ∷ ids) store =
    let rest = present market_date ids store in
    elim (state_of market_date id store) [ none ↦ rest | some s ↦ s ∷ rest ]

unfoldable pub states_for : ℕ → List String → HotStateStore → List HotStockState
unfolding present unique String-discrete sort_by text_first
states_for market_date stock_ids store =
    present market_date (sort_by text_first (unique String-discrete stock_ids)) store

-- `max(times, default=default)`
unfoldable pub latest : List ℕ → ℕ → ℕ
latest [] default = default
latest (t ∷ ts) default = elim ts [ [] ↦ t | u ∷ us ↦ max t (latest ts default) ]

abbrev pub hot_state_checkpoint_version : String
hot_state_checkpoint_version = "hot-state-2026.08.1"

abbrev pub observed_times : HotStateStore → List ℕ
observed_times store =
    map (λ e. HotStockState.received_at e.1) store.states
    ++ map (λ e. SourceCursor.received_at e.1) store.source_cursors

abbrev pub checkpoint_of : ℕ → HotStateStore → HotStateCheckpoint
checkpoint_of created_at store = record {
  checkpoint_version = hot_state_checkpoint_version;
  created_at = created_at;
  as_of = latest (observed_times store) created_at;
  states = sorted_values state_first store.states;
  processed_messages = sorted_entries text_first store.processed_messages;
  source_cursors = sorted_values cursor_first store.source_cursors;
}

unfoldable pub checkpoint : ℕ → HotStateStore → Result HotStateCheckpoint
unfolding latest sort_by state_first cursor_first text_first
checkpoint created_at store = construct check_checkpoint (checkpoint_of created_at store)

abbrev pub key_of_state : HotStockState → StateKey
key_of_state s = (s.market_date, s.stock_id)

abbrev pub key_of_cursor : SourceCursor → CursorKey
key_of_cursor c = (c.market_date, c.stock_id, c.source)

unfoldable pub restore : HotStateCheckpoint → Result HotStateStore
unfolding load dict_of String-discrete StateKey-discrete CursorKey-discrete
restore c =
    if not (is_same_text c.checkpoint_version hot_state_checkpoint_version)
    then raised value_error
    else and_then (load StateKey-discrete key_of_state value_error c.states []) (λ states.
      let messages = dict_of String-discrete c.processed_messages [] in
      if length messages == length c.processed_messages
      then and_then (load CursorKey-discrete key_of_cursor value_error c.source_cursors [])
          (λ cursors.
            ok
              (record { states = states; processed_messages = messages; source_cursors = cursors }))
      else raised value_error)
  where
    is_same_text : String → String → Bool
    is_same_text a b = ite (String-discrete a b) true false
