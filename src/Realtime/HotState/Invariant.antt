-- ===== src/Realtime/HotState/Invariant.antt =====
-- What holds of the store of packages/realtime/hot_state.py between two calls.
use dayjaview.Prelude.{◌≤◌, ◌≡◌, ◌≢◌, Option, none, some, String, String-discrete}
use dayjaview.Prelude.Dict.{get}
use dayjaview.Realtime.Models.{HotStockState, SourceCursor}
use dayjaview.Realtime.HotState.Store.{
  StateKey, CursorKey, StateKey-discrete, CursorKey-discrete, HotStateStore, empty_store,
}

abbrev pub state_at : StateKey → HotStateStore → Option HotStockState
state_at key store = get StateKey-discrete key store.states

abbrev pub cursor_at : CursorKey → HotStateStore → Option SourceCursor
cursor_at key store = get CursorKey-discrete key store.source_cursors

abbrev pub seen_at : String → HotStateStore → Option String
seen_at message store = get String-discrete message store.processed_messages

-- The cursor of the state's own source is at the state or past it.
abbrev pub Covers : Option SourceCursor → HotStockState → Type 0
Covers none s = ⊥
Covers (some c) s = (s.source_sequence ≤ c.source_sequence) × (s.received_at ≤ c.received_at)

pub record IsStateSound (store : HotStateStore) (key : StateKey) (s : HotStockState) : Type 0 where
  pub date : s.market_date ≡ key.0
  pub stock : s.stock_id ≡ key.1
  pub versioned : 1 ≤ s.version
  pub in_time : s.occurred_at ≤ s.received_at
  pub covered : Covers (cursor_at (key.0, key.1, s.source) store) s
  pub processed : seen_at s.last_message_id store ≢ none

pub record IsCursorSound (key : CursorKey) (c : SourceCursor) : Type 0 where
  pub date : c.market_date ≡ key.0
  pub stock : c.stock_id ≡ key.1
  pub source : c.source ≡ key.2

pub record IsSound (store : HotStateStore) : Type 0 where
  pub state_sound :
      (key : StateKey) (s : HotStockState) → state_at key store ≡ some s → IsStateSound store key s
  pub cursor_sound :
      (key : CursorKey) (c : SourceCursor) → cursor_at key store ≡ some c → IsCursorSound key c

pub empty_store-IsSound : IsSound empty_store
unfolding get
empty_store-IsSound = record { state_sound = λ key s h. cc; cursor_sound = λ key c h. cc }
