-- ===== src/Tests/Checkpoint.antt =====
-- Checkpoints of packages/realtime/hot_state.py at concrete inputs.
use dayjaview.Prelude.{
  ℕ, ◌≡◌, refl, List, [], ◌∷◌, ◌+◌, ◌≤◌, String, some, String-discrete, is_blank, All, arith, false,
  none, true,
}
use dayjaview.Prelude.Exec.{ok}
use dayjaview.Realtime.HotState.{
  empty_store, HotStateStore, apply, admit, observe, commit, StateKey-discrete, CursorKey-discrete,
  compare_order, record_cursor,
}
use dayjaview.Realtime.HotState.Runs.{feed}
use dayjaview.Realtime.HotState.Checkpoint.{checkpoint, restore, observed_times}
use dayjaview.Realtime.HotState.Agreement.{Agrees, answers, feed-Agrees}
use dayjaview.Realtime.HotState.Restore.{restore-checkpoint}
use dayjaview.Realtime.HotState.{HotStateStore, apply}
use dayjaview.Realtime.Models.{check_update, HotStateCheckpoint, StockRealtimeUpdate, from_update}
use dayjaview.Prelude.Dict.{get, put}
use dayjaview.Domain.Decimal.{finite, up}

abbrev fingerprint : StockRealtimeUpdate → String
fingerprint u = u.message_id

abbrev tick : String → String → ℕ → StockRealtimeUpdate
tick id stock at = record {
  message_id = id;
  stock_id = stock;
  market_date = 20_000;
  source = "kiwoom";
  source_sequence = at;
  occurred_at = at;
  received_at = at + 5;
  current_price = some (finite false 71_000 (up 0));
  cumulative_trading_value = none;
  base_price = none;
  fresh = true;
  trading_halted = false;
  corporate_action_unresolved = false;
  lineage = [];
}

abbrev ticks : List StockRealtimeUpdate
ticks = tick "m-1" "005930" 100 ∷ tick "m-2" "000660" 200 ∷ []

ticks_checked : All (λ u. check_update u ≡ ok tt) ticks
unfolding check_update String-discrete is_blank
ticks_checked = (refl, (refl, tt))

abbrev fed : HotStateStore
fed = feed fingerprint ticks empty_store

times_passed : All (λ t. t ≤ 300) (observed_times fed)
unfolding feed apply admit observe commit from_update get put check_update String-discrete
    StateKey-discrete CursorKey-discrete compare_order is_blank record_cursor
times_passed = omega arith

restore-checkpoint_example :
    (c : HotStateCheckpoint) × (checkpoint 300 fed ≡ ok c)
    × (restored : HotStateStore) × (restore c ≡ ok restored)
    × Agrees restored fed
restore-checkpoint_example = restore-checkpoint fingerprint ticks 300 ticks_checked times_passed

abbrev came_back :
    (c : HotStateCheckpoint) × (checkpoint 300 fed ≡ ok c)
    × (restored : HotStateStore) × (restore c ≡ ok restored)
    × Agrees restored fed
came_back = restore-checkpoint fingerprint ticks 300 ticks_checked times_passed

feed-Agrees_example :
    (answers fingerprint ticks came_back.2 ≡ answers fingerprint ticks fed)
    × Agrees (feed fingerprint ticks came_back.2) (feed fingerprint ticks fed)
feed-Agrees_example = feed-Agrees fingerprint ticks came_back.2 fed came_back.4
