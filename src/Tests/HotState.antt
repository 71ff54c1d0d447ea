-- ===== src/Tests/HotState.antt =====
-- packages/realtime/hot_state.py at concrete inputs.
use dayjaview.Prelude.{
  ℕ, ◌≡◌, refl, true, false, none, some, List, [], ◌∷◌, String, String-discrete, is_blank, ◌+◌,
}
use dayjaview.Prelude.Dict.{get, put}
use dayjaview.Prelude.Exec.{ok}
use dayjaview.Prelude.{All}
use dayjaview.Domain.Decimal.{finite, up}
use dayjaview.Realtime.Models.{
  StockRealtimeUpdate, check_update, HotApplyResult, state_of_update, applied, from_update,
}
use dayjaview.Realtime.HotState.{
  empty_store, apply, StateKey-discrete, admit, observe, commit, CursorKey-discrete, compare_order,
}
use dayjaview.Realtime.HotState.Steps.{Applies, apply-Applies}
use dayjaview.Realtime.HotState.Runs.{replaced}

abbrev fingerprint : StockRealtimeUpdate → String
fingerprint u = u.message_id

abbrev tick : String → ℕ → ℕ → StockRealtimeUpdate
tick id sequence at = record {
  message_id = id;
  stock_id = "005930";
  market_date = 20_000;
  source = "kiwoom";
  source_sequence = sequence;
  occurred_at = at;
  received_at = at + 5;
  current_price = some (finite false 71_000 (up 0));
  cumulative_trading_value = none;
  base_price = none;
  fresh = true;
  trading_halted = false;
  corporate_action_unresolved = false;
  lineage = [];
}

abbrev first : StockRealtimeUpdate
first = tick "m-1" 1 100

abbrev second : StockRealtimeUpdate
second = tick "m-2" 2 200

first_checked : check_update first ≡ ok tt
unfolding check_update String-discrete is_blank
first_checked = refl

second_checked : check_update second ≡ ok tt
unfolding check_update String-discrete is_blank
second_checked = refl

abbrev ticks : List StockRealtimeUpdate
ticks = first ∷ second ∷ first ∷ []

ticks_checked : All (λ u. check_update u ≡ ok tt) ticks
ticks_checked = (first_checked, (second_checked, (first_checked, tt)))

apply-Applies_example :
    Applies fingerprint first empty_store
      (apply fingerprint first empty_store).0
      (apply fingerprint first empty_store).1
apply-Applies_example = apply-Applies fingerprint first empty_store first_checked

abbrev stored : HotApplyResult
stored = record { disposition = applied; previous = none; current = some (state_of_update first 1) }

apply-first : (apply fingerprint first empty_store).0 ≡ ok stored
unfolding apply admit observe commit from_update get check_update String-discrete is_blank
apply-first = refl

-- Two of the three updates replaced the state.
two_replaced : replaced fingerprint (20_000, "005930") ticks empty_store ≡ 2
unfolding replaced apply admit observe commit from_update get put check_update String-discrete
    StateKey-discrete CursorKey-discrete compare_order is_blank
two_replaced = refl
