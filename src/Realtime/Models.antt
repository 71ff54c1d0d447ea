-- ===== src/Realtime/Models.antt =====
-- packages/realtime/models.py: the canonical stock input and the records of the hot state.
use dayjaview.Prelude.{
  ℕ, suc, Bool, true, false, not, ◌&&◌, ◌||◌, Option, none, some, List, String, ltb, is_blank,
  if◌then◌else◌, ◌≡◌, arith,
}
use dayjaview.Prelude.Exec.{Result, ok, raised, value_error, and_then}
use dayjaview.Domain.Decimal.{Decimal, is_finite, is_nonpositive}
use dayjaview.Events.Lineage.{LineageRef}
use dayjaview.Domain.Market.{StockMarketObservation, check_observation}

pub record StockRealtimeUpdate : Type 0 where
  pub message_id : String
  pub stock_id : String
  pub market_date : ℕ
  pub source : String
  pub source_sequence : ℕ
  pub occurred_at : ℕ
  pub received_at : ℕ
  pub current_price : Option Decimal
  pub cumulative_trading_value : Option Decimal
  pub base_price : Option Decimal
  pub fresh : Bool
  pub trading_halted : Bool
  pub corporate_action_unresolved : Bool
  pub lineage : List LineageRef

unfoldable pub update_observation : StockRealtimeUpdate → StockMarketObservation
update_observation u = record {
  stock_id = u.stock_id;
  market_date = u.market_date;
  observed_at = u.occurred_at;
  current_price = u.current_price;
  cumulative_trading_value = u.cumulative_trading_value;
  fresh = u.fresh;
  trading_halted = u.trading_halted;
  corporate_action_unresolved = u.corporate_action_unresolved;
}

-- Missing, or finite and greater than zero.
abbrev pub is_price : Option Decimal → Bool
is_price none = true
is_price (some d) = is_finite d && not (is_nonpositive d)

-- `StockRealtimeUpdate.__post_init__`
unfoldable pub check_update : StockRealtimeUpdate → Result (Unit {0})
unfolding update_observation check_observation
check_update u =
    if is_blank u.message_id || is_blank u.stock_id || is_blank u.source
    then raised value_error
    else if ltb u.received_at u.occurred_at
    then raised value_error
    else if not (is_price u.base_price)
    then raised value_error
    else check_observation (update_observation u)

pub record HotStockState : Type 0 where
  pub stock_id : String
  pub market_date : ℕ
  pub version : ℕ
  pub source : String
  pub source_sequence : ℕ
  pub occurred_at : ℕ
  pub received_at : ℕ
  pub current_price : Option Decimal
  pub cumulative_trading_value : Option Decimal
  pub fresh : Bool
  pub trading_halted : Bool
  pub corporate_action_unresolved : Bool
  pub last_message_id : String
  pub lineage : List LineageRef

unfoldable pub state_observation : HotStockState → StockMarketObservation
state_observation s = record {
  stock_id = s.stock_id;
  market_date = s.market_date;
  observed_at = s.occurred_at;
  current_price = s.current_price;
  cumulative_trading_value = s.cumulative_trading_value;
  fresh = s.fresh;
  trading_halted = s.trading_halted;
  corporate_action_unresolved = s.corporate_action_unresolved;
}

-- `HotStockState.__post_init__`
unfoldable pub check_hot_state : HotStockState → Result (Unit {0})
unfolding state_observation check_observation
check_hot_state s =
    if is_blank s.stock_id || is_blank s.source || is_blank s.last_message_id
    then raised value_error
    else if ltb s.version 1
    then raised value_error
    else if ltb s.received_at s.occurred_at
    then raised value_error
    else check_observation (state_observation s)

abbrev pub state_of_update : StockRealtimeUpdate → ℕ → HotStockState
state_of_update u version = record {
  stock_id = u.stock_id;
  market_date = u.market_date;
  version = version;
  source = u.source;
  source_sequence = u.source_sequence;
  occurred_at = u.occurred_at;
  received_at = u.received_at;
  current_price = u.current_price;
  cumulative_trading_value = u.cumulative_trading_value;
  fresh = u.fresh;
  trading_halted = u.trading_halted;
  corporate_action_unresolved = u.corporate_action_unresolved;
  last_message_id = u.message_id;
  lineage = u.lineage;
}

-- `HotStockState.from_update`: the constructor runs its checks
unfoldable pub from_update : StockRealtimeUpdate → ℕ → Result HotStockState
unfolding check_hot_state
from_update u version =
    let s = state_of_update u version in and_then (check_hot_state s) (λ _. ok s)

pub data HotApplyDisposition : Type 0 where
  applied duplicate stale_source_sequence stale_received_at stale_observation : HotApplyDisposition

pub record HotApplyResult : Type 0 where
  pub disposition : HotApplyDisposition
  pub previous : Option HotStockState
  pub current : Option HotStockState

-- `HotApplyResult.changed`
abbrev pub changed : HotApplyDisposition → Bool
changed applied = true
changed duplicate = false
changed stale_source_sequence = false
changed stale_received_at = false
changed stale_observation = false

pub record SourceCursor : Type 0 where
  pub market_date : ℕ
  pub stock_id : String
  pub source : String
  pub source_sequence : ℕ
  pub received_at : ℕ

pub record HotStateCheckpoint : Type 0 where
  pub checkpoint_version : String
  pub created_at : ℕ
  pub as_of : ℕ
  pub states : List HotStockState
  pub processed_messages : List (String × String)
  pub source_cursors : List SourceCursor

-- `HotStateCheckpoint.__post_init__`
abbrev pub check_checkpoint : HotStateCheckpoint → Result (Unit {0})
check_checkpoint c =
    if is_blank c.checkpoint_version || ltb c.created_at c.as_of then raised value_error else ok tt

-- A state made from a checked update passes the checks of its own constructor.
pub from_update_lem :
    (u : StockRealtimeUpdate) (n : ℕ)
    → check_update u ≡ ok tt
    → from_update u (suc n) ≡ ok (state_of_update u (suc n))
unfolding check_update from_update
from_update_lem u n h = ground arith
