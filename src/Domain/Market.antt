-- ===== src/Domain/Market.antt =====
-- `StockMarketObservation` of packages/domain/models.py. A date is the number of its day, an aware
-- `datetime` the number of microseconds since a fixed instant.
use Prim.Native.Nat.{◌%◌}
use dayjaview.Prelude.{
  ℕ, Bool, true, false, not, ◌&&◌, Option, none, some, String, String-discrete, ite, ◌==◌,
}
use dayjaview.Prelude.Exec.{Result, value_error, require}
use dayjaview.Domain.Decimal.{Decimal, is_finite, is_negative}

pub record StockMarketObservation : Type 0 where
  pub stock_id : String
  pub market_date : ℕ
  pub observed_at : ℕ
  pub current_price : Option Decimal
  pub cumulative_trading_value : Option Decimal
  pub fresh : Bool
  pub trading_halted : Bool
  pub corporate_action_unresolved : Bool

-- Missing, or finite and not negative.
abbrev pub is_amount : Option Decimal → Bool
is_amount none = true
is_amount (some d) = is_finite d && not (is_negative d)

-- `__post_init__`
unfoldable pub check_observation : StockMarketObservation → Result (Unit {0})
check_observation o =
    require
      (not (ite (String-discrete o.stock_id "") true false)
        && is_amount o.current_price
        && is_amount o.cumulative_trading_value)
      value_error

-- A time of day is the number of microseconds since midnight.
pub record StockTradingValueObservation : Type 0 where
  pub stock_id : String
  pub market_date : ℕ
  pub observed_at : ℕ
  pub time_bucket : ℕ
  pub cumulative_trading_value : Option Decimal
  pub comparable : Bool
  pub fresh : Bool
  pub trading_halted : Bool
  pub corporate_action_unresolved : Bool

-- `StockTradingValueObservation.__post_init__`: the bucket is a whole minute
unfoldable pub check_trading_value : StockTradingValueObservation → Result (Unit {0})
check_trading_value o =
    require
      (not (ite (String-discrete o.stock_id "") true false)
        && o.time_bucket % 60_000_000 == 0
        && is_amount o.cumulative_trading_value)
      value_error
