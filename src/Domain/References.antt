-- ===== src/Domain/References.antt =====
-- `StockReference` of packages/domain/models.py: what was known of a stock before a trading day.
use dayjaview.Prelude.{
  ℕ, Bool, true, false, not, ◌&&◌, ◌||◌, Option, none, some, String, String-discrete, ite, ltb,
  ◌==◌, if◌then◌else◌,
}
use dayjaview.Prelude.Exec.{Result, value_error, require}
use dayjaview.Domain.Decimal.{Decimal, is_finite, is_negative, is_nonpositive, is_at_most, one}
use dayjaview.Domain.Arithmetic.{multiply, of_count}

pub record StockReference : Type 0 where
  pub stock_id : String
  pub effective_for : ℕ
  pub known_at : ℕ
  pub previous_adjusted_close : Option Decimal
  pub listed_shares : Option ℕ
  pub free_float_ratio : Option Decimal
  pub free_float_validated : Bool
  pub version : String
  pub corporate_action_resolved : Bool

-- Missing, or finite and between 0 and 1.
abbrev is_ratio : Option Decimal → Bool
is_ratio none = true
is_ratio (some d) = is_finite d && not (is_negative d) && is_at_most d one

abbrev is_close : Option Decimal → Bool
is_close none = true
is_close (some d) = is_finite d && not (is_negative d)

-- `__post_init__`; a number of shares is not negative by its type
unfoldable pub check_reference : StockReference → Result (Unit {0})
check_reference r =
    require
      (not (ite (String-discrete r.stock_id "") true false)
        && not (ite (String-discrete r.version "") true false)
        && is_close r.previous_adjusted_close
        && is_ratio r.free_float_ratio)
      value_error

-- The close, if it is greater than zero.
abbrev pub positive_close : Option Decimal → Option Decimal
positive_close none = none
positive_close (some close) = if is_nonpositive close then none else some close

-- `adjusted_return_reference`
unfoldable pub adjusted_return_reference : ℕ → ℕ → StockReference → Option Decimal
adjusted_return_reference market_date as_of r =
    if not (r.effective_for == market_date)
      || ltb as_of r.known_at
      || not r.corporate_action_resolved
    then none
    else positive_close r.previous_adjusted_close

-- The capitalization of the free float, of a close and of a ratio that are known.
abbrev capitalization : Option Decimal → Option ℕ → Option Decimal → Bool → Option Decimal
capitalization none shares ratio validated = none
capitalization (some close) none ratio validated = none
capitalization (some close) (some shares) none validated = none
capitalization (some close) (some shares) (some ratio) validated =
    if shares == 0 || is_nonpositive ratio || not validated
    then none
    else some (multiply 28 (multiply 28 close (of_count shares)) ratio)

-- `free_float_market_cap`, with the 28 digits of the default context
unfoldable pub free_float_market_cap : ℕ → ℕ → StockReference → Option Decimal
unfolding adjusted_return_reference multiply
free_float_market_cap market_date as_of r =
    capitalization (adjusted_return_reference market_date as_of r) r.listed_shares
      r.free_float_ratio r.free_float_validated
