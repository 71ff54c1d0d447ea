-- ===== src/Calculations/StockReturn.antt =====
-- `_stock_return` of packages/calculations/theme_metrics.py: the return of one stock, or why it has
-- none.
use mathlib.Core.Path.{refl}
use dayjaview.Prelude.{
  ℕ, Bool, true, false, not, ◌||◌, Option, none, some, ltb, ◌==◌, if◌then◌else◌, ◌≡◌, ◌≤◌, arith,
  sym,
}
use dayjaview.Domain.Reasons.{
  UnavailableReason, QualityFlag, missing_reference_data, missing_market_data,
  reference_price_unavailable, market_price_unavailable, point_in_time_violation, stale_market_data,
}
use dayjaview.Domain.Arithmetic.{divide, subtract, of_count}
use dayjaview.Domain.References.{StockReference, positive_close}
use dayjaview.Domain.Decimal.{Decimal}
use dayjaview.Domain.Market.{StockMarketObservation}

pub data StockReturn : Type 0 where
  unavailable : QualityFlag → UnavailableReason → StockReturn
  returned : Decimal → StockReturn

-- The last test, of the price.
unfoldable pub priced : Decimal → Option Decimal → StockReturn
unfolding divide subtract
priced close none = unavailable market_price_unavailable missing_market_data
priced close (some price) = returned (subtract 60 (divide 60 price close) (of_count 1))

-- A test that a return has passed.
passed :
    (failed : Bool) (flag : QualityFlag) (reason : UnavailableReason) (rest : StockReturn)
    {value : Decimal}
    → (if failed then unavailable flag reason else rest) ≡ returned value
    → (failed ≡ false) × (rest ≡ returned value)
passed true flag reason rest h = ground arith
passed false flag reason rest h = (refl, h)

in_time :
    (day date time known : ℕ)
    → (not (day == date) || ltb time known) ≡ false
    → (day ≡ date) × (known ≤ time)
in_time day date time known h = (ground arith, ground arith)

holds : (b : Bool) → not b ≡ false → b ≡ true
holds true h = refl
holds false h = sym h

module _ (market_date as_of : ℕ) where
  -- The tests of the observation.
  unfoldable pub against_close : Option Decimal → Option StockMarketObservation → StockReturn
  unfolding priced
  against_close none observation = unavailable reference_price_unavailable missing_reference_data
  against_close (some close) none = unavailable market_price_unavailable missing_market_data
  against_close (some close) (some o) =
      if not (o.market_date == market_date) || ltb as_of o.observed_at
      then unavailable point_in_time_violation missing_market_data
      else if o.trading_halted
      then unavailable QualityFlag.trading_halted UnavailableReason.trading_halted
      else if o.corporate_action_unresolved
      then unavailable QualityFlag.corporate_action_unresolved
          UnavailableReason.corporate_action_unresolved
      else if not o.fresh
      then unavailable stale_market_data missing_market_data
      else priced close (positive_close o.current_price)

  -- The tests of the reference, and those of the observation.
  unfoldable pub stock_return : Option StockReference → Option StockMarketObservation → StockReturn
  unfolding against_close
  stock_return none observation = unavailable reference_price_unavailable missing_reference_data
  stock_return (some r) observation =
      if not r.corporate_action_resolved
      then unavailable QualityFlag.corporate_action_unresolved
          UnavailableReason.corporate_action_unresolved
      else if not (r.effective_for == market_date) || ltb as_of r.known_at
      then unavailable point_in_time_violation missing_reference_data
      else against_close (positive_close r.previous_adjusted_close) observation

  -- What a return rests on: a reference for the day and an observation on the day, both known by the
  -- time of the calculation, of a stock that was traded, with the two prices.
  pub record IsKnownReturn (reference : Option StockReference)
      (observation : Option StockMarketObservation) (value : Decimal) : Type 0 where
    pub its_reference : StockReference
    pub its_observation : StockMarketObservation
    pub there : (reference ≡ some its_reference) × (observation ≡ some its_observation)
    pub for_day :
        (its_reference.effective_for ≡ market_date) × (its_observation.market_date ≡ market_date)
    pub known : (its_reference.known_at ≤ as_of) × (its_observation.observed_at ≤ as_of)
    pub resolved :
        (its_reference.corporate_action_resolved ≡ true)
        × (its_observation.corporate_action_unresolved ≡ false)
    pub traded : (its_observation.fresh ≡ true) × (its_observation.trading_halted ≡ false)
    pub close : Decimal
    pub price : Decimal
    pub prices :
        (positive_close its_reference.previous_adjusted_close ≡ some close)
        × (positive_close its_observation.current_price ≡ some price)
    pub computed : value ≡ subtract 60 (divide 60 price close) (of_count 1)

  priced-eq-returned :
      (close : Decimal) (price : Option Decimal) (value : Decimal)
      → priced close price ≡ returned value
      → (p : Decimal) × (price ≡ some p) × (value ≡ subtract 60 (divide 60 p close) (of_count 1))
  unfolding priced
  priced-eq-returned close none value h = ground arith
  priced-eq-returned close (some p) value h = (p, refl, ground arith)

  against_close-eq-returned :
      (close : Option Decimal) (observation : Option StockMarketObservation) (value : Decimal)
      → against_close close observation ≡ returned value
      → (c : Decimal) × (o : StockMarketObservation) × (close ≡ some c)
        × (observation ≡ some o)
        × (o.market_date ≡ market_date)
        × (o.observed_at ≤ as_of)
        × (o.trading_halted ≡ false)
        × (o.corporate_action_unresolved ≡ false)
        × (o.fresh ≡ true)
        × (priced c (positive_close o.current_price) ≡ returned value)
  unfolding against_close
  against_close-eq-returned none observation value h = ground arith
  against_close-eq-returned (some c) none value h = ground arith
  against_close-eq-returned (some c) (some o) value h =
      let (dated, h1) = passed _ _ _ _ h in
      let (halted, h2) = passed _ _ _ _ h1 in
      let (action, h3) = passed _ _ _ _ h2 in
      let (stale, h4) = passed _ _ _ _ h3 in
      let (date, known) = in_time o.market_date market_date as_of o.observed_at dated in
      (c, o, refl, refl, date, known, halted, action, holds o.fresh stale, h4)

  pub stock_return-IsKnownReturn :
      (reference : Option StockReference) (observation : Option StockMarketObservation)
      (value : Decimal)
      → stock_return reference observation ≡ returned value
      → IsKnownReturn reference observation value
  unfolding stock_return
  stock_return-IsKnownReturn none observation value h = ground arith
  stock_return-IsKnownReturn (some r) observation value h =
      let (unresolved, h1) = passed _ _ _ _ h in
      let (dated, inner) = passed _ _ _ _ h1 in
      let (on_day, early) = in_time r.effective_for market_date as_of r.known_at dated in
      let (c, o, its_close, its_o, date, known, halted, action, fresh, last) =
        against_close-eq-returned (positive_close r.previous_adjusted_close) observation value
          inner in
      let (p, its_price, computed) =
        priced-eq-returned c (positive_close o.current_price) value last in
      record {
        its_reference = r;
        its_observation = o;
        there = (refl, its_o);
        for_day = (on_day, date);
        known = (early, known);
        resolved = (holds r.corporate_action_resolved unresolved, action);
        traded = (fresh, halted);
        close = c;
        price = p;
        prices = (its_close, its_price);
        computed = computed;
      }
