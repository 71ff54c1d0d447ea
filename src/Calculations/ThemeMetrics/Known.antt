-- ===== src/Calculations/ThemeMetrics/Known.antt =====
-- The returns that `calculate_theme_metrics` of packages/calculations/theme_metrics.py collects, by
-- the references and the observations that it is given.
use dayjaview.Prelude.{
  refl, ℕ, some, List, [], ◌∷◌, String, String-discrete, ◌≡◌, Any, ◌⊎◌, inr, ◌≤◌, inl, subst,
  none-ne-some, All, sym, ◌∙◌, Option-cases, arith, ite, some-injective, ap,
}
use dayjaview.Prelude.Exec.{ok, ok-injective}
use dayjaview.Calculations.StockReturn.{
  returned, unavailable, StockReturn, stock_return-IsKnownReturn,
}
use dayjaview.Prelude.Dict.{Dict, get, get-empty, put-All, put, get-put}
use dayjaview.Calculations.ThemeMetrics.{
  index_unique, StockMarketObservation, ok, Decimal, ThemeCalculationPolicy, get, MetricsInputs,
  return_of, collect_returns, ThemeMember, CollectedReturns, divide, collect_return, put,
}
use dayjaview.Domain.References.{StockReference, positive_close}
use dayjaview.Domain.Market.{StockMarketObservation}
use dayjaview.Domain.Decimal.{Decimal}
use dayjaview.Calculations.Policies.{ThemeCalculationPolicy}
use dayjaview.Domain.Membership.{ThemeMember}
use dayjaview.Domain.Arithmetic.{subtract, divide, of_count}

module _ {A : Type 0} (stock_of : A → String) where
  -- What is found under an id is one of the records, and has that id.
  index_unique_from :
      (xs : List A) (indexed r : Dict String A) (id : String) (x : A)
      → index_unique stock_of xs indexed ≡ ok r
      → get String-discrete id r ≡ some x
      → (get String-discrete id indexed ≡ some x) ⊎ (Any (λ y. y ≡ x) xs × (stock_of x ≡ id))
  unfolding index_unique
  index_unique_from [] indexed r id x h found =
      inl (subst (λ d. get String-discrete id d ≡ some x) (sym (ok-injective h)) found)
  index_unique_from (y ∷ ys) indexed r id x h found =
      elim (index_unique_from ys (put String-discrete (stock_of y) y indexed) r id x later found) [
        | inr (at, its_id) ↦ inr (inr at, its_id)
        | inl new ↦
            chosen (String-discrete (stock_of y) id)
              (sym (get-put String-discrete (stock_of y) id y indexed) ∙ new)
      ]
    where
      later : index_unique stock_of ys (put String-discrete (stock_of y) y indexed) ≡ ok r
      later = elim (Option-cases (get String-discrete (stock_of y) indexed)) [
        | inl absent ↦ ground arith
        | inr (z, present) ↦ ground arith
      ]

      chosen :
          (same : Dec (stock_of y ≡ id))
          → ite same (some y) (get String-discrete id indexed) ≡ some x
          → (get String-discrete id indexed ≡ some x)
            ⊎ (Any (λ z. z ≡ x) (y ∷ ys) × (stock_of x ≡ id))
      chosen (yes same) q =
          inr (inl (some-injective q), ap stock_of (sym (some-injective q)) ∙ same)
      chosen (no other) q = inl q

  pub index_unique_given :
      (xs : List A) (r : Dict String A) (id : String) (x : A)
      → index_unique stock_of xs [] ≡ ok r
      → get String-discrete id r ≡ some x
      → Any (λ y. y ≡ x) xs × (stock_of x ≡ id)
  index_unique_given xs r id x h found = elim (index_unique_from xs [] r id x h found) [
    | inr given ↦ given
    | inl before ↦ absurd (none-ne-some (sym (get-empty String-discrete id) ∙ before))
  ]

module _ (market_date as_of : ℕ) (references : List StockReference)
    (observations : List StockMarketObservation) where
  -- The return of a stock is calculated from one of the given references and one of the given
  -- observations, both of the stock, for the day, and known by the time of the calculation.
  pub record IsReturn (stock_id : String) (value : Decimal) : Type 0 where
    pub reference : StockReference
    pub observation : StockMarketObservation
    pub given : Any (λ r. r ≡ reference) references × Any (λ o. o ≡ observation) observations
    pub of_stock : (reference.stock_id ≡ stock_id) × (observation.stock_id ≡ stock_id)
    pub for_day : (reference.effective_for ≡ market_date) × (observation.market_date ≡ market_date)
    pub known : (reference.known_at ≤ as_of) × (observation.observed_at ≤ as_of)
    pub close : Decimal
    pub price : Decimal
    pub prices :
        (positive_close reference.previous_adjusted_close ≡ some close)
        × (positive_close observation.current_price ≡ some price)
    pub computed : value ≡ subtract 60 (divide 60 price close) (of_count 1)

  module _ (policy : ThemeCalculationPolicy) (by_stock : Dict String StockReference)
      (seen : Dict String StockMarketObservation)
      (indexed : index_unique (λ r. StockReference.stock_id r) references [] ≡ ok by_stock)
      (observed : index_unique (λ o. StockMarketObservation.stock_id o) observations []
        ≡ ok seen) where
    abbrev inputs : MetricsInputs
    inputs = record {
      market_date = market_date;
      as_of = as_of;
      references = by_stock;
      observations = seen;
      policy = policy;
    }

    return_of-IsReturn :
        (id : String) (value : Decimal) → return_of inputs id ≡ returned value → IsReturn id value
    return_of-IsReturn id value h =
        let k =
          stock_return-IsKnownReturn market_date as_of (get String-discrete id by_stock)
            (get String-discrete id seen) value h in
        let (r_given, r_id) =
          index_unique_given (λ r. StockReference.stock_id r) references by_stock id k.its_reference
            indexed k.there.0 in
        let (o_given, o_id) =
          index_unique_given (λ o. StockMarketObservation.stock_id o) observations seen id
            k.its_observation observed k.there.1 in
        record {
          reference = k.its_reference;
          observation = k.its_observation;
          given = (r_given, o_given);
          of_stock = (r_id, o_id);
          for_day = k.for_day;
          known = k.known;
          close = k.close;
          price = k.price;
          prices = k.prices;
          computed = k.computed;
        }

    pub collect_returns-All :
        (ms : List ThemeMember) (c : CollectedReturns)
        → All (λ e. IsReturn e.0 e.1) c.returns
        → All (λ e. IsReturn e.0 e.1) (collect_returns inputs ms c).returns
    unfolding collect_returns
    collect_returns-All [] c h = h
    collect_returns-All (m ∷ ms) c h =
        collect_returns-All ms (collect_return m.stock_id (return_of inputs m.stock_id) c)
          (kept (return_of inputs m.stock_id) refl)
      where
        kept :
            (s : StockReturn)
            → return_of inputs m.stock_id ≡ s
            → All (λ e. IsReturn e.0 e.1) (collect_return m.stock_id s c).returns
        kept (unavailable flag reason) q = h
        kept (returned value) q =
            put-All String-discrete (λ e. IsReturn e.0 e.1) m.stock_id value c.returns
              (return_of-IsReturn m.stock_id value q) h
