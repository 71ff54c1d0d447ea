-- ===== src/Calculations/ThemeMetrics/Capitals.antt =====
-- The capitalizations that `calculate_theme_metrics` of packages/calculations/theme_metrics.py weighs
-- the returns by, and the references that they are read from.
use dayjaview.Prelude.{
  refl, ℕ, true, Option, none, some, ltb, Bool-cases, List, [], ◌∷◌, String, String-discrete, ◌≡◌,
  ◌⊎◌, inl, inr, Any, All, ◌≤◌, arith, Option-cases, subst, length,
}
use dayjaview.Prelude.Exec.{ok, and_then-eq-ok, ok-injective}
use dayjaview.Prelude.Dict.{Dict, get}
use dayjaview.Domain.Decimal.{Decimal}
use dayjaview.Domain.Market.{StockMarketObservation}
use dayjaview.Domain.Membership.{ThemeMember}
use dayjaview.Domain.References.{StockReference, free_float_market_cap, adjusted_return_reference}
use dayjaview.Calculations.Metrics.{CappedWeight}
use dayjaview.Calculations.Policies.{ThemeCalculationPolicy}
use dayjaview.Calculations.Weights.{CapitalizationInput, calculate_capped_weights}
use dayjaview.Calculations.ThemeMetrics.{
  MetricsInputs, index_unique, cap_of, capitalized, observed_core, calculate_weighted_return,
  returns_of,
}
use dayjaview.Calculations.ThemeMetrics.Theme.{weighted, check_all}
use dayjaview.Calculations.ThemeMetrics.Known.{index_unique_given}

free_float_market_cap-known :
    (market_date as_of : ℕ) (r : StockReference) (cap : Decimal)
    → free_float_market_cap market_date as_of r ≡ some cap
    → (r.effective_for ≡ market_date) × (r.known_at ≤ as_of) × (r.corporate_action_resolved ≡ true)
unfolding free_float_market_cap adjusted_return_reference
free_float_market_cap-known market_date as_of r cap h = (ground arith, ground arith, ground arith)

module _ (market_date as_of : ℕ) (references : List StockReference) where
  -- The capitalization of a stock is that of one of the given references, of the stock, for the day,
  -- and known by the time of the calculation.
  pub record IsCapital (c : CapitalizationInput) : Type 0 where
    pub reference : StockReference
    pub given : Any (λ r. r ≡ reference) references
    pub of_stock : reference.stock_id ≡ c.stock_id
    pub for_day : reference.effective_for ≡ market_date
    pub known : reference.known_at ≤ as_of
    pub resolved : reference.corporate_action_resolved ≡ true
    pub capital : free_float_market_cap market_date as_of reference ≡ some c.free_float_market_cap

  module _ (policy : ThemeCalculationPolicy) (by_stock : Dict String StockReference)
      (seen : Dict String StockMarketObservation)
      (indexed : index_unique (λ r. StockReference.stock_id r) references [] ≡ ok by_stock) where
    abbrev inputs : MetricsInputs
    inputs = record {
      market_date = market_date;
      as_of = as_of;
      references = by_stock;
      observations = seen;
      policy = policy;
    }

    cap_of-IsCapital :
        (id : String) (cap : Decimal)
        → cap_of inputs id ≡ some cap
        → IsCapital (record { stock_id = id; free_float_market_cap = cap })
    cap_of-IsCapital id cap h = elim (Option-cases (get String-discrete id by_stock)) [
      | inl absent ↦ absurd (ground arith)
      | inr (r, present) ↦
          let (r_given, r_id) =
            index_unique_given (λ r. StockReference.stock_id r) references by_stock id r indexed
              present in
          let capital : free_float_market_cap market_date as_of r ≡ some cap = ground arith in
          let (day, known, resolved) =
            free_float_market_cap-known market_date as_of r cap capital in
          record {
            reference = r;
            given = r_given;
            of_stock = r_id;
            for_day = day;
            known = known;
            resolved = resolved;
            capital = capital;
          }
    ]

    pub capitalized-All : (ms : List ThemeMember) → All IsCapital (capitalized inputs ms)
    unfolding capitalized get
    capitalized-All [] = tt
    capitalized-All (m ∷ ms) = elim (Option-cases (cap_of inputs m.stock_id)) [
      | inl absent ↦ rw (absent) (capitalized-All ms)
      | inr (cap, present) ↦
          rw (present) (cap_of-IsCapital m.stock_id cap present, capitalized-All ms)
    ]

pub observed_core-All :
    (P : CapitalizationInput → Type 0) (returns : Dict String Decimal)
    (cs : List CapitalizationInput)
    → All P cs
    → All P (observed_core returns cs)
unfolding observed_core
observed_core-All P returns [] h = tt
observed_core-All P returns (c ∷ cs) h =
    elim (Option-cases (get String-discrete c.stock_id returns)) [
      | inl absent ↦ rw (absent) (observed_core-All P returns cs h.1)
      | inr (v, present) ↦ rw (present) (h.0, observed_core-All P returns cs h.1)
    ]

-- There are no weights and no weighted return; or the weights are those of the capitalizations, and
-- the return is their sum over the returns of the same stocks.
abbrev pub WeighedBy :
    ThemeCalculationPolicy
    → List CapitalizationInput
    → Dict String Decimal
    → List CappedWeight
    → Option Decimal
    → Type 0
WeighedBy policy caps returns weights weighted_return =
    ((weights ≡ []) × (weighted_return ≡ none))
    ⊎ ((sum : Decimal) × (calculate_capped_weights caps policy.maximum_constituent_weight
          ≡ ok weights)
        × (calculate_weighted_return weights (returns_of caps returns) ≡ ok sum)
        × (weighted_return ≡ some sum))

pub weighted-WeighedBy :
    (policy : ThemeCalculationPolicy) (missing : List String) (caps : List CapitalizationInput)
    (returns : Dict String Decimal) (w : List CappedWeight × Option Decimal)
    → weighted policy missing caps returns ≡ ok w
    → WeighedBy policy caps returns w.0 w.1
unfolding weighted
weighted-WeighedBy policy (id ∷ missing) caps returns w h = inl (ground arith, ground arith)
weighted-WeighedBy policy [] caps returns w h =
    elim (Bool-cases (ltb (length caps) policy.minimum_core_observations)) [
      | inl few ↦ inl (ground arith, ground arith)
      | inr enough ↦
          let h0 = simp (enough) at h in
          let (checked, _, h1) = and_then-eq-ok (check_all caps) _ h0 in
          let (weights, weighed, h2) =
            and_then-eq-ok (calculate_capped_weights caps policy.maximum_constituent_weight) _ h1 in
          let (sum, summed, h3) =
            and_then-eq-ok (calculate_weighted_return weights (returns_of caps returns)) _ h2 in
          let same = ok-injective h3 in
          let (w0, s0, r0) =
            subst
              (λ (x : List CappedWeight × Option Decimal).
                (calculate_capped_weights caps policy.maximum_constituent_weight ≡ ok x.0)
                × (calculate_weighted_return x.0 (returns_of caps returns) ≡ ok sum)
                × (x.1 ≡ some sum))
              same (weighed, summed, refl) in
          inr (sum, w0, s0, r0)
    ]
