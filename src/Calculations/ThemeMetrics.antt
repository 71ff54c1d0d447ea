-- ===== src/Calculations/ThemeMetrics.antt =====
-- The steps of `calculate_theme_metrics` in packages/calculations/theme_metrics.py: the returns and
-- the capitalizations of the members.
pub mod Issues
pub mod Theme
pub mod Known
pub mod Capitals
pub mod Restrained
use dayjaview.Prelude.{
  ℕ, Bool, true, false, not, ◌&&◌, ◌||◌, Option, none, some, ltb, leb, ◌==◌, if◌then◌else◌, List,
  [], ◌∷◌, ◌++◌, String, String-discrete, map, get_or, is_none, ◌+◌, is_in,
}
use dayjaview.Prelude.Exec.{Result, value_error, raised, ok}
use dayjaview.Domain.Reasons.{UnavailableReason, QualityFlag}
use dayjaview.Calculations.StockReturn.{returned, unavailable, StockReturn, stock_return}
use dayjaview.Domain.References.{free_float_market_cap}
use dayjaview.Calculations.Weights.{CapitalizationInput}
use dayjaview.Domain.References.{StockReference}
use dayjaview.Prelude.Dict.{Dict, put, get}
use dayjaview.Domain.Arithmetic.{sum_from, add, total, divide, multiply, of_count}
use dayjaview.Domain.Membership.{ThemeMember, MembershipRole, core, related}
use dayjaview.Calculations.Turnover.{median}
use dayjaview.Domain.Decimal.{Decimal, is_nonpositive}
use dayjaview.Domain.Market.{StockMarketObservation}
use dayjaview.Calculations.Policies.{ThemeCalculationPolicy}
use dayjaview.Calculations.Metrics.{CappedWeight}

unfoldable pub UnavailableReason-discrete : Discrete UnavailableReason
UnavailableReason-discrete = hlevel

-- `_index_unique`
module _ {A : Type 0} (stock_of : A → String) where
  unfoldable pub index_unique : List A → Dict String A → Result (Dict String A)
  unfolding String-discrete
  index_unique [] indexed = ok indexed
  index_unique (x ∷ xs) indexed =
      let rest = index_unique xs (put String-discrete (stock_of x) x indexed) in
      if is_none (get String-discrete (stock_of x) indexed) then rest else raised value_error

-- `issue_stock_ids`, with the ids of each reason in the order in which they came
abbrev pub Issues : Type 0
Issues = Dict UnavailableReason (List String)

-- `issue_stock_ids.setdefault(reason, set()).update(stock_ids)`
unfoldable pub note_issue : UnavailableReason → List String → Issues → Issues
unfolding UnavailableReason-discrete
note_issue reason stock_ids issues =
    put UnavailableReason-discrete reason
      (get_or (get UnavailableReason-discrete reason issues) [] ++ stock_ids) issues

-- What the loop over the members collects.
pub record CollectedReturns : Type 0 where
  pub flags : List QualityFlag
  pub issues : Issues
  pub returns : Dict String Decimal

abbrev pub nothing_collected : CollectedReturns
nothing_collected = record { flags = []; issues = []; returns = [] }

abbrev pub collect_return : String → StockReturn → CollectedReturns → CollectedReturns
collect_return stock_id (unavailable flag reason) c = record c {
  flags = flag ∷ c.flags;
  issues = note_issue reason (stock_id ∷ []) c.issues;
}
collect_return stock_id (returned value) c = record c {
  returns = put String-discrete stock_id value c.returns;
}

-- What the calculation reads.
pub record MetricsInputs : Type 0 where
  pub market_date : ℕ
  pub as_of : ℕ
  pub references : Dict String StockReference
  pub observations : Dict String StockMarketObservation
  pub policy : ThemeCalculationPolicy

abbrev pub return_of : MetricsInputs → String → StockReturn
return_of t stock_id =
    stock_return t.market_date t.as_of (get String-discrete stock_id t.references)
      (get String-discrete stock_id t.observations)

unfoldable pub collect_returns :
    MetricsInputs → List ThemeMember → CollectedReturns → CollectedReturns
unfolding stock_return note_issue String-discrete
collect_returns t [] c = c
collect_returns t (m ∷ ms) c =
    collect_returns t ms (collect_return m.stock_id (return_of t m.stock_id) c)

abbrev pub is_core : MembershipRole → Bool
is_core core = true
is_core related = false

unfoldable pub core_members : List ThemeMember → List ThemeMember
core_members [] = []
core_members (m ∷ ms) = let rest = core_members ms in if is_core m.role then m ∷ rest else rest

abbrev market_cap : MetricsInputs → Option StockReference → Option Decimal
market_cap t none = none
market_cap t (some r) = free_float_market_cap t.market_date t.as_of r

abbrev pub cap_of : MetricsInputs → String → Option Decimal
cap_of t stock_id = market_cap t (get String-discrete stock_id t.references)

-- The core members with a capitalization.
unfoldable pub capitalized : MetricsInputs → List ThemeMember → List CapitalizationInput
unfolding free_float_market_cap String-discrete
capitalized t [] = []
capitalized t (m ∷ ms) =
    let rest = capitalized t ms in
    elim (cap_of t m.stock_id) [
      | none ↦ rest
      | some cap ↦ record { stock_id = m.stock_id; free_float_market_cap = cap } ∷ rest
    ]

-- The ids of the core members without one.
unfoldable pub uncapitalized : MetricsInputs → List ThemeMember → List String
unfolding free_float_market_cap String-discrete
uncapitalized t [] = []
uncapitalized t (m ∷ ms) =
    let rest = uncapitalized t ms in
    if is_none (cap_of t m.stock_id) then m.stock_id ∷ rest else rest

-- Those of them that have a return too.
unfoldable pub observed_core :
    Dict String Decimal → List CapitalizationInput → List CapitalizationInput
unfolding String-discrete
observed_core returns [] = []
observed_core returns (c ∷ cs) =
    let rest = observed_core returns cs in
    if is_none (get String-discrete c.stock_id returns) then rest else c ∷ rest

abbrev caps_total : List CapitalizationInput → Decimal
caps_total cs = total 60 (map (λ c. CapitalizationInput.free_float_market_cap c) cs)

-- The share of the observed core members in the capitalization, if it is known of all of them.
unfoldable pub weight_ratio :
    List String → List CapitalizationInput → List CapitalizationInput → Option Decimal
unfolding sum_from divide
weight_ratio (id ∷ missing) caps observed = none
weight_ratio [] caps observed =
    if is_nonpositive (caps_total caps)
    then none
    else some (divide 60 (caps_total observed) (caps_total caps))

-- `_median`, which is missing where there is no value
unfoldable pub median_of : List Decimal → Option Decimal
unfolding median
median_of [] = none
median_of (v ∷ vs) = some (median (v ∷ vs))

unfoldable pub count_advancing : List Decimal → ℕ
count_advancing [] = 0
count_advancing (v ∷ vs) =
    let rest = count_advancing vs in if is_nonpositive v then rest else rest + 1

-- `sum(item.weight * returns[item.stock_id])`
unfoldable pub weighted_sum : Decimal → List CappedWeight → Dict String Decimal → Result Decimal
unfolding add multiply String-discrete
weighted_sum sum [] returns = ok sum
weighted_sum sum (w ∷ ws) returns = elim (get String-discrete w.stock_id returns) [
  | none ↦ raised value_error
  | some r ↦ weighted_sum (add 60 sum (multiply 60 w.weight r)) ws returns
]

unfoldable pub all_in : List String → List String → Bool
unfolding is_in String-discrete
all_in [] ids = true
all_in (x ∷ xs) ids = is_in String-discrete x ids && all_in xs ids

-- `calculate_weighted_return`: the ids of the weights and those of the returns are the same set.
unfoldable pub calculate_weighted_return : List CappedWeight → Dict String Decimal → Result Decimal
unfolding all_in weighted_sum
calculate_weighted_return weights returns =
    let weight_ids = map (λ w. CappedWeight.stock_id w) weights in
    let return_ids = map (λ e. e.0) returns in
    if all_in weight_ids return_ids && all_in return_ids weight_ids
    then weighted_sum (of_count 0) weights returns
    else raised value_error

-- `{stock_id: returns_by_stock[stock_id] for stock_id in observed_core_ids}`; the ids that were
-- observed have a return.
unfoldable pub returns_of : List CapitalizationInput → Dict String Decimal → Dict String Decimal
unfolding String-discrete
returns_of [] returns = []
returns_of (c ∷ cs) returns =
    let rest = returns_of cs returns in
    elim (get String-discrete c.stock_id returns) [ none ↦ rest | some r ↦ (c.stock_id, r) ∷ rest ]
