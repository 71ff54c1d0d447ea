-- ===== src/Calculations/Weights.antt =====
-- packages/calculations/weights.py: weights by capitalization, with a cap.
pub mod Capped
use dayjaview.Prelude.{
  ℕ, Bool, true, false, not, ◌&&◌, ◌||◌, Option, none, some, String, String-discrete, ite, List, [],
  ◌∷◌, map, if◌then◌else◌, text_first, sort_by, suc, all_distinct, length, zero,
}
use dayjaview.Prelude.Exec.{
  Result, value_error, arithmetic_error, out_of_fuel, key_error, raised, require, ok, and_then,
}
use dayjaview.Domain.Arithmetic.{
  is_below, divide, of_count, multiply, subtract, sum_from, add, total, next_plus,
}
use dayjaview.Domain.Decimal.{is_at_most, Decimal, is_finite, is_nonpositive, is_negative}
use dayjaview.Prelude.Dict.{Dict, put, get}
use dayjaview.Calculations.Metrics.{CappedWeight}
use dayjaview.Prelude.Entries.{sorted_entries}
use dayjaview.Calculations.Policies.{is_share}

pub record CapitalizationInput : Type 0 where
  pub stock_id : String
  pub free_float_market_cap : Decimal

-- `CapitalizationInput.__post_init__`
unfoldable pub check_capitalization : CapitalizationInput → Result (Unit {0})
check_capitalization c =
    require
      (not (ite (String-discrete c.stock_id "") true false)
        && is_finite c.free_float_market_cap
        && not (is_nonpositive c.free_float_market_cap))
      value_error

abbrev pub Weights : Type 0
Weights = Dict String Decimal

-- The share of a stock in what is left, by its share of the capitalization that is left.
unfoldable pub proposal : Decimal → Decimal → CapitalizationInput → Decimal
unfolding multiply divide
proposal remaining_mass remaining_capitalization c =
    divide 60 (multiply 60 remaining_mass c.free_float_market_cap) remaining_capitalization

unfoldable pub mass_left : Weights → Decimal
unfolding subtract sum_from
mass_left fixed = subtract 60 (of_count 1) (total 60 (map (λ e. e.1) fixed))

unfoldable pub capitalization_left : List CapitalizationInput → Decimal
unfolding sum_from
capitalization_left remaining =
    total 60 (map (λ c. CapitalizationInput.free_float_market_cap c) remaining)

module _ (effective_cap remaining_mass remaining_capitalization : Decimal) where
  -- `proposed[stock_id] > effective_cap`
  abbrev pub is_capped : CapitalizationInput → Bool
  is_capped c = not (is_at_most (proposal remaining_mass remaining_capitalization c) effective_cap)

  unfoldable pub has_capped : List CapitalizationInput → Bool
  unfolding proposal
  has_capped [] = false
  has_capped (c ∷ cs) = is_capped c || has_capped cs

  -- What is left when the newly capped are taken out.
  unfoldable pub uncapped : List CapitalizationInput → List CapitalizationInput
  unfolding proposal
  uncapped [] = []
  uncapped (c ∷ cs) = let rest = uncapped cs in if is_capped c then rest else c ∷ rest

  -- The newly capped get the cap.
  unfoldable pub fix_capped : List CapitalizationInput → Weights → Weights
  unfolding proposal String-discrete
  fix_capped [] fixed = fixed
  fix_capped (c ∷ cs) fixed =
      fix_capped cs
        (if is_capped c then put String-discrete c.stock_id effective_cap fixed else fixed)

  -- `fixed.update(proposed)`
  unfoldable pub fix_proposed : List CapitalizationInput → Weights → Weights
  unfolding proposal String-discrete
  fix_proposed [] fixed = fixed
  fix_proposed (c ∷ cs) fixed =
      fix_proposed cs
        (put String-discrete c.stock_id (proposal remaining_mass remaining_capitalization c) fixed)

-- The `while` loop, with fuel; `none` means that the fuel ran out.
unfoldable pub cap_rounds : ℕ → Decimal → List CapitalizationInput → Weights → Option Weights
unfolding mass_left capitalization_left has_capped uncapped fix_capped fix_proposed
cap_rounds fuel effective_cap [] fixed = some fixed
cap_rounds zero effective_cap (c ∷ cs) fixed = none
cap_rounds (suc fuel) effective_cap (c ∷ cs) fixed =
    let mass = mass_left fixed in
    let capitalization = capitalization_left (c ∷ cs) in
    let rest =
      cap_rounds fuel effective_cap (uncapped effective_cap mass capitalization (c ∷ cs))
        (fix_capped effective_cap mass capitalization (c ∷ cs) fixed) in
    if has_capped effective_cap mass capitalization (c ∷ cs)
    then rest
    else some (fix_proposed effective_cap mass capitalization (c ∷ cs) fixed)

-- `_apply_residual`: the first stock, by its id, that can take what is missing to 1.
abbrev can_take : Decimal → Decimal → Decimal → Bool
can_take effective_cap residual weight =
    if is_nonpositive residual
    then not (is_negative (add 120 weight residual))
    else is_at_most (add 120 weight residual) effective_cap

unfoldable pub first_candidate : Decimal → Decimal → Weights → Option (String × Decimal)
unfolding add is_at_most
first_candidate effective_cap residual [] = none
first_candidate effective_cap residual ((id, weight) ∷ ws) =
    let rest = first_candidate effective_cap residual ws in
    if can_take effective_cap residual weight then some (id, weight) else rest

abbrev is_zero : Decimal → Bool
is_zero d = is_nonpositive d && not (is_negative d)

unfoldable pub apply_residual : Decimal → Weights → Result Weights
unfolding sum_from subtract first_candidate sort_by text_first String-discrete
apply_residual effective_cap weights =
    let residual = subtract 120 (of_count 1) (total 120 (map (λ e. e.1) weights)) in
    if is_zero residual
    then ok weights
    else elim (first_candidate effective_cap residual (sorted_entries text_first weights)) [
      | none ↦ raised arithmetic_error
      | some (id, weight) ↦ ok (put String-discrete id (add 120 weight residual) weights)
    ]

unfoldable pub input_first : CapitalizationInput → CapitalizationInput → Bool
input_first a b = text_first a.stock_id b.stock_id

-- The cap, or the even share of each stock where that is more: rounded up where it is not exact.
unfoldable pub effective_cap_of : Decimal → ℕ → Decimal
unfolding divide multiply next_plus is_at_most
effective_cap_of configured_cap count =
    let share = divide 60 (of_count 1) (of_count count) in
    let even =
      if is_below (multiply 60 share (of_count count)) (of_count 1)
      then next_plus 60 share
      else share in
    if is_below configured_cap even then even else configured_cap

-- The weights in the order of the stocks.
unfoldable pub weights_of : Weights → List CapitalizationInput → Result (List CappedWeight)
unfolding String-discrete
weights_of fixed [] = ok []
weights_of fixed (c ∷ cs) =
    let rest = weights_of fixed cs in
    elim (get String-discrete c.stock_id fixed) [
      | none ↦ raised key_error
      | some w ↦ and_then rest (λ ws. ok (record { stock_id = c.stock_id; weight = w } ∷ ws))
    ]

abbrev pub or_out_of_fuel : Option Weights → Result Weights
or_out_of_fuel none = raised out_of_fuel
or_out_of_fuel (some fixed) = ok fixed

-- The part of `calculate_capped_weights` after its checks, for one stock at least.
unfoldable pub capped_weights_of : Decimal → List CapitalizationInput → Result (List CappedWeight)
unfolding cap_rounds apply_residual weights_of
capped_weights_of effective_cap ordered =
    and_then (or_out_of_fuel (cap_rounds (length ordered) effective_cap ordered [])) (λ fixed.
      and_then (apply_residual effective_cap fixed) (λ weights. weights_of weights ordered))

-- After the check of the cap, for the stocks in order.
unfoldable pub weigh : Decimal → List CapitalizationInput → Result (List CappedWeight)
unfolding capped_weights_of effective_cap_of all_distinct String-discrete
weigh configured_cap [] = ok []
weigh configured_cap (c ∷ cs) =
    if all_distinct String-discrete (map (λ x. CapitalizationInput.stock_id x) (c ∷ cs))
    then capped_weights_of (effective_cap_of configured_cap (length (c ∷ cs))) (c ∷ cs)
    else raised value_error

unfoldable pub calculate_capped_weights :
    List CapitalizationInput → Decimal → Result (List CappedWeight)
unfolding weigh sort_by input_first is_at_most
calculate_capped_weights inputs configured_cap =
    if is_share configured_cap
    then weigh configured_cap (sort_by input_first inputs)
    else raised value_error
