-- ===== src/Tests/Weights.antt =====
-- The weights of packages/calculations/weights.py at concrete capitalizations.
use dayjaview.Prelude.{refl, ℕ, false, List, [], ◌∷◌, some, String, ◌≡◌, arith}
use dayjaview.Prelude.Exec.{ok, raised, value_error}
use dayjaview.Domain.Decimal.{finite, down, Decimal}
use dayjaview.Calculations.Weights.{
  Weights, CapitalizationInput, calculate_capped_weights, cap_rounds,
}
use dayjaview.Domain.Arithmetic.{of_count}
use dayjaview.Calculations.Weights.Capped.{AllCapped, cap_rounds_capped}
use dayjaview.Prelude.Dict.{put, get}

abbrev stock : String → ℕ → CapitalizationInput
stock stock_id capitalization = record {
  stock_id = stock_id;
  free_float_market_cap = of_count capitalization;
}

abbrev three : List CapitalizationInput
three = stock "b" 70 ∷ stock "a" 15 ∷ stock "c" 15 ∷ []

abbrev half : Decimal
half = finite false 5 (down 1)

-- The large one is capped, and the others share the rest.
weighed :
    calculate_capped_weights three half
    ≡ ok (
        record { stock_id = "a"; weight = finite false 25 (down 2) }
        ∷ record { stock_id = "b"; weight = half }
        ∷ record { stock_id = "c"; weight = finite false 25 (down 2) }
        ∷ [])
unfolding calculate_capped_weights put get
weighed = refl

twice : calculate_capped_weights (stock "a" 1 ∷ stock "a" 2 ∷ []) half ≡ raised value_error
unfolding calculate_capped_weights put get
twice = refl

cap_rounds_capped_example : (r : Weights) × (cap_rounds 3 half three [] ≡ some r) × AllCapped half r
cap_rounds_capped_example = cap_rounds_capped 3 half three [] refl (omega arith) tt
