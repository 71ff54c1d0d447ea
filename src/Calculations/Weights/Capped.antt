-- ===== src/Calculations/Weights/Capped.antt =====
-- The loop of `calculate_capped_weights` in packages/calculations/weights.py, its end and the cap.
use dayjaview.Prelude.{
  refl, ℕ, Bool, true, false, some, String-discrete, List, [], ◌∷◌, if◌then◌else◌, All, ◌≡◌, arith,
  length, ◌≤◌, ◌<◌, Bool-cases, inl, inr, zero,
}
use dayjaview.Domain.Decimal.{Decimal, is_at_most, is_finite, is_at_most_refl}
use dayjaview.Calculations.Weights.{
  fix_capped, uncapped, fix_proposed, cap_rounds, Weights, CapitalizationInput, has_capped, length,
  put, is_capped, proposal, suc, mass_left, capitalization_left,
}
use dayjaview.Prelude.Dict.{put, put-All}

-- No weight is above the cap.
abbrev pub AllCapped : Decimal → Weights → Type 0
AllCapped effective_cap = All (λ e. is_at_most e.1 effective_cap ≡ true)

module _ (cap mass capitalization : Decimal) where
  length-uncapped-le :
      (cs : List CapitalizationInput) → length (uncapped cap mass capitalization cs) ≤ length cs
  unfolding uncapped
  length-uncapped-le [] = omega arith
  length-uncapped-le (c ∷ cs) = elim (Bool-cases (is_capped cap mass capitalization c)) [
    | inl over ↦ rw (over) (omega (arith, length-uncapped-le cs))
    | inr under ↦ rw (under) (omega (arith, length-uncapped-le cs))
  ]

  -- A round that caps a stock takes it out.
  length-uncapped-lt :
      (cs : List CapitalizationInput)
      → has_capped cap mass capitalization cs ≡ true
      → length (uncapped cap mass capitalization cs) < length cs
  unfolding uncapped has_capped
  length-uncapped-lt [] h = ground arith
  length-uncapped-lt (c ∷ cs) h = elim (Bool-cases (is_capped cap mass capitalization c)) [
    | inl over ↦ rw (over) (omega (arith, length-uncapped-le cs))
    | inr under ↦ rw (under) (omega (arith, length-uncapped-lt cs (ground arith)))
  ]

  fix_capped-AllCapped :
      (cs : List CapitalizationInput) (fixed : Weights)
      → is_finite cap ≡ true
      → AllCapped cap fixed
      → AllCapped cap (fix_capped cap mass capitalization cs fixed)
  unfolding fix_capped
  fix_capped-AllCapped [] fixed f h = h
  fix_capped-AllCapped (c ∷ cs) fixed f h =
      fix_capped-AllCapped cs _ f (chosen (is_capped cap mass capitalization c))
    where
      chosen :
          (over : Bool)
          → AllCapped cap (if over then put String-discrete c.stock_id cap fixed else fixed)
      chosen true =
          put-All String-discrete (λ e. is_at_most e.1 cap ≡ true) c.stock_id cap fixed
            (is_at_most_refl cap f) h
      chosen false = h

  fix_proposed-AllCapped :
      (cs : List CapitalizationInput) (fixed : Weights)
      → has_capped cap mass capitalization cs ≡ false
      → AllCapped cap fixed
      → AllCapped cap (fix_proposed cap mass capitalization cs fixed)
  unfolding fix_proposed has_capped
  fix_proposed-AllCapped [] fixed n h = h
  fix_proposed-AllCapped (c ∷ cs) fixed n h = fix_proposed-AllCapped cs _ (ground arith) (
      put-All String-discrete (λ e. is_at_most e.1 cap ≡ true) c.stock_id
        (proposal mass capitalization c) fixed (ground arith) h)

-- With a round for each stock the loop ends, and no weight that it fixes is above the cap.
pub cap_rounds_capped :
    (fuel : ℕ) (cap : Decimal) (cs : List CapitalizationInput) (fixed : Weights)
    → is_finite cap ≡ true
    → length cs ≤ fuel
    → AllCapped cap fixed
    → (r : Weights) × (cap_rounds fuel cap cs fixed ≡ some r) × AllCapped cap r
unfolding cap_rounds
cap_rounds_capped fuel cap [] fixed f enough h = (fixed, refl, h)
cap_rounds_capped zero cap (c ∷ cs) fixed f enough h = absurd (omega (arith, enough))
cap_rounds_capped (suc fuel) cap (c ∷ cs) fixed f enough h =
    let mass = mass_left fixed in
    let capitalization = capitalization_left (c ∷ cs) in
    elim (Bool-cases (has_capped cap mass capitalization (c ∷ cs))) [
      | inl some_capped ↦
          let fewer = length-uncapped-lt cap mass capitalization (c ∷ cs) some_capped in
          let (r, ended, capped) =
            cap_rounds_capped fuel cap (uncapped cap mass capitalization (c ∷ cs))
              (fix_capped cap mass capitalization (c ∷ cs) fixed) f (omega (arith, fewer, enough))
              (fix_capped-AllCapped cap mass capitalization (c ∷ cs) fixed f h) in
          (r, rw (some_capped) ended, capped)
      | inr none_capped ↦ (
        fix_proposed cap mass capitalization (c ∷ cs) fixed,
        rw (none_capped) refl,
        fix_proposed-AllCapped cap mass capitalization (c ∷ cs) fixed none_capped h,
      )
    ]
