-- ===== src/Domain/Coverage.antt =====
-- packages/domain/coverage.py: how much of a theme was observed, and the verdict on it.
use dayjaview.Prelude.{
  ℕ, Bool, true, false, not, ◌&&◌, Option, none, some, ltb, ◌==◌, if◌then◌else◌,
}
use dayjaview.Prelude.Exec.{Result, value_error, require, construct}
use dayjaview.Domain.Decimal.{Decimal, is_finite, is_negative, is_at_most, one}
use dayjaview.Domain.Arithmetic.{divide, of_count}

pub data CoverageStatus : Type 0 where
  sufficient partial insufficient : CoverageStatus

pub record CoveragePart : Type 0 where
  pub observed_count : ℕ
  pub total_count : ℕ
  pub count_ratio : Option Decimal
  pub observed_weight_ratio : Option Decimal

-- `CoveragePart._ratio`
unfoldable pub ratio : ℕ → ℕ → Option Decimal
unfolding divide
ratio numerator denominator =
    if denominator == 0 then none else some (divide 50 (of_count numerator) (of_count denominator))

abbrev same_value : Option Decimal → Option Decimal → Bool
same_value none none = true
same_value none (some b) = false
same_value (some a) none = false
same_value (some a) (some b) = is_at_most a b && is_at_most b a

abbrev is_weight_ratio : Option Decimal → Bool
is_weight_ratio none = true
is_weight_ratio (some d) = is_finite d && not (is_negative d) && is_at_most d one

-- `CoveragePart.__post_init__`
unfoldable pub check_part : CoveragePart → Result (Unit {0})
unfolding ratio is_at_most
check_part c =
    require
      (not (ltb c.total_count c.observed_count)
        && same_value c.count_ratio (ratio c.observed_count c.total_count)
        && is_weight_ratio c.observed_weight_ratio)
      value_error

-- `CoveragePart.from_counts`
unfoldable pub from_counts : ℕ → ℕ → Option Decimal → Result CoveragePart
unfolding check_part
from_counts observed_count total_count observed_weight_ratio = construct check_part (record {
  observed_count = observed_count;
  total_count = total_count;
  count_ratio = ratio observed_count total_count;
  observed_weight_ratio = observed_weight_ratio;
})

pub record Coverage : Type 0 where
  pub status : CoverageStatus
  pub core : CoveragePart
  pub related : CoveragePart
