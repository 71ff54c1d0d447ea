-- ===== src/Domain/Decimal.antt =====
-- Python's `decimal.Decimal`, as far as the modelled code looks into it: its form, whether it is
-- finite, and how it compares with zero.
use Prim.Native.Nat.{◌*◌, ◌^◌}
use dayjaview.Prelude.{ℕ, ◌+◌, ◌-◌, Bool, true, false, ◌&&◌, ◌||◌, ◌==◌, not, leb, ◌≡◌, arith}

-- `negative coefficient exponent`: the value is ± coefficient * 10 ^ exponent
pub data Exponent : Type 0 where
  up down : ℕ → Exponent

pub data Decimal : Type 0 where
  finite : Bool → ℕ → Exponent → Decimal
  infinite : Bool → Decimal
  nan : Decimal

-- `value.is_finite()`
abbrev pub is_finite : Decimal → Bool
is_finite (finite _ _ _) = true
is_finite (infinite _) = false
is_finite nan = false

-- `value < 0`, of a finite value
abbrev pub is_negative : Decimal → Bool
is_negative (finite negative coefficient _) = negative && not (coefficient == 0)
is_negative (infinite negative) = negative
is_negative nan = false

-- `value <= 0`, of a finite value
abbrev pub is_nonpositive : Decimal → Bool
is_nonpositive (finite negative coefficient _) = negative || coefficient == 0
is_nonpositive (infinite negative) = negative
is_nonpositive nan = false

-- How many powers of ten the first exponent stands above the second, and 0 where it is below.
abbrev pub above : Exponent → Exponent → ℕ
above (up a) (up b) = a - b
above (up a) (down b) = a + b
above (down a) (up b) = 0
above (down a) (down b) = b - a

-- The coefficient, as a number of units of the smaller of two exponents.
abbrev pub scaled : ℕ → Exponent → Exponent → ℕ
scaled coefficient own other = coefficient * 10 ^ above own other

abbrev le_signed : Bool → ℕ → Bool → ℕ → Bool
le_signed false a false b = leb a b
le_signed false a true b = a == 0 && b == 0
le_signed true a false b = true
le_signed true a true b = leb b a

-- `a <= b`, of finite values
unfoldable pub is_at_most : Decimal → Decimal → Bool
is_at_most (finite m a i) (finite n b j) = le_signed m (scaled a i j) n (scaled b j i)
is_at_most a b = false

abbrev pub one : Decimal
one = finite false 1 (up 0)

le_signed_refl : (m : Bool) (n : ℕ) → le_signed m n m n ≡ true
le_signed_refl false n = ground arith
le_signed_refl true n = ground arith

pub is_at_most_refl : (d : Decimal) → is_finite d ≡ true → is_at_most d d ≡ true
unfolding is_at_most
is_at_most_refl (finite m n i) h = le_signed_refl m (scaled n i i)
is_at_most_refl (infinite m) h = ground arith
is_at_most_refl nan h = ground arith
