-- ===== src/Domain/Arithmetic.antt =====
-- Arithmetic of Python's `decimal.Decimal` on finite values, in a context of a given precision that
-- rounds half to even. The bounds of the exponent are not modelled.
use Prim.Native.Nat.{◌*◌, ◌^◌, ◌/◌, ◌%◌}
use dayjaview.Prelude.{
  ℕ, ◌+◌, ◌-◌, Bool, true, false, ◌&&◌, ◌||◌, ◌==◌, not, leb, ltb, zero, suc, if◌then◌else◌, List,
  [], ◌∷◌, ◌≡◌, refl, ◌≤◌, arith,
}
use dayjaview.Domain.Decimal.{
  Decimal, finite, infinite, nan, Exponent, up, down, above, scaled, is_at_most,
}

-- `len(str(n))`, with fuel that is never used up when it is `n` or more
unfoldable pub digits_within : ℕ → ℕ → ℕ
digits_within zero n = 1
digits_within (suc fuel) n = elim (ltb n 10) [
  | true ↦ 1
  | false ↦ suc (digits_within fuel (n / 10))
]

-- More fuel than the number itself changes nothing.
digits_within_enough : (f g n : ℕ) → n ≤ f → n ≤ g → digits_within f n ≡ digits_within g n
unfolding digits_within
digits_within_enough zero zero n hf hg = refl
digits_within_enough zero (suc g) n hf hg = ground arith
digits_within_enough (suc f) zero n hf hg = ground arith
digits_within_enough (suc f) (suc g) n hf hg = ground (arith, digits_within_enough f g (n / 10))

unfoldable pub digits : ℕ → ℕ
unfolding digits_within
digits n = digits_within n n

-- The exponent, raised or lowered.
abbrev pub raise_by : ℕ → Exponent → Exponent
raise_by k (up a) = up (a + k)
raise_by k (down b) = if leb b k then up (k - b) else down (b - k)

abbrev pub lower_by : ℕ → Exponent → Exponent
lower_by k (up a) = if leb k a then up (a - k) else down (k - a)
lower_by k (down b) = down (b + k)

abbrev pub add_exponents : Exponent → Exponent → Exponent
add_exponents (up a) j = raise_by a j
add_exponents (down b) j = lower_by b j

abbrev pub smaller : Exponent → Exponent → Exponent
smaller i j = if 0 == above i j then i else j

-- The quotient by the unit, to the nearest, and to the even one of two that are as near.
unfoldable pub half_even : ℕ → ℕ → ℕ
half_even n unit =
    let quotient = n / unit in
    let twice = 2 * (n % unit) in
    if ltb twice unit || (twice == unit && quotient % 2 == 0) then quotient else quotient + 1

-- A coefficient of one digit too many is a power of ten.
abbrev shortened : ℕ → Bool → ℕ → Exponent → Decimal
shortened precision negative n i =
    if ltb precision (digits n)
    then finite negative (n / 10) (raise_by 1 i)
    else finite negative n i

-- `_fix`: rounded to the digits of the context, where there are more
unfoldable pub round_to : ℕ → Bool → ℕ → Exponent → Decimal
unfolding digits half_even
round_to precision negative n i =
    let extra : ℕ = digits n - precision in
    if leb (digits n) precision
    then finite negative n i
    else shortened precision negative (half_even n (10 ^ extra)) (raise_by extra i)

-- The sum of two signed numbers: its sign, and its absolute value.
abbrev pub signed_sum : Bool → ℕ → Bool → ℕ → Bool × ℕ
signed_sum false a false b = (false, a + b)
signed_sum true a true b = (true, a + b)
signed_sum false a true b = (ltb a b, if ltb a b then b - a else a - b)
signed_sum true a false b = (ltb b a, if ltb b a then a - b else b - a)

-- `a + b`
unfoldable pub add : ℕ → Decimal → Decimal → Decimal
unfolding round_to
add precision (finite m a i) (finite n b j) =
    let sum = signed_sum m (scaled a i j) n (scaled b j i) in
    round_to precision sum.0 sum.1 (smaller i j)
add precision a b = nan

abbrev pub negate : Decimal → Decimal
negate (finite m a i) = finite (not m && not (a == 0)) a i
negate (infinite m) = infinite (not m)
negate nan = nan

-- `a - b`
unfoldable pub subtract : ℕ → Decimal → Decimal → Decimal
unfolding add
subtract precision a b = add precision a (negate b)

abbrev pub differ : Bool → Bool → Bool
differ true b = not b
differ false b = b

-- `a * b`
unfoldable pub multiply : ℕ → Decimal → Decimal → Decimal
unfolding round_to
multiply precision (finite m a i) (finite n b j) =
    round_to precision (differ m n) (a * b) (add_exponents i j)
multiply precision a b = nan

abbrev negated : Exponent → Exponent
negated (up zero) = up zero
negated (up (suc a)) = down (suc a)
negated (down b) = up b

-- The trailing zeros of an exact quotient are dropped, down to the ideal exponent.
unfoldable pub drop_zeros : ℕ → ℕ → ℕ × ℕ
drop_zeros zero n = (n, 0)
drop_zeros (suc most) n = elim (n % 10 == 0) [
  | false ↦ (n, 0)
  | true ↦ let (m, dropped) = drop_zeros most (n / 10) in (m, dropped + 1)
]

-- A quotient that is not exact gets a digit that keeps it off a tie.
abbrev sticky : ℕ → ℕ
sticky q = if q % 5 == 0 then q + 1 else q

-- The quotient of two coefficients that is shifted to more digits than the precision.
abbrev quotient_at : ℕ → Bool → ℕ → ℕ → ℕ → Exponent → Decimal
quotient_at precision negative a b shift ideal =
    let n : ℕ = a * 10 ^ shift in
    let (exact, dropped) = drop_zeros shift (n / b) in
    if n % b == 0
    then round_to precision negative exact (raise_by dropped (lower_by shift ideal))
    else round_to precision negative (sticky (n / b)) (lower_by shift ideal)

-- The same of a dividend so long that the divisor is shifted.
abbrev quotient_below : ℕ → Bool → ℕ → ℕ → ℕ → Exponent → Decimal
quotient_below precision negative a b shift ideal =
    let unit : ℕ = b * 10 ^ shift in
    if a % unit == 0
    then round_to precision negative (a / unit) (raise_by shift ideal)
    else round_to precision negative (sticky (a / unit)) (raise_by shift ideal)

-- `a / b`, of a divisor that is not zero
unfoldable pub divide : ℕ → Decimal → Decimal → Decimal
unfolding round_to drop_zeros digits
divide precision (finite m a i) (finite n b j) =
    let ideal = add_exponents i (negated j) in
    let wanted : ℕ = digits b + precision + 1 in
    if a == 0
    then finite (differ m n) 0 ideal
    else if leb (digits a) wanted
    then quotient_at precision (differ m n) a b (wanted - digits a) ideal
    else quotient_below precision (differ m n) a b (digits a - wanted) ideal
divide precision a b = nan

abbrev pub of_count : ℕ → Decimal
of_count n = finite false n (up 0)

-- `sum(values, start=Decimal(0))`
unfoldable pub sum_from : ℕ → Decimal → List Decimal → Decimal
unfolding add
sum_from precision start [] = start
sum_from precision start (d ∷ ds) = sum_from precision (add precision start d) ds

abbrev pub total : ℕ → List Decimal → Decimal
total precision ds = sum_from precision (of_count 0) ds

-- `a < b`, of finite values
abbrev pub is_below : Decimal → Decimal → Bool
is_below a b = not (is_at_most b a)

-- 1 / 3, 2 / 3 and 10 / 5 in six digits
third : divide 6 (of_count 1) (of_count 3) ≡ finite false 333333 (down 6)
unfolding divide
third = refl

two_thirds : divide 6 (of_count 2) (of_count 3) ≡ finite false 666667 (down 6)
unfolding divide
two_thirds = refl

five_halves : divide 6 (of_count 5) (of_count 2) ≡ finite false 25 (down 1)
unfolding divide
five_halves = refl

rounded_up : add 3 (of_count 9995) (of_count 0) ≡ finite false 100 (up 2)
unfolding add
rounded_up = refl

-- `value.next_plus()`, of a value that is not negative and has no more digits than the context
unfoldable pub next_plus : ℕ → Decimal → Decimal
unfolding round_to
next_plus precision (finite m n i) =
    let missing : ℕ = precision - digits n in
    round_to precision m (n * 10 ^ missing + 1) (lower_by missing i)
next_plus precision d = d
