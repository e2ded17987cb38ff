-- ===== src/Money/Rounding.antt =====
-- `roundedQuotient` and the rounding modes of platform/money/src/decimal.ts.
pub mod Bounds
use sintius.Prelude.{
  ℕ, ◌+◌, ◌*◌, ◌/◌, ◌%◌, Bool, true, false, ◌&&◌, ◌||◌, xor, ltb, leb, ◌==◌, if◌then◌else◌,
}
use sintius.Prelude.Int.{ℤ, magnitude, is_negative, signed}

pub data RoundingMode : Type 0 where
  half_up half_even down up : RoundingMode

-- `roundAway`, on a remainder that is not zero.
unfoldable pub round_away : RoundingMode → (twice denominator quotient : ℕ) → Bool
round_away up twice denominator quotient = true
round_away half_up twice denominator quotient = leb denominator twice
round_away half_even twice denominator quotient =
    ltb denominator twice || (twice == denominator && quotient % 2 == 1)
round_away down twice denominator quotient = false

-- The magnitude of the quotient, from those of the dividend and the divisor.
unfoldable pub rounded_magnitude : (numerator denominator : ℕ) → RoundingMode → ℕ
unfolding round_away
rounded_magnitude numerator denominator mode =
    let quotient = numerator / denominator in
    let remainder = numerator % denominator in
    if remainder == 0
    then quotient
    else if round_away mode (remainder * 2) denominator quotient
    then quotient + 1
    else quotient

-- `roundedQuotient`: the sign is that of the exact quotient, and zero has none.
unfoldable pub rounded_quotient : (dividend divisor : ℤ) → RoundingMode → ℤ
rounded_quotient dividend divisor mode =
    signed (xor (is_negative dividend) (is_negative divisor))
      (rounded_magnitude (magnitude dividend) (magnitude divisor) mode)
