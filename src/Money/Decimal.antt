-- ===== src/Money/Decimal.antt =====
-- The class `Decimal` of platform/money/src/decimal.ts: `units × 10^-scale`. A scale is a natural
-- number, so the integer test of `assertScale` holds by its type, and a rounding mode is one of the
-- four, so `assertMode` always passes.
pub mod Digits
pub mod Validity
pub mod Compare
pub mod Exact
pub mod Rounds
pub mod Scales
pub mod Text
pub mod Numerals
pub mod RoundTrip
unfoldable pub use Digits.{digits, digit_count}
use sintius.Money.Rounding.{RoundingMode, rounded_quotient}
use sintius.Prelude.{
  ℕ, ◌+◌, ◌-◌, ◌*◌, ◌/◌, ◌%◌, ◌^◌, max, Bool, true, false, ltb, leb, ◌==◌, if◌then◌else◌, Option,
  none, some, not,
}
use sintius.Prelude.Int.{
  ℤ, pos, negsuc, ◌+ℤ◌, ◌-ℤ◌, ◌*ℤ◌, neg, magnitude, is_negative, signed, ltb_ℤ, eqb_ℤ,
}
use sintius.Problem.{Outcome, ok, problem, calculation_rejected, throw_if, ◌>>=◌, ◌>>◌}

abbrev pub max_precision : ℕ
max_precision = 38

abbrev pub max_scale : ℕ
max_scale = 18

pub record Decimal : Type 0 where
  pub units : ℤ
  pub scale : ℕ

-- The constructor: it rejects more than 38 significant digits.
unfoldable pub make : ℤ → ℕ → Outcome Decimal
unfolding digit_count
make units scale =
    if ltb max_precision (digit_count (magnitude units))
    then problem calculation_rejected
    else ok (record { units = units; scale = scale })

unfoldable pub assert_scale : ℕ → Outcome (Unit {0})
assert_scale scale = throw_if (ltb max_scale scale) calculation_rejected

unfoldable pub from_units : ℤ → ℕ → Outcome Decimal
unfolding assert_scale
from_units units scale = do assert_scale scale; make units scale

-- `fromInteger`, on a safe integer or a bigint.
pub from_integer : ℤ → Outcome Decimal
from_integer value = make value 0

-- `#unitsAt`: units at a scale that is not smaller.
abbrev pub units_at : Decimal → ℕ → ℤ
units_at a scale = a.units *ℤ pos (10 ^ (scale - a.scale))

unfoldable pub add : Decimal → Decimal → Outcome Decimal
add a b = let scale = max a.scale b.scale in make (units_at a scale +ℤ units_at b scale) scale

unfoldable pub subtract : Decimal → Decimal → Outcome Decimal
subtract a b = let scale = max a.scale b.scale in make (units_at a scale -ℤ units_at b scale) scale

-- The argument `rounding` of `multiply` and `divide`.
pub record Rounding : Type 0 where
  pub scale : ℕ
  pub mode : RoundingMode

unfoldable pub multiply : Decimal → Decimal → Option Rounding → Outcome Decimal
unfolding assert_scale
multiply a b none =
    let exact_scale = a.scale + b.scale in
    if ltb max_scale exact_scale
    then problem calculation_rejected
    else make (a.units *ℤ b.units) exact_scale
multiply a b (some r) =
    let exact_scale = a.scale + b.scale in
    let product = a.units *ℤ b.units in
    assert_scale r.scale
    >> (if leb exact_scale r.scale
        then make (product *ℤ pos (10 ^ (r.scale - exact_scale))) r.scale
        else make (rounded_quotient product (pos (10 ^ (exact_scale - r.scale))) r.mode) r.scale)

unfoldable pub divide : Decimal → Decimal → Rounding → Outcome Decimal
unfolding assert_scale
divide a divisor r = do
  assert_scale r.scale
  throw_if (eqb_ℤ divisor.units (pos 0)) calculation_rejected
  let dividend = a.units *ℤ pos (10 ^ (divisor.scale + r.scale))
  let denominator = divisor.units *ℤ pos (10 ^ a.scale)
  make (rounded_quotient dividend denominator r.mode) r.scale

unfoldable pub round : Decimal → ℕ → RoundingMode → Outcome Decimal
unfolding assert_scale
round a scale mode = do
  assert_scale scale
  (if leb a.scale scale
      then make (units_at a scale) scale
      else make (rounded_quotient a.units (pos (10 ^ (a.scale - scale))) mode) scale)

unfoldable pub rescale : Decimal → ℕ → Outcome Decimal
unfolding assert_scale
rescale a scale = do
  assert_scale scale
  let divisor = 10 ^ (a.scale - scale)
  (if leb a.scale scale
      then make (units_at a scale) scale
      else if magnitude a.units % divisor == 0
      then make (signed (is_negative a.units) (magnitude a.units / divisor)) scale
      else problem calculation_rejected)

pub negate : Decimal → Outcome Decimal
negate a = make (neg a.units) a.scale

-- `Decimal.abs`
pub abs : Decimal → Outcome Decimal
unfolding negate
abs a = if is_negative a.units then negate a else ok a

pub is_zero : Decimal → Bool
is_zero a = eqb_ℤ a.units (pos 0)

-- `isNegative`
unfoldable pub below_zero : Decimal → Bool
below_zero a = is_negative a.units

-- The results -1, 0 and 1 of `sign` and `compare`.
pub data Sign : Type 0 where
  minus zero plus : Sign

pub sign : Decimal → Sign
sign a = if eqb_ℤ a.units (pos 0) then zero else if is_negative a.units then minus else plus

pub compare : Decimal → Decimal → Sign
compare a b =
    let scale = max a.scale b.scale in
    let left = units_at a scale in
    let right = units_at b scale in
    if eqb_ℤ left right then zero else if ltb_ℤ left right then minus else plus

pub equals : Decimal → Decimal → Bool
unfolding compare
equals a b = elim (compare a b) [ zero ↦ true | _ ↦ false ]
