-- ===== src/Money/Amount.antt =====
-- The class `Money` of platform/money/src/money.ts and `sumMoney`: amounts at the minor unit of their
-- currency.
pub mod Settled
use mathlib.Core.List.{foldl}
use sintius.Money.Currency.{Currency, currency}
use sintius.Money.Decimal
use sintius.Money.Decimal.{Decimal, Rounding, Sign}
use sintius.Money.Decimal.Text.{parse}
use sintius.Money.Rounding.{RoundingMode, half_up}
use sintius.Prelude.Int.{ℤ, pos, is_negative}
use sintius.Prelude.{ℕ, Bool, true, false, ◌&&◌, not, List, Text, text_eq, ltb, some, if◌then◌else◌}
use sintius.Problem.{
  Outcome, ok, problem, currency_mismatch, invalid_decimal, throw_if, ◌>>=◌, ◌>>◌,
}

abbrev pub default_rounding : RoundingMode
default_rounding = half_up

-- The fields of `Money`; `currency` names the function.
pub record Money : Type 0 where
  pub amount : Decimal
  pub unit : Currency

-- The argument `amount` of `Money.of`.
pub data AmountInput : Type 0 where
  exact : Decimal → AmountInput
  written : Text → AmountInput

-- `typeof amount === "string" ? Decimal.parse(amount) : amount`
abbrev pub value_of : AmountInput → Outcome Decimal
value_of (exact value) = ok value
value_of (written s) = parse s

-- `Money.of`
pub of : AmountInput → Text → Outcome Money
of amount_input code = do
  unit ← currency code
  value ← value_of amount_input
  throw_if (ltb unit.minor_units value.scale) invalid_decimal
  amount ← Decimal.rescale value unit.minor_units
  ok (record { amount = amount; unit = unit })

-- `Money.fromDecimal`
pub from_decimal : Decimal → Text → RoundingMode → Outcome Money
from_decimal value code mode = do
  unit ← currency code
  amount ← Decimal.round value unit.minor_units mode
  ok (record { amount = amount; unit = unit })

-- `Money.fromMinorUnits`
unfoldable pub from_minor_units : ℤ → Text → Outcome Money
from_minor_units units code = do
  unit ← currency code
  amount ← Decimal.from_units units unit.minor_units
  ok (record { amount = amount; unit = unit })

-- `Money.zero`
pub zero_of : Text → Outcome Money
unfolding from_minor_units
zero_of code = from_minor_units (pos 0) code

-- `#same`
pub check_currency : Money → Money → Outcome (Unit {0})
check_currency a b = throw_if (not (text_eq b.unit.code a.unit.code)) currency_mismatch

pub add : Money → Money → Outcome Money
unfolding check_currency
add a b = do
  check_currency a b
  amount ← Decimal.add a.amount b.amount
  ok (record { amount = amount; unit = a.unit })

pub subtract : Money → Money → Outcome Money
unfolding check_currency
subtract a b = do
  check_currency a b
  amount ← Decimal.subtract a.amount b.amount
  ok (record { amount = amount; unit = a.unit })

pub multiply : Money → Decimal → RoundingMode → Outcome Money
multiply a factor mode = do
  amount ←
      Decimal.multiply a.amount factor (some (record { scale = a.unit.minor_units; mode = mode }))
  ok (record { amount = amount; unit = a.unit })

pub negate : Money → Outcome Money
negate a = do amount ← Decimal.negate a.amount; ok (record { amount = amount; unit = a.unit })

pub is_zero : Money → Bool
is_zero a = Decimal.is_zero a.amount

pub compare : Money → Money → Outcome Sign
unfolding check_currency
compare a b = check_currency a b >> ok (Decimal.compare a.amount b.amount)

pub equals : Money → Money → Bool
equals a b = text_eq b.unit.code a.unit.code && Decimal.equals a.amount b.amount

-- `sumMoney`
pub sum_money : List Money → Text → Outcome Money
unfolding add zero_of
sum_money amounts code = foldl (λ total amount. total >>= λ t. add t amount) (zero_of code) amounts
