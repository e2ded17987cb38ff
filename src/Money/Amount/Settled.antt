-- ===== src/Money/Amount/Settled.antt =====
-- Every amount stays at the minor unit of its currency.
use mathlib.Core.List.{foldl}
use mathlib.Core.Path.{subst}
use sintius.Money.Amount.{
  AmountInput, exact, written, value_of, of, zero_of, sum_money, Money, from_decimal,
  from_minor_units, check_currency, add, subtract, multiply, negate,
}
use sintius.Money.Currency.{Currency, currency, currency-cases}
use sintius.Money.Decimal
use sintius.Money.Decimal.{Decimal, Rounding, make}
use sintius.Money.Decimal.Text.{DecimalMatch, match_decimal, of_match, parse}
use sintius.Money.Decimal.Scales.{
  HasScale, from_units-HasUnits, from_units-HasScale, round-HasScale, rescale-HasScale,
  add-HasScale, subtract-HasScale, multiply-HasScale, negate-HasScale, from_units-ValidOrRejected,
}
use sintius.Money.Decimal.Validity.{
  IsValid, ValidOrRejected, valid, rejected, add-ValidOrRejected, subtract-ValidOrRejected,
  multiply-ValidOrRejected, negate-ValidOrRejected, round-ValidOrRejected, rescale-ValidOrRejected,
}
use sintius.Money.Rounding.{RoundingMode}
use sintius.Prelude.Int.{ℤ, pos}
use sintius.Prelude.{
  ℕ, Bool, false, refl, List, [], ◌∷◌, All, Option-cases, ◌≡◌, arith, max, true, Bool-cases, inl,
  inr, Text, text_eq, Text-discrete, same_iff, some, ltb, sym, ap, ◌∙◌,
}
use sintius.Problem.{Outcome, ok, problem, fault, ◌>>=◌, ◌>>◌, Ensures}

-- The amount is a valid decimal with exactly the fraction digits of its currency, which is the
-- entry of the table under its code.
pub record IsSettled (m : Money) : Type 0 where
  pub amount : IsValid m.amount
  pub scale : m.amount.scale ≡ m.unit.minor_units
  pub unit : currency m.unit.code ≡ ok m.unit

-- The call returned a settled amount, or threw a cataloged problem.
pub data SettledOrThrown : Outcome Money → Type 0 where
  settled : {m : Money} → IsSettled m → SettledOrThrown (ok m)
  thrown : {c : _} → SettledOrThrown (problem c)

-- An amount built of a decimal that has the scale of its unit.
settle :
    (m : Outcome Decimal) (unit : Currency)
    → ValidOrRejected m
    → HasScale unit.minor_units m
    → currency unit.code ≡ ok unit
    → SettledOrThrown (m >>= λ amount. ok (record { amount = amount; unit = unit }))
settle m unit (valid v) s u = settled (record { amount = v; scale = s; unit = u })
settle m unit rejected s u = thrown

same_unit :
    {a b : Money}
    → IsSettled a
    → IsSettled b
    → text_eq b.unit.code a.unit.code ≡ true
    → b.unit ≡ a.unit
same_unit {a} {b} p q h =
    let e : b.unit.code ≡ a.unit.code = (same_iff Text-discrete b.unit.code a.unit.code).0 h in
    cc (sym q.unit ∙ ap currency e ∙ p.unit)

-- The operations on two amounts: the currencies agree, so the scales do.
joined :
    {a b : Money} (m : Outcome Decimal)
    → IsSettled a
    → IsSettled b
    → ValidOrRejected m
    → HasScale (max a.amount.scale b.amount.scale) m
    → SettledOrThrown
        (check_currency a b >> (m >>= λ amount. ok (record { amount = amount; unit = a.unit })))
unfolding check_currency
joined {a} {b} m p q v s = elim (Bool-cases (text_eq b.unit.code a.unit.code)) [
  | inl e ↦ rw e (
      settle m a.unit v
        (subst (λ (n : ℕ). HasScale n m)
          (omega (arith, p.scale, q.scale, ap (λ (u : Currency). u.minor_units) (same_unit p q e)))
          s)
        p.unit)
  | inr e ↦ rw e thrown
]

-- The operations that look their currency up.
looked_up :
    (code : Text) (f : Currency → Outcome Money)
    → ((unit : Currency) → currency unit.code ≡ ok unit → SettledOrThrown (f unit))
    → SettledOrThrown (currency code >>= f)
looked_up code f h = elim (currency-cases code) [
  | inl e ↦ rw e thrown
  | inr (unit, e, named) ↦ rw e (h unit (ap currency named ∙ e))
]

abbrev is_fault : {A : Type 0} → Outcome A → Bool
is_fault (ok a) = false
is_fault (problem c) = false
is_fault (fault e) = true

of_match-calm : (m : DecimalMatch) → is_fault (of_match m) ≡ false
unfolding of_match make
of_match-calm m = ground arith

parse-calm : (s : Text) → is_fault (parse s) ≡ false
unfolding parse
parse-calm s = elim (Option-cases (match_decimal s)) [
  | inl e ↦ rw (e, is_fault) refl
  | inr (m, e) ↦ rw (e, is_fault) (of_match-calm m)
]

value_of-calm : (v : AmountInput) → is_fault (value_of v) ≡ false
value_of-calm (exact value) = refl
value_of-calm (written s) = parse-calm s

after_value :
    (m : Outcome Decimal) (f : Decimal → Outcome Money)
    → is_fault m ≡ false
    → ((d : Decimal) → SettledOrThrown (f d))
    → SettledOrThrown (m >>= f)
after_value (ok d) f h k = k d
after_value (problem c) f h k = thrown
after_value (fault e) f h k = absurd (cc h)

of-SettledOrThrown : (v : AmountInput) (code : Text) → SettledOrThrown (of v code)
unfolding of
of-SettledOrThrown v code = looked_up code _ λ unit u.
    after_value (value_of v) _ (value_of-calm v) λ d.
      elim (Bool-cases (ltb unit.minor_units d.scale)) [
        | inl e ↦ rw e thrown
        | inr e ↦ rw e (
            settle (Decimal.rescale d unit.minor_units) unit
              (rescale-ValidOrRejected d unit.minor_units) (rescale-HasScale d unit.minor_units) u)
      ]

from_decimal-SettledOrThrown :
    (d : Decimal) (code : Text) (mode : RoundingMode) → SettledOrThrown (from_decimal d code mode)
unfolding from_decimal
from_decimal-SettledOrThrown d code mode = looked_up code _ λ unit u.
    settle (Decimal.round d unit.minor_units mode) unit
      (round-ValidOrRejected d unit.minor_units mode) (round-HasScale d unit.minor_units mode) u

from_minor_units-SettledOrThrown : (n : ℤ) (code : Text) → SettledOrThrown (from_minor_units n code)
unfolding from_minor_units
from_minor_units-SettledOrThrown n code = looked_up code _ λ unit u.
    settle (Decimal.from_units n unit.minor_units) unit
      (from_units-ValidOrRejected n unit.minor_units) (from_units-HasScale unit.minor_units n) u

module _ {a b : Money} (p : IsSettled a) (q : IsSettled b) where
  add-SettledOrThrown : SettledOrThrown (add a b)
  unfolding add
  add-SettledOrThrown =
      joined (Decimal.add a.amount b.amount) p q (add-ValidOrRejected p.amount q.amount)
        (add-HasScale a.amount b.amount)

  subtract-SettledOrThrown : SettledOrThrown (subtract a b)
  unfolding subtract
  subtract-SettledOrThrown =
      joined (Decimal.subtract a.amount b.amount) p q (subtract-ValidOrRejected p.amount q.amount)
        (subtract-HasScale a.amount b.amount)

multiply-SettledOrThrown :
    {a : Money}
    → IsSettled a
    → (d : Decimal) (mode : RoundingMode) → SettledOrThrown (multiply a d mode)
unfolding multiply
multiply-SettledOrThrown {a} p d mode =
    let r : Rounding = record { scale = a.unit.minor_units; mode = mode } in
    settle (Decimal.multiply a.amount d (some r)) a.unit
      (multiply-ValidOrRejected a.amount d (some r)) (multiply-HasScale a.amount d r) p.unit

negate-SettledOrThrown : {a : Money} → IsSettled a → SettledOrThrown (negate a)
unfolding negate
negate-SettledOrThrown {a} p =
    settle (Decimal.negate a.amount) a.unit (negate-ValidOrRejected p.amount)
      (subst (λ (n : ℕ). HasScale n (Decimal.negate a.amount)) p.scale (negate-HasScale a.amount))
      p.unit

zero_of-SettledOrThrown : (code : Text) → SettledOrThrown (zero_of code)
unfolding zero_of
zero_of-SettledOrThrown code = from_minor_units-SettledOrThrown (pos 0) code

fold-SettledOrThrown :
    (amounts : List Money) (total : Outcome Money)
    → All IsSettled amounts
    → SettledOrThrown total
    → SettledOrThrown
        (foldl (λ (t : Outcome Money) (amount : Money). t >>= λ m. add m amount) total amounts)
fold-SettledOrThrown [] total h t = t
fold-SettledOrThrown (amount ∷ amounts) (ok m) (a, h) (settled s) =
    fold-SettledOrThrown amounts (add m amount) h (add-SettledOrThrown s a)
fold-SettledOrThrown (amount ∷ amounts) (problem c) (a, h) thrown =
    fold-SettledOrThrown amounts (problem c) h thrown
fold-SettledOrThrown (amount ∷ amounts) (fault e) h t = elim t [ ]

sum_money-SettledOrThrown :
    (amounts : List Money) (code : Text)
    → All IsSettled amounts
    → SettledOrThrown (sum_money amounts code)
unfolding sum_money
sum_money-SettledOrThrown amounts code h =
    fold-SettledOrThrown amounts (zero_of code) h (zero_of-SettledOrThrown code)

-- Each way to make an amount, of a decimal or a text, of an intermediate value, of minor units, as
-- zero or as a sum of settled amounts, and each operation on settled amounts, returns an amount at
-- the minor unit of a supported currency and within 38 digits, or throws a cataloged problem.
pub operations-SettledOrThrown :
    (a b : Money) (v : AmountInput) (d : Decimal) (n : ℤ) (code : Text) (mode : RoundingMode)
    (amounts : List Money)
    → IsSettled a
    → IsSettled b
    → All IsSettled amounts
    → SettledOrThrown (of v code)
      × SettledOrThrown (from_decimal d code mode)
      × SettledOrThrown (from_minor_units n code)
      × SettledOrThrown (zero_of code)
      × SettledOrThrown (sum_money amounts code)
      × SettledOrThrown (add a b)
      × SettledOrThrown (subtract a b)
      × SettledOrThrown (multiply a d mode)
      × SettledOrThrown (negate a)
operations-SettledOrThrown a b v d n code mode amounts p q all_settled = (
  of-SettledOrThrown v code,
  from_decimal-SettledOrThrown d code mode,
  from_minor_units-SettledOrThrown n code,
  zero_of-SettledOrThrown code,
  sum_money-SettledOrThrown amounts code all_settled,
  add-SettledOrThrown p q,
  subtract-SettledOrThrown p q,
  multiply-SettledOrThrown p d mode,
  negate-SettledOrThrown p,
)

-- An amount made of minor units holds them, in the currency of the code.
pub from_minor_units-fields :
    (n : ℤ) (code : Text)
    → Ensures (λ m. (m.amount.units ≡ n) × (m.unit.code ≡ code)) (from_minor_units n code)
unfolding from_minor_units
from_minor_units-fields n code = elim (currency-cases code) [
  | inl e ↦ ground arith
  | inr (unit, e, named) ↦ ground (arith, from_units-HasUnits unit.minor_units n)
]
