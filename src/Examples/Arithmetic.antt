-- ===== src/Examples/Arithmetic.antt =====
-- Decimals, amounts and an allocation (platform/money).
use sintius.Prelude.{
  xor, ℕ, ◌≤◌, ◌<◌, ◌≡◌, ◌*◌, ◌^◌, ◌+◌, refl, arith, List, [], ◌∷◌, map, All, text, some, none,
  Text-discrete, ℕ_discrete, text_lt, ◌≢◌,
}
use sintius.Prelude.Int.{signed, is_negative, pos, magnitude, ◌+ℤ◌, ◌-ℤ◌, ◌*ℤ◌}
use sintius.Problem.{Ensures, ok}
use sintius.Money.Rounding.{half_up, half_even, rounded_quotient, rounded_magnitude, round_away}
use sintius.Money.Rounding.Bounds.{IsRounded}
use sintius.Money.Decimal.{
  Decimal, Rounding, add, subtract, multiply, divide, round, rescale, negate, make, from_units,
  assert_scale, below_zero, compare,
}
use sintius.Money.Decimal.Digits.{digits, digits_from, digit_count, digit_count-le_iff}
use sintius.Money.Decimal.Validity.{IsValid, ValidOrRejected, arithmetic-ValidOrRejected}
use sintius.Money.Decimal.Compare.{opposite, compare_antisymm}
use sintius.Money.Decimal.Exact.{IsExact, add-subtract-IsExact}
use sintius.Money.Decimal.Rounds.{divide-IsRounded}
use sintius.Money.Currency.{Currency, currency, currencies}
use sintius.Money.Amount.{Money, written, from_decimal, from_minor_units, zero_of, sum_money}
use sintius.Money.Amount
use sintius.Money.Amount.Settled.{IsSettled, SettledOrThrown, operations-SettledOrThrown}
use sintius.Money.Allocation.{
  AllocationShare, Part, allocate, keys_of, parts_of, distribute, give, increment, sort, insert,
  precedes, entries_from, rescaled_weights, max_weight_scale,
}
use sintius.Money.Allocation.Conserves.{units_of, sum_ℤ, allocate_conserves}

digit_count-le_iff_example :
    (digit_count 999 ≤ 3 → 999 < 10 ^ 3) × (999 < 10 ^ 3 → digit_count 999 ≤ 3)
digit_count-le_iff_example = digit_count-le_iff 2 999

-- 12.345 and 0.5
abbrev price : Decimal
price = record { units = pos 12345; scale = 3 }

abbrev half : Decimal
half = record { units = pos 5; scale = 1 }

abbrev cents : Rounding
cents = record { scale = 2; mode = half_even }

price-IsValid : IsValid price
price-IsValid = record { precision = omega arith; scale = omega arith }

half-IsValid : IsValid half
half-IsValid = record { precision = omega arith; scale = omega arith }

arithmetic-ValidOrRejected_example :
    ValidOrRejected (add price half)
    × ValidOrRejected (subtract price half)
    × ValidOrRejected (multiply price half none)
    × ValidOrRejected (multiply price half (some cents))
    × ValidOrRejected (divide price half cents)
    × ValidOrRejected (round price 2 half_even)
    × ValidOrRejected (rescale price 2)
    × ValidOrRejected (negate price)
arithmetic-ValidOrRejected_example =
    arithmetic-ValidOrRejected price half 2 half_even cents price-IsValid half-IsValid

compare_antisymm_example : compare half price ≡ opposite (compare price half)
compare_antisymm_example = compare_antisymm price half

abbrev whole : Rounding
whole = record { scale = 0; mode = half_up }

abbrev small : Decimal
small = record { units = pos 25; scale = 1 }

sums : add small half ≡ ok (record { units = pos 30; scale = 1 })
unfolding add ◌+ℤ◌ ◌-ℤ◌ ◌*ℤ◌ make from_units digit_count digits digits_from
sums = refl

differences : subtract small half ≡ ok (record { units = pos 20; scale = 1 })
unfolding subtract ◌+ℤ◌ ◌-ℤ◌ ◌*ℤ◌ make from_units digit_count digits digits_from
differences = refl

add-subtract-IsExact_example :
    Ensures (IsExact ◌+ℤ◌ small half) (add small half)
    × Ensures (IsExact ◌-ℤ◌ small half) (subtract small half)
add-subtract-IsExact_example = add-subtract-IsExact small half

rounded : round small 0 half_even ≡ ok (record { units = pos 2; scale = 0 })
unfolding round make assert_scale rounded_quotient rounded_magnitude round_away digit_count digits
    digits_from
rounded = refl

divided : divide small half whole ≡ ok (record { units = pos 5; scale = 0 })
unfolding divide ◌+ℤ◌ ◌-ℤ◌ ◌*ℤ◌ make assert_scale rounded_quotient rounded_magnitude round_away
    digit_count digits digits_from
divided = refl

divide-IsRounded_example :
    (whole.scale ≡ 0)
    × (pos 5 ≢ pos 0)
    × IsRounded half_up
        (magnitude (pos 25) * 10 ^ (1 + 0))
        (magnitude (pos 5) * 10 ^ 1)
        (magnitude (pos 5))
    × (pos 5 ≡ signed (xor (is_negative (pos 25)) (is_negative (pos 5))) (magnitude (pos 5)))
divide-IsRounded_example = divide-IsRounded small half whole divided

multiplied : multiply small half (some whole) ≡ ok (record { units = pos 1; scale = 0 })
unfolding multiply ◌+ℤ◌ ◌-ℤ◌ ◌*ℤ◌ make assert_scale rounded_quotient rounded_magnitude round_away
    digit_count digits digits_from
multiplied = refl

abbrev dollars : Currency
dollars = record { code = text "USD"; minor_units = 2 }

abbrev dime : Money
dime = record { amount = record { units = pos 10; scale = 2 }; unit = dollars }

dollars-listed : currency (text "USD") ≡ ok dollars
unfolding currency currencies Text-discrete ℕ_discrete
dollars-listed = refl

dime-IsSettled : IsSettled dime
dime-IsSettled = record {
  amount = record { precision = omega arith; scale = omega arith };
  scale = refl;
  unit = dollars-listed;
}

operations-SettledOrThrown_example :
    SettledOrThrown (Amount.of (written (text "12.5")) (text "USD"))
    × SettledOrThrown (from_decimal small (text "USD") half_up)
    × SettledOrThrown (from_minor_units (pos 7) (text "USD"))
    × SettledOrThrown (zero_of (text "USD"))
    × SettledOrThrown (sum_money (dime ∷ []) (text "USD"))
    × SettledOrThrown (Amount.add dime dime)
    × SettledOrThrown (Amount.subtract dime dime)
    × SettledOrThrown (Amount.multiply dime small half_up)
    × SettledOrThrown (Amount.negate dime)
operations-SettledOrThrown_example =
    operations-SettledOrThrown dime dime (written (text "12.5")) small (pos 7) (text "USD") half_up
      (dime ∷ []) dime-IsSettled dime-IsSettled (dime-IsSettled, tt)

-- A dime among a weight of one and a weight of two.
abbrev shares : List AllocationShare
shares =
    record { key = text "a"; weight = record { units = pos 1; scale = 0 } }
    ∷ record { key = text "b"; weight = record { units = pos 2; scale = 0 } }
    ∷ []

abbrev part : List ℕ → ℕ → Part
part key n = record {
  key = key;
  amount = record { amount = record { units = pos n; scale = 2 }; unit = dollars };
}

abbrev parts : List Part
parts = part (text "a") 3 ∷ part (text "b") 7 ∷ []

allocated : allocate dime shares ≡ ok parts
unfolding allocate parts_of distribute give increment sort insert precedes entries_from
    rescaled_weights max_weight_scale rescale make assert_scale from_units from_minor_units
    below_zero currency currencies ◌*ℤ◌ text_lt Text-discrete ℕ_discrete digit_count digits
    digits_from
allocated = refl

allocate_conserves_example :
    (sum_ℤ (map units_of parts) ≡ pos 10)
    × (map (λ (p : Part). p.key) parts ≡ keys_of shares)
    × All (λ (p : Part). p.amount.unit.code ≡ text "USD") parts
allocate_conserves_example = allocate_conserves dime shares allocated
