-- ===== src/Money/Decimal/Numerals.antt =====
-- The decimal numerals that `BigInt.prototype.toString` writes and `BigInt` reads.
use mathlib.Core.List.{map-append}
use sintius.Money.Decimal.Digits.{digits, digits_from, digit_count}
use sintius.Money.Decimal.Text.{is_digit, strip_zeros, number_from, numeral}
use sintius.Prelude.Slices.{replicate}
use sintius.Prelude.{
  ℕ, zero, suc, ◌+◌, ◌*◌, ◌-◌, ◌/◌, ◌%◌, ◌≤◌, ◌<◌, ◌≡◌, true, ltb, Text, List, [], ◌∷◌, ◌++◌, map,
  length, all, all-append, length-map, refl, arith, Bool-cases, inl, inr,
}

-- The numeral of a positive number starts with one of `1` to `9`.
pub data IsPositive : Text → Type 0 where
  positive :
      {c : ℕ} {s : Text} → 49 ≤ c → is_digit c ≡ true → all is_digit s ≡ true → IsPositive (c ∷ s)

-- A numeral without leading zeros.
pub data IsNumeral : Text → Type 0 where
  zero_numeral : IsNumeral (48 ∷ [])
  nonzero : {s : Text} → IsPositive s → IsNumeral s

abbrev characters : List ℕ → Text
characters ds = map (λ (d : ℕ). d + 48) ds

digit-is_digit : (d : ℕ) → d < 10 → is_digit (d + 48) ≡ true
unfolding is_digit
digit-is_digit d h = ground arith

characters_snoc : (ds : List ℕ) (d : ℕ) → characters (ds ++ d ∷ []) ≡ characters ds ++ (d + 48) ∷ []
characters_snoc ds d = map-append (λ (x : ℕ). x + 48) ds (d ∷ [])

IsPositive-snoc : {s : Text} (d : ℕ) → d < 10 → IsPositive s → IsPositive (s ++ (d + 48) ∷ [])
IsPositive-snoc d h (positive {c} {s} first digit rest) =
    positive first digit (ground (arith, all-append is_digit s ((d + 48) ∷ []), digit-is_digit d h))

digits_from-IsPositive :
    (fuel n : ℕ) → 0 < n → n < fuel → IsPositive (characters (digits_from fuel n))
unfolding digits_from
digits_from-IsPositive zero n p h = absurd (omega arith)
digits_from-IsPositive (suc fuel) n p h = elim (Bool-cases (ltb n 10)) [
  | inl small ↦ rw small (positive (omega arith) (digit-is_digit n (ground arith)) refl)
  | inr large ↦
      rw (large, characters_snoc (digits_from fuel (n / 10)) (n % 10))
        (IsPositive-snoc (n % 10) (omega arith)
          (digits_from-IsPositive fuel (n / 10) (ground arith) (omega arith)))
]

pub numeral-IsPositive : (n : ℕ) → 0 < n → IsPositive (numeral n)
unfolding numeral digits
numeral-IsPositive n h = digits_from-IsPositive (suc n) n h (omega arith)

pub numeral-IsNumeral : (n : ℕ) → IsNumeral (numeral n)
unfolding numeral digits digits_from
numeral-IsNumeral zero = zero_numeral
numeral-IsNumeral (suc n) = nonzero (numeral-IsPositive (suc n) (omega arith))

IsNumeral-digits : {s : Text} → IsNumeral s → all is_digit s ≡ true
unfolding is_digit
IsNumeral-digits zero_numeral = refl
IsNumeral-digits (nonzero (positive first digit rest)) = ground arith

pub numeral-digits : (n : ℕ) → all is_digit (numeral n) ≡ true
numeral-digits n = IsNumeral-digits (numeral-IsNumeral n)

pub length-numeral : (n : ℕ) → length (numeral n) ≡ digit_count n
unfolding numeral digit_count
length-numeral n = length-map (λ (d : ℕ). d + 48) (digits n)

number_from-snoc :
    (k : ℕ) (s : Text) (c : ℕ) → number_from k (s ++ c ∷ []) ≡ number_from k s * 10 + (c - 48)
unfolding number_from
number_from-snoc k [] c = refl
number_from-snoc k (d ∷ s) c = number_from-snoc (k * 10 + (d - 48)) s c

number_from-digits_from :
    (fuel n : ℕ) → n < fuel → number_from 0 (characters (digits_from fuel n)) ≡ n
unfolding digits_from number_from
number_from-digits_from zero n h = absurd (omega arith)
number_from-digits_from (suc fuel) n h = elim (Bool-cases (ltb n 10)) [
  | inl small ↦ rw small (omega arith)
  | inr large ↦
      rw (large, characters_snoc (digits_from fuel (n / 10)) (n % 10))
        (omega (
          arith,
          number_from-snoc 0 (characters (digits_from fuel (n / 10))) (n % 10 + 48),
          number_from-digits_from fuel (n / 10) (ground arith),
        ))
]

-- The digits of a number have its value.
pub number_from-numeral : (n : ℕ) → number_from 0 (numeral n) ≡ n
unfolding numeral digits
number_from-numeral n = number_from-digits_from (suc n) n (omega arith)

-- Leading zeros are stripped to the numeral.
pub strip_zeros-numeral : (k : ℕ) (s : Text) → IsNumeral s → strip_zeros (replicate k 48 ++ s) ≡ s
unfolding strip_zeros
strip_zeros-numeral zero s zero_numeral = refl
strip_zeros-numeral zero s (nonzero (positive {s = []} first digit rest)) = refl
strip_zeros-numeral zero s (nonzero (positive {s = d ∷ t} first digit rest)) = ground arith
strip_zeros-numeral (suc zero) s zero_numeral = refl
strip_zeros-numeral (suc zero) s (nonzero (positive first digit rest)) =
    strip_zeros-numeral zero s (nonzero (positive first digit rest))
strip_zeros-numeral (suc (suc k)) s h = strip_zeros-numeral (suc k) s h
