-- ===== src/Money/Decimal/Text.antt =====
-- `Decimal.parse` and `Decimal.toString` of platform/money/src/decimal.ts. The regular expression
-- `DECIMAL_PATTERN` is a function to the groups that it captures.
use sintius.Money.Decimal.{Decimal, digits, make, max_precision, max_scale}
use sintius.Prelude.Int.{pos, neg, magnitude, is_negative}
use sintius.Prelude.Slices.{take, drop, pad_start}
use sintius.Prelude.{
  ℕ, ◌+◌, ◌-◌, ◌*◌, Bool, true, false, ◌&&◌, ltb, leb, ◌==◌, if◌then◌else◌, Text, [], ◌∷◌, ◌++◌,
  map, length, all, Option, none, some,
}
use sintius.Problem.{Outcome, problem, invalid_decimal, throw_if, ◌>>◌}

-- `[0-9]`, the code units of the digits.
unfoldable pub is_digit : ℕ → Bool
is_digit c = leb 48 c && leb c 57

-- The groups of a match: the sign, the whole part and the fraction (`match[3] ?? ""`).
pub record DecimalMatch : Type 0 where
  pub minus : Bool
  pub whole : Text
  pub fraction : Text

-- `(?:\.([0-9]+))?$` after the whole part.
unfoldable pub match_fraction : Bool → Text → Text → Option DecimalMatch
unfolding is_digit
match_fraction minus whole [] = some (record { minus = minus; whole = whole; fraction = [] })
match_fraction minus whole (point ∷ []) = none
match_fraction minus whole (point ∷ c ∷ s) =
    if point == 46 && all is_digit (c ∷ s)
    then some (record { minus = minus; whole = whole; fraction = c ∷ s })
    else none

-- `[0-9]*` of the whole part; `whole` holds what has been read.
unfoldable pub match_whole : Bool → Text → Text → Option DecimalMatch
unfolding match_fraction
match_whole minus whole [] = match_fraction minus whole []
match_whole minus whole (c ∷ s) =
    let more = match_whole minus (whole ++ c ∷ []) s in
    if is_digit c then more else match_fraction minus whole (c ∷ s)

-- `(0|[1-9][0-9]*)`
unfoldable pub match_unsigned : Bool → Text → Option DecimalMatch
unfolding match_whole
match_unsigned minus [] = none
match_unsigned minus (c ∷ s) =
    if c == 48
    then match_fraction minus (c ∷ []) s
    else if is_digit c
    then match_whole minus (c ∷ []) s
    else none

-- `DECIMAL_PATTERN.exec(text)`
unfoldable pub match_decimal : Text → Option DecimalMatch
unfolding match_unsigned
match_decimal [] = none
match_decimal (c ∷ s) = if c == 45 then match_unsigned true s else match_unsigned false (c ∷ s)

-- `.replace(/^0+(?=[0-9])/, "")`, on digits.
unfoldable pub strip_zeros : Text → Text
strip_zeros [] = []
strip_zeros (c ∷ []) = c ∷ []
strip_zeros (c ∷ d ∷ s) = let rest = strip_zeros (d ∷ s) in if c == 48 then rest else c ∷ d ∷ s

-- `BigInt(digits)`, with the value of the digits already read.
unfoldable pub number_from : ℕ → Text → ℕ
number_from n [] = n
number_from n (c ∷ s) = number_from (n * 10 + (c - 48)) s

unfoldable pub of_match : DecimalMatch → Outcome Decimal
unfolding strip_zeros number_from
of_match m =
    let significant = strip_zeros (m.whole ++ m.fraction) in
    let units = pos (number_from 0 significant) in
    throw_if (ltb max_scale (length m.fraction)) invalid_decimal
    >> throw_if (ltb max_precision (length significant)) invalid_decimal
    >> make (if m.minus then neg units else units) (length m.fraction)

-- `Decimal.parse`
unfoldable pub parse : Text → Outcome Decimal
parse s = elim (match_decimal s) [ none ↦ problem invalid_decimal | some m ↦ of_match m ]

-- `abs(units).toString()`
unfoldable pub numeral : ℕ → Text
numeral n = map (λ (d : ℕ). d + 48) (digits n)

-- `Decimal.toString`
unfoldable pub to_string : Decimal → Text
unfolding numeral
to_string a =
    let padded = pad_start (a.scale + 1) 48 (numeral (magnitude a.units)) in
    let whole = take (length padded - a.scale) padded in
    let fraction = if a.scale == 0 then [] else 46 ∷ drop (length padded - a.scale) padded in
    (if is_negative a.units then 45 ∷ [] else []) ++ whole ++ fraction
