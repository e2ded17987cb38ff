-- ===== src/Money/Decimal/RoundTrip.antt =====
-- `parse` reads the text that `toString` writes.
use mathlib.Core.List.{append_assoc, append-nil}
use sintius.Money.Decimal.Numerals.{
  IsNumeral, zero_numeral, nonzero, positive, numeral-IsNumeral, numeral-digits, length-numeral,
  number_from-numeral, strip_zeros-numeral,
}
use sintius.Money.Decimal.Validity.{IsValid, make-ok_iff}
use sintius.Money.Decimal.Digits.{digit_count-le_iff}
use sintius.Money.Decimal.Text.{
  is_digit, DecimalMatch, match_fraction, match_whole, match_unsigned, match_decimal, of_match,
  parse, numeral, to_string, strip_zeros,
}
use sintius.Money.Decimal.{Decimal, max_precision, max_scale}
use sintius.Prelude.Int.{ℤ, pos, negsuc, neg, magnitude, is_negative}
use sintius.Prelude.Slices.{
  take, drop, pad_start, replicate, take-append-drop, length-drop, length-pad_start, all-drop,
  all-take, all-pad_start, length-replicate,
}
use sintius.Prelude.{
  ℕ, zero, suc, ◌+◌, ◌-◌, ◌≡◌, ◌∙◌, ap, refl, Bool, true, false, ltb, leb, ◌==◌, if◌then◌else◌,
  Text, [], ◌∷◌, ◌++◌, length, all, length-append, Option, some, arith, Bool-cases, inl, inr,
}
use sintius.Problem.{ok}

-- The point and the fraction, when there is one.
abbrev pointed : Text → Text
pointed [] = []
pointed (c ∷ s) = 46 ∷ c ∷ s

abbrev sign : Bool → Text
sign minus = if minus then 45 ∷ [] else []

abbrev found : Bool → Text → Text → Option DecimalMatch
found minus whole fraction = some (record { minus = minus; whole = whole; fraction = fraction })

match_fraction-pointed :
    (minus : Bool) (whole fraction : Text)
    → all is_digit fraction ≡ true
    → match_fraction minus whole (pointed fraction) ≡ found minus whole fraction
unfolding match_fraction
match_fraction-pointed minus whole [] h = refl
match_fraction-pointed minus whole (c ∷ s) h = rw h

match_whole-digits :
    (minus : Bool) (whole more fraction : Text)
    → all is_digit more ≡ true
    → all is_digit fraction ≡ true
    → match_whole minus whole (more ++ pointed fraction) ≡ found minus (whole ++ more) fraction
unfolding match_whole is_digit
match_whole-digits minus whole [] [] h k =
    rw (append-nil whole) (match_fraction-pointed minus whole [] refl)
match_whole-digits minus whole [] (c ∷ s) h k =
    rw (append-nil whole) (match_fraction-pointed minus whole (c ∷ s) k)
match_whole-digits minus whole (c ∷ more) fraction h k =
    let read : is_digit c ≡ true = ground arith in
    let rest = match_whole-digits minus (whole ++ c ∷ []) more fraction (ground arith) k in
    rw (read) (rest ∙ ap (λ w. found minus w fraction) (append_assoc whole (c ∷ []) more))

match_unsigned-pointed :
    (minus : Bool) {whole : Text} (fraction : Text)
    → IsNumeral whole
    → all is_digit fraction ≡ true
    → match_unsigned minus (whole ++ pointed fraction) ≡ found minus whole fraction
unfolding match_unsigned
match_unsigned-pointed minus fraction zero_numeral k =
    match_fraction-pointed minus (48 ∷ []) fraction k
match_unsigned-pointed minus fraction (nonzero (positive {c} {s} first digit rest)) k =
    let head : (c == 48) ≡ false = ground arith in
    rw (head, digit) (match_whole-digits minus (c ∷ []) s fraction rest k)

match_decimal-pointed :
    (minus : Bool) {whole : Text} (fraction : Text)
    → IsNumeral whole
    → all is_digit fraction ≡ true
    → match_decimal (sign minus ++ whole ++ pointed fraction) ≡ found minus whole fraction
unfolding match_decimal
match_decimal-pointed true fraction w k = match_unsigned-pointed true fraction w k
match_decimal-pointed false fraction zero_numeral k =
    match_unsigned-pointed false fraction zero_numeral k
match_decimal-pointed false fraction (nonzero (positive {c} {s} first digit rest)) k =
    let head : (c == 45) ≡ false = ground arith in
    rw head (match_unsigned-pointed false fraction (nonzero (positive first digit rest)) k)

take-IsNumeral : (k : ℕ) {s : Text} → IsNumeral s → IsNumeral (take (suc k) s)
take-IsNumeral zero zero_numeral = zero_numeral
take-IsNumeral (suc k) zero_numeral = zero_numeral
take-IsNumeral k (nonzero (positive {c} {s} first digit rest)) =
    nonzero (positive first digit (all-take is_digit k s rest))

-- The whole part of a padded numeral has no leading zeros.
whole-IsNumeral :
    (scale : ℕ) (s : Text)
    → IsNumeral s
    → IsNumeral (take (length (pad_start (scale + 1) 48 s) - scale) (pad_start (scale + 1) 48 s))
whole-IsNumeral scale s h = elim (Bool-cases (leb (length s) scale)) [
  | inl short ↦
      let k = scale - length s in
      let added : scale + 1 - length s ≡ suc k = ground arith in
      let one : length (replicate (suc k) 48 ++ s) - scale ≡ 1 =
        ground
          (arith, length-append (replicate (suc k) 48) s, length-replicate {A = ℕ} (suc k) 48) in
      rw (added, one) zero_numeral
  | inr long ↦
      let none_added : scale + 1 - length s ≡ 0 = ground arith in
      let some_left : length s - scale ≡ suc (length s - scale - 1) = ground arith in
      rw (none_added, some_left) (take-IsNumeral (length s - scale - 1) h)
]

zero-is_digit : is_digit 48 ≡ true
unfolding is_digit
zero-is_digit = refl

pointed_at :
    (scale : ℕ) (f : Text) → length f ≡ scale → (if scale == 0 then [] else 46 ∷ f) ≡ pointed f
pointed_at scale [] h = ground arith
pointed_at scale (c ∷ s) h = ground arith

module _ (a : Decimal) where
  abbrev padded : Text
  padded = pad_start (a.scale + 1) 48 (numeral (magnitude a.units))

  abbrev cut : ℕ
  cut = length padded - a.scale

  fraction_length : length (drop cut padded) ≡ a.scale
  fraction_length =
      let (long, short) = length-pad_start (a.scale + 1) 48 (numeral (magnitude a.units)) in
      ground (arith, length-drop cut padded, long, short)

  -- What the pattern captures of a written decimal.
  match_decimal-to_string :
      match_decimal (to_string a) ≡ found (is_negative a.units) (take cut padded) (drop cut padded)
  unfolding to_string
  match_decimal-to_string =
      let n = numeral (magnitude a.units) in
      let all_digits : all is_digit padded ≡ true =
        all-pad_start is_digit (a.scale + 1) 48 n zero-is_digit
          (numeral-digits (magnitude a.units)) in
      rw (pointed_at a.scale (drop cut padded) fraction_length) (
        match_decimal-pointed (is_negative a.units) (drop cut padded)
          (whole-IsNumeral a.scale n (numeral-IsNumeral (magnitude a.units)))
          (all-drop is_digit cut padded all_digits))

  significant : strip_zeros (take cut padded ++ drop cut padded) ≡ numeral (magnitude a.units)
  significant =
      let n = numeral (magnitude a.units) in
      rw (take-append-drop cut padded)
        (strip_zeros-numeral (a.scale + 1 - length n) n (numeral-IsNumeral (magnitude a.units)))

with_sign : (u : ℤ) → (if is_negative u then neg (pos (magnitude u)) else pos (magnitude u)) ≡ u
unfolding neg
with_sign (pos n) = refl
with_sign (negsuc n) = refl

parse-matched : (s : Text) {m : DecimalMatch} → match_decimal s ≡ some m → parse s ≡ of_match m
unfolding parse
parse-matched s h = rw (h, parse)

-- A valid decimal is read back from its text, with its units and its scale.
pub parse-to_string : (a : Decimal) → IsValid a → parse (to_string a) ≡ ok a
unfolding of_match
parse-to_string a v =
    let precise : (ltb max_precision (length (numeral (magnitude a.units)))) ≡ false =
      ground (
        arith,
        length-numeral (magnitude a.units),
        (digit_count-le_iff 37 (magnitude a.units)).1,
      ) in
    let scaled : ltb max_scale a.scale ≡ false = ground arith in
    parse-matched (to_string a) (match_decimal-to_string a)
    ∙ rw (significant a, fraction_length a, scaled, precise)
        (rw (number_from-numeral (magnitude a.units), with_sign a.units)
          ((make-ok_iff a.units a.scale).1 (v.precision)))
