-- ===== src/Examples/Texts.antt =====
-- Decimals and identifiers as texts: a price and its text, and two identifiers of one second.
use sintius.Money.Decimal.RoundTrip.{parse-to_string}
use sintius.Money.Decimal.Text.{parse, to_string, numeral, match_decimal}
use sintius.Money.Decimal.Validity.{IsValid}
use sintius.Money.Decimal.{Decimal}
use sintius.Money.Decimal.Digits.{digits, digits_from}
use sintius.Prelude.Int.{pos, negsuc}
use sintius.Prelude.{ℕ, ◌≡◌, ◌%◌, ◌^◌, refl, true, Text, text, text_lt, List, [], ◌∷◌, arith}
use sintius.Problem.{ok, problem, invalid_decimal}
use sintius.Uuid.Order.{text_lt-generate_uuid_v7}
use sintius.Uuid.Timestamp.{timestamp_of_uuid_v7-generate_uuid_v7}
use sintius.Uuid.{
  timestamp_fields, random_fields, set_version, set_variant, hyphenated, join_hex, hex, hex_from,
  hex_digit, generate_uuid_v7, is_uuid_v7, timestamp_of_uuid_v7,
}

-- -0.125
abbrev discount : Decimal
discount = record { units = negsuc 124; scale = 3 }

discount-IsValid : IsValid discount
discount-IsValid = record { precision = omega arith; scale = omega arith }

discount-text : to_string discount ≡ text "-0.125"
unfolding to_string numeral digits digits_from
discount-text = refl

parse-to_string_example : parse (to_string discount) ≡ ok discount
parse-to_string_example = parse-to_string discount discount-IsValid

leading_zero : parse (text "007") ≡ problem invalid_decimal
unfolding parse match_decimal
leading_zero = refl

abbrev random : List ℕ
random = 1 ∷ 2 ∷ 250 ∷ 4 ∷ 5 ∷ 6 ∷ 7 ∷ 8 ∷ 9 ∷ 10 ∷ []

abbrev other_random : List ℕ
other_random = 0 ∷ 0 ∷ 0 ∷ 0 ∷ 0 ∷ 0 ∷ 0 ∷ 0 ∷ 0 ∷ 0 ∷ []

abbrev first_id : Text
first_id = text "01890c5d-ec96-7102-ba04-05060708090a"

abbrev second_id : Text
second_id = text "01890c5d-ec97-7000-8000-000000000000"

generated_first : generate_uuid_v7 (pos 1688129629334) random ≡ ok first_id
unfolding generate_uuid_v7 timestamp_fields random_fields set_version set_variant hyphenated
    join_hex hex hex_from hex_digit
generated_first = refl

generated_second : generate_uuid_v7 (pos 1688129629335) other_random ≡ ok second_id
unfolding generate_uuid_v7 timestamp_fields random_fields set_version set_variant hyphenated
    join_hex hex hex_from hex_digit
generated_second = refl

timestamp_of_uuid_v7-generate_uuid_v7_example :
    (id : Text) × (generate_uuid_v7 (pos 1688129629334) random ≡ ok id)
    × (is_uuid_v7 id ≡ true)
    × (timestamp_of_uuid_v7 id ≡ ok (1688129629334 % 2 ^ 48))
timestamp_of_uuid_v7-generate_uuid_v7_example =
    timestamp_of_uuid_v7-generate_uuid_v7 1688129629334 random refl refl

text_lt-generate_uuid_v7_example : text_lt first_id second_id ≡ true
text_lt-generate_uuid_v7_example =
    text_lt-generate_uuid_v7 1688129629334 1688129629335 random other_random refl refl refl refl
      (omega arith) (omega arith) generated_first generated_second
