-- ===== src/Uuid/Bytes.antt =====
-- The text of a generated identifier: its form, and the digits that stand in it.
use sintius.Prelude.{
  ℕ, zero, suc, ◌+◌, ◌*◌, ◌/◌, ◌%◌, ◌<◌, ◌≡◌, ap, Bool, true, false, ◌||◌, ltb, ◌==◌, Text, List,
  [], ◌∷◌, ◌++◌, arith, Bool-cases, inl, inr,
}
use sintius.Uuid.{
  hex, hex_from, hex_digit, hex_value, hex_number, is_hex, matches, set_version, set_variant,
}

hex_from_single : (fuel d : ℕ) → 0 < fuel → d < 16 → hex_from fuel d ≡ hex_digit d ∷ []
unfolding hex_from
hex_from_single zero d p h = absurd (omega arith)
hex_from_single (suc fuel) d p h = let small : ltb d 16 ≡ true = ground arith in rw small

hex_from_pair :
    (b : ℕ)
    → b < 256
    → ltb b 16 ≡ false
    → hex_from (suc b) b ≡ hex_digit (b / 16) ∷ hex_digit (b % 16) ∷ []
unfolding hex_from
hex_from_pair b h large =
    let some_fuel : 0 < b = ground arith in
    rw (large, hex_from_single b (b / 16) some_fuel (omega arith))

-- A byte is written by its two digits.
pub hex_byte : (b : ℕ) → b < 256 → hex b ≡ hex_digit (b / 16) ∷ hex_digit (b % 16) ∷ []
unfolding hex hex_digit
hex_byte b h = elim (Bool-cases (ltb b 16)) [
  | inl small ↦
      let high : b / 16 ≡ 0 = ground arith in
      let low : b % 16 ≡ b = ground arith in
      rw (hex_from_single (suc b) b (omega arith) (ground arith), high, low)
  | inr large ↦ rw (hex_from_pair b h large)
]

pub hex_digit-is_hex : (d : ℕ) → d < 16 → is_hex (hex_digit d) ≡ true
unfolding is_hex hex_digit
hex_digit-is_hex d h = ground arith

pub hex_value-hex_digit : (d : ℕ) → d < 16 → hex_value (hex_digit d) ≡ d
unfolding hex_value hex_digit
hex_value-hex_digit d h = ground arith

pub hex_number-byte :
    (n b : ℕ) (s : Text) → b < 256 → hex_number n (hex b ++ s) ≡ hex_number (n * 256 + b) s
unfolding hex_number
hex_number-byte n b s h =
    let high = hex_value-hex_digit (b / 16) (omega arith) in
    let low = hex_value-hex_digit (b % 16) (omega arith) in
    rw (hex_byte b h) (ap (λ k. hex_number k s) (omega (arith, high, low)))

pub matches_byte :
    (ps : List (ℕ → Bool)) (b : ℕ) (s : Text)
    → b < 256
    → matches (is_hex ∷ is_hex ∷ ps) (hex b ++ s) ≡ matches ps s
matches_byte ps b s h =
    rw (
      hex_byte b h,
      hex_digit-is_hex (b / 16) (omega arith),
      hex_digit-is_hex (b % 16) (omega arith),
    )

pub matches_version :
    (ps : List (ℕ → Bool)) (b : ℕ) (s : Text)
    → matches ((λ c. c == 55) ∷ is_hex ∷ ps) (hex (set_version b) ++ s) ≡ matches ps s
unfolding set_version hex_digit
matches_version ps b s =
    let high : (0x70 + b % 0x10) / 16 ≡ 7 = omega arith in
    rw (
      hex_byte (0x70 + b % 0x10) (omega arith),
      high,
      hex_digit-is_hex ((0x70 + b % 0x10) % 16) (omega arith),
    )

pub matches_variant :
    (ps : List (ℕ → Bool)) (b : ℕ) (s : Text)
    → matches
        ((λ c. c == 56 || c == 57 || c == 97 || c == 98) ∷ is_hex ∷ ps)
        (hex (set_variant b) ++ s)
      ≡ matches ps s
unfolding set_variant hex_digit
matches_variant ps b s =
    let digit = (0x80 + b % 0x40) / 16 in
    let allowed : (hex_digit digit == 56
          || hex_digit digit == 57
          || hex_digit digit == 97
          || hex_digit digit == 98)
        ≡ true =
      ground arith in
    rw (
      hex_byte (0x80 + b % 0x40) (omega arith),
      allowed,
      hex_digit-is_hex ((0x80 + b % 0x40) % 16) (omega arith),
    )
