-- ===== src/Uuid.antt =====
-- UUIDv7 identifiers (platform/id/src/uuid7.ts). The clock's value and the random bytes, which the
-- source takes from injected functions, are arguments; an instant is a count of milliseconds.
pub mod Bytes
pub mod Form
pub mod Timestamp
pub mod Order
use sintius.Prelude.Int.{ℤ, pos, magnitude, is_negative}
use sintius.Prelude.Slices.{take, drop, replicate, pad_start}
use sintius.Prelude.{
  ℕ, zero, suc, ◌+◌, ◌-◌, ◌*◌, ◌/◌, ◌%◌, ◌^◌, Bool, true, false, ◌&&◌, ◌||◌, ltb, leb, ◌==◌,
  if◌then◌else◌, not, Text, List, [], ◌∷◌, ◌++◌, length, filter,
}
use sintius.Problem.{
  Outcome, ok, problem, invalid_timestamp, calculation_rejected, invalid_decimal, throw_if, ◌>>◌,
  ◌>>=◌,
}

-- One digit of `toString(16)`.
unfoldable pub hex_digit : ℕ → ℕ
hex_digit d = if ltb d 10 then d + 48 else d + 87

-- `n.toString(16)`. `fuel` bounds the number of digits.
unfoldable pub hex_from : (fuel n : ℕ) → Text
hex_from zero n = []
hex_from (suc fuel) n =
    let rest = hex_from fuel (n / 16) in
    if ltb n 16 then hex_digit n ∷ [] else rest ++ hex_digit (n % 16) ∷ []

unfoldable pub hex : ℕ → Text
hex byte = pad_start 2 48 (hex_from (suc byte) byte)

-- `Array.from(bytes, hex).join("")`
unfoldable pub join_hex : List ℕ → Text
join_hex [] = []
join_hex (byte ∷ bytes) = hex byte ++ join_hex bytes

-- The sixteen bytes: the low 48 bits of the timestamp, then the random bytes with the version and
-- the variant set in bytes 6 and 8.
unfoldable pub set_version : ℕ → ℕ
set_version byte = 0x70 + byte % 0x10

unfoldable pub set_variant : ℕ → ℕ
set_variant byte = 0x80 + byte % 0x40

unfoldable pub random_fields : List ℕ → List ℕ
random_fields (r0 ∷ r1 ∷ r2 ∷ rest) = set_version r0 ∷ r1 ∷ set_variant r2 ∷ rest
random_fields short = short

unfoldable pub timestamp_fields : ℕ → List ℕ
timestamp_fields timestamp =
    timestamp / 2 ^ 40 % 256
    ∷ timestamp / 2 ^ 32 % 256
    ∷ timestamp / 2 ^ 24 % 256
    ∷ timestamp / 2 ^ 16 % 256
    ∷ timestamp / 2 ^ 8 % 256
    ∷ timestamp % 256
    ∷ []

unfoldable pub hyphenated : Text → Text
hyphenated s =
    take 8 s
    ++ (45 ∷ take 4 (drop 8 s)
        ++ (45 ∷ take 4 (drop 12 s) ++ (45 ∷ take 4 (drop 16 s) ++ 45 ∷ drop 20 s)))

-- `generateUuidV7`
unfoldable pub generate_uuid_v7 : (milliseconds_since_epoch : ℤ) (random : List ℕ) → Outcome Text
generate_uuid_v7 milliseconds_since_epoch random = do
  throw_if (is_negative milliseconds_since_epoch) invalid_timestamp
  let timestamp = magnitude milliseconds_since_epoch % 2 ^ 48
  throw_if (not (length random == 10)) calculation_rejected
  ok (hyphenated (join_hex (timestamp_fields timestamp ++ random_fields random)))

-- `[0-9a-f]`
unfoldable pub is_hex : ℕ → Bool
is_hex c = (leb 48 c && leb c 57) || (leb 97 c && leb c 102)

-- The regular expression `UUID_FORMAT`: one class for each of the 36 code units.
unfoldable pub uuid_format : List (ℕ → Bool)
uuid_format =
    replicate 8 is_hex
    ++ (λ c. c == 45) ∷ replicate 4 is_hex
    ++ (λ c. c == 45) ∷ (λ c. c == 55) ∷ replicate 3 is_hex
    ++ (λ c. c == 45) ∷ (λ c. c == 56 || c == 57 || c == 97 || c == 98) ∷ replicate 3 is_hex
    ++ (λ c. c == 45) ∷ replicate 12 is_hex

abbrev pub matches : List (ℕ → Bool) → Text → Bool
matches [] [] = true
matches [] (c ∷ s) = false
matches (p ∷ ps) [] = false
matches (p ∷ ps) (c ∷ s) = p c && matches ps s

-- `isUuidV7`
unfoldable pub is_uuid_v7 : Text → Bool
is_uuid_v7 id = matches uuid_format id

-- The value of a hexadecimal digit, and `BigInt("0x…")` with the value of the digits already read.
unfoldable pub hex_value : ℕ → ℕ
hex_value c = if leb 97 c then c - 87 else c - 48

unfoldable pub hex_number : ℕ → Text → ℕ
hex_number n [] = n
hex_number n (c ∷ s) = hex_number (n * 16 + hex_value c) s

abbrev pub without_hyphens : Text → Text
without_hyphens s = filter (λ (c : ℕ). not (c == 45)) s

-- `timestampOfUuidV7`
unfoldable pub timestamp_of_uuid_v7 : Text → Outcome ℕ
timestamp_of_uuid_v7 id =
    throw_if (not (is_uuid_v7 id)) invalid_decimal
    >> ok (hex_number 0 (take 12 (without_hyphens id)))
