-- ===== src/Uuid/Timestamp.antt =====
-- A generated identifier carries its timestamp.
use mathlib.Core.List.{append_assoc}
use sintius.Prelude.Int.{pos}
use sintius.Prelude.Slices.{take}
use sintius.Prelude.{
  ℕ, zero, suc, ◌+◌, ◌*◌, ◌/◌, ◌%◌, ◌^◌, ◌<◌, ◌≡◌, ◌∙◌, ap, refl, true, false, ◌==◌, Text, List, [],
  ◌∷◌, ◌++◌, all, all-append, arith, length,
}
use sintius.Problem.{ok}
use sintius.Uuid.Bytes.{hex_byte, hex_number-byte}
use sintius.Uuid.Form.{is_byte, twice, grouped, hyphenated-join_hex, fields-is_byte, form}
use sintius.Uuid.{
  hex, hex_digit, hex_number, join_hex, without_hyphens, is_uuid_v7, random_fields,
  timestamp_fields, generate_uuid_v7, timestamp_of_uuid_v7,
}

hex_digit-not_hyphen : (d : ℕ) → d < 16 → (hex_digit d == 45) ≡ false
unfolding hex_digit
hex_digit-not_hyphen d h = ground arith

without_hyphens-join_hex :
    (bs : List ℕ) (s : Text)
    → all is_byte bs ≡ true
    → without_hyphens (join_hex bs ++ s) ≡ join_hex bs ++ without_hyphens s
unfolding join_hex
without_hyphens-join_hex [] s h = refl
without_hyphens-join_hex (b ∷ bs) s h =
    rw
      (
        hex_byte b (ground arith),
        hex_digit-not_hyphen (b / 16) (ground arith),
        hex_digit-not_hyphen (b % 16) (ground arith),
      )
      (ap (λ z. hex_digit (b / 16) ∷ hex_digit (b % 16) ∷ z)
        (without_hyphens-join_hex bs s (ground arith)))

take-written :
    (n : ℕ) (bs : List ℕ) (s : Text)
    → all is_byte bs ≡ true
    → length bs ≡ n
    → take (twice n) (join_hex bs ++ s) ≡ join_hex bs
unfolding join_hex
take-written zero [] s h k = refl
take-written zero (b ∷ bs) s h k = absurd (omega arith)
take-written (suc n) [] s h k = absurd (omega arith)
take-written (suc n) (b ∷ bs) s h k = rw (hex_byte b (ground arith)) (
    ap (λ z. hex_digit (b / 16) ∷ hex_digit (b % 16) ∷ z)
      (take-written n bs s (ground arith) (omega arith)))

pub timestamp_fields-is_byte : (t : ℕ) → all is_byte (timestamp_fields t) ≡ true
unfolding timestamp_fields
timestamp_fields-is_byte t = ground arith

join_hex-append : (bs cs : List ℕ) → join_hex (bs ++ cs) ≡ join_hex bs ++ join_hex cs
unfolding join_hex
join_hex-append [] cs = refl
join_hex-append (b ∷ bs) cs =
    rw (join_hex-append bs cs, append_assoc (hex b) (join_hex bs) (join_hex cs))

first_digits :
    (high low : List ℕ) (rest : Text)
    → all is_byte high ≡ true
    → all is_byte low ≡ true
    → length (high ++ low) ≡ 6
    → take 12 (without_hyphens (join_hex high ++ (45 ∷ join_hex low ++ rest)))
      ≡ join_hex (high ++ low)
first_digits high low rest h k n =
    let both : all is_byte (high ++ low) ≡ true = ground (arith, all-append is_byte high low) in
    let step = without_hyphens-join_hex high (45 ∷ join_hex low ++ rest) h in
    let next = without_hyphens-join_hex low rest k in
    rw
      (
        step,
        next,
        ← append_assoc (join_hex high) (join_hex low) (without_hyphens rest),
        ← join_hex-append high low,
      )
      (take-written 6 (high ++ low) (without_hyphens rest) both n)

-- The first twelve digits are those of the timestamp.
timestamp_digits :
    (t : ℕ) (random : List ℕ)
    → take 12 (without_hyphens (grouped (timestamp_fields t ++ random)))
      ≡ join_hex (timestamp_fields t)
unfolding timestamp_fields
timestamp_digits t random =
    first_digits (t / 2 ^ 40 % 256 ∷ t / 2 ^ 32 % 256 ∷ t / 2 ^ 24 % 256 ∷ t / 2 ^ 16 % 256 ∷ [])
      (t / 2 ^ 8 % 256 ∷ t % 256 ∷ []) _ (ground arith) (ground arith) refl

abbrev pub bytes_number : ℕ → List ℕ → ℕ
bytes_number n [] = n
bytes_number n (b ∷ bs) = bytes_number (n * 256 + b) bs

hex_number-join_hex :
    (n : ℕ) (bs : List ℕ) → all is_byte bs ≡ true → hex_number n (join_hex bs) ≡ bytes_number n bs
unfolding join_hex hex_number
hex_number-join_hex n [] h = refl
hex_number-join_hex n (b ∷ bs) h =
    hex_number-byte n b (join_hex bs) (ground arith)
    ∙ hex_number-join_hex (n * 256 + b) bs (ground arith)

pub bytes_number-timestamp : (t : ℕ) → t < 2 ^ 48 → bytes_number 0 (timestamp_fields t) ≡ t
unfolding timestamp_fields
bytes_number-timestamp t h = omega arith

timestamp_read :
    (t : ℕ) (random : List ℕ)
    → t < 2 ^ 48
    → hex_number 0 (take 12 (without_hyphens (grouped (timestamp_fields t ++ random)))) ≡ t
timestamp_read t random h = rw (timestamp_digits t random) (
    hex_number-join_hex 0 (timestamp_fields t) (timestamp_fields-is_byte t)
    ∙ bytes_number-timestamp t h)

pub generated :
    (ms : ℕ) (random : List ℕ)
    → length random ≡ 10
    → all is_byte random ≡ true
    → generate_uuid_v7 (pos ms) random
      ≡ ok (grouped (timestamp_fields (ms % 2 ^ 48) ++ random_fields random))
unfolding generate_uuid_v7
generated ms random k h =
    let bs = timestamp_fields (ms % 2 ^ 48) ++ random_fields random in
    let made : (length random == 10) ≡ true = ground arith in
    rw (made, hyphenated-join_hex bs (fields-is_byte (ms % 2 ^ 48) random h))

-- With a clock at or past the epoch and ten random bytes, `generateUuidV7` returns a canonical
-- UUIDv7, from which `timestampOfUuidV7` reads the clock's milliseconds, modulo 2^48.
pub timestamp_of_uuid_v7-generate_uuid_v7 :
    (ms : ℕ) (random : List ℕ)
    → length random ≡ 10
    → all is_byte random ≡ true
    → (id : Text) × (generate_uuid_v7 (pos ms) random ≡ ok id)
      × (is_uuid_v7 id ≡ true)
      × (timestamp_of_uuid_v7 id ≡ ok (ms % 2 ^ 48))
unfolding timestamp_of_uuid_v7
timestamp_of_uuid_v7-generate_uuid_v7 ms random k h =
    let t = ms % 2 ^ 48 in
    let bs = timestamp_fields t ++ random_fields random in
    let valid = form t random k h in
    (
      grouped bs,
      generated ms random k h,
      valid,
      rw (valid, timestamp_read t (random_fields random) (omega arith)),
    )
