-- ===== src/Uuid/Form.antt =====
-- A generated identifier has the form that `isUuidV7` tests.
use mathlib.Core.List.{append-nil, append_assoc}
use sintius.Prelude.Slices.{take, drop, replicate, all-drop}
use sintius.Prelude.{
  ℕ, zero, suc, ◌/◌, ◌%◌, ◌^◌, ◌<◌, ◌≡◌, ◌∙◌, ap, refl, Bool, true, ◌||◌, ltb, ◌==◌, Text, List, [],
  ◌∷◌, ◌++◌, all, arith, length,
}
use sintius.Uuid.Bytes.{hex_byte, matches_byte, matches_version, matches_variant, hex_digit-is_hex}
use sintius.Uuid.{
  hex, hex_digit, is_hex, matches, join_hex, hyphenated, uuid_format, is_uuid_v7, set_version,
  set_variant, random_fields, timestamp_fields,
}

abbrev pub is_byte : ℕ → Bool
is_byte b = ltb b 256

-- Two digits to a byte.
abbrev pub twice : ℕ → ℕ
twice zero = zero
twice (suc n) = suc (suc (twice n))

take-join_hex :
    (n : ℕ) (bs : List ℕ)
    → all is_byte bs ≡ true
    → take (twice n) (join_hex bs) ≡ join_hex (take n bs)
unfolding join_hex
take-join_hex zero bs h = refl
take-join_hex (suc n) [] h = refl
take-join_hex (suc n) (b ∷ bs) h =
    rw (hex_byte b (ground arith))
      (ap (λ s. hex_digit (b / 16) ∷ hex_digit (b % 16) ∷ s) (take-join_hex n bs (ground arith)))

drop-join_hex :
    (n : ℕ) (bs : List ℕ)
    → all is_byte bs ≡ true
    → drop (twice n) (join_hex bs) ≡ join_hex (drop n bs)
unfolding join_hex
drop-join_hex zero bs h = refl
drop-join_hex (suc n) [] h = refl
drop-join_hex (suc n) (b ∷ bs) h =
    rw (hex_byte b (ground arith)) (drop-join_hex n bs (ground arith))

matches-join_hex :
    (n : ℕ) (ps : List (ℕ → Bool)) (bs : List ℕ) (s : Text)
    → all is_byte bs ≡ true
    → length bs ≡ n
    → matches (replicate (twice n) is_hex ++ ps) (join_hex bs ++ s) ≡ matches ps s
unfolding join_hex
matches-join_hex zero ps [] s h k = refl
matches-join_hex zero ps (b ∷ bs) s h k = absurd (omega arith)
matches-join_hex (suc n) ps [] s h k = absurd (omega arith)
matches-join_hex (suc n) ps (b ∷ bs) s h k =
    rw
      (
        hex_byte b (ground arith),
        hex_digit-is_hex (b / 16) (ground arith),
        hex_digit-is_hex (b % 16) (ground arith),
      )
      (matches-join_hex n ps bs s (ground arith) (omega arith))

-- The hyphens stand between the bytes.
abbrev pub grouped : List ℕ → Text
grouped bs =
    join_hex (take 4 bs)
    ++ (45 ∷ join_hex (take 2 (drop 4 bs))
        ++ (45 ∷ join_hex (take 2 (drop 6 bs))
            ++ (45 ∷ join_hex (take 2 (drop 8 bs)) ++ 45 ∷ join_hex (drop 10 bs))))

pub hyphenated-join_hex :
    (bs : List ℕ) → all is_byte bs ≡ true → hyphenated (join_hex bs) ≡ grouped bs
unfolding hyphenated
hyphenated-join_hex bs h = rw (
  take-join_hex 4 bs h,
  drop-join_hex 4 bs h,
  drop-join_hex 6 bs h,
  drop-join_hex 8 bs h,
  drop-join_hex 10 bs h,
  take-join_hex 2 (drop 4 bs) (all-drop is_byte 4 bs h),
  take-join_hex 2 (drop 6 bs) (all-drop is_byte 6 bs h),
  take-join_hex 2 (drop 8 bs) (all-drop is_byte 8 bs h),
)

-- The fields of a timestamp of 48 bits are bytes, and so are those of the random part.
pub fields-is_byte :
    (timestamp : ℕ) (random : List ℕ)
    → all is_byte random ≡ true
    → all is_byte (timestamp_fields timestamp ++ random_fields random) ≡ true
unfolding timestamp_fields random_fields set_version set_variant
fields-is_byte timestamp [] h = ground arith
fields-is_byte timestamp (a ∷ []) h = ground arith
fields-is_byte timestamp (a ∷ b ∷ []) h = ground arith
fields-is_byte timestamp (a ∷ b ∷ c ∷ rest) h = ground arith

abbrev is_hyphen : ℕ → Bool
is_hyphen c = c == 45

abbrev last_group : List (ℕ → Bool)
last_group = is_hyphen ∷ replicate 12 is_hex

abbrev variant_group : List (ℕ → Bool)
variant_group =
    is_hyphen ∷ (λ c. c == 56 || c == 57 || c == 97 || c == 98) ∷ replicate 3 is_hex ++ last_group

abbrev version_group : List (ℕ → Bool)
version_group = is_hyphen ∷ (λ c. c == 55) ∷ replicate 3 is_hex ++ variant_group

matches_last :
    (bs : List ℕ)
    → all is_byte bs ≡ true
    → length bs ≡ 6
    → matches last_group (45 ∷ join_hex bs) ≡ true
matches_last bs h k =
    let exact = matches-join_hex 6 [] bs [] h k in rw (append-nil (join_hex bs)) at exact

matches-variant_group :
    (r2 r3 : ℕ) (s : Text)
    → r3 < 256
    → matches variant_group (45 ∷ join_hex (set_variant r2 ∷ r3 ∷ []) ++ s) ≡ matches last_group s
unfolding join_hex
matches-variant_group r2 r3 s h =
    rw (append-nil (hex r3), append_assoc (hex (set_variant r2)) (hex r3) s)
      (matches_variant (is_hex ∷ is_hex ∷ last_group) r2 (hex r3 ++ s)
        ∙ matches_byte last_group r3 s h)

matches-version_group :
    (r0 r1 : ℕ) (s : Text)
    → r1 < 256
    → matches version_group (45 ∷ join_hex (set_version r0 ∷ r1 ∷ []) ++ s)
      ≡ matches variant_group s
unfolding join_hex
matches-version_group r0 r1 s h =
    rw (append-nil (hex r1), append_assoc (hex (set_version r0)) (hex r1) s)
      (matches_version (is_hex ∷ is_hex ∷ variant_group) r0 (hex r1 ++ s)
        ∙ matches_byte variant_group r1 s h)

-- Ten random bytes give ten more, the first and the third of them set to the version and variant.
well_formed :
    (t r0 r1 r2 r3 : ℕ) (rest : List ℕ)
    → length rest ≡ 6
    → all is_byte (r0 ∷ r1 ∷ r2 ∷ r3 ∷ rest) ≡ true
    → matches uuid_format (grouped (timestamp_fields t ++ random_fields (r0 ∷ r1 ∷ r2 ∷ r3 ∷ rest)))
      ≡ true
unfolding uuid_format random_fields timestamp_fields
well_formed t r0 r1 r2 r3 rest k h =
    let high = t / 2 ^ 40 % 256 ∷ t / 2 ^ 32 % 256 ∷ t / 2 ^ 24 % 256 ∷ t / 2 ^ 16 % 256 ∷ [] in
    let low = t / 2 ^ 8 % 256 ∷ t % 256 ∷ [] in
    let last = 45 ∷ join_hex rest in
    let variant = 45 ∷ join_hex (set_variant r2 ∷ r3 ∷ []) ++ last in
    let version = 45 ∷ join_hex (set_version r0 ∷ r1 ∷ []) ++ variant in
    matches-join_hex 4 (is_hyphen ∷ replicate 4 is_hex ++ version_group) high
      (45 ∷ join_hex low ++ version) (ground arith) refl
    ∙ matches-join_hex 2 version_group low version (ground arith) refl
    ∙ matches-version_group r0 r1 variant (ground arith)
    ∙ matches-variant_group r2 r3 last (ground arith)
    ∙ matches_last rest (ground arith) k

-- Lists with fewer than ten bytes are no random part.
pub form :
    (t : ℕ) (random : List ℕ)
    → length random ≡ 10
    → all is_byte random ≡ true
    → is_uuid_v7 (grouped (timestamp_fields t ++ random_fields random)) ≡ true
unfolding is_uuid_v7
form t (r0 ∷ r1 ∷ r2 ∷ r3 ∷ rest) k h = well_formed t r0 r1 r2 r3 rest (omega arith) h
form t (r0 ∷ r1 ∷ r2 ∷ []) k h = absurd (omega arith)
form t (r0 ∷ r1 ∷ []) k h = absurd (omega arith)
form t (r0 ∷ []) k h = absurd (omega arith)
form t [] k h = absurd (omega arith)
