-- ===== src/Uuid/Order.antt =====
-- Identifiers of a later millisecond sort after those of an earlier one.
use mathlib.Core.List.{append_assoc}
use sintius.Prelude.Int.{pos}
use sintius.Prelude.{
  ℕ, ◌+◌, ◌*◌, ◌/◌, ◌%◌, ◌^◌, ◌<◌, ◌≡◌, ◌∙◌, refl, true, ltb, Text, text_lt, List, [], ◌∷◌, ◌++◌,
  all, all-append, arith, length, Bool-cases, inl, inr,
}
use sintius.Problem.{ok}
use sintius.Uuid.Bytes.{hex_byte}
use sintius.Uuid.Form.{is_byte, grouped}
use sintius.Uuid.Timestamp.{
  bytes_number, bytes_number-timestamp, timestamp_fields-is_byte, generated,
}
use sintius.Uuid.{hex, hex_digit, join_hex, random_fields, timestamp_fields, generate_uuid_v7}

hex_digit-lt : (c d : ℕ) → c < d → d < 16 → ltb (hex_digit c) (hex_digit d) ≡ true
unfolding hex_digit
hex_digit-lt c d h k = ground arith

text_lt_byte : (b c : ℕ) (s t : Text) → b < c → c < 256 → text_lt (hex b ++ s) (hex c ++ t) ≡ true
unfolding text_lt
text_lt_byte b c s t h k =
    rw (hex_byte b (omega arith), hex_byte c k)
      (elim (Bool-cases (ltb (b / 16) (c / 16))) [
        | inl lower ↦ rw (hex_digit-lt (b / 16) (c / 16) (ground arith) (omega arith))
        | inr same_high ↦
            let high : b / 16 ≡ c / 16 = ground arith in
            rw high (ground (arith, hex_digit-lt (b % 16) (c % 16)))
      ])

text_lt_same : (b : ℕ) (s t : Text) → b < 256 → text_lt (hex b ++ s) (hex b ++ t) ≡ text_lt s t
unfolding text_lt
text_lt_same b s t h = rw (hex_byte b h) (ground arith)

bytes_number-lt :
    (m n : ℕ) (xs ys : List ℕ)
    → m < n
    → length xs ≡ length ys
    → all is_byte xs ≡ true
    → bytes_number m xs < bytes_number n ys
bytes_number-lt m n [] [] h k b = h
bytes_number-lt m n [] (y ∷ ys) h k b = absurd (omega arith)
bytes_number-lt m n (x ∷ xs) [] h k b = absurd (omega arith)
bytes_number-lt m n (x ∷ xs) (y ∷ ys) h k b =
    bytes_number-lt (m * 256 + x) (n * 256 + y) xs ys (ground arith) (omega arith) (ground arith)

text_lt-bytes :
    (n : ℕ) (xs ys : List ℕ) (s t : Text)
    → length xs ≡ length ys
    → all is_byte xs ≡ true
    → all is_byte ys ≡ true
    → (bytes_number n xs < bytes_number n ys → text_lt (join_hex xs ++ s) (join_hex ys ++ t) ≡ true)
      × (bytes_number n xs ≡ bytes_number n ys
          → text_lt (join_hex xs ++ s) (join_hex ys ++ t) ≡ text_lt s t)
unfolding join_hex
text_lt-bytes n [] [] s t k b c = (λ h. absurd (omega arith), λ h. refl)
text_lt-bytes n [] (y ∷ ys) s t k b c = absurd (omega arith)
text_lt-bytes n (x ∷ xs) [] s t k b c = absurd (omega arith)
text_lt-bytes n (x ∷ xs) (y ∷ ys) s t k b c =
    let left = append_assoc (hex x) (join_hex xs) s in
    let right = append_assoc (hex y) (join_hex ys) t in
    let below : x < y → bytes_number (n * 256 + x) xs < bytes_number (n * 256 + y) ys = λ l.
      bytes_number-lt (n * 256 + x) (n * 256 + y) xs ys (omega arith) (omega arith)
        (ground arith) in
    let above : y < x → bytes_number (n * 256 + y) ys < bytes_number (n * 256 + x) xs = λ l.
      bytes_number-lt (n * 256 + y) (n * 256 + x) ys xs (omega arith) (omega arith)
        (ground arith) in
    elim (Bool-cases (ltb x y)) [
      | inl lower ↦ (
        λ h.
            rw (left, right)
              (text_lt_byte x y (join_hex xs ++ s) (join_hex ys ++ t) (ground arith)
                (ground arith)),
        λ h. absurd (omega (arith, below (ground arith))),
      )
      | inr not_lower ↦ elim (Bool-cases (ltb y x)) [
        | inl higher ↦ (
          λ h. absurd (omega (arith, above (ground arith))),
          λ h. absurd (omega (arith, above (ground arith))),
        )
        | inr not_higher ↦
            let same_byte : y ≡ x = ground arith in
            let rest =
              text_lt-bytes (n * 256 + x) xs ys s t (omega arith) (ground arith) (ground arith) in
            let step = text_lt_same x (join_hex xs ++ s) (join_hex ys ++ t) (ground arith) in
            (
              λ h. rw (left, right, same_byte) (step ∙ rest.0 (rw same_byte at h)),
              λ h. rw (left, right, same_byte) (step ∙ rest.1 (rw same_byte at h)),
            )
      ]
    ]

text_lt_hyphen : (s t : Text) → text_lt (45 ∷ s) (45 ∷ t) ≡ text_lt s t
unfolding text_lt
text_lt_hyphen s t = ground arith

bytes_number-append :
    (n : ℕ) (xs ys : List ℕ) → bytes_number n (xs ++ ys) ≡ bytes_number (bytes_number n xs) ys
bytes_number-append n [] ys = refl
bytes_number-append n (x ∷ xs) ys = bytes_number-append (n * 256 + x) xs ys

-- The hyphen between the parts of the timestamp does not change the order.
text_lt-parts :
    (high low high' low' : List ℕ) (s t : Text)
    → length high ≡ length high'
    → length low ≡ length low'
    → all is_byte (high ++ low) ≡ true
    → all is_byte (high' ++ low') ≡ true
    → bytes_number 0 (high ++ low) < bytes_number 0 (high' ++ low')
    → text_lt
        (join_hex high ++ (45 ∷ join_hex low ++ s))
        (join_hex high' ++ (45 ∷ join_hex low' ++ t))
      ≡ true
text_lt-parts high low high' low' s t k l b c h =
    let b1 : all is_byte high ≡ true = ground (arith, all-append is_byte high low) in
    let b2 : all is_byte low ≡ true = ground (arith, all-append is_byte high low) in
    let c1 : all is_byte high' ≡ true = ground (arith, all-append is_byte high' low') in
    let c2 : all is_byte low' ≡ true = ground (arith, all-append is_byte high' low') in
    let m = bytes_number 0 high in
    let n = bytes_number 0 high' in
    let rest =
      text_lt-bytes 0 high high' (45 ∷ join_hex low ++ s) (45 ∷ join_hex low' ++ t) k b1 c1 in
    let total : bytes_number m low < bytes_number n low' =
      omega (arith, bytes_number-append 0 high low, bytes_number-append 0 high' low') in
    elim (Bool-cases (ltb m n)) [
      | inl lower ↦ rest.0 (ground arith)
      | inr not_lower ↦ elim (Bool-cases (ltb n m)) [
        | inl higher ↦
            absurd
              (omega (arith, total, bytes_number-lt n m low' low (ground arith) (omega arith) c2))
        | inr not_higher ↦
            let equal : m ≡ n = ground arith in
            let lows = text_lt-bytes n low low' s t l b2 c2 in
            rest.1 equal
            ∙ text_lt_hyphen (join_hex low ++ s) (join_hex low' ++ t)
            ∙ lows.0 (rw equal at total)
      ]
    ]

grouped-lt :
    (t t' : ℕ) (random random' : List ℕ)
    → t < t'
    → t' < 2 ^ 48
    → text_lt (grouped (timestamp_fields t ++ random)) (grouped (timestamp_fields t' ++ random'))
      ≡ true
unfolding timestamp_fields
grouped-lt t t' random random' h k =
    text_lt-parts (t / 2 ^ 40 % 256 ∷ t / 2 ^ 32 % 256 ∷ t / 2 ^ 24 % 256 ∷ t / 2 ^ 16 % 256 ∷ [])
      (t / 2 ^ 8 % 256 ∷ t % 256 ∷ [])
      (t' / 2 ^ 40 % 256 ∷ t' / 2 ^ 32 % 256 ∷ t' / 2 ^ 24 % 256 ∷ t' / 2 ^ 16 % 256 ∷ [])
      (t' / 2 ^ 8 % 256 ∷ t' % 256 ∷ []) _ _ refl refl (timestamp_fields-is_byte t)
      (timestamp_fields-is_byte t')
      (omega (arith, bytes_number-timestamp t (omega arith), bytes_number-timestamp t' k))

-- Before the 48 bits wrap, the identifier of a later millisecond is the greater string, whatever
-- the random bytes of the two are.
pub text_lt-generate_uuid_v7 :
    (ms ms' : ℕ) (random random' : List ℕ) {id id' : Text}
    → length random ≡ 10
    → length random' ≡ 10
    → all is_byte random ≡ true
    → all is_byte random' ≡ true
    → ms < ms'
    → ms' < 2 ^ 48
    → generate_uuid_v7 (pos ms) random ≡ ok id
    → generate_uuid_v7 (pos ms') random' ≡ ok id'
    → text_lt id id' ≡ true
text_lt-generate_uuid_v7 ms ms' random random' {id} {id'} k k' b b' h small e e' =
    let t : ms % 2 ^ 48 ≡ ms = omega arith in
    let t' : ms' % 2 ^ 48 ≡ ms' = omega arith in
    let ordered =
      grouped-lt (ms % 2 ^ 48) (ms' % 2 ^ 48) (random_fields random) (random_fields random')
        (omega arith) (omega arith) in
    let first : grouped (timestamp_fields (ms % 2 ^ 48) ++ random_fields random) ≡ id =
      cc (generated ms random k b) in
    let second : grouped (timestamp_fields (ms' % 2 ^ 48) ++ random_fields random') ≡ id' =
      cc (generated ms' random' k' b') in
    rw (← first, ← second) ordered
