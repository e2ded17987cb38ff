-- ===== src/Money/Decimal/Digits.antt =====
-- Decimal digits of a natural number, as `BigInt.prototype.toString` writes them.
use native.Mathlib.Nat.{pow-suc}
use sintius.Prelude.{
  ℕ, zero, suc, ◌/◌, ◌%◌, ◌^◌, ◌≤◌, ◌<◌, ltb, if◌then◌else◌, List, [], ◌∷◌, ◌++◌, length, arith,
  Bool-cases, length-append, inl, inr,
}

-- The digits, most significant first. `fuel` bounds their number.
unfoldable pub digits_from : (fuel n : ℕ) → List ℕ
digits_from zero n = []
digits_from (suc fuel) n =
    let rest = digits_from fuel (n / 10) in if ltb n 10 then n ∷ [] else rest ++ (n % 10) ∷ []

unfoldable pub digits : ℕ → List ℕ
unfolding digits_from
digits n = digits_from (suc n) n

-- `digitCount`, on a magnitude.
unfoldable pub digit_count : ℕ → ℕ
unfolding digits
digit_count n = length (digits n)

pow_pos : (k : ℕ) → 0 < 10 ^ k
pow_pos zero = omega arith
pow_pos (suc k) = rw (pow-suc 10 k) (omega (arith, pow_pos k))

length-digits_from-le :
    (k fuel n : ℕ) → n < fuel → n < 10 ^ suc k → length (digits_from fuel n) ≤ suc k
unfolding digits_from
length-digits_from-le k zero n h b = omega arith
length-digits_from-le zero (suc fuel) n h b = ground arith
length-digits_from-le (suc k) (suc fuel) n h b = ground (
  arith,
  length-append (digits_from fuel (n / 10)) ((n % 10) ∷ []),
  pow-suc 10 (suc k),
  length-digits_from-le k fuel (n / 10),
)

le-length-digits_from : (k fuel n : ℕ) → n < fuel → 10 ^ k ≤ n → suc k ≤ length (digits_from fuel n)
unfolding digits_from
le-length-digits_from k zero n h b = absurd (omega arith)
le-length-digits_from zero (suc fuel) n h b =
    ground (arith, length-append (digits_from fuel (n / 10)) ((n % 10) ∷ []))
le-length-digits_from (suc k) (suc fuel) n h b = ground (
  arith,
  length-append (digits_from fuel (n / 10)) ((n % 10) ∷ []),
  pow-suc 10 k,
  pow_pos k,
  le-length-digits_from k fuel (n / 10),
)

-- A number has at most k + 1 digits exactly when it lies below 10 ^ (k + 1).
pub digit_count-le_iff :
    (k n : ℕ) → (digit_count n ≤ suc k → n < 10 ^ suc k) × (n < 10 ^ suc k → digit_count n ≤ suc k)
unfolding digit_count
digit_count-le_iff k n = (
  λ h. elim (Bool-cases (ltb n (10 ^ suc k))) [
    | inl below ↦ ground arith
    | inr above ↦
        absurd (omega (arith, le-length-digits_from (suc k) (suc n) n (omega arith) (ground arith)))
  ],
  λ h. length-digits_from-le k (suc n) n (omega arith) h,
)
