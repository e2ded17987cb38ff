-- ===== src/Money/Rounding/Bounds.antt =====
-- How far each rounding mode lies from the exact quotient.
use sintius.Money.Rounding.{
  RoundingMode, half_up, half_even, down, up, rounded_magnitude, rounded_quotient,
}
use sintius.Prelude.Int.{ℤ, pos, negsuc, neg, magnitude, is_negative, signed, magnitude-signed}
use sintius.Prelude.{
  Bool, true, false, xor, ℕ, zero, suc, ◌+◌, ◌*◌, ◌%◌, ◌≤◌, ◌<◌, ◌≡◌, ◌⊎◌, arith, refl, sym, not,
  ap, ◌∙◌,
}

-- `q` is the rounding of `n / d`: truncated for DOWN, the next integer up for UP, a nearest integer
-- for HALF_UP and HALF_EVEN, with a tie upwards for the first and to an even integer for the second.
abbrev pub IsRounded : RoundingMode → ℕ → ℕ → ℕ → Type 0
IsRounded down n d q = (q * d ≤ n) × (n < q * d + d)
IsRounded up n d q = (n ≤ q * d) × (q * d < n + d)
IsRounded half_up n d q = (2 * (q * d) ≤ 2 * n + d) × (2 * n < 2 * (q * d) + d)
IsRounded half_even n d q =
    (2 * (q * d) ≤ 2 * n + d)
    × (2 * n ≤ 2 * (q * d) + d)
    × (((2 * (q * d) < 2 * n + d) × (2 * n < 2 * (q * d) + d)) ⊎ (q % 2 ≡ 0))

module _ (n d : ℕ) (positive : 0 < d) where
  half_even_tie_up :
      2 * (rounded_magnitude n d half_even * d) ≡ 2 * n + d
      → rounded_magnitude n d half_even % 2 ≡ 0
  unfolding rounded_magnitude
  half_even_tie_up h = grind arith

  half_even_tie_down :
      2 * n ≡ 2 * (rounded_magnitude n d half_even * d) + d
      → rounded_magnitude n d half_even % 2 ≡ 0
  unfolding rounded_magnitude
  half_even_tie_down h = grind arith

  half_even_bounds :
      (2 * (rounded_magnitude n d half_even * d) ≤ 2 * n + d)
      × (2 * n ≤ 2 * (rounded_magnitude n d half_even * d) + d)
  unfolding rounded_magnitude
  half_even_bounds = grind arith

nearer_or_even :
    (x y d e : ℕ)
    → x ≤ y + d
    → y ≤ x + d
    → (x ≡ y + d → e ≡ 0)
    → (y ≡ x + d → e ≡ 0)
    → ((x < y + d) × (y < x + d)) ⊎ (e ≡ 0)
nearer_or_even x y d e h k p q = grind arith

rounded_magnitude-IsRounded :
    (n d : ℕ) (mode : RoundingMode) → 0 < d → IsRounded mode n d (rounded_magnitude n d mode)
unfolding rounded_magnitude
rounded_magnitude-IsRounded n d down positive = grind arith
rounded_magnitude-IsRounded n d up positive = grind arith
rounded_magnitude-IsRounded n d half_up positive = grind arith
rounded_magnitude-IsRounded n d half_even positive =
    let (above, below) = half_even_bounds n d positive in
    (
      above,
      below,
      nearer_or_even _ _ d _ above below (half_even_tie_up n d positive)
          (half_even_tie_down n d positive),
    )

-- The magnitude of a rounded quotient is the rounding of the exact quotient of the magnitudes, in
-- each mode, for a divisor that is not zero.
pub rounded_quotient-IsRounded :
    (a b : ℤ) (mode : RoundingMode)
    → 0 < magnitude b
    → IsRounded mode (magnitude a) (magnitude b) (magnitude (rounded_quotient a b mode))
unfolding rounded_quotient
rounded_quotient-IsRounded a b mode positive =
    rw (magnitude-signed (xor (is_negative a) (is_negative b)))
      (rounded_magnitude-IsRounded (magnitude a) (magnitude b) mode positive)

rounded_magnitude-zero : (d : ℕ) (mode : RoundingMode) → 0 < d → rounded_magnitude 0 d mode ≡ 0
unfolding rounded_magnitude
rounded_magnitude-zero d mode positive = grind arith

neg-signed : (b : Bool) (n : ℕ) → neg (signed b n) ≡ signed (not b) n
unfolding neg
neg-signed true zero = refl
neg-signed true (suc n) = refl
neg-signed false zero = refl
neg-signed false (suc n) = refl

rounded_quotient-zero :
    (b : ℤ) (mode : RoundingMode) → 0 < magnitude b → rounded_quotient (pos 0) b mode ≡ pos 0
unfolding rounded_quotient
rounded_quotient-zero (pos n) mode positive = rw (rounded_magnitude-zero n mode positive)
rounded_quotient-zero (negsuc n) mode positive = rw (rounded_magnitude-zero (suc n) mode positive)

magnitude-neg : (b : ℤ) → magnitude (neg b) ≡ magnitude b
unfolding neg
magnitude-neg (pos zero) = refl
magnitude-neg (pos (suc n)) = refl
magnitude-neg (negsuc n) = refl

-- Rounding is symmetric in the sign: negating the dividend or the divisor negates the result.
pub rounded_quotient-neg :
    (a b : ℤ) (mode : RoundingMode)
    → 0 < magnitude b
    → (rounded_quotient (neg a) b mode ≡ neg (rounded_quotient a b mode))
      × (rounded_quotient a (neg b) mode ≡ neg (rounded_quotient a b mode))
unfolding rounded_quotient neg
rounded_quotient-neg (pos zero) b mode positive =
    let none_left = rounded_quotient-zero b mode positive in
    (
      none_left ∙ sym (ap neg none_left),
      rounded_quotient-zero (neg b) mode (omega (arith, magnitude-neg b)) ∙ sym (ap neg none_left),
    )
rounded_quotient-neg a (pos zero) mode positive = absurd (omega arith)
rounded_quotient-neg (pos (suc n)) (pos (suc m)) mode positive =
    (sym (neg-signed false _), sym (neg-signed false _))
rounded_quotient-neg (pos (suc n)) (negsuc m) mode positive =
    (sym (neg-signed true _), sym (neg-signed true _))
rounded_quotient-neg (negsuc n) (pos (suc m)) mode positive =
    (sym (neg-signed true _), sym (neg-signed true _))
rounded_quotient-neg (negsuc n) (negsuc m) mode positive =
    (sym (neg-signed false _), sym (neg-signed false _))
