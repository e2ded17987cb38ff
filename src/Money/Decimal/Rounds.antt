-- ===== src/Money/Decimal/Rounds.antt =====
-- `round`, `divide` and `multiply` round once, as their mode says.
use mathlib.Core.Path.{subst, subst₂}
use sintius.Money.Decimal.{Decimal, Rounding, make, multiply, divide, round}
use sintius.Money.Decimal.Exact.{make-fields}
use sintius.Money.Rounding.Bounds.{IsRounded, rounded_quotient-IsRounded}
use sintius.Money.Rounding.{RoundingMode, rounded_quotient}
use sintius.Prelude.Int.{
  ℤ, pos, negsuc, ◌*ℤ◌, magnitude, magnitude-*ℤ, magnitude-signed, is_negative, signed,
}
use sintius.Prelude.Powers.{pow_pos}
use sintius.Prelude.{
  Bool, ℕ, zero, suc, ◌+◌, ◌-◌, ◌*◌, ◌^◌, ◌<◌, ◌≡◌, ◌≢◌, arith, some, true, xor, refl, sym, ap, ap₂,
  ◌∙◌,
}
use sintius.Problem.{ok}

-- A returned decimal that was made of a rounded quotient.
made :
    (a b : ℤ) (s : ℕ) (mode : RoundingMode) {r : Decimal}
    → 0 < magnitude b
    → make (rounded_quotient a b mode) s ≡ ok r
    → (r.scale ≡ s) × IsRounded mode (magnitude a) (magnitude b) (magnitude r.units)
made a b s mode positive h =
    let (u, e) = make-fields (rounded_quotient a b mode) s h in
    (e, rw u (rounded_quotient-IsRounded a b mode positive))

product_positive : (m k : ℕ) → 0 < m → 0 < k → 0 < m * k
product_positive m k h p = grind arith

negative_positive : (n : ℕ) → 0 < n → is_negative (signed true n) ≡ true
negative_positive zero h = absurd (omega arith)
negative_positive (suc n) h = refl

-- The sign of a rounded quotient is that of the exact one, and zero has none.
rounded_quotient-sign :
    (a b : ℤ) (mode : RoundingMode)
    → rounded_quotient a b mode
      ≡ signed (xor (is_negative a) (is_negative b)) (magnitude (rounded_quotient a b mode))
unfolding rounded_quotient
rounded_quotient-sign a b mode =
    ap (λ (n : ℕ). signed (xor (is_negative a) (is_negative b)) n)
      (sym (magnitude-signed (xor (is_negative a) (is_negative b)) _))

is_negative-*ℤ : (u : ℤ) (k : ℕ) → is_negative (u *ℤ pos (10 ^ k)) ≡ is_negative u
unfolding ◌*ℤ◌
is_negative-*ℤ (pos n) k = refl
is_negative-*ℤ (negsuc n) k =
    negative_positive (suc n * 10 ^ k) (product_positive (suc n) (10 ^ k) (omega arith) (pow_pos k))

nonzero : (u : ℤ) → u ≢ pos 0 → 0 < magnitude u
nonzero (pos n) h = ground arith
nonzero (negsuc n) h = omega arith

module _ (a : Decimal) (s : ℕ) (mode : RoundingMode) {r : Decimal} where
  round_down_scale :
      s < a.scale
      → round a s mode ≡ ok r
      → make (rounded_quotient a.units (pos (10 ^ (a.scale - s))) mode) s ≡ ok r
  unfolding round
  round_down_scale h e = ground arith

  -- To a smaller scale, `round` gives the rounding of units / 10 ^ (old scale - new scale).
  pub round-IsRounded :
      s < a.scale
      → round a s mode ≡ ok r
      → (r.scale ≡ s) × IsRounded mode (magnitude a.units) (10 ^ (a.scale - s)) (magnitude r.units)
  round-IsRounded h e =
      made a.units (pos (10 ^ (a.scale - s))) s mode (pow_pos (a.scale - s)) (round_down_scale h e)

module _ (a b : Decimal) (rounding : Rounding) {r : Decimal} where
  divide-make :
      divide a b rounding ≡ ok r
      → (b.units ≢ pos 0)
        × (make
              (rounded_quotient
                (a.units *ℤ pos (10 ^ (b.scale + rounding.scale)))
                (b.units *ℤ pos (10 ^ a.scale))
                rounding.mode)
              rounding.scale
            ≡ ok r)
  unfolding divide
  divide-make e = ground arith

  -- The sign of the dividend and of the divisor, which the powers of ten do not change.
  divide-sign :
      divide a b rounding ≡ ok r
      → r.units ≡ signed (xor (is_negative a.units) (is_negative b.units)) (magnitude r.units)
  divide-sign e =
      let dividend = a.units *ℤ pos (10 ^ (b.scale + rounding.scale)) in
      let divisor = b.units *ℤ pos (10 ^ a.scale) in
      let q = rounded_quotient dividend divisor rounding.mode in
      let (u, s) = make-fields q rounding.scale (divide-make e).1 in
      u
      ∙ rounded_quotient-sign dividend divisor rounding.mode
      ∙ ap₂ (λ (x y : Bool). signed (xor x y) (magnitude q))
          (is_negative-*ℤ a.units (b.scale + rounding.scale)) (is_negative-*ℤ b.units a.scale)
      ∙ ap (λ (n : ℤ). signed (xor (is_negative a.units) (is_negative b.units)) (magnitude n))
          (sym u)

  -- A quotient that is returned is the rounding of the exact quotient at the scale s asked for:
  -- u * 10 ^ -i over v * 10 ^ -j gives u * 10 ^ (j + s) / (v * 10 ^ i), and v is not zero. The mode
  -- rounds the magnitude, and the sign is that of the exact quotient, with no sign for zero.
  pub divide-IsRounded :
      divide a b rounding ≡ ok r
      → (r.scale ≡ rounding.scale)
        × (b.units ≢ pos 0)
        × IsRounded rounding.mode
            (magnitude a.units * 10 ^ (b.scale + rounding.scale))
            (magnitude b.units * 10 ^ a.scale)
            (magnitude r.units)
        × (r.units ≡ signed (xor (is_negative a.units) (is_negative b.units)) (magnitude r.units))
  divide-IsRounded e =
      let (nz, m) = divide-make e in
      let dividend = magnitude-*ℤ a.units (pos (10 ^ (b.scale + rounding.scale))) in
      let divisor = magnitude-*ℤ b.units (pos (10 ^ a.scale)) in
      let positive : 0 < magnitude (b.units *ℤ pos (10 ^ a.scale)) =
        rw divisor (product_positive _ _ (nonzero b.units nz) (pow_pos a.scale)) in
      let (s, rounded) = made _ _ rounding.scale rounding.mode positive m in
      (
        s,
        nz,
        subst₂ (λ (n d : ℕ). IsRounded rounding.mode n d (magnitude r.units)) dividend divisor
            rounded,
        divide-sign e,
      )

  multiply-make :
      rounding.scale < a.scale + b.scale
      → multiply a b (some rounding) ≡ ok r
      → make
          (rounded_quotient
            (a.units *ℤ b.units)
            (pos (10 ^ (a.scale + b.scale - rounding.scale)))
            rounding.mode)
          rounding.scale
        ≡ ok r
  unfolding multiply
  multiply-make h e = ground arith

  -- A product that is brought to a smaller scale is rounded once, from the exact product.
  pub multiply-IsRounded :
      rounding.scale < a.scale + b.scale
      → multiply a b (some rounding) ≡ ok r
      → (r.scale ≡ rounding.scale)
        × IsRounded rounding.mode
            (magnitude a.units * magnitude b.units)
            (10 ^ (a.scale + b.scale - rounding.scale))
            (magnitude r.units)
  multiply-IsRounded h e =
      let k = a.scale + b.scale - rounding.scale in
      let (s, rounded) =
        made (a.units *ℤ b.units) (pos (10 ^ k)) rounding.scale rounding.mode (pow_pos k)
          (multiply-make h e) in
      (
        s,
        subst (λ (n : ℕ). IsRounded rounding.mode n (10 ^ k) (magnitude r.units))
            (magnitude-*ℤ a.units b.units) rounded,
      )
