-- ===== src/Money/Decimal/Compare.antt =====
-- The numeric order of decimals does not see the scale: it is the order of cross products.
use sintius.Prelude.Powers.{pow_pos, pow-add}
use sintius.Money.Decimal.{Decimal, Sign, minus, zero, plus, compare, equals}
use sintius.Prelude.Int.{ℤ, pos, pos_part, neg_part, ◌*ℤ◌, ltb_ℤ, eqb_ℤ, pos_part-*ℤ, neg_part-*ℤ}
use sintius.Prelude.{
  ℕ, ◌+◌, ◌-◌, ◌*◌, ◌^◌, ◌<◌, ◌≡◌, arith, max, min, ltb, ◌==◌, if◌then◌else◌, ap, ap₂, sym, ◌∙◌,
}

-- Each power through the common factor of the two scales.
pow-max-min_left : (i j : ℕ) → 10 ^ (max i j - i) * 10 ^ min i j ≡ 10 ^ j
pow-max-min_left i j = sym (pow-add (max i j - i) (min i j)) ∙ ap (λ (n : ℕ). 10 ^ n) (omega arith)

pow-max-min_right : (i j : ℕ) → 10 ^ (max i j - j) * 10 ^ min i j ≡ 10 ^ i
pow-max-min_right i j = sym (pow-add (max i j - j) (min i j)) ∙ ap (λ (n : ℕ). 10 ^ n) (omega arith)

-- The comparison of two integers.
abbrev pub compare_ℤ : ℤ → ℤ → Sign
compare_ℤ x y = if eqb_ℤ x y then zero else if ltb_ℤ x y then minus else plus

lt-scale : (x y c : ℕ) → 0 < c → x < y → x * c < y * c
lt-scale x y c h l = grind arith

-- Both tests are decided by the order, which a common factor keeps.
ltb-cancel : (x y c : ℕ) → 0 < c → ltb (x * c) (y * c) ≡ ltb x y
ltb-cancel x y c h = ground (arith, lt-scale x y c h, lt-scale y x c h)

==-cancel : (x y c : ℕ) → 0 < c → (x * c == y * c) ≡ (x == y)
==-cancel x y c h = ground (arith, lt-scale x y c h, lt-scale y x c h)

regroup : (x y j k c : ℕ) → x * (j * c) + y * (k * c) ≡ (x * j + y * k) * c
regroup x y j k c = omega arith

compare_ℤ-scale :
    (x y : ℤ) (j k c : ℕ)
    → 0 < c
    → compare_ℤ (x *ℤ pos (j * c)) (y *ℤ pos (k * c)) ≡ compare_ℤ (x *ℤ pos j) (y *ℤ pos k)
compare_ℤ-scale x y j k c h =
    simp (pos_part-*ℤ, neg_part-*ℤ, regroup)
      (rw (
        ltb-cancel (pos_part x * j + neg_part y * k) (pos_part y * k + neg_part x * j) c h,
        ==-cancel (pos_part x * j + neg_part y * k) (pos_part y * k + neg_part x * j) c h,
      ))

compare-eq-cross :
    (a b : Decimal)
    → compare a b ≡ compare_ℤ (a.units *ℤ pos (10 ^ b.scale)) (b.units *ℤ pos (10 ^ a.scale))
unfolding compare
compare-eq-cross a b =
    sym (
      compare_ℤ-scale a.units b.units (10 ^ (max a.scale b.scale - a.scale))
        (10 ^ (max a.scale b.scale - b.scale)) (10 ^ min a.scale b.scale)
        (pow_pos (min a.scale b.scale)))
    ∙ ap₂ (λ (m n : ℕ). compare_ℤ (a.units *ℤ pos m) (b.units *ℤ pos n))
        (pow-max-min_left a.scale b.scale) (pow-max-min_right a.scale b.scale)

-- `compare` puts two decimals u * 10 ^ -i and v * 10 ^ -j in the order of the integers u * 10 ^ j
-- and v * 10 ^ i, whatever their scales, and `equals` holds exactly when those are equal.
pub compare_lem :
    (a b : Decimal)
    → (compare a b ≡ compare_ℤ (a.units *ℤ pos (10 ^ b.scale)) (b.units *ℤ pos (10 ^ a.scale)))
      × (equals a b ≡ eqb_ℤ (a.units *ℤ pos (10 ^ b.scale)) (b.units *ℤ pos (10 ^ a.scale)))
unfolding equals
compare_lem a b = (compare-eq-cross a b, rw (equals, compare-eq-cross a b) (ground arith))

-- The reverse of a comparison.
abbrev pub opposite : Sign → Sign
opposite minus = plus
opposite zero = zero
opposite plus = minus

-- Exchanging the operands reverses the result of `compare`.
pub compare_antisymm : (a b : Decimal) → compare b a ≡ opposite (compare a b)
compare_antisymm a b = rw (compare-eq-cross a b, compare-eq-cross b a) (ground arith)
