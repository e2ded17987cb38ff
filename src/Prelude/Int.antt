-- ===== src/Prelude/Int.antt =====
-- `bigint` values: integers over the native numbers, by sign and magnitude where the source divides.
use Prim.Native.Nat.{ℕ, zero, suc, ◌+◌, ◌-◌, ◌*◌, ◌≤◌}
use mathlib.Core.Bool.{Bool, true, false}
use mathlib.Core.Path.{◌≡◌, refl, ap}
use native.Mathlib.Omega.{arith}
use sintius.Prelude.Tests.{ltb, leb, ◌==◌, if◌then◌else◌, xor}

-- `negsuc n` is -(n + 1).
pub data ℤ : Type 0 where
  pos : ℕ → ℤ
  negsuc : ℕ → ℤ

abbrev pub pos_part : ℤ → ℕ
pos_part (pos n) = n
pos_part (negsuc n) = 0

abbrev pub neg_part : ℤ → ℕ
neg_part (pos n) = 0
neg_part (negsuc n) = suc n

-- `abs` of the source.
abbrev pub magnitude : ℤ → ℕ
magnitude (pos n) = n
magnitude (negsuc n) = suc n

-- `value < 0n`
abbrev pub is_negative : ℤ → Bool
is_negative (pos n) = false
is_negative (negsuc n) = true

-- The integer with a sign and a magnitude; there is one zero.
abbrev pub signed : Bool → ℕ → ℤ
signed false n = pos n
signed true zero = pos 0
signed true (suc n) = negsuc n

-- a - b, as an integer.
abbrev pub sub_ℕ : ℕ → ℕ → ℤ
sub_ℕ a b = if leb b a then pos (a - b) else negsuc (b - a - 1)

infixl 65 ◌+ℤ◌ ◌-ℤ◌
infixl 70 ◌*ℤ◌
infix 50 ◌≤ℤ◌
unfoldable pub ◌+ℤ◌ : ℤ → ℤ → ℤ
a +ℤ b = sub_ℕ (pos_part a + pos_part b) (neg_part a + neg_part b)

unfoldable pub ◌-ℤ◌ : ℤ → ℤ → ℤ
a -ℤ b = sub_ℕ (pos_part a + neg_part b) (neg_part a + pos_part b)

unfoldable pub neg : ℤ → ℤ
neg (pos zero) = pos 0
neg (pos (suc n)) = negsuc n
neg (negsuc n) = pos (suc n)

pub magnitude-signed : (b : Bool) (n : ℕ) → magnitude (signed b n) ≡ n
magnitude-signed true zero = refl
magnitude-signed true (suc n) = refl
magnitude-signed false n = refl

unfoldable pub ◌*ℤ◌ : ℤ → ℤ → ℤ
a *ℤ b = signed (xor (is_negative a) (is_negative b)) (magnitude a * magnitude b)

abbrev pub ◌≤ℤ◌ : ℤ → ℤ → Type 0
a ≤ℤ b = pos_part a + neg_part b ≤ pos_part b + neg_part a

abbrev pub ltb_ℤ : ℤ → ℤ → Bool
ltb_ℤ a b = ltb (pos_part a + neg_part b) (pos_part b + neg_part a)

-- `a === b`
abbrev pub eqb_ℤ : ℤ → ℤ → Bool
eqb_ℤ a b = pos_part a + neg_part b == pos_part b + neg_part a

-- With these the operations can stay shut.
pub +ℤ_parts :
    (a b : ℤ)
    → pos_part (a +ℤ b) + neg_part a + neg_part b ≡ neg_part (a +ℤ b) + pos_part a + pos_part b
unfolding ◌+ℤ◌
+ℤ_parts a b = ground arith

pub -ℤ_parts :
    (a b : ℤ)
    → pos_part (a -ℤ b) + neg_part a + pos_part b ≡ neg_part (a -ℤ b) + pos_part a + neg_part b
unfolding ◌-ℤ◌
-ℤ_parts a b = ground arith

pub neg_parts : (a : ℤ) → (pos_part (neg a) ≡ neg_part a) × (neg_part (neg a) ≡ pos_part a)
unfolding neg
neg_parts (pos zero) = (refl, refl)
neg_parts (pos (suc n)) = (refl, refl)
neg_parts (negsuc n) = (refl, refl)

pub eq_of_parts : (a b : ℤ) → pos_part a + neg_part b ≡ pos_part b + neg_part a → a ≡ b
eq_of_parts a b h = ground arith

pub ruleset int_laws = (arith, +ℤ_parts, -ℤ_parts, eq_of_parts)

pub signed_parts : (n : ℕ) → (pos_part (signed true n) ≡ 0) × (neg_part (signed true n) ≡ n)
signed_parts zero = (refl, refl)
signed_parts (suc n) = (refl, refl)

-- A product by a natural number, in parts.
pub pos_part-*ℤ : (a : ℤ) (k : ℕ) → pos_part (a *ℤ pos k) ≡ pos_part a * k
unfolding ◌*ℤ◌
pos_part-*ℤ (pos n) k = refl
pos_part-*ℤ (negsuc n) k = omega (arith, (signed_parts (suc n * k)).0)

pub neg_part-*ℤ : (a : ℤ) (k : ℕ) → neg_part (a *ℤ pos k) ≡ neg_part a * k
unfolding ◌*ℤ◌
neg_part-*ℤ (pos n) k = omega arith
neg_part-*ℤ (negsuc n) k = omega (arith, (signed_parts (suc n * k)).1)

-- A product by a natural number distributes, and two such products join.
pub +ℤ-*ℤ : (x y : ℤ) (k : ℕ) → (x +ℤ y) *ℤ pos k ≡ x *ℤ pos k +ℤ y *ℤ pos k
+ℤ-*ℤ x y k = eq_of_parts ((x +ℤ y) *ℤ pos k) (x *ℤ pos k +ℤ y *ℤ pos k) (
    omega (
      arith,
      pos_part-*ℤ,
      neg_part-*ℤ,
      +ℤ_parts (x *ℤ pos k) (y *ℤ pos k),
      ap (λ (n : ℕ). n * k) (+ℤ_parts x y),
    ))

pub -ℤ-*ℤ : (x y : ℤ) (k : ℕ) → (x -ℤ y) *ℤ pos k ≡ x *ℤ pos k -ℤ y *ℤ pos k
-ℤ-*ℤ x y k = eq_of_parts ((x -ℤ y) *ℤ pos k) (x *ℤ pos k -ℤ y *ℤ pos k) (
    omega (
      arith,
      pos_part-*ℤ,
      neg_part-*ℤ,
      -ℤ_parts (x *ℤ pos k) (y *ℤ pos k),
      ap (λ (n : ℕ). n * k) (-ℤ_parts x y),
    ))

pub *ℤ_assoc : (x : ℤ) (j k : ℕ) → x *ℤ pos j *ℤ pos k ≡ x *ℤ pos (j * k)
*ℤ_assoc x j k =
    eq_of_parts (x *ℤ pos j *ℤ pos k) (x *ℤ pos (j * k))
      (simp (pos_part-*ℤ, neg_part-*ℤ) (omega arith))

pub magnitude-*ℤ : (x y : ℤ) → magnitude (x *ℤ y) ≡ magnitude x * magnitude y
unfolding ◌*ℤ◌
magnitude-*ℤ x y =
    magnitude-signed (xor (is_negative x) (is_negative y)) (magnitude x * magnitude y)

pub signed-add : (b : Bool) (m n : ℕ) → signed b m +ℤ signed b n ≡ signed b (m + n)
unfolding ◌+ℤ◌
signed-add false m n = ground arith
signed-add true zero zero = refl
signed-add true zero (suc n) = ground arith
signed-add true (suc m) zero = ground arith
signed-add true (suc m) (suc n) = ground arith
