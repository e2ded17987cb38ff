-- ===== src/Money/Decimal/Scales.antt =====
-- The scale of each result.
use sintius.Money.Decimal.Validity.{ValidOrRejected, after_check, make-ValidOrRejected, in_scale}
use sintius.Money.Decimal.{
  Decimal, Rounding, max_scale, make, from_units, add, subtract, multiply, round, rescale, negate,
}
use sintius.Money.Rounding.{RoundingMode, rounded_quotient}
use sintius.Prelude.Int.{ℤ, pos, ◌*ℤ◌, neg, signed, is_negative, magnitude}
use sintius.Prelude.{ℕ, ◌+◌, ◌-◌, ◌/◌, ◌^◌, ◌≡◌, max, ltb, arith, some}
use sintius.Problem.{Outcome, ok, problem, fault}

-- Whether a call that returned gave this scale.
abbrev pub HasScale : ℕ → Outcome Decimal → Type 0
HasScale s (ok r) = r.scale ≡ s
HasScale s (problem c) = Unit
HasScale s (fault e) = Unit

make-HasScale : (u : ℤ) (s : ℕ) → HasScale s (make u s)
unfolding make
make-HasScale u s = ground arith

pub from_units-HasScale : (s : ℕ) (u : ℤ) → HasScale s (from_units u s)
unfolding from_units
from_units-HasScale s u = ground (arith, make-HasScale u s)

module _ (a : Decimal) (s : ℕ) where
  pub round-HasScale : (mode : RoundingMode) → HasScale s (round a s mode)
  unfolding round
  round-HasScale mode = ground (
    arith,
    make-HasScale (a.units *ℤ pos (10 ^ (s - a.scale))) s,
    make-HasScale (rounded_quotient a.units (pos (10 ^ (a.scale - s))) mode) s,
  )

  pub rescale-HasScale : HasScale s (rescale a s)
  unfolding rescale
  rescale-HasScale = ground (
    arith,
    make-HasScale (a.units *ℤ pos (10 ^ (s - a.scale))) s,
    make-HasScale (signed (is_negative a.units) (magnitude a.units / 10 ^ (a.scale - s))) s,
  )

module _ (a b : Decimal) where
  pub add-HasScale : HasScale (max a.scale b.scale) (add a b)
  unfolding add
  add-HasScale = make-HasScale _ _

  pub subtract-HasScale : HasScale (max a.scale b.scale) (subtract a b)
  unfolding subtract
  subtract-HasScale = make-HasScale _ _

  pub multiply-HasScale : (r : Rounding) → HasScale r.scale (multiply a b (some r))
  unfolding multiply
  multiply-HasScale r =
      let e = a.scale + b.scale in
      ground (
        arith,
        make-HasScale (a.units *ℤ b.units *ℤ pos (10 ^ (r.scale - e))) r.scale,
        make-HasScale (rounded_quotient (a.units *ℤ b.units) (pos (10 ^ (e - r.scale))) r.mode)
            r.scale,
      )

pub negate-HasScale : (a : Decimal) → HasScale a.scale (negate a)
unfolding negate
negate-HasScale a = make-HasScale (neg a.units) a.scale

pub from_units-ValidOrRejected : (u : ℤ) (s : ℕ) → ValidOrRejected (from_units u s)
unfolding from_units
from_units-ValidOrRejected u s =
    after_check (ltb max_scale s) _ (λ e. make-ValidOrRejected _ _ (in_scale _ e))

-- The units of a decimal, where a call returned one.
abbrev pub HasUnits : ℤ → Outcome Decimal → Type 0
HasUnits u (ok r) = r.units ≡ u
HasUnits u (problem c) = Unit
HasUnits u (fault e) = Unit

pub from_units-HasUnits : (s : ℕ) (u : ℤ) → HasUnits u (from_units u s)
unfolding from_units make
from_units-HasUnits s u = ground arith
