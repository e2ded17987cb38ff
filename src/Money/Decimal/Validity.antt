-- ===== src/Money/Decimal/Validity.antt =====
-- The bounds that the class keeps: at most 38 significant digits and a scale of at most 18.
use sintius.Money.Decimal.Digits.{digit_count-le_iff}
use sintius.Money.Decimal.{
  Decimal, Rounding, max_precision, max_scale, make, digit_count, add, subtract, multiply, divide,
  round, rescale, negate,
}
use sintius.Money.Rounding.{RoundingMode}
use sintius.Prelude.Int.{ℤ, pos, magnitude, eqb_ℤ}
use sintius.Prelude.{
  leb, ◌==◌, ◌+◌, ◌-◌, ◌%◌, Bool, if◌then◌else◌, refl, ℕ, ◌^◌, ◌≤◌, ◌<◌, ◌≡◌, Bool-cases, true,
  false, arith, Option, none, some, inl, inr, ltb,
}
use sintius.Problem.{Outcome, ok, problem, throw_if, ◌>>◌, calculation_rejected}

pub record IsValid (a : Decimal) : Type 0 where
  pub precision : magnitude a.units < 10 ^ max_precision
  pub scale : a.scale ≤ max_scale

-- The call returned a valid decimal or rejected with `calculation_rejected`.
pub data ValidOrRejected : Outcome Decimal → Type 0 where
  valid : {a : Decimal} → IsValid a → ValidOrRejected (ok a)
  rejected : ValidOrRejected (problem calculation_rejected)

pub make-ValidOrRejected : (u : ℤ) (s : ℕ) → s ≤ max_scale → ValidOrRejected (make u s)
unfolding make
make-ValidOrRejected u s h = elim (Bool-cases (ltb max_precision (digit_count (magnitude u)))) [
  | inl e ↦ rw e rejected
  | inr e ↦ rw e (
      valid
        (record { precision = (digit_count-le_iff 37 (magnitude u)).0 (ground arith); scale = h }))
]

-- The constructor refuses exactly the integers of more than 38 digits.
pub make-ok_iff :
    (u : ℤ) (s : ℕ)
    → (make u s ≡ ok (record { units = u; scale = s }) → magnitude u < 10 ^ max_precision)
      × (magnitude u < 10 ^ max_precision → make u s ≡ ok (record { units = u; scale = s }))
unfolding make
make-ok_iff u s = (
  λ h. ground (arith, (digit_count-le_iff 37 (magnitude u)).0),
  λ h. ground (arith, (digit_count-le_iff 37 (magnitude u)).1),
)

pub after_check :
    (t : Bool) (k : Outcome Decimal)
    → (t ≡ false → ValidOrRejected k)
    → ValidOrRejected (throw_if t calculation_rejected >> k)
after_check true k h = rejected
after_check false k h = h refl

branch :
    (t : Bool) (x y : Outcome Decimal)
    → (t ≡ true → ValidOrRejected x)
    → (t ≡ false → ValidOrRejected y)
    → ValidOrRejected (if t then x else y)
branch true x y h k = h refl
branch false x y h k = k refl

pub in_scale : (s : ℕ) → ltb max_scale s ≡ false → s ≤ max_scale
in_scale s h = ground arith

pub add-ValidOrRejected : {a b : Decimal} → IsValid a → IsValid b → ValidOrRejected (add a b)
unfolding add
add-ValidOrRejected p q = make-ValidOrRejected _ _ (omega arith)

pub subtract-ValidOrRejected :
    {a b : Decimal} → IsValid a → IsValid b → ValidOrRejected (subtract a b)
unfolding subtract
subtract-ValidOrRejected p q = make-ValidOrRejected _ _ (omega arith)

pub negate-ValidOrRejected : {a : Decimal} → IsValid a → ValidOrRejected (negate a)
unfolding negate
negate-ValidOrRejected p = make-ValidOrRejected _ _ p.scale

-- The other operations check the scale that they are asked for, so their operands need no bound.
pub multiply-ValidOrRejected :
    (a b : Decimal) (r : Option Rounding) → ValidOrRejected (multiply a b r)
unfolding multiply
multiply-ValidOrRejected a b none =
    branch (ltb max_scale (a.scale + b.scale)) _ _ (λ _. rejected)
      (λ e. make-ValidOrRejected _ _ (in_scale _ e))
multiply-ValidOrRejected a b (some r) = after_check (ltb max_scale r.scale) _ λ e.
    branch (leb (a.scale + b.scale) r.scale) _ _ (λ _. make-ValidOrRejected _ _ (in_scale _ e))
      (λ _. make-ValidOrRejected _ _ (in_scale _ e))

pub divide-ValidOrRejected : (a b : Decimal) (r : Rounding) → ValidOrRejected (divide a b r)
unfolding divide
divide-ValidOrRejected a b r =
    after_check (ltb max_scale r.scale) _
      λ e. after_check (eqb_ℤ b.units (pos 0)) _ λ _. make-ValidOrRejected _ _ (in_scale _ e)

pub round-ValidOrRejected : (a : Decimal) (s : ℕ) (m : RoundingMode) → ValidOrRejected (round a s m)
unfolding round
round-ValidOrRejected a s m = after_check (ltb max_scale s) _ λ e.
    branch (leb a.scale s) _ _ (λ _. make-ValidOrRejected _ _ (in_scale _ e))
      (λ _. make-ValidOrRejected _ _ (in_scale _ e))

pub rescale-ValidOrRejected : (a : Decimal) (s : ℕ) → ValidOrRejected (rescale a s)
unfolding rescale
rescale-ValidOrRejected a s = after_check (ltb max_scale s) _ λ e.
    branch (leb a.scale s) _ _ (λ _. make-ValidOrRejected _ _ (in_scale _ e))
      (λ _.
        branch (magnitude a.units % 10 ^ (a.scale - s) == 0) _ _
          (λ _. make-ValidOrRejected _ _ (in_scale _ e)) (λ _. rejected))

-- On valid operands every operation returns a decimal of at most 38 digits and a scale of at most
-- 18, or rejects with `calculation_rejected`; none ends in another problem or error.
pub arithmetic-ValidOrRejected :
    (a b : Decimal) (s : ℕ) (m : RoundingMode) (r : Rounding)
    → IsValid a
    → IsValid b
    → ValidOrRejected (add a b)
      × ValidOrRejected (subtract a b)
      × ValidOrRejected (multiply a b none)
      × ValidOrRejected (multiply a b (some r))
      × ValidOrRejected (divide a b r)
      × ValidOrRejected (round a s m)
      × ValidOrRejected (rescale a s)
      × ValidOrRejected (negate a)
arithmetic-ValidOrRejected a b s m r p q = (
  add-ValidOrRejected p q,
  subtract-ValidOrRejected p q,
  multiply-ValidOrRejected a b none,
  multiply-ValidOrRejected a b (some r),
  divide-ValidOrRejected a b r,
  round-ValidOrRejected a s m,
  rescale-ValidOrRejected a s,
  negate-ValidOrRejected p,
)
