-- ===== src/Money/Allocation.antt =====
-- `allocate` of platform/money/src/money.ts. The weights that reach the division are not negative, so
-- its bigint arithmetic is that of the natural numbers; the sign of the total is put back at the end.
pub mod Leftover
pub mod Conserves
use sintius.Money.Amount.{Money, from_minor_units}
use sintius.Money.Decimal
use sintius.Money.Decimal.{Decimal}
use sintius.Prelude.Int.{ℤ, magnitude, is_negative, signed}
use sintius.Prelude.{
  ℕ, zero, suc, ◌+◌, ◌-◌, ◌*◌, ◌/◌, ◌%◌, max, Bool, true, false, not, ltb, ◌==◌, if◌then◌else◌,
  List, [], ◌∷◌, map, any, sum, length, distinct, Text, Text-discrete, text_lt,
}
use sintius.Problem.{Outcome, ok, problem, calculation_rejected, throw_if, ◌>>=◌, ◌>>◌}

-- `AllocationShare`
pub record AllocationShare : Type 0 where
  pub key : Text
  pub weight : Decimal

-- An element of the result.
pub record Part : Type 0 where
  pub key : Text
  pub amount : Money

-- An element of `order`.
pub record Entry : Type 0 where
  pub key : Text
  pub index : ℕ
  pub remainder : ℕ

-- The comparator of `sort`: the larger remainder first, then the smaller key.
unfoldable pub precedes : Entry → Entry → Bool
precedes left right =
    if left.remainder == right.remainder
    then text_lt left.key right.key
    else ltb right.remainder left.remainder

-- `sort`, which is stable: an entry goes before the first one that it precedes.
unfoldable pub insert : Entry → List Entry → List Entry
unfolding precedes
insert e [] = e ∷ []
insert e (f ∷ rest) = if precedes f e then f ∷ insert e rest else e ∷ f ∷ rest

unfoldable pub sort : List Entry → List Entry
unfolding insert
sort [] = []
sort (e ∷ rest) = insert e (sort rest)

-- `shares.map((share, index) => ({ key, index, remainder }))`
unfoldable pub entries_from : ℕ → List Text → List ℕ → List Entry
entries_from index (key ∷ keys) (remainder ∷ remainders) =
    record { key = key; index = index; remainder = remainder }
    ∷ entries_from (index + 1) keys remainders
entries_from index _ _ = []

-- `base[index] += 1n`
unfoldable pub increment : ℕ → List ℕ → List ℕ
increment index [] = []
increment zero (b ∷ base) = (b + 1) ∷ base
increment (suc index) (b ∷ base) = b ∷ increment index base

-- The loop over `order`, which stops when nothing is left over.
unfoldable pub give : List Entry → ℕ → List ℕ → List ℕ
unfolding increment
give [] leftover base = base
give (e ∷ order) zero base = base
give (e ∷ order) (suc leftover) base = give order leftover (increment e.index base)

-- The parts of `units` in minor units, before the sign.
unfoldable pub distribute : ℕ → List Text → List ℕ → List ℕ
unfolding give sort entries_from
distribute units keys weights =
    let weight_sum = sum weights in
    let base = map (λ w. units * w / weight_sum) weights in
    let remainders = map (λ w. (units * w) % weight_sum) weights in
    give (sort (entries_from 0 keys remainders)) (units - sum base) base

-- `Math.max(...shares.map((share) => share.weight.scale))`
unfoldable pub max_weight_scale : List AllocationShare → ℕ
max_weight_scale [] = 0
max_weight_scale (s ∷ shares) = max s.weight.scale (max_weight_scale shares)

-- `shares.map((share) => share.weight.rescale(scale).units)`
unfoldable pub rescaled_weights : ℕ → List AllocationShare → Outcome (List ℕ)
rescaled_weights scale [] = ok []
rescaled_weights scale (s ∷ shares) = do
  weight ← Decimal.rescale s.weight scale
  weights ← rescaled_weights scale shares
  ok (magnitude weight.units ∷ weights)

-- The result: `base[index] * sign` for each share.
unfoldable pub parts_of : Bool → Text → List Text → List ℕ → Outcome (List Part)
parts_of negative code (key ∷ keys) (b ∷ base) = do
  amount ← from_minor_units (signed negative b) code
  parts ← parts_of negative code keys base
  ok (record { key = key; amount = amount } ∷ parts)
parts_of negative code _ _ = ok []

abbrev pub keys_of : List AllocationShare → List Text
keys_of = map (λ s. s.key)

unfoldable pub allocate : Money → List AllocationShare → Outcome (List Part)
unfolding distribute max_weight_scale rescaled_weights parts_of
allocate total shares = do
  throw_if (length shares == 0) calculation_rejected
  throw_if (not (distinct Text-discrete (keys_of shares))) calculation_rejected
  throw_if (any (λ s. Decimal.below_zero s.weight) shares) calculation_rejected
  weights ← rescaled_weights (max_weight_scale shares) shares
  throw_if (sum weights == 0) calculation_rejected
  let units = total.amount.units
  parts_of (is_negative units) total.unit.code (keys_of shares)
      (distribute (magnitude units) (keys_of shares) weights)
