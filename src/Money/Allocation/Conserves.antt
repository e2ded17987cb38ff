-- ===== src/Money/Allocation/Conserves.antt =====
-- The parts of an allocation add up to the total.
use sintius.Money.Allocation.Leftover.{sum-distribute}
use sintius.Money.Allocation.{
  AllocationShare, Part, keys_of, allocate, rescaled_weights, max_weight_scale, parts_of,
  distribute,
}
use sintius.Money.Amount.Settled.{from_minor_units-fields}
use sintius.Money.Amount.{Money, from_minor_units}
use sintius.Prelude.Int.{ℤ, pos, negsuc, ◌+ℤ◌, magnitude, is_negative, signed, signed-add}
use sintius.Prelude.{
  ℕ, ◌<◌, ◌≡◌, refl, sym, ap, ap₂, ◌∙◌, arith, Bool, true, false, List, [], ◌∷◌, map, sum, length,
  length-map, Text, All,
}
use sintius.Problem.{Outcome, ok, problem, ◌>>=◌, Ensures, ensured, fault}

abbrev pub units_of : Part → ℤ
units_of p = p.amount.amount.units

pub sum_ℤ : List ℤ → ℤ
sum_ℤ [] = pos 0
sum_ℤ (x ∷ xs) = x +ℤ sum_ℤ xs

sum_ℤ-signed :
    (negative : Bool) (bs : List ℕ) → sum_ℤ (map (signed negative) bs) ≡ signed negative (sum bs)
unfolding sum_ℤ
sum_ℤ-signed true [] = refl
sum_ℤ-signed false [] = refl
sum_ℤ-signed negative (b ∷ bs) = rw (sum_ℤ-signed negative bs) (signed-add negative b (sum bs))

signed-magnitude : (u : ℤ) → signed (is_negative u) (magnitude u) ≡ u
signed-magnitude (pos n) = refl
signed-magnitude (negsuc n) = refl

-- What `parts_of` returns, part by part.
record Fields (negative : Bool) (code : Text) (ks : List Text) (bs : List ℕ) (parts : List Part)
    : Type 0 where
  keys : map (λ p. p.key) parts ≡ ks
  units : map units_of parts ≡ map (signed negative) bs
  currency : All (λ p. p.amount.unit.code ≡ code) parts

parts_of-Fields :
    (negative : Bool) (code : Text) (ks : List Text) (bs : List ℕ)
    → length ks ≡ length bs
    → Ensures (Fields negative code ks bs) (parts_of negative code ks bs)
unfolding parts_of
parts_of-Fields negative code [] [] h = record { keys = refl; units = refl; currency = tt }
parts_of-Fields negative code [] (b ∷ bs) h = absurd (omega arith)
parts_of-Fields negative code (k ∷ ks) [] h = absurd (omega arith)
parts_of-Fields negative code (k ∷ ks) (b ∷ bs) h =
    join (from_minor_units (signed negative b) code) (parts_of negative code ks bs)
      (from_minor_units-fields (signed negative b) code)
      (parts_of-Fields negative code ks bs (omega arith))
  where
    join :
        (m : Outcome Money) (rest : Outcome (List Part))
        → Ensures (λ a. (a.amount.units ≡ signed negative b) × (a.unit.code ≡ code)) m
        → Ensures (Fields negative code ks bs) rest
        → Ensures
            (Fields negative code (k ∷ ks) (b ∷ bs))
            (m >>= λ a. rest >>= λ parts. ok (record { key = k; amount = a } ∷ parts))
    join (ok a) (ok parts) p q = record {
      keys = ap (◌∷◌ k) q.keys;
      units = ap₂ ◌∷◌ p.0 q.units;
      currency = (p.1, q.currency);
    }
    join (ok a) (problem c) p q = tt
    join (ok a) (fault e) p q = tt
    join (problem c) rest p q = tt
    join (fault e) rest p q = tt

length-rescaled_weights :
    (scale : ℕ) (shares : List AllocationShare)
    → Ensures (λ ws. length ws ≡ length shares) (rescaled_weights scale shares)
unfolding rescaled_weights
length-rescaled_weights scale [] = refl
length-rescaled_weights scale (s ∷ shares) = ground (arith, length-rescaled_weights scale shares)

-- The weights of an allocation that returned, and what its parts were made of.
allocate-inversion :
    (total : Money) (shares : List AllocationShare) {parts : List Part}
    → allocate total shares ≡ ok parts
    → (ws : List ℕ) × (rescaled_weights (max_weight_scale shares) shares ≡ ok ws)
      × (0 < sum ws)
      × (parts_of
            (is_negative total.amount.units)
            total.unit.code
            (keys_of shares)
            (distribute (magnitude total.amount.units) (keys_of shares) ws)
          ≡ ok parts)
unfolding allocate
allocate-inversion total shares e = ground arith

-- An allocation that returns splits the total exactly: its parts carry the keys of the shares in
-- their order and the currency of the total, and their amounts add up to the total.
pub allocate_conserves :
    (total : Money) (shares : List AllocationShare) {parts : List Part}
    → allocate total shares ≡ ok parts
    → (sum_ℤ (map units_of parts) ≡ total.amount.units)
      × (map (λ p. p.key) parts ≡ keys_of shares)
      × All (λ p. p.amount.unit.code ≡ total.unit.code) parts
allocate_conserves total shares {parts} e =
    let (ws, rescaled, positive, made) = allocate-inversion total shares e in
    let negative = is_negative total.amount.units in
    let ks = keys_of shares in
    let bs = distribute (magnitude total.amount.units) ks ws in
    let same : length ks ≡ length ws =
      length-map (λ (s : AllocationShare). s.key) shares
      ∙ sym (
          ensured (λ ws. length ws ≡ length shares) _
            (length-rescaled_weights (max_weight_scale shares) shares) rescaled) in
    let (adds_up, counted) = sum-distribute (magnitude total.amount.units) ks ws same positive in
    let fields : Fields negative total.unit.code ks bs parts =
      ensured (Fields negative total.unit.code ks bs) _
        (parts_of-Fields negative total.unit.code ks bs (same ∙ sym counted)) made in
    (
      ap sum_ℤ fields.units
          ∙ sum_ℤ-signed negative bs
          ∙ ap (signed negative) adds_up
          ∙ signed-magnitude total.amount.units,
      fields.keys,
      fields.currency,
    )
