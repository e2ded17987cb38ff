-- ===== src/Money/Decimal/Exact.antt =====
-- Sums, differences and changes of scale that lose nothing.
use sintius.Money.Decimal.{Decimal, make, add, subtract}
use sintius.Prelude.Int.{ℤ, pos, ◌+ℤ◌, ◌-ℤ◌, ◌*ℤ◌, +ℤ-*ℤ, -ℤ-*ℤ, *ℤ_assoc}
use sintius.Prelude.Powers.{pow-add}
use sintius.Prelude.{ℕ, ◌+◌, ◌-◌, ◌^◌, ◌≤◌, ◌≡◌, arith, max, ap, ap₂, refl, sym, ◌∙◌}
use sintius.Problem.{Outcome, ok, problem, fault, Ensures}

-- A decimal that the constructor returned holds the units and the scale that it was given.
pub make-fields : (u : ℤ) (s : ℕ) {r : Decimal} → make u s ≡ ok r → (r.units ≡ u) × (r.scale ≡ s)
unfolding make
make-fields u s h = ground arith

-- `u` at scale `i`, brought to a scale `m` and then multiplied by `10 ^ (i + j)`.
at_scale :
    (u : ℤ) (i j k m : ℕ)
    → i ≤ m
    → k ≡ i + j
    → u *ℤ pos (10 ^ (m - i)) *ℤ pos (10 ^ k) ≡ u *ℤ pos (10 ^ j) *ℤ pos (10 ^ m)
at_scale u i j k m h e =
    *ℤ_assoc u (10 ^ (m - i)) (10 ^ k)
    ∙ ap (λ (n : ℕ). u *ℤ pos n)
        (sym (pow-add (m - i) k) ∙ ap (λ (n : ℕ). 10 ^ n) (omega arith) ∙ pow-add j m)
    ∙ sym (*ℤ_assoc u (10 ^ j) (10 ^ m))

-- The exact value of `units * 10 ^ -scale`, against operands `u * 10 ^ -i` and `v * 10 ^ -j` joined
-- by an operation.
abbrev pub IsExact : (ℤ → ℤ → ℤ) → Decimal → Decimal → Decimal → Type 0
IsExact op a b r =
    (r.scale ≡ max a.scale b.scale)
    × (r.units *ℤ pos (10 ^ (a.scale + b.scale))
        ≡ op (a.units *ℤ pos (10 ^ b.scale)) (b.units *ℤ pos (10 ^ a.scale)) *ℤ pos (10 ^ r.scale))

module _ (op : ℤ → ℤ → ℤ)
    (distributes : (x y : ℤ) (k : ℕ) → op x y *ℤ pos k ≡ op (x *ℤ pos k) (y *ℤ pos k)) where
  exact :
      (a b : Decimal) {r : Decimal}
      → let m = max a.scale b.scale in
        make (op (a.units *ℤ pos (10 ^ (m - a.scale))) (b.units *ℤ pos (10 ^ (m - b.scale)))) m
          ≡ ok r
        → IsExact op a b r
  exact a b {r} h =
      let m = max a.scale b.scale in
      let (u, s) =
        make-fields (op (a.units *ℤ pos (10 ^ (m - a.scale))) (b.units *ℤ pos (10 ^ (m - b.scale))))
          m h in
      (
        s,
        ap (λ (z : ℤ). z *ℤ pos (10 ^ (a.scale + b.scale))) u
            ∙ distributes _ _ (10 ^ (a.scale + b.scale))
            ∙ ap₂ op
                (at_scale a.units a.scale b.scale (a.scale + b.scale) m (omega arith) (omega arith))
                (at_scale b.units b.scale a.scale (a.scale + b.scale) m (omega arith) (omega arith))
            ∙ sym (distributes _ _ (10 ^ m))
            ∙ ap
                (λ (n : ℕ).
                  op (a.units *ℤ pos (10 ^ b.scale)) (b.units *ℤ pos (10 ^ a.scale))
                  *ℤ pos (10 ^ n))
                (sym s),
      )

Ensures-ok {ℓ κ} :
    {A : Type ℓ} (P : A → Type κ) (m : Outcome A) → ((a : A) → m ≡ ok a → P a) → Ensures P m
Ensures-ok P (ok a) h = h a refl
Ensures-ok P (problem c) h = tt
Ensures-ok P (fault e) h = tt

-- A sum that is returned is exact, and so is a difference that is returned: for operands u * 10 ^ -i
-- and v * 10 ^ -j the result w * 10 ^ -s has s = max i j and
-- w * 10 ^ (i + j) = (u * 10 ^ j ± v * 10 ^ i) * 10 ^ s.
pub add-subtract-IsExact :
    (a b : Decimal)
    → Ensures (IsExact ◌+ℤ◌ a b) (add a b) × Ensures (IsExact ◌-ℤ◌ a b) (subtract a b)
unfolding add subtract
add-subtract-IsExact a b = (
  Ensures-ok (IsExact ◌+ℤ◌ a b) (add a b) λ r h. exact ◌+ℤ◌ +ℤ-*ℤ a b h,
  Ensures-ok (IsExact ◌-ℤ◌ a b) (subtract a b) λ r h. exact ◌-ℤ◌ -ℤ-*ℤ a b h,
)
