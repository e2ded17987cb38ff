-- ===== src/Money/Allocation/Leftover.antt =====
-- What is left over after the floors is less than the number of shares, and the loop hands it out.
use native.Mathlib.Nat.{div-add-mod, mod-lt, lt_of_mul-lt-mul_right}
use mathlib.Core.Path.{subst}
use sintius.Money.Allocation.{Entry, insert, sort, entries_from, increment, give, distribute}
use sintius.Prelude.{
  ℕ, zero, suc, ◌+◌, ◌-◌, ◌*◌, ◌/◌, ◌%◌, ◌≤◌, ◌<◌, ◌≡◌, refl, arith, List, [], ◌∷◌, map, sum,
  length, Text, All, sym, ◌∙◌, length-map,
}

module _ (units d : ℕ) where
  -- The floors and the remainders make up the exact shares.
  sum-base-remainders :
      (ws : List ℕ)
      → sum (map (λ w. units * w / d) ws) * d + sum (map (λ w. (units * w) % d) ws) ≡ units * sum ws
  sum-base-remainders [] = omega arith
  sum-base-remainders (w ∷ ws) = grind (arith, sum-base-remainders ws, div-add-mod (units * w) d)

  sum-remainders-le :
      (ws : List ℕ) → 0 < d → sum (map (λ w. (units * w) % d) ws) + length ws ≤ length ws * d
  sum-remainders-le [] h = omega arith
  sum-remainders-le (w ∷ ws) h = omega (arith, sum-remainders-le ws h, mod-lt (units * w) h)

abbrev base_of : ℕ → List ℕ → List ℕ
base_of units ws = map (λ w. units * w / sum ws) ws

whole_part_le : (u b r w : ℕ) → b * w + r ≡ u * w → 0 < w → b ≤ u
whole_part_le u b r w e h = grind arith

whole_part_lt : (u b r w n : ℕ) → b * w + r ≡ u * w → r < n * w → u < b + n
whole_part_lt u b r w n e k = lt_of_mul-lt-mul_right w (omega arith)

whole_part :
    (u b r w n : ℕ) → 0 < w → b * w + r ≡ u * w → r + suc n ≤ suc n * w → (b ≤ u) × (u - b < suc n)
whole_part u b r w n positive e k =
    let le : b ≤ u = whole_part_le u b r w e positive in
    let lt : u < b + suc n = whole_part_lt u b r w (suc n) e (omega arith) in (le, omega arith)

-- The floors never exceed the total, and what is left is less than one unit for each share.
pub leftover-bounds :
    (units : ℕ) (ws : List ℕ)
    → 0 < sum ws
    → (sum (base_of units ws) ≤ units) × (units - sum (base_of units ws) < length ws)
leftover-bounds units [] h = absurd (omega arith)
leftover-bounds units (w ∷ ws) h =
    whole_part units (sum (base_of units (w ∷ ws)))
      (sum (map (λ v. (units * v) % sum (w ∷ ws)) (w ∷ ws))) (sum (w ∷ ws)) (length ws) h
      (sum-base-remainders units (sum (w ∷ ws)) (w ∷ ws))
      (sum-remainders-le units (sum (w ∷ ws)) (w ∷ ws) h)

length-insert : (e : Entry) (es : List Entry) → length (insert e es) ≡ length es + 1
unfolding insert
length-insert e [] = refl
length-insert e (f ∷ es) = ground (arith, length-insert e es)

length-sort : (es : List Entry) → length (sort es) ≡ length es
unfolding sort
length-sort [] = refl
length-sort (e ∷ es) = omega (arith, length-insert e (sort es), length-sort es)

-- Every index of an order lies below a bound.
abbrev pub Within : ℕ → List Entry → Type 0
Within n = All (λ e. e.index < n)

insert-Within :
    (n : ℕ) (e : Entry) (es : List Entry) → e.index < n → Within n es → Within n (insert e es)
unfolding insert
insert-Within n e [] h k = (h, tt)
insert-Within n e (f ∷ es) h k = ground (arith, insert-Within n e es h k.1)

sort-Within : (n : ℕ) (es : List Entry) → Within n es → Within n (sort es)
unfolding sort
sort-Within n [] h = tt
sort-Within n (e ∷ es) h = insert-Within n e (sort es) h.0 (sort-Within n es h.1)

entries_from-Within :
    (n i : ℕ) (ks : List Text) (rs : List ℕ) → i + length ks ≤ n → Within n (entries_from i ks rs)
unfolding entries_from
entries_from-Within n i (k ∷ ks) (r ∷ rs) h =
    (omega arith, entries_from-Within n (i + 1) ks rs (omega arith))
entries_from-Within n i [] rs h = tt
entries_from-Within n i (k ∷ ks) [] h = tt

length-entries_from :
    (i : ℕ) (ks : List Text) (rs : List ℕ)
    → length ks ≡ length rs
    → length (entries_from i ks rs) ≡ length ks
unfolding entries_from
length-entries_from i (k ∷ ks) (r ∷ rs) h =
    omega (arith, length-entries_from (i + 1) ks rs (omega arith))
length-entries_from i [] rs h = refl
length-entries_from i (k ∷ ks) [] h = absurd (omega arith)

length-increment : (i : ℕ) (bs : List ℕ) → length (increment i bs) ≡ length bs
unfolding increment
length-increment i [] = refl
length-increment zero (b ∷ bs) = refl
length-increment (suc i) (b ∷ bs) = omega (arith, length-increment i bs)

sum-increment : (i : ℕ) (bs : List ℕ) → i < length bs → sum (increment i bs) ≡ sum bs + 1
unfolding increment
sum-increment i [] h = absurd (omega arith)
sum-increment zero (b ∷ bs) h = omega arith
sum-increment (suc i) (b ∷ bs) h = omega (arith, sum-increment i bs (omega arith))

pub length-give : (es : List Entry) (l : ℕ) (bs : List ℕ) → length (give es l bs) ≡ length bs
unfolding give
length-give [] l bs = refl
length-give (e ∷ es) zero bs = refl
length-give (e ∷ es) (suc l) bs =
    omega (arith, length-give es l (increment e.index bs), length-increment e.index bs)

sum-give :
    (es : List Entry) (l : ℕ) (bs : List ℕ)
    → l ≤ length es
    → Within (length bs) es
    → sum (give es l bs) ≡ sum bs + l
unfolding give
sum-give [] l bs h k = omega arith
sum-give (e ∷ es) zero bs h k = omega arith
sum-give (e ∷ es) (suc l) bs h k =
    let grown = increment e.index bs in
    omega (
      arith,
      sum-increment e.index bs k.0,
      sum-give es l grown (omega arith)
          (subst (λ (n : ℕ). Within n es) (sym (length-increment e.index bs)) k.1),
    )

-- The parts add up to the total, one for each share.
pub sum-distribute :
    (units : ℕ) (ks : List Text) (ws : List ℕ)
    → length ks ≡ length ws
    → 0 < sum ws
    → (sum (distribute units ks ws) ≡ units) × (length (distribute units ks ws) ≡ length ws)
unfolding distribute
sum-distribute units ks ws same h =
    let base = base_of units ws in
    let remainders = map (λ w. (units * w) % sum ws) ws in
    let entries = entries_from 0 ks remainders in
    let (below, left) = leftover-bounds units ws h in
    let base_length = length-map (λ w. units * w / sum ws) ws in
    let counted : length ks ≡ length remainders =
      same ∙ sym (length-map (λ w. (units * w) % sum ws) ws) in
    let entries_length = length-entries_from 0 ks remainders counted in
    let within =
      sort-Within (length base) entries
        (entries_from-Within (length base) 0 ks remainders (omega arith)) in
    (
      omega (
        arith,
        sum-give (sort entries) (units - sum base) base (omega (arith, length-sort entries)) within,
      ),
      length-give (sort entries) (units - sum base) base ∙ base_length,
    )
