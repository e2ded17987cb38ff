-- ===== src/Prelude/Slices.antt =====
-- Parts of strings: `slice`, `padStart` and `repeat` of the source, over the native numbers.
use Prim.Native.Nat.{ℕ, zero, suc, ◌-◌, ◌≤◌}
use mathlib.Core.Bool.{Bool, true}
use mathlib.Core.List.{List, [], ◌∷◌, ◌++◌}
use mathlib.Core.Path.{◌≡◌, refl, ap}
use native.Mathlib.Omega.{arith}
use sintius.Prelude.Lists.{length, all, all-append, length-append}

module _ {ℓ} {A : Type ℓ} where
  -- `xs.slice(0, n)`
  abbrev pub take : ℕ → List A → List A
  take zero xs = []
  take (suc n) [] = []
  take (suc n) (x ∷ xs) = x ∷ take n xs

  -- `xs.slice(n)`
  abbrev pub drop : ℕ → List A → List A
  drop zero xs = xs
  drop (suc n) [] = []
  drop (suc n) (x ∷ xs) = drop n xs

  abbrev pub replicate : ℕ → A → List A
  replicate zero x = []
  replicate (suc n) x = x ∷ replicate n x

  -- `xs.padStart(n, x)`
  abbrev pub pad_start : ℕ → A → List A → List A
  pad_start n x xs = replicate (n - length xs) x ++ xs

  pub take-append-drop : (n : ℕ) (xs : List A) → take n xs ++ drop n xs ≡ xs
  take-append-drop zero xs = refl
  take-append-drop (suc n) [] = refl
  take-append-drop (suc n) (x ∷ xs) = ap (λ ys. x ∷ ys) (take-append-drop n xs)

  pub length-take : (n : ℕ) (xs : List A) → n ≤ length xs → length (take n xs) ≡ n
  length-take zero xs h = refl
  length-take (suc n) [] h = absurd (omega arith)
  length-take (suc n) (x ∷ xs) h = omega (arith, length-take n xs (omega arith))

  pub length-drop : (n : ℕ) (xs : List A) → length (drop n xs) ≡ length xs - n
  length-drop zero xs = omega arith
  length-drop (suc n) [] = omega arith
  length-drop (suc n) (x ∷ xs) = omega (arith, length-drop n xs)

  pub length-replicate : (n : ℕ) (x : A) → length (replicate n x) ≡ n
  length-replicate zero x = refl
  length-replicate (suc n) x = omega (arith, length-replicate n x)

  pub all-replicate : (p : A → Bool) (n : ℕ) (x : A) → p x ≡ true → all p (replicate n x) ≡ true
  all-replicate p zero x h = refl
  all-replicate p (suc n) x h = ground (arith, all-replicate p n x h)

  pub length-pad_start :
      (n : ℕ) (x : A) (xs : List A)
      → (n ≤ length xs → length (pad_start n x xs) ≡ length xs)
        × (length xs ≤ n → length (pad_start n x xs) ≡ n)
  length-pad_start n x xs =
      let added = length-append (replicate (n - length xs) x) xs in
      let zeros = length-replicate (n - length xs) x in
      (λ h. omega (arith, added, zeros), λ h. omega (arith, added, zeros))

  pub all-take : (p : A → Bool) (n : ℕ) (xs : List A) → all p xs ≡ true → all p (take n xs) ≡ true
  all-take p zero xs h = refl
  all-take p (suc n) [] h = refl
  all-take p (suc n) (x ∷ xs) h = ground (arith, all-take p n xs)

  pub all-drop : (p : A → Bool) (n : ℕ) (xs : List A) → all p xs ≡ true → all p (drop n xs) ≡ true
  all-drop p zero xs h = h
  all-drop p (suc n) [] h = refl
  all-drop p (suc n) (x ∷ xs) h = ground (arith, all-drop p n xs)

  pub all-pad_start :
      (p : A → Bool) (n : ℕ) (x : A) (xs : List A)
      → p x ≡ true
      → all p xs ≡ true
      → all p (pad_start n x xs) ≡ true
  all-pad_start p n x xs h k =
      let zeros = all-replicate p (n - length xs) x h in
      rw (all-append p (replicate (n - length xs) x) xs, zeros) k
