-- ===== src/Prelude/Lists.antt =====
-- Lists over the native numbers, and the array methods `some`, `every`, `filter` and `includes`
-- of the source.
use Prim.Native.Nat.{ℕ, zero, suc, ◌+◌, ◌≤◌}
use mathlib.Core.Bool.{Bool, true, false, ◌&&◌, ◌||◌}
use mathlib.Core.List.{List, [], ◌∷◌, ◌++◌, map}
use mathlib.Core.Logic.{inl, inr}
use mathlib.Core.Option.{Option, none, some}
use mathlib.Core.Path.{◌≡◌, refl, subst}
use native.Mathlib.Omega.{arith}
use sintius.Prelude.Tests.{if◌then◌else◌, same, Bool-cases}

module _ {ℓ} {A : Type ℓ} where
  abbrev pub length : List A → ℕ
  length [] = 0
  length (x ∷ xs) = suc (length xs)

  abbrev pub get_elem? : List A → ℕ → Option A
  get_elem? [] i = none
  get_elem? (x ∷ xs) zero = some x
  get_elem? (x ∷ xs) (suc i) = get_elem? xs i

  -- `xs.some(p)`
  abbrev pub any : (A → Bool) → List A → Bool
  any p [] = false
  any p (x ∷ xs) = p x || any p xs

  -- `xs.every(p)`
  abbrev pub all : (A → Bool) → List A → Bool
  all p [] = true
  all p (x ∷ xs) = p x && all p xs

  -- `xs.filter(p)`
  abbrev pub filter : (A → Bool) → List A → List A
  filter p [] = []
  filter p (x ∷ xs) = let rest = filter p xs in if p x then x ∷ rest else rest

  -- `xs.find(p)`
  abbrev pub find? : (A → Bool) → List A → Option A
  find? p [] = none
  find? p (x ∷ xs) = if p x then some x else find? p xs

  -- `xs.filter(p).length`
  abbrev pub count_by : (A → Bool) → List A → ℕ
  count_by p [] = 0
  count_by p (x ∷ xs) = (if p x then 1 else 0) + count_by p xs

  pub length-filter : (p : A → Bool) (xs : List A) → length (filter p xs) ≡ count_by p xs
  length-filter p [] = refl
  length-filter p (x ∷ xs) = ground (arith, length-filter p xs)

  pub count_by-append :
      (p : A → Bool) (xs ys : List A) → count_by p (xs ++ ys) ≡ count_by p xs + count_by p ys
  count_by-append p [] ys = omega arith
  count_by-append p (x ∷ xs) ys = ground (arith, count_by-append p xs ys)

  pub count_by-le-length : (p : A → Bool) (xs : List A) → count_by p xs ≤ length xs
  count_by-le-length p [] = omega arith
  count_by-le-length p (x ∷ xs) = ground (arith, count_by-le-length p xs)

  pub length-append : (xs ys : List A) → length (xs ++ ys) ≡ length xs + length ys
  length-append [] ys = omega arith
  length-append (x ∷ xs) ys = omega (arith, length-append xs ys)

  pub any-append : (p : A → Bool) (xs ys : List A) → any p (xs ++ ys) ≡ (any p xs || any p ys)
  any-append p [] ys = refl
  any-append p (x ∷ xs) ys = ground (arith, any-append p xs ys)

  pub all-append : (p : A → Bool) (xs ys : List A) → all p (xs ++ ys) ≡ (all p xs && all p ys)
  all-append p [] ys = refl
  all-append p (x ∷ xs) ys = ground (arith, all-append p xs ys)

  pub find?-holds : (p : A → Bool) (xs : List A) {x : A} → find? p xs ≡ some x → p x ≡ true
  find?-holds p [] h = cc
  find?-holds p (y ∷ xs) {x} h = elim (Bool-cases (p y)) [
    | inl e ↦
        let found : some y ≡ some x = rw e at h in
        let same_element : y ≡ x = cc found in subst (λ (z : A). p z ≡ true) same_element e
    | inr e ↦ find?-holds p xs (rw e at h)
  ]

  -- What holds of every element holds of the one that is found.
  pub all-find? :
      (q p : A → Bool) (xs : List A) {x : A} → all q xs ≡ true → find? p xs ≡ some x → q x ≡ true
  all-find? q p [] h k = cc
  all-find? q p (y ∷ xs) {x} h k = elim (Bool-cases (p y)) [
    | inl e ↦
        let found : some y ≡ some x = rw e at k in
        let same_element : y ≡ x = cc found in
        subst (λ (z : A). q z ≡ true) same_element (ground arith)
    | inr e ↦ all-find? q p xs (ground arith) (rw e at k)
  ]

  pub all-filter : (p : A → Bool) (xs : List A) → all p (filter p xs) ≡ true
  all-filter p [] = refl
  all-filter p (x ∷ xs) = elim (Bool-cases (p x)) [
    | inl e ↦ ground (arith, all-filter p xs)
    | inr e ↦ ground (arith, all-filter p xs)
  ]

  -- A predicate of every element, as a tuple.
  abbrev pub All {κ} : (A → Type κ) → List A → Type κ
  All P [] = Unit
  All P (x ∷ xs) = P x × All P xs

  -- `xs.includes(a)`, at a type whose equality is decided.
  abbrev pub includes : Discrete A → A → List A → Bool
  includes dec a xs = any (λ x. same dec x a) xs

  -- No element occurs twice.
  abbrev pub distinct : Discrete A → List A → Bool
  distinct dec [] = true
  distinct dec (x ∷ xs) = (if includes dec x xs then false else true) && distinct dec xs

abbrev pub sum : List ℕ → ℕ
sum [] = 0
sum (x ∷ xs) = x + sum xs

pub sum-append : (xs ys : List ℕ) → sum (xs ++ ys) ≡ sum xs + sum ys
sum-append [] ys = omega arith
sum-append (x ∷ xs) ys = omega (arith, sum-append xs ys)

pub length-map {ℓ κ} :
    {A : Type ℓ} {B : Type κ} (f : A → B) (xs : List A) → length (map f xs) ≡ length xs
length-map f [] = refl
length-map f (x ∷ xs) = omega (arith, length-map f xs)

pub any-map {ℓ κ} :
    {A : Type ℓ} {B : Type κ} (p : B → Bool) (f : A → B) (xs : List A)
    → any p (map f xs) ≡ any (λ x. p (f x)) xs
any-map p f [] = refl
any-map p f (x ∷ xs) = ground (arith, any-map p f xs)

module _ {ℓ} {A : Type ℓ} (dec : Discrete A) where
  pub same_comm : (a b : A) → same dec a b ≡ same dec b a
  same_comm a b = ground arith

  pub distinct_snoc :
      (a : A) (xs : List A)
      → distinct dec xs ≡ true
      → includes dec a xs ≡ false
      → distinct dec (xs ++ a ∷ []) ≡ true
  distinct_snoc a [] h k = refl
  distinct_snoc a (x ∷ xs) h k =
      ground (arith, same_comm a x, any-append (λ y. same dec y x) xs (a ∷ []), distinct_snoc a xs)
