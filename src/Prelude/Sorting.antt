-- ===== src/Prelude/Sorting.antt =====
-- `sort()` of an array of strings, by insertion.
use mathlib.Core.Bool.{Bool, true}
use mathlib.Core.List.{List, [], ◌∷◌}
use mathlib.Core.Path.{◌≡◌, refl}
use native.Mathlib.Omega.{arith}
use sintius.Prelude.Lists.{all}
use sintius.Prelude.Strings.{Text, text_lt}
use sintius.Prelude.Tests.{if◌then◌else◌}

unfoldable pub insert : Text → List Text → List Text
insert field [] = field ∷ []
insert field (f ∷ fields) =
    let rest = insert field fields in if text_lt f field then f ∷ rest else field ∷ f ∷ fields

unfoldable pub sort : List Text → List Text
unfolding insert
sort [] = []
sort (f ∷ fields) = insert f (sort fields)

module _ (p : Text → Bool) where
  all-insert :
      (f : Text) (fields : List Text)
      → p f ≡ true
      → all p fields ≡ true
      → all p (insert f fields) ≡ true
  unfolding insert
  all-insert f [] h k = ground arith
  all-insert f (g ∷ fields) h k = ground (arith, all-insert f fields h)

  pub all-sort : (fields : List Text) → all p fields ≡ true → all p (sort fields) ≡ true
  unfolding sort
  all-sort [] h = refl
  all-sort (f ∷ fields) h =
      all-insert f (sort fields) (ground arith) (all-sort fields (ground arith))
