-- ===== src/Prelude/Sort.antt =====
-- `Array.prototype.sort`: a stable sort by a comparator, here as insertion sort.
use mathlib.Core.Bool.{Bool}
use mathlib.Core.List.{List, [], ◌∷◌}
use Prim.Native.String.{String}
use mathlib.Core.Path.{◌≡◌, refl, ◌∙◌, ap}
use mathlib.Core.Bool.{◌||◌}
use native.Mathlib.Omega.{arith}
use launch_pad.Prelude.Tests.{if◌then◌else◌, str_eq}
use launch_pad.Prelude.Dicts.{contains}

-- `before a b` is `cmp(a, b) < 0`.
module _ {ℓ} {A : Type ℓ} (before : A → A → Bool) where
  unfoldable pub insert_sorted : A → List A → List A
  insert_sorted a [] = a ∷ []
  insert_sorted a (b ∷ bs) = if before b a then b ∷ insert_sorted a bs else a ∷ b ∷ bs

  unfoldable pub sort : List A → List A
  sort [] = []
  sort (a ∷ as') = insert_sorted a (sort as')

-- Sorting texts keeps the texts.
module _ (before : String → String → Bool) where
  contains-insert_sorted :
      (x a : String) (bs : List String)
      → contains x (insert_sorted before a bs) ≡ (str_eq a x || contains x bs)
  unfolding insert_sorted
  contains-insert_sorted x a [] = refl
  contains-insert_sorted x a (b ∷ bs) = ground (arith, contains-insert_sorted x a bs)

  pub contains-sort : (x : String) (xs : List String) → contains x (sort before xs) ≡ contains x xs
  unfolding sort
  contains-sort x [] = refl
  contains-sort x (a ∷ xs) =
      contains-insert_sorted x a (sort before xs) ∙ ap (λ b. str_eq a x || b) (contains-sort x xs)
