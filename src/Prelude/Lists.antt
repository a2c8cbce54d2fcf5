-- ===== src/Prelude/Lists.antt =====
-- Lists over native numbers and Boolean tests, under the library's names.
use Prim.Native.Nat.{ℕ, zero, suc, ◌+◌, ◌≤◌, max}
use mathlib.Core.Path.{◌≡◌, refl, ap}
use mathlib.Core.Bool.{Bool, true, false, ◌&&◌, ◌||◌}
use mathlib.Core.Option.{Option, none, some}
use mathlib.Core.List.{List, [], ◌∷◌, ◌++◌}
use native.Mathlib.Omega.{arith}
use launch_pad.Prelude.Tests.{if◌then◌else◌}

module _ {ℓ} {A : Type ℓ} where
  abbrev pub length : List A → ℕ
  length [] = 0
  length (x ∷ xs) = suc (length xs)

  -- `xs.filter(p)`
  abbrev pub filter : (A → Bool) → List A → List A
  filter p [] = []
  filter p (x ∷ xs) = let rest = filter p xs in if p x then x ∷ rest else rest

  -- `xs.find(p)`
  abbrev pub find? : (A → Bool) → List A → Option A
  find? p [] = none
  find? p (x ∷ xs) = if p x then some x else find? p xs

  abbrev pub all : (A → Bool) → List A → Bool
  all p [] = true
  all p (x ∷ xs) = p x && all p xs

  abbrev pub any : (A → Bool) → List A → Bool
  any p [] = false
  any p (x ∷ xs) = p x || any p xs

  -- `xs.reduce((sum, x) => sum + f(x), 0)`
  abbrev pub sum_from : (A → ℕ) → ℕ → List A → ℕ
  sum_from f acc [] = acc
  sum_from f acc (x ∷ xs) = sum_from f (acc + f x) xs

  -- `xs.reduce((m, x) => Math.max(m, f(x)), 0)`
  abbrev pub max_from : (A → ℕ) → ℕ → List A → ℕ
  max_from f acc [] = acc
  max_from f acc (x ∷ xs) = max_from f (max acc (f x)) xs

  abbrev pub take : ℕ → List A → List A
  take zero xs = []
  take (suc n) [] = []
  take (suc n) (x ∷ xs) = x ∷ take n xs

  pub take-append_left : (n : ℕ) (xs ys : List A) → n ≤ length xs → take n (xs ++ ys) ≡ take n xs
  take-append_left zero xs ys h = refl
  take-append_left (suc n) [] ys h = absurd (omega arith)
  take-append_left (suc n) (x ∷ xs) ys h = ap (λ l. x ∷ l) (take-append_left n xs ys (omega arith))

  pub take-length : (xs : List A) → take (length xs) xs ≡ xs
  take-length [] = refl
  take-length (x ∷ xs) = ap (λ l. x ∷ l) (take-length xs)

  pub length-append : (xs ys : List A) → length (xs ++ ys) ≡ length xs + length ys
  length-append [] ys = omega arith
  length-append (x ∷ xs) ys = omega (arith, length-append xs ys)

  pub sum_from-append :
      (f : A → ℕ) (acc : ℕ) (xs ys : List A)
      → sum_from f acc (xs ++ ys) ≡ sum_from f (sum_from f acc xs) ys
  sum_from-append f acc [] ys = refl
  sum_from-append f acc (x ∷ xs) ys = sum_from-append f (acc + f x) xs ys

  pub max_from-append :
      (f : A → ℕ) (acc : ℕ) (xs ys : List A)
      → max_from f acc (xs ++ ys) ≡ max_from f (max_from f acc xs) ys
  max_from-append f acc [] ys = refl
  max_from-append f acc (x ∷ xs) ys = max_from-append f (max acc (f x)) xs ys

  pub le-sum_from : (f : A → ℕ) (acc : ℕ) (xs : List A) → acc ≤ sum_from f acc xs
  le-sum_from f acc [] = omega arith
  le-sum_from f acc (x ∷ xs) = omega (arith, le-sum_from f (acc + f x) xs)

  pub le-max_from : (f : A → ℕ) (acc : ℕ) (xs : List A) → acc ≤ max_from f acc xs
  le-max_from f acc [] = omega arith
  le-max_from f acc (x ∷ xs) = omega (arith, le-max_from f (max acc (f x)) xs)

module _ {ℓ κ} {A : Type ℓ} (P : A → Type κ) where
  -- `P` of every element.
  abbrev pub All : List A → Type κ
  All [] = Unit
  All (x ∷ xs) = P x × All xs

  pub All-append : (xs ys : List A) → All xs → All ys → All (xs ++ ys)
  All-append [] ys h k = k
  All-append (x ∷ xs) ys (p, h) k = (p, All-append xs ys h k)

module _ {ℓ κ μ} {A : Type ℓ} {P : A → Type κ} {Q : A → Type μ} where
  pub All-weaken : ((x : A) → P x → Q x) → (xs : List A) → All P xs → All Q xs
  All-weaken f [] _ = tt
  All-weaken f (x ∷ xs) (p, h) = (f x p, All-weaken f xs h)

  pub All-zip {ν} :
      {R : A → Type ν}
      → ((x : A) → P x → Q x → R x)
      → (xs : List A) → All P xs
      → All Q xs
      → All R xs
  All-zip f [] _ _ = tt
  All-zip f (x ∷ xs) (p, h) (q, k) = (f x p q, All-zip f xs h k)

pub length-filter : {A : Type 0} (p : A → Bool) (xs : List A) → length (filter p xs) ≤ length xs
length-filter p [] = omega arith
length-filter p (x ∷ xs) = ground (arith, length-filter p xs)
