-- ===== src/Prelude/Results.antt =====
-- Fallible code: a value or the error that was thrown.
use mathlib.Core.Path.{◌≡◌, refl, subst}
use mathlib.Core.Bool.{Bool, true, false}
use launch_pad.Prelude.Tests.{if◌then◌else◌}

pub data Result {ℓ κ} (E : Type ℓ) (A : Type κ) : Type (ℓ ⊔ κ) where
  ok : A → Result E A
  err : E → Result E A

module _ {ℓ κ μ} {E : Type ℓ} {A : Type κ} {B : Type μ} where
  infixl 5 ◌>>=◌ ◌>>◌
  abbrev pub ◌>>=◌ : Result E A → (A → Result E B) → Result E B
  err thrown >>= next = err thrown
  ok value >>= next = next value

  abbrev pub ◌>>◌ : Result E A → Result E B → Result E B
  first >> next = first >>= λ _. next

  -- A chain that succeeds does so through a value of its first part.
  pub >>=-eq-ok :
      (first : Result E A) (next : A → Result E B) {b : B}
      → (first >>= next) ≡ ok b
      → (value : A) × (first ≡ ok value) × (next value ≡ ok b)
  >>=-eq-ok (err thrown) next h = cc
  >>=-eq-ok (ok value) next h = (value, refl, h)

  -- An error of a bind whose second part never fails is the first part's.
  pub >>=-eq-err :
      (first : Result E A) (next : A → B) {e : E}
      → (first >>= λ a. ok (next a)) ≡ err e
      → first ≡ err e
  >>=-eq-err (err thrown) next h = cc
  >>=-eq-err (ok value) next h = cc

-- A postcondition: what holds of the value, if there is one.
module _ {ℓ κ μ} {E : Type ℓ} {A : Type κ} (P : A → Type μ) where
  abbrev pub Ensures : Result E A → Type μ
  Ensures (ok value) = P value
  Ensures (err _) = Unit

  pub Ensures-ok : (r : Result E A) {value : A} → Ensures r → r ≡ ok value → P value
  Ensures-ok (ok value) p e = subst P (cc) p
  Ensures-ok (err _) p e = cc

  pub Ensures-if :
      (b : Bool) (x y : Result E A)
      → (b ≡ true → Ensures x)
      → (b ≡ false → Ensures y)
      → Ensures (if b then x else y)
  Ensures-if true x y f g = f refl
  Ensures-if false x y f g = g refl

pub Ensures->>= {ℓ κ μ ν ξ} :
    {E : Type ℓ} {A : Type κ} {B : Type μ} (P : A → Type ν) (Q : B → Type ξ) (first : Result E A)
    (next : A → Result E B)
    → Ensures P first
    → ((value : A) → P value → Ensures Q (next value))
    → Ensures Q (first >>= next)
Ensures->>= P Q (ok value) next p f = f value p
Ensures->>= P Q (err _) next p f = tt
