-- ===== src/Prelude/Dicts.antt =====
-- `Map` and `Set` with text keys, as JavaScript keeps them: an association list in the order of
-- first insertion, in which a second `set` of a key replaces the value in place.
use Prim.Native.String.{String}
use mathlib.Core.Path.{◌≡◌, refl}
use mathlib.Core.Bool.{Bool, false, ◌||◌}
use mathlib.Core.Option.{Option, none, some}
use mathlib.Core.List.{List, [], ◌∷◌, ◌++◌}
use native.Mathlib.Omega.{arith}
use text.Mathlib.TextEquality.{eq_iff}
use launch_pad.Prelude.Tests.{str_eq, if◌then◌else◌}

abbrev pub Dict {ℓ} : Type ℓ → Type ℓ
Dict V = List (String × V)

module _ {ℓ} {V : Type ℓ} where
  -- `m.get(k)`
  abbrev pub get : String → Dict V → Option V
  get k [] = none
  get k ((j, v) ∷ m) = if str_eq j k then some v else get k m

  -- `m.set(k, v)`
  abbrev pub put : String → V → Dict V → Dict V
  put k v [] = (k, v) ∷ []
  put k v ((j, w) ∷ m) = if str_eq j k then (j, v) ∷ m else (j, w) ∷ put k v m

  -- `m.keys()`
  abbrev pub keys : Dict V → List String
  keys [] = []
  keys ((j, v) ∷ m) = j ∷ keys m

  pub get-put :
      (k j : String) (v : V) (m : Dict V)
      → get j (put k v m) ≡ (if str_eq k j then some v else get j m)
  get-put k j v [] = refl
  get-put k j v ((i, w) ∷ m) = ground (arith, eq_iff k j, eq_iff i k, eq_iff i j, get-put k j v m)

-- `m.get(k) ?? d`
abbrev pub or_else {ℓ} : {V : Type ℓ} → Option V → V → V
or_else none d = d
or_else (some v) d = v

-- `xs.includes(x)`, `set.has(x)`
abbrev pub contains : String → List String → Bool
contains x [] = false
contains x (y ∷ ys) = str_eq y x || contains x ys

-- `set.add(x)`
abbrev pub add : String → List String → List String
add x xs = if contains x xs then xs else xs ++ x ∷ []

-- No text occurs twice.
abbrev pub Distinct : List String → Type 0
Distinct [] = Unit
Distinct (x ∷ xs) = (contains x xs ≡ false) × Distinct xs

pub str_eq-sym : (s t : String) → str_eq s t ≡ str_eq t s
str_eq-sym s t = ground (arith, eq_iff s t, eq_iff t s)

pub contains-append :
    (x : String) (xs ys : List String) → contains x (xs ++ ys) ≡ (contains x xs || contains x ys)
contains-append x [] ys = refl
contains-append x (y ∷ xs) ys = ground (arith, contains-append x xs ys)

pub Distinct-concat :
    (xs : List String) (y : String) → Distinct xs → contains y xs ≡ false → Distinct (xs ++ y ∷ [])
Distinct-concat [] y d h = (refl, tt)
Distinct-concat (x ∷ xs) y (new, d) h =
    (rw contains-append (ground (arith, str_eq-sym x y)), Distinct-concat xs y d (ground arith))

pub contains-add :
    (x y : String) (xs : List String) → contains x (add y xs) ≡ (str_eq y x || contains x xs)
contains-add x y xs = ground (arith, contains-append x xs (y ∷ []), eq_iff y x)

pub contains-keys-put {ℓ} :
    {V : Type ℓ} (k d : String) (v : V) (m : Dict V)
    → contains d (keys (put k v m)) ≡ (str_eq k d || contains d (keys m))
contains-keys-put k d v [] = refl
contains-keys-put k d v ((i, w) ∷ m) = ground (arith, contains-keys-put k d v m, eq_iff i k)
