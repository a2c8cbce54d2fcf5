-- ===== src/Prelude/Entries.antt =====
-- What holds of every entry of a map, and what `map` and `sort` keep of a list.
use Prim.Native.String.{String}
use mathlib.Core.Path.{◌≡◌, refl, sym, ap, subst, ◌∙◌}
use mathlib.Core.Logic.{inl, inr}
use mathlib.Core.Bool.{Bool, ◌||◌}
use mathlib.Core.Option.{some}
use mathlib.Core.List.{List, [], ◌∷◌, map}
use native.Mathlib.Omega.{arith}
use text.Mathlib.TextEquality.{eq_iff}
use launch_pad.Prelude.Tests.{if◌then◌else◌, str_eq, Bool-cases}
use launch_pad.Prelude.Lists.{All, any}
use launch_pad.Prelude.Dicts.{Dict, get, put}
use launch_pad.Prelude.Sort.{sort, insert_sorted}

module _ {V : Type 0} (P : String → V → Type 0) where
  abbrev pub AllEntries : Dict V → Type 0
  AllEntries m = All (λ e. P e.0 e.1) m

  pub AllEntries-put :
      (k : String) (v : V) (m : Dict V) → P k v → AllEntries m → AllEntries (put k v m)
  AllEntries-put k v [] p h = (p, tt)
  AllEntries-put k v ((j, w) ∷ m) p (q, h) = elim (Bool-cases (str_eq j k)) [
    | inl e ↦ let same : k ≡ j = ground (arith, eq_iff j k) in rw e (subst (λ i. P i v) same p, h)
    | inr e ↦ rw e (q, AllEntries-put k v m p h)
  ]

  pub AllEntries-get : (k : String) (m : Dict V) {v : V} → AllEntries m → get k m ≡ some v → P k v
  AllEntries-get k [] h e = absurd (cc)
  AllEntries-get k ((j, w) ∷ m) {v} (q, h) found = elim (Bool-cases (str_eq j k)) [
    | inl e ↦
        let same : j ≡ k = ground (arith, eq_iff j k) in
        let value : some w ≡ some v = sym (ap (λ b. if b then some w else get k m) e) ∙ found in
        let value' : w ≡ v = cc in subst (λ x. P k x) value' (subst (λ i. P i w) same q)
    | inr e ↦ AllEntries-get k m h (sym (ap (λ b. if b then some w else get k m) e) ∙ found)
  ]

module _ {A : Type 0} (before : A → A → Bool) where
  All-insert :
      (P : A → Type 0) (a : A) (bs : List A) → P a → All P bs → All P (insert_sorted before a bs)
  unfolding insert_sorted
  All-insert P a [] p h = (p, tt)
  All-insert P a (b ∷ bs) p (q, h) = elim (Bool-cases (before b a)) [
    | inl e ↦ rw e (q, All-insert P a bs p h)
    | inr e ↦ rw e (p, (q, h))
  ]

  pub All-sort : (P : A → Type 0) (xs : List A) → All P xs → All P (sort before xs)
  unfolding sort
  All-sort P [] h = tt
  All-sort P (a ∷ as') (p, h) = All-insert P a (sort before as') p (All-sort P as' h)

  any-insert :
      (p : A → Bool) (a : A) (bs : List A) → any p (insert_sorted before a bs) ≡ (p a || any p bs)
  unfolding insert_sorted
  any-insert p a [] = refl
  any-insert p a (b ∷ bs) = ground (arith, any-insert p a bs)

  pub any-sort : (p : A → Bool) (xs : List A) → any p (sort before xs) ≡ any p xs
  unfolding sort
  any-sort p [] = refl
  any-sort p (a ∷ as') = any-insert p a (sort before as') ∙ ap (λ b. p a || b) (any-sort p as')

module _ {A B : Type 0} (f : A → B) where
  pub All-map : (P : B → Type 0) (xs : List A) → All (λ a. P (f a)) xs → All P (map f xs)
  All-map P [] h = tt
  All-map P (x ∷ xs) (p, h) = (p, All-map P xs h)

  pub any-map : (p : B → Bool) (xs : List A) → any p (map f xs) ≡ any (λ a. p (f a)) xs
  any-map p [] = refl
  any-map p (x ∷ xs) = ap (λ b. p (f x) || b) (any-map p xs)
