-- ===== src/Prelude/Occurs.antt =====
-- An element of a list, with the place where it stands.
use mathlib.Core.Path.{◌≡◌, refl, ap, subst, sym, ◌∙◌}
use Prim.Native.String.{String}
use mathlib.Core.Logic.{◌⊎◌, ◌↔◌, inl, inr}
use text.Mathlib.TextEquality.{eq_iff}
use text.Mathlib.TextPositions.{eq_refl}
use mathlib.Core.Bool.{Bool, true, ◌||◌}
use native.Mathlib.Omega.{arith}
use mathlib.Core.Option.{some}
use mathlib.Core.List.{List, [], ◌∷◌, ◌++◌, map}
use launch_pad.Prelude.Tests.{str_eq, Bool-cases, if_true, if_false}
use launch_pad.Prelude.Dicts.{contains}
use launch_pad.Prelude.Lists.{All, any, filter, find?}
use launch_pad.Prelude.Sort.{sort, insert_sorted}

module _ {A : Type 0} where
  abbrev pub Occurs : A → List A → Type 0
  Occurs x [] = ⊥
  Occurs x (y ∷ ys) = (x ≡ y) ⊎ Occurs x ys

  pub find?-Occurs :
      (p : A → Bool) (xs : List A) {x : A} → find? p xs ≡ some x → (p x ≡ true) × Occurs x xs
  find?-Occurs p [] h = cc
  find?-Occurs p (y ∷ ys) {x} h = elim (Bool-cases (p y)) [
    | inl e ↦
        let same : some y ≡ some x = sym (if_true _ _ e) ∙ h in
        let here : x ≡ y = cc in (cc, inl here)
    | inr e ↦ let (k, there) = find?-Occurs p ys (sym (if_false _ _ e) ∙ h) in (k, inr there)
  ]

  pub Occurs-filter :
      (p : A → Bool) (xs : List A) {x : A} → Occurs x (filter p xs) → (p x ≡ true) × Occurs x xs
  Occurs-filter p [] h = absurd h
  Occurs-filter p (y ∷ ys) {x} h = elim (Bool-cases (p y)) [
    | inl e ↦ elim (subst (λ l. Occurs x l) (if_true (y ∷ filter p ys) (filter p ys) e) h) [
      | inl same ↦ (cc, inl same)
      | inr there ↦ let (k, o) = Occurs-filter p ys there in (k, inr o)
    ]
    | inr e ↦
        let (k, o) =
          Occurs-filter p ys
            (subst (λ l. Occurs x l) (if_false (y ∷ filter p ys) (filter p ys) e) h) in
        (k, inr o)
  ]

  pub All-Occurs {κ} : (P : A → Type κ) (xs : List A) {x : A} → All P xs → Occurs x xs → P x
  All-Occurs P [] h o = absurd o
  All-Occurs P (y ∷ ys) (p, h) (inl e) = subst P (sym e) p
  All-Occurs P (y ∷ ys) (p, h) (inr o) = All-Occurs P ys h o

  module _ (before : A → A → Bool) where
    Occurs-insert_sorted :
        (x a : A) (bs : List A) → Occurs x (insert_sorted before a bs) → Occurs x (a ∷ bs)
    unfolding insert_sorted
    Occurs-insert_sorted x a [] h = h
    Occurs-insert_sorted x a (b ∷ bs) h = elim (Bool-cases (before b a)) [
      | inl e ↦
          elim (subst (λ l. Occurs x l) (if_true (b ∷ insert_sorted before a bs) (a ∷ b ∷ bs) e)
            h) [
              | inl same ↦ inr (inl same)
              | inr there ↦ elim (Occurs-insert_sorted x a bs there) [
                | inl same ↦ inl same
                | inr o ↦ inr (inr o)
              ]
            ]
      | inr e ↦ subst (λ l. Occurs x l) (if_false (b ∷ insert_sorted before a bs) (a ∷ b ∷ bs) e) h
    ]

    pub Occurs-sort : (x : A) (xs : List A) → Occurs x (sort before xs) → Occurs x xs
    unfolding sort
    Occurs-sort x [] h = h
    Occurs-sort x (a ∷ as') h = elim (Occurs-insert_sorted x a (sort before as') h) [
      | inl same ↦ inl same
      | inr o ↦ inr (Occurs-sort x as' o)
    ]

module _ {A : Type 0} where
  pub Occurs-append : (x : A) (xs ys : List A) → Occurs x (xs ++ ys) → Occurs x xs ⊎ Occurs x ys
  Occurs-append x [] ys h = inr h
  Occurs-append x (y ∷ xs) ys (inl e) = inl (inl e)
  Occurs-append x (y ∷ xs) ys (inr h) = elim (Occurs-append x xs ys h) [
    | inl o ↦ inl (inr o)
    | inr o ↦ inr o
  ]

  pub append-Occurs : (x : A) (xs ys : List A) → Occurs x xs ⊎ Occurs x ys → Occurs x (xs ++ ys)
  append-Occurs x [] ys (inl h) = absurd h
  append-Occurs x [] ys (inr h) = h
  append-Occurs x (y ∷ xs) ys (inl (inl e)) = inl e
  append-Occurs x (y ∷ xs) ys (inl (inr h)) = inr (append-Occurs x xs ys (inl h))
  append-Occurs x (y ∷ xs) ys (inr h) = inr (append-Occurs x xs ys (inr h))

  module _ (before : A → A → Bool) where
    insert-Occurs :
        (x a : A) (bs : List A) → Occurs x (a ∷ bs) → Occurs x (insert_sorted before a bs)
    unfolding insert_sorted
    insert-Occurs x a [] h = h
    insert-Occurs x a (b ∷ bs) h = elim (Bool-cases (before b a)) [
      | inl e ↦ rw e (elim h [
        | inl same ↦ inr (insert-Occurs x a bs (inl same))
        | inr (inl same) ↦ inl same
        | inr (inr o) ↦ inr (insert-Occurs x a bs (inr o))
      ])
      | inr e ↦ rw e h
    ]

    pub sort-Occurs : (x : A) (xs : List A) → Occurs x xs → Occurs x (sort before xs)
    unfolding sort
    sort-Occurs x [] h = h
    sort-Occurs x (a ∷ as') (inl e) = insert-Occurs x a (sort before as') (inl e)
    sort-Occurs x (a ∷ as') (inr o) =
        insert-Occurs x a (sort before as') (inr (sort-Occurs x as' o))

module _ {A : Type 0} (p : A → Bool) where
  pub filter-Occurs : (xs : List A) (x : A) → Occurs x xs → p x ≡ true → Occurs x (filter p xs)
  filter-Occurs [] x o h = absurd o
  filter-Occurs (y ∷ xs) x o h = elim (Bool-cases (p y)) [
    | inl e ↦ rw e (elim o [ inl same ↦ inl same | inr later ↦ inr (filter-Occurs xs x later h) ])
    | inr e ↦ rw e (elim o [
      | inl same ↦ absurd (let k : p y ≡ true = subst (λ z. p z ≡ true) same h in cc)
      | inr later ↦ filter-Occurs xs x later h
    ])
  ]

  pub any-Occurs : (xs : List A) → any p xs ≡ true → (x : A) × Occurs x xs × (p x ≡ true)
  any-Occurs [] h = cc
  any-Occurs (y ∷ xs) h = elim (Bool-cases (p y)) [
    | inl e ↦ (y, inl refl, e)
    | inr e ↦ let (x, o, k) = any-Occurs xs (sym (ap (λ b. b || any p xs) e) ∙ h) in (x, inr o, k)
  ]

  pub Occurs-any : (xs : List A) (x : A) → Occurs x xs → p x ≡ true → any p xs ≡ true
  Occurs-any [] x o h = absurd o
  Occurs-any (y ∷ xs) x (inl same) h =
      let k : p y ≡ true = subst (λ z. p z ≡ true) same h in rw k refl
  Occurs-any (y ∷ xs) x (inr o) h = ground (arith, Occurs-any xs x o h)

module _ {A B : Type 0} (f : A → B) where
  pub map-Occurs : (xs : List A) (x : A) → Occurs x xs → Occurs (f x) (map f xs)
  map-Occurs [] x o = absurd o
  map-Occurs (y ∷ xs) x (inl e) = inl (ap f e)
  map-Occurs (y ∷ xs) x (inr o) = inr (map-Occurs xs x o)

  pub Occurs-map : (xs : List A) (y : B) → Occurs y (map f xs) → (x : A) × Occurs x xs × (f x ≡ y)
  Occurs-map [] y o = absurd o
  Occurs-map (x ∷ xs) y (inl e) = (x, inl refl, sym e)
  Occurs-map (x ∷ xs) y (inr o) = let (z, there, e) = Occurs-map xs y o in (z, inr there, e)

contains_sound : (x : String) (xs : List String) → contains x xs ≡ true → Occurs x xs
contains_sound x [] h = cc
contains_sound x (y ∷ ys) h = elim (Bool-cases (str_eq y x)) [
  | inl e ↦ inl (sym ((eq_iff y x).0 e))
  | inr e ↦ inr (contains_sound x ys (ground arith))
]

contains_complete : (x : String) (xs : List String) → Occurs x xs → contains x xs ≡ true
contains_complete x [] o = absurd o
contains_complete x (y ∷ ys) (inl e) = rw (e, eq_refl y) refl
contains_complete x (y ∷ ys) (inr o) = ground (arith, contains_complete x ys o)

pub contains_iff : (x : String) (xs : List String) → (contains x xs ≡ true) ↔ Occurs x xs
contains_iff x xs = (contains_sound x xs, contains_complete x xs)
