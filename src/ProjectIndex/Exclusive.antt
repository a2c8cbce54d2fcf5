-- ===== src/ProjectIndex/Exclusive.antt =====
-- A service name belongs to one component of its project.
use launch_pad.Prelude.{
  str_lt, contains-add, String, Bool, true, false, not, ◌||◌, Option, none, some, List, [], ◌∷◌,
  ◌++◌, ◌≡◌, refl, sym, ap, ◌∙◌, ◌⊎◌, inl, inr, arith, eq_iff, Bool-cases, if_true, if_false,
  contains, add, str_eq, filter,
}
use mathlib.Core.Path.{subst}
use launch_pad.Prelude.Occurs.{Occurs, Occurs-filter, Occurs-sort}
use launch_pad.Prelude.Sort.{contains-sort}
use launch_pad.ProjectIndex.{
  ProjectComponentEntry, ProjectIndex, UpsertComponentInput, registry_component_name, set_from,
  is_component, components_of, new_entry, upsert_component_entry, conflicts_with, conflicts_from,
  find_cross_component_service_conflicts,
}

-- No two components of the list have a service name in common.
abbrev pub IsExclusive : List ProjectComponentEntry → Type 0
IsExclusive cs =
    (a b : ProjectComponentEntry)
    → Occurs a cs
    → Occurs b cs
    → (n : String) → contains n a.services ≡ true
    → contains n b.services ≡ true
    → a.component ≡ b.component

contains-set_from :
    (n : String) (set ss : List String)
    → contains n (set_from set ss) ≡ (contains n set || contains n ss)
unfolding set_from
contains-set_from n set [] = ground arith
contains-set_from n set (s ∷ ss) =
    contains-set_from n (add s set) ss ∙ ground (arith, contains-add n s set)

contains-new_entry :
    (n : String) (input : UpsertComponentInput)
    → contains n (new_entry input).services ≡ contains n input.services
unfolding new_entry
contains-new_entry n input =
    contains-sort str_lt n (set_from [] input.services) ∙ contains-set_from n [] input.services

conflicts_with-none :
    (e : ProjectComponentEntry) (services : List String) (n : String)
    → conflicts_with e services ≡ []
    → contains n e.services ≡ true
    → contains n services ≡ false
unfolding conflicts_with
conflicts_with-none e [] n h k = refl
conflicts_with-none e (s ∷ ss) n h k = elim (Bool-cases (contains s e.services)) [
  | inl c ↦ absurd (let x = sym (if_true _ _ c) ∙ h in cc)
  | inr c ↦
      let rest = conflicts_with-none e ss n (sym (if_false _ _ c) ∙ h) k in
      elim (Bool-cases (str_eq s n)) [
        | inl same ↦ absurd (let t : s ≡ n = ground (arith, eq_iff s n) in cc)
        | inr other ↦ rw other rest
      ]
]

append-empty_left : {A : Type 0} (xs ys : List A) → xs ++ ys ≡ [] → (xs ≡ []) × (ys ≡ [])
append-empty_left [] ys h = (refl, h)
append-empty_left (x ∷ xs) ys h = absurd (cc)

conflicts_from-none :
    (name : String) (services : List String) (es : List ProjectComponentEntry)
    (e : ProjectComponentEntry) (n : String)
    → conflicts_from name services es ≡ []
    → Occurs e es
    → is_component name e ≡ false
    → contains n e.services ≡ true
    → contains n services ≡ false
unfolding conflicts_from
conflicts_from-none name services [] e n h o c k = absurd o
conflicts_from-none name services (x ∷ es) e n h (inl same) c k =
    let h' = sym (if_false _ _ (ap (is_component name) (sym same) ∙ c)) ∙ h in
    conflicts_with-none e services n
      (subst (λ x. conflicts_with x services ≡ []) (sym same) (append-empty_left _ _ h').0) k
conflicts_from-none name services (x ∷ es) e n h (inr o) c k =
    elim (Bool-cases (is_component name x)) [
      | inl d ↦ conflicts_from-none name services es e n (sym (if_true _ _ d) ∙ h) o c k
      | inr d ↦
          conflicts_from-none name services es e n
            (append-empty_left _ _ (sym (if_false _ _ d) ∙ h)).1 o c k
    ]

-- What stands in an index after an upsert: the entries of the other components, and the new one.
Occurs-concat :
    {A : Type 0} (x y : A) (xs : List A) → Occurs x (xs ++ y ∷ []) → Occurs x xs ⊎ (x ≡ y)
Occurs-concat x y [] (inl same) = inr same
Occurs-concat x y [] (inr o) = absurd o
Occurs-concat x y (z ∷ xs) (inl same) = inl (inl same)
Occurs-concat x y (z ∷ xs) (inr o) = elim (Occurs-concat x y xs o) [
  | inl there ↦ inl (inr there)
  | inr same ↦ inr same
]

-- What no conflict means for an entry of another component.
unclaimed :
    (index : Option ProjectIndex) (component : Option String) (services : List String)
    (c : ProjectComponentEntry) (n : String)
    → find_cross_component_service_conflicts index component services ≡ []
    → Occurs c (components_of index)
    → is_component (registry_component_name component) c ≡ false
    → contains n c.services ≡ true
    → contains n services ≡ false
unfolding find_cross_component_service_conflicts
unclaimed none component services c n h o d k = absurd o
unclaimed (some i) component services c n h o d k =
    conflicts_from-none (registry_component_name component) services i.components c n h o d k

module _ (locale_before : String → String → Bool) (index : Option ProjectIndex)
    (input : UpsertComponentInput) where
  abbrev IsKept : ProjectComponentEntry → Type 0
  IsKept c =
      (is_component (registry_component_name input.component) c ≡ false)
      × Occurs c (components_of index)

  upserted :
      (c : ProjectComponentEntry)
      → Occurs c (upsert_component_entry locale_before index input).components
      → IsKept c ⊎ (c ≡ new_entry input)
  unfolding upsert_component_entry
  upserted c o =
      let name = registry_component_name input.component in
      let others = filter (λ c. not (is_component name c)) (components_of index) in
      elim (Occurs-concat c (new_entry input) others (
        Occurs-sort (λ a b. locale_before a.component b.component) c
          (others ++ new_entry input ∷ []) o)) [
            | inl there ↦
                let (k, o') =
                  Occurs-filter (λ c. not (is_component name c)) (components_of index) there in
                inl (ground arith, o')
            | inr same ↦ inr same
          ]

  no_conflict :
      (c : ProjectComponentEntry) (n : String)
      → find_cross_component_service_conflicts index input.component input.services ≡ []
      → IsKept c
      → contains n c.services ≡ true
      → contains n (new_entry input).services ≡ true
      → ⊥
  no_conflict c n h (d, o) k l =
      let free : contains n input.services ≡ false =
        unclaimed index input.component input.services c n h o d k in
      let taken : contains n input.services ≡ true = sym (contains-new_entry n input) ∙ l in cc

  -- After an upsert that no conflict stands against, no service name belongs to two components if
  -- none did before.
  pub upsert_component_entry-IsExclusive :
      IsExclusive (components_of index)
      → find_cross_component_service_conflicts index input.component input.services ≡ []
      → IsExclusive (upsert_component_entry locale_before index input).components
  upsert_component_entry-IsExclusive exclusive h a b o p n k l = elim (upserted a o) [
    | inl (d, o') ↦ elim (upserted b p) [
      | inl (e, p') ↦ exclusive a b o' p' n k l
      | inr e ↦ absurd (no_conflict a n h (d, o') k (subst (λ x. contains n x.services ≡ true) e l))
    ]
    | inr d ↦ elim (upserted b p) [
      | inl e ↦ absurd (no_conflict b n h e l (subst (λ x. contains n x.services ≡ true) d k))
      | inr e ↦ ap (λ c. c.component) (d ∙ sym e)
    ]
  ]
