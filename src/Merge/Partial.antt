-- ===== src/Merge/Partial.antt =====
-- The partial merge: an upsert by service name.
use mathlib.Core.Path.{subst}
use mathlib.Core.List.{append-nil}
use launch_pad.Prelude.{
  String, Bool, true, false, not, ◌&&◌, ◌≡◌, refl, ◌∙◌, inl, inr, Option, none, some, List, [], ◌∷◌,
  ◌++◌, map, contains, str_eq, filter, find?, ok, >>=-eq-ok, Distinct, arith, Bool-cases,
  Option-cases, if◌then◌else◌, eq_iff, Dict, get, put, get-put, or_else,
}
use launch_pad.Service.{ServiceConfig}
use launch_pad.Merge.{
  assert_owned, assert_no_duplicates, is_other, by_service_from, replace_all, applied_names,
  merge_project_services_partial,
}
use launch_pad.Merge.Full.{
  keys_of, AllOwned, assert_owned-All, assert_no_duplicates_iff, filter-append,
}

-- The project's service of a name in a list.
abbrev pub find_service : String → String → List ServiceConfig → Option ServiceConfig
find_service project name ss = find? (λ s. str_eq s.project project && str_eq s.service name) ss

-- `a ?? b`
abbrev pub or_first {ℓ} : {A : Type ℓ} → Option A → Option A → Option A
or_first none b = b
or_first (some a) b = some a

abbrev pub names_of : List ServiceConfig → List String
names_of ss = map (λ (s : ServiceConfig). s.service) ss

find_service-eq-none :
    (project n : String) (ss : List ServiceConfig)
    → contains n (names_of ss) ≡ false
    → find_service project n ss ≡ none
find_service-eq-none project n [] h = refl
find_service-eq-none project n (s ∷ ss) h = ground (arith, find_service-eq-none project n ss)

get-by_service_from :
    (project n : String) (m : Dict ServiceConfig) (ss : List ServiceConfig)
    → AllOwned project ss
    → Distinct (names_of ss)
    → get n (by_service_from m ss) ≡ or_first (find_service project n ss) (get n m)
unfolding by_service_from
get-by_service_from project n m [] o d = refl
get-by_service_from project n m (s ∷ ss) (e, o) (new, d) =
    get-by_service_from project n (put s.service s m) ss o d ∙ step
  where
    step :
        or_first (find_service project n ss) (get n (put s.service s m))
        ≡ or_first (find_service project n (s ∷ ss)) (get n m)
    step = elim (Bool-cases (str_eq s.service n)) [
      | inl f ↦
          let gone : find_service project n ss ≡ none =
            find_service-eq-none project n ss
              (subst (λ x. contains x (names_of ss) ≡ false) ((eq_iff s.service n).0 f) new) in
          rw (gone, get-put, e, f)
      | inr f ↦ rw (get-put, e, f)
    ]

-- What the map holds are services of the project, under their own names.
abbrev IsNamed : String → Dict ServiceConfig → Type 0
IsNamed project m =
    (n : String) (r : ServiceConfig)
    → get n m ≡ some r
    → (str_eq r.project project ≡ true) × (r.service ≡ n)

by_service_from-IsNamed :
    (project : String) (m : Dict ServiceConfig) (ss : List ServiceConfig)
    → AllOwned project ss
    → IsNamed project m
    → IsNamed project (by_service_from m ss)
unfolding by_service_from
by_service_from-IsNamed project m [] o h = h
by_service_from-IsNamed project m (s ∷ ss) (e, o) h =
    by_service_from-IsNamed project (put s.service s m) ss o put_IsNamed
  where
    put_IsNamed : IsNamed project (put s.service s m)
    put_IsNamed n r f = elim (Bool-cases (str_eq s.service n)) [
      | inl k ↦
          let same : s ≡ r = ground (arith, get-put s.service n s m) in
          (
            subst (λ (x : ServiceConfig). str_eq x.project project ≡ true) same e,
            subst (λ (x : ServiceConfig). x.service ≡ n) same ((eq_iff s.service n).0 k),
          )
      | inr k ↦ h n r (ground (arith, get-put s.service n s m))
    ]

module _ (project : String) (m : Dict ServiceConfig) (named : IsNamed project m) where
  filter-replace_all :
      (ss : List ServiceConfig)
      → filter (is_other project) (replace_all project m ss) ≡ filter (is_other project) ss
  unfolding replace_all
  filter-replace_all [] = refl
  filter-replace_all (s ∷ ss) = elim (Bool-cases (str_eq s.project project)) [
    | inl e ↦ elim (Option-cases (get s.service m)) [
      | inl n ↦ ground (arith, filter-replace_all ss)
      | inr (r, f) ↦ ground (arith, filter-replace_all ss, named s.service r f)
    ]
    | inr e ↦ ground (arith, filter-replace_all ss)
  ]

  find_service-replace_all :
      (n : String) (ss : List ServiceConfig)
      → find_service project n (replace_all project m ss)
        ≡ elim (find_service project n ss) [ none ↦ none | some s ↦ some (or_else (get n m) s) ]
  unfolding replace_all
  find_service-replace_all n [] = refl
  find_service-replace_all n (s ∷ ss) = elim (Option-cases (get s.service m)) [
    | inl f ↦ ground (arith, find_service-replace_all n ss, eq_iff s.service n)
    | inr (r, f) ↦ ground (
      arith,
      find_service-replace_all n ss,
      named s.service r f,
      eq_iff s.service n,
      eq_iff r.service n,
    )
  ]

  contains-applied_names :
      (n : String) (ss : List ServiceConfig)
      → contains n (applied_names project m ss) ≡ elim (find_service project n ss) [
        | none ↦ false
        | some s ↦ elim (get n m) [ none ↦ false | some _ ↦ true ]
      ]
  unfolding applied_names
  contains-applied_names n [] = refl
  contains-applied_names n (s ∷ ss) = elim (Option-cases (get s.service m)) [
    | inl f ↦ ground (arith, contains-applied_names n ss, eq_iff s.service n)
    | inr (r, f) ↦ ground (
      arith,
      contains-applied_names n ss,
      named s.service r f,
      eq_iff s.service n,
      eq_iff r.service n,
    )
  ]

find_service-append :
    (project n : String) (xs ys : List ServiceConfig)
    → find_service project n (xs ++ ys)
      ≡ or_first (find_service project n xs) (find_service project n ys)
find_service-append project n [] ys = refl
find_service-append project n (x ∷ xs) ys = ground (arith, find_service-append project n xs ys)

find_service-filter :
    (project n : String) (applied : List String) (ss : List ServiceConfig)
    → find_service project n (filter (λ s. not (contains s.service applied)) ss)
      ≡ (if contains n applied then none else find_service project n ss)
find_service-filter project n applied [] = ground arith
find_service-filter project n applied (s ∷ ss) =
    ground (arith, find_service-filter project n applied ss, eq_iff s.service n)

filter-filter-owned :
    (project : String) (p : ServiceConfig → Bool) (ss : List ServiceConfig)
    → AllOwned project ss
    → filter (is_other project) (filter p ss) ≡ []
filter-filter-owned project p [] o = refl
filter-filter-owned project p (s ∷ ss) (e, o) = elim (Bool-cases (p s)) [
  | inl f ↦ rw (f, e) (filter-filter-owned project p ss o)
  | inr f ↦ rw f (filter-filter-owned project p ss o)
]

abbrev merged_of : List ServiceConfig → String → List ServiceConfig → List ServiceConfig
merged_of existing project incoming =
    let m = by_service_from [] incoming in
    replace_all project m existing
    ++ filter (λ s. not (contains s.service (applied_names project m existing))) incoming

merge_project_services_partial-ok :
    (existing : List ServiceConfig) (project : String) (incoming merged : List ServiceConfig)
    → merge_project_services_partial existing project incoming ≡ ok merged
    → AllOwned project incoming
      × Distinct (keys_of (merged_of existing project incoming))
      × (merged_of existing project incoming ≡ merged)
unfolding merge_project_services_partial
merge_project_services_partial-ok existing project incoming merged h =
    let (_, owned, h') = >>=-eq-ok (assert_owned project incoming) _ h in
    let all_services = merged_of existing project incoming in
    let (_, distinct, same) = >>=-eq-ok (assert_no_duplicates all_services) _ h' in
    (
      assert_owned-All project incoming owned,
      (assert_no_duplicates_iff all_services).0 distinct,
      cc same,
    )

module _ (existing : List ServiceConfig) (project : String) (incoming merged : List ServiceConfig)
    (h : merge_project_services_partial existing project incoming ≡ ok merged) where
  -- A partial merge leaves every other project's services as they were, in their order.
  pub merge_project_services_partial-preserves :
      filter (is_other project) merged ≡ filter (is_other project) existing
  merge_project_services_partial-preserves =
      let (owned, _, same) = merge_project_services_partial-ok existing project incoming merged h in
      let m = by_service_from [] incoming in
      rw (
        ← same,
        filter-append,
        filter-replace_all project m
            (by_service_from-IsNamed project [] incoming owned (λ n r f. cc)),
        filter-filter-owned project _ incoming owned,
        append-nil,
      )

  -- In a partial merge of services with distinct names, each of the project's names has the incoming
  -- service if there is one, and otherwise the service that it had.
  pub merge_project_services_partial-upsert :
      (n : String)
      → Distinct (names_of incoming)
      → find_service project n merged
        ≡ or_first (find_service project n incoming) (find_service project n existing)
  merge_project_services_partial-upsert n d =
      let (owned, _, same) = merge_project_services_partial-ok existing project incoming merged h in
      let m = by_service_from [] incoming in
      let named = by_service_from-IsNamed project [] incoming owned (λ n r f. cc) in
      let applied = applied_names project m existing in
      rw (← same) (
        ground (
          arith,
          find_service-append project n (replace_all project m existing)
              (filter (λ s. not (contains s.service applied)) incoming),
          find_service-replace_all project m named n existing,
          find_service-filter project n applied incoming,
          contains-applied_names project m named n existing,
          get-by_service_from project n [] incoming owned d,
        ))

  -- No key occurs twice in what a partial merge returns.
  pub merge_project_services_partial-Distinct : Distinct (keys_of merged)
  merge_project_services_partial-Distinct =
      let (_, distinct, same) =
        merge_project_services_partial-ok existing project incoming merged h in
      rw (← same) distinct
