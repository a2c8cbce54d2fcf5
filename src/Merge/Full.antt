-- ===== src/Merge/Full.antt =====
-- The full merge.
use mathlib.Core.List.{append-nil}
use launch_pad.Prelude.{
  String, Bool, true, false, ◌≡◌, refl, ◌∙◌, ap, ◌↔◌, List, [], ◌∷◌, ◌++◌, map, All, contains,
  str_eq, filter, ok, >>=-eq-ok, Distinct, arith, Bool-cases, contains-append, str_eq-sym, ◌||◌,
  inl, inr, All-zip, All-weaken,
}
use launch_pad.Service.{ServiceConfig}
use launch_pad.Merge.{
  key_of, assert_owned, no_duplicates_from, assert_no_duplicates, is_owned, is_other,
  merge_project_services,
}

abbrev pub keys_of : List ServiceConfig → List String
keys_of ss = map key_of ss

pub assert_owned-All :
    (project : String) (ss : List ServiceConfig)
    → assert_owned project ss ≡ ok tt
    → All (λ s. str_eq s.project project ≡ true) ss
unfolding assert_owned
assert_owned-All project [] h = tt
assert_owned-All project (s ∷ ss) h = elim (Bool-cases (str_eq s.project project)) [
  | inl e ↦ (e, assert_owned-All project ss (rw e at h))
  | inr e ↦ cc (h, e)
]

-- No key is among the keys seen, and none occurs twice.
abbrev IsNew : List String → List ServiceConfig → Type 0
IsNew seen ss = All (λ s. contains (key_of s) seen ≡ false) ss × Distinct (keys_of ss)

not-contains-keys_of :
    (k : String) (ss : List ServiceConfig)
    → All (λ s. str_eq (key_of s) k ≡ false) ss
    → contains k (keys_of ss) ≡ false
not-contains-keys_of k [] h = refl
not-contains-keys_of k (s ∷ ss) (p, h) = ground (arith, not-contains-keys_of k ss h)

All-not-contains :
    (k : String) (ss : List ServiceConfig)
    → contains k (keys_of ss) ≡ false
    → All (λ s. str_eq (key_of s) k ≡ false) ss
All-not-contains k [] h = tt
All-not-contains k (s ∷ ss) h = (ground arith, All-not-contains k ss (ground arith))

contains-seen :
    (k j : String) (seen : List String)
    → contains j (seen ++ k ∷ []) ≡ (contains j seen || str_eq k j)
contains-seen k j seen = contains-append j seen (k ∷ []) ∙ ground arith

no_duplicates_from-IsNew :
    (seen : List String) (ss : List ServiceConfig)
    → no_duplicates_from seen ss ≡ ok tt
    → IsNew seen ss
unfolding no_duplicates_from
no_duplicates_from-IsNew seen [] h = (tt, tt)
no_duplicates_from-IsNew seen (s ∷ ss) h = elim (Bool-cases (contains (key_of s) seen)) [
  | inl e ↦ cc (h, e)
  | inr e ↦
      let (fresh, nd) = no_duplicates_from-IsNew (seen ++ key_of s ∷ []) ss (rw e at h) in
      (
        (e, All-weaken (λ x f. ground (arith, contains-seen (key_of s) (key_of x) seen)) ss fresh),
        (
          not-contains-keys_of (key_of s) ss (
              All-weaken
                (λ x f. ground (
                  arith,
                  contains-seen (key_of s) (key_of x) seen,
                  str_eq-sym (key_of s) (key_of x),
                ))
                ss fresh),
          nd,
        ),
      )
]

IsNew-no_duplicates_from :
    (seen : List String) (ss : List ServiceConfig)
    → IsNew seen ss
    → no_duplicates_from seen ss ≡ ok tt
unfolding no_duplicates_from
IsNew-no_duplicates_from seen [] h = refl
IsNew-no_duplicates_from seen (s ∷ ss) ((e, fresh), (new, nd)) = rw e (
    IsNew-no_duplicates_from (seen ++ key_of s ∷ []) ss (
      All-zip
          (λ x f n.
            contains-seen (key_of s) (key_of x) seen
            ∙ ground (arith, str_eq-sym (key_of s) (key_of x)))
          ss fresh (All-not-contains (key_of s) ss new),
      nd,
    ))

All-nil : (ss : List ServiceConfig) → All (λ s. contains (key_of s) [] ≡ false) ss
All-nil [] = tt
All-nil (s ∷ ss) = (refl, All-nil ss)

-- `assertNoDuplicates` passes exactly on lists whose keys are distinct.
pub assert_no_duplicates_iff :
    (ss : List ServiceConfig) → (assert_no_duplicates ss ≡ ok tt) ↔ Distinct (keys_of ss)
unfolding assert_no_duplicates
assert_no_duplicates_iff ss = (
  λ h. (no_duplicates_from-IsNew [] ss h).1,
  λ nd. IsNew-no_duplicates_from [] ss (All-nil ss, nd),
)

All-assert_owned :
    (project : String) (ss : List ServiceConfig)
    → All (λ s. str_eq s.project project ≡ true) ss
    → assert_owned project ss ≡ ok tt
unfolding assert_owned
All-assert_owned project [] h = refl
All-assert_owned project (s ∷ ss) (e, h) = rw e (All-assert_owned project ss h)

pub filter-append {ℓ} :
    {A : Type ℓ} (p : A → Bool) (xs ys : List A) → filter p (xs ++ ys) ≡ filter p xs ++ filter p ys
filter-append p [] ys = refl
filter-append p (x ∷ xs) ys = elim (Bool-cases (p x)) [
  | inl e ↦ rw e (ap (λ l. x ∷ l) (filter-append p xs ys))
  | inr e ↦ rw e (filter-append p xs ys)
]

abbrev pub AllOwned : String → List ServiceConfig → Type 0
AllOwned project ss = All (λ s. str_eq s.project project ≡ true) ss

-- The full merge succeeds exactly where every incoming service is the project's and no key would
-- occur twice, and then it is the other projects' services followed by the incoming ones.
pub merge_project_services_iff :
    (existing : List ServiceConfig) (project : String) (incoming merged : List ServiceConfig)
    → (merge_project_services existing project incoming ≡ ok merged) ↔ (
        AllOwned project incoming
        × Distinct (keys_of (filter (is_other project) existing ++ incoming))
        × (merged ≡ filter (is_other project) existing ++ incoming))
unfolding merge_project_services
merge_project_services_iff existing project incoming merged = (
  λ h.
      let (_, owned, h') = >>=-eq-ok (assert_owned project incoming) _ h in
      let all_services = filter (is_other project) existing ++ incoming in
      let (_, distinct, same) = >>=-eq-ok (assert_no_duplicates all_services) _ h' in
      (
        assert_owned-All project incoming owned,
        (assert_no_duplicates_iff all_services).0 distinct,
        cc same,
      ),
  λ (owned, distinct, same). rw (
    All-assert_owned project incoming owned,
    (assert_no_duplicates_iff (filter (is_other project) existing ++ incoming)).1 distinct,
    same,
  ),
)

filter_other-owned :
    (project : String) (ss : List ServiceConfig)
    → AllOwned project ss
    → (filter (is_other project) ss ≡ []) × (filter (is_owned project) ss ≡ ss)
filter_other-owned project [] h = (refl, refl)
filter_other-owned project (s ∷ ss) (e, h) =
    let (a, b) = filter_other-owned project ss h in (rw e a, rw e (ap (λ l. s ∷ l) b))

filter_other-other :
    (project : String) (ss : List ServiceConfig)
    → (filter (is_other project) (filter (is_other project) ss) ≡ filter (is_other project) ss)
      × (filter (is_owned project) (filter (is_other project) ss) ≡ [])
filter_other-other project [] = (refl, refl)
filter_other-other project (s ∷ ss) =
    let (a, b) = filter_other-other project ss in
    elim (Bool-cases (str_eq s.project project)) [
      | inl e ↦ (rw e a, rw e b)
      | inr e ↦ (rw (e, e) (ap (λ l. s ∷ l) a), rw (e, e) b)
    ]

-- A full merge leaves every other project's services as they were, in their order, and makes the
-- project's services exactly the incoming ones.
pub merge_project_services-preserves :
    (existing : List ServiceConfig) (project : String) (incoming merged : List ServiceConfig)
    → merge_project_services existing project incoming ≡ ok merged
    → (filter (is_other project) merged ≡ filter (is_other project) existing)
      × (filter (is_owned project) merged ≡ incoming)
      × Distinct (keys_of merged)
merge_project_services-preserves existing project incoming merged h =
    let (owned, distinct, same) =
      (merge_project_services_iff existing project incoming merged).0 h in
    let (a, b) = filter_other-owned project incoming owned in
    let (c, e) = filter_other-other project existing in
    rw same (
      filter-append (is_other project) (filter (is_other project) existing) incoming
          ∙ rw (a, c, append-nil),
      filter-append (is_owned project) (filter (is_other project) existing) incoming ∙ rw (b, e),
      distinct,
    )

-- Publishing the same services a second time changes nothing.
pub merge_project_services_idem :
    (existing : List ServiceConfig) (project : String) (incoming merged : List ServiceConfig)
    → merge_project_services existing project incoming ≡ ok merged
    → merge_project_services merged project incoming ≡ ok merged
merge_project_services_idem existing project incoming merged h =
    let (owned, distinct, same) =
      (merge_project_services_iff existing project incoming merged).0 h in
    let (others, _, _) = merge_project_services-preserves existing project incoming merged h in
    (merge_project_services_iff merged project incoming merged).1
      (owned, rw others distinct, rw others same)
