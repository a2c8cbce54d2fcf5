-- ===== src/Tests/Components.antt =====
-- Two components of one project, the second of which is deployed again.
use mathlib.Core.Path.{subst}
use launch_pad.Prelude.{
  str_eq, eq_iff, String, some, [], ◌∷◌, ◌≡◌, refl, str_lt, inl, inr, contains, true, arith,
}
use launch_pad.ProjectIndex.{
  ProjectIndex, ProjectComponentEntry, UpsertComponentInput, components_of, upsert_component_entry,
  find_cross_component_service_conflicts, conflicts_from, conflicts_with, registry_component_name,
}
use launch_pad.ProjectIndex.Exclusive.{IsExclusive, upsert_component_entry-IsExclusive}

abbrev api : ProjectComponentEntry
api = record { component = "api"; owner = "shop--api"; services = "api" ∷ []; updated_at = "t0" }

abbrev site : ProjectComponentEntry
site = record { component = "site"; owner = "shop--site"; services = "web" ∷ []; updated_at = "t0" }

abbrev shop : ProjectIndex
shop = record { version = 1; project = "shop"; components = api ∷ site ∷ []; updated_at = "t0" }

abbrev redeploy : UpsertComponentInput
redeploy = record {
  project = "shop";
  component = some "site";
  services = "web" ∷ "mail" ∷ [];
  now = "t1";
}

one_name :
    (x y n : String) → contains n (x ∷ []) ≡ true → contains n (y ∷ []) ≡ true → str_eq x y ≡ true
one_name x y n k l = ground (arith, eq_iff x n, eq_iff y n, eq_iff x y)

shop-IsExclusive : IsExclusive (components_of (some shop))
shop-IsExclusive a b (inl d) (inl e) n k l = cc
shop-IsExclusive a b (inl d) (inr (inl e)) n k l = absurd (
    let x : str_eq "api" "web" ≡ true =
      one_name "api" "web" n (subst (λ x. contains n x.services ≡ true) d k)
        (subst (λ x. contains n x.services ≡ true) e l) in
    cc)
shop-IsExclusive a b (inr (inl d)) (inl e) n k l = absurd (
    let x : str_eq "web" "api" ≡ true =
      one_name "web" "api" n (subst (λ x. contains n x.services ≡ true) d k)
        (subst (λ x. contains n x.services ≡ true) e l) in
    cc)
shop-IsExclusive a b (inr (inl d)) (inr (inl e)) n k l = cc
shop-IsExclusive a b (inl d) (inr (inr o)) n k l = absurd o
shop-IsExclusive a b (inr (inl d)) (inr (inr o)) n k l = absurd o
shop-IsExclusive a b (inr (inr o)) _ n k l = absurd o

clear : find_cross_component_service_conflicts (some shop) (some "site") ("web" ∷ "mail" ∷ []) ≡ []
unfolding find_cross_component_service_conflicts conflicts_from conflicts_with
    registry_component_name
clear = refl

taken :
    find_cross_component_service_conflicts (some shop) (some "site") ("api" ∷ [])
    ≡ record { service = "api"; component = "api" } ∷ []
unfolding find_cross_component_service_conflicts conflicts_from conflicts_with
    registry_component_name
taken = refl

upsert_component_entry-IsExclusive_example :
    IsExclusive (upsert_component_entry str_lt (some shop) redeploy).components
upsert_component_entry-IsExclusive_example =
    upsert_component_entry-IsExclusive str_lt (some shop) redeploy shop-IsExclusive clear
