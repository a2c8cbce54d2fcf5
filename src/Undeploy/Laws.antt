-- ===== src/Undeploy/Laws.antt =====
-- What stays on a node after an undeploy.
use launch_pad.Prelude.{
  String, not, ◌≡◌, refl, ap, inl, inr, Option, none, List, [], ◌∷◌, str_eq, filter, arith,
  Bool-cases, if◌then◌else◌, ok, eq_iff, ◌∙◌, sym,
}
use launch_pad.Service.{ServiceConfig}
use launch_pad.Merge.{is_other, is_owned, merge_project_services}
use launch_pad.Merge.Full.{merge_project_services-preserves}
use launch_pad.Merge.Partial.{find_service}
use launch_pad.Undeploy.{should_remove, owned_by, services_after_removal}

module _ (owner : String) (names : Option (List String)) where
  pub filter_other-services_after_removal :
      (ss : List ServiceConfig)
      → filter (is_other owner) (services_after_removal ss owner names) ≡ filter (is_other owner) ss
  unfolding services_after_removal
  filter_other-services_after_removal [] = refl
  filter_other-services_after_removal (s ∷ ss) = elim (Bool-cases (str_eq s.project owner)) [
    | inl e ↦ elim (Bool-cases (should_remove names s.service)) [
      | inl f ↦ rw (e, f) (filter_other-services_after_removal ss)
      | inr f ↦ rw (e, f, e) (filter_other-services_after_removal ss)
    ]
    | inr e ↦ rw (e, e) (ap (λ l. s ∷ l) (filter_other-services_after_removal ss))
  ]

  filter_owned-services_after_removal :
      (ss : List ServiceConfig)
      → filter (is_owned owner) (services_after_removal ss owner names)
        ≡ filter (λ s. not (should_remove names s.service)) (owned_by owner ss)
  unfolding services_after_removal
  filter_owned-services_after_removal [] = refl
  filter_owned-services_after_removal (s ∷ ss) = elim (Bool-cases (str_eq s.project owner)) [
    | inl e ↦ elim (Bool-cases (should_remove names s.service)) [
      | inl f ↦ rw (e, f) (filter_owned-services_after_removal ss)
      | inr f ↦ rw (e, f, e) (ap (λ l. s ∷ l) (filter_owned-services_after_removal ss))
    ]
    | inr e ↦ rw (e, e) (filter_owned-services_after_removal ss)
  ]

  pub find_service-services_after_removal :
      (n : String) (ss : List ServiceConfig)
      → find_service owner n (services_after_removal ss owner names)
        ≡ (if should_remove names n then none else find_service owner n ss)
  unfolding services_after_removal
  find_service-services_after_removal n [] = ground arith
  find_service-services_after_removal n (s ∷ ss) =
      ground (arith, find_service-services_after_removal n ss, eq_iff s.service n)

  -- After a removal: other projects' services are as they were, in their order; a name of the project
  -- is gone if it is to be removed and otherwise has the service that it had; and publishing the
  -- plan's `kept` services by a full merge leaves the same services of each side.
  pub services_after_removal-exact :
      (existing merged : List ServiceConfig)
      → merge_project_services existing owner
          (filter (λ s. not (should_remove names s.service)) (owned_by owner existing))
        ≡ ok merged
      → (filter (is_other owner) (services_after_removal existing owner names)
          ≡ filter (is_other owner) existing)
        × ((n : String)
            → find_service owner n (services_after_removal existing owner names)
              ≡ (if should_remove names n then none else find_service owner n existing))
        × (filter (is_other owner) merged
            ≡ filter (is_other owner) (services_after_removal existing owner names))
        × (filter (is_owned owner) merged
            ≡ filter (is_owned owner) (services_after_removal existing owner names))
  services_after_removal-exact existing merged h =
      let (others, owned, _) = merge_project_services-preserves existing owner _ merged h in
      (
        filter_other-services_after_removal existing,
        λ n. find_service-services_after_removal n existing,
        others ∙ sym (filter_other-services_after_removal existing),
        owned ∙ sym (filter_owned-services_after_removal existing),
      )
