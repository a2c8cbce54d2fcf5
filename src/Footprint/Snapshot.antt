-- ===== src/Footprint/Snapshot.antt =====
-- What the maps of a placement hold: one entry for each of the owner's services on the nodes.
use launch_pad.Prelude.{
  ℕ, String, Bool, true, ◌&&◌, ◌||◌, Option, none, some, List, [], ◌∷◌, map, ◌≡◌, refl, sym, ◌∙◌,
  inl, inr, arith, Bool-cases, Dict, get, keys, contains, str_eq, any, All, contains-keys-put,
}
use launch_pad.Prelude.Entries.{AllEntries, AllEntries-put, AllEntries-get}
use launch_pad.Service.{ServiceConfig}
use launch_pad.Undeploy.{NodeServices}
use launch_pad.ConfigLock.{DeployedFootprint}
use launch_pad.Footprint.{
  PlacementMaps, new_footprint, grown, footprint_after, place_service, place_services,
  placement_maps, values, sort_node_ids,
}

abbrev pub runs : String → String → List ServiceConfig → Bool
runs owner name services = any (λ s. str_eq s.project owner && str_eq s.service name) services

-- Some node runs a service of that name for the owner.
abbrev pub is_deployed : String → String → List NodeServices → Bool
is_deployed owner name states = any (λ st. runs owner name st.services) states

module _ (owner name : String) where
  contains-place_service :
      (node : String) (s : ServiceConfig) (maps : PlacementMaps)
      → contains name (keys (place_service node s maps).by_service)
        ≡ (str_eq s.service name || contains name (keys maps.by_service))
  unfolding place_service
  contains-place_service node s maps =
      contains-keys-put s.service name (footprint_after (get s.service maps.by_service) node s)
        maps.by_service

  contains-place_services :
      (node : String) (services : List ServiceConfig) (maps : PlacementMaps)
      → contains name (keys (place_services owner node services maps).by_service)
        ≡ (contains name (keys maps.by_service) || runs owner name services)
  unfolding place_services
  contains-place_services node [] maps = ground arith
  contains-place_services node (s ∷ rest) maps = elim (Bool-cases (str_eq s.project owner)) [
    | inl e ↦
        let ih = contains-place_services node rest (place_service node s maps) in
        let here = contains-place_service node s maps in
        rw (e, place_services) (ih ∙ ground (arith, here))
    | inr e ↦ rw (e, place_services) (contains-place_services node rest maps)
  ]

  pub contains-placement_maps :
      (states : List NodeServices) (maps : PlacementMaps)
      → contains name (keys (placement_maps owner states maps).by_service)
        ≡ (contains name (keys maps.by_service) || is_deployed owner name states)
  unfolding placement_maps
  contains-placement_maps [] maps = ground arith
  contains-placement_maps (st ∷ states) maps =
      contains-placement_maps states (place_services owner st.node_id st.services maps)
      ∙ ground (arith, contains-place_services st.node_id st.services maps)

-- A property that the owner's services give their footprints.
module _ (owner : String) (Q : ServiceConfig → Type 0) (P : DeployedFootprint → Type 0)
    (new : (node : String) (s : ServiceConfig) → Q s → P (new_footprint node s))
    (more : (fp : DeployedFootprint) (node : String) (r : ℕ) → P fp → P (grown fp node r)) where
  abbrev pub Owned : ServiceConfig → Type 0
  Owned s = str_eq s.project owner ≡ true → Q s

  abbrev IsEntry : String → DeployedFootprint → Type 0
  IsEntry k fp = (k ≡ fp.service) × P fp

  footprint_after-IsEntry :
      (node : String) (s : ServiceConfig) (before : Option DeployedFootprint)
      → Q s
      → ((fp : DeployedFootprint) → before ≡ some fp → IsEntry s.service fp)
      → IsEntry s.service (footprint_after before node s)
  unfolding footprint_after new_footprint grown
  footprint_after-IsEntry node s none q h = (refl, new node s q)
  footprint_after-IsEntry node s (some fp) q h =
      let (k, p) = h fp refl in (k, more fp node s.replicas p)

  place_service-entries :
      (node : String) (s : ServiceConfig) (maps : PlacementMaps)
      → Q s
      → AllEntries IsEntry maps.by_service
      → AllEntries IsEntry (place_service node s maps).by_service
  unfolding place_service
  place_service-entries node s maps q h =
      AllEntries-put IsEntry s.service (footprint_after (get s.service maps.by_service) node s)
        maps.by_service
        (footprint_after-IsEntry node s (get s.service maps.by_service) q
          (λ fp e. AllEntries-get IsEntry s.service maps.by_service h e))
        h

  place_services-entries :
      (node : String) (services : List ServiceConfig) (maps : PlacementMaps)
      → All Owned services
      → AllEntries IsEntry maps.by_service
      → AllEntries IsEntry (place_services owner node services maps).by_service
  unfolding place_services
  place_services-entries node [] maps o h = h
  place_services-entries node (s ∷ rest) maps (q, o) h =
      elim (Bool-cases (str_eq s.project owner)) [
        | inl e ↦
            rw (e, place_services)
              (place_services-entries node rest (place_service node s maps) o
                (place_service-entries node s maps (q e) h))
        | inr e ↦ rw (e, place_services) (place_services-entries node rest maps o h)
      ]

  pub placement_maps-entries :
      (states : List NodeServices) (maps : PlacementMaps)
      → All (λ (st : NodeServices). All Owned st.services) states
      → AllEntries IsEntry maps.by_service
      → AllEntries IsEntry (placement_maps owner states maps).by_service
  unfolding placement_maps
  placement_maps-entries [] maps o h = h
  placement_maps-entries (st ∷ states) maps (q, o) h =
      placement_maps-entries states (place_services owner st.node_id st.services maps) o
        (place_services-entries st.node_id st.services maps q h)

-- The footprints of a snapshot have their properties and their names.
module _ (P : DeployedFootprint → Type 0)
    (sorted : (fp : DeployedFootprint) → P fp → P (sort_node_ids fp)) where
  pub values-All :
      (m : Dict DeployedFootprint)
      → AllEntries (λ k fp. (k ≡ fp.service) × P fp) m
      → All P (map sort_node_ids (values m))
  values-All [] h = tt
  values-All ((k, fp) ∷ m) (p, h) = (sorted fp p.1, values-All m h)

  pub any-values :
      (n : String) (m : Dict DeployedFootprint)
      → AllEntries (λ k fp. (k ≡ fp.service) × P fp) m
      → any (λ fp. str_eq fp.service n) (map sort_node_ids (values m)) ≡ contains n (keys m)
  unfolding sort_node_ids
  any-values n [] h = refl
  any-values n ((k, fp) ∷ m) (p, h) =
      let e : fp.service ≡ k = sym (p.0) in let rest = any-values n m h in rw (e, rest) refl
