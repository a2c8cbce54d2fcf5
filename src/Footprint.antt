-- ===== src/Footprint.antt =====
-- packages/cli/src/deploy/deployed-footprint.ts: what the nodes' desired.json files say of one
-- footprint, and `baselineFromDeployedFootprints` of packages/shared/src/config-lock.ts.
pub mod Snapshot
use mathlib.Core.Option
use launch_pad.Prelude.Sort.{sort}
use launch_pad.Prelude.{
  ℕ, zero, suc, ◌+◌, String, Bool, not, Option, none, some, List, [], ◌∷◌, ◌++◌, Dict, get, put,
  keys, or_else, str_eq, str_lt, map, filter, if◌then◌else◌,
}
use launch_pad.Service.{ServiceConfig, Ingress}
use launch_pad.Undeploy.{NodeServices}
use launch_pad.Config.{launch_pad_environment}
use launch_pad.ConfigLock.{BaselineService, ConfigBaseline, DeployedFootprint, database_identity}

pub record NodeOccupancy : Type 0 where
  pub service : String
  pub replicas : ℕ
  pub ingress : Option Ingress

-- The two maps that the loop fills.
pub record PlacementMaps : Type 0 where
  pub by_service : Dict DeployedFootprint
  pub by_node : Dict (List NodeOccupancy)

pub record DeployedPlacementSnapshot : Type 0 where
  pub footprints : List DeployedFootprint
  pub occupied_node_ids : List String
  pub by_node : Dict (List NodeOccupancy)

unfoldable pub new_footprint : String → ServiceConfig → DeployedFootprint
new_footprint node_id s = record {
  service = s.service;
  node_ids = node_id ∷ [];
  replicas = s.replicas;
  cpu = s.cpu;
  memory = s.memory;
  env = s.env;
  ingress = s.ingress;
  health_check = s.health_check;
  rollout = s.rollout;
  secrets = map (λ r. r.name) s.secret_refs;
  volumes = s.volumes;
  cron = s.cron;
  database = s.database;
}

-- `existing.nodeIds.push(nodeId); existing.replicas += s.replicas`
unfoldable pub grown : DeployedFootprint → String → ℕ → DeployedFootprint
grown fp node_id replicas = record {
  service = fp.service;
  node_ids = fp.node_ids ++ node_id ∷ [];
  replicas = fp.replicas + replicas;
  cpu = fp.cpu;
  memory = fp.memory;
  env = fp.env;
  ingress = fp.ingress;
  health_check = fp.health_check;
  rollout = fp.rollout;
  secrets = fp.secrets;
  volumes = fp.volumes;
  cron = fp.cron;
  database = fp.database;
}

-- The footprint of a service that a node runs, after the one that is there.
unfoldable pub footprint_after :
    Option DeployedFootprint → String → ServiceConfig → DeployedFootprint
footprint_after none node_id s = new_footprint node_id s
footprint_after (some existing) node_id s = grown existing node_id s.replicas

unfoldable pub place_service : String → ServiceConfig → PlacementMaps → PlacementMaps
place_service node_id s maps = record {
  by_service =
      put s.service (footprint_after (get s.service maps.by_service) node_id s) maps.by_service;
  by_node =
      put node_id
        (or_else (get node_id maps.by_node) []
          ++ record { service = s.service; replicas = s.replicas; ingress = s.ingress } ∷ [])
        maps.by_node;
}

unfoldable pub place_services : String → String → List ServiceConfig → PlacementMaps → PlacementMaps
place_services owner_project node_id [] maps = maps
place_services owner_project node_id (s ∷ rest) maps =
    place_services owner_project node_id rest
      (if str_eq s.project owner_project then place_service node_id s maps else maps)

unfoldable pub placement_maps : String → List NodeServices → PlacementMaps → PlacementMaps
placement_maps owner_project [] maps = maps
placement_maps owner_project (state ∷ states) maps =
    placement_maps owner_project states
      (place_services owner_project state.node_id state.services maps)

abbrev pub values : Dict DeployedFootprint → List DeployedFootprint
values [] = []
values ((_, v) ∷ m) = v ∷ values m

-- `fp.nodeIds.sort()`
unfoldable pub sort_node_ids : DeployedFootprint → DeployedFootprint
sort_node_ids fp = record {
  service = fp.service;
  node_ids = sort str_lt fp.node_ids;
  replicas = fp.replicas;
  cpu = fp.cpu;
  memory = fp.memory;
  env = fp.env;
  ingress = fp.ingress;
  health_check = fp.health_check;
  rollout = fp.rollout;
  secrets = fp.secrets;
  volumes = fp.volumes;
  cron = fp.cron;
  database = fp.database;
}

-- Drops the variable that a deploy of an environment injects.
unfoldable pub declared_env : Dict String → Dict String
declared_env env = filter (λ e. not (str_eq e.0 launch_pad_environment)) env

-- A port or a domain that is there but 0 or empty counts as absent.
abbrev pub nonzero : ℕ → Option ℕ
nonzero zero = none
nonzero (suc port) = some (suc port)

abbrev pub nonempty : String → Option String
nonempty domain = if str_eq domain "" then none else some domain

unfoldable pub footprint_baseline : DeployedFootprint → BaselineService
footprint_baseline f = record {
  name = f.service;
  node = none;
  nodes = none;
  edge = none;
  cron = f.cron;
  schedule = none;
  topology = none;
  dockerfile = "";
  context = "";
  replicas = f.replicas;
  cpu = f.cpu;
  memory = f.memory;
  env = declared_env f.env;
  domain = elim f.ingress [ none ↦ none | some i ↦ nonempty i.domain ];
  domain_pattern = none;
  port = elim f.ingress [ none ↦ none | some i ↦ nonzero i.port ];
  health_check = f.health_check;
  rollout = f.rollout;
  secrets = f.secrets;
  volumes = f.volumes;
  database = database_identity f.database;
}

module _ (locale_before : String → String → Bool) where
  unfoldable pub build_placement_snapshot : List NodeServices → String → DeployedPlacementSnapshot
  build_placement_snapshot states owner_project =
      let maps = placement_maps owner_project states (record { by_service = []; by_node = [] }) in
      record {
        footprints =
            sort (λ a b. locale_before a.service b.service)
              (map sort_node_ids (values maps.by_service));
        occupied_node_ids = sort str_lt (keys maps.by_node);
        by_node = maps.by_node;
      }

  unfoldable pub baseline_from_deployed_footprints :
      String → Option String → List DeployedFootprint → String → ConfigBaseline
  baseline_from_deployed_footprints project component footprints locked_at = record {
    project = project;
    component = component;
    domain_pattern = none;
    services = sort (λ a b. locale_before a.name b.name) (map footprint_baseline footprints);
    locked_at = locked_at;
  }
