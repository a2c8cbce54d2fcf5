-- ===== src/Evacuation.antt =====
-- packages/cli/src/commands/node/index.ts: what stands in the way of destroying nodes. The parser of
-- desired.json is a parameter; an absent document is none.
pub mod Gates
use launch_pad.Prelude.{
  String, Bool, true, false, not, ◌&&◌, Option, none, some, List, [], ◌∷◌, map, filter, any,
  contains, str_eq, if◌then◌else◌,
}
use launch_pad.Service.{ServiceConfig, DesiredState, VolumeDecl}

-- `hasVolume` is optional in the source; it counts only where it is true.
pub record ScheduledService : Type 0 where
  pub project : String
  pub service : String
  pub has_volume : Bool

pub record Target : Type 0 where
  pub name : String
  pub services : List ScheduledService

abbrev pub is_none_left : List ScheduledService → Bool
is_none_left [] = true
is_none_left (_ ∷ _) = false

abbrev pub with_volume : Target → Target
with_volume t = record { name = t.name; services = filter (λ s. s.has_volume) t.services }

unfoldable pub volume_bearing_targets : List Target → List Target
volume_bearing_targets targets =
    filter (λ t. not (is_none_left t.services)) (map with_volume targets)

unfoldable pub nodes_that_would_orphan : List Target → List Target
nodes_that_would_orphan targets = filter (λ t. not (is_none_left t.services)) targets

pub record EvacuationAssessment : Type 0 where
  pub drain_nodes : List String
  pub unmovable : List Target

abbrev pub is_movable : String → List String → ScheduledService → Bool
is_movable owner_project movable_names s =
    str_eq s.project owner_project && contains s.service movable_names

-- The loop's body: the target before what the rest of the targets give.
unfoldable pub assess : String → List String → Target → EvacuationAssessment → EvacuationAssessment
assess owner_project movable_names t rest =
    let stuck = filter (λ s. not (is_movable owner_project movable_names s)) t.services in
    record {
      drain_nodes =
          if any (is_movable owner_project movable_names) t.services
          then t.name ∷ rest.drain_nodes
          else rest.drain_nodes;
      unmovable =
          if is_none_left stuck
          then rest.unmovable
          else record { name = t.name; services = stuck } ∷ rest.unmovable;
    }

unfoldable pub assess_evacuation : List Target → String → List String → EvacuationAssessment
assess_evacuation [] owner_project movable_names = record { drain_nodes = []; unmovable = [] }
assess_evacuation (t ∷ targets) owner_project movable_names =
    let rest = assess_evacuation targets owner_project movable_names in
    assess owner_project movable_names t rest

abbrev pub has_volumes : List VolumeDecl → Bool
has_volumes [] = false
has_volumes (_ ∷ _) = true

unfoldable pub scheduled_service : ServiceConfig → ScheduledService
scheduled_service s = record {
  project = s.project;
  service = s.service;
  has_volume = has_volumes s.volumes;
}

-- A document that does not parse counts as a service with a volume.
unfoldable pub scheduled_services_from_desired : Option DesiredState → List ScheduledService
scheduled_services_from_desired none =
    record { project = "(unknown)"; service = "(unparseable desired.json)"; has_volume = true } ∷ []
scheduled_services_from_desired (some state) = map scheduled_service state.services

module _ {Body : Type 0} (parse : Body → Option DesiredState) where
  unfoldable pub list_scheduled_services : Option Body → List ScheduledService
  list_scheduled_services none = []
  list_scheduled_services (some body) = scheduled_services_from_desired (parse body)
