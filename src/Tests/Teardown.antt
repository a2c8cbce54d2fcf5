-- ===== src/Tests/Teardown.antt =====
-- A node with a database, one whose document is broken, and one without a document.
use launch_pad.Prelude.{
  ◌↔◌, String, Option, none, some, List, [], ◌∷◌, ◌≡◌, refl, map, any, str_eq, ◌&&◌, true, false,
  if◌then◌else◌,
}
use launch_pad.Prelude.Occurs.{Occurs}
use launch_pad.Service.{DesiredState}
use launch_pad.Evacuation.{Target, volume_bearing_targets, assess_evacuation}
use launch_pad.Evacuation.Gates.{
  names, may_hold_data, target_of, volume_bearing_targets-may_hold_data, assess_evacuation-exact,
  HasService, IsTakenAlong,
}
use launch_pad.Tests.Merge.{shared_node}

abbrev parse : String → Option DesiredState
parse body =
    if str_eq body "ok"
    then some (record { version = 3; node_id = "a"; updated_at = ""; services = shared_node })
    else none

abbrev documents : List (String × Option String)
documents = ("a", some "ok") ∷ ("b", some "broken") ∷ ("c", none) ∷ []

volume_bearing_targets-may_hold_data_example :
    names "b" (volume_bearing_targets (map (target_of parse) documents))
    ≡ any (λ d. str_eq d.0 "b" && may_hold_data parse d.1) documents
volume_bearing_targets-may_hold_data_example =
    volume_bearing_targets-may_hold_data parse "b" documents

broken_held : any (λ d. str_eq d.0 "b" && may_hold_data parse d.1) documents ≡ true
broken_held = refl

abbrev targets : List Target
targets =
    record {
      name = "a";
      services =
          record { project = "blog"; service = "web"; has_volume = false }
          ∷ record { project = "shop"; service = "web"; has_volume = false }
          ∷ [];
    }
    ∷ []

assess_evacuation-exact_example :
    (Occurs "a" (assess_evacuation targets "blog" ("web" ∷ [])).drain_nodes
      ↔ HasService (IsTakenAlong "blog" ("web" ∷ [])) "a" targets)
    × ((names "a" (assess_evacuation targets "blog" ("web" ∷ [])).unmovable ≡ true)
        ↔ HasService (λ s. ¬ IsTakenAlong "blog" ("web" ∷ []) s) "a" targets)
assess_evacuation-exact_example = assess_evacuation-exact "blog" ("web" ∷ []) "a" targets
