-- ===== src/ProjectIndex.antt =====
-- packages/shared/src/project-registry.ts: the components of a project that several repositories
-- deploy, and the names of their services. `localeCompare` is a parameter.
pub mod Exclusive
use launch_pad.Prelude.{
  ℕ, String, Bool, not, Option, none, some, List, [], ◌∷◌, ◌++◌, str_eq, str_lt, contains, add,
  filter, or_else, if◌then◌else◌,
}
use launch_pad.Prelude.Sort.{sort}
use launch_pad.Config.{component_owner}

pub record ProjectComponentEntry : Type 0 where
  pub component : String
  pub owner : String
  pub services : List String
  pub updated_at : String

pub record ProjectIndex : Type 0 where
  pub version : ℕ
  pub project : String
  pub components : List ProjectComponentEntry
  pub updated_at : String

pub record UpsertComponentInput : Type 0 where
  pub project : String
  pub component : Option String
  pub services : List String
  pub now : String

pub record ServiceConflict : Type 0 where
  pub service : String
  pub component : String

abbrev pub project_index_version : ℕ
project_index_version = 1

abbrev pub default_component : String
default_component = "default"

unfoldable pub registry_component_name : Option String → String
registry_component_name component = or_else component default_component

-- `[...new Set(services)]`
unfoldable pub set_from : List String → List String → List String
set_from set [] = set
set_from set (s ∷ ss) = set_from (add s set) ss

abbrev pub is_component : String → ProjectComponentEntry → Bool
is_component name c = str_eq c.component name

abbrev pub components_of : Option ProjectIndex → List ProjectComponentEntry
components_of none = []
components_of (some index) = index.components

unfoldable pub new_entry : UpsertComponentInput → ProjectComponentEntry
new_entry input = record {
  component = registry_component_name input.component;
  owner = component_owner input.project input.component;
  services = sort str_lt (set_from [] input.services);
  updated_at = input.now;
}

module _ (locale_before : String → String → Bool) where
  unfoldable pub upsert_component_entry : Option ProjectIndex → UpsertComponentInput → ProjectIndex
  upsert_component_entry index input =
      let name = registry_component_name input.component in
      let others = filter (λ c. not (is_component name c)) (components_of index) in
      record {
        version = project_index_version;
        project = input.project;
        components =
            sort (λ a b. locale_before a.component b.component) (others ++ new_entry input ∷ []);
        updated_at = input.now;
      }

unfoldable pub trimmed : ProjectIndex → String → List ProjectComponentEntry → Option ProjectIndex
trimmed index now [] = none
trimmed index now (c ∷ cs) = some (record {
  version = index.version;
  project = index.project;
  components = c ∷ cs;
  updated_at = now;
})

unfoldable pub remove_component_entry : ProjectIndex → Option String → String → Option ProjectIndex
remove_component_entry index component now =
    let name = registry_component_name component in
    trimmed index now (filter (λ c. not (is_component name c)) index.components)

-- The inner loop, over the declared services.
unfoldable pub conflicts_with : ProjectComponentEntry → List String → List ServiceConflict
conflicts_with entry [] = []
conflicts_with entry (s ∷ ss) =
    let rest = conflicts_with entry ss in
    if contains s entry.services
    then record { service = s; component = entry.component } ∷ rest
    else rest

unfoldable pub conflicts_from :
    String → List String → List ProjectComponentEntry → List ServiceConflict
conflicts_from name services [] = []
conflicts_from name services (entry ∷ entries) =
    let rest = conflicts_from name services entries in
    if is_component name entry then rest else conflicts_with entry services ++ rest

unfoldable pub find_cross_component_service_conflicts :
    Option ProjectIndex → Option String → List String → List ServiceConflict
find_cross_component_service_conflicts none component services = []
find_cross_component_service_conflicts (some index) component services =
    conflicts_from (registry_component_name component) services index.components
