-- ===== src/ConfigLock.antt =====
-- packages/shared/src/config-lock.ts: the frozen snapshot of a config and what may differ from it.
-- `localeCompare` and `JSON.stringify` are parameters; what the latter writes is a type with a
-- decidable equality. Deployed footprints are in Footprint.antt.
-- A service's `domain` is not compared, though docs/configuration.md calls it locked.
pub mod StableJson
pub mod Fields
pub mod Identity
pub mod Allowed
pub mod ByName
use mathlib.Core.Option
use launch_pad.Prelude.{
  ℕ, String, Bool, true, false, Option, none, some, List, [], ◌∷◌, ◌++◌, Dict, get, put, keys,
  contains, str_eq, map, if◌then◌else◌,
}
use launch_pad.Prelude.Sort.{sort}
use launch_pad.Service.{HealthCheck, Rollout, VolumeDecl, DatabaseEngine, ServiceDatabase, Ingress}
use launch_pad.Config.{ServiceDecl, LaunchPadConfig}
use launch_pad.ConfigLock.StableJson.{
  Scalar, Json, text, number, value, object, objects, present, stable_fields,
}

pub data ServiceSchedule : Type 0 where
  even capacity : ServiceSchedule

pub data ServiceTopology : Type 0 where
  split co_located auto : ServiceTopology

-- `{ engine, version }`
pub record BaselineDatabase : Type 0 where
  pub engine : DatabaseEngine
  pub version : String

pub record BaselineService : Type 0 where
  pub name : String
  pub node : Option String
  pub nodes : Option (List String)
  pub edge : Option String
  pub cron : Option String
  pub schedule : Option ServiceSchedule
  pub topology : Option ServiceTopology
  pub dockerfile : String
  pub context : String
  pub replicas : ℕ
  pub cpu : ℕ
  pub memory : ℕ
  pub env : Dict String
  pub domain : Option String
  pub domain_pattern : Option String
  pub port : Option ℕ
  pub health_check : Option HealthCheck
  pub rollout : Rollout
  pub secrets : List String
  pub volumes : List VolumeDecl
  pub database : Option BaselineDatabase

pub record ConfigBaseline : Type 0 where
  pub project : String
  pub component : Option String
  pub domain_pattern : Option String
  pub services : List BaselineService
  pub locked_at : String

-- `{ ...decl.healthCheck, port: decl.healthCheck.port ?? decl.port }`
unfoldable pub resolved_health_check : Option HealthCheck → Option ℕ → Option HealthCheck
resolved_health_check none port = none
resolved_health_check (some h) port = some (record {
  path = h.path;
  port = elim h.port [ none ↦ port | some p ↦ some p ];
  interval_ms = h.interval_ms;
  timeout_ms = h.timeout_ms;
  healthy_threshold = h.healthy_threshold;
})

unfoldable pub database_identity : Option ServiceDatabase → Option BaselineDatabase
database_identity d = Option.map (λ d. record { engine = d.engine; version = d.version }) d

unfoldable pub service_snapshot : ServiceDecl → BaselineService
service_snapshot decl = record {
  name = decl.name;
  node = none;
  nodes = none;
  edge = none;
  cron = decl.cron;
  schedule = none;
  topology = none;
  dockerfile = decl.dockerfile;
  context = decl.context;
  replicas = decl.replicas;
  cpu = decl.cpu;
  memory = decl.memory;
  env = decl.env;
  domain = decl.domain;
  domain_pattern = decl.domain_pattern;
  port = decl.port;
  health_check = resolved_health_check decl.health_check decl.port;
  rollout = decl.rollout;
  secrets = decl.secrets;
  volumes = decl.volumes;
  database = database_identity decl.database;
}

pub record DeployedFootprint : Type 0 where
  pub service : String
  pub node_ids : List String
  pub replicas : ℕ
  pub cpu : ℕ
  pub memory : ℕ
  pub env : Dict String
  pub ingress : Option Ingress
  pub health_check : Option HealthCheck
  pub rollout : Rollout
  pub secrets : List String
  pub volumes : List VolumeDecl
  pub cron : Option String
  pub database : Option ServiceDatabase

pub record ConfigLockCompareOptions : Type 0 where
  pub baseline_from_desired : Bool
  pub allow_new_services : Bool

abbrev pub volume_fields : VolumeDecl → Dict (Option Scalar)
volume_fields v = ("name", some (text v.name)) ∷ ("path", some (text v.path)) ∷ []

abbrev pub health_fields : HealthCheck → Dict (Option Scalar)
health_fields h =
    ("path", some (text h.path))
    ∷ ("port", Option.map number h.port)
    ∷ ("intervalMs", some (number h.interval_ms))
    ∷ ("timeoutMs", some (number h.timeout_ms))
    ∷ ("healthyThreshold", some (number h.healthy_threshold))
    ∷ []

abbrev pub rollout_fields : Rollout → Dict (Option Scalar)
rollout_fields r =
    ("maxSurge", some (number r.max_surge))
    ∷ ("drainTimeout", some (text r.drain_timeout))
    ∷ ("stopGrace", some (text r.stop_grace))
    ∷ []

abbrev engine_text : DatabaseEngine → String
engine_text DatabaseEngine.postgres = "postgres"

abbrev pub database_fields : BaselineDatabase → Dict (Option Scalar)
database_fields d =
    ("engine", some (text (engine_text d.engine))) ∷ ("version", some (text d.version)) ∷ []

-- The fields that are locked: all but cpu, memory, secrets, replicas, env, domain, domainPattern,
-- the legacy ones, and what desired.json does not carry where the baseline comes from there.
abbrev pub locked_fields : Bool → BaselineService → Dict (Option Json)
locked_fields from_desired s =
    ("name", some (value (text s.name)))
    ∷ ("cron", Option.map (λ c. value (text c)) s.cron)
    ∷ ("dockerfile", if from_desired then none else some (value (text s.dockerfile)))
    ∷ ("context", if from_desired then none else some (value (text s.context)))
    ∷ ("port", Option.map (λ p. value (number p)) s.port)
    ∷ ("healthCheck", Option.map (λ h. object (present (health_fields h))) s.health_check)
    ∷ ("rollout", some (object (present (rollout_fields s.rollout))))
    ∷ ("volumes", some (objects (map (λ v. present (volume_fields v)) s.volumes)))
    ∷ ("database", Option.map (λ d. object (present (database_fields d))) s.database)
    ∷ []

unfoldable pub locked_service_view : Bool → BaselineService → Dict Json
locked_service_view from_desired s = present (locked_fields from_desired s)

-- `new Map(services.map((s) => [s.name, s]))`
unfoldable pub by_name_from : Dict BaselineService → List BaselineService → Dict BaselineService
by_name_from m [] = m
by_name_from m (s ∷ ss) = by_name_from (put s.name s m) ss

unfoldable pub by_name : List BaselineService → Dict BaselineService
by_name ss = by_name_from [] ss

-- The paths and messages of the violations.
pub data ConfigLockViolation : Type 0 where
  project_changed : (before now : String) → ConfigLockViolation
  component_changed : (before now : Option String) → ConfigLockViolation
  service_removed service_added locked_fields_changed : (name : String) → ConfigLockViolation

pub record ServiceChangeOutcome : Type 0 where
  pub service : String
  pub identity_changed : Bool

unfoldable pub removed_services :
    Dict BaselineService → Dict BaselineService → List ConfigLockViolation
removed_services [] cur_by_name = []
removed_services ((name, _) ∷ rest) cur_by_name =
    let more = removed_services rest cur_by_name in
    if contains name (keys cur_by_name) then more else service_removed name ∷ more

unfoldable pub added_services :
    Bool → Dict BaselineService → Dict BaselineService → List ConfigLockViolation
added_services allow_new_services [] base_by_name = []
added_services allow_new_services ((name, _) ∷ rest) base_by_name =
    let more = added_services allow_new_services rest base_by_name in
    if contains name (keys base_by_name)
    then more
    else if allow_new_services
    then more
    else service_added name ∷ more

abbrev pub same_component : Option String → Option String → Bool
same_component none none = true
same_component (some a) (some b) = str_eq a b
same_component _ _ = false

unfoldable pub project_violations : ConfigBaseline → ConfigBaseline → List ConfigLockViolation
project_violations baseline current =
    if str_eq baseline.project current.project
    then []
    else project_changed baseline.project current.project ∷ []

unfoldable pub component_violations : ConfigBaseline → ConfigBaseline → List ConfigLockViolation
component_violations baseline current =
    if same_component baseline.component current.component
    then []
    else component_changed baseline.component current.component ∷ []

unfoldable pub changed_services : List ServiceChangeOutcome → List ConfigLockViolation
changed_services [] = []
changed_services (o ∷ os) =
    let more = changed_services os in
    if o.identity_changed then locked_fields_changed o.service ∷ more else more

module _ (locale_before : String → String → Bool) where
  unfoldable pub snapshot_config_baseline : LaunchPadConfig → String → ConfigBaseline
  snapshot_config_baseline config locked_at = record {
    project = config.project;
    component = config.component;
    domain_pattern = config.domain_pattern;
    services = sort (λ a b. locale_before a.name b.name) (map service_snapshot config.service);
    locked_at = locked_at;
  }

  module _ {Written : Type 0} (stringify : Dict Json → Written) (same : Discrete Written) where
    unfoldable pub stable_json : Dict Json → Written
    stable_json fields = stringify (stable_fields locale_before fields)

    unfoldable pub identity_changed : Bool → BaselineService → BaselineService → Bool
    identity_changed from_desired base cur =
        elim (same (stable_json (locked_service_view from_desired base))
          (stable_json (locked_service_view from_desired cur))) [ yes _ ↦ false | no _ ↦ true ]

    unfoldable pub outcomes_of :
        Bool → Dict BaselineService → Dict BaselineService → List ServiceChangeOutcome
    outcomes_of from_desired [] cur_by_name = []
    outcomes_of from_desired ((name, base) ∷ rest) cur_by_name =
        let more = outcomes_of from_desired rest cur_by_name in
        elim (get name cur_by_name) [
          | none ↦ more
          | some cur ↦
              record { service = name; identity_changed = identity_changed from_desired base cur }
              ∷ more
        ]

    unfoldable pub find_config_lock_violations :
        ConfigBaseline → ConfigBaseline → ConfigLockCompareOptions → List ConfigLockViolation
    find_config_lock_violations baseline current opts =
        let base_by_name = by_name baseline.services in
        let cur_by_name = by_name current.services in
        project_violations baseline current
        ++ component_violations baseline current
        ++ removed_services base_by_name cur_by_name
        ++ added_services opts.allow_new_services cur_by_name base_by_name
        ++ changed_services (outcomes_of opts.baseline_from_desired base_by_name cur_by_name)
