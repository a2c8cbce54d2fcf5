-- ===== src/Deploy.antt =====
-- packages/cli/src/commands/deploy.ts: `toServiceConfig`, and the config-lock gate of a deploy
-- (`loadLockBaseline`, `resolveConfigLockOutcome`) on what it reads from S3.
pub mod Made
pub mod RoundTrip
use mathlib.Core.Option
use launch_pad.Prelude.{
  ℕ, String, Bool, true, false, Option, none, some, List, [], ◌∷◌, Dict, map, if◌then◌else◌, Result,
  ok, err,
}
use launch_pad.Service.{ServiceConfig, Ingress, ServiceBackupConfig}
use launch_pad.Undeploy.{NodeServices}
use launch_pad.Config.{
  ServiceDecl, LaunchPadConfig, BackupDecl, container_env_for_deploy, secret_refs_for_service,
  backups_bucket_name, backup_service_prefix,
}
use launch_pad.ConfigLock.{
  ConfigBaseline, ConfigLockViolation, resolved_health_check, snapshot_config_baseline,
  find_config_lock_violations,
}
use launch_pad.ConfigLock.StableJson.{Json}
use launch_pad.Footprint.{build_placement_snapshot, baseline_from_deployed_footprints}

-- The parts of the AWS environment that a service config depends on.
pub record AwsEnv : Type 0 where
  pub cluster_id : String
  pub region : String
  pub account_id : String

pub record Built : Type 0 where
  pub decl : ServiceDecl
  pub image : String
  pub domain : Option String

pub data DeployError : Type 0 where
  no_edge : (service : String) → DeployError

unfoldable pub service_backup : AwsEnv → String → String → BackupDecl → ServiceBackupConfig
service_backup aws project service b = record {
  schedule = b.schedule;
  retention_days = b.retention_days;
  bucket = backups_bucket_name aws.account_id aws.region;
  prefix = backup_service_prefix aws.cluster_id project service;
}

-- A web service has a domain and a port, and must be routed through an edge.
unfoldable pub ingress_of :
    String → Option String → Option ℕ → Option String → Result DeployError (Option Ingress)
ingress_of name none port resolved_edge = ok none
ingress_of name (some domain) none resolved_edge = ok none
ingress_of name (some domain) (some port) none = err (no_edge name)
ingress_of name (some domain) (some port) (some edge) =
    ok (some (record { domain = domain; port = port; edge = edge }))

unfoldable pub config_with_ingress :
    AwsEnv → String → Built → ℕ → Option String → Option String → Option Ingress → ServiceConfig
config_with_ingress aws project b replicas env restart_at ingress = record {
  project = project;
  service = b.decl.name;
  image = b.image;
  cpu = b.decl.cpu;
  memory = b.decl.memory;
  replicas = replicas;
  env = container_env_for_deploy b.decl.env env;
  secret_refs = secret_refs_for_service b.decl.secrets aws.cluster_id project b.decl.name;
  restart_at = restart_at;
  cron = b.decl.cron;
  ingress = ingress;
  health_check = resolved_health_check b.decl.health_check b.decl.port;
  rollout = b.decl.rollout;
  volumes = b.decl.volumes;
  database = b.decl.database;
  backup = elim b.decl.database [
    | none ↦ none
    | some _ ↦ Option.map (service_backup aws project b.decl.name) b.decl.backup
  ];
  job_run = none;
}

-- `restart_at` is the time of the deploy where `restart` is set.
unfoldable pub to_service_config :
    AwsEnv
    → String
    → Built
    → ℕ
    → Option String
    → Option String
    → Option String
    → Result DeployError ServiceConfig
to_service_config aws project b replicas resolved_edge env restart_at =
    elim (ingress_of b.decl.name b.domain b.decl.port resolved_edge) [
      | err e ↦ err e
      | ok ingress ↦ ok (config_with_ingress aws project b replicas env restart_at ingress)
    ]

-- What a deploy finds of an earlier one: the object at the baseline's key, parsed or not.
pub data BaselineFile : Type 0 where
  absent unreadable malformed : BaselineFile
  parsed : ConfigBaseline → BaselineFile

pub data LockError : Type 0 where
  baseline_unread state_unread baseline_corrupt : LockError
  locked : List ConfigLockViolation → LockError

pub record LockBaseline : Type 0 where
  pub baseline : ConfigBaseline
  pub from_desired : Bool

pub data ConfigLockOutcome : Type 0 where
  first_deploy clean : ConfigLockOutcome

module _ (locale_before : String → String → Bool) where
  -- `states` is what the nodes' desired.json files say, or none where they cannot be listed or read.
  unfoldable pub from_published_state :
      LaunchPadConfig
      → String
      → Bool
      → Option (List NodeServices)
      → String
      → Result LockError (Option LockBaseline)
  from_published_state config owner_project had_file none now = err state_unread
  from_published_state config owner_project had_file (some states) now =
      elim (build_placement_snapshot locale_before states owner_project).footprints [
        | [] ↦ if had_file then err baseline_corrupt else ok none
        | f ∷ fs ↦ ok (
            some (record {
              baseline =
                  baseline_from_deployed_footprints locale_before config.project config.component
                    (f ∷ fs) now;
              from_desired = true;
            }))
      ]

  unfoldable pub load_lock_baseline :
      LaunchPadConfig
      → String
      → BaselineFile
      → Option (List NodeServices)
      → String
      → Result LockError (Option LockBaseline)
  load_lock_baseline config owner_project unreadable states now = err baseline_unread
  load_lock_baseline config owner_project (parsed baseline) states now =
      ok (some (record { baseline = baseline; from_desired = false }))
  load_lock_baseline config owner_project malformed states now =
      from_published_state config owner_project true states now
  load_lock_baseline config owner_project absent states now =
      from_published_state config owner_project false states now

  module _ {Written : Type 0} (stringify : Dict Json → Written) (same : Discrete Written) where
    unfoldable pub lock_outcome :
        LaunchPadConfig
        → Bool
        → String
        → Result LockError (Option LockBaseline)
        → Result LockError ConfigLockOutcome
    lock_outcome config allow_new_services now (err e) = err e
    lock_outcome config allow_new_services now (ok none) = ok first_deploy
    lock_outcome config allow_new_services now (ok (some deployed)) =
        elim (find_config_lock_violations locale_before stringify same deployed.baseline
          (snapshot_config_baseline locale_before config now)
          (record {
            baseline_from_desired = deployed.from_desired;
            allow_new_services = allow_new_services;
          })) [ [] ↦ ok clean | v ∷ vs ↦ err (locked (v ∷ vs)) ]

    unfoldable pub resolve_config_lock_outcome :
        LaunchPadConfig
        → String
        → Bool
        → BaselineFile
        → Option (List NodeServices)
        → String
        → Result LockError ConfigLockOutcome
    resolve_config_lock_outcome config owner_project allow_new_services file states now =
        lock_outcome config allow_new_services now
          (load_lock_baseline config owner_project file states now)
