-- ===== src/Config.antt =====
-- packages/shared/src/config.ts: launch-pad.toml with its defaults, the owner strings and the
-- container environment and secret paths (packages/shared/src/secrets.ts) that derive from them.
use Prim.Native.String.{◌++◌ as ◌^^◌}
use launch_pad.Prelude.{ℕ, String, Option, none, some, List, [], ◌∷◌, Dict, put, map}
use launch_pad.Service.{
  SecretRef, HealthCheck, Rollout, VolumeDecl, DatabaseEngine, ServiceDatabase,
}

pub record BackupDecl : Type 0 where
  pub schedule : String
  pub retention_days : ℕ

pub record ServiceDecl : Type 0 where
  pub name : String
  pub cron : Option String
  pub dockerfile : String
  pub context : String
  pub replicas : ℕ
  pub cpu : ℕ
  pub memory : ℕ
  pub env : Dict String
  pub secrets : List String
  pub domain : Option String
  pub domain_pattern : Option String
  pub port : Option ℕ
  pub health_check : Option HealthCheck
  pub rollout : Rollout
  pub volumes : List VolumeDecl
  pub database : Option ServiceDatabase
  pub backup : Option BackupDecl

pub record DatabaseDecl : Type 0 where
  pub name : String
  pub engine : DatabaseEngine
  pub version : String
  pub storage : Option String
  pub cpu : ℕ
  pub memory : ℕ
  pub databases : List String
  pub backup : Option BackupDecl

pub record JobDecl : Type 0 where
  pub name : String
  pub dockerfile : String
  pub context : String
  pub cpu : ℕ
  pub memory : ℕ
  pub env : Dict String
  pub secrets : List String

pub record LaunchPadConfig : Type 0 where
  pub project : String
  pub component : Option String
  pub domain_pattern : Option String
  pub service : List ServiceDecl
  pub database : Option (List DatabaseDecl)
  pub job : Option (List JobDecl)

abbrev pub launch_pad_environment : String
launch_pad_environment = "LAUNCH_PAD_ENVIRONMENT"

unfoldable pub env_project : String → Option String → String
env_project project none = project
env_project project (some env) = project ^^ "-" ^^ env

unfoldable pub component_owner : String → Option String → String
component_owner project none = project
component_owner project (some component) = project ^^ "--" ^^ component

unfoldable pub footprint_owner : LaunchPadConfig → Option String → String
footprint_owner config env = env_project (component_owner config.project config.component) env

-- `{ ...base, ...fields }`
unfoldable pub spread : Dict String → Dict String → Dict String
spread base [] = base
spread base ((k, v) ∷ fields) = spread (put k v base) fields

unfoldable pub container_env_for_deploy : Dict String → Option String → Dict String
container_env_for_deploy declared none = declared
container_env_for_deploy declared (some env) = spread ((launch_pad_environment, env) ∷ []) declared

-- Of an owner's service in a cluster.
unfoldable pub secret_parameter_prefix : String → String → String → String
secret_parameter_prefix cluster_id owner_project service =
    "/launch-pad/" ^^ cluster_id ^^ "/" ^^ owner_project ^^ "/" ^^ service

unfoldable pub secret_parameter_path : String → String → String → String → String
secret_parameter_path cluster_id owner_project service key =
    secret_parameter_prefix cluster_id owner_project service ^^ "/" ^^ key

unfoldable pub secret_refs_for_service : List String → String → String → String → List SecretRef
secret_refs_for_service secrets cluster_id owner_project service =
    map
      (λ name. record {
        name = name;
        ssm = secret_parameter_path cluster_id owner_project service name;
      })
      secrets

-- packages/shared/src/s3-keys.ts
unfoldable pub backups_bucket_name : String → String → String
backups_bucket_name account_id region = "launch-pad-backups-" ^^ account_id ^^ "-" ^^ region

unfoldable pub backup_service_prefix : String → String → String → String
backup_service_prefix cluster_id owner_project service =
    cluster_id ^^ "/" ^^ owner_project ^^ "/" ^^ service ^^ "/"
