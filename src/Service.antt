-- ===== src/Service.antt =====
-- The documents of packages/shared/src/desired.ts (with the pieces of health.ts, secrets.ts and
-- config.ts that they hold): what one node is asked to run.
use launch_pad.Prelude.{ℕ, String, Option, List, [], Dict}

pub record HealthCheck : Type 0 where
  pub path : String
  pub port : Option ℕ
  pub interval_ms : ℕ
  pub timeout_ms : ℕ
  pub healthy_threshold : ℕ

pub record Rollout : Type 0 where
  pub max_surge : ℕ
  pub drain_timeout : String
  pub stop_grace : String

pub record SecretRef : Type 0 where
  pub name : String
  pub ssm : String

pub record VolumeDecl : Type 0 where
  pub name : String
  pub path : String

pub data DatabaseEngine : Type 0 where
  postgres : DatabaseEngine

pub record ServiceDatabase : Type 0 where
  pub engine : DatabaseEngine
  pub version : String
  pub databases : List String

pub record ServiceBackupConfig : Type 0 where
  pub schedule : String
  pub retention_days : ℕ
  pub bucket : String
  pub prefix : String

pub record JobRunRequest : Type 0 where
  pub id : String
  pub requested_at : String

-- `null` is a background worker; `edge` is the node that fronts a web service.
pub record Ingress : Type 0 where
  pub domain : String
  pub port : ℕ
  pub edge : String

pub record ServiceConfig : Type 0 where
  pub project : String
  pub service : String
  pub image : String
  pub cpu : ℕ
  pub memory : ℕ
  pub replicas : ℕ
  pub env : Dict String
  pub secret_refs : List SecretRef
  pub restart_at : Option String
  pub cron : Option String
  pub ingress : Option Ingress
  pub health_check : Option HealthCheck
  pub rollout : Rollout
  pub volumes : List VolumeDecl
  pub database : Option ServiceDatabase
  pub backup : Option ServiceBackupConfig
  pub job_run : Option JobRunRequest

pub record DesiredState : Type 0 where
  pub version : ℕ
  pub node_id : String
  pub updated_at : String
  pub services : List ServiceConfig

abbrev pub protocol_version : ℕ
protocol_version = 3

abbrev pub empty_desired_state : String → String → DesiredState
empty_desired_state node_id now = record {
  version = protocol_version;
  node_id = node_id;
  updated_at = now;
  services = [];
}
