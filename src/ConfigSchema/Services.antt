-- ===== src/ConfigSchema/Services.antt =====
-- `ServiceDeclSchema`, `DatabaseDeclSchema` and `JobDeclSchema` of packages/shared/src/config.ts, with
-- the schemas of health.ts, on declarations that have their defaults.
use launch_pad.Prelude.{
  Result, ok, err, ◌==◌, ltb, ℕ, suc, String, Bool, true, false, not, ◌&&◌, ◌||◌, Option, none,
  some, List, [], ◌∷◌, ◌++◌, if◌then◌else◌, contains, add, length,
}
use launch_pad.Service.{HealthCheck, Rollout, VolumeDecl, ServiceDatabase}
use launch_pad.Config.{BackupDecl, ServiceDecl, DatabaseDecl, JobDecl}
use launch_pad.Prelude.Text.{codes, starts_with, is_empty_text}
use launch_pad.Cron.{UtcFields, CronSchedule, CronError, parse_cron_expression, next_cron_fire}
use launch_pad.ConfigSchema.Formats.{
  VolumePathError, is_label, is_hostname, is_postgres_version, is_logical_db_name, is_secret_key,
  is_duration, volume_path_error,
}
use launch_pad.ConfigSchema.DomainPattern.{PatternError, domain_pattern_error}
use launch_pad.ConfigSchema.Issues.{
  Key, field, index, bad_volume_path, bad_domain_pattern, bad_cron, never_fires, serves_and_manages,
  no_database_volume, backup_without_database, domain_without_port, pattern_without_domain,
  cron_with_domain, cron_with_health_check, cron_with_replicas, web_without_health_check,
  duplicate_volume_name, duplicate_volume_path, Issue, joined, add_issue, issue_if, under, each,
  if_given, matches, at_least, in_range, too_small,
}

abbrev pub is_given {ℓ} : {A : Type ℓ} → Option A → Bool
is_given none = false
is_given (some _) = true

unfoldable pub health_check_issues : HealthCheck → List Issue
health_check_issues h = joined (
    under (field "path") (matches (starts_with (codes "/")) h.path)
    ∷ under (field "port") (if_given (in_range 1 65535) h.port)
    ∷ under (field "intervalMs") (at_least 1 h.interval_ms)
    ∷ under (field "timeoutMs") (at_least 1 h.timeout_ms)
    ∷ under (field "healthyThreshold") (at_least 1 h.healthy_threshold)
    ∷ [])

unfoldable pub rollout_issues : Rollout → List Issue
rollout_issues r = joined (
    under (field "maxSurge") (at_least 1 r.max_surge)
    ∷ under (field "drainTimeout") (matches is_duration r.drain_timeout)
    ∷ under (field "stopGrace") (matches is_duration r.stop_grace)
    ∷ [])

unfoldable pub volume_path_issues : Option VolumePathError → List Issue
volume_path_issues none = []
volume_path_issues (some e) = add_issue [] (bad_volume_path e)

unfoldable pub volume_issues : VolumeDecl → List Issue
volume_issues v =
    under (field "name") (matches is_label v.name)
    ++ under (field "path") (volume_path_issues (volume_path_error (codes v.path)))

unfoldable pub service_database_issues : ServiceDatabase → List Issue
service_database_issues d =
    under (field "version") (matches is_postgres_version d.version)
    ++ under (field "databases") (each (matches is_logical_db_name) d.databases)

unfoldable pub backup_issues : BackupDecl → List Issue
backup_issues b = under (field "retentionDays") (in_range 1 3650 b.retention_days)

-- Two issues of a volume that repeats an earlier one's name or path.
unfoldable pub repeated_volumes : ℕ → List String → List String → List VolumeDecl → List Issue
repeated_volumes i names paths [] = []
repeated_volumes i names paths (v ∷ vs) =
    let rest = repeated_volumes (suc i) (add v.name names) (add v.path paths) vs in
    issue_if (contains v.name names) (field "volumes" ∷ index i ∷ field "name" ∷ [])
      (duplicate_volume_name v.name)
    ++ issue_if (contains v.path paths) (field "volumes" ∷ index i ∷ field "path" ∷ [])
        (duplicate_volume_path v.path)
    ++ rest

unfoldable pub never_issues : List Key → Option ℕ → List Issue
never_issues path none = add_issue path never_fires
never_issues path (some _) = []

unfoldable pub pattern_issues : List Key → Option PatternError → List Issue
pattern_issues path none = []
pattern_issues path (some e) = add_issue path (bad_domain_pattern e)

unfoldable pub service_has_ingress : ServiceDecl → Bool
service_has_ingress s = is_given s.domain && is_given s.port

unfoldable pub service_fields : ServiceDecl → List Issue
service_fields s = joined (
    under (field "name") (matches is_label s.name)
    ∷ under (field "replicas") (at_least 1 s.replicas)
    ∷ under (field "cpu") (at_least 1 s.cpu)
    ∷ under (field "memory") (at_least 1 s.memory)
    ∷ under (field "secrets") (each (matches is_secret_key) s.secrets)
    ∷ under (field "domain") (if_given (matches is_hostname) s.domain)
    ∷ under (field "domainPattern")
        (if_given (λ p. issue_if (is_empty_text (codes p)) [] too_small) s.domain_pattern)
    ∷ under (field "port") (if_given (in_range 1 65535) s.port)
    ∷ under (field "healthCheck") (if_given health_check_issues s.health_check)
    ∷ under (field "rollout") (rollout_issues s.rollout)
    ∷ under (field "volumes") (each volume_issues s.volumes)
    ∷ under (field "database") (if_given service_database_issues s.database)
    ∷ under (field "backup") (if_given backup_issues s.backup)
    ∷ [])

unfoldable pub managed_issues : ServiceDecl → List Issue
managed_issues s = joined (
    issue_if (is_given s.database && (service_has_ingress s || is_given s.cron))
      (field "database" ∷ []) serves_and_manages
    ∷ issue_if (is_given s.database && length s.volumes == 0) (field "volumes" ∷ [])
        no_database_volume
    ∷ issue_if (is_given s.backup && not (is_given s.database)) (field "backup" ∷ [])
        backup_without_database
    ∷ [])

unfoldable pub ingress_issues : ServiceDecl → List Issue
ingress_issues s =
    issue_if
      (is_given s.domain && not (is_given s.port) || not (is_given s.domain) && is_given s.port)
      (field "domain" ∷ []) domain_without_port
    ++ if_given
        (λ p.
          if service_has_ingress s
          then pattern_issues (field "domainPattern" ∷ []) (domain_pattern_error (codes p))
          else add_issue (field "domainPattern" ∷ []) pattern_without_domain)
        s.domain_pattern

module _ (utc : ℕ → UtcFields) (now : ℕ) where
  -- An expression that parses must fire within a year from now.
  unfoldable pub schedule_issues : List Key → Result CronError CronSchedule → List Issue
  schedule_issues path (err e) = add_issue path (bad_cron e)
  schedule_issues path (ok schedule) = never_issues path (next_cron_fire utc schedule now)

  unfoldable pub cron_issues : List Key → String → List Issue
  cron_issues path expr = schedule_issues path (parse_cron_expression (codes expr))

  unfoldable pub scheduled_issues : ServiceDecl → String → List Issue
  scheduled_issues s expr = joined (
      cron_issues (field "cron" ∷ []) expr
      ∷ issue_if (service_has_ingress s) (field "cron" ∷ []) cron_with_domain
      ∷ issue_if (is_given s.health_check) (field "healthCheck" ∷ []) cron_with_health_check
      ∷ issue_if (ltb 1 s.replicas) (field "replicas" ∷ []) cron_with_replicas
      ∷ [])

  -- The `superRefine` of a service.
  unfoldable pub service_rules : ServiceDecl → List Issue
  service_rules s = joined (
      managed_issues s
      ∷ ingress_issues s
      ∷ if_given (scheduled_issues s) s.cron
      ∷ issue_if (service_has_ingress s && not (is_given s.health_check)) (field "healthCheck" ∷ [])
          web_without_health_check
      ∷ repeated_volumes 0 [] [] s.volumes
      ∷ [])

  unfoldable pub service_issues : ServiceDecl → List Issue
  service_issues s = service_fields s ++ service_rules s

  unfoldable pub database_issues : DatabaseDecl → List Issue
  database_issues db = joined (
      under (field "name") (matches is_label db.name)
      ∷ under (field "version") (matches is_postgres_version db.version)
      ∷ under (field "storage")
          (if_given (λ s. issue_if (is_empty_text (codes s)) [] too_small) db.storage)
      ∷ under (field "cpu") (at_least 1 db.cpu)
      ∷ under (field "memory") (at_least 1 db.memory)
      ∷ under (field "databases") (each (matches is_logical_db_name) db.databases)
      ∷ under (field "backup") (if_given backup_issues db.backup)
      ∷ if_given (λ b. cron_issues (field "backup" ∷ field "schedule" ∷ []) b.schedule) db.backup
      ∷ [])

unfoldable pub job_issues : JobDecl → List Issue
job_issues j = joined (
    under (field "name") (matches is_label j.name)
    ∷ under (field "cpu") (at_least 1 j.cpu)
    ∷ under (field "memory") (at_least 1 j.memory)
    ∷ under (field "secrets") (each (matches is_secret_key) j.secrets)
    ∷ [])
