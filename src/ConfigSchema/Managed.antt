-- ===== src/ConfigSchema/Managed.antt =====
-- The service that a managed database's block stands for is accepted if the block is.
use launch_pad.ConfigSchema.Formats.{
  is_secret_key, is_postgres_version, is_logical_db_name, volume_path_error, absolute_path_error,
  is_between, is_led_by, is_duration, duration_match, leading_digits, after_digits, unit_ms,
}
use launch_pad.Prelude.{ok, ℕ, false, ◌&&◌, List, [], ◌∷◌, map, ◌≡◌, refl, arith, All}
use launch_pad.Config.{DatabaseDecl}
use launch_pad.Prelude.Text.{last_of, split_at}
use launch_pad.Cron.{UtcFields}
use launch_pad.ConfigSchema.Formats.{
  is_label, is_between, is_led_by, is_secret_key, is_duration, duration_match, leading_digits,
  after_digits, unit_ms, volume_path_error, absolute_path_error, is_postgres_version,
  is_logical_db_name,
}
use launch_pad.Prelude.Text.{last_of, split_at}
use launch_pad.ConfigSchema.Issues.{joined, each_from}
use launch_pad.ConfigSchema.Services.{
  rollout_issues, volume_issues, volume_path_issues, repeated_volumes,
}
use launch_pad.ConfigSchema.Issues.{
  field, issue_if, issue_unless, under, each, if_given, matches, at_least, each_from,
}
use launch_pad.ConfigSchema.Issues.Silence.{
  silent-append, silent-under, joined-silent, silent-joined,
}
use launch_pad.ConfigSchema.Services.{
  is_given, service_has_ingress, service_fields, service_rules, service_issues, managed_issues,
  ingress_issues, database_issues, backup_issues, service_database_issues, repeated_volumes,
  rollout_issues, volume_issues, volume_path_issues,
}
use launch_pad.ConfigSchema.{
  if_accepted, parse_service, database_service, database_services, is_label, joined,
}

fixed_fields :
    (at_least 1 1 ≡ [])
    × (each (matches is_secret_key) ("POSTGRES_PASSWORD" ∷ []) ≡ [])
    × (rollout_issues (record { max_surge = 1; drain_timeout = "20s"; stop_grace = "30s" }) ≡ [])
    × (each volume_issues (record { name = "data"; path = "/var/lib/postgresql/data" } ∷ []) ≡ [])
unfolding at_least issue_unless each each_from matches is_secret_key rollout_issues joined
    volume_issues volume_path_issues volume_path_error absolute_path_error is_label is_between
    is_led_by is_duration duration_match leading_digits after_digits unit_ms last_of split_at
fixed_fields = (refl, refl, refl, refl)

database_silent :
    (db : DatabaseDecl)
    → under (field "version") (matches is_postgres_version db.version) ≡ []
    → under (field "databases") (each (matches is_logical_db_name) db.databases) ≡ []
    → service_database_issues
        (record { engine = db.engine; version = db.version; databases = db.databases })
      ≡ []
unfolding service_database_issues
database_silent db version databases = silent-append version databases

database_service_fields :
    (db : DatabaseDecl)
    → under (field "name") (matches is_label db.name) ≡ []
    → under (field "cpu") (at_least 1 db.cpu) ≡ []
    → under (field "memory") (at_least 1 db.memory) ≡ []
    → service_database_issues
        (record { engine = db.engine; version = db.version; databases = db.databases })
      ≡ []
    → under (field "backup") (if_given backup_issues db.backup) ≡ []
    → service_fields (database_service db) ≡ []
unfolding service_fields database_service if_given
database_service_fields db name cpu memory database backup =
    let (one, secrets, rollout, volumes) = fixed_fields in
    silent-joined _ (
      name,
      (
        silent-under _ one,
        (
          cpu,
          (
            memory,
            (
              silent-under _ secrets,
              (
                refl,
                (
                  refl,
                  (
                    refl,
                    (
                      refl,
                      (
                        silent-under _ rollout,
                        (silent-under _ volumes, (silent-under _ database, (backup, tt))),
                      ),
                    ),
                  ),
                ),
              ),
            ),
          ),
        ),
      ),
    )

module _ (utc : ℕ → UtcFields) (now : ℕ) where
  database_service_rules : (db : DatabaseDecl) → service_rules utc now (database_service db) ≡ []
  unfolding service_rules database_service managed_issues ingress_issues repeated_volumes joined
      issue_if if_given service_has_ingress
  database_service_rules db =
      let unmanaged : (is_given db.backup && false) ≡ false = ground arith in rw unmanaged refl

  -- A managed database's service has no issue if its block has none.
  pub database_service-silent :
      (db : DatabaseDecl)
      → database_issues utc now db ≡ []
      → service_issues utc now (database_service db) ≡ []
  unfolding service_issues database_issues
  database_service-silent db h =
      let (name, (version, (_, (cpu, (memory, (databases, (backup, _))))))) = joined-silent _ h in
      silent-append
        (database_service_fields db name cpu memory (database_silent db version databases) backup)
        (database_service_rules db)

  pub database_services-eq :
      (dbs : List DatabaseDecl)
      → All (λ db. database_issues utc now db ≡ []) dbs
      → database_services utc now dbs ≡ ok (map database_service dbs)
  unfolding database_services parse_service if_accepted
  database_services-eq [] _ = refl
  database_services-eq (db ∷ dbs) (h, hs) =
      rw (database_service-silent db h, database_services-eq dbs hs) refl
