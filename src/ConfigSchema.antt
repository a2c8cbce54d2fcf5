-- ===== src/ConfigSchema.antt =====
-- packages/shared/src/config.ts: `LaunchPadConfigSchema` on a config that has its defaults, the keys
-- that a raw document may have (Keys), and the desugaring of managed databases. A failed parse is the
-- list of its issues.
pub mod Formats
pub mod DomainPattern
pub mod Issues
pub mod NewNames
pub mod Managed
pub mod Accepted
pub mod Keys
pub mod Services
use launch_pad.Prelude.{
  Result, ok, err, ◌>>=◌, ◌==◌, ℕ, suc, String, Bool, Option, none, some, List, [], ◌∷◌, ◌++◌, map,
  contains, add, length,
}
use Prim.Native.String.{◌++◌ as ◌^^◌}
use launch_pad.Service.{DatabaseEngine, postgres}
use launch_pad.Config.{ServiceDecl, DatabaseDecl, LaunchPadConfig}
use launch_pad.Prelude.Text.{codes, includes, is_empty_text}
use launch_pad.Cron.{UtcFields}
use launch_pad.ConfigSchema.Formats.{is_label}
use launch_pad.ConfigSchema.DomainPattern.{domain_pattern_error}
use launch_pad.ConfigSchema.Issues.{
  field, index, IssueKind, too_small, separator_inside, duplicate_service, colliding_database,
  colliding_job, Issue, joined, issue_if, under, each, if_given, matches,
}
use launch_pad.ConfigSchema.Services.{
  is_given, service_has_ingress, pattern_issues, service_issues, database_issues, job_issues,
}

-- `?? []`
abbrev pub listed {ℓ} : {A : Type ℓ} → Option (List A) → List A
listed none = []
listed (some xs) = xs

-- The loops over the names of a kind of block, and what `seen` holds after them.
unfoldable pub repeated_names :
    String → (String → IssueKind) → ℕ → List String → List String → List Issue
repeated_names block kind i seen [] = []
repeated_names block kind i seen (n ∷ ns) =
    let rest = repeated_names block kind (suc i) (add n seen) ns in
    issue_if (contains n seen) (field block ∷ index i ∷ field "name" ∷ []) (kind n) ++ rest

unfoldable pub seen_after : List String → List String → List String
seen_after seen [] = seen
seen_after seen (n ∷ ns) = seen_after (add n seen) ns

abbrev pub service_names : LaunchPadConfig → List String
service_names config = map (λ s. s.name) config.service

unfoldable pub database_service_names : LaunchPadConfig → List String
database_service_names config = map (λ db. db.name) (listed config.database)

abbrev job_names : LaunchPadConfig → List String
job_names config = map (λ j. j.name) (listed config.job)

unfoldable pub name_issues : LaunchPadConfig → List Issue
name_issues config =
    let services = seen_after [] (service_names config) in
    let databases = seen_after services (database_service_names config) in
    joined (
      repeated_names "service" duplicate_service 0 [] (service_names config)
      ∷ repeated_names "database" colliding_database 0 services (database_service_names config)
      ∷ repeated_names "job" colliding_job 0 databases (job_names config)
      ∷ [])

-- The `superRefine` of the document.
unfoldable pub config_rules : LaunchPadConfig → List Issue
config_rules config = joined (
    if_given (λ p. pattern_issues (field "domainPattern" ∷ []) (domain_pattern_error (codes p)))
      config.domain_pattern
    ∷ issue_if (includes (codes "--") (codes config.project)) (field "project" ∷ [])
        separator_inside
    ∷ if_given
        (λ c. issue_if (includes (codes "--") (codes c)) (field "component" ∷ []) separator_inside)
        config.component
    ∷ name_issues config
    ∷ [])

unfoldable pub if_accepted {ℓ} : {A : Type ℓ} → List Issue → A → Result (List Issue) A
if_accepted [] value = ok value
if_accepted (i ∷ is) value = err (i ∷ is)

-- What a `[[database]]` block stands for, with the schema's defaults.
unfoldable pub database_service : DatabaseDecl → ServiceDecl
database_service db = record {
  name = db.name;
  cron = none;
  dockerfile = "./Dockerfile";
  context = ".";
  replicas = 1;
  cpu = db.cpu;
  memory = db.memory;
  env = [];
  secrets = "POSTGRES_PASSWORD" ∷ [];
  domain = none;
  domain_pattern = none;
  port = none;
  health_check = none;
  rollout = record { max_surge = 1; drain_timeout = "20s"; stop_grace = "30s" };
  volumes = record { name = "data"; path = "/var/lib/postgresql/data" } ∷ [];
  database = some (record { engine = db.engine; version = db.version; databases = db.databases });
  backup = db.backup;
}

unfoldable pub expanded : LaunchPadConfig → List ServiceDecl → LaunchPadConfig
expanded config services = record {
  project = config.project;
  component = config.component;
  domain_pattern = config.domain_pattern;
  service = config.service ++ services;
  database = some [];
  job = config.job;
}

module _ (utc : ℕ → UtcFields) (now : ℕ) where
  unfoldable pub config_fields : LaunchPadConfig → List Issue
  config_fields config = joined (
      under (field "project") (matches is_label config.project)
      ∷ under (field "component") (if_given (matches is_label) config.component)
      ∷ under (field "domainPattern")
          (if_given (λ p. issue_if (is_empty_text (codes p)) [] too_small) config.domain_pattern)
      ∷ under (field "service") (issue_if (length config.service == 0) [] too_small)
      ∷ under (field "service") (each (service_issues utc now) config.service)
      ∷ under (field "database") (if_given (each (database_issues utc now)) config.database)
      ∷ under (field "job") (if_given (each job_issues) config.job)
      ∷ [])

  unfoldable pub config_issues : LaunchPadConfig → List Issue
  config_issues config = config_fields config ++ config_rules config

  -- `ServiceDeclSchema.parse`, `LaunchPadConfigSchema.parse`
  unfoldable pub parse_service : ServiceDecl → Result (List Issue) ServiceDecl
  parse_service s = if_accepted (service_issues utc now s) s

  unfoldable pub parse_config : LaunchPadConfig → Result (List Issue) LaunchPadConfig
  parse_config config = if_accepted (config_issues config) config

  unfoldable pub database_services : List DatabaseDecl → Result (List Issue) (List ServiceDecl)
  database_services [] = ok []
  database_services (db ∷ dbs) =
      parse_service (database_service db) >>= λ s. database_services dbs >>= λ rest. ok (s ∷ rest)

  unfoldable pub expand_databases :
      LaunchPadConfig → List DatabaseDecl → Result (List Issue) LaunchPadConfig
  expand_databases config [] = ok config
  expand_databases config (db ∷ dbs) =
      database_services (db ∷ dbs) >>= λ services. ok (expanded config services)

  unfoldable pub expand_database_services : LaunchPadConfig → Result (List Issue) LaunchPadConfig
  expand_database_services config = expand_databases config (listed config.database)

unfoldable pub is_web_service : ServiceDecl → Bool
is_web_service s = service_has_ingress s

unfoldable pub database_image : DatabaseEngine → String → String
database_image postgres version = "public.ecr.aws/docker/library/postgres:" ^^ version

unfoldable pub is_database_service : ServiceDecl → Bool
is_database_service s = is_given s.database
