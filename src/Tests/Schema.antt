-- ===== src/Tests/Schema.antt =====
-- The schema on a config with a web service, a managed database and a job, and the domains of its
-- environments.
use launch_pad.Prelude.{ok, ℕ, true, false, none, some, [], ◌∷◌, ◌≡◌, refl, sym}
use launch_pad.Service.{postgres}
use launch_pad.Config.{ServiceDecl, DatabaseDecl, JobDecl, LaunchPadConfig}
use launch_pad.Prelude.Text.{
  Text, codes, starts_with, includes, last_of, split_at, is_number, value_from,
}
use launch_pad.Cron.{UtcFields}
use launch_pad.ConfigSchema.Formats.{
  is_label, is_hostname, is_ipv4_shape, is_octet_shape, is_dns_label, is_between, is_led_by,
  is_node_id, is_postgres_version, is_logical_db_name, is_secret_key, is_duration, duration_match,
  unit_ms, leading_digits, after_digits, parse_duration_ms, volume_path_error, absolute_path_error,
  container_root, parent_segment,
}
use launch_pad.ConfigSchema.DomainPattern.{
  tokens_from, is_token, replace_tokens, domain_pattern_error, ServiceDomainInput, projected_domain,
  if_hostname, resolve_for, resolve_service_domain, unknown_tokens, no_env_token,
}
use launch_pad.ConfigSchema.DomainPattern.Environments.{resolve_service_domain-injective}
use launch_pad.ConfigSchema.Issues.{
  joined, issue_if, issue_unless, each, each_from, if_given, matches, at_least, in_range,
}
use launch_pad.ConfigSchema.Services.{
  service_has_ingress, health_check_issues, rollout_issues, volume_issues, volume_path_issues,
  service_database_issues, repeated_volumes, pattern_issues, service_fields, managed_issues,
  ingress_issues, service_rules, service_issues, database_issues, job_issues,
}
use launch_pad.ConfigSchema.{
  repeated_names, seen_after, database_service_names, name_issues, config_rules, config_fields,
  config_issues, expand_database_services,
}
use launch_pad.ConfigSchema.Accepted.{IsReady, expand_database_services-IsReady}

abbrev site : ServiceDecl
site = record {
  name = "site";
  cron = none;
  dockerfile = "./Dockerfile";
  context = ".";
  replicas = 2;
  cpu = 256;
  memory = 128;
  env = [];
  secrets = "TOKEN" ∷ [];
  domain = some "www.x.io";
  domain_pattern = some "{service}-{env}.x.io";
  port = some 3000;
  health_check = some (record {
    path = "/ok";
    port = none;
    interval_ms = 2000;
    timeout_ms = 2000;
    healthy_threshold = 2;
  });
  rollout = record { max_surge = 1; drain_timeout = "20s"; stop_grace = "1m" };
  volumes = record { name = "up"; path = "/srv/up" } ∷ [];
  database = none;
  backup = none;
}

abbrev store : DatabaseDecl
store = record {
  name = "store";
  engine = postgres;
  version = "16.2";
  storage = some "20Gi";
  cpu = 1024;
  memory = 1024;
  databases = "app_1" ∷ [];
  backup = none;
}

abbrev migrate : JobDecl
migrate = record {
  name = "migrate";
  dockerfile = "./Dockerfile";
  context = ".";
  cpu = 128;
  memory = 64;
  env = [];
  secrets = [];
}

abbrev shop : LaunchPadConfig
shop = record {
  project = "shop";
  component = some "front";
  domain_pattern = none;
  service = site ∷ [];
  database = some (store ∷ []);
  job = some (migrate ∷ []);
}

abbrev midnight : ℕ → UtcFields
midnight ms = record { minute = 0; hour = 0; date = 1; month = 0; day = 4 }

accepted_shop : config_issues midnight 0 shop ≡ []
unfolding config_issues config_fields config_rules name_issues repeated_names seen_after
    database_service_names service_issues service_fields service_rules managed_issues ingress_issues
    repeated_volumes pattern_issues service_has_ingress health_check_issues rollout_issues
    volume_issues volume_path_issues service_database_issues database_issues job_issues joined
    issue_if issue_unless each each_from if_given matches at_least in_range is_label is_between
    is_led_by is_hostname is_ipv4_shape is_octet_shape is_dns_label is_postgres_version
    is_logical_db_name is_secret_key is_duration duration_match unit_ms leading_digits after_digits
    volume_path_error absolute_path_error tokens_from is_token replace_tokens domain_pattern_error
    starts_with includes last_of split_at is_number
accepted_shop = refl

expand_database_services-IsReady_example :
    (ready : LaunchPadConfig) × (expand_database_services midnight 0 shop ≡ ok ready)
    × IsReady midnight 0 ready
expand_database_services-IsReady_example =
    expand_database_services-IsReady midnight 0 shop accepted_shop

abbrev site_input : ServiceDomainInput
site_input = record {
  domain = some (codes "www.x.io");
  domain_pattern = some (codes "{service}-{env}.x.io");
  service = codes "site";
}

site_dev :
    resolve_service_domain site_input (some (codes "dev")) ≡ ok (some (codes "site-dev.x.io"))
unfolding resolve_service_domain resolve_for projected_domain if_hostname replace_tokens starts_with
    is_hostname is_ipv4_shape is_octet_shape is_dns_label is_between last_of split_at is_number
site_dev = refl

site_named : (d : Text) → site_input.domain ≡ some d → is_hostname d ≡ true
unfolding is_hostname is_ipv4_shape is_octet_shape is_dns_label is_between last_of split_at
    is_number
site_named d h = let same : codes "www.x.io" ≡ d = cc in rw (sym same) refl

site_valid : (p : Text) → site_input.domain_pattern ≡ some p → domain_pattern_error p ≡ none
unfolding domain_pattern_error tokens_from is_token replace_tokens starts_with is_hostname
    is_ipv4_shape is_octet_shape is_dns_label is_between last_of split_at is_number
site_valid p h = let same : codes "{service}-{env}.x.io" ≡ p = cc in rw (sym same) refl

resolve_service_domain-injective_example :
    (is_hostname (codes "site-dev.x.io") ≡ true) × (codes "dev" ≡ codes "dev")
resolve_service_domain-injective_example =
    resolve_service_domain-injective site_input (codes "dev") (codes "dev") (codes "site-dev.x.io")
      site_named site_valid site_dev site_dev

pattern_tests :
    (domain_pattern_error (codes "{env}.{region}.x.io") ≡ some unknown_tokens)
    × (domain_pattern_error (codes "{service}.x.io") ≡ some no_env_token)
unfolding domain_pattern_error tokens_from is_token
pattern_tests = (refl, refl)

format_tests :
    (is_hostname (codes "10.0.0.1") ≡ false)
    × (is_node_id (codes "edge-1") ≡ true)
    × (parse_duration_ms (codes "90s") ≡ 90000)
    × (volume_path_error (codes "/") ≡ some container_root)
    × (volume_path_error (codes "/a/../b") ≡ some parent_segment)
unfolding is_hostname is_ipv4_shape is_octet_shape is_node_id is_led_by split_at is_number
    parse_duration_ms duration_match unit_ms leading_digits after_digits value_from
    volume_path_error absolute_path_error last_of
format_tests = (refl, refl, refl, refl, refl)
