-- ===== src/Tests/Lock.antt =====
-- The config lock on a config of a web service and a worker, deployed on two nodes.
use native.Mathlib.Decide.{ℕ_discrete}
use launch_pad.Prelude.{
  ℕ, String, Option, ◌≡◌, refl, arith, true, false, some, none, List, [], ◌∷◌, str_lt, Dict, ◌↔◌,
  Bool-cases, str_eq, eq_iff, inl, inr, All,
}
use launch_pad.Service.{ServiceConfig, Ingress}
use launch_pad.Config.{ServiceDecl, LaunchPadConfig}
use launch_pad.Undeploy.{NodeServices}
use launch_pad.ConfigLock.StableJson.{Scalar, Json}
use launch_pad.ConfigLock.Allowed.{IsAllowed, find_config_lock_violations_iff}
use launch_pad.ConfigLock.{snapshot_config_baseline, find_config_lock_violations}
use launch_pad.Footprint.{build_placement_snapshot, baseline_from_deployed_footprints}
use launch_pad.Deploy.{AwsEnv, Built, to_service_config, ingress_of, config_with_ingress}
use launch_pad.Deploy.Made.{IsValid, IsMadeOf}
use launch_pad.Deploy.RoundTrip.{IsDeployment, find_config_lock_violations-unchanged}

String-discrete : Discrete String
String-discrete s t = elim (Bool-cases (str_eq s t)) [
  | inl e ↦ yes (ground (arith, eq_iff s t))
  | inr e ↦ no (λ same. ground (arith, eq_iff s t))
]

Scalar-discrete : Discrete Scalar
Scalar-discrete = hlevel (ℕ_discrete, String-discrete)

fields_discrete : Discrete (Dict Scalar)
fields_discrete = hlevel (String-discrete, Scalar-discrete)

Json-discrete : Discrete Json
Json-discrete = hlevel (Scalar-discrete, fields_discrete)

same_fields : Discrete (Dict Json)
same_fields = hlevel (String-discrete, Json-discrete)

abbrev write : Dict Json → Dict Json
write fields = fields

abbrev web_decl : ServiceDecl
web_decl = record {
  name = "web";
  cron = none;
  dockerfile = "./Dockerfile";
  context = ".";
  replicas = 3;
  cpu = 256;
  memory = 128;
  env = ("MODE", "fast") ∷ [];
  secrets = "TOKEN" ∷ [];
  domain = some "app.x";
  domain_pattern = none;
  port = some 3000;
  health_check = some (record {
    path = "/ok";
    port = none;
    interval_ms = 2000;
    timeout_ms = 2000;
    healthy_threshold = 2;
  });
  rollout = record { max_surge = 1; drain_timeout = "20s"; stop_grace = "30s" };
  volumes = [];
  database = none;
  backup = none;
}

abbrev job_decl : ServiceDecl
job_decl = record {
  name = "job";
  cron = some "0 3 * * *";
  dockerfile = "./job/Dockerfile";
  context = ".";
  replicas = 1;
  cpu = 128;
  memory = 64;
  env = [];
  secrets = [];
  domain = none;
  domain_pattern = none;
  port = none;
  health_check = none;
  rollout = record { max_surge = 1; drain_timeout = "20s"; stop_grace = "30s" };
  volumes = record { name = "data"; path = "/data" } ∷ [];
  database = none;
  backup = none;
}

abbrev blog : LaunchPadConfig
blog = record {
  project = "blog";
  component = none;
  domain_pattern = none;
  service = web_decl ∷ job_decl ∷ [];
  database = none;
  job = none;
}

abbrev aws : AwsEnv
aws = record { cluster_id = "c"; region = "us-east-1"; account_id = "1" }

abbrev built_web : Built
built_web = record { decl = web_decl; image = "web:1"; domain = some "app-dev.x" }

abbrev built_job : Built
built_job = record { decl = job_decl; image = "job:1"; domain = none }

abbrev edge : Option Ingress
edge = some (record { domain = "app-dev.x"; port = 3000; edge = "edge" })

abbrev web_on : ℕ → ServiceConfig
web_on replicas = config_with_ingress aws "blog" built_web replicas none none edge

abbrev job_run : ServiceConfig
job_run = config_with_ingress aws "blog" built_job 1 none none none

abbrev two_nodes : List NodeServices
two_nodes =
    record { node_id = "a"; services = web_on 2 ∷ [] }
    ∷ record { node_id = "b"; services = web_on 1 ∷ job_run ∷ [] }
    ∷ []

web-IsMadeOf : (replicas : ℕ) → IsMadeOf aws "blog" web_decl (web_on replicas)
unfolding to_service_config ingress_of
web-IsMadeOf replicas = record {
  built = built_web;
  replicas = replicas;
  edge = some "edge";
  env = none;
  restart_at = none;
  of_decl = refl;
  domain = (λ h. absurd (cc), λ h. absurd (cc));
  made = refl;
}

job-IsMadeOf : IsMadeOf aws "blog" job_decl job_run
unfolding to_service_config ingress_of
job-IsMadeOf = record {
  built = built_job;
  replicas = 1;
  edge = none;
  env = none;
  restart_at = none;
  of_decl = refl;
  domain = (λ h. refl, λ h. refl);
  made = refl;
}

two_nodes-IsDeployment : IsDeployment aws "blog" blog two_nodes
unfolding config_with_ingress
two_nodes-IsDeployment = record {
  made = (
    ((λ _. (web_decl, inl refl, web-IsMadeOf 2)), tt),
    (
      ((
        (λ _. (web_decl, inl refl, web-IsMadeOf 1)),
        ((λ _. (job_decl, inr (inl refl), job-IsMadeOf)), tt),
      )),
      tt,
    ),
  );
  deployed = (refl, (refl, tt));
}

blog-IsValid : All IsValid blog.service
blog-IsValid = (
  record {
    both = (λ h. absurd (cc), λ h. absurd (cc));
    positive = λ port h. let e : 3000 ≡ port = cc in omega arith;
  },
  (record { both = (λ h. refl, λ h. refl); positive = λ port h. absurd (cc) }, tt),
)

find_config_lock_violations-unchanged_example :
    find_config_lock_violations str_lt write same_fields
      (baseline_from_deployed_footprints str_lt "blog" none
        (build_placement_snapshot str_lt two_nodes "blog").footprints
        "t0")
      (snapshot_config_baseline str_lt blog "t1")
      (record { baseline_from_desired = true; allow_new_services = false })
    ≡ []
find_config_lock_violations-unchanged_example =
    find_config_lock_violations-unchanged str_lt aws "blog" blog two_nodes blog-IsValid
      (refl, (refl, tt)) two_nodes-IsDeployment write same_fields (λ x y e. e) "t0" "t1" false

find_config_lock_violations_iff_example :
    (find_config_lock_violations str_lt write same_fields
        (snapshot_config_baseline str_lt blog "t0")
        (snapshot_config_baseline str_lt blog "t1")
        (record { baseline_from_desired = false; allow_new_services = true })
      ≡ [])
    ↔ IsAllowed
        (snapshot_config_baseline str_lt blog "t0")
        (snapshot_config_baseline str_lt blog "t1")
        (record { baseline_from_desired = false; allow_new_services = true })
find_config_lock_violations_iff_example =
    find_config_lock_violations_iff str_lt write same_fields (λ x y e. e)
      (snapshot_config_baseline str_lt blog "t0") (snapshot_config_baseline str_lt blog "t1")
      (record { baseline_from_desired = false; allow_new_services = true })
