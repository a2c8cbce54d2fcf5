-- ===== src/Tests/Merge.antt =====
-- Merges and removals on a node that two projects share.
use launch_pad.Undeploy.Laws.{services_after_removal-exact}
use launch_pad.Undeploy.Domains.{removed_front, kept_front, removed_domains-plan_undeploy}
use launch_pad.Prelude.Sort.{sort, insert_sorted}
use launch_pad.Merge.Partial.{
  find_service, merge_project_services_partial-preserves, or_first,
  merge_project_services_partial-upsert,
}
use launch_pad.Merge.Full.{
  AllOwned, keys_of, merge_project_services_iff, merge_project_services-preserves,
}
use launch_pad.Prelude.{
  ℕ, String, not, ◌≡◌, refl, ◌↔◌, none, some, List, [], ◌∷◌, filter, Distinct, ok, err, str_lt,
  contains, if◌then◌else◌, ◌&&◌,
}
use launch_pad.Service.{ServiceConfig}
use launch_pad.Merge.{
  merge_project_services, merge_project_services_partial, is_other, is_owned, not_owned,
  assert_owned, assert_no_duplicates, no_duplicates_from, service_key, by_service_from, replace_all,
  applied_names,
}
use launch_pad.Undeploy.{
  NodeServices, plan_undeploy, services_after_removal, visit_all, should_remove, visit, owned_by,
  surviving_from, add_survivor, domain_of, add_edge, candidates_from, add_candidate, add_names,
  gone_domains, gone_edges, add_all,
}

abbrev pub service : String → String → String → ℕ → ServiceConfig
service project name domain replicas = record {
  project = project;
  service = name;
  image = "img";
  cpu = 256;
  memory = 128;
  replicas = replicas;
  env = [];
  secret_refs = [];
  restart_at = none;
  cron = none;
  ingress = some (record { domain = domain; port = 80; edge = "edge-1" });
  health_check = none;
  rollout = record { max_surge = 1; drain_timeout = "20s"; stop_grace = "30s" };
  volumes = [];
  database = none;
  backup = none;
  job_run = none;
}

abbrev pub api : ServiceConfig
api = service "blog" "api" "api.x" 1

abbrev pub web : ServiceConfig
web = service "blog" "web" "x" 1

abbrev pub shop : ServiceConfig
shop = service "shop" "web" "shop.x" 1

abbrev pub shared_node : List ServiceConfig
shared_node = api ∷ shop ∷ web ∷ []

abbrev web_2 : ServiceConfig
web_2 = service "blog" "web" "x" 2

merger : Unit {0}
unfolding merge_project_services merge_project_services_partial assert_owned assert_no_duplicates
    no_duplicates_from service_key by_service_from replace_all applied_names
merger = tt

full_runs : merge_project_services shared_node "blog" (web_2 ∷ []) ≡ ok (shop ∷ web_2 ∷ [])
unfolding merger
full_runs = refl

partial_runs :
    merge_project_services_partial shared_node "blog" (web_2 ∷ []) ≡ ok (api ∷ shop ∷ web_2 ∷ [])
unfolding merger
partial_runs = refl

foreign_fails : merge_project_services shared_node "blog" (shop ∷ []) ≡ err (not_owned "shop/web")
unfolding merger
foreign_fails = refl

merge_project_services_iff_example :
    (merge_project_services shared_node "blog" (web_2 ∷ []) ≡ ok (shop ∷ web_2 ∷ [])) ↔ (
      AllOwned "blog" (web_2 ∷ [])
      × Distinct (keys_of (shop ∷ web_2 ∷ []))
      × ((shop ∷ web_2 ∷ []) ≡ (shop ∷ web_2 ∷ [])))
merge_project_services_iff_example =
    merge_project_services_iff shared_node "blog" (web_2 ∷ []) (shop ∷ web_2 ∷ [])

merge_project_services-preserves_example :
    (filter (is_other "blog") (shop ∷ web_2 ∷ []) ≡ filter (is_other "blog") shared_node)
    × (filter (is_owned "blog") (shop ∷ web_2 ∷ []) ≡ web_2 ∷ [])
    × Distinct (keys_of (shop ∷ web_2 ∷ []))
merge_project_services-preserves_example =
    merge_project_services-preserves shared_node "blog" (web_2 ∷ []) (shop ∷ web_2 ∷ []) full_runs

merge_project_services_partial-upsert_example :
    find_service "blog" "api" (api ∷ shop ∷ web_2 ∷ [])
    ≡ or_first (find_service "blog" "api" (web_2 ∷ [])) (find_service "blog" "api" shared_node)
merge_project_services_partial-upsert_example =
    merge_project_services_partial-upsert shared_node "blog" (web_2 ∷ []) (api ∷ shop ∷ web_2 ∷ [])
      partial_runs "api" (refl, tt)

merge_project_services_partial-preserves_example :
    filter (is_other "blog") (api ∷ shop ∷ web_2 ∷ []) ≡ filter (is_other "blog") shared_node
merge_project_services_partial-preserves_example =
    merge_project_services_partial-preserves shared_node "blog" (web_2 ∷ [])
      (api ∷ shop ∷ web_2 ∷ []) partial_runs

abbrev states : List NodeServices
states =
    record { node_id = "a"; services = shared_node }
    ∷ record { node_id = "b"; services = api ∷ [] }
    ∷ []

undeployer : Unit {0}
unfolding plan_undeploy visit_all visit surviving_from add_survivor should_remove domain_of add_edge
    candidates_from add_candidate add_names gone_domains gone_edges add_all sort insert_sorted
    services_after_removal
undeployer = tt

removed_runs : (plan_undeploy str_lt states "blog" (some ("web" ∷ []))).removed_domains ≡ "x" ∷ []
unfolding undeployer
removed_runs = refl

removed_domains-plan_undeploy_example :
    contains "x" (plan_undeploy str_lt states "blog" (some ("web" ∷ []))).removed_domains ≡ (
      removed_front "blog" (some ("web" ∷ [])) "x" states
      && not (kept_front "blog" (some ("web" ∷ [])) "x" states))
removed_domains-plan_undeploy_example =
    removed_domains-plan_undeploy "blog" (some ("web" ∷ [])) "x" str_lt states

kept_runs :
    merge_project_services shared_node "blog" (
      filter (λ s. not (should_remove (some ("web" ∷ [])) s.service)) (owned_by "blog" shared_node))
    ≡ ok (shop ∷ api ∷ [])
unfolding merger undeployer
kept_runs = refl

services_after_removal-exact_example :
    (filter (is_other "blog") (services_after_removal shared_node "blog" (some ("web" ∷ [])))
      ≡ filter (is_other "blog") shared_node)
    × ((n : String)
        → find_service "blog" n (services_after_removal shared_node "blog" (some ("web" ∷ []))) ≡ (
            if should_remove (some ("web" ∷ [])) n
            then none
            else find_service "blog" n shared_node))
    × (filter (is_other "blog") (shop ∷ api ∷ [])
        ≡ filter (is_other "blog") (services_after_removal shared_node "blog" (some ("web" ∷ []))))
    × (filter (is_owned "blog") (shop ∷ api ∷ [])
        ≡ filter (is_owned "blog") (services_after_removal shared_node "blog" (some ("web" ∷ []))))
services_after_removal-exact_example =
    services_after_removal-exact "blog" (some ("web" ∷ [])) shared_node (shop ∷ api ∷ []) kept_runs
