-- ===== src/S3Keys.antt =====
-- packages/shared/src/s3-keys.ts: the keys of the state bucket, as lists of code points; and the
-- prefixes and guards of packages/cli/src/backup/plan.ts.
pub mod Isolation
pub mod SafePath
use launch_pad.Prelude.{
  ◌==◌, Bool, false, not, ◌&&◌, ◌||◌, List, [], ◌∷◌, ◌++◌, if◌then◌else◌, all, any,
}
use launch_pad.Prelude.Text.{Text, codes, same_text, starts_with, is_empty_text, split_at}

abbrev pub nodes_prefix : Text
nodes_prefix = codes "nodes/"

abbrev pub clusters_prefix : Text
clusters_prefix = codes "clusters/"

abbrev pub projects_segment : Text
projects_segment = codes "projects/"

-- `clusterId === DEFAULT_CLUSTER`
abbrev pub is_default_cluster : Text → Bool
is_default_cluster cluster_id = same_text (codes "default") cluster_id

unfoldable pub named_prefix : Text → Text
named_prefix cluster_id = clusters_prefix ++ cluster_id ++ codes "/"

unfoldable pub cluster_nodes_prefix : Text → Text
cluster_nodes_prefix cluster_id =
    if is_default_cluster cluster_id then nodes_prefix else named_prefix cluster_id ++ nodes_prefix

unfoldable pub cluster_config_key : Text → Text
cluster_config_key cluster_id = named_prefix cluster_id ++ codes "cluster.json"

unfoldable pub node_prefix : Text → Text → Text
node_prefix cluster_id node_id = cluster_nodes_prefix cluster_id ++ node_id ++ codes "/"

unfoldable pub node_registry_key : Text → Text → Text
node_registry_key cluster_id node_id = node_prefix cluster_id node_id ++ codes "node.json"

unfoldable pub desired_key : Text → Text → Text
desired_key cluster_id node_id = node_prefix cluster_id node_id ++ codes "desired.json"

unfoldable pub status_key : Text → Text → Text
status_key cluster_id node_id = node_prefix cluster_id node_id ++ codes "status.json"

unfoldable pub edge_config_key : Text → Text → Text
edge_config_key cluster_id node_id = node_prefix cluster_id node_id ++ codes "edge.json"

unfoldable pub edge_upstream_prefix : Text → Text → Text
edge_upstream_prefix cluster_id edge_id = node_prefix cluster_id edge_id ++ codes "upstream/"

unfoldable pub edge_upstream_key : Text → Text → Text → Text
edge_upstream_key cluster_id edge_id app_node_id =
    edge_upstream_prefix cluster_id edge_id ++ app_node_id ++ codes ".json"

unfoldable pub ecr_repository_name : Text → Text → Text
ecr_repository_name project service = project ++ codes "/" ++ service

unfoldable pub projects_prefix : Text → Text
projects_prefix cluster_id =
    if is_default_cluster cluster_id
    then projects_segment
    else named_prefix cluster_id ++ projects_segment

unfoldable pub project_state_prefix : Text → Text → Text
project_state_prefix cluster_id owner = projects_prefix cluster_id ++ owner ++ codes "/"

unfoldable pub project_index_prefix : Text → Text
project_index_prefix cluster_id = projects_prefix cluster_id ++ codes "_index" ++ codes "/"

unfoldable pub project_index_key : Text → Text → Text
project_index_key cluster_id project =
    projects_prefix cluster_id ++ codes "_index" ++ codes "/" ++ project ++ codes ".json"

unfoldable pub preview_marker_key : Text → Text → Text
preview_marker_key cluster_id owner = project_state_prefix cluster_id owner ++ codes "preview.json"

unfoldable pub config_baseline_key : Text → Text → Text
config_baseline_key cluster_id owner =
    project_state_prefix cluster_id owner ++ codes "config-baseline.json"

unfoldable pub deploy_events_prefix : Text → Text → Text
deploy_events_prefix cluster_id owner = project_state_prefix cluster_id owner ++ codes "events/"

unfoldable pub deploy_event_key : Text → Text → Text → Text → Text
deploy_event_key cluster_id owner at id =
    deploy_events_prefix cluster_id owner ++ at ++ codes "-" ++ id ++ codes ".json"

unfoldable pub remote_build_context_prefix : Text → Text → Text
remote_build_context_prefix cluster_id owner =
    project_state_prefix cluster_id owner ++ codes "builds/"

unfoldable pub remote_build_context_key : Text → Text → Text → Text → Text
remote_build_context_key cluster_id owner service tag =
    remote_build_context_prefix cluster_id owner ++ service ++ codes "/" ++ tag ++ codes ".tar.gz"

unfoldable pub backup_database_prefix : Text → Text → Text → Text → Text
backup_database_prefix cluster_id owner service database =
    cluster_id ++ codes "/" ++ owner ++ codes "/" ++ service ++ codes "/" ++ database ++ codes "/"

unfoldable pub backup_object_key : Text → Text → Text → Text → Text → Text
backup_object_key cluster_id owner service database timestamp =
    backup_database_prefix cluster_id owner service database ++ timestamp ++ codes ".sql.gz"

unfoldable pub backup_prefixes_for_cluster : Text → List Text
backup_prefixes_for_cluster cluster_id =
    if is_default_cluster cluster_id
    then nodes_prefix ∷ projects_segment ∷ []
    else named_prefix cluster_id ∷ []

unfoldable pub key_under_prefixes : Text → List Text → Bool
key_under_prefixes key prefixes = any (λ p. same_text key p || starts_with p key) prefixes

abbrev pub manifest_file : Text
manifest_file = codes "manifest.json"

-- A key's segments, and those that a clean path has.
abbrev pub segments : Text → List Text
segments key = split_at (λ c. c == b'/') key

abbrev pub is_clean_segment : Text → Bool
is_clean_segment seg =
    not (is_empty_text seg) && not (same_text (codes ".") seg) && not (same_text (codes "..") seg)

-- 92 is the backslash.
unfoldable pub is_safe_backup_key : Text → Bool
is_safe_backup_key key =
    if is_empty_text key || same_text manifest_file key
    then false
    else if starts_with (codes "/") key || any (λ c. c == 92) key || any (λ c. c == 0) key
    then false
    else all is_clean_segment (segments key)
