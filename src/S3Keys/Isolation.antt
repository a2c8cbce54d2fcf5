-- ===== src/S3Keys/Isolation.antt =====
-- The state of a cluster lies under its own prefixes, and under no other cluster's.
use launch_pad.Prelude.{
  ◌==◌, Bool, true, false, not, ◌||◌, [], ◌∷◌, ◌++◌, ◌≡◌, refl, sym, ap, ◌∙◌, ◌↔◌, ◌⊎◌, inl, inr,
  arith, Bool-cases, all,
}
use mathlib.Core.List.{append_cancel_left, append_assoc, append-nil}
use launch_pad.Prelude.Text.{
  Text, codes, same_text, same_text_iff, starts_with_self, rest_of, starts_with, is_lower, is_digit,
}
use launch_pad.ConfigSchema.Formats.{is_label, is_between}
use launch_pad.S3Keys.{
  nodes_prefix, clusters_prefix, projects_segment, is_default_cluster, named_prefix,
  cluster_nodes_prefix, cluster_config_key, node_prefix, node_registry_key, desired_key, status_key,
  edge_config_key, edge_upstream_prefix, edge_upstream_key, projects_prefix, project_state_prefix,
  project_index_key, preview_marker_key, config_baseline_key, deploy_events_prefix,
  deploy_event_key, remote_build_context_prefix, remote_build_context_key,
  backup_prefixes_for_cluster, key_under_prefixes,
}

-- The keys at which a cluster keeps its state. The default cluster has no `cluster.json`.
pub data IsStateKey (cluster : Text) : Text → Type 0 where
  config : is_default_cluster cluster ≡ false → IsStateKey cluster (cluster_config_key cluster)
  registry : (node : Text) → IsStateKey cluster (node_registry_key cluster node)
  desired : (node : Text) → IsStateKey cluster (desired_key cluster node)
  status : (node : Text) → IsStateKey cluster (status_key cluster node)
  edge : (node : Text) → IsStateKey cluster (edge_config_key cluster node)
  upstream : (at_edge node : Text) → IsStateKey cluster (edge_upstream_key cluster at_edge node)
  index : (project : Text) → IsStateKey cluster (project_index_key cluster project)
  preview : (owner : Text) → IsStateKey cluster (preview_marker_key cluster owner)
  baseline : (owner : Text) → IsStateKey cluster (config_baseline_key cluster owner)
  event : (owner at id : Text) → IsStateKey cluster (deploy_event_key cluster owner at id)
  build :
      (owner service tag : Text)
      → IsStateKey cluster (remote_build_context_key cluster owner service tag)

starts_with_more : (p t s : Text) → starts_with p t ≡ true → starts_with p (t ++ s) ≡ true
unfolding starts_with
starts_with_more [] t s h = refl
starts_with_more (c ∷ p) [] s h = cc
starts_with_more (c ∷ p) (d ∷ t) s h = ground (arith, starts_with_more p t s)

at_prefix :
    (p key : Text) → (same_text key p || starts_with p key) ≡ true → starts_with p key ≡ true
at_prefix p key h = elim (Bool-cases (same_text key p)) [
  | inl e ↦
      let same : p ++ [] ≡ key = append-nil p ∙ sym ((same_text_iff key p).0 e) in
      rw (sym same) (starts_with_self p [])
  | inr e ↦ sym (ap (λ b. b || starts_with p key) e) ∙ h
]

one_of : (a b : Bool) → (a || b) ≡ true → (a ≡ true) ⊎ (b ≡ true)
one_of true b h = inl refl
one_of false b h = inr h

all_slash :
    (c : Text)
    → all (λ c. (is_lower c || is_digit c) || c == b'-') c ≡ true
    → all (λ c. not (c == b'/')) c ≡ true
all_slash [] h = refl
all_slash (x ∷ c) h = ground (arith, all_slash c)

-- A key starts with a prefix of the cluster.
abbrev StartsIn : Text → Text → Type 0
StartsIn cluster key =
    ((is_default_cluster cluster ≡ true)
      × ((starts_with nodes_prefix key ≡ true) ⊎ (starts_with projects_segment key ≡ true)))
    ⊎ ((is_default_cluster cluster ≡ false) × (starts_with (named_prefix cluster) key ≡ true))

StartsIn-more : (cluster key s : Text) → StartsIn cluster key → StartsIn cluster (key ++ s)
StartsIn-more cluster key s (inl (d, inl h)) = inl (d, inl (starts_with_more nodes_prefix key s h))
StartsIn-more cluster key s (inl (d, inr h)) =
    inl (d, inr (starts_with_more projects_segment key s h))
StartsIn-more cluster key s (inr (d, h)) = inr (d, starts_with_more (named_prefix cluster) key s h)

StartsIn-nodes : (cluster : Text) → StartsIn cluster (cluster_nodes_prefix cluster)
unfolding cluster_nodes_prefix starts_with
StartsIn-nodes cluster = elim (Bool-cases (is_default_cluster cluster)) [
  | inl e ↦ rw e (inl (refl, inl refl))
  | inr e ↦ rw e (inr (refl, starts_with_self (named_prefix cluster) nodes_prefix))
]

StartsIn-projects : (cluster : Text) → StartsIn cluster (projects_prefix cluster)
unfolding projects_prefix starts_with
StartsIn-projects cluster = elim (Bool-cases (is_default_cluster cluster)) [
  | inl e ↦ rw e (inl (refl, inr refl))
  | inr e ↦ rw e (inr (refl, starts_with_self (named_prefix cluster) projects_segment))
]

StartsIn-node : (cluster node : Text) → StartsIn cluster (node_prefix cluster node)
unfolding node_prefix
StartsIn-node cluster node =
    StartsIn-more cluster _ _ (StartsIn-more cluster _ _ (StartsIn-nodes cluster))

StartsIn-project : (cluster owner : Text) → StartsIn cluster (project_state_prefix cluster owner)
unfolding project_state_prefix
StartsIn-project cluster owner =
    StartsIn-more cluster _ _ (StartsIn-more cluster _ _ (StartsIn-projects cluster))

IsStateKey-StartsIn : (cluster key : Text) → IsStateKey cluster key → StartsIn cluster key
unfolding cluster_config_key node_registry_key desired_key status_key edge_config_key
    edge_upstream_key edge_upstream_prefix project_index_key preview_marker_key config_baseline_key
    deploy_event_key deploy_events_prefix remote_build_context_key remote_build_context_prefix
IsStateKey-StartsIn cluster key (config d) =
    inr (d, starts_with_self (named_prefix cluster) (codes "cluster.json"))
IsStateKey-StartsIn cluster key (registry node) =
    StartsIn-more cluster _ _ (StartsIn-node cluster node)
IsStateKey-StartsIn cluster key (desired node) =
    StartsIn-more cluster _ _ (StartsIn-node cluster node)
IsStateKey-StartsIn cluster key (status node) =
    StartsIn-more cluster _ _ (StartsIn-node cluster node)
IsStateKey-StartsIn cluster key (edge node) = StartsIn-more cluster _ _ (StartsIn-node cluster node)
IsStateKey-StartsIn cluster key (upstream at_edge node) =
    StartsIn-more cluster _ _
      (StartsIn-more cluster _ _ (StartsIn-more cluster _ _ (StartsIn-node cluster at_edge)))
IsStateKey-StartsIn cluster key (index project) = StartsIn-more cluster _ _ (
    StartsIn-more cluster _ _
      (StartsIn-more cluster _ _ (StartsIn-more cluster _ _ (StartsIn-projects cluster))))
IsStateKey-StartsIn cluster key (preview owner) =
    StartsIn-more cluster _ _ (StartsIn-project cluster owner)
IsStateKey-StartsIn cluster key (baseline owner) =
    StartsIn-more cluster _ _ (StartsIn-project cluster owner)
IsStateKey-StartsIn cluster key (event owner at id) = StartsIn-more cluster _ _ (
    StartsIn-more cluster _ _ (
      StartsIn-more cluster _ _
        (StartsIn-more cluster _ _ (StartsIn-more cluster _ _ (StartsIn-project cluster owner)))))
IsStateKey-StartsIn cluster key (build owner service tag) = StartsIn-more cluster _ _ (
    StartsIn-more cluster _ _ (
      StartsIn-more cluster _ _
        (StartsIn-more cluster _ _ (StartsIn-more cluster _ _ (StartsIn-project cluster owner)))))

under-StartsIn :
    (cluster key : Text)
    → key_under_prefixes key (backup_prefixes_for_cluster cluster) ≡ true
    → StartsIn cluster key
unfolding key_under_prefixes backup_prefixes_for_cluster
under-StartsIn cluster key h = elim (Bool-cases (is_default_cluster cluster)) [
  | inl e ↦
      let k = rw e at h in
      inl
        (e, one_of _ _ (ground (arith, at_prefix nodes_prefix key, at_prefix projects_segment key)))
  | inr e ↦ let k = rw e at h in inr (e, ground (arith, at_prefix (named_prefix cluster) key))
]

StartsIn-under :
    (cluster key : Text)
    → StartsIn cluster key
    → key_under_prefixes key (backup_prefixes_for_cluster cluster) ≡ true
unfolding key_under_prefixes backup_prefixes_for_cluster
StartsIn-under cluster key (inl (d, inl h)) = rw (d, h) (ground arith)
StartsIn-under cluster key (inl (d, inr h)) = rw (d, h) (ground arith)
StartsIn-under cluster key (inr (d, h)) = rw (d, h) (ground arith)

-- A label has no slash.
label_slash : (c : Text) → is_label c ≡ true → all (λ c. not (c == b'/')) c ≡ true
unfolding is_label is_between
label_slash [] h = cc
label_slash (x ∷ c) h = ground (arith, all_slash c)

to_slash :
    (a b r s : Text)
    → all (λ c. not (c == b'/')) a ≡ true
    → all (λ c. not (c == b'/')) b ≡ true
    → a ++ b'/' ∷ r ≡ b ++ b'/' ∷ s
    → a ≡ b
to_slash [] [] r s h k e = refl
to_slash [] (y ∷ b) r s h k e = absurd (let f : b'/' ≡ y = cc in ground (arith, f))
to_slash (x ∷ a) [] r s h k e = absurd (let f : x ≡ b'/' = cc in ground (arith, f))
to_slash (x ∷ a) (y ∷ b) r s h k e =
    let f : x ≡ y = cc in
    let same : a ≡ b = to_slash a b r s (ground arith) (ground arith) (cc) in cc

named_same :
    (a b key : Text)
    → is_label a ≡ true
    → is_label b ≡ true
    → starts_with (named_prefix a) key ≡ true
    → starts_with (named_prefix b) key ≡ true
    → a ≡ b
unfolding named_prefix
named_same a b key la lb h k =
    let (r, e) = rest_of (named_prefix a) key h in
    let (s, f) = rest_of (named_prefix b) key k in
    let behind : clusters_prefix ++ (a ++ b'/' ∷ r) ≡ clusters_prefix ++ (b ++ b'/' ∷ s) =
      ap (λ t. clusters_prefix ++ t) (sym (append_assoc a (codes "/") r))
      ∙ sym e
      ∙ f
      ∙ ap (λ t. clusters_prefix ++ t) (append_assoc b (codes "/") s) in
    to_slash a b r s (label_slash a la) (label_slash b lb)
      (append_cancel_left clusters_prefix _ _ behind)

apart :
    (a key : Text)
    → (starts_with nodes_prefix key ≡ true) ⊎ (starts_with projects_segment key ≡ true)
    → starts_with (named_prefix a) key ≡ true
    → ⊥
unfolding starts_with named_prefix
apart a [] (inl h) k = ground arith
apart a [] (inr h) k = ground arith
apart a (c ∷ key) (inl h) k = ground arith
apart a (c ∷ key) (inr h) k = ground arith

StartsIn-same :
    (a b key : Text)
    → is_label a ≡ true
    → is_label b ≡ true
    → StartsIn a key
    → StartsIn b key
    → a ≡ b
StartsIn-same a b key la lb (inl (d, _)) (inl (e, _)) =
    sym ((same_text_iff (codes "default") a).0 d) ∙ (same_text_iff (codes "default") b).0 e
StartsIn-same a b key la lb (inl (d, h)) (inr (e, k)) = absurd (apart b key h k)
StartsIn-same a b key la lb (inr (d, h)) (inl (e, k)) = absurd (apart a key k h)
StartsIn-same a b key la lb (inr (d, h)) (inr (e, k)) = named_same a b key la lb h k

-- A key at which a cluster keeps its state lies under the prefixes of that cluster, and of no other:
-- so a backup holds all of a cluster's state, and a restore writes no other cluster's. The clusters'
-- ids are labels.
pub key_under_prefixes_iff :
    (a b key : Text)
    → is_label a ≡ true
    → is_label b ≡ true
    → IsStateKey a key
    → (key_under_prefixes key (backup_prefixes_for_cluster b) ≡ true) ↔ (a ≡ b)
key_under_prefixes_iff a b key la lb state =
    let own = IsStateKey-StartsIn a key state in
    (
      λ h. StartsIn-same a b key la lb own (under-StartsIn b key h),
      λ same. rw (sym same) (StartsIn-under a key own),
    )
