-- ===== src/Tests/Keys.antt =====
-- The keys of a named cluster, and a path that a tampered backup could hold.
use launch_pad.Prelude.{true, false, [], ◌∷◌, ◌++◌, ◌≡◌, refl, ◌↔◌}
use launch_pad.Prelude.Text.{codes, starts_with, last_of, split_at}
use launch_pad.ConfigSchema.Formats.{is_label, is_between}
use launch_pad.S3Keys.{
  named_prefix, desired_key, backup_prefixes_for_cluster, key_under_prefixes, is_safe_backup_key,
  segments,
}
use launch_pad.S3Keys.Isolation.{desired, key_under_prefixes_iff}
use launch_pad.S3Keys.SafePath.{resolved, resolved-segments}

lower_label : is_label (codes "lower") ≡ true
unfolding is_label is_between last_of
lower_label = refl

default_label : is_label (codes "default") ≡ true
unfolding is_label is_between last_of
default_label = refl

key_under_prefixes_iff_example :
    (key_under_prefixes
        (desired_key (codes "lower") (codes "edge-1"))
        (backup_prefixes_for_cluster (codes "default"))
      ≡ true)
    ↔ (codes "lower" ≡ codes "default")
key_under_prefixes_iff_example =
    key_under_prefixes_iff (codes "lower") (codes "default")
      (desired_key (codes "lower") (codes "edge-1")) lower_label default_label
      (desired (codes "edge-1"))

own_prefix :
    key_under_prefixes
      (codes "clusters/lower/nodes/a/desired.json")
      (backup_prefixes_for_cluster (codes "lower"))
    ≡ true
unfolding key_under_prefixes backup_prefixes_for_cluster named_prefix starts_with
own_prefix = refl

safe_key : is_safe_backup_key (codes "nodes/a/node.json") ≡ true
unfolding is_safe_backup_key starts_with split_at
safe_key = refl

climbing_key : is_safe_backup_key (codes "nodes/../../x") ≡ false
unfolding is_safe_backup_key starts_with split_at
climbing_key = refl

resolved-segments_example :
    resolved (codes "home" ∷ codes "b" ∷ []) (segments (codes "nodes/a/node.json"))
    ≡ (codes "home" ∷ codes "b" ∷ []) ++ segments (codes "nodes/a/node.json")
resolved-segments_example =
    resolved-segments (codes "home" ∷ codes "b" ∷ []) (codes "nodes/a/node.json") safe_key
