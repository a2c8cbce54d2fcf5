-- ===== src/ConfigSchema/Keys.antt =====
-- `assertSupportedLaunchPadConfigRaw` of packages/shared/src/config.ts, on a decoded document: an
-- object is its properties in the order of `Object.keys`, with distinct keys.
use launch_pad.Prelude.{
  Result, ok, err, ◌>>◌, ℕ, suc, String, not, Option, none, some, List, [], ◌∷◌, if◌then◌else◌,
  Dict, get, keys, contains,
}

-- A document's value, as far as its keys are read.
mutual
  pub data Raw : Type 0 where
    other : Raw
    array : Items → Raw
    object : Properties → Raw

  pub data Items : Type 0 where
    no_items : Items
    item : Raw → Items → Items

  pub data Properties : Type 0 where
    no_properties : Properties
    property : String → Raw → Properties → Properties

abbrev pub items_of : Items → List Raw
items_of no_items = []
items_of (item x xs) = x ∷ items_of xs

abbrev pub properties_of : Properties → Dict Raw
properties_of no_properties = []
properties_of (property k x ps) = (k, x) ∷ properties_of ps

-- The path of the key that an error names.
pub data KeyError : Type 0 where
  unsupported_root_key : String → KeyError
  unsupported_key deprecated_key : (block : String) (index : ℕ) (key : String) → KeyError
  unsupported_backup_key : ℕ → String → KeyError

-- The function returns nothing.
abbrev pub Checked : Type 0
Checked = Result KeyError (Unit {0})

abbrev supported_top_level_keys : List String
supported_top_level_keys =
    "project" ∷ "component" ∷ "domainPattern" ∷ "service" ∷ "database" ∷ "job" ∷ []

abbrev supported_database_keys : List String
supported_database_keys =
    "name" ∷ "engine" ∷ "version" ∷ "storage" ∷ "cpu" ∷ "memory" ∷ "databases" ∷ "backup" ∷ []

abbrev supported_backup_keys : List String
supported_backup_keys = "schedule" ∷ "retentionDays" ∷ []

abbrev supported_service_keys : List String
supported_service_keys =
    "name" ∷ "cron" ∷ "dockerfile" ∷ "context" ∷ "replicas" ∷ "cpu" ∷ "memory" ∷ "env" ∷ "domain"
    ∷ "domainPattern" ∷ "port" ∷ "healthCheck" ∷ "rollout" ∷ "secrets" ∷ "volumes" ∷ []

abbrev supported_job_keys : List String
supported_job_keys = "name" ∷ "dockerfile" ∷ "context" ∷ "cpu" ∷ "memory" ∷ "env" ∷ "secrets" ∷ []

abbrev deprecated_service_keys : List String
deprecated_service_keys = "cluster" ∷ "schedule" ∷ "node" ∷ "nodes" ∷ "edge" ∷ "topology" ∷ []

-- The first key that is not among the supported ones throws.
unfoldable pub assert_keys : List String → (String → KeyError) → List String → Checked
assert_keys supported unsupported [] = ok tt
assert_keys supported unsupported (key ∷ rest) =
    if contains key supported then assert_keys supported unsupported rest else err (unsupported key)

-- `value !== null && typeof value === "object" && !Array.isArray(value)`, and what is checked then.
unfoldable pub if_object : (Dict Raw → Checked) → Raw → Checked
if_object check other = ok tt
if_object check (array xs) = ok tt
if_object check (object ps) = check (properties_of ps)

unfoldable pub if_property : (Raw → Checked) → Option Raw → Checked
if_property check none = ok tt
if_property check (some value) = check value

unfoldable pub each_item : (ℕ → Raw → Checked) → ℕ → List Raw → Checked
each_item check i [] = ok tt
each_item check i (x ∷ xs) = check i x >> each_item check (suc i) xs

unfoldable pub if_array : (ℕ → Raw → Checked) → Raw → Checked
if_array check other = ok tt
if_array check (array xs) = each_item check 0 (items_of xs)
if_array check (object ps) = ok tt

unfoldable pub assert_database : ℕ → Raw → Checked
assert_database i = if_object λ fields.
    assert_keys supported_database_keys (unsupported_key "database" i) (keys fields)
    >> if_property
        (if_object
          λ backup. assert_keys supported_backup_keys (unsupported_backup_key i) (keys backup))
        (get "backup" fields)

unfoldable pub assert_service_keys : ℕ → List String → Checked
assert_service_keys i [] = ok tt
assert_service_keys i (key ∷ rest) =
    if contains key deprecated_service_keys
    then err (deprecated_key "service" i key)
    else if not (contains key supported_service_keys)
    then err (unsupported_key "service" i key)
    else assert_service_keys i rest

unfoldable pub assert_service : ℕ → Raw → Checked
assert_service i = if_object λ fields. assert_service_keys i (keys fields)

unfoldable pub assert_job : ℕ → Raw → Checked
assert_job i =
    if_object λ fields. assert_keys supported_job_keys (unsupported_key "job" i) (keys fields)

unfoldable pub assert_root : Dict Raw → Checked
assert_root root =
    assert_keys supported_top_level_keys unsupported_root_key (keys root)
    >> if_property (if_array assert_database) (get "database" root)
    >> if_property (if_array assert_service) (get "service" root)
    >> if_property (if_array assert_job) (get "job" root)

unfoldable pub assert_supported_launch_pad_config_raw : Raw → Checked
assert_supported_launch_pad_config_raw input = if_object assert_root input
