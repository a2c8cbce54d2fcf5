-- ===== src/ConfigLock/StableJson.antt =====
-- `stableJson` of packages/shared/src/config-lock.ts, on the values that a locked view holds:
-- an object of texts, numbers, flat objects and arrays of flat objects.
use launch_pad.Prelude.{ℕ, String, Bool, Option, none, some, List, [], ◌∷◌, Dict, map}
use launch_pad.Prelude.Sort.{sort}

pub data Scalar : Type 0 where
  text : String → Scalar
  number : ℕ → Scalar

pub data Json : Type 0 where
  value : Scalar → Json
  object : Dict Scalar → Json
  objects : List (Dict Scalar) → Json

-- The properties that are there: `JSON.stringify` drops an undefined one.
unfoldable pub present {ℓ} : {V : Type ℓ} → Dict (Option V) → Dict V
present [] = []
present ((k, none) ∷ m) = present m
present ((k, some v) ∷ m) = (k, v) ∷ present m

module _ (locale_before : String → String → Bool) where
  -- `Object.fromEntries(Object.entries(v).sort(([a], [b]) => a.localeCompare(b)))`
  unfoldable pub sort_keys {ℓ} : {V : Type ℓ} → Dict V → Dict V
  sort_keys fields = sort (λ a b. locale_before a.0 b.0) fields

  unfoldable pub stable_value : Json → Json
  stable_value (value s) = value s
  stable_value (object fields) = object (sort_keys fields)
  stable_value (objects items) = objects (map sort_keys items)

  unfoldable pub stable_fields : Dict Json → Dict Json
  stable_fields fields = sort_keys (map (λ e. (e.0, stable_value e.1)) fields)
