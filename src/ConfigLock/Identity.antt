-- ===== src/ConfigLock/Identity.antt =====
-- Two services have the same locked view exactly where their locked fields are equal.
use launch_pad.Prelude.{
  ℕ, String, Bool, true, false, Option, none, some, List, [], ◌∷◌, map, ◌≡◌, refl, sym, ap, ◌∙◌,
  ◌↔◌, ◌⊎◌, inl, inr, Dict, keys, Distinct,
}
use mathlib.Core.Option
use launch_pad.Service.{HealthCheck, Rollout, VolumeDecl, DatabaseEngine}
use launch_pad.ConfigLock.{
  BaselineService, BaselineDatabase, volume_fields, health_fields, rollout_fields, database_fields,
  locked_fields, locked_service_view, stable_json, identity_changed,
}
use launch_pad.ConfigLock.StableJson.{
  Json, text, number, value, object, objects, present, sort_keys, stable_value, stable_fields,
}
use launch_pad.ConfigLock.Fields.{field, sort_keys-field, map-present}

-- The locked fields. A baseline from desired.json has no dockerfile and no context.
pub record SameIdentity (from_desired : Bool) (a b : BaselineService) : Type 0 where
  pub name : a.name ≡ b.name
  pub cron : a.cron ≡ b.cron
  pub build : (from_desired ≡ true) ⊎ ((a.dockerfile ≡ b.dockerfile) × (a.context ≡ b.context))
  pub port : a.port ≡ b.port
  pub health_check : a.health_check ≡ b.health_check
  pub rollout : a.rollout ≡ b.rollout
  pub volumes : a.volumes ≡ b.volumes
  pub database : a.database ≡ b.database

SameIdentity-view :
    (from_desired : Bool) (a b : BaselineService)
    → SameIdentity from_desired a b
    → locked_service_view from_desired a ≡ locked_service_view from_desired b
unfolding locked_service_view
SameIdentity-view true a b same = rw same.name (
    rw same.cron (
      rw same.port
        (rw same.health_check (rw same.rollout (rw same.volumes (rw same.database refl))))))
SameIdentity-view false a b same = elim same.build [
  | inl e ↦ absurd (cc)
  | inr (d, c) ↦ rw d (
      rw c (
        rw same.name (
          rw same.cron (
            rw same.port
              (rw same.health_check (rw same.rollout (rw same.volumes (rw same.database refl))))))))
]

equal_iff :
    {A : Type 0} {x y : A} (d : Dec (x ≡ y))
    → (elim d [ yes _ ↦ false | no _ ↦ true ] ≡ false) ↔ (x ≡ y)
equal_iff (yes e) = (λ _. e, λ _. refl)
equal_iff (no differ) = (λ h. absurd (cc), λ e. absurd (differ e))

module _ (locale_before : String → String → Bool) where
  volume_eq :
      (a b : VolumeDecl)
      → sort_keys locale_before (present (volume_fields a))
        ≡ sort_keys locale_before (present (volume_fields b))
      → a ≡ b
  volume_eq a b h =
      let at : (k : String) → field k (volume_fields a) ≡ field k (volume_fields b) =
        λ k. sort_keys-field locale_before k _ _ (refl, (refl, tt)) (refl, (refl, tt)) h in
      let n : some (text a.name) ≡ some (text b.name) = at "name" in
      let p : some (text a.path) ≡ some (text b.path) = at "path" in
      let n' : a.name ≡ b.name = cc in
      let p' : a.path ≡ b.path = cc in λ i. record { name = n' i; path = p' i }

  volumes_eq :
      (as' bs : List VolumeDecl)
      → map (sort_keys locale_before) (map (λ v. present (volume_fields v)) as')
        ≡ map (sort_keys locale_before) (map (λ v. present (volume_fields v)) bs)
      → as' ≡ bs
  volumes_eq [] [] h = refl
  volumes_eq [] (b ∷ bs) h = cc
  volumes_eq (a ∷ as') [] h = cc
  volumes_eq (a ∷ as') (b ∷ bs) h =
      let x : a ≡ b = volume_eq a b (cc) in
      let rest : as' ≡ bs = volumes_eq as' bs (cc) in λ i. x i ∷ rest i

  rollout_eq :
      (a b : Rollout)
      → sort_keys locale_before (present (rollout_fields a))
        ≡ sort_keys locale_before (present (rollout_fields b))
      → a ≡ b
  rollout_eq a b h =
      let at : (k : String) → field k (rollout_fields a) ≡ field k (rollout_fields b) = λ k.
        sort_keys-field locale_before k _ _ (refl, (refl, (refl, tt))) (refl, (refl, (refl, tt)))
          h in
      let m : some (number a.max_surge) ≡ some (number b.max_surge) = at "maxSurge" in
      let d : some (text a.drain_timeout) ≡ some (text b.drain_timeout) = at "drainTimeout" in
      let g : some (text a.stop_grace) ≡ some (text b.stop_grace) = at "stopGrace" in
      let m' : a.max_surge ≡ b.max_surge = cc in
      let d' : a.drain_timeout ≡ b.drain_timeout = cc in
      let g' : a.stop_grace ≡ b.stop_grace = cc in
      λ i. record { max_surge = m' i; drain_timeout = d' i; stop_grace = g' i }

  engine_eq : (a b : DatabaseEngine) → a ≡ b
  engine_eq DatabaseEngine.postgres DatabaseEngine.postgres = refl

  database_eq :
      (a b : BaselineDatabase)
      → sort_keys locale_before (present (database_fields a))
        ≡ sort_keys locale_before (present (database_fields b))
      → a ≡ b
  database_eq a b h =
      let at : (k : String) → field k (database_fields a) ≡ field k (database_fields b) =
        λ k. sort_keys-field locale_before k _ _ (refl, (refl, tt)) (refl, (refl, tt)) h in
      let v : some (text a.version) ≡ some (text b.version) = at "version" in
      let v' : a.version ≡ b.version = cc in
      λ i. record { engine = engine_eq a.engine b.engine i; version = v' i }

  number_eq : (a b : Option ℕ) → Option.map number a ≡ Option.map number b → a ≡ b
  number_eq none none h = refl
  number_eq none (some b) h = cc
  number_eq (some a) none h = cc
  number_eq (some a) (some b) h = cc

  health_check_eq :
      (a b : HealthCheck)
      → sort_keys locale_before (present (health_fields a))
        ≡ sort_keys locale_before (present (health_fields b))
      → a ≡ b
  health_check_eq a b h =
      let at : (k : String) → field k (health_fields a) ≡ field k (health_fields b) = λ k.
        sort_keys-field locale_before k _ _ (refl, (refl, (refl, (refl, (refl, tt)))))
          (refl, (refl, (refl, (refl, (refl, tt))))) h in
      let p : some (text a.path) ≡ some (text b.path) = at "path" in
      let i' : some (number a.interval_ms) ≡ some (number b.interval_ms) = at "intervalMs" in
      let t : some (number a.timeout_ms) ≡ some (number b.timeout_ms) = at "timeoutMs" in
      let y : some (number a.healthy_threshold) ≡ some (number b.healthy_threshold) =
        at "healthyThreshold" in
      let port' : a.port ≡ b.port = number_eq a.port b.port (at "port") in
      let p' : a.path ≡ b.path = cc in
      let i'' : a.interval_ms ≡ b.interval_ms = cc in
      let t' : a.timeout_ms ≡ b.timeout_ms = cc in
      let y' : a.healthy_threshold ≡ b.healthy_threshold = cc in
      λ i. record {
        path = p' i;
        port = port' i;
        interval_ms = i'' i;
        timeout_ms = t' i;
        healthy_threshold = y' i;
      }

  -- What a locked field says of a service, after `stableJson`.
  abbrev stable_locked : Bool → BaselineService → Dict (Option Json)
  stable_locked from_desired s =
      map (λ e. (e.0, Option.map (stable_value locale_before) e.1)) (locked_fields from_desired s)

  locked-Distinct :
      (from_desired : Bool) (s : BaselineService) → Distinct (keys (stable_locked from_desired s))
  locked-Distinct from_desired s =
      (refl, (refl, (refl, (refl, (refl, (refl, (refl, (refl, (refl, tt)))))))))

  locked_field :
      (from_desired : Bool) (a b : BaselineService)
      → stable_fields locale_before (locked_service_view from_desired a)
        ≡ stable_fields locale_before (locked_service_view from_desired b)
      → (k : String)
      → field k (stable_locked from_desired a) ≡ field k (stable_locked from_desired b)
  unfolding stable_fields locked_service_view
  locked_field from_desired a b h k =
      sort_keys-field locale_before k _ _ (locked-Distinct from_desired a)
        (locked-Distinct from_desired b)
        (ap (sort_keys locale_before)
            (sym (map-present (stable_value locale_before) (locked_fields from_desired a)))
          ∙ h
          ∙ ap (sort_keys locale_before)
              (map-present (stable_value locale_before) (locked_fields from_desired b)))

  -- A field that may be absent.
  optional_eq :
      {A : Type 0} (write : A → Json)
      → ((x y : A)
          → stable_value locale_before (write x) ≡ stable_value locale_before (write y)
          → x ≡ y)
      → (a b : Option A)
      → Option.map (stable_value locale_before) (Option.map write a)
        ≡ Option.map (stable_value locale_before) (Option.map write b)
      → a ≡ b
  optional_eq write f none none h = refl
  optional_eq write f none (some y) h = cc
  optional_eq write f (some x) none h = cc
  optional_eq write f (some x) (some y) h = ap some (f x y (cc))

  build_eq :
      (from_desired : Bool) (a b : BaselineService)
      → field "dockerfile" (stable_locked from_desired a)
        ≡ field "dockerfile" (stable_locked from_desired b)
      → field "context" (stable_locked from_desired a)
        ≡ field "context" (stable_locked from_desired b)
      → (from_desired ≡ true) ⊎ ((a.dockerfile ≡ b.dockerfile) × (a.context ≡ b.context))
  unfolding stable_value
  build_eq true a b d c = inl refl
  build_eq false a b d c =
      let d' : some (value (text a.dockerfile)) ≡ some (value (text b.dockerfile)) = d in
      let c' : some (value (text a.context)) ≡ some (value (text b.context)) = c in inr (cc, cc)

  stable_fields-SameIdentity :
      (from_desired : Bool) (a b : BaselineService)
      → stable_fields locale_before (locked_service_view from_desired a)
        ≡ stable_fields locale_before (locked_service_view from_desired b)
      → SameIdentity from_desired a b
  unfolding stable_value
  stable_fields-SameIdentity from_desired a b h =
      let at : (k : String)
          → field k (stable_locked from_desired a) ≡ field k (stable_locked from_desired b) =
        locked_field from_desired a b h in
      let n : some (value (text a.name)) ≡ some (value (text b.name)) = at "name" in
      let r : some (object (sort_keys locale_before (present (rollout_fields a.rollout))))
          ≡ some (object (sort_keys locale_before (present (rollout_fields b.rollout)))) =
        at "rollout" in
      let v : some (
            objects
              (map (sort_keys locale_before) (map (λ v. present (volume_fields v)) a.volumes)))
          ≡ some (
              objects
                (map (sort_keys locale_before) (map (λ v. present (volume_fields v)) b.volumes))) =
        at "volumes" in
      record {
        name = cc;
        cron = optional_eq (λ c. value (text c)) (λ x y e. cc) a.cron b.cron (at "cron");
        build = build_eq from_desired a b (at "dockerfile") (at "context");
        port = optional_eq (λ p. value (number p)) (λ x y e. cc) a.port b.port (at "port");
        health_check =
            optional_eq (λ h. object (present (health_fields h)))
              (λ x y e. health_check_eq x y (cc)) a.health_check b.health_check (at "healthCheck");
        rollout = rollout_eq a.rollout b.rollout (cc);
        volumes = volumes_eq a.volumes b.volumes (cc);
        database =
            optional_eq (λ d. object (present (database_fields d))) (λ x y e. database_eq x y (cc))
              a.database b.database (at "database");
      }

  module _ {Written : Type 0} (stringify : Dict Json → Written) (same : Discrete Written)
      (stringify-injective : (x y : Dict Json) → stringify x ≡ stringify y → x ≡ y) where
    pub identity_changed_iff :
        (from_desired : Bool) (a b : BaselineService)
        → (identity_changed locale_before stringify same from_desired a b ≡ false)
          ↔ SameIdentity from_desired a b
    unfolding identity_changed stable_json
    identity_changed_iff from_desired a b =
        let (l, r) = equal_iff (
          same (stringify (stable_fields locale_before (locked_service_view from_desired a)))
            (stringify (stable_fields locale_before (locked_service_view from_desired b)))) in
        (
          λ h. stable_fields-SameIdentity from_desired a b (stringify-injective _ _ (l h)),
          λ i. r (
              ap (λ v. stringify (stable_fields locale_before v))
                (SameIdentity-view from_desired a b i)),
        )
