-- ===== src/Deploy/Made.antt =====
-- What a node's service config keeps of the declaration that a deploy made it of.
use launch_pad.Prelude.{
  Result, ok, err, ℕ, zero, suc, ◌<◌, String, true, Option, none, some, ◌≡◌, refl, sym, ap, ◌∙◌,
  ◌↔◌, inl, arith,
}
use launch_pad.Service.{ServiceConfig, Ingress}
use launch_pad.Config.{ServiceDecl}
use launch_pad.ConfigLock.{
  DeployedFootprint, resolved_health_check, database_identity, service_snapshot,
}
use launch_pad.ConfigLock.Identity.{SameIdentity}
use launch_pad.Footprint.{new_footprint, grown, sort_node_ids, footprint_baseline, nonzero}
use launch_pad.Deploy.{AwsEnv, Built, ingress_of, config_with_ingress, to_service_config}

-- What `ServiceDeclSchema` accepts: a domain and a port or neither, and ports from 1 on.
pub record IsValid (decl : ServiceDecl) : Type 0 where
  pub both : (decl.domain ≡ none) ↔ (decl.port ≡ none)
  pub positive : (port : ℕ) → decl.port ≡ some port → 0 < port

-- A service on a node is what some deploy made of the declaration: with any image, replica count,
-- edge, environment and restart, and with a domain where the declaration has one.
pub record IsMadeOf (aws : AwsEnv) (owner : String) (decl : ServiceDecl) (s : ServiceConfig)
    : Type 0 where
  pub built : Built
  pub replicas : ℕ
  pub edge : Option String
  pub env : Option String
  pub restart_at : Option String
  pub of_decl : built.decl ≡ decl
  pub domain : (built.domain ≡ none) ↔ (decl.domain ≡ none)
  pub made : to_service_config aws owner built replicas edge env restart_at ≡ ok s

-- What the lock reads of a footprint.
pub record IsOf (decl : ServiceDecl) (fp : DeployedFootprint) : Type 0 where
  pub service : fp.service ≡ decl.name
  pub cron : fp.cron ≡ decl.cron
  pub port : elim fp.ingress [ none ↦ none | some i ↦ nonzero i.port ] ≡ decl.port
  pub health_check : fp.health_check ≡ resolved_health_check decl.health_check decl.port
  pub rollout : fp.rollout ≡ decl.rollout
  pub volumes : fp.volumes ≡ decl.volumes
  pub database : fp.database ≡ decl.database

nonzero_positive : (port : ℕ) → 0 < port → nonzero port ≡ some port
nonzero_positive zero h = absurd (omega arith)
nonzero_positive (suc port) h = refl

-- The ingress carries the port of the declaration.
ingress_port :
    (name : String) (domain : Option String) (port : Option ℕ) (edge : Option String)
    (ingress : Option Ingress)
    → ((domain ≡ none) ↔ (port ≡ none))
    → ((p : ℕ) → port ≡ some p → 0 < p)
    → ingress_of name domain port edge ≡ ok ingress
    → elim ingress [ none ↦ none | some i ↦ nonzero i.port ] ≡ port
unfolding ingress_of
ingress_port name none port edge ingress both positive h =
    let e : none ≡ ingress = cc in rw (sym e) (sym (both.0 refl))
ingress_port name (some d) none edge ingress both positive h = absurd (let k = both.1 refl in cc)
ingress_port name (some d) (some port) none ingress both positive h = absurd (cc)
ingress_port name (some d) (some port) (some at) ingress both positive h =
    let e : some (record { domain = d; port = port; edge = at }) ≡ ingress = cc in
    rw (sym e) (nonzero_positive port (positive port refl))

made_of :
    {E A B : Type 0} (r : Result E A) (f : A → B) {b : B}
    → elim r [ err e ↦ err e | ok a ↦ ok (f a) ] ≡ ok b
    → (a : A) × (r ≡ ok a) × (f a ≡ b)
made_of (err e) f h = absurd (cc)
made_of (ok a) f h = (a, refl, cc)

made_ingress :
    (aws : AwsEnv) (owner : String) (b : Built) (replicas : ℕ) (edge env restart_at : Option String)
    {s : ServiceConfig}
    → to_service_config aws owner b replicas edge env restart_at ≡ ok s
    → (ingress : Option Ingress) × (ingress_of b.decl.name b.domain b.decl.port edge ≡ ok ingress)
      × (config_with_ingress aws owner b replicas env restart_at ingress ≡ s)
unfolding to_service_config
made_ingress aws owner b replicas edge env restart_at {s} h =
    made_of (ingress_of b.decl.name b.domain b.decl.port edge)
      (config_with_ingress aws owner b replicas env restart_at) h

-- A footprint that starts with a service of the declaration is of the declaration.
pub new_footprint-IsOf :
    (aws : AwsEnv) (owner : String) (decl : ServiceDecl) (node : String) (s : ServiceConfig)
    → IsValid decl
    → IsMadeOf aws owner decl s
    → IsOf decl (new_footprint node s)
unfolding new_footprint config_with_ingress
new_footprint-IsOf aws owner decl node s valid made =
    let (ingress, i, e) =
      made_ingress aws owner made.built made.replicas made.edge made.env made.restart_at
        made.made in
    let b = made.built in
    let port : elim ingress [ none ↦ none | some i ↦ nonzero i.port ] ≡ b.decl.port =
      ingress_port b.decl.name b.domain b.decl.port made.edge ingress
        (let same = made.domain in
          let d = made.of_decl in
          let both = valid.both in rw d ((λ h. both.0 (same.0 h), λ h. same.1 (both.1 h))))
        (let d = made.of_decl in rw d (valid.positive)) i in
    let d = made.of_decl in
    rw (sym e) (record {
      service = ap (λ d. d.name) d;
      cron = ap (λ d. d.cron) d;
      port = port ∙ ap (λ d. d.port) d;
      health_check = ap (λ d. resolved_health_check d.health_check d.port) d;
      rollout = ap (λ d. d.rollout) d;
      volumes = ap (λ d. d.volumes) d;
      database = ap (λ d. d.database) d;
    })

pub grown-IsOf :
    (decl : ServiceDecl) (fp : DeployedFootprint) (node : String) (r : ℕ)
    → IsOf decl fp
    → IsOf decl (grown fp node r)
unfolding grown
grown-IsOf decl fp node r h = record {
  service = h.service;
  cron = h.cron;
  port = h.port;
  health_check = h.health_check;
  rollout = h.rollout;
  volumes = h.volumes;
  database = h.database;
}

pub sorted-IsOf :
    (decl : ServiceDecl) (fp : DeployedFootprint) → IsOf decl fp → IsOf decl (sort_node_ids fp)
unfolding sort_node_ids
sorted-IsOf decl fp h = record {
  service = h.service;
  cron = h.cron;
  port = h.port;
  health_check = h.health_check;
  rollout = h.rollout;
  volumes = h.volumes;
  database = h.database;
}

pub IsOf-SameIdentity :
    (decl : ServiceDecl) (fp : DeployedFootprint)
    → IsOf decl fp
    → SameIdentity true (footprint_baseline fp) (service_snapshot decl)
unfolding footprint_baseline service_snapshot
IsOf-SameIdentity decl fp h = record {
  name = h.service;
  cron = h.cron;
  build = inl refl;
  port = h.port;
  health_check = h.health_check;
  rollout = h.rollout;
  volumes = h.volumes;
  database = ap database_identity h.database;
}
