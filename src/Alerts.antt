-- ===== src/Alerts.antt =====
-- packages/cli/src/alerts/evaluate.ts: what is broken on the nodes of a cluster, without the texts of
-- the alerts; of a status document (packages/shared/src/status.ts) it has what the alerts read.
-- `Date.parse` (of moments after 1970) and `localeCompare` are parameters. A difference of moments
-- below 0 counts as 0: no threshold is below it.
pub mod Faults
use launch_pad.Prelude.{
  ◌==◌, ltb, leb, ℕ, ◌-◌, ◌*◌, String, Bool, true, false, not, ◌&&◌, ◌||◌, Option, none, some, List,
  [], ◌∷◌, ◌++◌, if◌then◌else◌, or_else,
}
use launch_pad.Prelude.Sort.{sort}
use launch_pad.Registry.{NodeState, provisioning, ready}
use launch_pad.Merge.{service_key}

pub data AlertSeverity : Type 0 where
  warning critical : AlertSeverity

pub data AlertKind : Type 0 where
  heartbeat_stale service_unhealthy : AlertKind

pub record Alert : Type 0 where
  pub node_id : String
  pub kind : AlertKind
  pub severity : AlertSeverity
  pub service : Option String

pub data ServiceState : Type 0 where
  pending pulling starting running stopping error stopped : ServiceState

pub record ServiceStatus : Type 0 where
  pub project : String
  pub service : String
  pub state : ServiceState
  pub desired_replicas : ℕ
  pub running_replicas : ℕ

pub record NodeStatus : Type 0 where
  pub last_seen : String
  pub services : List ServiceStatus

abbrev pub default_boot_grace_ms : ℕ
default_boot_grace_ms = 10 * 60000

abbrev pub heartbeat_stale_ms : ℕ
heartbeat_stale_ms = 60000

pub record AlertNodeInput : Type 0 where
  pub node_id : String
  pub state : NodeState
  pub created_at : String
  pub status : Option NodeStatus

abbrev pub severity_rank : AlertSeverity → ℕ
severity_rank critical = 0
severity_rank warning = 1

abbrev pub is_live_state : NodeState → Bool
is_live_state ready = true
is_live_state provisioning = true
is_live_state _ = false

abbrev pub is_error : ServiceState → Bool
is_error error = true
is_error _ = false

abbrev pub stale_alert : AlertNodeInput → Alert
stale_alert n = record {
  node_id = n.node_id;
  kind = heartbeat_stale;
  severity = critical;
  service = none;
}

abbrev pub unhealthy_alert : AlertNodeInput → ServiceStatus → Alert
unhealthy_alert n s = record {
  node_id = n.node_id;
  kind = service_unhealthy;
  severity = critical;
  service = some (service_key s.project s.service);
}

-- The body of the loop over a node's services, and the loop.
unfoldable pub service_alert : AlertNodeInput → ServiceStatus → List Alert
service_alert n s =
    if is_error s.state
    then unhealthy_alert n s ∷ []
    else if ltb 0 s.desired_replicas && s.running_replicas == 0
    then unhealthy_alert n s ∷ []
    else []

unfoldable pub service_alerts : AlertNodeInput → List ServiceStatus → List Alert
service_alerts n [] = []
service_alerts n (s ∷ ss) = service_alert n s ++ service_alerts n ss

unfoldable pub seen_stale : Option ℕ → ℕ → ℕ → Bool
seen_stale none now_ms stale_ms = true
seen_stale (some seen) now_ms stale_ms = ltb stale_ms (now_ms - seen)

module _ (parse_date : String → Option ℕ) where
  unfoldable pub is_heartbeat_stale : String → ℕ → ℕ → Bool
  is_heartbeat_stale last_seen now_ms stale_ms = seen_stale (parse_date last_seen) now_ms stale_ms

  module _ (now_ms stale_ms boot_grace_ms : ℕ) where
    -- Of a node that never reported, created at a moment that may not parse.
    unfoldable pub boot_alerts : AlertNodeInput → Option ℕ → List Alert
    boot_alerts n none = []
    boot_alerts n (some created) =
        if leb (now_ms - created) boot_grace_ms then [] else stale_alert n ∷ []

    unfoldable pub status_alerts : AlertNodeInput → NodeStatus → List Alert
    status_alerts n status =
        if is_heartbeat_stale status.last_seen now_ms stale_ms
        then stale_alert n ∷ []
        else service_alerts n status.services

    unfoldable pub live_alerts : AlertNodeInput → Option NodeStatus → List Alert
    live_alerts n none = boot_alerts n (parse_date n.created_at)
    live_alerts n (some status) = status_alerts n status

    -- The body of the loop over the nodes, and the loop.
    unfoldable pub node_alerts : AlertNodeInput → List Alert
    node_alerts n = if not (is_live_state n.state) then [] else live_alerts n n.status

    unfoldable pub alerts_from : List AlertNodeInput → List Alert
    alerts_from [] = []
    alerts_from (n ∷ ns) = node_alerts n ++ alerts_from ns

  module _ (locale_before : String → String → Bool) where
    unfoldable pub alert_before : Alert → Alert → Bool
    alert_before a b =
        ltb (severity_rank a.severity) (severity_rank b.severity)
        || severity_rank a.severity == severity_rank b.severity && locale_before a.node_id b.node_id

    -- The options default to the two constants.
    unfoldable pub evaluate_alerts : List AlertNodeInput → ℕ → Option ℕ → Option ℕ → List Alert
    evaluate_alerts nodes now_ms stale_ms boot_grace_ms = sort alert_before (
        alerts_from now_ms (or_else stale_ms heartbeat_stale_ms)
          (or_else boot_grace_ms default_boot_grace_ms) nodes)
