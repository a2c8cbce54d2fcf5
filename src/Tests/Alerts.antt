-- ===== src/Tests/Alerts.antt =====
-- Alerts of a ready node with a service in error, and of a paused one.
use launch_pad.Prelude.{
  str_lt, ℕ, String, Option, none, some, [], ◌∷◌, ◌≡◌, refl, ◌↔◌, if◌then◌else◌, str_eq,
}
use launch_pad.Prelude.Occurs.{Occurs}
use launch_pad.Prelude.Sort.{sort, insert_sorted}
use launch_pad.Registry.{ready, stopped}
use launch_pad.Alerts.{
  AlertNodeInput, ServiceStatus, error, running, service_alert, service_alerts, unhealthy_alert,
  seen_stale, is_heartbeat_stale, status_alerts, live_alerts, node_alerts, alerts_from,
  evaluate_alerts, default_boot_grace_ms, heartbeat_stale_ms,
}
use launch_pad.Alerts.Faults.{IsFault, evaluate_alerts_iff}

abbrev at_moment : String → Option ℕ
at_moment iso = if str_eq iso "t" then some 1000 else none

abbrev failing : ServiceStatus
failing = record {
  project = "p";
  service = "web";
  state = error;
  desired_replicas = 1;
  running_replicas = 1;
}

abbrev fine : ServiceStatus
fine = record {
  project = "p";
  service = "api";
  state = running;
  desired_replicas = 3;
  running_replicas = 2;
}

abbrev up : AlertNodeInput
up = record {
  node_id = "a";
  state = ready;
  created_at = "t";
  status = some (record { last_seen = "t"; services = fine ∷ failing ∷ [] });
}

abbrev asleep : AlertNodeInput
asleep = record { node_id = "b"; state = stopped; created_at = "t"; status = none }

evaluate_alerts_test :
    evaluate_alerts at_moment str_lt (asleep ∷ up ∷ []) 61000 none none
    ≡ unhealthy_alert up failing ∷ []
unfolding evaluate_alerts alerts_from node_alerts live_alerts status_alerts is_heartbeat_stale
    seen_stale service_alerts service_alert sort insert_sorted
evaluate_alerts_test = refl

evaluate_alerts_iff_example :
    Occurs
      (unhealthy_alert up failing)
      (evaluate_alerts at_moment str_lt (asleep ∷ up ∷ []) 61000 none none)
    ↔ ((n : AlertNodeInput) × Occurs n (asleep ∷ up ∷ [])
        × IsFault at_moment 61000 heartbeat_stale_ms default_boot_grace_ms n
            (unhealthy_alert up failing))
evaluate_alerts_iff_example =
    evaluate_alerts_iff at_moment str_lt (asleep ∷ up ∷ []) 61000 none none
      (unhealthy_alert up failing)
