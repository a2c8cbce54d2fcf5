-- ===== src/Alerts/Faults.antt =====
-- Which alerts there are.
use launch_pad.Prelude.{
  ◌==◌, ltb, leb, ℕ, ◌-◌, ◌<◌, String, Bool, true, false, ◌&&◌, Option, none, some, List, [], ◌∷◌,
  ◌≡◌, refl, ◌↔◌, ◌⊎◌, inl, inr, arith, Bool-cases, or_else,
}
use mathlib.Core.Path.{subst}
use launch_pad.Prelude.Occurs.{Occurs, Occurs-sort, Occurs-append, append-Occurs, sort-Occurs}
use launch_pad.Alerts.{
  Alert, AlertNodeInput, ServiceStatus, NodeStatus, ServiceState, error, is_live_state, is_error,
  stale_alert, unhealthy_alert, default_boot_grace_ms, heartbeat_stale_ms, service_alert,
  service_alerts, is_heartbeat_stale, boot_alerts, status_alerts, live_alerts, node_alerts,
  alerts_from, alert_before, evaluate_alerts,
}

-- In error, or with none of the replicas that it should have.
abbrev IsDown : ServiceStatus → Type 0
IsDown s = (s.state ≡ error) ⊎ ((0 < s.desired_replicas) × (s.running_replicas ≡ 0))

is_error-eq : (state : ServiceState) → is_error state ≡ true → state ≡ error
is_error-eq error h = refl
is_error-eq _ h = cc

only : {A : Type 0} {x y : A} → Occurs x (y ∷ []) → x ≡ y
only (inl e) = e
only (inr h) = absurd h

-- The alerts of the services of a node.
module _ (n : AlertNodeInput) where
  service_alert-IsDown :
      (s : ServiceStatus) (a : Alert)
      → Occurs a (service_alert n s)
      → (a ≡ unhealthy_alert n s) × IsDown s
  unfolding service_alert
  service_alert-IsDown s a h = elim (Bool-cases (is_error s.state)) [
    | inl e ↦ (only (rw e at h), inl (is_error-eq s.state e))
    | inr e ↦ elim (Bool-cases (ltb 0 s.desired_replicas && s.running_replicas == 0)) [
      | inl f ↦ (only (rw (e, f) at h), inr (ground arith, ground arith))
      | inr f ↦ absurd (rw (e, f) at h)
    ]
  ]

  IsDown-service_alert :
      (s : ServiceStatus) → IsDown s → Occurs (unhealthy_alert n s) (service_alert n s)
  unfolding service_alert
  IsDown-service_alert s (inl e) = rw e (inl refl)
  IsDown-service_alert s (inr (some_wanted, none_running)) = elim (Bool-cases (is_error s.state)) [
    | inl e ↦ rw e (inl refl)
    | inr e ↦
        let down : (ltb 0 s.desired_replicas && s.running_replicas == 0) ≡ true = ground arith in
        rw (e, down) (inl refl)
  ]

  service_alerts-IsDown :
      (ss : List ServiceStatus) (a : Alert)
      → Occurs a (service_alerts n ss)
      → (s : ServiceStatus) × Occurs s ss × (a ≡ unhealthy_alert n s) × IsDown s
  unfolding service_alerts
  service_alerts-IsDown [] a h = absurd h
  service_alerts-IsDown (s ∷ ss) a h =
      elim (Occurs-append a (service_alert n s) (service_alerts n ss) h) [
        | inl here ↦ let (e, d) = service_alert-IsDown s a here in (s, inl refl, e, d)
        | inr later ↦ let (t, o, e, d) = service_alerts-IsDown ss a later in (t, inr o, e, d)
      ]

  IsDown-service_alerts :
      (ss : List ServiceStatus) (s : ServiceStatus)
      → Occurs s ss
      → IsDown s
      → Occurs (unhealthy_alert n s) (service_alerts n ss)
  unfolding service_alerts
  IsDown-service_alerts [] s o d = absurd o
  IsDown-service_alerts (t ∷ ss) s (inl e) d =
      append-Occurs (unhealthy_alert n s) (service_alert n t) (service_alerts n ss) (
        inl (
          subst (λ t. Occurs (unhealthy_alert n s) (service_alert n t)) e
            (IsDown-service_alert s d)))
  IsDown-service_alerts (t ∷ ss) s (inr o) d =
      append-Occurs (unhealthy_alert n s) (service_alert n t) (service_alerts n ss)
        (inr (IsDown-service_alerts ss s o d))

module _ (parse_date : String → Option ℕ) (now_ms stale_ms boot_grace_ms : ℕ) where
  -- What is broken on a node that should be up: it never reported though it had the time to boot, its
  -- heartbeat is stale, or one of its services is down while the heartbeat is fresh.
  pub data IsFault (n : AlertNodeInput) : Alert → Type 0 where
    never_reported :
        (created : ℕ)
        → is_live_state n.state ≡ true
        → n.status ≡ none
        → parse_date n.created_at ≡ some created
        → boot_grace_ms < now_ms - created
        → IsFault n (stale_alert n)
    stale :
        (status : NodeStatus)
        → is_live_state n.state ≡ true
        → n.status ≡ some status
        → is_heartbeat_stale parse_date status.last_seen now_ms stale_ms ≡ true
        → IsFault n (stale_alert n)
    down :
        (status : NodeStatus) (s : ServiceStatus)
        → is_live_state n.state ≡ true
        → n.status ≡ some status
        → is_heartbeat_stale parse_date status.last_seen now_ms stale_ms ≡ false
        → Occurs s status.services
        → IsDown s
        → IsFault n (unhealthy_alert n s)

  abbrev IsAlertOf : AlertNodeInput → Alert → Type 0
  IsAlertOf n a = Occurs a (node_alerts parse_date now_ms stale_ms boot_grace_ms n)

  boot_alerts-IsFault :
      (n : AlertNodeInput) (created : Option ℕ) (a : Alert)
      → is_live_state n.state ≡ true
      → n.status ≡ none
      → parse_date n.created_at ≡ created
      → Occurs a (boot_alerts parse_date now_ms stale_ms boot_grace_ms n created)
      → IsFault n a
  unfolding boot_alerts
  boot_alerts-IsFault n none a live silent p h = absurd h
  boot_alerts-IsFault n (some created) a live silent p h =
      elim (Bool-cases (leb (now_ms - created) boot_grace_ms)) [
        | inl e ↦ absurd (rw e at h)
        | inr e ↦ rw (only (rw e at h)) (never_reported created live silent p (ground arith))
      ]

  status_alerts-IsFault :
      (n : AlertNodeInput) (status : NodeStatus) (a : Alert)
      → is_live_state n.state ≡ true
      → n.status ≡ some status
      → Occurs a (status_alerts parse_date now_ms stale_ms boot_grace_ms n status)
      → IsFault n a
  unfolding status_alerts
  status_alerts-IsFault n status a live known h =
      elim (Bool-cases (is_heartbeat_stale parse_date status.last_seen now_ms stale_ms)) [
        | inl e ↦ rw (only (rw e at h)) (stale status live known e)
        | inr e ↦
            let (s, o, same, d) = service_alerts-IsDown n status.services a (rw e at h) in
            rw same (down status s live known e o d)
      ]

  live_alerts-IsFault :
      (n : AlertNodeInput) (status : Option NodeStatus) (a : Alert)
      → is_live_state n.state ≡ true
      → n.status ≡ status
      → Occurs a (live_alerts parse_date now_ms stale_ms boot_grace_ms n status)
      → IsFault n a
  unfolding live_alerts
  live_alerts-IsFault n none a live known h =
      boot_alerts-IsFault n (parse_date n.created_at) a live known refl h
  live_alerts-IsFault n (some status) a live known h = status_alerts-IsFault n status a live known h

  node_alerts-IsFault : (n : AlertNodeInput) (a : Alert) → IsAlertOf n a → IsFault n a
  unfolding node_alerts
  node_alerts-IsFault n a h = elim (Bool-cases (is_live_state n.state)) [
    | inl e ↦ live_alerts-IsFault n n.status a e refl (rw e at h)
    | inr e ↦ absurd (rw e at h)
  ]

  IsFault-node_alerts : (n : AlertNodeInput) (a : Alert) → IsFault n a → IsAlertOf n a
  unfolding node_alerts live_alerts boot_alerts status_alerts
  IsFault-node_alerts n a (never_reported created live silent p late) =
      let past : leb (now_ms - created) boot_grace_ms ≡ false = ground arith in
      rw (live, silent, live_alerts, p, past) (inl refl)
  IsFault-node_alerts n a (stale status live known s) = rw (live, known, live_alerts, s) (inl refl)
  IsFault-node_alerts n a (down status s live known fresh o d) =
      rw (live, known, live_alerts, fresh) (IsDown-service_alerts n status.services s o d)

  alerts_from_iff :
      (nodes : List AlertNodeInput) (a : Alert)
      → Occurs a (alerts_from parse_date now_ms stale_ms boot_grace_ms nodes)
        ↔ ((n : AlertNodeInput) × Occurs n nodes × IsFault n a)
  unfolding alerts_from
  alerts_from_iff [] a = (λ h. absurd h, λ (n, o, f). absurd o)
  alerts_from_iff (m ∷ nodes) a =
      let here = node_alerts parse_date now_ms stale_ms boot_grace_ms m in
      let later = alerts_from parse_date now_ms stale_ms boot_grace_ms nodes in
      (
        λ h. elim (Occurs-append a here later h) [
          | inl o ↦ (m, inl refl, node_alerts-IsFault m a o)
          | inr o ↦ let (n, there, f) = (alerts_from_iff nodes a).0 o in (n, inr there, f)
        ],
        λ (n, o, f). append-Occurs a here later (elim o [
          | inl e ↦ inl (subst (λ n. IsAlertOf n a) e (IsFault-node_alerts n a f))
          | inr there ↦ inr ((alerts_from_iff nodes a).1 (n, there, f))
        ]),
      )

-- There is an alert exactly where something is broken on one of the nodes that should be up: it never
-- reported though it had the time to boot, its heartbeat is stale, or its heartbeat is fresh and a
-- service is in error or has none of the replicas that it should have. The two times are those given,
-- or ten minutes and one minute.
pub evaluate_alerts_iff :
    (parse_date : String → Option ℕ) (locale_before : String → String → Bool)
    (nodes : List AlertNodeInput) (now_ms : ℕ) (stale_ms boot_grace_ms : Option ℕ) (a : Alert)
    → Occurs a (evaluate_alerts parse_date locale_before nodes now_ms stale_ms boot_grace_ms) ↔ (
        (n : AlertNodeInput) × Occurs n nodes
        × IsFault parse_date now_ms
            (or_else stale_ms heartbeat_stale_ms)
            (or_else boot_grace_ms default_boot_grace_ms)
            n
            a)
unfolding evaluate_alerts
evaluate_alerts_iff parse_date locale_before nodes now_ms stale_ms boot_grace_ms a =
    let stale_after = or_else stale_ms heartbeat_stale_ms in
    let grace = or_else boot_grace_ms default_boot_grace_ms in
    let found = alerts_from_iff parse_date now_ms stale_after grace nodes a in
    let before = alert_before parse_date locale_before in
    (λ h. found.0 (Occurs-sort before a _ h), λ f. sort-Occurs before a _ (found.1 f))
