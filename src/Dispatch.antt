-- ===== src/Dispatch.antt =====
-- The sending of alerts in internal/app/runner.go: `dispatchPendingMonitorAlerts`, the retries of
-- its failed writes, and `retryAlertNotifications`. Rounds exclude one another (`alertDispatchMu`).
pub mod Once
pub mod Steps
pub mod Incidents
pub mod Policy
pub mod Attempts
pub mod Calls
use upag.Base.{
  ℕ, zero, suc, String, List, [], ◌∷◌, ◌++◌, Option, none, some, Bool, true, false, not, ◌&&◌, ℤ,
  pos, Fallible, ok, err, ◌==◌, nat_eq, if◌then◌else◌,
}
use upag.Storage.{Incident, MonitorState, AlertNotification}
use upag.Store.{Store, StoreError, Db, available}
use upag.Store.Alerts.{
  DueAlert, list_due_pending_monitor_alerts, claim_pending_monitor_alert,
  record_pending_monitor_alert_delivery, list_due_alert_notification_retries,
  save_alert_notifications,
}
use upag.Alert.{
  IncidentSender, SendResult, NotificationRetriesConfig, send_incident, send_provider, providers,
  string_in_slice, alert_notification, alert_notifications, not_configured,
}

-- `pendingMonitorAlertWrite`, with the id under which the map holds it.
pub record PendingWrite : Type 0 where
  pub id : ℕ
  pub notifications : List AlertNotification
  pub delivered_at : ℕ
  pub incident : Incident

-- A call of `SendProvider` in a retry: the failed notification, and the provider that was called.
pub record Retry : Type 0 where
  pub of : AlertNotification
  pub to : String

-- The store, the map of writes to repeat, the ids of the alerts that were sent to all providers, and
-- the calls of single providers in retries, the newest first.
pub record Outbox : Type 0 where
  pub store : Store
  pub pending_writes : List PendingWrite
  pub sent : List ℕ
  pub retried : List Retry

-- What a round meets: whether the database serves each call, the clock, and the senders.
pub record Round : Type 0 where
  pub now : ℕ
  pub list_db : Db
  pub claim_db : ℕ → Db
  pub record_db : ℕ → Db
  pub retry_db : ℕ → Db
  pub attempted_at : ℕ → ℕ
  pub delivered_at : ℕ → ℕ
  pub senders : List IncidentSender
  pub policy : NotificationRetriesConfig

-- `retryPendingMonitorAlertWrites`. The map has no order; the writes are repeated in the list's.
unfoldable pub retry_writes : Round → List PendingWrite → Store → Store × List PendingWrite
retry_writes r [] s = (s, [])
retry_writes r (w ∷ ws) s =
    let (s', done) =
      record_pending_monitor_alert_delivery (r.record_db w.id) w.id w.notifications w.delivered_at
        s in
    let (s'', left) = retry_writes r ws s' in
    elim done [ ok _ ↦ (s'', left) | err e ↦ (s'', w ∷ left) ]

-- What is sent for one due alert, and how its delivery is recorded.
abbrev pub delivery_of : Round → DueAlert → PendingWrite
delivery_of r d = record {
  id = d.alert.id;
  notifications =
      alert_notifications d.incident.id d.incident.monitor_id (r.attempted_at d.alert.id) 1 r.policy
        (send_incident r.senders d.incident d.current);
  delivered_at = r.delivered_at d.alert.id;
  incident = d.incident;
}

abbrev pub recorded : PendingWrite → Store × Fallible StoreError (Unit {0}) → Outbox → Outbox
recorded w (s, ok _) o = record o { store = s }
recorded w (s, err e) o = record o { store = s; pending_writes = w ∷ o.pending_writes }

-- Sending and recording, after the claim.
abbrev pub deliver_due : Round → DueAlert → Outbox → Outbox
deliver_due r d o =
    let w = delivery_of r d in
    recorded w
      (record_pending_monitor_alert_delivery (r.record_db w.id) w.id w.notifications w.delivered_at
        o.store)
      (record o { sent = w.id ∷ o.sent })

abbrev pub after_claim : Round → DueAlert → Store × Fallible StoreError Bool → Outbox → Outbox
after_claim r d (s, ok true) o = deliver_due r d (record o { store = s })
after_claim r d (s, ok false) o = record o { store = s }
after_claim r d (s, err e) o = record o { store = s }

unfoldable pub send_due : Round → List DueAlert → Outbox → Outbox
unfolding alert_notifications send_incident
send_due r [] o = o
send_due r (d ∷ ds) o =
    send_due r ds
      (after_claim r d (claim_pending_monitor_alert (r.claim_db d.alert.id) d.alert.id o.store) o)

abbrev pub listed : Fallible StoreError (List DueAlert) → List DueAlert
listed (ok ds) = ds
listed (err e) = []

-- A round ends where the query fails: nothing is due then.
unfoldable pub dispatch_pending_monitor_alerts : Round → Outbox → Outbox
unfolding retry_writes send_due
dispatch_pending_monitor_alerts r o =
    let (s, writes) = retry_writes r o.pending_writes o.store in
    let (s', due) = list_due_pending_monitor_alerts r.list_db r.now (pos 50) s in
    send_due r (listed due) (record o { store = s'; pending_writes = writes })

-- The result of a retry, and the calls that it makes. `lookup` gives the incident and the state that
-- the query joins to the notification.
unfoldable pub send_again :
    Round
    → (AlertNotification → Incident × MonitorState)
    → AlertNotification
    → SendResult × List Retry
unfolding string_in_slice providers send_provider
send_again r lookup n =
    let (incident, current) = lookup n in
    if string_in_slice n.provider (providers r.senders)
    then (
      send_provider r.senders n.provider incident current,
      record { of = n; to = n.provider } ∷ [],
    )
    else (not_configured n.provider, [])

-- The notification that a retry stores.
unfoldable pub retry_notification :
    Round → (AlertNotification → Incident × MonitorState) → AlertNotification → AlertNotification
unfolding alert_notification string_in_slice providers send_again
retry_notification r lookup n =
    let configured = string_in_slice n.provider (providers r.senders) in
    let made =
      alert_notification n.incident_id n.monitor_id (r.attempted_at n.id) (suc n.attempt_number)
        r.policy (send_again r lookup n).0 in
    if not configured then record made { retry_exhausted = true; next_retry_at = 0 } else made

-- The loop of `retryAlertNotifications`: a write that fails is logged, and the loop goes on.
unfoldable pub retry_all :
    Round → (AlertNotification → Incident × MonitorState) → List AlertNotification → Outbox → Outbox
unfolding retry_notification send_again
retry_all r lookup [] o = o
retry_all r lookup (n ∷ ns) o = retry_all r lookup ns (record o {
  store =
      (save_alert_notifications (r.retry_db n.id) (retry_notification r lookup n ∷ []) o.store).0;
  retried = (send_again r lookup n).1 ++ o.retried;
})

abbrev pub due_retries : Fallible StoreError (List AlertNotification) → List AlertNotification
due_retries (ok ns) = ns
due_retries (err e) = []

unfoldable pub retry_alert_notifications :
    Round → (AlertNotification → Incident × MonitorState) → Outbox → Outbox
unfolding dispatch_pending_monitor_alerts retry_all
retry_alert_notifications r lookup o =
    let o' = dispatch_pending_monitor_alerts r o in
    let (s, due) = list_due_alert_notification_retries r.list_db r.now (pos 50) o'.store in
    retry_all r lookup (due_retries due) (record o' { store = s })
