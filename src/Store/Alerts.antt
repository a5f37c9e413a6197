-- ===== src/Store/Alerts.antt =====
-- The methods behind the delivery of alerts: the queue of pending messages, and the notifications
-- with their retries.
pub mod Queue
pub mod Lifecycle
pub mod Delivery
use upag.Base.{
  ℕ, suc, String, List, [], ◌∷◌, ◌++◌, Option, none, some, Bool, true, false, not, ◌&&◌, ◌||◌, any,
  all, keep, take, ltb, order_by, is_positive, positive_or, ℤ, Fallible, ok, err, ◌==◌, nat_eq,
  string_eq, if◌then◌else◌,
}
use upag.SqlTime.{sql_lt, sql_le}
use upag.State.{Status, unset, status_eq}
use upag.Storage.{
  MonitorState, Incident, PendingAlert, AlertState, AlertNotification, PendingStatus, pending,
  sending, delivered, pending_eq, ObserverState,
}
use upag.Store.Defs.{
  Store, StoreError, not_claimed, not_found, database, Db, available, broken, transaction,
  find_state, status_of,
}

unfoldable pub find_alert : ℕ → List PendingAlert → Option PendingAlert
find_alert id [] = none
find_alert id (p ∷ ps) = let rest = find_alert id ps in if p.id == id then some p else rest

unfoldable pub find_incident : ℕ → List Incident → Option Incident
find_incident id [] = none
find_incident id (i ∷ is) = let rest = find_incident id is in if i.id == id then some i else rest

-- The state of the alert's monitor is still the one that the alert is about.
abbrev pub is_current : List MonitorState → PendingAlert → Bool
is_current states p = elim (find_state p.monitor_id states) [
  | none ↦ false
  | some m ↦ m.status == p.transition
]

abbrev pub DueAlert : Type 0
DueAlert = record { alert : PendingAlert; incident : Incident; current : MonitorState }

-- The joins and the condition of `ListDuePendingMonitorAlerts`.
unfoldable pub due_rows : ℕ → Store → List PendingAlert → List DueAlert
unfolding find_incident
due_rows now s [] = []
due_rows now s (p ∷ ps) =
    let rest = due_rows now s ps in
    elim (find_incident p.incident_id s.incidents) [
      | none ↦ rest
      | some i ↦ elim (find_state p.monitor_id s.states) [
        | none ↦ rest
        | some m ↦
            if p.status == pending && sql_le p.due_at now && (m.status == p.transition)
            then record { alert = p; incident = i; current = m } ∷ rest
            else rest
      ]
    ]

abbrev due_before : DueAlert → DueAlert → Bool
due_before a b =
    sql_lt a.alert.due_at b.alert.due_at
    || not (sql_lt b.alert.due_at a.alert.due_at) && ltb a.alert.id b.alert.id

unfoldable pub list_due_pending_monitor_alerts :
    Db → ℕ → ℤ → Store → Store × Fallible StoreError (List DueAlert)
unfolding due_rows
list_due_pending_monitor_alerts db now limit = transaction db (λ s.
    (s, ok (take (positive_or limit 50) (order_by due_before (due_rows now s s.pending_alerts)))))

unfoldable pub is_claimable : ℕ → List MonitorState → PendingAlert → Bool
is_claimable id states p = p.id == id && (p.status == pending) && is_current states p

unfoldable pub claim_row : ℕ → List MonitorState → PendingAlert → PendingAlert
claim_row id states p = if is_claimable id states p then record p { status = sending } else p

unfoldable pub claim_rows : ℕ → List MonitorState → List PendingAlert → List PendingAlert
claim_rows id states [] = []
claim_rows id states (p ∷ ps) = claim_row id states p ∷ claim_rows id states ps

-- The id is the primary key, so the update changes one row or none.
unfoldable pub claim_pending_monitor_alert : Db → ℕ → Store → Store × Fallible StoreError Bool
unfolding is_claimable claim_row claim_rows
claim_pending_monitor_alert db id = transaction db (λ s. (
  record s { pending_alerts = claim_rows id s.states s.pending_alerts },
  ok (any (is_claimable id s.states) s.pending_alerts),
))

unfoldable pub deliver_rows : ℕ → ℕ → List PendingAlert → List PendingAlert
deliver_rows id delivered_at [] = []
deliver_rows id delivered_at (p ∷ ps) =
    (if p.id == id && (p.status == sending)
      then record p { status = delivered; delivered_at = delivered_at }
      else p)
    ∷ deliver_rows id delivered_at ps

-- The inserts of a loop over notifications; `attempt_number` 0 is stored as 1.
unfoldable pub insert_notifications : List AlertNotification → Store → Store
insert_notifications [] s = s
insert_notifications (n ∷ ns) s = insert_notifications ns (record s {
  notifications =
      record n {
        id = s.next_notification_id;
        attempt_number = if n.attempt_number == 0 then 1 else n.attempt_number;
      }
      ∷ s.notifications;
  next_notification_id = suc s.next_notification_id;
})

unfoldable pub set_alert_state : AlertState → List AlertState → List AlertState
set_alert_state a [] = a ∷ []
set_alert_state a (b ∷ bs) =
    let rest = set_alert_state a bs in if b.monitor_id == a.monitor_id then a ∷ bs else b ∷ rest

-- What the transaction writes once the row is known to be claimed.
abbrev pub deliver : PendingAlert → List AlertNotification → ℕ → Store → Store
deliver p notifications delivered_at s =
    let s' =
      insert_notifications notifications
        (record s { pending_alerts = deliver_rows p.id delivered_at s.pending_alerts }) in
    record s' {
      alert_states =
          set_alert_state
            (record {
              monitor_id = p.monitor_id;
              last_notified_status = p.transition;
              updated_at = delivered_at;
            })
            s'.alert_states;
    }

abbrev pub record_row :
    List AlertNotification
    → ℕ
    → Option PendingAlert
    → Store
    → Store × Fallible StoreError (Unit {0})
record_row notifications delivered_at none s = (s, err database)
record_row notifications delivered_at (some p) s =
    if p.status == delivered
    then (s, ok tt)
    else if not (p.status == sending)
    then (s, err not_claimed)
    else (deliver p notifications delivered_at s, ok tt)

-- A missing row is `sql.ErrNoRows` of the driver, passed on as it is.
unfoldable pub record_pending_monitor_alert_delivery :
    Db → ℕ → List AlertNotification → ℕ → Store → Store × Fallible StoreError (Unit {0})
unfolding find_alert deliver_rows insert_notifications set_alert_state
record_pending_monitor_alert_delivery db id notifications delivered_at =
    transaction db (λ s. record_row notifications delivered_at (find_alert id s.pending_alerts) s)

unfoldable pub save_alert_notifications :
    Db → List AlertNotification → Store → Store × Fallible StoreError (Unit {0})
unfolding insert_notifications
save_alert_notifications db [] s = (s, ok tt)
save_alert_notifications db (n ∷ ns) s =
    transaction db (λ s. (insert_notifications (n ∷ ns) s, ok tt)) s

-- A later row for the same incident and provider; the second such clause of the query, about a
-- later success, is implied by it.
abbrev pub is_newer : AlertNotification → AlertNotification → Bool
is_newer n other =
    other.incident_id == n.incident_id && (other.provider == n.provider) && ltb n.id other.id

abbrev pub is_due_retry : List AlertNotification → ℕ → AlertNotification → Bool
is_due_retry rows now n =
    not n.success
    && not n.retry_exhausted
    && not (n.next_retry_at == 0)
    && sql_le n.next_retry_at now
    && not (any (is_newer n) rows)
    && not (any (λ other. is_newer n other && other.success) rows)

abbrev retry_before : AlertNotification → AlertNotification → Bool
retry_before a b =
    sql_lt a.next_retry_at b.next_retry_at
    || not (sql_lt b.next_retry_at a.next_retry_at) && ltb a.id b.id

-- The notifications of `ListDueAlertNotificationRetries`; every one has its incident, by the foreign
-- key, and the columns of the incident and the state that are joined to it are left out.
unfoldable pub list_due_alert_notification_retries :
    Db → ℕ → ℤ → Store → Store × Fallible StoreError (List AlertNotification)
list_due_alert_notification_retries db now limit = transaction db (λ s. (
  s,
  ok (
      take (positive_or limit 50)
        (order_by retry_before (keep (is_due_retry s.notifications now) s.notifications))),
))

unfoldable pub complete_rows : ℕ → ℕ → List PendingAlert → List PendingAlert
complete_rows id delivered_at [] = []
complete_rows id delivered_at (p ∷ ps) =
    (if p.id == id then record p { status = delivered; delivered_at = delivered_at } else p)
    ∷ complete_rows id delivered_at ps

abbrev pub complete_row : ℕ → Option PendingAlert → Store → Store × Fallible StoreError (Unit {0})
unfolding complete_rows set_alert_state
complete_row delivered_at none s = (s, err database)
complete_row delivered_at (some p) s = (
  record s {
    pending_alerts = complete_rows p.id delivered_at s.pending_alerts;
    alert_states =
        set_alert_state
          (record {
            monitor_id = p.monitor_id;
            last_notified_status = p.transition;
            updated_at = delivered_at;
          })
          s.alert_states;
  },
  ok tt,
)

unfoldable pub complete_pending_monitor_alert :
    Db → ℕ → ℕ → Store → Store × Fallible StoreError (Unit {0})
unfolding find_alert complete_row
complete_pending_monitor_alert db id delivered_at =
    transaction db (λ s. complete_row delivered_at (find_alert id s.pending_alerts) s)
