-- ===== src/Store/Alerts/Lifecycle.antt =====
-- Claims of waiting alerts under any sequence of calls of internal/storage/storage.go.
use upag.Base.{
  ℕ, suc, List, [], ◌∷◌, Option, none, some, Bool, true, false, not, ◌&&◌, ◌≤◌, ◌<◌, ◌≡◌, refl,
  arith, ok, err, Fallible, ◌==◌, nat_eq, string_eq, if◌then◌else◌, Bool-cases, inl, inr,
}
use upag.State.{Status, status_eq}
use upag.Storage.{MonitorState, ProbeResult, Incident, PendingAlert, AlertNotification, pending_eq}
use upag.Store.Defs.{Store, StoreError, Db, available, broken, find_state}
use upag.Store.Probes.{
  save_probe_and_state, store_probe, finish_probe, queue_alert, insert_incident,
  status_outside_maintenance,
}
use upag.Store.Probes.Reads.{store_probe_tables}
use upag.Store.Alerts.{
  claim_pending_monitor_alert, deliver_rows, deliver, record_row, find_alert,
  record_pending_monitor_alert_delivery, insert_notifications,
}
use upag.Store.Alerts.Queue.{
  Descending, is_waiting, cancel-Descending, claim-Descending, deliver-Descending,
  cancel-not_waiting, claim-not_waiting, deliver-not_waiting, not_claimable, claimed-not_waiting,
}

-- The calls that touch the queue, in any order: those of the monitors' goroutines and those of the
-- goroutine that sends.
pub data Call : Type 0 where
  stores : Db → ProbeResult → MonitorState → Option Incident → Option ℕ → Call
  claims : Db → ℕ → Call
  records : Db → ℕ → List AlertNotification → ℕ → Call

abbrev pub granted : Fallible StoreError Bool → Bool
granted (ok b) = b
granted (err e) = false

-- The store after a call, and whether it claimed the alert `k`.
abbrev pub step : ℕ → Call → Store → Store × Bool
step k (stores db result next incident due_at) s =
    ((save_probe_and_state db result next incident due_at s).0, false)
step k (claims db id) s =
    let (s', r) = claim_pending_monitor_alert db id s in (s', id == k && granted r)
step k (records db id notifications at) s =
    ((record_pending_monitor_alert_delivery db id notifications at s).0, false)

-- How often the calls claim the alert `k`.
abbrev pub grants : ℕ → List Call → Store → ℕ
grants k [] s = 0
grants k (c ∷ cs) s =
    let (s', won) = step k c s in let rest = grants k cs s' in if won then suc rest else rest

insert_notifications_rest :
    (ns : List AlertNotification) (s : Store)
    → let s' = insert_notifications ns s in
      (s'.pending_alerts ≡ s.pending_alerts) × (s'.next_pending_id ≡ s.next_pending_id)
unfolding insert_notifications
insert_notifications_rest [] s = (refl, refl)
insert_notifications_rest (n ∷ ns) s = insert_notifications_rest ns (record s {
  notifications =
      record n {
        id = s.next_notification_id;
        attempt_number = if n.attempt_number == 0 then 1 else n.attempt_number;
      }
      ∷ s.notifications;
  next_notification_id = suc s.next_notification_id;
})

-- The table is in order, and the alert `k` was made and is not waiting.
abbrev pub Spent : ℕ → Store → Type 0
Spent k s =
    Descending s.next_pending_id s.pending_alerts
    × (k < s.next_pending_id)
    × (is_waiting k s.pending_alerts ≡ false)

abbrev pub InOrder : Store → Type 0
InOrder s = Descending s.next_pending_id s.pending_alerts

queue_alert-step :
    (k : ℕ) (previous_status : Status) (next : MonitorState) (incident_id due_at : ℕ) (s : Store)
    → let s' = queue_alert previous_status next incident_id due_at s in
      (InOrder s → InOrder s') × (Spent k s → Spent k s')
unfolding queue_alert
queue_alert-step k previous_status next incident_id due_at s = ground (
  arith,
  cancel-Descending (λ p. true) next.monitor_id s.next_pending_id s.pending_alerts,
  cancel-not_waiting (λ p. true) next.monitor_id k s.pending_alerts,
)

finish_probe-step :
    (k : ℕ) (previous_status : Status) (next : MonitorState) (incident : Option Incident)
    (due_at : Option ℕ) (s : Store)
    → let s' = (finish_probe previous_status next incident due_at s).0 in
      (InOrder s → InOrder s') × (Spent k s → Spent k s')
finish_probe-step k previous_status next none due_at s = ((λ h. h), (λ h. h))
finish_probe-step k previous_status next (some i) none s = ((λ h. h), (λ h. h))
finish_probe-step k previous_status next (some i) (some due_at) s =
    queue_alert-step k previous_status next s.next_incident_id due_at (insert_incident i s)

store_probe-step :
    (k : ℕ) (result : ProbeResult) (next : MonitorState) (s : Store)
    → let s' = store_probe result next s in (InOrder s → InOrder s') × (Spent k s → Spent k s')
store_probe-step k result next s =
    let stale : PendingAlert → Bool = λ p. not (p.transition == next.status) in
    ground (
      arith,
      store_probe_tables result next s,
      cancel-Descending stale next.monitor_id s.next_pending_id s.pending_alerts,
      cancel-not_waiting stale next.monitor_id k s.pending_alerts,
    )

stores-step :
    (k : ℕ) (db : Db) (result : ProbeResult) (next : MonitorState) (incident : Option Incident)
    (due_at : Option ℕ) (s : Store)
    → let s' = (save_probe_and_state db result next incident due_at s).0 in
      (InOrder s → InOrder s') × (Spent k s → Spent k s')
unfolding save_probe_and_state
stores-step k broken result next incident due_at s = ((λ h. h), (λ h. h))
stores-step k available result next incident due_at s =
    let first = store_probe-step k result next s in
    let after_incident =
      finish_probe-step k (status_outside_maintenance (find_state next.monitor_id s.states)) next
        incident due_at (store_probe result next s) in
    ((λ h. after_incident.0 (first.0 h)), (λ h. after_incident.1 (first.1 h)))

deliver-step :
    (k : ℕ) (p : PendingAlert) (ns : List AlertNotification) (at : ℕ) (s : Store)
    → let s' = deliver p ns at s in (InOrder s → InOrder s') × (Spent k s → Spent k s')
deliver-step k p ns at s = ground (
  arith,
  insert_notifications_rest ns
      (record s { pending_alerts = deliver_rows p.id at s.pending_alerts }),
  deliver-Descending p.id at s.next_pending_id s.pending_alerts,
  deliver-not_waiting p.id at k s.pending_alerts,
)

record_row-step :
    (k : ℕ) (ns : List AlertNotification) (at : ℕ) (found : Option PendingAlert) (s : Store)
    → let s' = (record_row ns at found s).0 in (InOrder s → InOrder s') × (Spent k s → Spent k s')
record_row-step k ns at none s = ((λ h. h), (λ h. h))
record_row-step k ns at (some p) s = ground (arith, deliver-step k p ns at s)

records-step :
    (k : ℕ) (db : Db) (id : ℕ) (ns : List AlertNotification) (at : ℕ) (s : Store)
    → let s' = (record_pending_monitor_alert_delivery db id ns at s).0 in
      (InOrder s → InOrder s') × (Spent k s → Spent k s')
unfolding record_pending_monitor_alert_delivery
records-step k broken id ns at s = ((λ h. h), (λ h. h))
records-step k available id ns at s = record_row-step k ns at (find_alert id s.pending_alerts) s

claims-step :
    (k : ℕ) (db : Db) (id : ℕ) (s : Store)
    → let (s', won) = step k (claims db id) s in
      (InOrder s → InOrder s')
      × (Spent k s → Spent k s' × (won ≡ false))
      × (InOrder s → won ≡ true → Spent k s')
unfolding claim_pending_monitor_alert
claims-step k broken id s = ground arith
claims-step k available id s = ground (
  arith,
  claim-Descending id s.states s.next_pending_id s.pending_alerts,
  claim-not_waiting id s.states k s.pending_alerts,
  claimed-not_waiting k s.next_pending_id s.states s.pending_alerts,
  not_claimable k s.states s.pending_alerts,
)

pub step_lem :
    (k : ℕ) (c : Call) (s : Store)
    → let (s', won) = step k c s in
      (InOrder s → InOrder s')
      × (Spent k s → Spent k s' × (won ≡ false))
      × (InOrder s → won ≡ true → Spent k s')
step_lem k (stores db result next incident due_at) s =
    let (keeps, spent) = stores-step k db result next incident due_at s in
    (keeps, (λ h. (spent h, refl)), (λ h e. cc))
step_lem k (claims db id) s = claims-step k db id s
step_lem k (records db id ns at) s =
    let (keeps, spent) = records-step k db id ns at s in
    (keeps, (λ h. (spent h, refl)), (λ h e. cc))

grants-Spent : (k : ℕ) (cs : List Call) (s : Store) → Spent k s → grants k cs s ≡ 0
grants-Spent k [] s h = refl
grants-Spent k (c ∷ cs) s h =
    let (s', won) = step k c s in
    let (next, lost) = (step_lem k c s).1 h in rw lost (grants-Spent k cs s' next)

-- Under any sequence of calls of the probing and the sending goroutines, with any failures of the
-- database, one alert is claimed for sending once at most. (The ids of the table of alerts are in
-- order to begin with.)
pub grants-le-one : (k : ℕ) (cs : List Call) (s : Store) → InOrder s → grants k cs s ≤ 1
grants-le-one k [] s h = omega arith
grants-le-one k (c ∷ cs) s h = elim (Bool-cases (step k c s).1) [
  | inl won ↦ rw won (omega (arith, grants-Spent k cs (step k c s).0 ((step_lem k c s).2 h won)))
  | inr lost ↦ rw lost (grants-le-one k cs (step k c s).0 ((step_lem k c s).0 h))
]
