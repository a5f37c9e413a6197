-- ===== src/Store/Alerts/Delivery.antt =====
-- What recording a delivery leaves behind.
use upag.Base.{
  ℕ, suc, ◌+◌, count, String, List, [], ◌∷◌, some, Bool, true, false, not, ◌≡◌, ◌≢◌, refl, ap, All,
  eq_iff, arith, ok, ◌==◌, nat_eq, string_eq, if◌then◌else◌,
}
use upag.State.{up, down, status_eq}
use upag.Storage.{
  MonitorState, ProbeResult, Incident, PendingAlert, AlertState, AlertNotification, pending,
  sending, delivered, pending_eq,
}
use upag.Store.Defs.{Store, available, find_state, find_alert_state, status_of}
use upag.Store.Probes.{
  save_probe_and_state_with_pending_alert, save_probe_and_state, cancel_pending, queue_alert,
  last_notified,
}
use upag.Store.Probes.Reads.{store_probe_tables, find_state-upsert_state}
use upag.Store.Probes.Queue.{Older, save_probe_and_state_queues}
use upag.Store.Alerts.{
  record_pending_monitor_alert_delivery, deliver, deliver_rows, find_alert, insert_notifications,
  set_alert_state,
}

insert_notifications_tables :
    (ns : List AlertNotification) (s : Store)
    → let s' = insert_notifications ns s in
      (s'.pending_alerts ≡ s.pending_alerts)
      × (s'.states ≡ s.states)
      × (s'.alert_states ≡ s.alert_states)
unfolding insert_notifications
insert_notifications_tables [] s = (refl, refl, refl)
insert_notifications_tables (n ∷ ns) s = insert_notifications_tables ns (record s {
  notifications =
      record n {
        id = s.next_notification_id;
        attempt_number = if n.attempt_number == 0 then 1 else n.attempt_number;
      }
      ∷ s.notifications;
  next_notification_id = suc s.next_notification_id;
})

find_alert-id :
    (k : ℕ) (ps : List PendingAlert) (p : PendingAlert) → find_alert k ps ≡ some p → p.id ≡ k
unfolding find_alert
find_alert-id k [] p e = cc
find_alert-id k (q ∷ qs) p e = ground (arith, find_alert-id k qs p)

find_alert-deliver_rows :
    (k at : ℕ) (ps : List PendingAlert) (p : PendingAlert)
    → find_alert k ps ≡ some p
    → p.status ≡ sending
    → find_alert k (deliver_rows k at ps)
      ≡ some (record p { status = delivered; delivered_at = at })
unfolding find_alert deliver_rows
find_alert-deliver_rows k at [] p e h = cc
find_alert-deliver_rows k at (q ∷ qs) p e h = ground (arith, find_alert-deliver_rows k at qs p)

find_alert-cancel_pending :
    (also : PendingAlert → Bool) (m : String) (k : ℕ) (ps : List PendingAlert) (p : PendingAlert)
    → find_alert k ps ≡ some p
    → p.status ≡ sending
    → find_alert k (cancel_pending also m ps) ≡ some p
unfolding find_alert cancel_pending
find_alert-cancel_pending also m k [] p e h = cc
find_alert-cancel_pending also m k (q ∷ qs) p e h =
    ground (arith, find_alert-cancel_pending also m k qs p)

find_alert_state-set :
    (a : AlertState) (rows : List AlertState)
    → find_alert_state a.monitor_id (set_alert_state a rows) ≡ some a
unfolding find_alert_state set_alert_state
find_alert_state-set a [] = ground (arith, eq_iff a.monitor_id a.monitor_id)
find_alert_state-set a (b ∷ bs) = ground (
  arith,
  eq_iff a.monitor_id a.monitor_id,
  eq_iff b.monitor_id a.monitor_id,
  find_alert_state-set a bs,
)

record_lem :
    (k at : ℕ) (ns : List AlertNotification) (s : Store) (p : PendingAlert)
    → find_alert k s.pending_alerts ≡ some p
    → p.status ≡ sending
    → record_pending_monitor_alert_delivery available k ns at s ≡ (deliver p ns at s, ok tt)
unfolding record_pending_monitor_alert_delivery
record_lem k at ns s p e h = ground arith

deliver_tables :
    (k at : ℕ) (ns : List AlertNotification) (s : Store) (p : PendingAlert)
    → find_alert k s.pending_alerts ≡ some p
    → p.status ≡ sending
    → let s' = deliver p ns at s in
      (find_alert k s'.pending_alerts ≡ some (record p { status = delivered; delivered_at = at }))
      × (s'.states ≡ s.states)
      × (s'.pending_alerts ≡ deliver_rows k at s.pending_alerts)
      × (last_notified (find_alert_state p.monitor_id s'.alert_states) ≡ p.transition)
deliver_tables k at ns s p e h =
    let entry : AlertState = record {
      monitor_id = p.monitor_id;
      last_notified_status = p.transition;
      updated_at = at;
    } in
    let marked = record s { pending_alerts = deliver_rows p.id at s.pending_alerts } in
    ground (
      arith,
      find_alert-id k s.pending_alerts p,
      insert_notifications_tables ns marked,
      find_alert-deliver_rows k at s.pending_alerts p,
      find_alert_state-set entry (insert_notifications ns marked).alert_states,
    )

record_again :
    (k at : ℕ) (ns : List AlertNotification) (s : Store) (p : PendingAlert)
    → find_alert k s.pending_alerts ≡ some p
    → p.status ≡ delivered
    → record_pending_monitor_alert_delivery available k ns at s ≡ (s, ok tt)
unfolding record_pending_monitor_alert_delivery
record_again k at ns s p e h = ground arith

-- What a notification says, apart from the id that the table gives to it; the first attempt is
-- number one.
abbrev pub content : AlertNotification → AlertNotification
content n = record n {
  id = 0;
  attempt_number = if n.attempt_number == 0 then 1 else n.attempt_number;
}

content-stored :
    (k : ℕ) (n : AlertNotification)
    → content (record n {
      id = k;
      attempt_number = if n.attempt_number == 0 then 1 else n.attempt_number;
    })
      ≡ content n
content-stored k n = ground arith

insert_notifications-content :
    (q : AlertNotification → Bool) (ns : List AlertNotification) (s : Store)
    → count (λ n. q (content n)) (insert_notifications ns s).notifications
      ≡ count (λ n. q (content n)) ns + count (λ n. q (content n)) s.notifications
unfolding insert_notifications
insert_notifications-content q [] s = omega arith
insert_notifications-content q (n ∷ ns) s =
    let row : AlertNotification = record n {
      id = s.next_notification_id;
      attempt_number = if n.attempt_number == 0 then 1 else n.attempt_number;
    } in
    let same : q (content row) ≡ q (content n) = ap q (content-stored s.next_notification_id n) in
    let rest = insert_notifications-content q ns (record s {
      notifications = row ∷ s.notifications;
      next_notification_id = suc s.next_notification_id;
    }) in
    rw rest (rw same (ground arith))

-- A delivery is recorded once. When the alert is claimed, recording marks it delivered, makes its
-- transition the status that was told last, and adds its notifications to those that are stored: of
-- every content there are as many as before and in the delivery together. Recording it again, as the
-- runner does after a failed write, reports success and changes nothing.
pub record_delivery_once :
    (k at later : ℕ) (ns again : List AlertNotification) (s : Store) (p : PendingAlert)
    (q : AlertNotification → Bool)
    → find_alert k s.pending_alerts ≡ some p
    → p.status ≡ sending
    → let (s', done) = record_pending_monitor_alert_delivery available k ns at s in
      (done ≡ ok tt)
      × (find_alert k s'.pending_alerts ≡ some (record p { status = delivered; delivered_at = at }))
      × (last_notified (find_alert_state p.monitor_id s'.alert_states) ≡ p.transition)
      × (count (λ n. q (content n)) s'.notifications
          ≡ count (λ n. q (content n)) ns + count (λ n. q (content n)) s.notifications)
      × (record_pending_monitor_alert_delivery available k again later s' ≡ (s', ok tt))
record_delivery_once k at later ns again s p q e h = rw (record_lem k at ns s p e h) (
  refl,
  (deliver_tables k at ns s p e h).0,
  (deliver_tables k at ns s p e h).3,
  insert_notifications-content q ns
      (record s { pending_alerts = deliver_rows p.id at s.pending_alerts }),
  record_again k later again (deliver p ns at s)
      (record p { status = delivered; delivered_at = at }) (deliver_tables k at ns s p e h).0 refl,
)

-- No alert of the monitor waits.
abbrev pub NoneWaiting : String → List PendingAlert → Type 0
NoneWaiting m = All (λ p. p.monitor_id ≡ m → p.status ≢ pending)

cancel-NoneWaiting :
    (m : String) (ps : List PendingAlert) → NoneWaiting m (cancel_pending (λ p. true) m ps)
unfolding cancel_pending
cancel-NoneWaiting m [] = tt
cancel-NoneWaiting m (p ∷ ps) = ground (arith, cancel-NoneWaiting m ps, eq_iff p.monitor_id m)

deliver-NoneWaiting :
    (m : String) (k at : ℕ) (ps : List PendingAlert)
    → NoneWaiting m ps
    → NoneWaiting m (deliver_rows k at ps)
unfolding deliver_rows
deliver-NoneWaiting m k at [] h = tt
deliver-NoneWaiting m k at (p ∷ ps) h = ground (arith, deliver-NoneWaiting m k at ps h.1)

-- What the recovery of a monitor makes of the store, when the last told status is UP.
recovery-tables :
    (result : ProbeResult) (next : MonitorState) (i : Incident) (due_at k : ℕ) (s : Store)
    (a : AlertState) (p : PendingAlert)
    → next.status ≡ up
    → find_alert_state next.monitor_id s.alert_states ≡ some a
    → a.last_notified_status ≡ up
    → find_alert k s.pending_alerts ≡ some p
    → p.status ≡ sending
    → let s' = (save_probe_and_state available result next (some i) (some due_at) s).0 in
      (status_of (find_state next.monitor_id s'.states) ≡ up)
      × (find_alert k s'.pending_alerts ≡ some p)
      × NoneWaiting next.monitor_id s'.pending_alerts
unfolding save_probe_and_state queue_alert
recovery-tables result next i due_at k s a p hu ha hl hp hs =
    let stale : PendingAlert → Bool = λ q. not (q.transition == next.status) in
    ground (
      arith,
      store_probe_tables result next s,
      find_state-upsert_state next next.monitor_id s.states,
      eq_iff next.monitor_id next.monitor_id,
      find_alert-cancel_pending stale next.monitor_id k s.pending_alerts p,
      find_alert-cancel_pending (λ q. true) next.monitor_id k
          (cancel_pending stale next.monitor_id s.pending_alerts) p,
      cancel-NoneWaiting next.monitor_id (cancel_pending stale next.monitor_id s.pending_alerts),
    )

-- A recovery that comes while the DOWN message of the same monitor is being sent is never told.
-- Whenever the DOWN alert `k` is claimed and the status that was told last is still UP, the UP
-- incident queues no alert; once the delivery of `k` is recorded, DOWN is what was told last, the
-- monitor is UP, and no alert of the monitor is waiting.
pub recovery_while_sending :
    (result : ProbeResult) (next : MonitorState) (i : Incident) (due_at k at : ℕ)
    (ns : List AlertNotification) (s : Store) (a : AlertState) (p : PendingAlert)
    → next.status ≡ up
    → find_alert_state next.monitor_id s.alert_states ≡ some a
    → a.last_notified_status ≡ up
    → find_alert k s.pending_alerts ≡ some p
    → p.status ≡ sending
    → p.transition ≡ down
    → p.monitor_id ≡ next.monitor_id
    → Older s.next_incident_id s.pending_alerts
    → let s' = (save_probe_and_state available result next (some i) (some due_at) s).0 in
      let s'' = (record_pending_monitor_alert_delivery available k ns at s').0 in
      ((save_probe_and_state_with_pending_alert available available result next (some i) due_at s).1
        ≡ ok (s.next_incident_id, false))
      × (status_of (find_state next.monitor_id s''.states) ≡ up)
      × (last_notified (find_alert_state next.monitor_id s''.alert_states) ≡ down)
      × NoneWaiting next.monitor_id s''.pending_alerts
recovery_while_sending result next i due_at k at ns s a p hu ha hl hp hs hd hm old =
    let s' = (save_probe_and_state available result next (some i) (some due_at) s).0 in
    let (is_up, found, none_waits) = recovery-tables result next i due_at k s a p hu ha hl hp hs in
    let (_, states, alerts, told_last) = deliver_tables k at ns s' p found hs in
    rw (record_lem k at ns s' p found hs) (
      ground (arith, save_probe_and_state_queues result next i due_at s old),
      ground arith,
      ground (arith, told_last),
      rw alerts (deliver-NoneWaiting next.monitor_id k at s'.pending_alerts none_waits),
    )
