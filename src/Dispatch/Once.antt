-- ===== src/Dispatch/Once.antt =====
-- The record of sent alerts under the rounds and the other calls of a run.
use upag.Base.{
  ℕ, List, [], ◌∷◌, Option, Bool, true, false, ◌&&◌, ◌≤◌, ◌≡◌, count, arith, ok, err, Fallible, pos,
  ◌==◌, nat_eq,
}
use upag.Dispatch.Steps.{list_due-keeps}
use upag.Storage.{MonitorState, ProbeResult, Incident, AlertNotification}
use upag.Store.{Store, StoreError, Db}
use upag.Store.Probes.{save_probe_and_state}
use upag.Store.Alerts.{
  DueAlert, claim_pending_monitor_alert, record_pending_monitor_alert_delivery,
  list_due_pending_monitor_alerts,
}
use upag.Store.Alerts.Lifecycle.{InOrder, Spent, granted, step_lem, stores, claims, records}
use upag.Dispatch.{
  Round, Outbox, PendingWrite, retry_writes, delivery_of, recorded, deliver_due, after_claim,
  send_due, listed, dispatch_pending_monitor_alerts,
}

abbrev pub times_sent : ℕ → Outbox → ℕ
times_sent k o = count (λ j. j == k) o.sent

-- The alert `k` was sent once at most, and cannot be claimed again if it was.
abbrev pub SentOnce : ℕ → Outbox → Type 0
SentOnce k o = InOrder o.store × (times_sent k o ≤ 1) × (times_sent k o ≡ 1 → Spent k o.store)

records-keeps :
    (k : ℕ) (db : Db) (id : ℕ) (ns : List AlertNotification) (at : ℕ) (s : Store)
    → let s' = (record_pending_monitor_alert_delivery db id ns at s).0 in
      (InOrder s → InOrder s') × (Spent k s → Spent k s')
records-keeps k db id ns at s =
    let (keeps, spent, _) = step_lem k (records db id ns at) s in (keeps, λ h. (spent h).0)

retry_writes-keeps :
    (k : ℕ) (r : Round) (ws : List PendingWrite) (s : Store)
    → let s' = (retry_writes r ws s).0 in (InOrder s → InOrder s') × (Spent k s → Spent k s')
unfolding retry_writes
retry_writes-keeps k r [] s = ((λ h. h), (λ h. h))
retry_writes-keeps k r (w ∷ ws) s = ground (
  arith,
  records-keeps k (r.record_db w.id) w.id w.notifications w.delivered_at s,
  retry_writes-keeps k r ws
      (record_pending_monitor_alert_delivery (r.record_db w.id) w.id w.notifications w.delivered_at
        s).0,
)

recorded-SentOnce :
    (k : ℕ) (w : PendingWrite) (r : Store × Fallible StoreError (Unit {0})) (o : Outbox)
    → SentOnce k (record o { store = r.0 })
    → SentOnce k (recorded w r o)
recorded-SentOnce k w (s, ok u) o h = h
recorded-SentOnce k w (s, err e) o h = h

-- What a claim of the alert `id` with the result `res` is known to do.
abbrev Claimed : ℕ → ℕ → Store → Store × Fallible StoreError Bool → Type 0
Claimed k id s res =
    (InOrder s → InOrder res.0)
    × (Spent k s → Spent k res.0 × ((id == k && granted res.1) ≡ false))
    × (InOrder s → (id == k && granted res.1) ≡ true → Spent k res.0)

deliver_due-SentOnce :
    (k : ℕ) (r : Round) (d : DueAlert) (o : Outbox)
    → InOrder o.store
    → times_sent k (record o { sent = d.alert.id ∷ o.sent }) ≤ 1
    → (times_sent k (record o { sent = d.alert.id ∷ o.sent }) ≡ 1 → Spent k o.store)
    → SentOnce k (deliver_due r d o)
deliver_due-SentOnce k r d o order few spent =
    let w = delivery_of r d in
    let rest =
      record_pending_monitor_alert_delivery (r.record_db w.id) w.id w.notifications w.delivered_at
        o.store in
    let (keeps, still) =
      records-keeps k (r.record_db w.id) w.id w.notifications w.delivered_at o.store in
    recorded-SentOnce k w rest (record o { sent = w.id ∷ o.sent })
      (keeps order, few, λ e. still (spent e))

after_claim-SentOnce :
    (k : ℕ) (r : Round) (d : DueAlert) (res : Store × Fallible StoreError Bool) (o : Outbox)
    → Claimed k d.alert.id o.store res
    → SentOnce k o
    → SentOnce k (after_claim r d res o)
after_claim-SentOnce k r d (s, ok true) o (order, was, won) h =
    deliver_due-SentOnce k r d (record o { store = s }) (order h.0) (ground arith) (ground arith)
after_claim-SentOnce k r d (s, ok false) o (order, was, won) h =
    (order h.0, h.1, λ e. (was (h.2 e)).0)
after_claim-SentOnce k r d (s, err e) o (order, was, won) h =
    (order h.0, h.1, λ e'. (was (h.2 e')).0)

send_due-SentOnce :
    (k : ℕ) (r : Round) (ds : List DueAlert) (o : Outbox)
    → SentOnce k o
    → SentOnce k (send_due r ds o)
unfolding send_due
send_due-SentOnce k r [] o h = h
send_due-SentOnce k r (d ∷ ds) o h =
    let res = claim_pending_monitor_alert (r.claim_db d.alert.id) d.alert.id o.store in
    send_due-SentOnce k r ds (after_claim r d res o) (
      after_claim-SentOnce k r d res o
        (step_lem k (claims (r.claim_db d.alert.id) d.alert.id) o.store) h)

pub dispatch-SentOnce :
    (k : ℕ) (r : Round) (o : Outbox)
    → SentOnce k o
    → SentOnce k (dispatch_pending_monitor_alerts r o)
unfolding dispatch_pending_monitor_alerts
dispatch-SentOnce k r o h =
    let (s, writes) = retry_writes r o.pending_writes o.store in
    let (keeps, spent) = retry_writes-keeps k r o.pending_writes o.store in
    let (s', due) = list_due_pending_monitor_alerts r.list_db r.now (pos 50) s in
    send_due-SentOnce k r (listed due) (record o { store = s'; pending_writes = writes })
      (rw (list_due-keeps r.list_db r.now s) (keeps h.0, h.1, λ e. spent (h.2 e)))

-- Storing a probe, by the goroutine of its monitor, keeps it too.
pub save_probe-SentOnce :
    (k : ℕ) (db : Db) (result : ProbeResult) (next : MonitorState) (incident : Option Incident)
    (due_at : Option ℕ) (o : Outbox)
    → SentOnce k o
    → SentOnce k
        (record o { store = (save_probe_and_state db result next incident due_at o.store).0 })
save_probe-SentOnce k db result next incident due_at o h =
    let (keeps, spent, _) = step_lem k (stores db result next incident due_at) o.store in
    (keeps h.0, h.1, λ e. (spent (h.2 e)).0)
