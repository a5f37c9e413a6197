-- ===== src/Dispatch/Steps.antt =====
-- The calls through which a round of sending acts on the store: claims and records.
use upag.Base.{ℕ, List, [], ◌∷◌, Bool, true, false, Fallible, ok, err, pos, ◌≡◌, refl}
use upag.Storage.{AlertNotification}
use upag.Store.{Store, StoreError, Db, available, broken}
use upag.Store.Alerts.{
  DueAlert, claim_pending_monitor_alert, record_pending_monitor_alert_delivery,
  list_due_pending_monitor_alerts,
}
use upag.Dispatch.{
  Round, Outbox, PendingWrite, retry_writes, delivery_of, recorded, after_claim, send_due, listed,
  dispatch_pending_monitor_alerts,
}

-- A predicate that the calls keep.
pub record IsKept (Q : Store → Type 0) : Type 0 where
  pub claims : (db : Db) (id : ℕ) (s : Store) → Q s → Q (claim_pending_monitor_alert db id s).0
  pub records :
      (db : Db) (id : ℕ) (ns : List AlertNotification) (at : ℕ) (s : Store)
      → Q s
      → Q (record_pending_monitor_alert_delivery db id ns at s).0

-- The query writes nothing.
pub list_due-keeps :
    (db : Db) (now : ℕ) (s : Store) → (list_due_pending_monitor_alerts db now (pos 50) s).0 ≡ s
unfolding list_due_pending_monitor_alerts
list_due-keeps broken now s = refl
list_due-keeps available now s = refl

module _ (Q : Store → Type 0) (kept : IsKept Q) where
  retry_writes-keeps :
      (r : Round) (ws : List PendingWrite) (s : Store) → Q s → Q (retry_writes r ws s).0
  unfolding retry_writes
  retry_writes-keeps r [] s h = h
  retry_writes-keeps r (w ∷ ws) s h =
      let res =
        record_pending_monitor_alert_delivery (r.record_db w.id) w.id w.notifications w.delivered_at
          s in
      both (retry_writes r ws res.0) res.1 (
        retry_writes-keeps r ws res.0
          (kept.records (r.record_db w.id) w.id w.notifications w.delivered_at s h))
    where
      both :
          (rest : Store × List PendingWrite) (done : Fallible StoreError (Unit {0}))
          → Q rest.0
          → Q
              (elim done as (λ _. Store × List PendingWrite) [
                | ok _ ↦ rest
                | err e ↦ (rest.0, w ∷ rest.1)
              ]).0
      both rest (ok u) q = q
      both rest (err e) q = q

  recorded-keeps :
      (w : PendingWrite) (res : Store × Fallible StoreError (Unit {0})) (o : Outbox)
      → Q res.0
      → Q (recorded w res o).store
  recorded-keeps w (s, ok u) o h = h
  recorded-keeps w (s, err e) o h = h

  after_claim-keeps :
      (r : Round) (d : DueAlert) (res : Store × Fallible StoreError Bool) (o : Outbox)
      → Q res.0
      → Q (after_claim r d res o).store
  after_claim-keeps r d (s, ok true) o h =
      let w = delivery_of r d in
      recorded-keeps w
        (record_pending_monitor_alert_delivery (r.record_db w.id) w.id w.notifications
          w.delivered_at s)
        (record o { store = s; sent = w.id ∷ o.sent })
        (kept.records (r.record_db w.id) w.id w.notifications w.delivered_at s h)
  after_claim-keeps r d (s, ok false) o h = h
  after_claim-keeps r d (s, err e) o h = h

  send_due-keeps :
      (r : Round) (ds : List DueAlert) (o : Outbox) → Q o.store → Q (send_due r ds o).store
  unfolding send_due
  send_due-keeps r [] o h = h
  send_due-keeps r (d ∷ ds) o h =
      let res = claim_pending_monitor_alert (r.claim_db d.alert.id) d.alert.id o.store in
      send_due-keeps r ds (after_claim r d res o)
        (after_claim-keeps r d res o (kept.claims (r.claim_db d.alert.id) d.alert.id o.store h))

  pub dispatch-keeps :
      (r : Round) (o : Outbox) → Q o.store → Q (dispatch_pending_monitor_alerts r o).store
  unfolding dispatch_pending_monitor_alerts
  dispatch-keeps r o h =
      let (s, writes) = retry_writes r o.pending_writes o.store in
      let (s', due) = list_due_pending_monitor_alerts r.list_db r.now (pos 50) s in
      send_due-keeps r (listed due) (record o { store = s'; pending_writes = writes })
        (rw (list_due-keeps r.list_db r.now s) (retry_writes-keeps r o.pending_writes o.store h))
