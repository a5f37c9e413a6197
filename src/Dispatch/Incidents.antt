-- ===== src/Dispatch/Incidents.antt =====
-- The incidents of the store under dispatchPendingMonitorAlerts.
use upag.Base.{
  ℕ, suc, ◌≡◌, refl, ◌∙◌, List, [], ◌∷◌, Option, none, some, arith, ◌==◌, nat_eq, if◌then◌else◌,
}
use upag.Storage.{AlertNotification, PendingAlert}
use upag.Store.{Store, Db, available, broken}
use upag.Store.Alerts.{
  claim_pending_monitor_alert, record_pending_monitor_alert_delivery, record_row, find_alert,
  insert_notifications, deliver_rows,
}
use upag.Dispatch.{Outbox, Round, dispatch_pending_monitor_alerts}
use upag.Dispatch.Steps.{dispatch-keeps}

notifications-incidents :
    (ns : List AlertNotification) (s : Store) → (insert_notifications ns s).incidents ≡ s.incidents
unfolding insert_notifications
notifications-incidents [] s = refl
notifications-incidents (n ∷ ns) s = notifications-incidents ns (record s {
  notifications =
      record n {
        id = s.next_notification_id;
        attempt_number = if n.attempt_number == 0 then 1 else n.attempt_number;
      }
      ∷ s.notifications;
  next_notification_id = suc s.next_notification_id;
})

record_row-incidents :
    (ns : List AlertNotification) (at : ℕ) (found : Option PendingAlert) (s : Store)
    → (record_row ns at found s).0.incidents ≡ s.incidents
record_row-incidents ns at none s = refl
record_row-incidents ns at (some p) s = ground (
  arith,
  notifications-incidents ns (record s { pending_alerts = deliver_rows p.id at s.pending_alerts }),
)

records-incidents :
    (db : Db) (id : ℕ) (ns : List AlertNotification) (at : ℕ) (s : Store)
    → (record_pending_monitor_alert_delivery db id ns at s).0.incidents ≡ s.incidents
unfolding record_pending_monitor_alert_delivery
records-incidents broken id ns at s = refl
records-incidents available id ns at s =
    record_row-incidents ns at (find_alert id s.pending_alerts) s

claims-incidents :
    (db : Db) (id : ℕ) (s : Store) → (claim_pending_monitor_alert db id s).0.incidents ≡ s.incidents
unfolding claim_pending_monitor_alert
claims-incidents broken id s = refl
claims-incidents available id s = refl

-- The table of incidents is as it was.
pub dispatch-incidents :
    (r : Round) (o : Outbox)
    → (dispatch_pending_monitor_alerts r o).store.incidents ≡ o.store.incidents
dispatch-incidents r o =
    dispatch-keeps (λ s. s.incidents ≡ o.store.incidents)
      (record {
        claims = λ db id s h. claims-incidents db id s ∙ h;
        records = λ db id ns at s h. records-incidents db id ns at s ∙ h;
      })
      r o refl
