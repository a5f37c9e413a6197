-- ===== src/Probe/Tables.antt =====
-- The tables that samples, results and notifications write.
use upag.Base.{◌++◌, ℕ, suc, ◌≡◌, refl, ◌∙◌, ap, ◌==◌, nat_eq, if◌then◌else◌, List, [], ◌∷◌, pos}
use upag.Storage.{MonitorState, ProbeResult, Incident, AlertNotification, ConnectivitySample}
use upag.Store.{Store, Db, available, broken}
use upag.Store.Probes.{save_probe_result}
use upag.Store.Alerts.{
  insert_notifications, save_alert_notifications, list_due_alert_notification_retries,
}
use upag.Store.ObserverChecks.{insert_samples, save_connectivity_samples}
use upag.Dispatch.{
  Outbox, Round, dispatch_pending_monitor_alerts, retry_alert_notifications, retry_all, send_again,
  retry_notification, due_retries,
}

insert_samples_tables :
    (cs : List ConnectivitySample) (s : Store)
    → let s' = insert_samples cs s in
      (s'.states ≡ s.states)
      × (s'.pending_alerts ≡ s.pending_alerts)
      × (s'.next_pending_id ≡ s.next_pending_id)
      × (s'.incidents ≡ s.incidents)
unfolding insert_samples
insert_samples_tables [] s = (refl, refl, refl, refl)
insert_samples_tables (c ∷ cs) s = insert_samples_tables cs (record s {
  connectivity_samples = record c { id = s.next_sample_id } ∷ s.connectivity_samples;
  next_sample_id = suc s.next_sample_id;
})

-- The samples go to a table of their own.
pub save_samples_tables :
    (db : Db) (cs : List ConnectivitySample) (s : Store)
    → let s' = (save_connectivity_samples db cs s).0 in
      (s'.states ≡ s.states)
      × (s'.pending_alerts ≡ s.pending_alerts)
      × (s'.next_pending_id ≡ s.next_pending_id)
      × (s'.incidents ≡ s.incidents)
unfolding save_connectivity_samples
save_samples_tables db [] s = (refl, refl, refl, refl)
save_samples_tables broken (c ∷ cs) s = (refl, refl, refl, refl)
save_samples_tables available (c ∷ cs) s = insert_samples_tables (c ∷ cs) s

pub save_result_tables :
    (db : Db) (row : ProbeResult) (s : Store)
    → let s' = (save_probe_result db row s).0 in
      (s'.states ≡ s.states)
      × (s'.pending_alerts ≡ s.pending_alerts)
      × (s'.next_pending_id ≡ s.next_pending_id)
      × (s'.incidents ≡ s.incidents)
unfolding save_probe_result
save_result_tables broken row s = (refl, refl, refl, refl)
save_result_tables available row s = (refl, refl, refl, refl)

pub notifications_tables :
    (ns : List AlertNotification) (s : Store)
    → let s' = insert_notifications ns s in
      (s'.pending_alerts ≡ s.pending_alerts)
      × (s'.states ≡ s.states)
      × (s'.next_pending_id ≡ s.next_pending_id)
unfolding insert_notifications
notifications_tables [] s = (refl, refl, refl)
notifications_tables (n ∷ ns) s = notifications_tables ns (record s {
  notifications =
      record n {
        id = s.next_notification_id;
        attempt_number = if n.attempt_number == 0 then 1 else n.attempt_number;
      }
      ∷ s.notifications;
  next_notification_id = suc s.next_notification_id;
})

save_one_tables :
    (db : Db) (m : AlertNotification) (s : Store)
    → let s' = (save_alert_notifications db (m ∷ []) s).0 in
      (s'.pending_alerts ≡ s.pending_alerts)
      × (s'.states ≡ s.states)
      × (s'.next_pending_id ≡ s.next_pending_id)
unfolding save_alert_notifications
save_one_tables broken m s = (refl, refl, refl)
save_one_tables available m s = notifications_tables (m ∷ []) s

retry_all_tables :
    (r : Round) (lookup : AlertNotification → Incident × MonitorState) (ns : List AlertNotification)
    (o : Outbox)
    → let o' = retry_all r lookup ns o in
      (o'.store.pending_alerts ≡ o.store.pending_alerts)
      × (o'.store.states ≡ o.store.states)
      × (o'.store.next_pending_id ≡ o.store.next_pending_id)
      × (o'.sent ≡ o.sent)
unfolding retry_all
retry_all_tables r lookup [] o = (refl, refl, refl, refl)
retry_all_tables r lookup (n ∷ ns) o =
    let m = retry_notification r lookup n in
    let o' : Outbox = record o {
      store = (save_alert_notifications (r.retry_db n.id) (m ∷ []) o.store).0;
      retried = (send_again r lookup n).1 ++ o.retried;
    } in
    let (alerts, states, next) = save_one_tables (r.retry_db n.id) m o.store in
    let (alerts', states', next', sent') = retry_all_tables r lookup ns o' in
    (alerts' ∙ alerts, states' ∙ states, next' ∙ next, sent')

retry_list-keeps :
    (db : Db) (now : ℕ) (s : Store) → (list_due_alert_notification_retries db now (pos 50) s).0 ≡ s
unfolding list_due_alert_notification_retries
retry_list-keeps broken now s = refl
retry_list-keeps available now s = refl

-- The retries leave the queue and the states as the round before them does.
pub retries_tables :
    (r : Round) (lookup : AlertNotification → Incident × MonitorState) (o : Outbox)
    → let o' = dispatch_pending_monitor_alerts r o in
      let o'' = retry_alert_notifications r lookup o in
      (o''.store.pending_alerts ≡ o'.store.pending_alerts)
      × (o''.store.states ≡ o'.store.states)
      × (o''.store.next_pending_id ≡ o'.store.next_pending_id)
      × (o''.sent ≡ o'.sent)
unfolding retry_alert_notifications
retries_tables r lookup o =
    let o' = dispatch_pending_monitor_alerts r o in
    let (s, due) = list_due_alert_notification_retries r.list_db r.now (pos 50) o'.store in
    let same = retry_list-keeps r.list_db r.now o'.store in
    let (alerts, states, next, sent) =
      retry_all_tables r lookup (due_retries due) (record o' { store = s }) in
    (
      alerts ∙ ap (λ (t : Store). t.pending_alerts) same,
      states ∙ ap (λ (t : Store). t.states) same,
      next ∙ ap (λ (t : Store). t.next_pending_id) same,
      sent,
    )
