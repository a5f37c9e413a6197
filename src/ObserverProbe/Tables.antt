-- ===== src/ObserverProbe/Tables.antt =====
-- The tables that the writes of an observer probe touch.
use upag.Base.{
  ℕ, suc, ◌≡◌, refl, String, List, [], ◌∷◌, Option, none, some, arith, ◌==◌, nat_eq, if◌then◌else◌,
}
use upag.Storage.{ConnectivitySample, Incident, AlertNotification}
use upag.Observer.{CheckResult}
use upag.Store.{Store, Db, available, broken}
use upag.Store.Alerts.{insert_notifications, save_alert_notifications}
use upag.Store.ObserverChecks.{insert_samples, save_connectivity_samples}
use upag.Alert.{send_incident, alert_notifications}
use upag.Transfer.{
  TransferCheckConfig, TransferGuard, Sampling, sample_transfer, sampled, check_transfer,
}
use upag.ObserverProbe.{Observing, announce, observer_as_monitor}

insert_samples-observer :
    (cs : List ConnectivitySample) (s : Store)
    → (insert_samples cs s).observer_state ≡ s.observer_state
unfolding insert_samples
insert_samples-observer [] s = refl
insert_samples-observer (c ∷ cs) s = insert_samples-observer cs (record s {
  connectivity_samples = record c { id = s.next_sample_id } ∷ s.connectivity_samples;
  next_sample_id = suc s.next_sample_id;
})

pub save_samples-observer :
    (db : Db) (cs : List ConnectivitySample) (s : Store)
    → (save_connectivity_samples db cs s).0.observer_state ≡ s.observer_state
unfolding save_connectivity_samples
save_samples-observer db [] s = refl
save_samples-observer broken (c ∷ cs) s = refl
save_samples-observer available (c ∷ cs) s = insert_samples-observer (c ∷ cs) s

notifications-observer :
    (ns : List AlertNotification) (s : Store)
    → (insert_notifications ns s).observer_state ≡ s.observer_state
unfolding insert_notifications
notifications-observer [] s = refl
notifications-observer (n ∷ ns) s = notifications-observer ns (record s {
  notifications =
      record n {
        id = s.next_notification_id;
        attempt_number = if n.attempt_number == 0 then 1 else n.attempt_number;
      }
      ∷ s.notifications;
  next_notification_id = suc s.next_notification_id;
})

save_notifications-observer :
    (db : Db) (ns : List AlertNotification) (s : Store)
    → (save_alert_notifications db ns s).0.observer_state ≡ s.observer_state
unfolding save_alert_notifications
save_notifications-observer db [] s = refl
save_notifications-observer broken (n ∷ ns) s = refl
save_notifications-observer available (n ∷ ns) s = notifications-observer (n ∷ ns) s

sampled-observer :
    (cfg : TransferCheckConfig) (db : Db) (c : ConnectivitySample) (s : Store) (g : TransferGuard)
    → (sampled cfg c (save_connectivity_samples db (c ∷ []) s) g).0.observer_state
      ≡ s.observer_state
unfolding save_connectivity_samples
sampled-observer cfg broken c s g = refl
sampled-observer cfg available c s g = save_samples-observer available (c ∷ []) s

pub sample_transfer-observer :
    (e : Sampling) (cfg : TransferCheckConfig) (source monitor_id : String) (s : Store)
    (g : TransferGuard)
    → (sample_transfer e cfg source monitor_id s g).0.observer_state ≡ s.observer_state
unfolding sample_transfer
sample_transfer-observer e cfg source monitor_id s g = ground (
  arith,
  sampled-observer cfg e.save_db (check_transfer cfg source monitor_id e.now e.transfer) s g,
)

pub announce-observer :
    (e : Observing) (c : CheckResult) (i : Option Incident) (id : ℕ) (s : Store)
    → (announce e c i id s).observer_state ≡ s.observer_state
announce-observer e c none id s = refl
announce-observer e c (some i) id s =
    save_notifications-observer e.notify_db
      (alert_notifications id i.monitor_id e.attempted_at 1 e.policy
        (send_incident e.senders i (observer_as_monitor c e.now)))
      s
