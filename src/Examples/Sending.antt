-- ===== src/Examples/Sending.antt =====
-- A DOWN alert that waits, or is being sent, and two providers.
use upag.Base.{◌≡◌, ◌≤◌, refl, arith, List, [], ◌∷◌, String, some, true, false, ok, pos, map}
use upag.State.{up, down}
use upag.Storage.{pending, sending}
use upag.Store.{Store, Db, available, broken, find_alert_state}
use upag.Store.Probes.{save_probe_and_state_with_pending_alert}
use upag.Store.Alerts.{find_alert, record_pending_monitor_alert_delivery}
use upag.Store.Alerts.Lifecycle.{claims, records, grants, grants-le-one}
use upag.Store.Alerts.Delivery.{record_delivery_once, recovery_while_sending}
use upag.Alert.{
  IncidentSender, SendResult, NotificationRetriesConfig, send_incident, providers,
  alert_notifications,
}
use upag.Alert.Routing.{IsSender, incident_notifies_each}
use upag.Dispatch.{Round, Outbox}
use upag.Examples.{monitor_in, probe_at, incident_of, alert_of, told_of, store_of}

-- UP was told, DOWN waits.
abbrev waiting_store : Store
waiting_store =
    record (store_of (monitor_in down 20 ∷ []) (alert_of down pending ∷ []) (told_of up ∷ [])) {
      incidents = incident_of down 20 ∷ [];
    }

abbrev sending_store : Store
sending_store = record waiting_store { pending_alerts = alert_of down sending ∷ [] }

grants-le-one_example :
    grants 1
      (claims broken 1 ∷ claims available 1 ∷ claims available 1 ∷ records available 1 [] 30 ∷ [])
      waiting_store
    ≤ 1
grants-le-one_example =
    grants-le-one 1
      (claims broken 1 ∷ claims available 1 ∷ claims available 1 ∷ records available 1 [] 30 ∷ [])
      waiting_store (ground arith)

record_delivery_once_example :
    (record_pending_monitor_alert_delivery available 1 [] 30 sending_store).1 ≡ ok tt
unfolding find_alert
record_delivery_once_example =
    (record_delivery_once 1 30 40 [] [] sending_store (alert_of down sending) (λ n. n.success) refl
      refl).0

recovery_while_sending_example :
    (save_probe_and_state_with_pending_alert available available
      (probe_at true 30)
      (monitor_in up 30)
      (some (incident_of up 30))
      30
      sending_store).1
    ≡ ok (2, false)
unfolding find_alert find_alert_state
recovery_while_sending_example =
    (recovery_while_sending (probe_at true 30) (monitor_in up 30) (incident_of up 30) 30 1 40 []
      sending_store (told_of up) (alert_of down sending) refl refl refl refl refl refl refl
      (ground arith)).0

abbrev answer : String → SendResult
answer provider = record { provider = provider; error = some "timeout" }

abbrev sender : String → IncidentSender
sender provider = record {
  send_incident = λ i m. answer provider ∷ [];
  send_provider = λ p i m. answer p;
  providers = provider ∷ [];
}

abbrev senders : List IncidentSender
senders = sender "smtp" ∷ sender "telegram" ∷ []

sender-IsSender : (p : String) → IsSender (sender p)
sender-IsSender p = record { reports = λ i m. refl; names = λ q i m. refl }

abbrev policy : NotificationRetriesConfig
policy = record { max_attempts = pos 3; backoff = 60 ∷ 300 ∷ [] }

incident_notifies_each_example :
    map
      (λ x. x.provider)
      (alert_notifications 1 "api" 30 1 policy
        (send_incident senders (incident_of down 20) (monitor_in down 20)))
    ≡ "smtp" ∷ "telegram" ∷ []
unfolding providers
incident_notifies_each_example =
    incident_notifies_each senders (incident_of down 20) (monitor_in down 20) 1 30 1 policy
      (sender-IsSender "smtp", (sender-IsSender "telegram", tt))

-- The database fails when the delivery is recorded, and serves the next round.
abbrev round_with : Db → Round
round_with db = record {
  now = 30;
  list_db = available;
  claim_db = λ id. available;
  record_db = λ id. db;
  retry_db = λ id. available;
  attempted_at = λ id. 30;
  delivered_at = λ id. 30;
  senders = senders;
  policy = policy;
}

abbrev outbox : Outbox
outbox = record { store = waiting_store; pending_writes = []; sent = []; retried = [] }
