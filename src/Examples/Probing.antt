-- ===== src/Examples/Probing.antt =====
-- Probes of a runner, the transfer guard, and rounds of sending and retrying.
use upag.Base.{All, none, length, ◌++◌, Bool, ℕ, ◌≤◌, ◌≡◌, refl, List, [], ◌∷◌, true, false, pos}
use upag.State.{unset, failing, down}
use upag.Storage.{ConnectivitySample, AlertNotification}
use upag.Store.{Store, available, broken}
use upag.SqlTime.{sql_le}
use upag.Store.Alerts.{
  list_due_alert_notification_retries, list_due_pending_monitor_alerts, save_alert_notifications,
}
use upag.Store.Probes.Queue.{Current}
use upag.Transfer.{
  TransferCheckConfig, Sampling, no_answer, cleared, check_transfer, sample_transfer, replay,
}
use upag.Transfer.Restart.{Replayed, sample_transfer-Replayed}
use upag.Transfer.Degraded.{Degrading, degraded_needs_run}
use upag.Alert.{IncidentSender}
use upag.Dispatch.{Round, retry_alert_notifications, retry_all, send_again}
use upag.Dispatch.Once.{times_sent}
use upag.Dispatch.Calls.{IsRetry}
use upag.Probe.{Probing, Settings, MonitorConfig, World, probe, check_with_retries, evaluate_probe}
use upag.Probe.Retries.{check_with_retries_lem}
use upag.Probe.Saved.{OneFits}
use upag.Probe.Incidents.{probe_opens_incident}
use upag.Probe.Maintenance.{maintained, after_maintenance}
use upag.Probe.Alerts.{Action, probes_once, retries, run, run-Current, runner-times_sent-le-one}
use upag.Observer.{ObserverConfig, answered}
use upag.ObserverProbe.{Observing}
use upag.ObserverProbe.History.{
  made_of, stored_checks, SettledStore, observe_all, observe_all-SettledStore,
}
use upag.Examples.{monitor_in, result_at, incident_of, store_of}

abbrev transfer_check : TransferCheckConfig
transfer_check = record {
  enabled = true;
  interval = pos 900_000_000_000;
  incident_interval = pos 30_000_000_000;
  slow_threshold = 2_000_000_000;
  consecutive_slow_results = pos 2;
}

abbrev slow_at : ℕ → ConnectivitySample
slow_at now = check_transfer transfer_check "scheduled" "" now (no_answer "timeout" 5000)

abbrev sampling : Sampling
sampling = record {
  now = 7_000_000_000;
  cancelled = false;
  transfer = no_answer "timeout" 5000;
  save_db = available;
}

abbrev empty_store : Store
empty_store = store_of (monitor_in failing 10 ∷ []) [] []

sample_transfer-Replayed_example :
    let (s', g') = sample_transfer sampling transfer_check "scheduled" "" empty_store (cleared 0) in
    Replayed transfer_check s' g'
unfolding replay
sample_transfer-Replayed_example =
    sample_transfer-Replayed sampling transfer_check "scheduled" "" empty_store (cleared 0)
      (refl, refl, refl)

degraded_needs_run_example :
    Degrading transfer_check (slow_at 6_000_000_000 ∷ slow_at 5_000_000_000 ∷ [])
unfolding replay check_transfer
degraded_needs_run_example =
    degraded_needs_run transfer_check (slow_at 6_000_000_000 ∷ slow_at 5_000_000_000 ∷ []) refl

abbrev quiet_round : Round
quiet_round = record {
  now = 30;
  list_db = available;
  claim_db = λ id. available;
  record_db = λ id. broken;
  retry_db = λ id. available;
  attempted_at = λ id. 30;
  delivered_at = λ id. 30;
  senders = [];
  policy = record { max_attempts = pos 3; backoff = 60 ∷ [] };
}

abbrev probing : Probing
probing = record {
  stopped = false;
  check = λ k. result_at false 20;
  interrupted = λ k. false;
  state_db = available;
  window_db = available;
  observer_db = available;
  save_db = available;
  count_db = available;
  sampling = sampling;
  clock = 21;
  round = quiet_round;
}

abbrev settings : Settings
settings = record {
  threshold = pos 1;
  probe_retries = pos 2;
  probe_retry_backoff = pos 1_000_000_000;
  transfer_check = transfer_check;
  delay_down = 0;
  delay_up = 0;
}

abbrev api : MonitorConfig
api = record {
  id = "api";
  name = "API";
  url = "https://api.example.com";
  expected_status_code = 200;
}

abbrev world : World
world = record {
  outbox = record { store = empty_store; pending_writes = []; sent = []; retried = [] };
  guard = cleared 0;
}

check_with_retries_lem_example :
    let (r, n) = check_with_retries probing (pos 2) (pos 1) in r ≡ probing.check n
check_with_retries_lem_example = (check_with_retries_lem probing (pos 2) (pos 1)).0

probe_opens_incident_example :
    let result = (check_with_retries probing (pos 2) (pos 1_000_000_000)).0 in
    OneFits api result [] (probe probing settings api world).outbox.store.incidents
probe_opens_incident_example = (probe_opens_incident probing settings api world).0

after_maintenance_example :
    let (next, incident) =
      evaluate_probe api
        (maintained api (monitor_in down 5) (result_at false 10 ∷ []))
        (result_at true 20)
        (pos 3) in
    next.status_before_maintenance ≡ unset
after_maintenance_example =
    (after_maintenance api (monitor_in down 5) (result_at false 10) [] (result_at true 20) (pos 3)
      (λ e. cc)).0

abbrev actions : List Action
actions =
    probes_once probing settings api
    ∷ retries quiet_round (λ n. (incident_of down 20, monitor_in down 20))
    ∷ probes_once (record probing { check = λ k. result_at true 40 }) settings api
    ∷ []

run-Current_example : Current (run actions world).outbox.store
run-Current_example = run-Current actions world tt

-- A notification that failed and is due again.
abbrev failed_notification : AlertNotification
failed_notification = record {
  id = 1;
  incident_id = 1;
  monitor_id = "api";
  provider = "smtp";
  attempted_at = 10;
  attempt_number = 1;
  success = false;
  error = "connection refused";
  next_retry_at = 15;
  retry_exhausted = false;
}

abbrev smtp : IncidentSender
smtp = record {
  send_incident = λ i m. record { provider = "smtp"; error = none } ∷ [];
  send_provider = λ p i m. record { provider = p; error = none };
  providers = "smtp" ∷ [];
}

abbrev failed_world : World
failed_world = record world {
  outbox = record {
    store = record empty_store {
      notifications = failed_notification ∷ [];
      next_notification_id = 2;
    };
    pending_writes = [];
    sent = [];
    retried = [];
  };
}

-- The attempt of the first round cannot be stored.
abbrev rounds : List Action
rounds =
    retries (record quiet_round { senders = smtp ∷ []; retry_db = λ id. broken })
      (λ n. (incident_of down 20, monitor_in down 20))
    ∷ retries (record quiet_round { senders = smtp ∷ [] })
        (λ n. (incident_of down 20, monitor_in down 20))
    ∷ []

runner-times_sent-le-one_example :
    let w = run (rounds ++ actions) failed_world in
    (times_sent 2 w.outbox ≤ 1) × All IsRetry w.outbox.retried
runner-times_sent-le-one_example =
    runner-times_sent-le-one 2 (rounds ++ actions) failed_world tt refl refl

-- The provider is called in both rounds.
called_twice : length (run rounds failed_world).outbox.retried ≡ 2
unfolding retry_alert_notifications retry_all send_again list_due_alert_notification_retries
    list_due_pending_monitor_alerts sql_le save_alert_notifications
called_twice = refl

abbrev observing : Bool → ℕ → Observing
observing stopped now = record {
  stopped = stopped;
  now = now;
  respond = λ s. answered 7 200;
  state_db = available;
  samples_db = broken;
  save_db = available;
  notify_db = available;
  sampling = sampling;
  attempted_at = now;
  senders = [];
  policy = record { max_attempts = pos 3; backoff = 60 ∷ [] };
}

abbrev one_sentinel : ObserverConfig
one_sentinel = record {
  sentinels =
      record {
        id = "one";
        name = "One";
        url = "https://one.example.com";
        expected_status_code = 204;
      }
      ∷ [];
  required_successes = pos 1;
  failure_threshold = pos 2;
  recovery_threshold = pos 1;
}

observe_all-SettledStore_example :
    let es = observing false 10 ∷ observing false 20 ∷ [] in
    let found =
      (observe_all one_sentinel transfer_check es (empty_store, cleared 0)).0.observer_state in
    let h = stored_checks one_sentinel es [] in
    (found ≡ made_of one_sentinel h) × SettledStore one_sentinel h found
observe_all-SettledStore_example =
    observe_all-SettledStore one_sentinel transfer_check
      (observing false 10 ∷ observing false 20 ∷ []) empty_store (cleared 0) refl
