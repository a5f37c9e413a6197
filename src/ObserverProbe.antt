-- ===== src/ObserverProbe.antt =====
-- `probeObserver` of internal/app/runner.go: one check of the observer, stored and announced.
pub mod Tables
pub mod History
use upag.Base.{
  ℕ, String, List, [], ◌∷◌, map, Bool, true, false, Option, none, some, Fallible, ok, err, ◌==◌,
  if◌then◌else◌,
}
use upag.State.{Status, unset, status_eq}
use upag.Storage.{MonitorState, ObserverState, ObserverSentinelResult, ConnectivitySample, Incident}
use upag.Observer.{SentinelConfig, ObserverConfig, Response, CheckResult, check, no_state}
use upag.Store.{Store, StoreError, Db}
use upag.Store.Alerts.{save_alert_notifications}
use upag.Store.ObserverChecks.{get_observer_state, save_observer_check, save_connectivity_samples}
use upag.Alert.{IncidentSender, NotificationRetriesConfig, send_incident, alert_notifications}
use upag.Transfer.{TransferCheckConfig, TransferGuard, Sampling, sample_transfer}

-- What a check of the observer meets: whether the runner stops, the clock, the sentinels' answers,
-- whether the database serves each call, the transfer sample, and the senders.
pub record Observing : Type 0 where
  pub stopped : Bool
  pub now : ℕ
  pub respond : SentinelConfig → Response
  pub state_db : Db
  pub samples_db : Db
  pub save_db : Db
  pub notify_db : Db
  pub sampling : Sampling
  pub attempted_at : ℕ
  pub senders : List IncidentSender
  pub policy : NotificationRetriesConfig

abbrev pub observer_id : String
observer_id = "__observer__"

abbrev pub observer_name : String
observer_name = "Observer Connectivity"

abbrev pub sentinel_sample : ObserverSentinelResult → ConnectivitySample
sentinel_sample r = record {
  id = 0;
  kind = "sentinel";
  source = "scheduled";
  target_id = r.sentinel_id;
  target_name = r.name;
  url = r.url;
  monitor_id = observer_id;
  ok = r.ok;
  slow = false;
  expected_status_code = r.expected_status_code;
  observed_status_code = r.observed_status_code;
  latency_ms = r.latency_ms;
  response_time_ms = r.response_time_ms;
  bytes_read = 0;
  error = r.error;
  checked_at = r.checked_at;
}

abbrev pub observer_incident : CheckResult → ℕ → Option Incident
observer_incident c now =
    if c.incident_transition == unset
    then none
    else some (record {
      id = 0;
      monitor_id = observer_id;
      name = observer_name;
      transition = c.incident_transition;
      observed_at = now;
      error = c.state.last_error;
      status_code = 0;
    })

-- The state that is handed to the senders.
abbrev pub observer_as_monitor : CheckResult → ℕ → MonitorState
observer_as_monitor c now = record {
  monitor_id = observer_id;
  name = observer_name;
  url = "";
  expected_status_code = 0;
  status = c.state.status;
  status_before_maintenance = unset;
  consecutive_failures = 0;
  last_checked_at = 0;
  last_success_at = 0;
  last_failure_at = 0;
  last_error = c.state.last_error;
  last_observed_status_code = 0;
  updated_at = now;
}

-- `sendIncidentNotificationsTracked`: an observer incident is sent at once, without a queue.
abbrev pub announce : Observing → CheckResult → Option Incident → ℕ → Store → Store
announce e c none id s = s
announce e c (some i) id s =
    (save_alert_notifications e.notify_db
      (alert_notifications id i.monitor_id e.attempted_at 1 e.policy
        (send_incident e.senders i (observer_as_monitor c e.now)))
      s).0

-- The rest of the method once the check was stored, or not.
abbrev pub after_check :
    Observing
    → TransferCheckConfig
    → CheckResult
    → Option Incident
    → Store × Fallible StoreError ℕ
    → TransferGuard
    → Store × TransferGuard
after_check e cfg c incident (s, err x) g = (s, g)
after_check e cfg c incident (s, ok id) g =
    let (s', g') = sample_transfer e.sampling cfg "scheduled" "" s g in
    (announce e c incident id s', g')

abbrev pub known_observer : Option ObserverState → ObserverState × Bool
known_observer none = (no_state, false)
known_observer (some o) = (o, true)

abbrev pub with_observer :
    Observing
    → ObserverConfig
    → TransferCheckConfig
    → Fallible StoreError (Option ObserverState)
    → Store
    → TransferGuard
    → Store × TransferGuard
with_observer e cfg transfer (err x) s g = (s, g)
with_observer e cfg transfer (ok found) s g =
    let (previous, known) = known_observer found in
    let c = check e.respond cfg previous known e.now in
    let s' =
      (save_connectivity_samples e.samples_db (map sentinel_sample c.sentinel_results) s).0 in
    let incident = observer_incident c e.now in
    after_check e transfer c incident
      (save_observer_check e.save_db c.state c.sentinel_results incident s') g

unfoldable pub probe_observer :
    Observing → ObserverConfig → TransferCheckConfig → Store → TransferGuard → Store × TransferGuard
unfolding check
probe_observer e cfg transfer s g =
    let done = with_observer e cfg transfer (get_observer_state e.state_db s).1 s g in
    if e.stopped then (s, g) else done
