-- ===== src/Examples.antt =====
-- Sample data in the words of the repository's tests, and the theorems applied to it.
pub mod Monitors
pub mod Downtime
pub mod Storing
pub mod Sending
pub mod Probing
pub mod Reloads
pub mod Checks
pub mod Configs
pub mod Retained
pub mod Shown
pub mod Uptimes
use upag.Base.{
  ℕ, suc, if◌then◌else◌, List, [], ◌∷◌, String, Option, none, some, Bool, true, false, ℤ, pos,
}
use upag.State.{Status, unset, unknown, failing, up, down}
use upag.Failure.{no_failure, timeout}
use upag.Storage.{
  MonitorState, ObserverState, ProbeResult, Incident, PendingAlert, PendingStatus, pending, sending,
  AlertNotification, AlertState, MaintenanceWindow, StatusInterval,
}
use upag.Checker.{Result}
use upag.Store.{Store}

abbrev pub monitor_in : Status → ℕ → MonitorState
monitor_in status now = record {
  monitor_id = "api";
  name = "API";
  url = "https://api.example.com";
  expected_status_code = 200;
  status = status;
  status_before_maintenance = unset;
  consecutive_failures = 0;
  last_checked_at = now;
  last_success_at = 0;
  last_failure_at = 0;
  last_error = "";
  last_observed_status_code = 0;
  updated_at = now;
}

abbrev pub result_at : Bool → ℕ → Result
result_at ok now = record {
  ok = ok;
  failure_kind = if ok then no_failure else timeout;
  observed_status_code = if ok then 200 else 0;
  final_url = "";
  redirects_followed = 0;
  latency = 5;
  response_time = 5;
  error = if ok then "" else "timeout";
  checked_at = now;
}

abbrev pub probe_at : Bool → ℕ → ProbeResult
probe_at ok now = record {
  monitor_id = "api";
  checked_at = now;
  ok = ok;
  observed_status_code = if ok then 200 else 0;
  latency_ms = 5;
  response_time_ms = 5;
  attempt_count = 0;
  error = if ok then "" else "timeout";
  maintenance_window_id = 0;
  observer_suppressed = false;
  connectivity_suppressed = false;
  failure_kind = if ok then no_failure else timeout;
  suppression_reason = "";
}

abbrev pub incident_of : Status → ℕ → Incident
incident_of transition now = record {
  id = 1;
  monitor_id = "api";
  name = "API";
  transition = transition;
  observed_at = now;
  error = "timeout";
  status_code = 0;
}

abbrev pub alert_of : Status → PendingStatus → PendingAlert
alert_of transition status = record {
  id = 1;
  incident_id = 1;
  monitor_id = "api";
  transition = transition;
  due_at = 0;
  status = status;
  created_at = 0;
  delivered_at = 0;
}

abbrev pub told_of : Status → AlertState
told_of status = record { monitor_id = "api"; last_notified_status = status; updated_at = 0 }

abbrev pub open_since : Status → ℕ → StatusInterval
open_since status t = record {
  id = 1;
  monitor_id = "api";
  status = status;
  started_at = t;
  ended_at = none;
  downtime = false;
}

abbrev pub window_of : ℕ → ℕ → MaintenanceWindow
window_of starts_at ends_at = record {
  id = 1;
  monitor_id = "api";
  starts_at = starts_at;
  ends_at = ends_at;
  reason = "upgrade";
  created_by = "ops";
  created_at = 1;
  cancelled_at = 0;
  cancelled_by = "";
  cancellation_reason = "";
}

abbrev pub store_of : List MonitorState → List PendingAlert → List AlertState → Store
store_of states alerts told = record {
  states = states;
  probe_results = [];
  status_intervals = [];
  incidents = [];
  pending_alerts = alerts;
  alert_states = told;
  notifications = [];
  maintenance_windows = [];
  observer_state = none;
  sentinel_results = [];
  sentinel_events = [];
  connectivity_samples = [];
  next_interval_id = 2;
  next_incident_id = 2;
  next_pending_id = 2;
  next_notification_id = 1;
  next_window_id = 2;
  next_sample_id = 1;
}
