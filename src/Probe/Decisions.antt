-- ===== src/Probe/Decisions.antt =====
-- What a probe decides: its attempts, the row it stores, and the next state with its incident.
use upag.Base.{
  ℕ, suc, ◌/◌, String, Bool, false, not, ◌&&◌, ℤ, pos, at_least_zero, is_positive, Option, none,
  some, ◌==◌, nat_eq, if◌then◌else◌,
}
use upag.State.{Status, unset, unknown, down, maintenance, status_eq}
use upag.Storage.{MonitorState, ProbeResult, Incident}
use upag.Checker.{Result, failure_message}
use upag.Monitor.{evaluate}
use upag.Store.{Db}
use upag.Transfer.{TransferCheckConfig, TransferGuard, Sampling}
use upag.Dispatch.{Outbox, Round}

-- The fields of the configuration that the runner itself reads.
pub record MonitorConfig : Type 0 where
  pub id : String
  pub name : String
  pub url : String
  pub expected_status_code : ℕ

pub record Settings : Type 0 where
  pub threshold : ℤ
  pub probe_retries : ℤ
  pub probe_retry_backoff : ℤ
  pub transfer_check : TransferCheckConfig
  pub delay_down : ℕ
  pub delay_up : ℕ

-- What a probe meets: whether the runner stops, the result of each attempt (counted from one),
-- whether the wait after it is interrupted, whether the database serves each call, the transfer
-- sample, the clock at the end, and the round of sending.
pub record Probing : Type 0 where
  pub stopped : Bool
  pub check : ℕ → Result
  pub interrupted : ℕ → Bool
  pub state_db : Db
  pub window_db : Db
  pub observer_db : Db
  pub save_db : Db
  pub count_db : Db
  pub sampling : Sampling
  pub clock : ℕ
  pub round : Round

pub record World : Type 0 where
  pub outbox : Outbox
  pub guard : TransferGuard

-- The loop of `checkWithRetries` from the given attempt on, with so many attempts after it.
unfoldable pub retry_from : Probing → ℤ → ℕ → ℕ → Result × ℕ
retry_from e backoff attempt ℕ.zero = (e.check attempt, attempt)
retry_from e backoff attempt (suc left) =
    let rest = retry_from e backoff (suc attempt) left in
    if (e.check attempt).ok
    then (e.check attempt, attempt)
    else if is_positive backoff && e.interrupted attempt
    then (e.check attempt, attempt)
    else rest

unfoldable pub check_with_retries : Probing → ℤ → ℤ → Result × ℕ
unfolding retry_from
check_with_retries e probe_retries backoff = retry_from e backoff 1 (at_least_zero probe_retries)

-- `previous` of the source.
abbrev pub previous_state : MonitorConfig → Option MonitorState → MonitorState
previous_state mon none = record {
  monitor_id = mon.id;
  name = mon.name;
  url = mon.url;
  expected_status_code = mon.expected_status_code;
  status = unknown;
  status_before_maintenance = unset;
  consecutive_failures = 0;
  last_checked_at = 0;
  last_success_at = 0;
  last_failure_at = 0;
  last_error = "";
  last_observed_status_code = 0;
  updated_at = 0;
}
previous_state mon (some m) = record m {
  name = mon.name;
  url = mon.url;
  expected_status_code = mon.expected_status_code;
}

abbrev pub millisecond : ℕ
millisecond = 1_000_000

abbrev pub probe_row : MonitorConfig → Result → ℕ → ProbeResult
probe_row mon result attempts = record {
  monitor_id = mon.id;
  checked_at = result.checked_at;
  ok = result.ok;
  observed_status_code = result.observed_status_code;
  latency_ms = result.latency / millisecond;
  response_time_ms = result.response_time / millisecond;
  attempt_count = attempts;
  error = result.error;
  maintenance_window_id = 0;
  observer_suppressed = false;
  connectivity_suppressed = false;
  failure_kind = result.failure_kind;
  suppression_reason = "";
}

unfoldable pub maintenance_state : MonitorState → Result → MonitorConfig → ℕ → MonitorState
maintenance_state previous result mon now =
    let next = record previous {
      monitor_id = mon.id;
      name = mon.name;
      url = mon.url;
      expected_status_code = mon.expected_status_code;
      status_before_maintenance =
          if previous.status == maintenance
          then previous.status_before_maintenance
          else previous.status;
      status = maintenance;
      consecutive_failures = 0;
      last_checked_at = now;
      last_observed_status_code = result.observed_status_code;
      updated_at = now;
    } in
    if result.ok
    then record next { last_success_at = now; last_error = "" }
    else record next { last_failure_at = now; last_error = failure_message result }

-- The state that is evaluated, and the threshold: the first probe after a maintenance decides.
abbrev pub evaluated_state : MonitorState → Result → MonitorState
evaluated_state previous result =
    if previous.status == maintenance && result.ok && (previous.status_before_maintenance == down)
    then record previous { status = down }
    else previous

abbrev pub effective_threshold : MonitorState → Result → ℤ → ℤ
effective_threshold previous result threshold =
    if previous.status == maintenance && not result.ok then pos 1 else threshold

abbrev pub incident_for : MonitorConfig → Result → Status → Option Incident
incident_for mon result transition =
    if not (transition == unset)
    then some (record {
      id = 0;
      monitor_id = mon.id;
      name = mon.name;
      transition = transition;
      observed_at = result.checked_at;
      error = result.error;
      status_code = result.observed_status_code;
    })
    else none

unfoldable pub evaluate_probe :
    MonitorConfig → MonitorState → Result → ℤ → MonitorState × Option Incident
unfolding evaluate
evaluate_probe mon previous result threshold =
    let now = result.checked_at in
    let evaluation =
      evaluate (evaluated_state previous result) result
        (effective_threshold previous result threshold) now in
    (
      record (evaluation.next_state) {
        monitor_id = mon.id;
        name = mon.name;
        url = mon.url;
        expected_status_code = mon.expected_status_code;
        status_before_maintenance = unset;
        updated_at = now;
      },
      incident_for mon result evaluation.incident_transition,
    )
