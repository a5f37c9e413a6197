-- ===== src/Monitor.antt =====
-- internal/monitor/transition.go: the state of a monitor after one probe.
pub mod Crossing
pub mod Streak
use upag.Base.{ℕ, suc, not, ◌&&◌, ◌==◌, if◌then◌else◌, ℤ, le_of_nat}
use upag.State.{Status, unset, unknown, failing, up, down, status_eq}
use upag.Storage.{MonitorState}
use upag.Checker.{Result, failure_message}

pub record Evaluation : Type 0 where
  pub next_state : MonitorState
  pub incident_transition : Status

-- `next` of the source before the result is looked at.
abbrev pub observed : MonitorState → Result → ℕ → MonitorState
observed previous result now = record previous {
  status = if previous.status == unset then unknown else previous.status;
  last_checked_at = now;
  last_observed_status_code = result.observed_status_code;
}

abbrev pub succeeded : MonitorState → ℕ → MonitorState
succeeded next now = record next {
  consecutive_failures = 0;
  last_error = "";
  last_success_at = now;
  status = up;
}

abbrev pub failed : MonitorState → Result → ℕ → MonitorState
failed next result now = record next {
  consecutive_failures = suc next.consecutive_failures;
  last_failure_at = now;
  last_error = failure_message result;
}

unfoldable pub evaluate : MonitorState → Result → ℤ → ℕ → Evaluation
evaluate previous result threshold now =
    let next = observed previous result now in
    let worse = failed next result now in
    if result.ok
    then record {
      next_state = succeeded next now;
      incident_transition = if previous.status == down then up else unset;
    }
    else if not (previous.status == down) && le_of_nat threshold worse.consecutive_failures
    then record { next_state = record worse { status = down }; incident_transition = down }
    else record {
      next_state = record worse {
        status = if not (previous.status == down) then failing else worse.status;
      };
      incident_transition = unset;
    }
