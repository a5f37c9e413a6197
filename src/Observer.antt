-- ===== src/Observer.antt =====
-- internal/observer/observer.go: the connectivity of the monitoring host itself.
pub mod Quorum
pub mod Streak
use upag.Base.{
  ℕ, zero, suc, String, Bool, true, false, not, ◌&&◌, List, [], ◌∷◌, ◌==◌, nat_eq, if◌then◌else◌, ℤ,
  positive_or, leb, ltb, le_of_nat, is_empty, ◌<>◌, join, count, map, decimal, length,
}
use upag.State.{Status, unset, observer_up, observer_down, status_eq}
use upag.Storage.{ObserverState, ObserverSentinelResult, ConnectivitySample}

-- One part of `observerError`.
abbrev pub sentinel_error : ObserverSentinelResult → String
sentinel_error r =
    if not (is_empty r.error)
    then r.sentinel_id <> (": " <> r.error)
    else r.sentinel_id <> ": unhealthy"

abbrev pub error_parts : List ObserverSentinelResult → List String
error_parts [] = []
error_parts (r ∷ rs) = let rest = error_parts rs in if r.ok then rest else sentinel_error r ∷ rest

abbrev pub no_quorum : String
no_quorum = "observer connectivity check did not reach required sentinel quorum"

abbrev pub text_of_parts : List String → String
text_of_parts [] = no_quorum
text_of_parts (p ∷ ps) = join "; " (p ∷ ps)

unfoldable pub observer_error : List ObserverSentinelResult → String
observer_error results = text_of_parts (error_parts results)

-- `next` of the source before `healthy` is looked at.
abbrev pub observed : ObserverState → ℕ → ObserverState
observed previous now = record previous {
  status = if previous.status == unset then observer_up else previous.status;
  last_checked_at = now;
  updated_at = now;
}

abbrev pub healthy_state : ObserverState → ℕ → ObserverState
healthy_state next now = record next {
  consecutive_failures = 0;
  consecutive_successes = suc next.consecutive_successes;
  last_success_at = now;
  last_error = "";
}

abbrev pub unhealthy_state : ObserverState → List ObserverSentinelResult → ℕ → ObserverState
unhealthy_state next results now = record next {
  consecutive_successes = 0;
  consecutive_failures = suc next.consecutive_failures;
  last_failure_at = now;
  last_error = observer_error results;
}

abbrev pub recover : Bool → ℕ → ObserverState → ObserverState × Status
recover previous_known recovery s =
    if s.status == observer_down && leb recovery s.consecutive_successes
    then (record s { status = observer_up }, observer_up)
    else if not previous_known && leb recovery s.consecutive_successes
    then (record s { status = observer_up }, unset)
    else (s, unset)

abbrev pub degrade : ℕ → ObserverState → ObserverState × Status
degrade failure s =
    if not (s.status == observer_down) && leb failure s.consecutive_failures
    then (record s { status = observer_down }, observer_down)
    else (s, unset)

unfoldable pub evaluate :
    ObserverState → Bool → Bool → List ObserverSentinelResult → ℤ → ℤ → ℕ → ObserverState × Status
evaluate previous previous_known healthy results failure_threshold recovery_threshold now =
    let next = observed previous now in
    if healthy
    then recover previous_known (positive_or recovery_threshold 1) (healthy_state next now)
    else degrade (positive_or failure_threshold 1) (unhealthy_state next results now)

pub record SentinelConfig : Type 0 where
  pub id : String
  pub name : String
  pub url : String
  pub expected_status_code : ℕ

-- What the HTTP client of Go reports of one request: `Left` of the source's three returns.
pub data Response : Type 0 where
  bad_request : String → Response
  transport_error : ℕ → String → Response
  answered : ℕ → ℕ → Response

-- `checkSentinel`, with the outcome of the request given: the latency in milliseconds, then the
-- error or the status code.
unfoldable pub check_sentinel : SentinelConfig → ℕ → Response → ObserverSentinelResult
check_sentinel sentinel now response =
    let result : ObserverSentinelResult = record {
      sentinel_id = sentinel.id;
      name = sentinel.name;
      url = sentinel.url;
      expected_status_code = sentinel.expected_status_code;
      ok = false;
      observed_status_code = 0;
      latency_ms = 0;
      response_time_ms = 0;
      error = "";
      checked_at = now;
    } in
    elim response [
      | bad_request e ↦ record result { error = e }
      | transport_error ms e ↦ record result { latency_ms = ms; response_time_ms = ms; error = e }
      | answered ms code ↦
          let seen = record result {
            latency_ms = ms;
            response_time_ms = ms;
            observed_status_code = code;
          } in
          if not (code == sentinel.expected_status_code)
          then record seen {
            error =
                "expected HTTP status "
                <> (decimal sentinel.expected_status_code
                    <> (", observed HTTP status " <> decimal code));
          }
          else record seen { ok = true }
    ]

pub record ObserverConfig : Type 0 where
  pub sentinels : List SentinelConfig
  pub required_successes : ℤ
  pub failure_threshold : ℤ
  pub recovery_threshold : ℤ

pub record CheckResult : Type 0 where
  pub state : ObserverState
  pub sentinel_results : List ObserverSentinelResult
  pub incident_transition : Status

-- The goroutines of `Check` write to distinct slots and are all waited for, so the results stand
-- in the order of the sentinels. `respond` is what the network answers to each.
abbrev pub sentinel_results :
    (SentinelConfig → Response) → ℕ → List SentinelConfig → List ObserverSentinelResult
sentinel_results respond now [] = []
sentinel_results respond now (s ∷ ss) =
    check_sentinel s now (respond s) ∷ sentinel_results respond now ss

abbrev pub successes : List ObserverSentinelResult → ℕ
successes = count (λ r. r.ok)

unfoldable pub check :
    (SentinelConfig → Response) → ObserverConfig → ObserverState → Bool → ℕ → CheckResult
unfolding evaluate
check respond cfg previous previous_known now =
    let results = sentinel_results respond now cfg.sentinels in
    let healthy = le_of_nat cfg.required_successes (successes results) in
    let (next, transition) =
      evaluate previous previous_known healthy results cfg.failure_threshold cfg.recovery_threshold
        now in
    record { state = next; sentinel_results = results; incident_transition = transition }

-- The zero value of `ObserverState`, where none is stored.
abbrev pub no_state : ObserverState
no_state = record {
  status = unset;
  consecutive_failures = 0;
  consecutive_successes = 0;
  last_checked_at = 0;
  last_success_at = 0;
  last_failure_at = 0;
  last_error = "";
  updated_at = 0;
}
