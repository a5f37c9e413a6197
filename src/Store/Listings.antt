-- ===== src/Store/Listings.antt =====
-- The queries of internal/storage/storage.go that list rows for the control API and the status page.
pub mod Failures
use upag.Base.{
  ℕ, ◌-◌, ℤ, positive_or, String, List, [], ◌∷◌, ◌++◌, map, Bool, true, false, not, ◌&&◌, ◌||◌,
  Option, none, some, any, keep, take, ltb, order_by, ◌==◌, nat_eq, string_eq, if◌then◌else◌,
}
use Prim.Native.String.{compare}
use text.Mathlib.Text.{is_lt}
use upag.State.{Status, up, down, status_eq}
use upag.SqlTime.{sql_lt, sql_le}
use upag.Storage.{
  MonitorState, ProbeResult, Incident, AlertNotification, ObserverSentinelResult,
  ConnectivitySample, StatusInterval,
}
use upag.Store.Defs.{Store, find_state}
use upag.Store.Alerts.{is_newer}
use upag.Store.Rollups.{
  is_reportable, merged_first_reportable_at, merged_last_reportable_at, time_or_zero,
}

-- `WHERE ... >= ?`, which is left out for the zero time.
abbrev pub not_before : ℕ → ℕ → Bool
not_before since at = (since == 0) || sql_le since at

-- `ORDER BY last_checked_at DESC, monitor_id`.
abbrev checked_before : MonitorState → MonitorState → Bool
checked_before a b =
    sql_lt b.last_checked_at a.last_checked_at
    || (not (sql_lt a.last_checked_at b.last_checked_at)
        && is_lt (compare a.monitor_id b.monitor_id))

unfoldable pub list_states : Store → List MonitorState
list_states s = order_by checked_before s.states

-- `FAILURE`, or the transition of an incident.
pub data ListedTransition : Type 0 where
  failure : ListedTransition
  transition_to : Status → ListedTransition

pub record ListedIncident : Type 0 where
  pub id : ℕ
  pub monitor_id : String
  pub name : String
  pub transition : ListedTransition
  pub observed_at : ℕ
  pub error : String
  pub status_code : ℕ

abbrev pub listed_incident : Incident → ListedIncident
listed_incident i = record {
  id = i.id;
  monitor_id = i.monitor_id;
  name = i.name;
  transition = transition_to i.transition;
  observed_at = i.observed_at;
  error = i.error;
  status_code = i.status_code;
}

-- `COALESCE(monitor_states.name, '')` of the left join.
abbrev pub name_of : Option MonitorState → String
name_of none = ""
name_of (some m) = m.name

unfoldable pub listed_failure : Store → ProbeResult → ListedIncident
unfolding find_state
listed_failure s p = record {
  id = 0;
  monitor_id = p.monitor_id;
  name = name_of (find_state p.monitor_id s.states);
  transition = failure;
  observed_at = p.checked_at;
  error = p.error;
  status_code = p.observed_status_code;
}

-- A failure that is reported and has no incident of its own.
abbrev pub is_listed_failure : List Incident → ProbeResult → Bool
is_listed_failure incidents p =
    not p.ok
    && is_reportable p
    && not (
        any (λ (i : Incident). i.monitor_id == p.monitor_id && (i.observed_at == p.checked_at))
          incidents)

abbrev observed_last : ListedIncident → ListedIncident → Bool
observed_last a b =
    sql_lt b.observed_at a.observed_at
    || (not (sql_lt a.observed_at b.observed_at) && ltb b.id a.id)

unfoldable pub list_incidents : ℤ → ℕ → Store → List ListedIncident
unfolding listed_failure
list_incidents limit since s = take (positive_or limit 50) (
    order_by observed_last (
      keep (λ i. not_before since i.observed_at)
        (map listed_incident s.incidents
          ++ map (listed_failure s) (keep (is_listed_failure s.incidents) s.probe_results))))

pub record UptimeStreakStarts : Type 0 where
  pub failure_free_since : ℕ
  pub downtime_free_since : ℕ

-- `MAX(...)` and `MIN(...)`, NULL of no rows.
abbrev latest : List StatusInterval → (StatusInterval → Option ℕ) → Option ℕ
latest [] time = none
latest (r ∷ rs) time = merged_last_reportable_at (time r) (latest rs time)

abbrev earliest : List StatusInterval → Option ℕ
earliest [] = none
earliest (r ∷ rs) = merged_first_reportable_at (some r.started_at) (earliest rs)

abbrev is_up_now : StatusInterval → Bool
is_up_now r = r.status == up && (elim r.ended_at [ none ↦ true | some t ↦ false ])

abbrev or_else : Option ℕ → Option ℕ → Option ℕ
or_else none other = other
or_else (some t) other = some t

-- The entry of a monitor.
unfoldable pub list_uptime_streak_starts : String → Store → UptimeStreakStarts
list_uptime_streak_starts id s =
    let rows = keep (λ r. r.monitor_id == id) s.status_intervals in
    if any is_up_now rows
    then record {
      failure_free_since =
          time_or_zero (latest rows (λ r. if is_up_now r then some r.started_at else none));
      downtime_free_since = time_or_zero (
          or_else (latest rows (λ r. if r.status == down then r.ended_at else none))
            (earliest rows));
    }
    else record { failure_free_since = 0; downtime_free_since = 0 }

unfoldable pub list_failed_probe_results : ℤ → ℕ → Store → List ProbeResult
list_failed_probe_results limit since s = take (positive_or limit 50) (
    order_by (λ a b. sql_lt b.checked_at a.checked_at)
      (keep (λ p. not p.ok && not_before since p.checked_at) s.probe_results))

unfoldable pub list_observer_sentinel_results : Store → List ObserverSentinelResult
list_observer_sentinel_results s =
    order_by (λ a b. is_lt (compare a.sentinel_id b.sentinel_id)) s.sentinel_results

unfoldable pub list_observer_sentinel_events : ℤ → ℕ → Store → List ObserverSentinelResult
list_observer_sentinel_events limit since s = take (positive_or limit 50) (
    order_by (λ a b. sql_lt b.checked_at a.checked_at)
      (keep (λ e. not_before since e.checked_at) s.sentinel_events))

abbrev pub attempted_last : AlertNotification → AlertNotification → Bool
attempted_last a b =
    sql_lt b.attempted_at a.attempted_at
    || (not (sql_lt a.attempted_at b.attempted_at) && ltb b.id a.id)

unfoldable pub list_alert_notifications : ℤ → Store → List AlertNotification
list_alert_notifications limit s =
    take (positive_or limit 50) (order_by attempted_last s.notifications)

-- No notification of the same incident and provider came later.
abbrev pub is_last_failure : List AlertNotification → AlertNotification → Bool
is_last_failure rows n = not n.success && not (any (is_newer n) rows)

unfoldable pub list_actionable_alert_delivery_failures : ℤ → Store → List AlertNotification
list_actionable_alert_delivery_failures limit s =
    take (positive_or limit 50)
      (order_by attempted_last (keep (is_last_failure s.notifications) s.notifications))

unfoldable pub prune_connectivity_samples : ℕ → Store → Store
prune_connectivity_samples cutoff s = record s {
  connectivity_samples = keep (λ c. not (sql_lt c.checked_at cutoff)) s.connectivity_samples;
}

unfoldable pub prune_probe_results : ℕ → ℕ → Store → Store
prune_probe_results retention now s = record s {
  probe_results = keep (λ p. not (sql_lt p.checked_at (now - retention))) s.probe_results;
}
