-- ===== src/Examples/Uptimes.antt =====
-- The figures of uptime, the first history made of the probes, monitors that are forgotten,
-- and deliveries that failed.
use upag.Base.{ℕ, count, ◌≡◌, ◌≤◌, refl, [], ◌∷◌, none, some, true, false, pos, map, arith, inl}
use upag.State.{up, down}
use upag.SqlTime.{sql_lt}
use upag.Store.{Store, available, find_state}
use upag.Store.Intervals.Chain.{history_of}
use upag.Store.Rollups.{ProbeTables, list_uptime_window_stats}
use upag.Store.Uptime.{
  uptime_figures, list_downtime_intervals, list_uncancelled_maintenance_windows,
  list_observer_down_intervals,
}
use upag.Store.Uptime.Nested.{list_uptime_stats-nested}
use upag.Store.Backfill.{
  FailureThresholds, Backfilled, ensure_status_intervals_backfilled, list_reportable_uptime_runs,
}
use upag.Store.Backfill.Told.{entry}
use upag.Store.Backfill.History.{ensure_backfilled-IsChain}
use upag.Storage.{AlertNotification}
use upag.Store.Listings.{list_actionable_alert_delivery_failures}
use upag.Store.Listings.Failures.{is_about, list_actionable-le-one}
use upag.Store.Deleted.{delete_states_except, delete_states_except-keeps}
use upag.Examples.{monitor_in, probe_at, open_since, window_of, store_of}

-- Up at 10, failed at 20 and 30.
abbrev probed : ProbeTables
probed = record {
  results = probe_at false 30 ∷ probe_at false 20 ∷ probe_at true 10 ∷ [];
  minutes = [];
  hours = [];
  days = [];
  runs = record { rows = []; next_id = 1 };
}

abbrev outage_store : Store
outage_store = record (store_of [] [] []) {
  status_intervals = record (open_since down 20) { downtime = true } ∷ [];
  maintenance_windows = window_of 25 28 ∷ [];
}

abbrev two_failures : FailureThresholds
two_failures = record { default = pos 2; monitors = λ id. pos 0 }

abbrev not_yet : Backfilled
not_yet = record { marker = none; store = outage_store }

list_uptime_stats-nested_example :
    (uptime_figures 40 "api" outage_store probed).twenty_four_hour.downtime_seconds
    ≤ (uptime_figures 40 "api" outage_store probed).seven_day.downtime_seconds
unfolding list_uptime_window_stats list_downtime_intervals list_uncancelled_maintenance_windows
    list_observer_down_intervals sql_lt ensure_status_intervals_backfilled
list_uptime_stats-nested_example =
    (list_uptime_stats-nested two_failures 50 40 "api" probed
      (record not_yet { marker = some (1, 2) }) (ground arith)
      (tt, ground arith, ground arith, tt)).2

made_statuses :
    map
      (λ r. r.status)
      (ensure_status_intervals_backfilled available two_failures 50 probed
        not_yet).0.store.status_intervals
    ≡ down ∷ up ∷ []
unfolding ensure_status_intervals_backfilled sql_lt
made_statuses = refl

ensure_backfilled-IsChain_example :
    map entry (
      history_of "api"
        (ensure_status_intervals_backfilled available two_failures 50 probed
          not_yet).0.store.status_intervals)
    ≡ (20, down) ∷ (10, up) ∷ []
unfolding list_reportable_uptime_runs sql_lt
ensure_backfilled-IsChain_example =
    (ensure_backfilled-IsChain two_failures two_failures 50 60 probed probed outage_store "api" true
      (inl (refl, inl (refl, omega arith, inl (refl, omega arith, tt))))).0

abbrev known_store : Store
known_store = store_of (monitor_in down 20 ∷ []) [] []

-- The only monitor goes: its state and its alert go with it.
delete_states_except-keeps_example :
    find_state "api" (delete_states_except available [] known_store).0.states ≡ none
delete_states_except-keeps_example = (delete_states_except-keeps [] "api" known_store).0

abbrev attempt : ℕ → ℕ → AlertNotification
attempt id at = record {
  id = id;
  incident_id = 1;
  monitor_id = "api";
  provider = "telegram";
  attempted_at = at;
  attempt_number = id;
  success = false;
  error = "timeout";
  next_retry_at = 0;
  retry_exhausted = false;
}

-- A second attempt failed too: only that one is listed.
abbrev attempts_store : Store
attempts_store = record (store_of [] [] []) {
  notifications = attempt 2 20 ∷ attempt 1 10 ∷ [];
  next_notification_id = 3;
}

listed_attempts :
    map (λ n. n.id) (list_actionable_alert_delivery_failures (pos 0) attempts_store) ≡ 2 ∷ []
unfolding list_actionable_alert_delivery_failures
listed_attempts = refl

list_actionable-le-one_example :
    count (is_about 1 "telegram") (list_actionable_alert_delivery_failures (pos 5) attempts_store)
    ≤ 1
list_actionable-le-one_example =
    list_actionable-le-one (pos 5) attempts_store 1 "telegram" (omega arith, (omega arith, tt))
