-- ===== src/Store/Uptime.antt =====
-- `ListUptimeStats` and `ListDailyUptimeStats` of internal/storage/storage.go, of one monitor: what
-- they read from the tables, and the arithmetic that they hand it to.
pub mod Nested
use upag.Base.{
  Option, none, some, ℕ, suc, ◌-◌, ◌*◌, ℤ, pos, negsuc, String, List, [], ◌∷◌, map, Bool, true,
  false, not, ◌&&◌, ◌||◌, keep, ltb, leb, any, order_by, ◌==◌, nat_eq, string_eq, if◌then◌else◌,
}
use upag.State.{Status, observer_up, observer_down, status_eq}
use upag.SqlTime.{sql_lt}
use upag.Storage.{MonitorState, MaintenanceWindow, StatusInterval, Incident}
use upag.Availability.{
  TimeInterval, ObserverTransition, UptimeWindowStats, DailyUptimeStats, observer_down_intervals,
  excluded_intervals, apply_availability_window, daily_uptime_stats, day,
}
use upag.Store.Defs.{Store, StoreError, Db}
use upag.Store.Backfill.{FailureThresholds, Backfilled, ensure_status_intervals_backfilled}
use upag.Store.Projected.{started_before, begins_before}
use upag.Store.Rollups.{ProbeTables, time_or_zero, list_uptime_window_stats}

pub record UptimeStats : Type 0 where
  pub twenty_four_hour : UptimeWindowStats
  pub seven_day : UptimeWindowStats
  pub thirty_day : UptimeWindowStats
  pub retained : UptimeWindowStats

-- `ORDER BY observed_at, id`.
abbrev pub observed_before : Incident → Incident → Bool
observed_before a b =
    sql_lt a.observed_at b.observed_at
    || (not (sql_lt b.observed_at a.observed_at) && ltb a.id b.id)

abbrev pub is_observer_incident : Incident → Bool
is_observer_incident i =
    (i.monitor_id == "__observer__")
    && ((i.transition == observer_down) || (i.transition == observer_up))

abbrev pub transition_of : Incident → ObserverTransition
transition_of i = record { status = i.transition; at = i.observed_at }

unfoldable pub list_observer_down_intervals : ℕ → Store → List TimeInterval
unfolding observer_down_intervals
list_observer_down_intervals now s =
    observer_down_intervals
      (map transition_of (order_by observed_before (keep is_observer_incident s.incidents))) now

abbrev pub outage_of : ℕ → StatusInterval → TimeInterval
outage_of now i =
    let ended = time_or_zero i.ended_at in
    record { start = i.started_at; end = if ended == 0 then now else ended }

-- The entry of a monitor in the map; rows of one time come in the order of their ids.
unfoldable pub list_downtime_intervals : ℕ → String → Store → List TimeInterval
list_downtime_intervals now id s =
    map (outage_of now)
      (order_by started_before (keep (λ i. i.downtime && (i.monitor_id == id)) s.status_intervals))

abbrev pub window_interval : MaintenanceWindow → TimeInterval
window_interval w = record { start = w.starts_at; end = w.ends_at }

-- The windows of a monitor that are not cancelled, as the callers put them in
-- `maintenanceByMonitor`.
unfoldable pub list_uncancelled_maintenance_windows : String → Store → List TimeInterval
list_uncancelled_maintenance_windows id s = map window_interval (
    order_by begins_before
      (keep (λ w. (w.cancelled_at == 0) && (w.monitor_id == id)) s.maintenance_windows))

unfoldable pub add_strict_availability : ℕ → String → Store → UptimeStats → UptimeStats
unfolding list_downtime_intervals list_uncancelled_maintenance_windows list_observer_down_intervals
add_strict_availability now id s stats =
    let first_probe = stats.retained.window_started_at in
    let outages = list_downtime_intervals now id s in
    let excluded =
      excluded_intervals (list_uncancelled_maintenance_windows id s)
        (list_observer_down_intervals now s) in
    if first_probe == 0 then stats else record {
      twenty_four_hour =
          apply_availability_window stats.twenty_four_hour first_probe (now - day) now outages
            excluded;
      seven_day =
          apply_availability_window stats.seven_day first_probe (now - 7 * day) now outages
            excluded;
      thirty_day =
          apply_availability_window stats.thirty_day first_probe (now - 30 * day) now outages
            excluded;
      retained = apply_availability_window stats.retained first_probe 0 now outages excluded;
    }

-- The zero time leaves the cutoff out.
abbrev pub cutoff_at : ℕ → Option ℕ
cutoff_at cutoff = if cutoff == 0 then none else some cutoff

abbrev pub window_stats : ℕ → String → ProbeTables → UptimeStats
window_stats now id t = record {
  twenty_four_hour = list_uptime_window_stats (cutoff_at (now - day)) id t;
  seven_day = list_uptime_window_stats (cutoff_at (now - 7 * day)) id t;
  thirty_day = list_uptime_window_stats (cutoff_at (now - 30 * day)) id t;
  retained = list_uptime_window_stats none id t;
}

unfoldable pub uptime_figures : ℕ → String → Store → ProbeTables → UptimeStats
unfolding add_strict_availability list_uptime_window_stats
uptime_figures now id s t = add_strict_availability now id s (window_stats now id t)

unfoldable pub daily_figures : ℕ → ℤ → String → Store → ProbeTables → List DailyUptimeStats
unfolding list_downtime_intervals list_uncancelled_maintenance_windows list_observer_down_intervals
    list_uptime_window_stats
daily_figures now (pos days) id s t =
    if (days == 0) || not (any (λ (m : MonitorState). m.monitor_id == id) s.states)
    then []
    else daily_uptime_stats now days (list_uptime_window_stats none id t).window_started_at
        (list_downtime_intervals now id s) (list_uncancelled_maintenance_windows id s)
        (list_observer_down_intervals now s)
daily_figures now (negsuc n) id s t = []

-- The figures are those of the store after the backfill; an error of the backfill is returned.
abbrev after_backfill {ℓ} :
    {A : Type ℓ}
    → (Store → A)
    → Backfilled × Option StoreError
    → Backfilled × Option A × Option StoreError
after_backfill figures (b, some e) = (b, none, some e)
after_backfill figures (b, none) = (b, some (figures b.store), none)

unfoldable pub list_uptime_stats :
    Db
    → FailureThresholds
    → ℕ
    → ℕ
    → String
    → ProbeTables
    → Backfilled
    → Backfilled × Option UptimeStats × Option StoreError
unfolding ensure_status_intervals_backfilled uptime_figures
list_uptime_stats db thresholds clock now id t b =
    after_backfill (λ s. uptime_figures now id s t)
      (ensure_status_intervals_backfilled db thresholds clock t b)

unfoldable pub list_daily_uptime_stats :
    Db
    → FailureThresholds
    → ℕ
    → ℕ
    → ℤ
    → String
    → ProbeTables
    → Backfilled
    → Backfilled × Option (List DailyUptimeStats) × Option StoreError
unfolding ensure_status_intervals_backfilled daily_figures
list_daily_uptime_stats db thresholds clock now days id t b =
    after_backfill (λ s. daily_figures now days id s t)
      (ensure_status_intervals_backfilled db thresholds clock t b)
