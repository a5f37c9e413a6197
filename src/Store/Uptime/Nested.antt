-- ===== src/Store/Uptime/Nested.antt =====
-- The windows of `ListUptimeStats` lie in one another.
use upag.Base.{
  ℕ, ◌-◌, ◌*◌, ◌/◌, ◌≤◌, ◌≡◌, ◌≢◌, refl, String, Bool, false, not, ◌&&◌, ◌||◌, none, some, All,
  arith, ◌==◌, nat_eq,
}
use upag.Availability.{
  UptimeWindowStats, second, day, apply_availability_window, excluded_intervals,
}
use upag.Availability.Points.{covered, points, points_earlier}
use upag.Availability.Overlap.{Forward, InOrder}
use upag.Availability.Downtime.{window_start, apply_availability_window_counts}
use upag.Store.Defs.{Store, available}
use upag.Store.Backfill.{FailureThresholds, Backfilled, ensure_status_intervals_backfilled}
use upag.Store.Rollups.{ProbeTables, list_uptime_window_stats}
use upag.Store.Uptime.{
  UptimeStats, list_downtime_intervals, list_uncancelled_maintenance_windows,
  list_observer_down_intervals, add_strict_availability, uptime_figures, list_uptime_stats,
  window_stats,
}

-- An instant of an outage outside the windows of maintenance and the times of a lost host.
abbrev pub is_downtime : ℕ → String → Store → ℕ → Bool
is_downtime now id s t =
    covered (list_downtime_intervals now id s) t
    && not (
        covered (list_uncancelled_maintenance_windows id s) t
        || covered (list_observer_down_intervals now s) t)

abbrev pub WellTimed : ℕ → String → Store → Type 0
WellTimed now id s =
    InOrder (list_downtime_intervals now id s)
    × All Forward (list_downtime_intervals now id s)
    × All Forward (list_uncancelled_maintenance_windows id s)
    × All Forward (list_observer_down_intervals now s)

uptime_figures_lem :
    (now : ℕ) (id : String) (s : Store) (t : ProbeTables)
    → uptime_figures now id s t ≡ add_strict_availability now id s (window_stats now id t)
unfolding uptime_figures
uptime_figures_lem now id s t = refl

-- The figures that replace those of the four windows.
abbrev figures : ℕ → String → Store → UptimeStats → UptimeStats
figures now id s stats =
    let first = stats.retained.window_started_at in
    let outages = list_downtime_intervals now id s in
    let excluded =
      excluded_intervals (list_uncancelled_maintenance_windows id s)
        (list_observer_down_intervals now s) in
    record {
      twenty_four_hour =
          apply_availability_window stats.twenty_four_hour first (now - day) now outages excluded;
      seven_day =
          apply_availability_window stats.seven_day first (now - 7 * day) now outages excluded;
      thirty_day =
          apply_availability_window stats.thirty_day first (now - 30 * day) now outages excluded;
      retained = apply_availability_window stats.retained first 0 now outages excluded;
    }

add_strict_availability_lem :
    (now : ℕ) (id : String) (s : Store) (stats : UptimeStats)
    → stats.retained.window_started_at ≢ 0
    → add_strict_availability now id s stats ≡ figures now id s stats
unfolding add_strict_availability
add_strict_availability_lem now id s stats h =
    let e : (stats.retained.window_started_at == 0) ≡ false = ground arith in rw e

figures-nested :
    (now : ℕ) (id : String) (s : Store) (t : ProbeTables)
    → (list_uptime_window_stats none id t).window_started_at ≢ 0
    → WellTimed now id s
    → let u = uptime_figures now id s t in
      let first = (list_uptime_window_stats none id t).window_started_at in
      (u.retained.downtime_seconds ≡ points (is_downtime now id s) first (now - first) / second)
      × (u.twenty_four_hour.downtime_seconds ≤ u.seven_day.downtime_seconds)
      × (u.seven_day.downtime_seconds ≤ u.thirty_day.downtime_seconds)
      × (u.thirty_day.downtime_seconds ≤ u.retained.downtime_seconds)
      × (u.twenty_four_hour.downtime_seconds ≤ u.twenty_four_hour.reportable_seconds)
      × (u.retained.downtime_seconds ≤ u.retained.reportable_seconds)
figures-nested now id s t h w =
    let stats = window_stats now id t in
    let first = stats.retained.window_started_at in
    let outages = list_downtime_intervals now id s in
    let maintenance = list_uncancelled_maintenance_windows id s in
    let host_down = list_observer_down_intervals now s in
    let counts = λ (u : UptimeWindowStats) (cutoff : ℕ).
      apply_availability_window_counts u first cutoff now outages maintenance host_down w.0 w.1 w.2
        w.3 in
    let spec = is_downtime now id s in
    rw (uptime_figures_lem now id s t, add_strict_availability_lem now id s stats h)
      (omega (
        arith,
        counts stats.twenty_four_hour (now - day),
        counts stats.seven_day (now - 7 * day),
        counts stats.thirty_day (now - 30 * day),
        counts stats.retained 0,
        points_earlier spec (window_start first (now - 7 * day)) (window_start first (now - day))
            now (ground arith),
        points_earlier spec (window_start first (now - 30 * day))
            (window_start first (now - 7 * day)) now (ground arith),
        points_earlier spec first (window_start first (now - 30 * day)) now (ground arith),
      ))

list_uptime_stats-figures :
    (th : FailureThresholds) (clock now : ℕ) (id : String) (t : ProbeTables) (b : Backfilled)
    → let b' = (ensure_status_intervals_backfilled available th clock t b).0 in
      list_uptime_stats available th clock now id t b
      ≡ (b', some (uptime_figures now id b'.store t), none)
unfolding list_uptime_stats
list_uptime_stats-figures th clock now id t b = refl

-- `ListUptimeStats` answers after the backfill. For a monitor with a probe whose outages are then in
-- order, while no interval ends before it begins: the retained downtime is the time since the first
-- probe that lies in an outage and neither in a window of maintenance that is not cancelled nor in a
-- time without the host; the last day has no more downtime than the last seven days, these no more
-- than the last thirty, and these no more than what is retained; and neither the last day nor what
-- is retained has more downtime than time that it reports on.
pub list_uptime_stats-nested :
    (th : FailureThresholds) (clock now : ℕ) (id : String) (t : ProbeTables) (b : Backfilled)
    → (list_uptime_window_stats none id t).window_started_at ≢ 0
    → WellTimed now id (ensure_status_intervals_backfilled available th clock t b).0.store
    → let b' = (ensure_status_intervals_backfilled available th clock t b).0 in
      let u = uptime_figures now id b'.store t in
      let first = (list_uptime_window_stats none id t).window_started_at in
      (list_uptime_stats available th clock now id t b ≡ (b', some u, none))
      × (u.retained.downtime_seconds
          ≡ points (is_downtime now id b'.store) first (now - first) / second)
      × (u.twenty_four_hour.downtime_seconds ≤ u.seven_day.downtime_seconds)
      × (u.seven_day.downtime_seconds ≤ u.thirty_day.downtime_seconds)
      × (u.thirty_day.downtime_seconds ≤ u.retained.downtime_seconds)
      × (u.twenty_four_hour.downtime_seconds ≤ u.twenty_four_hour.reportable_seconds)
      × (u.retained.downtime_seconds ≤ u.retained.reportable_seconds)
list_uptime_stats-nested th clock now id t b h w =
    let b' = (ensure_status_intervals_backfilled available th clock t b).0 in
    let f = figures-nested now id b'.store t h w in
    (list_uptime_stats-figures th clock now id t b, f.0, f.1, f.2, f.3, f.4, f.5)
