-- ===== src/Availability.antt =====
-- internal/storage/storage.go: the arithmetic of downtime. Times and durations are counts of
-- nanoseconds; a duration that Go would find negative is 0 here, and the source adds none such.
pub mod Points
pub mod Merge
pub mod Overlap
pub mod Downtime
pub mod Daily
pub mod ObserverDown
use upag.Base.{
  ℕ, suc, ◌+◌, ◌-◌, ◌*◌, ◌/◌, ◌%◌, String, Bool, true, false, not, ◌&&◌, List, [], ◌∷◌, ◌++◌,
  Option, none, some, ltb, if◌then◌else◌, ◌==◌, nat_eq, string_eq, sort_by,
}
use upag.State.{Status, observer_up, observer_down, status_eq}
use upag.Storage.{MaintenanceWindow}

pub record TimeInterval : Type 0 where
  pub start : ℕ
  pub end : ℕ

abbrev pub min_time : ℕ → ℕ → ℕ
min_time a b = if ltb a b then a else b

abbrev pub max_time : ℕ → ℕ → ℕ
max_time a b = if ltb b a then a else b

-- `false` of the source is `none`.
unfoldable pub clipped_interval : ℕ → ℕ → TimeInterval → Option TimeInterval
clipped_interval start end interval =
    let overlap_start = max_time start interval.start in
    let overlap_end = min_time end interval.end in
    if not (ltb overlap_start overlap_end)
    then none
    else some (record { start = overlap_start; end = overlap_end })

abbrev pub clipped_length : Option TimeInterval → ℕ
clipped_length none = 0
clipped_length (some i) = i.end - i.start

unfoldable pub overlap_duration : ℕ → ℕ → List TimeInterval → ℕ
unfolding clipped_interval
overlap_duration start end [] = 0
overlap_duration start end (i ∷ is) =
    clipped_length (clipped_interval start end i) + overlap_duration start end is

-- The second loop of `excludedIntervals`: `last` is the last element of `merged`.
unfoldable pub merge_from : TimeInterval → List TimeInterval → List TimeInterval
merge_from last [] = last ∷ []
merge_from last (i ∷ is) =
    let joined = merge_from (record last { end = max_time last.end i.end }) is in
    let apart = last ∷ merge_from i is in if not (ltb last.end i.start) then joined else apart

unfoldable pub merge_sorted : List TimeInterval → List TimeInterval
unfolding merge_from
merge_sorted [] = []
merge_sorted (i ∷ is) = merge_from i is

abbrev pub interval_start : TimeInterval → ℕ
interval_start i = i.start

unfoldable pub excluded_intervals : List TimeInterval → List TimeInterval → List TimeInterval
unfolding merge_sorted
excluded_intervals maintenance host_down =
    merge_sorted (sort_by interval_start (maintenance ++ host_down))

pub record ObserverTransition : Type 0 where
  pub status : Status
  pub at : ℕ

-- `down_since` is the variable of the source, `0` for its zero time.
unfoldable pub observer_down_from : ℕ → List ObserverTransition → ℕ → List TimeInterval
observer_down_from down_since [] now =
    if not (down_since == 0) then record { start = down_since; end = now } ∷ [] else []
observer_down_from down_since (t ∷ ts) now =
    let opened = observer_down_from t.at ts now in
    let closed = record { start = down_since; end = t.at } ∷ observer_down_from 0 ts now in
    let same = observer_down_from down_since ts now in
    if t.status == observer_down && (down_since == 0)
    then opened
    else if t.status == observer_up && not (down_since == 0)
    then closed
    else same

unfoldable pub observer_down_intervals : List ObserverTransition → ℕ → List TimeInterval
unfolding observer_down_from
observer_down_intervals transitions now = observer_down_from 0 transitions now

abbrev pub second : ℕ
second = 1_000_000_000

abbrev pub day : ℕ
day = 86_400 * 1_000_000_000

-- What one outage of the loops in `applyAvailabilityWindow` and `dailyUptimeStats` adds.
unfoldable pub outage_duration : ℕ → ℕ → List TimeInterval → TimeInterval → ℕ
unfolding clipped_interval overlap_duration
outage_duration start end excluded outage = elim (clipped_interval start end outage) [
  | none ↦ 0
  | some o ↦ o.end - o.start - overlap_duration o.start o.end excluded
]

unfoldable pub total_downtime : ℕ → ℕ → List TimeInterval → List TimeInterval → ℕ
unfolding outage_duration
total_downtime start end excluded [] = 0
total_downtime start end excluded (o ∷ os) =
    outage_duration start end excluded o + total_downtime start end excluded os

pub record UptimeWindowStats : Type 0 where
  pub total_checks : ℕ
  pub successful_checks : ℕ
  pub failed_checks : ℕ
  pub maintenance_checks : ℕ
  pub maintenance_failed_checks : ℕ
  pub downtime_seconds : ℕ
  pub reportable_seconds : ℕ
  pub window_started_at : ℕ
  pub window_ended_at : ℕ

unfoldable pub apply_availability_window :
    UptimeWindowStats → ℕ → ℕ → ℕ → List TimeInterval → List TimeInterval → UptimeWindowStats
unfolding total_downtime
apply_availability_window stats first_probe cutoff now outages maintenance =
    let start = if not (cutoff == 0) && ltb first_probe cutoff then cutoff else first_probe in
    let reportable = now - start in
    let downtime = total_downtime start now maintenance outages in
    if not (ltb start now)
    then record stats { reportable_seconds = 0; downtime_seconds = 0 }
    else record stats {
      reportable_seconds = reportable / second;
      downtime_seconds = (if ltb reportable downtime then reportable else downtime) / second;
    }

pub record DailyUptimeStats : Type 0 where
  pub date : ℕ
  pub downtime_seconds : ℕ
  pub reportable_seconds : ℕ

-- The body of the loop over days in `dailyUptimeStats`, for the day that starts at `day_start`.
unfoldable pub daily_entry :
    ℕ → ℕ → ℕ → List TimeInterval → List TimeInterval → List TimeInterval → DailyUptimeStats
unfolding total_downtime excluded_intervals
daily_entry day_start now first_probe outages maintenance host_down =
    let coverage_start = max_time day_start first_probe in
    let coverage_end = min_time (day_start + day) now in
    let reportable = coverage_end - coverage_start in
    let downtime =
      total_downtime coverage_start coverage_end (excluded_intervals maintenance host_down)
        outages in
    if not (first_probe == 0) && ltb coverage_start coverage_end
    then record {
      date = day_start;
      downtime_seconds = (if ltb reportable downtime then reportable else downtime) / second;
      reportable_seconds = reportable / second;
    }
    else record { date = day_start; downtime_seconds = 0; reportable_seconds = 0 }

-- The loop over days: `count` days from `day_start` on.
unfoldable pub daily_entries :
    ℕ
    → ℕ
    → ℕ
    → ℕ
    → List TimeInterval
    → List TimeInterval
    → List TimeInterval
    → List DailyUptimeStats
unfolding daily_entry
daily_entries ℕ.zero day_start now first_probe outages maintenance host_down = []
daily_entries (suc n) day_start now first_probe outages maintenance host_down =
    daily_entry day_start now first_probe outages maintenance host_down
    ∷ daily_entries n (day_start + day) now first_probe outages maintenance host_down

-- The rows of `dailyUptimeStats` for one monitor. UTC days are multiples of 24 hours since the
-- zero time; `days` is positive, and the first day lies after the zero time.
unfoldable pub daily_uptime_stats :
    ℕ → ℕ → ℕ → List TimeInterval → List TimeInterval → List TimeInterval → List DailyUptimeStats
unfolding daily_entries
daily_uptime_stats now days first_probe outages maintenance host_down =
    let today = now - now % day in
    daily_entries days (today - (days - 1) * day) now first_probe outages maintenance host_down
