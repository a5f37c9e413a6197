-- ===== src/Store/Rollups.antt =====
-- `RollupAndPruneProbeResults` of internal/storage/storage.go: old probe results are summed up by the
-- minute, old minutes by the hour and old hours by the day; and the figures that
-- `listUptimeWindowStats` reads from the four tables. A bucket is named by the time at which it
-- begins; times are after Go's zero time.
mod Outcomes
pub mod Sums
pub mod Conserved
pub mod Runs
pub mod Compacted
pub use Outcomes.{OutcomeRun, RunTable, is_reportable}
unfoldable pub use Outcomes.{append_outcome_run, compact_raw_outcome_runs}
use upag.Base.{
  ℕ, ◌+◌, ◌-◌, ◌*◌, ◌/◌, String, List, [], ◌∷◌, ◌++◌, map, Bool, true, false, not, ◌&&◌, Option,
  none, some, keep, ◌==◌, nat_eq, string_eq, if◌then◌else◌,
}
use upag.Storage.{ProbeResult}
use upag.SqlTime.{nanos_per_second, sql_lt, sql_le}
use upag.Availability.{UptimeWindowStats}

-- A row of the tables that `rollupTableStatement` creates.
pub record Rollup : Type 0 where
  pub monitor_id : String
  pub bucket_start : ℕ
  pub total_checks : ℕ
  pub successful_checks : ℕ
  pub maintenance_checks : ℕ
  pub maintenance_failed_checks : ℕ
  pub observer_suppressed_checks : ℕ
  pub first_reportable_at : Option ℕ
  pub last_reportable_at : Option ℕ

pub record ProbeTables : Type 0 where
  pub results : List ProbeResult
  pub minutes : List Rollup
  pub hours : List Rollup
  pub days : List Rollup
  pub runs : RunTable

pub record RollupRetention : Type 0 where
  pub duration : ℕ
  pub forever : Bool

pub record ProbeRetentionPolicy : Type 0 where
  pub probe_results : RollupRetention
  pub probe_minute_rollups : RollupRetention
  pub probe_hourly_rollups : RollupRetention
  pub probe_daily_rollups : RollupRetention

-- `CASE WHEN c THEN 1 ELSE 0 END`.
abbrev pub one_if : Bool → ℕ
one_if c = if c then 1 else 0

abbrev pub in_window : ProbeResult → Bool
in_window p = not (p.maintenance_window_id == 0)

-- `mergedFirstReportableAt` and `mergedLastReportableAt`; MIN and MAX pass over NULL in the same
-- way.
abbrev pub merged_first_reportable_at : Option ℕ → Option ℕ → Option ℕ
merged_first_reportable_at none incoming = incoming
merged_first_reportable_at (some e) none = some e
merged_first_reportable_at (some e) (some i) = if sql_lt i e then some i else some e

abbrev pub merged_last_reportable_at : Option ℕ → Option ℕ → Option ℕ
merged_last_reportable_at none incoming = incoming
merged_last_reportable_at (some e) none = some e
merged_last_reportable_at (some e) (some i) = if sql_lt e i then some i else some e

-- `substr(checked_at, 1, 17) || '00Z'`, and the same for the hour and the day.
abbrev pub minute_bucket : ℕ → ℕ
minute_bucket t = t / (60 * nanos_per_second) * (60 * nanos_per_second)

abbrev pub hourly_bucket : ℕ → ℕ
hourly_bucket t = t / (3600 * nanos_per_second) * (3600 * nanos_per_second)

abbrev pub daily_bucket : ℕ → ℕ
daily_bucket t = t / (86400 * nanos_per_second) * (86400 * nanos_per_second)

-- What one probe result adds to its group.
unfoldable pub rollup_of_probe : ProbeResult → Rollup
rollup_of_probe p =
    let at = if is_reportable p then some p.checked_at else none in
    record {
      monitor_id = p.monitor_id;
      bucket_start = minute_bucket p.checked_at;
      total_checks = one_if (is_reportable p);
      successful_checks = one_if (is_reportable p && p.ok);
      maintenance_checks = one_if (in_window p);
      maintenance_failed_checks = one_if (in_window p && not p.ok);
      observer_suppressed_checks = one_if p.observer_suppressed;
      first_reportable_at = at;
      last_reportable_at = at;
    }

-- `DO UPDATE SET total_checks = target.total_checks + excluded.total_checks, ...`.
unfoldable pub add_rollup : Rollup → Rollup → Rollup
add_rollup target excluded = record target {
  total_checks = target.total_checks + excluded.total_checks;
  successful_checks = target.successful_checks + excluded.successful_checks;
  maintenance_checks = target.maintenance_checks + excluded.maintenance_checks;
  maintenance_failed_checks = target.maintenance_failed_checks + excluded.maintenance_failed_checks;
  observer_suppressed_checks =
      target.observer_suppressed_checks + excluded.observer_suppressed_checks;
  first_reportable_at =
      merged_first_reportable_at target.first_reportable_at excluded.first_reportable_at;
  last_reportable_at =
      merged_last_reportable_at target.last_reportable_at excluded.last_reportable_at;
}

abbrev pub same_bucket : Rollup → Rollup → Bool
same_bucket a b = a.monitor_id == b.monitor_id && a.bucket_start == b.bucket_start

-- `INSERT ... ON CONFLICT(monitor_id, bucket_start) DO UPDATE`.
unfoldable pub upsert_rollup : Rollup → List Rollup → List Rollup
upsert_rollup r [] = r ∷ []
upsert_rollup r (t ∷ ts) =
    let rest = upsert_rollup r ts in if same_bucket t r then add_rollup t r ∷ ts else t ∷ rest

unfoldable pub upsert_rollups : List Rollup → List Rollup → List Rollup
unfolding upsert_rollup
upsert_rollups [] target = target
upsert_rollups (r ∷ rs) target = upsert_rollup r (upsert_rollups rs target)

-- `GROUP BY monitor_id, bucket_start` with the sums, the least and the last of each group.
unfoldable pub group_rollups : List Rollup → List Rollup
unfolding upsert_rollups
group_rollups rows = upsert_rollups rows []

unfoldable pub rollup_raw_probe_results : ℕ → ProbeTables → ProbeTables
unfolding group_rollups rollup_of_probe
rollup_raw_probe_results cutoff t = record t {
  minutes =
      upsert_rollups
        (group_rollups (map rollup_of_probe (keep (λ p. sql_lt p.checked_at cutoff) t.results)))
        t.minutes;
}

-- The rows of `source` in the buckets of the next table.
abbrev pub in_bucket : (ℕ → ℕ) → Rollup → Rollup
in_bucket bucket r = record r { bucket_start = bucket r.bucket_start }

unfoldable pub rollup_stored_probe_rollups : (ℕ → ℕ) → ℕ → List Rollup → List Rollup → List Rollup
unfolding group_rollups
rollup_stored_probe_rollups bucket cutoff source target =
    upsert_rollups
      (group_rollups (map (in_bucket bucket) (keep (λ r. sql_lt r.bucket_start cutoff) source)))
      target

-- `DELETE FROM ... WHERE bucket_start < ?`.
abbrev pub from_cutoff : ℕ → List Rollup → List Rollup
from_cutoff cutoff = keep (λ r. not (sql_lt r.bucket_start cutoff))

abbrev pub prune_results : RollupRetention → ℕ → ProbeTables → ProbeTables
prune_results retention now t =
    let cutoff = now - retention.duration in
    let summed = rollup_raw_probe_results cutoff t in
    if retention.forever then t else record summed {
      runs = compact_raw_outcome_runs cutoff t.results t.runs;
      results = keep (λ p. not (sql_lt p.checked_at cutoff)) summed.results;
    }

abbrev pub prune_minutes : RollupRetention → ℕ → ProbeTables → ProbeTables
prune_minutes retention now t =
    let cutoff = now - retention.duration in
    if retention.forever then t else record t {
      hours = rollup_stored_probe_rollups hourly_bucket cutoff t.minutes t.hours;
      minutes = from_cutoff cutoff t.minutes;
    }

abbrev pub prune_hours : RollupRetention → ℕ → ProbeTables → ProbeTables
prune_hours retention now t =
    let cutoff = now - retention.duration in
    if retention.forever then t else record t {
      days = rollup_stored_probe_rollups daily_bucket cutoff t.hours t.days;
      hours = from_cutoff cutoff t.hours;
    }

abbrev pub prune_days : RollupRetention → ℕ → ProbeTables → ProbeTables
prune_days retention now t =
    let cutoff = now - retention.duration in
    if retention.forever then t else record t {
      days = from_cutoff cutoff t.days;
      runs = record (t.runs) { rows = keep (λ r. not (sql_lt r.ended_at cutoff)) t.runs.rows };
    }

unfoldable pub rollup_and_prune_probe_results : ProbeRetentionPolicy → ℕ → ProbeTables → ProbeTables
unfolding rollup_raw_probe_results rollup_stored_probe_rollups compact_raw_outcome_runs
rollup_and_prune_probe_results policy now t = prune_days policy.probe_daily_rollups now (
    prune_hours policy.probe_hourly_rollups now
      (prune_minutes policy.probe_minute_rollups now (prune_results policy.probe_results now t)))

-- A count summed over the rows of one monitor.
unfoldable pub counted : (Rollup → ℕ) → String → List Rollup → ℕ
counted count_of id [] = 0
counted count_of id (r ∷ rs) =
    (if r.monitor_id == id then count_of r else 0) + counted count_of id rs

abbrev first_of : String → List Rollup → Option ℕ
first_of id [] = none
first_of id (r ∷ rs) =
    let rest = first_of id rs in
    if r.monitor_id == id then merged_first_reportable_at r.first_reportable_at rest else rest

abbrev last_of : String → List Rollup → Option ℕ
last_of id [] = none
last_of id (r ∷ rs) =
    let rest = last_of id rs in
    if r.monitor_id == id then merged_last_reportable_at r.last_reportable_at rest else rest

-- `WHERE checked_at >= ?`, which is left out for the zero time.
abbrev since : Option ℕ → ℕ → Bool
since none at = true
since (some cutoff) at = sql_le cutoff at

-- `UNION ALL` of the four tables in `uptimeWindowQuery`.
abbrev pub uptime_rows : Option ℕ → ProbeTables → List Rollup
uptime_rows cutoff t =
    map rollup_of_probe (keep (λ p. since cutoff p.checked_at) t.results)
    ++ (keep (λ r. since cutoff r.bucket_start) t.minutes
        ++ (keep (λ r. since cutoff r.bucket_start) t.hours
            ++ keep (λ r. since cutoff r.bucket_start) t.days))

-- The zero time stands for NULL.
abbrev pub time_or_zero : Option ℕ → ℕ
time_or_zero none = 0
time_or_zero (some at) = at

-- The entry of one monitor; a monitor without rows has none, and Go reads zeros.
unfoldable pub list_uptime_window_stats : Option ℕ → String → ProbeTables → UptimeWindowStats
unfolding counted rollup_of_probe
list_uptime_window_stats cutoff id t =
    let rows = uptime_rows cutoff t in
    let total = counted (λ r. r.total_checks) id rows in
    let successful = counted (λ r. r.successful_checks) id rows in
    record {
      total_checks = total;
      successful_checks = successful;
      failed_checks = total - successful;
      maintenance_checks = counted (λ r. r.maintenance_checks) id rows;
      maintenance_failed_checks = counted (λ r. r.maintenance_failed_checks) id rows;
      downtime_seconds = 0;
      reportable_seconds = 0;
      window_started_at = time_or_zero (first_of id rows);
      window_ended_at = time_or_zero (last_of id rows);
    }
