-- ===== src/Store/Backfill.antt =====
-- `EnsureStatusIntervalsBackfilled` of internal/storage/storage.go: the history of a status made once
-- of the probes that are kept, with `FailureThresholds`.
pub mod Rows
pub mod Told
pub mod History
use Prim.Native.String.{compare}
use text.Mathlib.Text.{is_lt}
use upag.Base.{
  ℕ, suc, ◌+◌, ℤ, positive_or, String, List, [], ◌∷◌, ◌++◌, map, reverse, Bool, true, false, not,
  ◌&&◌, ◌||◌, Option, none, some, keep, leb, order_by, ◌==◌, nat_eq, bool_eq, string_eq,
  if◌then◌else◌,
}
use upag.State.{Status, up, failing, down}
use upag.SqlTime.{sql_lt}
use upag.Storage.{ProbeResult, StatusInterval}
use upag.Store.Defs.{Store, StoreError, database, Db, available, broken}
use upag.Store.Intervals.{status_counts_as_downtime}
use upag.Store.Rollups.{OutcomeRun, ProbeTables, is_reportable}

-- A key that is missing in the map of the monitors has 0.
pub record FailureThresholds : Type 0 where
  pub default : ℤ
  pub monitors : String → ℤ

unfoldable pub for_monitor : FailureThresholds → String → ℕ
for_monitor t id = positive_or (t.monitors id) (positive_or t.default 1)

pub record UptimeRun : Type 0 where
  pub monitor_id : String
  pub started_at : ℕ
  pub ended_at : ℕ
  pub is_ok : Bool
  pub probe_count : ℕ

abbrev pub run_of_outcome : OutcomeRun → UptimeRun
run_of_outcome r = record {
  monitor_id = r.monitor_id;
  started_at = r.started_at;
  ended_at = r.ended_at;
  is_ok = r.ok;
  probe_count = r.probe_count;
}

abbrev pub run_of_probe : ProbeResult → UptimeRun
run_of_probe p = record {
  monitor_id = p.monitor_id;
  started_at = p.checked_at;
  ended_at = p.checked_at;
  is_ok = p.ok;
  probe_count = 1;
}

-- `ORDER BY monitor_id ASC, started_at ASC`.
abbrev pub runs_before : UptimeRun → UptimeRun → Bool
runs_before a b =
    is_lt (compare a.monitor_id b.monitor_id)
    || ((a.monitor_id == b.monitor_id) && sql_lt a.started_at b.started_at)

-- The rows of the query; those that it leaves unordered come in the order of their ids.
unfoldable pub run_rows : ProbeTables → List UptimeRun
run_rows t = order_by runs_before (
    map run_of_outcome (reverse t.runs.rows)
    ++ map run_of_probe (reverse (keep is_reportable t.results)))

abbrev pub same_run : UptimeRun → UptimeRun → Bool
same_run last run = (last.monitor_id == run.monitor_id) && (last.is_ok == run.is_ok)

abbrev pub longer : UptimeRun → UptimeRun → UptimeRun
longer last run = record last {
  ended_at = run.ended_at;
  probe_count = last.probe_count + run.probe_count;
}

-- The loop over the rows, with the last of `runs`, which is added when it is complete.
unfoldable pub join_after : UptimeRun → List UptimeRun → List UptimeRun
join_after last [] = last ∷ []
join_after last (run ∷ rows) =
    let joined = same_run last run in
    let rest = join_after (if joined then longer last run else run) rows in
    if joined then rest else last ∷ rest

unfoldable pub join_runs : List UptimeRun → List UptimeRun
unfolding join_after
join_runs [] = []
join_runs (run ∷ rows) = join_after run rows

unfoldable pub list_reportable_uptime_runs : ProbeTables → List UptimeRun
unfolding run_rows join_runs
list_reportable_uptime_runs t = join_runs (run_rows t)

abbrev pub status_of_run : FailureThresholds → UptimeRun → Status
status_of_run thresholds run =
    if run.is_ok
    then up
    else if leb (for_monitor thresholds run.monitor_id) run.probe_count
    then down
    else failing

abbrev pub ended_by : UptimeRun → List UptimeRun → Option ℕ
ended_by run [] = none
ended_by run (next ∷ rest) =
    if next.monitor_id == run.monitor_id then some next.started_at else none

abbrev pub run_row : FailureThresholds → ℕ → UptimeRun → List UptimeRun → StatusInterval
run_row thresholds id run rest =
    let status = status_of_run thresholds run in
    record {
      id = id;
      monitor_id = run.monitor_id;
      status = status;
      started_at = run.started_at;
      ended_at = ended_by run rest;
      downtime = status_counts_as_downtime status;
    }

abbrev pub insert_run : FailureThresholds → UptimeRun → List UptimeRun → Store → Store
insert_run thresholds run rest s = record s {
  status_intervals = run_row thresholds s.next_interval_id run rest ∷ s.status_intervals;
  next_interval_id = suc s.next_interval_id;
}

unfoldable pub backfill_status_intervals_from_runs :
    FailureThresholds → List UptimeRun → Store → Store
unfolding for_monitor status_counts_as_downtime
backfill_status_intervals_from_runs thresholds [] s = s
backfill_status_intervals_from_runs thresholds (run ∷ rest) s =
    backfill_status_intervals_from_runs thresholds rest (insert_run thresholds run rest s)

-- The row of `monitor_status_interval_backfills`, and the store.
pub record Backfilled : Type 0 where
  pub marker : Option (ℕ × ℕ)
  pub store : Store

unfoldable pub backfill : FailureThresholds → ℕ → ProbeTables → Backfilled → Backfilled
unfolding for_monitor list_reportable_uptime_runs backfill_status_intervals_from_runs
backfill thresholds clock t b = elim b.marker [
  | some row ↦ b
  | none ↦ record {
    marker = some (clock, for_monitor thresholds "");
    store =
        backfill_status_intervals_from_runs thresholds (list_reportable_uptime_runs t)
          (record (b.store) { status_intervals = [] });
  }
]

unfoldable pub ensure_status_intervals_backfilled :
    Db → FailureThresholds → ℕ → ProbeTables → Backfilled → Backfilled × Option StoreError
unfolding backfill
ensure_status_intervals_backfilled broken thresholds clock t b = (b, some database)
ensure_status_intervals_backfilled available thresholds clock t b =
    (backfill thresholds clock t b, none)
