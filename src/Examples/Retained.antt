-- ===== src/Examples/Retained.antt =====
-- A clean-up of the probe results.
use upag.Base.{ℕ, ◌+◌, ◌*◌, ◌≡◌, refl, [], ◌∷◌, none, true, false, keep, arith, map}
use upag.SqlTime.{nanos_per_second, sql_lt}
use upag.Store.Rollups.{
  ProbeTables, RollupRetention, ProbeRetentionPolicy, is_reportable, add_rollup,
  rollup_and_prune_probe_results, list_uptime_window_stats,
}
use upag.Store.Rollups.Compacted.{probes_in}
use upag.Store.Rollups.Runs.{probes_in_runs}
use upag.Store.Rollups.Conserved.{rollup_and_prune_conserves}
use upag.Examples.{probe_at}

abbrev seconds : ℕ → ℕ
seconds n = n * nanos_per_second

-- Two outcomes in the first minute, one in the third.
abbrev old_results : ProbeTables
old_results = record {
  results =
      probe_at true (seconds 130) ∷ probe_at true (seconds 20) ∷ probe_at false (seconds 10) ∷ [];
  minutes = [];
  hours = [];
  days = [];
  runs = record {
    rows =
        record {
          id = 4;
          monitor_id = "api";
          started_at = seconds 1;
          ended_at = seconds 5;
          ok = false;
          probe_count = 3;
        }
        ∷ [];
    next_id = 5;
  };
}

abbrev for_ever : RollupRetention
for_ever = record { duration = 0; forever = true }

abbrev one_minute : ProbeRetentionPolicy
one_minute = record {
  probe_results = record { duration = seconds 60; forever = false };
  probe_minute_rollups = for_ever;
  probe_hourly_rollups = for_ever;
  probe_daily_rollups = for_ever;
}

abbrev cleaned : ProbeTables
unfolding rollup_and_prune_probe_results
cleaned = rollup_and_prune_probe_results one_minute (seconds 120) old_results

cleaned_minutes : map (λ r. r.total_checks) cleaned.minutes ≡ 2 ∷ []
unfolding rollup_and_prune_probe_results sql_lt add_rollup
cleaned_minutes = refl

-- The failure extends the run of failures, the success begins one.
cleaned_runs : map (λ r. r.probe_count) cleaned.runs.rows ≡ 1 ∷ 4 ∷ []
unfolding rollup_and_prune_probe_results sql_lt
cleaned_runs = refl

rollup_and_prune_conserves_example :
    let u = rollup_and_prune_probe_results one_minute (seconds 120) old_results in
    let before = list_uptime_window_stats none "api" old_results in
    let after = list_uptime_window_stats none "api" u in
    (after.total_checks ≡ before.total_checks)
    × (after.successful_checks ≡ before.successful_checks)
    × (after.failed_checks ≡ before.failed_checks)
    × (after.maintenance_checks ≡ before.maintenance_checks)
    × (after.maintenance_failed_checks ≡ before.maintenance_failed_checks)
    × (probes_in_runs "api" false u.runs.rows + probes_in "api" false (keep is_reportable u.results)
        ≡ probes_in_runs "api" false old_results.runs.rows
          + probes_in "api" false (keep is_reportable old_results.results))
rollup_and_prune_conserves_example =
    rollup_and_prune_conserves one_minute (seconds 120) old_results "api" false refl
      (ground arith, tt)
