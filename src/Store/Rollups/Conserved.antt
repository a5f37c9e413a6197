-- ===== src/Store/Rollups/Conserved.antt =====
-- `RollupAndPruneProbeResults` beside the figures of `listUptimeWindowStats` and the runs.
use upag.Base.{
  ℕ, ◌+◌, ◌-◌, String, List, [], ◌∷◌, ◌++◌, map, Bool, true, none, keep, Bool-cases, inl, inr, ◌≡◌,
  refl, ap, sym, ◌∙◌, arith,
}
use upag.Storage.{ProbeResult}
use upag.SqlTime.{sql_lt}
use upag.Store.Rollups.{
  Rollup, ProbeTables, RollupRetention, ProbeRetentionPolicy, is_reportable, rollup_of_probe,
  add_rollup, counted, hourly_bucket, daily_bucket, in_bucket, from_cutoff, group_rollups,
  rollup_raw_probe_results, rollup_stored_probe_rollups, prune_results, prune_minutes, prune_hours,
  rollup_and_prune_probe_results, uptime_rows, list_uptime_window_stats,
}
use upag.Store.Rollups.Sums.{
  IsCount, counted_results, counted-append, counted-map, counted-keep, counted_results-keep,
  counted-upsert_rollups, counted-group_rollups, counted-in_bucket,
}
use upag.Store.Rollups.Runs.{Numbered, probes_in_runs}
use upag.Store.Rollups.Compacted.{probes_in, compacted-probes}

rollup_raw-others :
    (cutoff : ℕ) (t : ProbeTables)
    → let u = rollup_raw_probe_results cutoff t in
      (u.results ≡ t.results) × (u.hours ≡ t.hours) × (u.days ≡ t.days)
unfolding rollup_raw_probe_results
rollup_raw-others cutoff t = (refl, refl, refl)

module _ (count_of : Rollup → ℕ) (id : String) (c : IsCount count_of) where
  -- The count over the four tables.
  abbrev in_all : ProbeTables → ℕ
  in_all t =
      counted_results count_of id t.results
      + counted count_of id t.minutes
      + counted count_of id t.hours
      + counted count_of id t.days

  all_rows : (rs : List Rollup) → keep (λ r. true) rs ≡ rs
  all_rows [] = refl
  all_rows (r ∷ rs) = ap (λ x. r ∷ x) (all_rows rs)

  all_results : (rs : List ProbeResult) → keep (λ r. true) rs ≡ rs
  all_results [] = refl
  all_results (r ∷ rs) = ap (λ x. r ∷ x) (all_results rs)

  uptime_rows-in_all : (t : ProbeTables) → counted count_of id (uptime_rows none t) ≡ in_all t
  uptime_rows-in_all t =
      rw (all_results t.results, all_rows t.minutes, all_rows t.hours, all_rows t.days)
        (omega (
          arith,
          counted-append count_of id (map rollup_of_probe t.results)
              (t.minutes ++ (t.hours ++ t.days)),
          counted-append count_of id t.minutes (t.hours ++ t.days),
          counted-append count_of id t.hours t.days,
          counted-map count_of id t.results,
        ))

  raw-in_all :
      (cutoff : ℕ) (t : ProbeTables)
      → counted count_of id (rollup_raw_probe_results cutoff t).minutes
        ≡ counted_results count_of id (keep (λ p. sql_lt p.checked_at cutoff) t.results)
          + counted count_of id t.minutes
  unfolding rollup_raw_probe_results
  raw-in_all cutoff t =
      let old = keep (λ p. sql_lt p.checked_at cutoff) t.results in
      omega (
        arith,
        counted-upsert_rollups count_of id c (group_rollups (map rollup_of_probe old)) t.minutes,
        counted-group_rollups count_of id c (map rollup_of_probe old),
        counted-map count_of id old,
      )

  stored-in_all :
      (bucket : ℕ → ℕ) (cutoff : ℕ) (source target : List Rollup)
      → counted count_of id (rollup_stored_probe_rollups bucket cutoff source target)
          + counted count_of id (from_cutoff cutoff source)
        ≡ counted count_of id source + counted count_of id target
  unfolding rollup_stored_probe_rollups
  stored-in_all bucket cutoff source target =
      let old = keep (λ r. sql_lt r.bucket_start cutoff) source in
      omega (
        arith,
        counted-upsert_rollups count_of id c (group_rollups (map (in_bucket bucket) old)) target,
        counted-group_rollups count_of id c (map (in_bucket bucket) old),
        counted-in_bucket count_of id c bucket old,
        counted-keep count_of id (λ r. sql_lt r.bucket_start cutoff) source,
      )

  prune_results-in_all :
      (r : RollupRetention) (now : ℕ) (t : ProbeTables) → in_all (prune_results r now t) ≡ in_all t
  prune_results-in_all r now t = elim (Bool-cases r.forever) [
    | inl e ↦ rw e
    | inr e ↦
        let cutoff = now - r.duration in
        let others = rollup_raw-others cutoff t in
        rw (e, others.0, others.1, others.2)
          (omega (
            arith,
            raw-in_all cutoff t,
            counted_results-keep count_of id (λ p. sql_lt p.checked_at cutoff) t.results,
          ))
  ]

  prune_minutes-in_all :
      (r : RollupRetention) (now : ℕ) (t : ProbeTables) → in_all (prune_minutes r now t) ≡ in_all t
  prune_minutes-in_all r now t = elim (Bool-cases r.forever) [
    | inl e ↦ rw e
    | inr e ↦ rw e (omega (arith, stored-in_all hourly_bucket (now - r.duration) t.minutes t.hours))
  ]

  prune_hours-in_all :
      (r : RollupRetention) (now : ℕ) (t : ProbeTables) → in_all (prune_hours r now t) ≡ in_all t
  prune_hours-in_all r now t = elim (Bool-cases r.forever) [
    | inl e ↦ rw e
    | inr e ↦ rw e (omega (arith, stored-in_all daily_bucket (now - r.duration) t.hours t.days))
  ]

  count_conserved :
      (policy : ProbeRetentionPolicy) (now : ℕ) (t : ProbeTables)
      → policy.probe_daily_rollups.forever ≡ true
      → counted count_of id (uptime_rows none (rollup_and_prune_probe_results policy now t))
        ≡ counted count_of id (uptime_rows none t)
  unfolding rollup_and_prune_probe_results
  count_conserved policy now t forever =
      let t1 = prune_results policy.probe_results now t in
      let t2 = prune_minutes policy.probe_minute_rollups now t1 in
      let t3 = prune_hours policy.probe_hourly_rollups now t2 in
      rw forever (
        uptime_rows-in_all t3
        ∙ prune_hours-in_all policy.probe_hourly_rollups now t2
        ∙ prune_minutes-in_all policy.probe_minute_rollups now t1
        ∙ prune_results-in_all policy.probe_results now t
        ∙ sym (uptime_rows-in_all t))

total-IsCount : IsCount (λ r. r.total_checks)
unfolding add_rollup
total-IsCount = record { added = λ a b. refl; unmoved = λ bucket r. refl }

successful-IsCount : IsCount (λ r. r.successful_checks)
unfolding add_rollup
successful-IsCount = record { added = λ a b. refl; unmoved = λ bucket r. refl }

maintenance-IsCount : IsCount (λ r. r.maintenance_checks)
unfolding add_rollup
maintenance-IsCount = record { added = λ a b. refl; unmoved = λ bucket r. refl }

maintenance_failed-IsCount : IsCount (λ r. r.maintenance_failed_checks)
unfolding add_rollup
maintenance_failed-IsCount = record { added = λ a b. refl; unmoved = λ bucket r. refl }

abbrev reportable_probes : String → Bool → ProbeTables → ℕ
reportable_probes id ok t =
    probes_in_runs id ok t.runs.rows + probes_in id ok (keep is_reportable t.results)

prune_results-reportable :
    (id : String) (ok : Bool) (r : RollupRetention) (now : ℕ) (t : ProbeTables)
    → Numbered t.runs.next_id t.runs.rows
    → reportable_probes id ok (prune_results r now t) ≡ reportable_probes id ok t
prune_results-reportable id ok r now t h = elim (Bool-cases r.forever) [
  | inl e ↦ rw e
  | inr e ↦
      let cutoff = now - r.duration in
      let others = rollup_raw-others cutoff t in
      rw (e, others.0) (compacted-probes id ok cutoff t.results t.runs h)
]

prune_minutes-others :
    (r : RollupRetention) (now : ℕ) (t : ProbeTables)
    → let u = prune_minutes r now t in (u.runs ≡ t.runs) × (u.results ≡ t.results)
prune_minutes-others r now t = elim (Bool-cases r.forever) [
  | inl e ↦ rw e (refl, refl)
  | inr e ↦ rw e (refl, refl)
]

prune_hours-others :
    (r : RollupRetention) (now : ℕ) (t : ProbeTables)
    → let u = prune_hours r now t in (u.runs ≡ t.runs) × (u.results ≡ t.results)
prune_hours-others r now t = elim (Bool-cases r.forever) [
  | inl e ↦ rw e (refl, refl)
  | inr e ↦ rw e (refl, refl)
]

others_keep :
    (id : String) (ok : Bool) (policy : ProbeRetentionPolicy) (now : ℕ) (t : ProbeTables)
    → policy.probe_daily_rollups.forever ≡ true
    → reportable_probes id ok (rollup_and_prune_probe_results policy now t)
      ≡ reportable_probes id ok (prune_results policy.probe_results now t)
unfolding rollup_and_prune_probe_results
others_keep id ok policy now t forever =
    let t1 = prune_results policy.probe_results now t in
    let t2 = prune_minutes policy.probe_minute_rollups now t1 in
    let hours = prune_hours-others policy.probe_hourly_rollups now t2 in
    let minutes = prune_minutes-others policy.probe_minute_rollups now t1 in
    rw (forever, hours.0, hours.1, minutes.0, minutes.1)

-- Rolling up and pruning loses no check as long as the daily rows are kept for ever: of every
-- monitor, the total, successful, failed and maintenance checks that the retained uptime counts
-- stay what they were; and for each outcome, the probes in the runs of outcomes and the reportable
-- results together stay as many, provided that the ids of the runs are in order.
pub rollup_and_prune_conserves :
    (policy : ProbeRetentionPolicy) (now : ℕ) (t : ProbeTables) (id : String) (ok : Bool)
    → policy.probe_daily_rollups.forever ≡ true
    → Numbered t.runs.next_id t.runs.rows
    → let u = rollup_and_prune_probe_results policy now t in
      let before = list_uptime_window_stats none id t in
      let after = list_uptime_window_stats none id u in
      (after.total_checks ≡ before.total_checks)
      × (after.successful_checks ≡ before.successful_checks)
      × (after.failed_checks ≡ before.failed_checks)
      × (after.maintenance_checks ≡ before.maintenance_checks)
      × (after.maintenance_failed_checks ≡ before.maintenance_failed_checks)
      × (probes_in_runs id ok u.runs.rows + probes_in id ok (keep is_reportable u.results)
          ≡ probes_in_runs id ok t.runs.rows + probes_in id ok (keep is_reportable t.results))
unfolding list_uptime_window_stats
rollup_and_prune_conserves policy now t id ok forever h =
    let total = count_conserved _ id total-IsCount policy now t forever in
    let successful = count_conserved _ id successful-IsCount policy now t forever in
    (
      total,
      successful,
      rw (total, successful),
      count_conserved _ id maintenance-IsCount policy now t forever,
      count_conserved _ id maintenance_failed-IsCount policy now t forever,
      others_keep id ok policy now t forever
          ∙ prune_results-reportable id ok policy.probe_results now t h,
    )
