-- ===== src/Store/Backfill/Told.antt =====
-- What the history made of the probes tells: one interval for each run, and no probe is lost in the
-- runs.
use mathlib.Core.List.{reverse-cons, map-append}
use upag.Base.{
  ℕ, ◌+◌, positive_or, String, List, [], ◌∷◌, ◌++◌, map, reverse, Bool, true, ◌&&◌, keep, leb,
  order_by, insert_row, ◌==◌, nat_eq, bool_eq, bool_beq_iff, string_eq, eq_iff, if◌then◌else◌,
  Bool-cases, inl, inr, ◌≡◌, refl, arith,
}
use upag.State.{Status, up, failing, down}
use upag.Storage.{ProbeResult, StatusInterval}
use upag.Store.Defs.{Store}
use upag.Store.Intervals.Chain.{history_of}
use upag.Store.Rollups.{OutcomeRun, ProbeTables, is_reportable}
use upag.Store.Rollups.Runs.{probes_in_runs}
use upag.Store.Rollups.Compacted.{probes_in}
use upag.Store.Backfill.{
  FailureThresholds, UptimeRun, run_of_outcome, run_of_probe, runs_before, run_rows, same_run,
  longer, join_after, join_runs, insert_run, backfill_status_intervals_from_runs,
}

-- When an interval begins, and its status.
abbrev pub entry : StatusInterval → ℕ × Status
entry r = (r.started_at, r.status)

-- A run of failures is an outage once it is as long as the threshold: that of the monitor if it has a
-- positive one, or else the default, or else one.
abbrev pub entry_of_run : FailureThresholds → UptimeRun → ℕ × Status
entry_of_run th run =
    let threshold = positive_or (th.monitors run.monitor_id) (positive_or th.default 1) in
    (
      run.started_at,
      if run.is_ok then up else if leb threshold run.probe_count then down else failing,
    )

-- The elements in the opposite order, before those that are there.
abbrev pub onto {ℓ} : {A : Type ℓ} → List A → List A → List A
onto [] older = older
onto (x ∷ xs) older = onto xs (x ∷ older)

module _ (th : FailureThresholds) (id : String) where
  pub entries-backfill :
      (rows : List UptimeRun) (s : Store)
      → map entry (history_of id (backfill_status_intervals_from_runs th rows s).status_intervals)
        ≡ onto
            (map (entry_of_run th) (keep (λ r. r.monitor_id == id) rows))
            (map entry (history_of id s.status_intervals))
  unfolding backfill_status_intervals_from_runs
  entries-backfill [] s = refl
  entries-backfill (r ∷ rest) s = elim (Bool-cases (r.monitor_id == id)) [
    | inl e ↦ rw (entries-backfill rest (insert_run th r rest s), e)
    | inr e ↦ rw (entries-backfill rest (insert_run th r rest s), e)
  ]

module _ (id : String) (ok : Bool) where
  -- The probes of the monitor with an outcome that the runs stand for.
  abbrev own_probes : UptimeRun → ℕ
  own_probes r = if r.monitor_id == id && (r.is_ok == ok) then r.probe_count else 0

  unfoldable pub probes_of : List UptimeRun → ℕ
  probes_of [] = 0
  probes_of (r ∷ rs) = own_probes r + probes_of rs

  probes_of-append : (rs us : List UptimeRun) → probes_of (rs ++ us) ≡ probes_of rs + probes_of us
  unfolding probes_of
  probes_of-append [] us = omega arith
  probes_of-append (r ∷ rs) us = omega (arith, probes_of-append rs us)

  own_probes-longer :
      (last run : UptimeRun)
      → same_run last run ≡ true
      → own_probes (longer last run) ≡ own_probes last + own_probes run
  own_probes-longer last run h =
      let m : run.monitor_id ≡ last.monitor_id =
        ground (arith, eq_iff last.monitor_id run.monitor_id) in
      let o : run.is_ok ≡ last.is_ok = ground (arith, bool_beq_iff last.is_ok run.is_ok) in
      rw (m, o) (ground arith)

  probes_of-join_after :
      (last : UptimeRun) (rows : List UptimeRun)
      → probes_of (join_after last rows) ≡ own_probes last + probes_of rows
  unfolding join_after probes_of
  probes_of-join_after last [] = refl
  probes_of-join_after last (run ∷ rows) = elim (Bool-cases (same_run last run)) [
    | inl e ↦
        rw e
          (omega (arith, probes_of-join_after (longer last run) rows, own_probes-longer last run e))
    | inr e ↦ rw e (omega (arith, probes_of-join_after run rows))
  ]

  probes_of-join_runs : (rows : List UptimeRun) → probes_of (join_runs rows) ≡ probes_of rows
  unfolding join_runs probes_of
  probes_of-join_runs [] = refl
  probes_of-join_runs (r ∷ rows) = probes_of-join_after r rows

  probes_of-insert_row :
      (r : UptimeRun) (rs : List UptimeRun)
      → probes_of (insert_row runs_before r rs) ≡ own_probes r + probes_of rs
  unfolding probes_of
  probes_of-insert_row r [] = refl
  probes_of-insert_row r (u ∷ us) = elim (Bool-cases (runs_before u r)) [
    | inl e ↦ rw e (omega (arith, probes_of-insert_row r us))
    | inr e ↦ rw e refl
  ]

  probes_of-order_by : (rs : List UptimeRun) → probes_of (order_by runs_before rs) ≡ probes_of rs
  unfolding probes_of
  probes_of-order_by [] = refl
  probes_of-order_by (r ∷ rs) =
      omega (arith, probes_of-insert_row r (order_by runs_before rs), probes_of-order_by rs)

  probes_of-outcomes :
      (rs : List OutcomeRun) → probes_of (map run_of_outcome (reverse rs)) ≡ probes_in_runs id ok rs
  unfolding probes_of probes_in_runs
  probes_of-outcomes [] = refl
  probes_of-outcomes (r ∷ rs) =
      rw
        (
          reverse-cons r rs,
          map-append run_of_outcome (reverse rs) (r ∷ []),
          probes_of-append (map run_of_outcome (reverse rs)) (run_of_outcome r ∷ []),
          probes_of-outcomes rs,
        )
        (ground arith)

  probes_of-results :
      (ps : List ProbeResult) → probes_of (map run_of_probe (reverse ps)) ≡ probes_in id ok ps
  unfolding probes_of probes_in
  probes_of-results [] = refl
  probes_of-results (p ∷ ps) =
      rw
        (
          reverse-cons p ps,
          map-append run_of_probe (reverse ps) (p ∷ []),
          probes_of-append (map run_of_probe (reverse ps)) (run_of_probe p ∷ []),
          probes_of-results ps,
        )
        (ground arith)

  pub probes_of-runs :
      (t : ProbeTables)
      → probes_of (join_runs (run_rows t))
        ≡ probes_in_runs id ok t.runs.rows + probes_in id ok (keep is_reportable t.results)
  unfolding run_rows
  probes_of-runs t =
      let outcomes = map run_of_outcome (reverse t.runs.rows) in
      let results = map run_of_probe (reverse (keep is_reportable t.results)) in
      omega (
        arith,
        probes_of-join_runs (order_by runs_before (outcomes ++ results)),
        probes_of-order_by (outcomes ++ results),
        probes_of-append outcomes results,
        probes_of-outcomes t.runs.rows,
        probes_of-results (keep is_reportable t.results),
      )
