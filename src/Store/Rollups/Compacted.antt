-- ===== src/Store/Rollups/Compacted.antt =====
-- The probes that the runs of outcomes and the table of results stand for together.
use mathlib.Core.List.{reverse-cons}
use upag.Base.{
  ℕ, ◌+◌, String, List, [], ◌∷◌, ◌++◌, reverse, Bool, not, ◌&&◌, keep, order_by, insert_row, nat_eq,
  string_eq, Bool-cases, inl, inr, ◌≡◌, refl, ap, ◌∙◌, arith,
}
use upag.Storage.{ProbeResult}
use upag.Store.Rollups.Outcomes.{
  RunTable, is_reportable, is_before, append_outcome_run, append_outcome_runs,
  compact_raw_outcome_runs,
}
use upag.Store.Rollups.Runs.{
  Numbered, one_probe, probes_in_runs, append_outcome_run-Numbered, append_outcome_run-probes,
}
use upag.SqlTime.{sql_lt}

pub append_outcome_runs-Numbered :
    (ps : List ProbeResult) (t : RunTable)
    → Numbered t.next_id t.rows
    → let u = append_outcome_runs ps t in Numbered u.next_id u.rows
unfolding append_outcome_runs
append_outcome_runs-Numbered [] t h = h
append_outcome_runs-Numbered (p ∷ ps) t h =
    append_outcome_runs-Numbered ps (append_outcome_run p.monitor_id p.checked_at p.ok t)
      (append_outcome_run-Numbered p.monitor_id p.checked_at p.ok t h)

module _ (id : String) (ok : Bool) where
  unfoldable pub probes_in : List ProbeResult → ℕ
  probes_in [] = 0
  probes_in (p ∷ ps) = one_probe id ok p.monitor_id p.ok + probes_in ps

  probes_in-append : (ps qs : List ProbeResult) → probes_in (ps ++ qs) ≡ probes_in ps + probes_in qs
  unfolding probes_in
  probes_in-append [] qs = omega arith
  probes_in-append (p ∷ ps) qs = omega (arith, probes_in-append ps qs)

  probes_in-one : (p : ProbeResult) → probes_in (p ∷ []) ≡ one_probe id ok p.monitor_id p.ok
  unfolding probes_in
  probes_in-one p = omega arith

  probes_in-reverse : (ps : List ProbeResult) → probes_in (reverse ps) ≡ probes_in ps
  unfolding probes_in
  probes_in-reverse [] = refl
  probes_in-reverse (p ∷ ps) =
      rw (reverse-cons p ps) (
        omega
          (arith, probes_in-append (reverse ps) (p ∷ []), probes_in-reverse ps, probes_in-one p))

  probes_in-insert :
      (p : ProbeResult) (ps : List ProbeResult)
      → probes_in (insert_row is_before p ps) ≡ one_probe id ok p.monitor_id p.ok + probes_in ps
  unfolding probes_in
  probes_in-insert p [] = refl
  probes_in-insert p (q ∷ qs) = elim (Bool-cases (is_before q p)) [
    | inl e ↦ rw e (omega (arith, probes_in-insert p qs))
    | inr e ↦ rw e
  ]

  probes_in-order_by : (ps : List ProbeResult) → probes_in (order_by is_before ps) ≡ probes_in ps
  unfolding probes_in
  probes_in-order_by [] = refl
  probes_in-order_by (p ∷ ps) =
      probes_in-insert p (order_by is_before ps)
      ∙ ap (λ n. one_probe id ok p.monitor_id p.ok + n) (probes_in-order_by ps)

  append_outcome_runs-probes :
      (ps : List ProbeResult) (t : RunTable)
      → Numbered t.next_id t.rows
      → probes_in_runs id ok (append_outcome_runs ps t).rows
        ≡ probes_in ps + probes_in_runs id ok t.rows
  unfolding append_outcome_runs probes_in
  append_outcome_runs-probes [] t h = omega arith
  append_outcome_runs-probes (p ∷ ps) t h =
      let once = append_outcome_run p.monitor_id p.checked_at p.ok t in
      omega (
        arith,
        append_outcome_runs-probes ps once
            (append_outcome_run-Numbered p.monitor_id p.checked_at p.ok t h),
        append_outcome_run-probes id ok p.monitor_id p.checked_at p.ok t h,
      )

  kept_or_compacted :
      (cutoff : ℕ) (ps : List ProbeResult)
      → probes_in (keep (λ p. sql_lt p.checked_at cutoff && is_reportable p) ps)
          + probes_in (keep is_reportable (keep (λ p. not (sql_lt p.checked_at cutoff)) ps))
        ≡ probes_in (keep is_reportable ps)
  unfolding probes_in
  kept_or_compacted cutoff [] = omega arith
  kept_or_compacted cutoff (p ∷ ps) = elim (Bool-cases (sql_lt p.checked_at cutoff)) [
    | inl e ↦ elim (Bool-cases (is_reportable p)) [
      | inl f ↦ rw (e, f) (omega (arith, kept_or_compacted cutoff ps))
      | inr f ↦ rw (e, f) (omega (arith, kept_or_compacted cutoff ps))
    ]
    | inr e ↦ elim (Bool-cases (is_reportable p)) [
      | inl f ↦ rw (e, f) (omega (arith, kept_or_compacted cutoff ps))
      | inr f ↦ rw (e, f) (omega (arith, kept_or_compacted cutoff ps))
    ]
  ]

  -- The runs after a compaction stand for the probes that they and the old results stood for.
  pub compacted-probes :
      (cutoff : ℕ) (results : List ProbeResult) (t : RunTable)
      → Numbered t.next_id t.rows
      → probes_in_runs id ok (compact_raw_outcome_runs cutoff results t).rows
          + probes_in (keep is_reportable (keep (λ p. not (sql_lt p.checked_at cutoff)) results))
        ≡ probes_in_runs id ok t.rows + probes_in (keep is_reportable results)
  unfolding compact_raw_outcome_runs
  compacted-probes cutoff results t h =
      let old = keep (λ p. sql_lt p.checked_at cutoff && is_reportable p) results in
      omega (
        arith,
        append_outcome_runs-probes (order_by is_before (reverse old)) t h,
        probes_in-order_by (reverse old),
        probes_in-reverse old,
        kept_or_compacted cutoff results,
      )
