-- ===== src/Store/Rollups/Outcomes.antt =====
-- The runs of equal outcomes that `compactRawOutcomeRuns` and `appendOutcomeRun` of
-- internal/storage/storage.go keep of the probe results that are summed up.
use Prim.Native.String.{compare}
use text.Mathlib.Text.{is_lt}
use upag.Base.{
  ℕ, suc, ◌+◌, String, List, [], ◌∷◌, reverse, Bool, true, false, not, ◌&&◌, ◌||◌, Option, none,
  some, keep, ltb, order_by, ◌==◌, nat_eq, string_eq, if◌then◌else◌,
}
use upag.Storage.{ProbeResult}
use upag.SqlTime.{sql_lt}

-- A row of `probe_outcome_runs`.
pub record OutcomeRun : Type 0 where
  pub id : ℕ
  pub monitor_id : String
  pub started_at : ℕ
  pub ended_at : ℕ
  pub ok : Bool
  pub probe_count : ℕ

pub record RunTable : Type 0 where
  pub rows : List OutcomeRun
  pub next_id : ℕ

-- Neither in maintenance nor suppressed; no window is NULL.
abbrev pub is_reportable : ProbeResult → Bool
is_reportable p =
    p.maintenance_window_id == 0 && (not p.observer_suppressed && not p.connectivity_suppressed)

abbrev pub same_outcome : Bool → Bool → Bool
same_outcome true b = b
same_outcome false b = not b

-- `ORDER BY started_at DESC, id DESC`.
abbrev pub is_later : OutcomeRun → OutcomeRun → Bool
is_later a b =
    sql_lt b.started_at a.started_at || (not (sql_lt a.started_at b.started_at) && ltb b.id a.id)

abbrev pub later_of : OutcomeRun → Option OutcomeRun → OutcomeRun
later_of r none = r
later_of r (some other) = if is_later other r then other else r

unfoldable pub latest_run : String → List OutcomeRun → Option OutcomeRun
latest_run id [] = none
latest_run id (r ∷ rs) =
    let rest = latest_run id rs in if r.monitor_id == id then some (later_of r rest) else rest

-- `UPDATE probe_outcome_runs SET ended_at = ?, probe_count = probe_count + 1 WHERE id = ?`.
unfoldable pub extend_run : ℕ → ℕ → List OutcomeRun → List OutcomeRun
extend_run id at [] = []
extend_run id at (r ∷ rs) =
    (if r.id == id then record r { ended_at = at; probe_count = r.probe_count + 1 } else r)
    ∷ extend_run id at rs

abbrev pub add_run : String → ℕ → Bool → RunTable → RunTable
add_run monitor_id at ok t = record {
  rows =
      record {
        id = t.next_id;
        monitor_id = monitor_id;
        started_at = at;
        ended_at = at;
        ok = ok;
        probe_count = 1;
      }
      ∷ t.rows;
  next_id = suc t.next_id;
}

abbrev pub after_latest : String → ℕ → Bool → RunTable → Option OutcomeRun → RunTable
after_latest monitor_id at ok t none = add_run monitor_id at ok t
after_latest monitor_id at ok t (some last) =
    if same_outcome last.ok ok
    then record t { rows = extend_run last.id at t.rows }
    else add_run monitor_id at ok t

unfoldable pub append_outcome_run : String → ℕ → Bool → RunTable → RunTable
unfolding latest_run extend_run
append_outcome_run monitor_id at ok t =
    after_latest monitor_id at ok t (latest_run monitor_id t.rows)

-- `ORDER BY monitor_id ASC, checked_at ASC`, of rows that stand in the order of their ids.
abbrev pub is_before : ProbeResult → ProbeResult → Bool
is_before a b =
    is_lt (compare a.monitor_id b.monitor_id)
    || (a.monitor_id == b.monitor_id && sql_lt a.checked_at b.checked_at)

unfoldable pub append_outcome_runs : List ProbeResult → RunTable → RunTable
unfolding append_outcome_run
append_outcome_runs [] t = t
append_outcome_runs (p ∷ ps) t =
    append_outcome_runs ps (append_outcome_run p.monitor_id p.checked_at p.ok t)

-- The table of results has the newest first.
unfoldable pub compact_raw_outcome_runs : ℕ → List ProbeResult → RunTable → RunTable
unfolding append_outcome_runs
compact_raw_outcome_runs cutoff results t =
    append_outcome_runs
      (order_by is_before
        (reverse (keep (λ p. sql_lt p.checked_at cutoff && is_reportable p) results)))
      t
