-- ===== src/Store/Intervals.antt =====
-- `saveStatusInterval`: the history of a monitor's status.
pub mod Chain
use upag.Base.{
  ℕ, suc, String, List, [], ◌∷◌, Option, none, some, Bool, true, false, ◌&&◌, ◌||◌, ◌==◌, nat_eq,
  string_eq, if◌then◌else◌,
}
use upag.State.{Status, failing, down, status_eq}
use upag.Storage.{StatusInterval}
use upag.Store.Defs.{Store}

unfoldable pub status_counts_as_downtime : Status → Bool
status_counts_as_downtime status = status == down

abbrev pub is_open : StatusInterval → Bool
is_open row = elim row.ended_at [ none ↦ true | some t ↦ false ]

-- The open interval of the monitor. The table's unique index admits one at most, so the order of
-- the query does not matter.
unfoldable pub open_interval : String → List StatusInterval → Option StatusInterval
open_interval id [] = none
open_interval id (r ∷ rs) =
    let rest = open_interval id rs in if r.monitor_id == id && is_open r then some r else rest

-- `UPDATE monitor_status_intervals SET ended_at = ?, downtime = ? WHERE id = ?`.
unfoldable pub close_interval : ℕ → ℕ → Bool → List StatusInterval → List StatusInterval
close_interval id ended_at downtime [] = []
close_interval id ended_at downtime (r ∷ rs) =
    (if r.id == id then record r { ended_at = some ended_at; downtime = downtime } else r)
    ∷ close_interval id ended_at downtime rs

abbrev pub opened : ℕ → String → Status → ℕ → StatusInterval
opened id monitor_id status observed_at = record {
  id = id;
  monitor_id = monitor_id;
  status = status;
  started_at = observed_at;
  ended_at = none;
  downtime = status == down;
}

abbrev add_interval : Store → List StatusInterval → String → Status → ℕ → Store
add_interval s rows monitor_id status observed_at = record s {
  status_intervals = opened s.next_interval_id monitor_id status observed_at ∷ rows;
  next_interval_id = suc s.next_interval_id;
}

unfoldable pub save_status_interval : Store → String → Status → ℕ → Store
unfolding open_interval close_interval status_counts_as_downtime
save_status_interval s monitor_id status observed_at =
    elim (open_interval monitor_id s.status_intervals) [
      | none ↦ add_interval s s.status_intervals monitor_id status observed_at
      | some previous ↦
          if previous.status == status
          then s
          else add_interval s
              (close_interval previous.id observed_at
                (status_counts_as_downtime previous.status
                  || previous.status == failing && status == down)
                s.status_intervals)
              monitor_id status observed_at
    ]
