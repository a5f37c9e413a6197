-- ===== src/Examples/Downtime.antt =====
-- Ten minutes of availability, with one outage that maintenance covers in part; and the texts of
-- times.
use upag.Base.{ℕ, ◌≤◌, arith, List, [], ◌∷◌}
use upag.State.{observer_down, observer_up}
use upag.Availability.{
  TimeInterval, UptimeWindowStats, ObserverTransition, apply_availability_window,
  excluded_intervals,
}
use upag.Availability.Merge.{excluded_intervals_union, Apart}
use upag.Availability.{daily_entry}
use upag.Availability.Daily.{daily_entry_counts}
use upag.Availability.Downtime.{apply_availability_window_counts}

abbrev span : ℕ → ℕ → TimeInterval
span start end = record { start = start; end = end }

abbrev no_stats : UptimeWindowStats
no_stats = record {
  total_checks = 0;
  successful_checks = 0;
  failed_checks = 0;
  maintenance_checks = 0;
  maintenance_failed_checks = 0;
  downtime_seconds = 0;
  reportable_seconds = 0;
  window_started_at = 0;
  window_ended_at = 0;
}

apply_availability_window_counts_example :
    let s =
      apply_availability_window no_stats 2 0 9
        (span 3 7 ∷ [])
        (excluded_intervals (span 4 5 ∷ []) []) in
    s.downtime_seconds ≤ s.reportable_seconds
apply_availability_window_counts_example =
    (apply_availability_window_counts no_stats 2 0 9 (span 3 7 ∷ []) (span 4 5 ∷ []) [] tt
      (ground arith) (ground arith) tt).2

excluded_intervals_union_example : Apart (excluded_intervals (span 4 6 ∷ []) (span 2 5 ∷ []))
excluded_intervals_union_example = (excluded_intervals_union (span 4 6 ∷ []) (span 2 5 ∷ [])).0

abbrev transitions : List ObserverTransition
transitions =
    record { status = observer_down; at = 3 } ∷ record { status = observer_up; at = 8 } ∷ []

daily_entry_counts_example :
    let s = daily_entry 2 9 3 (span 3 7 ∷ []) (span 4 5 ∷ []) [] in
    s.downtime_seconds ≤ s.reportable_seconds
daily_entry_counts_example =
    (daily_entry_counts 2 9 3 (span 3 7 ∷ []) (span 4 5 ∷ []) [] tt (ground arith) (ground arith)
      tt).2
