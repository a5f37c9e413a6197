-- ===== src/Examples/Storing.antt =====
-- Probes, intervals and windows in the store.
use upag.Base.{
  ◌+◌, ◌*◌, ◌≡◌, ◌≤◌, refl, arith, List, [], ◌∷◌, String, some, true, false, ok, count, string_eq,
}
use upag.State.{failing, up, down, status_eq}
use upag.SqlTime.{nanos_per_second, sql_le}
use upag.Store.{Store, available, find_state, find_alert_state}
use upag.Store.Intervals.{save_status_interval}
use upag.Store.Intervals.Chain.{Kept, save_status_interval-Kept}
use upag.Store.Probes.{save_probe_and_state, save_probe_and_state_with_pending_alert}
use upag.Store.Probes.Queue.{save_probe_and_state_queues}
use upag.Store.Probes.FirstOutage.{first_outage_tells_recovery}
use upag.Store.Windows.{is_active_at, add_maintenance_window}
use upag.Store.Windows.Race.{interrupted, add_race}
use upag.Store.Windows.Disjoint.{alone, Call, adds, cancels, run, run-active-le-one}
use upag.Store.Windows.Active.{active_past_end}
use upag.Examples.{monitor_in, probe_at, incident_of, open_since, window_of, store_of}

-- FAILING since 10, nothing told.
abbrev failing_store : Store
failing_store = record (store_of (monitor_in failing 10 ∷ []) [] []) {
  status_intervals = open_since failing 10 ∷ [];
}

save_status_interval-Kept_example :
    Kept failing_store (save_status_interval failing_store "api" down 20) "api" down
save_status_interval-Kept_example =
    save_status_interval-Kept failing_store "api" down 20 (ground arith) (ground arith)
      (ground arith)

save_probe_and_state_queues_example :
    (save_probe_and_state_with_pending_alert available available
      (probe_at false 20)
      (monitor_in down 20)
      (some (incident_of down 20))
      30
      failing_store).1
    ≡ ok (2, true)
unfolding find_state find_alert_state
save_probe_and_state_queues_example =
    save_probe_and_state_queues (probe_at false 20) (monitor_in down 20) (incident_of down 20) 30
      failing_store tt

first_outage_tells_recovery_example :
    let s' =
      (save_probe_and_state available
        (probe_at false 20)
        (monitor_in down 20)
        (some (incident_of down 20))
        (some 300)
        failing_store).0 in
    (save_probe_and_state_with_pending_alert available available
      (probe_at true 40)
      (monitor_in up 40)
      (some (incident_of up 40))
      340
      s').1
    ≡ ok (3, true)
unfolding find_state find_alert_state
first_outage_tells_recovery_example =
    first_outage_tells_recovery (probe_at false 20) (probe_at true 40) (monitor_in down 20)
      (monitor_in up 40) (incident_of down 20) (incident_of up 40) 300 340 failing_store refl refl
      tt refl refl refl

abbrev trimmed : String → String
trimmed s = s

abbrev calls : List Call
calls =
    adds available available available 1 (window_of 1_000_000_000 5_000_000_000)
    ∷ adds available available available 1 (window_of 3_000_000_000 9_000_000_000)
    ∷ cancels available available 4 2 4 "ops" "done"
    ∷ []

run-active-le-one_example :
    count (is_active_at "api" 4_000_000_000) (run trimmed calls failing_store).maintenance_windows
    ≤ 1
run-active-le-one_example = run-active-le-one trimmed calls failing_store "api" 4_000_000_000 tt

-- Two windows over 4 s, added at the same time.
add_race_example :
    count
      (is_active_at "api" 4_000_000_000)
      (add_maintenance_window
        (interrupted (λ s.
          (add_maintenance_window
            (alone available available available)
            trimmed
            1
            (window_of 3_000_000_000 9_000_000_000)
            s).0))
        trimmed
        1
        (window_of 1_000_000_000 5_000_000_000)
        failing_store).0.maintenance_windows
    ≡ 2
unfolding find_state sql_le
add_race_example =
    (add_race trimmed 1 1 (window_of 1_000_000_000 5_000_000_000)
      (window_of 3_000_000_000 9_000_000_000) failing_store "api" 4_000_000_000 (refl, refl, refl)
      (refl, refl, refl) refl refl).2

active_past_end_example :
    is_active_at "api" (5 * nanos_per_second + 7) (window_of 1_000_000_000 5_000_000_000) ≡ true
active_past_end_example =
    active_past_end (window_of 1_000_000_000 5_000_000_000) 5 7 refl (omega arith) (omega arith)
      (omega arith) (omega arith) (omega arith)
