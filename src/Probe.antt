-- ===== src/Probe.antt =====
-- `probe` of internal/app/runner.go: one probe of one monitor, from the check to the alert.
mod Decisions
pub mod Retries
pub mod Steps
pub mod Tables
pub mod Saved
pub mod Incidents
pub mod Maintenance
pub mod Alerts
pub use Decisions.{
  MonitorConfig, Settings, Probing, World, previous_state, probe_row, evaluated_state,
  effective_threshold, incident_for, millisecond,
}
unfoldable pub use Decisions.{retry_from, check_with_retries, maintenance_state, evaluate_probe}
use upag.Base.{
  ℕ, suc, ◌+◌, ◌/◌, String, List, Bool, true, false, not, ◌&&◌, ltb, ℤ, pos, at_least_zero,
  is_positive, Option, none, some, Fallible, ok, err, ◌>>=◌, ◌==◌, nat_eq, is_empty, if◌then◌else◌,
}
use upag.State.{Status, unset, unknown, down, up, maintenance, observer_down, status_eq}
use upag.Failure.{no_failure, is_connectivity_suppressible}
use upag.Storage.{MonitorState, ObserverState, ProbeResult, Incident, MaintenanceWindow}
use upag.Checker.{Result, failure_message}
use upag.Monitor.{Evaluation, evaluate}
use upag.Store.{Store, StoreError, Db}
use upag.Store.Probes.{
  get_state, save_probe_result, save_probe_and_state, save_probe_and_state_with_pending_alert,
}
use upag.Store.Windows.{active_maintenance_window}
use upag.Store.ObserverChecks.{get_observer_state}
use upag.Transfer.{TransferCheckConfig, TransferGuard, Sampling, sample_transfer, is_degraded}
use upag.Dispatch.{Outbox, Round, dispatch_pending_monitor_alerts}

abbrev pub with_store : Store → World → World
with_store s w = record w { outbox = record (w.outbox) { store = s } }

-- A suppressed probe stores its result only.
abbrev pub save_only : Probing → ProbeResult → World → World
save_only e row w = with_store (save_probe_result e.save_db row w.outbox.store).0 w

abbrev pub transition_delay : Settings → Incident → ℕ
transition_delay cfg i =
    if i.transition == down then cfg.delay_down else if i.transition == up then cfg.delay_up else 0

abbrev pub delay_of : Settings → Option Incident → ℕ
delay_of cfg none = 0
delay_of cfg (some i) = transition_delay cfg i

-- What follows the transaction: an alert that is queued without delay is sent at once.
abbrev pub after_save :
    Probing → Settings → Option Incident → Fallible StoreError (ℕ × Bool) → World → World
after_save e cfg incident (err x) w = w
after_save e cfg none (ok saved) w = w
after_save e cfg (some i) (ok (id, queued)) w =
    if not queued
    then w
    else if transition_delay cfg i == 0
    then record w { outbox = dispatch_pending_monitor_alerts e.round w.outbox }
    else w

abbrev pub conclude :
    Probing → Settings → MonitorConfig → MonitorState → Result → ProbeResult → World → World
conclude e cfg mon previous result row w =
    let (next, incident) = evaluate_probe mon previous result cfg.threshold in
    let (s, saved) =
      save_probe_and_state_with_pending_alert e.save_db e.count_db row next incident
        (e.clock + delay_of cfg incident) w.outbox.store in
    after_save e cfg incident saved (with_store s w)

abbrev pub in_maintenance :
    Probing
    → MonitorConfig
    → MonitorState
    → Result
    → ProbeResult
    → MaintenanceWindow
    → World
    → World
in_maintenance e mon previous result row window w =
    let next = maintenance_state previous result mon result.checked_at in
    with_store
      (save_probe_and_state e.save_db (record row { maintenance_window_id = window.id }) next none
        none w.outbox.store).0
      w

abbrev pub observer_suppresses : Option ObserverState → Result → Bool
observer_suppresses none result = false
observer_suppresses (some o) result = o.status == observer_down && not result.ok

-- The failure may be one of the host's connection, though the sentinels answer.
abbrev pub asks_transfer : Option ObserverState → Result → Bool
asks_transfer none result = false
asks_transfer (some o) result =
    not result.ok
    && not (o.status == observer_down)
    && is_empty o.last_error
    && is_connectivity_suppressible result.failure_kind

abbrev pub guarded :
    Probing → Settings → MonitorConfig → MonitorState → Result → ProbeResult → World → World
guarded e cfg mon previous result row w =
    let (s, g) =
      sample_transfer e.sampling cfg.transfer_check "incident" mon.id w.outbox.store w.guard in
    let seen = record (with_store s w) { guard = g } in
    let suppressed = record row {
      connectivity_suppressed = true;
      suppression_reason = "cloudflare_transfer_slow";
    } in
    if is_degraded cfg.transfer_check g
    then save_only e suppressed seen
    else conclude e cfg mon previous result row seen

-- The three reads of the source, in its order of use.
abbrev pub Known : Type 0
Known = record {
  found : Option MonitorState;
  window : Option MaintenanceWindow;
  observer : Option ObserverState;
}

abbrev pub reads : Probing → MonitorConfig → ℕ → Store → Fallible StoreError Known
reads e mon now s = do
  found ← (get_state e.state_db mon.id s).1
  window ← (active_maintenance_window e.window_db mon.id now s).1
  observer ← (get_observer_state e.observer_db s).1
  ok (record { found = found; window = window; observer = observer })

-- A probe that the observer does not suppress.
abbrev pub decide_open :
    Probing
    → Settings
    → MonitorConfig
    → MonitorState
    → Result
    → ProbeResult
    → Option MaintenanceWindow
    → Bool
    → World
    → World
decide_open e cfg mon previous result row (some window) asks w =
    in_maintenance e mon previous result row window w
decide_open e cfg mon previous result row none asks w =
    if asks
    then guarded e cfg mon previous result row w
    else conclude e cfg mon previous result row w

abbrev pub decide_probe : Probing → Settings → MonitorConfig → Result → ℕ → Known → World → World
decide_probe e cfg mon result attempts k w =
    let previous = previous_state mon k.found in
    let row = probe_row mon result attempts in
    let suppressed = record row {
      observer_suppressed = true;
      suppression_reason = "observer_down";
    } in
    if observer_suppresses k.observer result
    then save_only e suppressed w
    else decide_open e cfg mon previous result row k.window (asks_transfer k.observer result) w

-- Nothing happens if a read fails.
abbrev pub with_known :
    Probing → Settings → MonitorConfig → Result → ℕ → Fallible StoreError Known → World → World
with_known e cfg mon result attempts (err x) w = w
with_known e cfg mon result attempts (ok k) w = decide_probe e cfg mon result attempts k w

unfoldable pub probe : Probing → Settings → MonitorConfig → World → World
unfolding check_with_retries maintenance_state evaluate_probe
probe e cfg mon w =
    let (result, attempts) = check_with_retries e cfg.probe_retries cfg.probe_retry_backoff in
    if e.stopped
    then w
    else with_known e cfg mon result attempts (reads e mon result.checked_at w.outbox.store) w
