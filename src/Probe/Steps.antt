-- ===== src/Probe/Steps.antt =====
-- The calls through which a probe acts on the outbox.
use upag.Base.{
  ℕ, ◌+◌, [], ◌∷◌, String, List, Bool, true, false, Option, none, some, ◌≡◌, refl, Fallible, ok,
  err, ◌==◌, nat_eq, if◌then◌else◌, arith,
}
use upag.Storage.{MonitorState, ProbeResult, Incident, ConnectivitySample, MaintenanceWindow}
use upag.Checker.{Result}
use upag.Store.{Store, StoreError, Db, available, broken}
use upag.Store.Probes.{
  save_probe_result, save_probe_and_state, save_probe_and_state_with_pending_alert,
}
use upag.Store.ObserverChecks.{save_connectivity_samples}
use upag.Transfer.{
  TransferCheckConfig, TransferGuard, Sampling, sample_transfer, sampled, check_transfer,
  is_degraded,
}
use upag.Dispatch.{Outbox, Round, dispatch_pending_monitor_alerts}
use upag.Probe.{
  Probing, Settings, MonitorConfig, World, Known, probe, with_known, decide_open, guarded, conclude,
  save_only, after_save, with_store, reads, check_with_retries, evaluate_probe, maintenance_state,
  delay_of, transition_delay, previous_state, probe_row, observer_suppresses, asks_transfer,
}

abbrev pub put : Store → Outbox → Outbox
put s o = record o { store = s }

-- A predicate that the calls keep.
pub record IsKept (Q : Outbox → Type 0) : Type 0 where
  pub results :
      (db : Db) (row : ProbeResult) (o : Outbox)
      → Q o
      → Q (put (save_probe_result db row o.store).0 o)
  pub probes :
      (db : Db) (row : ProbeResult) (next : MonitorState) (i : Option Incident) (due : Option ℕ)
      (o : Outbox)
      → Q o
      → Q (put (save_probe_and_state db row next i due o.store).0 o)
  pub samples :
      (db : Db) (cs : List ConnectivitySample) (o : Outbox)
      → Q o
      → Q (put (save_connectivity_samples db cs o.store).0 o)
  pub rounds : (r : Round) (o : Outbox) → Q o → Q (dispatch_pending_monitor_alerts r o)

pub with_pending_alert_store :
    (db db' : Db) (row : ProbeResult) (next : MonitorState) (i : Option Incident) (due : ℕ)
    (s : Store)
    → (save_probe_and_state_with_pending_alert db db' row next i due s).0
      ≡ (save_probe_and_state db row next i (some due) s).0
unfolding save_probe_and_state_with_pending_alert save_probe_and_state
with_pending_alert_store broken db' row next i due s = refl
with_pending_alert_store available db' row next none due s = refl
with_pending_alert_store available broken row next (some i) due s = refl
with_pending_alert_store available available row next (some i) due s = refl

module _ (Q : Outbox → Type 0) (kept : IsKept Q) where
  if-keeps : (b : Bool) (v w : World) → Q v.outbox → Q w.outbox → Q (if b then v else w).outbox
  if-keeps true v w h k = h
  if-keeps false v w h k = k

  after_save-keeps :
      (e : Probing) (cfg : Settings) (i : Option Incident) (saved : Fallible StoreError (ℕ × Bool))
      (w : World)
      → Q w.outbox
      → Q (after_save e cfg i saved w).outbox
  after_save-keeps e cfg i (err x) w h = h
  after_save-keeps e cfg none (ok saved) w h = h
  after_save-keeps e cfg (some i) (ok (id, true)) w h =
      if-keeps (transition_delay cfg i == 0)
        (record w { outbox = dispatch_pending_monitor_alerts e.round w.outbox }) w
        (kept.rounds e.round w.outbox h) h
  after_save-keeps e cfg (some i) (ok (id, false)) w h = h

  conclude-keeps :
      (e : Probing) (cfg : Settings) (mon : MonitorConfig) (previous : MonitorState)
      (result : Result) (row : ProbeResult) (w : World)
      → Q w.outbox
      → Q (conclude e cfg mon previous result row w).outbox
  conclude-keeps e cfg mon previous result row w h =
      let (next, incident) = evaluate_probe mon previous result cfg.threshold in
      let due = e.clock + delay_of cfg incident in
      let (s, saved) =
        save_probe_and_state_with_pending_alert e.save_db e.count_db row next incident due
          w.outbox.store in
      after_save-keeps e cfg incident saved (with_store s w) (
        rw (with_pending_alert_store e.save_db e.count_db row next incident due w.outbox.store)
          (kept.probes e.save_db row next incident (some due) w.outbox h))

  sampled-keeps :
      (cfg : TransferCheckConfig) (db : Db) (c : ConnectivitySample) (o : Outbox)
      (g : TransferGuard)
      → Q o
      → Q (put (sampled cfg c (save_connectivity_samples db (c ∷ []) o.store) g).0 o)
  unfolding save_connectivity_samples
  sampled-keeps cfg broken c o g h = h
  sampled-keeps cfg available c o g h = kept.samples available (c ∷ []) o h

  sample_transfer-keeps :
      (e : Sampling) (cfg : TransferCheckConfig) (source monitor_id : String) (o : Outbox)
      (g : TransferGuard)
      → Q o
      → Q (put (sample_transfer e cfg source monitor_id o.store g).0 o)
  unfolding sample_transfer
  sample_transfer-keeps e cfg source monitor_id o g h = ground (
    arith,
    sampled-keeps cfg e.save_db (check_transfer cfg source monitor_id e.now e.transfer) o g h,
  )

  guarded-keeps :
      (e : Probing) (cfg : Settings) (mon : MonitorConfig) (previous : MonitorState)
      (result : Result) (row : ProbeResult) (w : World)
      → Q w.outbox
      → Q (guarded e cfg mon previous result row w).outbox
  guarded-keeps e cfg mon previous result row w h =
      let (s, g) =
        sample_transfer e.sampling cfg.transfer_check "incident" mon.id w.outbox.store w.guard in
      let seen = record (with_store s w) { guard = g } in
      let ready =
        sample_transfer-keeps e.sampling cfg.transfer_check "incident" mon.id w.outbox w.guard h in
      let suppressed = record row {
        connectivity_suppressed = true;
        suppression_reason = "cloudflare_transfer_slow";
      } in
      if-keeps (is_degraded cfg.transfer_check g) (save_only e suppressed seen)
        (conclude e cfg mon previous result row seen)
        (kept.results e.save_db suppressed seen.outbox ready)
        (conclude-keeps e cfg mon previous result row seen ready)

  decide_open-keeps :
      (e : Probing) (cfg : Settings) (mon : MonitorConfig) (previous : MonitorState)
      (result : Result) (row : ProbeResult) (window : Option MaintenanceWindow) (asks : Bool)
      (w : World)
      → Q w.outbox
      → Q (decide_open e cfg mon previous result row window asks w).outbox
  decide_open-keeps e cfg mon previous result row (some m) asks w h =
      kept.probes e.save_db (record row { maintenance_window_id = m.id })
        (maintenance_state previous result mon result.checked_at) none none w.outbox h
  decide_open-keeps e cfg mon previous result row none true w h =
      guarded-keeps e cfg mon previous result row w h
  decide_open-keeps e cfg mon previous result row none false w h =
      conclude-keeps e cfg mon previous result row w h

  with_known-keeps :
      (e : Probing) (cfg : Settings) (mon : MonitorConfig) (result : Result) (attempts : ℕ)
      (r : Fallible StoreError Known) (w : World)
      → Q w.outbox
      → Q (with_known e cfg mon result attempts r w).outbox
  with_known-keeps e cfg mon result attempts (err x) w h = h
  with_known-keeps e cfg mon result attempts (ok k) w h =
      let row = probe_row mon result attempts in
      let previous = previous_state mon k.found in
      let asks = asks_transfer k.observer result in
      let suppressed = record row {
        observer_suppressed = true;
        suppression_reason = "observer_down";
      } in
      if-keeps (observer_suppresses k.observer result) (save_only e suppressed w)
        (decide_open e cfg mon previous result row k.window asks w)
        (kept.results e.save_db suppressed w.outbox h)
        (decide_open-keeps e cfg mon previous result row k.window asks w h)

  pub probe-keeps :
      (e : Probing) (cfg : Settings) (mon : MonitorConfig) (w : World)
      → Q w.outbox
      → Q (probe e cfg mon w).outbox
  unfolding probe
  probe-keeps e cfg mon w h =
      let (result, attempts) = check_with_retries e cfg.probe_retries cfg.probe_retry_backoff in
      let known = reads e mon result.checked_at w.outbox.store in
      if-keeps e.stopped w (with_known e cfg mon result attempts known w) h
        (with_known-keeps e cfg mon result attempts known w h)
