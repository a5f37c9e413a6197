-- ===== src/Probe/Incidents.antt =====
-- When a probe opens an incident.
use upag.Base.{
  ℕ, ◌+◌, ◌≡◌, ◌⊎◌, refl, sym, subst, ◌∙◌, inl, inr, String, List, [], ◌∷◌, Bool, true, false,
  Option, none, some, ok, err, Fallible, arith, nat_eq, if◌then◌else◌, Bool-cases,
}
use upag.Storage.{MonitorState, ProbeResult, Incident, ConnectivitySample, MaintenanceWindow}
use upag.Checker.{Result}
use upag.Store.{Store, StoreError, Db, available, broken}
use upag.Store.Probes.{save_probe_and_state_with_pending_alert}
use upag.Store.ObserverChecks.{save_connectivity_samples}
use upag.Transfer.{
  TransferCheckConfig, TransferGuard, Sampling, sample_transfer, sampled, check_transfer,
  is_degraded,
}
use upag.Dispatch.Incidents.{dispatch-incidents}
use upag.Probe.{
  Probing, Settings, MonitorConfig, World, Known, probe, decide_probe, with_known, decide_open,
  guarded, conclude, in_maintenance, save_only, after_save, with_store, reads, check_with_retries,
  evaluate_probe, maintenance_state, delay_of, previous_state, probe_row, observer_suppresses,
  asks_transfer,
}
use upag.Probe.Steps.{with_pending_alert_store}
use upag.Probe.Tables.{save_result_tables, save_samples_tables}
use upag.Probe.Saved.{save_probe-Added, evaluate_probe-Fits, OneFits, OneFits-of_Added}

after_save-incidents :
    (e : Probing) (cfg : Settings) (i : Option Incident) (saved : Fallible StoreError (ℕ × Bool))
    (w : World)
    → (after_save e cfg i saved w).outbox.store.incidents ≡ w.outbox.store.incidents
after_save-incidents e cfg i (err x) w = refl
after_save-incidents e cfg none (ok saved) w = refl
after_save-incidents e cfg (some i) (ok (id, queued)) w =
    ground (arith, dispatch-incidents e.round w.outbox)

conclude-OneFits :
    (e : Probing) (cfg : Settings) (mon : MonitorConfig) (previous : MonitorState) (result : Result)
    (row : ProbeResult) (w : World)
    → OneFits mon result w.outbox.store.incidents
        (conclude e cfg mon previous result row w).outbox.store.incidents
conclude-OneFits e cfg mon previous result row w =
    let (next, incident) = evaluate_probe mon previous result cfg.threshold in
    let due = e.clock + delay_of cfg incident in
    let (s, saved) =
      save_probe_and_state_with_pending_alert e.save_db e.count_db row next incident due
        w.outbox.store in
    rw
      (
        after_save-incidents e cfg incident saved (with_store s w),
        with_pending_alert_store e.save_db e.count_db row next incident due w.outbox.store,
      )
      (OneFits-of_Added mon result incident w.outbox.store.incidents _
        (evaluate_probe-Fits mon previous result cfg.threshold)
        (save_probe-Added e.save_db row next incident (some due) w.outbox.store))

sampled-incidents :
    (cfg : TransferCheckConfig) (db : Db) (c : ConnectivitySample) (s : Store) (g : TransferGuard)
    → (sampled cfg c (save_connectivity_samples db (c ∷ []) s) g).0.incidents ≡ s.incidents
unfolding save_connectivity_samples
sampled-incidents cfg broken c s g = refl
sampled-incidents cfg available c s g = (save_samples_tables available (c ∷ []) s).3

sample_transfer-incidents :
    (e : Sampling) (cfg : TransferCheckConfig) (source monitor_id : String) (s : Store)
    (g : TransferGuard)
    → (sample_transfer e cfg source monitor_id s g).0.incidents ≡ s.incidents
unfolding sample_transfer
sample_transfer-incidents e cfg source monitor_id s g = ground (
  arith,
  sampled-incidents cfg e.save_db (check_transfer cfg source monitor_id e.now e.transfer) s g,
)

save_only-incidents :
    (e : Probing) (row : ProbeResult) (w : World)
    → (save_only e row w).outbox.store.incidents ≡ w.outbox.store.incidents
save_only-incidents e row w = (save_result_tables e.save_db row w.outbox.store).3

-- What holds of the incidents after either branch.
if-both :
    (P : List Incident → Type 0) (b : Bool) (v u : World)
    → P v.outbox.store.incidents
    → P u.outbox.store.incidents
    → P (if b then v else u).outbox.store.incidents
if-both P true v u h k = h
if-both P false v u h k = k

guarded-OneFits :
    (e : Probing) (cfg : Settings) (mon : MonitorConfig) (previous : MonitorState) (result : Result)
    (row : ProbeResult) (w : World)
    → OneFits mon result w.outbox.store.incidents
        (guarded e cfg mon previous result row w).outbox.store.incidents
guarded-OneFits e cfg mon previous result row w =
    let (s, g) =
      sample_transfer e.sampling cfg.transfer_check "incident" mon.id w.outbox.store w.guard in
    let seen = record (with_store s w) { guard = g } in
    let suppressed = record row {
      connectivity_suppressed = true;
      suppression_reason = "cloudflare_transfer_slow";
    } in
    let same =
      sample_transfer-incidents e.sampling cfg.transfer_check "incident" mon.id w.outbox.store
        w.guard in
    if-both (OneFits mon result w.outbox.store.incidents) (is_degraded cfg.transfer_check g)
      (save_only e suppressed seen) (conclude e cfg mon previous result row seen)
      (inl (save_only-incidents e suppressed seen ∙ same))
      (subst
        (λ before.
          OneFits mon result before
            (conclude e cfg mon previous result row seen).outbox.store.incidents)
        same (conclude-OneFits e cfg mon previous result row seen))

in_maintenance-incidents :
    (e : Probing) (mon : MonitorConfig) (previous : MonitorState) (result : Result)
    (row : ProbeResult) (m : MaintenanceWindow) (w : World)
    → (in_maintenance e mon previous result row m w).outbox.store.incidents
      ≡ w.outbox.store.incidents
in_maintenance-incidents e mon previous result row m w =
    elim (save_probe-Added e.save_db (record row { maintenance_window_id = m.id })
      (maintenance_state previous result mon result.checked_at) none none w.outbox.store) [
        | inl same ↦ same
        | inr (j, k, e', added) ↦ cc
      ]

-- What keeps a probe from opening any incident: a maintenance, or a failure while the observer is
-- down.
abbrev pub Quiet : Known → Result → Type 0
Quiet k result =
    (observer_suppresses k.observer result ≡ true) ⊎ ((m : MaintenanceWindow) × (k.window ≡ some m))

decide_open-Outcome :
    (e : Probing) (cfg : Settings) (mon : MonitorConfig) (previous : MonitorState) (result : Result)
    (row : ProbeResult) (window : Option MaintenanceWindow) (asks : Bool) (w : World)
    → let after =
        (decide_open e cfg mon previous result row window asks w).outbox.store.incidents in
      OneFits mon result w.outbox.store.incidents after
      × ((m : MaintenanceWindow) → window ≡ some m → after ≡ w.outbox.store.incidents)
decide_open-Outcome e cfg mon previous result row (some m) asks w =
    let same = in_maintenance-incidents e mon previous result row m w in (inl same, λ m' e'. same)
decide_open-Outcome e cfg mon previous result row none true w =
    (guarded-OneFits e cfg mon previous result row w, λ m e'. cc)
decide_open-Outcome e cfg mon previous result row none false w =
    (conclude-OneFits e cfg mon previous result row w, λ m e'. cc)

with_known-OneFits :
    (e : Probing) (cfg : Settings) (mon : MonitorConfig) (result : Result) (attempts : ℕ)
    (r : Fallible StoreError Known) (w : World)
    → OneFits mon result w.outbox.store.incidents
        (with_known e cfg mon result attempts r w).outbox.store.incidents
with_known-OneFits e cfg mon result attempts (err x) w = inl refl
with_known-OneFits e cfg mon result attempts (ok k) w =
    let row = probe_row mon result attempts in
    let suppressed = record row {
      observer_suppressed = true;
      suppression_reason = "observer_down";
    } in
    elim (Bool-cases (observer_suppresses k.observer result)) [
      | inl lost ↦ rw lost (inl (save_only-incidents e suppressed w))
      | inr fine ↦
          rw fine
            (decide_open-Outcome e cfg mon (previous_state mon k.found) result row k.window
              (asks_transfer k.observer result) w).0
    ]

decide_probe-Quiet :
    (e : Probing) (cfg : Settings) (mon : MonitorConfig) (result : Result) (attempts : ℕ)
    (k : Known) (w : World)
    → Quiet k result
    → (decide_probe e cfg mon result attempts k w).outbox.store.incidents ≡ w.outbox.store.incidents
decide_probe-Quiet e cfg mon result attempts k w q =
    let row = probe_row mon result attempts in
    let suppressed = record row {
      observer_suppressed = true;
      suppression_reason = "observer_down";
    } in
    let asks = asks_transfer k.observer result in
    let outcome =
      decide_open-Outcome e cfg mon (previous_state mon k.found) result row k.window asks w in
    elim (Bool-cases (observer_suppresses k.observer result)) [
      | inl lost ↦ rw lost (save_only-incidents e suppressed w)
      | inr fine ↦ rw fine (elim q [ inl lost ↦ cc | inr (m, found) ↦ outcome.1 m found ])
    ]

-- Whatever a probe meets, it adds one incident at most, of its own monitor: DOWN if the check
-- failed, UP if it succeeded. It adds none in a maintenance window, nor for a failure while the
-- observer is down.
pub probe_opens_incident :
    (e : Probing) (cfg : Settings) (mon : MonitorConfig) (w : World)
    → let result = (check_with_retries e cfg.probe_retries cfg.probe_retry_backoff).0 in
      let before = w.outbox.store.incidents in
      let after = (probe e cfg mon w).outbox.store.incidents in
      OneFits mon result before after
      × ((k : Known)
          → reads e mon result.checked_at w.outbox.store ≡ ok k
          → Quiet k result
          → after ≡ before)
unfolding probe
probe_opens_incident e cfg mon w =
    let (result, attempts) = check_with_retries e cfg.probe_retries cfg.probe_retry_backoff in
    let known = reads e mon result.checked_at w.outbox.store in
    let before = w.outbox.store.incidents in
    (
      if-both (OneFits mon result before) e.stopped w (with_known e cfg mon result attempts known w)
          (inl refl) (with_known-OneFits e cfg mon result attempts known w),
      λ k found q.
          if-both (λ after. after ≡ before) e.stopped w
            (with_known e cfg mon result attempts known w) refl
            (subst (λ r. (with_known e cfg mon result attempts r w).outbox.store.incidents ≡ before)
              (sym found) (decide_probe-Quiet e cfg mon result attempts k w q)),
    )
