-- ===== src/Store/Probes/FirstOutage.antt =====
-- The first outage of a monitor, when it ends before its message is due.
use upag.Base.{
  ℕ, suc, List, [], ◌∷◌, none, some, Bool, true, not, ◌≡◌, eq_iff, arith, ok, ◌==◌, nat_eq,
  string_eq,
}
use upag.State.{Status, up, down, failing, status_eq}
use upag.Storage.{MonitorState, ProbeResult, Incident, PendingAlert, pending_eq}
use upag.Store.Defs.{Store, available, find_state, find_alert_state}
use upag.Store.Probes.{
  save_probe_and_state_with_pending_alert, save_probe_and_state, cancel_pending, queue_alert,
  status_outside_maintenance,
}
use upag.Store.Probes.Reads.{store_probe_tables}
use upag.Store.Probes.Queue.{Older, told, cancel-Older, save_probe_and_state_queues}

-- Alerts of older incidents also come before a newer one.
Older-suc : (n : ℕ) (ps : List PendingAlert) → Older n ps → Older (suc n) ps
Older-suc n [] h = tt
Older-suc n (p ∷ ps) h = (ground arith, Older-suc n ps h.1)

down-tables :
    (result : ProbeResult) (next : MonitorState) (i : Incident) (due_at : ℕ) (s : Store)
    → find_alert_state next.monitor_id s.alert_states ≡ none
    → status_outside_maintenance (find_state next.monitor_id s.states) ≡ failing
    → Older s.next_incident_id s.pending_alerts
    → let s' = (save_probe_and_state available result next (some i) (some due_at) s).0 in
      (told failing (find_alert_state next.monitor_id s'.alert_states) ≡ failing)
      × (s'.next_incident_id ≡ suc s.next_incident_id)
      × Older (suc s.next_incident_id) s'.pending_alerts
      × ((a : Status) → told a (find_alert_state next.monitor_id s'.alert_states) ≡ failing)
unfolding save_probe_and_state queue_alert find_alert_state
down-tables result next i due_at s ha hs old =
    let stale : PendingAlert → Bool = λ q. not (q.transition == next.status) in
    let m = next.monitor_id in
    let n = s.next_incident_id in
    let tables = store_probe_tables result next s in
    let older =
      cancel-Older (λ q. true) m n (cancel_pending stale m s.pending_alerts)
        (cancel-Older stale m n s.pending_alerts old) in
    (
      ground (arith, tables, eq_iff m m),
      ground (arith, tables, eq_iff m m),
      ground (
        arith,
        tables,
        eq_iff m m,
        Older-suc n (cancel_pending (λ q. true) m (cancel_pending stale m s.pending_alerts)) older,
      ),
      λ a. ground (arith, tables, eq_iff m m),
    )

-- If nothing was ever told of a monitor that is FAILING, and it goes DOWN and then UP before the
-- DOWN message is sent, then the UP incident queues a message: the status that counts as told last
-- is FAILING, from before the outage, and not UP.
pub first_outage_tells_recovery :
    (result result' : ProbeResult) (next next' : MonitorState) (i i' : Incident)
    (due_at due_at' : ℕ) (s : Store)
    → find_alert_state next.monitor_id s.alert_states ≡ none
    → status_outside_maintenance (find_state next.monitor_id s.states) ≡ failing
    → Older s.next_incident_id s.pending_alerts
    → next.status ≡ down
    → next'.status ≡ up
    → next'.monitor_id ≡ next.monitor_id
    → let s' = (save_probe_and_state available result next (some i) (some due_at) s).0 in
      (save_probe_and_state_with_pending_alert available available result' next'
        (some i')
        due_at'
        s').1
      ≡ ok (suc s.next_incident_id, true)
first_outage_tells_recovery result result' next next' i i' due_at due_at' s ha hs old hd hu hm =
    let s' = (save_probe_and_state available result next (some i) (some due_at) s).0 in
    let (_, id, older, told_before) = down-tables result next i due_at s ha hs old in
    let before = status_outside_maintenance (find_state next'.monitor_id s'.states) in
    ground (arith, save_probe_and_state_queues result' next' i' due_at' s', told_before before)
