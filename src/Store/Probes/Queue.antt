-- ===== src/Store/Probes/Queue.antt =====
-- Which alerts are waiting after a probe is stored.
use upag.Base.{
  ℕ, String, List, [], ◌∷◌, Option, none, some, Bool, true, false, not, ◌<◌, ◌≡◌, refl, All, eq_iff,
  arith, ok, ◌==◌, nat_eq, string_eq, if◌then◌else◌,
}
use upag.State.{Status, unset, unknown, status_eq}
use upag.Storage.{
  MonitorState, ProbeResult, Incident, PendingAlert, AlertState, pending, pending_eq,
}
use upag.Store.Defs.{
  Store, Db, available, broken, find_state, upsert_state, find_alert_state, status_of,
}
use upag.Store.Probes.{
  store_probe, insert_incident, finish_probe, cancel_pending, queue_alert,
  status_outside_maintenance, save_probe_and_state, save_probe_and_state_with_pending_alert,
  is_queued,
}
use upag.Store.Probes.Reads.{store_probe_tables, find_state-upsert_state}

-- A waiting alert is about the state that its monitor is in.
abbrev pub IsCurrent : List MonitorState → PendingAlert → Type 0
IsCurrent states p = p.status ≡ pending → status_of (find_state p.monitor_id states) ≡ p.transition

abbrev pub Current : Store → Type 0
Current s = All (IsCurrent s.states) s.pending_alerts

cancel_stale-Current :
    (next : MonitorState) (states : List MonitorState) (ps : List PendingAlert)
    → All (IsCurrent states) ps
    → All
        (IsCurrent (upsert_state next states))
        (cancel_pending (λ p. not (p.transition == next.status)) next.monitor_id ps)
unfolding cancel_pending
cancel_stale-Current next states [] h = tt
cancel_stale-Current next states (p ∷ ps) h = ground (
  arith,
  cancel_stale-Current next states ps h.1,
  find_state-upsert_state next p.monitor_id states,
  eq_iff p.monitor_id next.monitor_id,
  eq_iff next.monitor_id p.monitor_id,
)

cancel-All-Current :
    (m : String) (states : List MonitorState) (ps : List PendingAlert)
    → All (IsCurrent states) ps
    → All (IsCurrent states) (cancel_pending (λ p. true) m ps)
unfolding cancel_pending
cancel-All-Current m states [] h = tt
cancel-All-Current m states (p ∷ ps) h = ground (arith, cancel-All-Current m states ps h.1)

queue_alert-Current :
    (previous_status : Status) (next : MonitorState) (incident_id due_at : ℕ) (s : Store)
    → status_of (find_state next.monitor_id s.states) ≡ next.status
    → Current s
    → Current (queue_alert previous_status next incident_id due_at s)
unfolding queue_alert
queue_alert-Current previous_status next incident_id due_at s e h =
    ground (arith, cancel-All-Current next.monitor_id s.states s.pending_alerts h)

store_probe-Current :
    (result : ProbeResult) (next : MonitorState) (s : Store)
    → Current s
    → Current (store_probe result next s)
store_probe-Current result next s h =
    ground (
      arith,
      store_probe_tables result next s,
      cancel_stale-Current next s.states s.pending_alerts h,
    )

stored_status :
    (result : ProbeResult) (next : MonitorState) (s : Store)
    → status_of (find_state next.monitor_id (store_probe result next s).states) ≡ next.status
stored_status result next s = ground (
  arith,
  store_probe_tables result next s,
  find_state-upsert_state next next.monitor_id s.states,
  eq_iff next.monitor_id next.monitor_id,
)

finish_probe-Current :
    (previous_status : Status) (next : MonitorState) (incident : Option Incident)
    (due_at : Option ℕ) (s : Store)
    → status_of (find_state next.monitor_id s.states) ≡ next.status
    → Current s
    → Current (finish_probe previous_status next incident due_at s).0
finish_probe-Current previous_status next none due_at s e h = h
finish_probe-Current previous_status next (some i) none s e h = h
finish_probe-Current previous_status next (some i) (some due_at) s e h =
    queue_alert-Current previous_status next s.next_incident_id due_at (insert_incident i s) e h

-- Whatever is stored, and whether or not the database serves the call, no alert is left waiting
-- that is out of date, if none was before: every waiting alert is about the status that its
-- monitor has in the table of states.
pub save_probe_and_state-Current :
    (db : Db) (result : ProbeResult) (next : MonitorState) (incident : Option Incident)
    (due_at : Option ℕ) (s : Store)
    → Current s
    → Current (save_probe_and_state db result next incident due_at s).0
unfolding save_probe_and_state
save_probe_and_state-Current broken result next incident due_at s h = h
save_probe_and_state-Current available result next incident due_at s h =
    finish_probe-Current (status_outside_maintenance (find_state next.monitor_id s.states)) next
      incident due_at (store_probe result next s) (stored_status result next s)
      (store_probe-Current result next s h)

-- Alerts of earlier incidents only.
abbrev pub Older : ℕ → List PendingAlert → Type 0
Older n = All (λ p. p.incident_id < n)

not_queued :
    (also : PendingAlert → Bool) (m : String) (k : ℕ) (ps : List PendingAlert)
    → Older k ps
    → is_queued k (cancel_pending also m ps) ≡ false
unfolding cancel_pending
not_queued also m k [] h = refl
not_queued also m k (p ∷ ps) h = ground (arith, not_queued also m k ps h.1)

pub cancel-Older :
    (also : PendingAlert → Bool) (m : String) (k : ℕ) (ps : List PendingAlert)
    → Older k ps
    → Older k (cancel_pending also m ps)
unfolding cancel_pending
cancel-Older also m k [] h = tt
cancel-Older also m k (p ∷ ps) h = ground (arith, cancel-Older also m k ps h.1)

-- The status that the monitor's followers were told last, or the one before the incident if they
-- were told nothing yet.
abbrev pub told : Status → Option AlertState → Status
told previous_status none = if previous_status == unset then unknown else previous_status
told previous_status (some a) = a.last_notified_status

queue_alert-queued :
    (previous_status : Status) (next : MonitorState) (k due_at : ℕ) (s : Store)
    → Older k s.pending_alerts
    → is_queued k (queue_alert previous_status next k due_at s).pending_alerts
      ≡ not (next.status == told previous_status (find_alert_state next.monitor_id s.alert_states))
unfolding queue_alert
queue_alert-queued previous_status next k due_at s h = ground (
  arith,
  not_queued (λ p. true) next.monitor_id k s.pending_alerts h,
  eq_iff next.monitor_id next.monitor_id,
)

-- An incident's alert is queued exactly when the new status differs from the one that was told
-- last, or, if nothing was told yet, from the status before the incident (a maintenance looked
-- through, UNKNOWN for a monitor that was not stored).
pub save_probe_and_state_queues :
    (result : ProbeResult) (next : MonitorState) (i : Incident) (due_at : ℕ) (s : Store)
    → Older s.next_incident_id s.pending_alerts
    → (save_probe_and_state_with_pending_alert available available result next (some i) due_at s).1
      ≡ ok (
        s.next_incident_id,
        not (
            next.status
            == told
                (status_outside_maintenance (find_state next.monitor_id s.states))
                (find_alert_state next.monitor_id s.alert_states)),
      )
unfolding save_probe_and_state_with_pending_alert
save_probe_and_state_queues result next i due_at s h =
    let s' = store_probe result next s in
    ground (
      arith,
      store_probe_tables result next s,
      cancel-Older (λ p. not (p.transition == next.status)) next.monitor_id s.next_incident_id
          s.pending_alerts h,
      queue_alert-queued (status_outside_maintenance (find_state next.monitor_id s.states)) next
          s.next_incident_id due_at (insert_incident i s'),
    )
