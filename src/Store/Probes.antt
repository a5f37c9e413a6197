-- ===== src/Store/Probes.antt =====
-- The methods that store a probe: `GetState`, `SaveProbeResult`, `SaveProbeAndState` and
-- `SaveProbeAndStateWithPendingAlert`.
pub mod Queue
pub mod Reads
pub mod FirstOutage
use upag.Base.{
  ℕ, suc, String, List, [], ◌∷◌, Option, none, some, Bool, true, false, not, ◌&&◌, any, Fallible,
  ok, err, ◌==◌, nat_eq, string_eq, if◌then◌else◌,
}
use upag.State.{Status, unset, unknown, maintenance, status_eq}
use upag.Storage.{
  MonitorState, ProbeResult, Incident, PendingAlert, AlertState, PendingStatus, pending, cancelled,
  pending_eq,
}
use upag.Store.Defs.{
  Store, StoreError, Db, transaction, find_state, upsert_state, find_alert_state, status_of,
}
use upag.Store.Intervals.{save_status_interval}

unfoldable pub get_state : Db → String → Store → Store × Fallible StoreError (Option MonitorState)
unfolding find_state
get_state db monitor_id = transaction db (λ s. (s, ok (find_state monitor_id s.states)))

abbrev pub with_attempts : ProbeResult → ProbeResult
with_attempts r = record r { attempt_count = if r.attempt_count == 0 then 1 else r.attempt_count }

abbrev pub insert_probe : ProbeResult → Store → Store
insert_probe r s = record s { probe_results = with_attempts r ∷ s.probe_results }

unfoldable pub save_probe_result : Db → ProbeResult → Store → Store × Fallible StoreError (Unit {0})
save_probe_result db r = transaction db (λ s. (insert_probe r s, ok tt))

-- `previousStatus` of the source: the stored status, or what it was before the maintenance.
abbrev pub status_outside_maintenance : Option MonitorState → Status
status_outside_maintenance none = unset
status_outside_maintenance (some m) =
    if m.status == maintenance && not (m.status_before_maintenance == unset)
    then m.status_before_maintenance
    else m.status

-- `UPDATE pending_monitor_alerts SET status = 'cancelled' WHERE monitor_id = ? AND
-- status = 'pending' AND ...`.
unfoldable pub cancel_pending :
    (PendingAlert → Bool) → String → List PendingAlert → List PendingAlert
cancel_pending also monitor_id [] = []
cancel_pending also monitor_id (p ∷ ps) =
    (if p.monitor_id == monitor_id && (p.status == pending) && also p
      then record p { status = cancelled }
      else p)
    ∷ cancel_pending also monitor_id ps

abbrev pub ensure_alert_state : AlertState → List AlertState → List AlertState
ensure_alert_state a rows = elim (find_alert_state a.monitor_id rows) [
  | none ↦ a ∷ rows
  | some old ↦ rows
]

abbrev pub last_notified : Option AlertState → Status
last_notified none = unset
last_notified (some a) = a.last_notified_status

-- The part of the transaction under `if pendingDueAt != nil`.
unfoldable pub queue_alert : Status → MonitorState → ℕ → ℕ → Store → Store
unfolding find_alert_state cancel_pending
queue_alert previous_status next incident_id due_at s =
    let alert_states =
      ensure_alert_state
        (record {
          monitor_id = next.monitor_id;
          last_notified_status = if previous_status == unset then unknown else previous_status;
          updated_at = next.updated_at;
        })
        s.alert_states in
    let pending_alerts = cancel_pending (λ p. true) next.monitor_id s.pending_alerts in
    let cleared = record s { alert_states = alert_states; pending_alerts = pending_alerts } in
    if not (next.status == last_notified (find_alert_state next.monitor_id alert_states))
    then record cleared {
      pending_alerts =
          record {
            id = s.next_pending_id;
            incident_id = incident_id;
            monitor_id = next.monitor_id;
            transition = next.status;
            due_at = due_at;
            status = pending;
            created_at = next.updated_at;
            delivered_at = 0;
          }
          ∷ pending_alerts;
      next_pending_id = suc s.next_pending_id;
    }
    else cleared

-- The transaction up to the incident.
abbrev pub store_probe : ProbeResult → MonitorState → Store → Store
store_probe result next s =
    let probed = insert_probe result s in
    let stored = record probed { states = upsert_state next s.states } in
    let timed =
      if not (next.status == maintenance)
      then save_status_interval stored next.monitor_id next.status next.updated_at
      else stored in
    record timed {
      pending_alerts =
          cancel_pending (λ p. not (p.transition == next.status)) next.monitor_id
            timed.pending_alerts;
    }

abbrev pub insert_incident : Incident → Store → Store
insert_incident incident s = record s {
  incidents = record incident { id = s.next_incident_id } ∷ s.incidents;
  next_incident_id = suc s.next_incident_id;
}

abbrev pub finish_probe : Status → MonitorState → Option Incident → Option ℕ → Store → Store × ℕ
finish_probe previous_status next none due_at s = (s, 0)
finish_probe previous_status next (some incident) none s =
    (insert_incident incident s, s.next_incident_id)
finish_probe previous_status next (some incident) (some due_at) s = (
  queue_alert previous_status next s.next_incident_id due_at (insert_incident incident s),
  s.next_incident_id,
)

unfoldable pub save_probe_and_state :
    Db
    → ProbeResult
    → MonitorState
    → Option Incident
    → Option ℕ
    → Store
    → Store × Fallible StoreError ℕ
unfolding find_state upsert_state save_status_interval cancel_pending queue_alert
save_probe_and_state db result next incident due_at = transaction db λ s.
    let previous_status = status_outside_maintenance (find_state next.monitor_id s.states) in
    let (s', incident_id) =
      finish_probe previous_status next incident due_at (store_probe result next s) in
    (s', ok incident_id)

-- `COUNT(*) > 0` of the alerts of the incident that are not cancelled.
abbrev pub is_queued : ℕ → List PendingAlert → Bool
is_queued incident_id = any (λ p. p.incident_id == incident_id && not (p.status == cancelled))

-- The count is read after the transaction; `db'` is whether that query is served.
unfoldable pub save_probe_and_state_with_pending_alert :
    Db
    → Db
    → ProbeResult
    → MonitorState
    → Option Incident
    → ℕ
    → Store
    → Store × Fallible StoreError (ℕ × Bool)
unfolding save_probe_and_state
save_probe_and_state_with_pending_alert db db' result next incident due_at s =
    let (s', saved) = save_probe_and_state db result next incident (some due_at) s in
    elim saved [
      | err e ↦ (s', err e)
      | ok incident_id ↦ elim incident [
        | none ↦ (s', ok (incident_id, false))
        | some i ↦
            transaction db' (λ t. (t, ok (incident_id, is_queued incident_id t.pending_alerts))) s'
      ]
    ]
