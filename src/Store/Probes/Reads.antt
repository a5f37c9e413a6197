-- ===== src/Store/Probes/Reads.antt =====
-- The queries for one row of a probe, beside the row that was stored last.
use upag.Base.{
  ℕ, String, List, [], ◌∷◌, some, not, ◌≡◌, refl, eq_iff, arith, ◌==◌, string_eq, if◌then◌else◌,
}
use upag.State.{Status, status_eq}
use upag.Storage.{MonitorState, ProbeResult}
use upag.Store.Defs.{Store, find_state, upsert_state}
use upag.Store.Intervals.{save_status_interval}
use upag.Store.Probes.{store_probe, insert_probe, cancel_pending}

-- Recording a status interval touches no other table.
pub save_status_interval_rest :
    (s : Store) (m : String) (status : Status) (t : ℕ)
    → let s' = save_status_interval s m status t in
      (s'.states ≡ s.states)
      × (s'.pending_alerts ≡ s.pending_alerts)
      × (s'.alert_states ≡ s.alert_states)
      × (s'.incidents ≡ s.incidents)
      × (s'.next_incident_id ≡ s.next_incident_id)
      × (s'.next_pending_id ≡ s.next_pending_id)
      × (s'.probe_results ≡ s.probe_results)
      × (s'.notifications ≡ s.notifications)
unfolding save_status_interval
save_status_interval_rest s m status t = ground arith

pub find_state-upsert_state :
    (next : MonitorState) (id : String) (ms : List MonitorState)
    → find_state id (upsert_state next ms)
      ≡ (if next.monitor_id == id then some next else find_state id ms)
unfolding find_state upsert_state
find_state-upsert_state next id [] = refl
find_state-upsert_state next id (m ∷ ms) = ground (
  arith,
  eq_iff m.monitor_id next.monitor_id,
  eq_iff m.monitor_id id,
  eq_iff next.monitor_id id,
  find_state-upsert_state next id ms,
)

-- The tables after the first part of the transaction, but for the intervals.
pub store_probe_tables :
    (result : ProbeResult) (next : MonitorState) (s : Store)
    → let s' = store_probe result next s in
      (s'.states ≡ upsert_state next s.states)
      × (s'.pending_alerts
          ≡ cancel_pending
              (λ p. not (p.transition == next.status))
              next.monitor_id
              s.pending_alerts)
      × (s'.alert_states ≡ s.alert_states)
      × (s'.incidents ≡ s.incidents)
      × (s'.next_incident_id ≡ s.next_incident_id)
      × (s'.next_pending_id ≡ s.next_pending_id)
      × (s'.notifications ≡ s.notifications)
store_probe_tables result next s =
    let stored = record (insert_probe result s) { states = upsert_state next s.states } in
    ground (arith, save_status_interval_rest stored next.monitor_id next.status next.updated_at)
