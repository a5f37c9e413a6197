-- ===== src/Store/Defs.antt =====
-- The tables, and how a transaction on them may fail.
use upag.Base.{
  ℕ, String, List, [], ◌∷◌, Option, none, some, Fallible, err, ◌==◌, string_eq, if◌then◌else◌,
}
use upag.State.{Status, unset}
use upag.Storage.{
  MonitorState, ProbeResult, StatusInterval, Incident, PendingAlert, AlertState, AlertNotification,
  MaintenanceWindow, ObserverState, ObserverSentinelResult, ConnectivitySample,
}

pub record Store : Type 0 where
  pub states : List MonitorState
  pub probe_results : List ProbeResult
  pub status_intervals : List StatusInterval
  pub incidents : List Incident
  pub pending_alerts : List PendingAlert
  pub alert_states : List AlertState
  pub notifications : List AlertNotification
  pub maintenance_windows : List MaintenanceWindow
  pub observer_state : Option ObserverState
  pub sentinel_results : List ObserverSentinelResult
  pub sentinel_events : List ObserverSentinelResult
  pub connectivity_samples : List ConnectivitySample
  pub next_interval_id : ℕ
  pub next_incident_id : ℕ
  pub next_pending_id : ℕ
  pub next_notification_id : ℕ
  pub next_window_id : ℕ
  pub next_sample_id : ℕ

-- `database` is a failure of the driver; the others are those that the store itself reports.
pub data StoreError : Type 0 where
  database invalid not_found conflict not_claimed : StoreError

-- Whether the database serves a call.
pub data Db : Type 0 where
  available broken : Db

abbrev pub transaction {ℓ} :
    {A : Type ℓ}
    → Db
    → (Store → Store × Fallible StoreError A)
    → Store
    → Store × Fallible StoreError A
transaction broken body s = (s, err database)
transaction available body s = body s

-- `SELECT ... FROM monitor_states WHERE monitor_id = ?`.
unfoldable pub find_state : String → List MonitorState → Option MonitorState
find_state id [] = none
find_state id (m ∷ ms) = let rest = find_state id ms in if m.monitor_id == id then some m else rest

-- `INSERT ... ON CONFLICT(monitor_id) DO UPDATE SET ...` of every column.
unfoldable pub upsert_state : MonitorState → List MonitorState → List MonitorState
upsert_state next [] = next ∷ []
upsert_state next (m ∷ ms) =
    let rest = upsert_state next ms in
    if m.monitor_id == next.monitor_id then next ∷ ms else m ∷ rest

unfoldable pub find_alert_state : String → List AlertState → Option AlertState
find_alert_state id [] = none
find_alert_state id (a ∷ as') =
    let rest = find_alert_state id as' in if a.monitor_id == id then some a else rest

abbrev pub status_of : Option MonitorState → Status
status_of none = unset
status_of (some m) = m.status
