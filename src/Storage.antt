-- ===== src/Storage.antt =====
-- The records of internal/storage/storage.go that the components hand to one another. A time is
-- the count of nanoseconds since Go's zero time, so `0` is the zero time of `IsZero`.
use upag.Base.{ℕ, String, Bool, true, Option, ◌≡◌, ◌↔◌, Eq, ◌==◌, nat_eq, arith}
use upag.State.{Status}
use upag.Failure.{FailureKind}

pub record MonitorState : Type 0 where
  pub monitor_id : String
  pub name : String
  pub url : String
  pub expected_status_code : ℕ
  pub status : Status
  pub status_before_maintenance : Status
  pub consecutive_failures : ℕ
  pub last_checked_at : ℕ
  pub last_success_at : ℕ
  pub last_failure_at : ℕ
  pub last_error : String
  pub last_observed_status_code : ℕ
  pub updated_at : ℕ

pub record ObserverState : Type 0 where
  pub status : Status
  pub consecutive_failures : ℕ
  pub consecutive_successes : ℕ
  pub last_checked_at : ℕ
  pub last_success_at : ℕ
  pub last_failure_at : ℕ
  pub last_error : String
  pub updated_at : ℕ

pub record ObserverSentinelResult : Type 0 where
  pub sentinel_id : String
  pub name : String
  pub url : String
  pub expected_status_code : ℕ
  pub ok : Bool
  pub observed_status_code : ℕ
  pub latency_ms : ℕ
  pub response_time_ms : ℕ
  pub error : String
  pub checked_at : ℕ

pub record ConnectivitySample : Type 0 where
  pub id : ℕ
  pub kind : String
  pub source : String
  pub target_id : String
  pub target_name : String
  pub url : String
  pub monitor_id : String
  pub ok : Bool
  pub slow : Bool
  pub expected_status_code : ℕ
  pub observed_status_code : ℕ
  pub latency_ms : ℕ
  pub response_time_ms : ℕ
  pub bytes_read : ℕ
  pub error : String
  pub checked_at : ℕ

pub record Incident : Type 0 where
  pub id : ℕ
  pub monitor_id : String
  pub name : String
  pub transition : Status
  pub observed_at : ℕ
  pub error : String
  pub status_code : ℕ

pub record AlertNotification : Type 0 where
  pub id : ℕ
  pub incident_id : ℕ
  pub monitor_id : String
  pub provider : String
  pub attempted_at : ℕ
  pub attempt_number : ℕ
  pub success : Bool
  pub error : String
  pub next_retry_at : ℕ
  pub retry_exhausted : Bool

pub record MaintenanceWindow : Type 0 where
  pub id : ℕ
  pub monitor_id : String
  pub starts_at : ℕ
  pub ends_at : ℕ
  pub reason : String
  pub created_by : String
  pub created_at : ℕ
  pub cancelled_at : ℕ
  pub cancelled_by : String
  pub cancellation_reason : String

pub record ProbeResult : Type 0 where
  pub monitor_id : String
  pub checked_at : ℕ
  pub ok : Bool
  pub observed_status_code : ℕ
  pub latency_ms : ℕ
  pub response_time_ms : ℕ
  pub attempt_count : ℕ
  pub error : String
  pub maintenance_window_id : ℕ
  pub observer_suppressed : Bool
  pub connectivity_suppressed : Bool
  pub failure_kind : FailureKind
  pub suppression_reason : String

-- A row of `monitor_status_intervals`; no `ended_at` is NULL, an interval that is still open.
pub record StatusInterval : Type 0 where
  pub id : ℕ
  pub monitor_id : String
  pub status : Status
  pub started_at : ℕ
  pub ended_at : Option ℕ
  pub downtime : Bool

pub data PendingStatus : Type 0 where
  pending sending delivered cancelled : PendingStatus

abbrev pub pending_rank : PendingStatus → ℕ
pending_rank pending = 0
pending_rank sending = 1
pending_rank delivered = 2
pending_rank cancelled = 3

abbrev pub pending_beq : PendingStatus → PendingStatus → Bool
pending_beq a b = pending_rank a == pending_rank b

pub pending_beq_iff : (a b : PendingStatus) → (pending_beq a b ≡ true) ↔ (a ≡ b)
pending_beq_iff a b = ground arith

instance abbrev pub pending_eq : Eq PendingStatus
pending_eq = record { same = pending_beq; same_iff = pending_beq_iff }

-- A row of `pending_monitor_alerts`.
pub record PendingAlert : Type 0 where
  pub id : ℕ
  pub incident_id : ℕ
  pub monitor_id : String
  pub transition : Status
  pub due_at : ℕ
  pub status : PendingStatus
  pub created_at : ℕ
  pub delivered_at : ℕ

-- A row of `monitor_alert_states`.
pub record AlertState : Type 0 where
  pub monitor_id : String
  pub last_notified_status : Status
  pub updated_at : ℕ
