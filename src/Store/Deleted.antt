-- ===== src/Store/Deleted.antt =====
-- `DeleteStatesExcept` of internal/storage/storage.go, by which the runner forgets the monitors that
-- its configuration does not have.
use upag.Base.{
  String, List, [], ◌∷◌, map, none, Bool, true, false, not, ◌&&◌, any, keep, ◌==◌, nat_eq,
  string_eq, eq_iff, if◌then◌else◌, Bool-cases, inl, inr, ◌≡◌, refl, ap, arith, Fallible, ok,
}
use upag.Storage.{MonitorState, AlertState, PendingAlert, pending, cancelled, pending_eq}
use upag.Store.Defs.{Store, StoreError, Db, available, transaction, find_state, find_alert_state}

abbrev pub is_listed : List String → String → Bool
is_listed ids id = any (λ x. x == id) ids

-- `UPDATE pending_monitor_alerts SET status = 'cancelled' WHERE status = 'pending' AND ...`.
unfoldable pub cancel_alerts : (PendingAlert → Bool) → List PendingAlert → List PendingAlert
cancel_alerts where_row [] = []
cancel_alerts where_row (p ∷ ps) =
    (if (p.status == pending) && where_row p then record p { status = cancelled } else p)
    ∷ cancel_alerts where_row ps

-- Without monitors the statements have no condition on the monitor.
unfoldable pub delete_states_except : Db → List String → Store → Store × Fallible StoreError Bool
unfolding cancel_alerts
delete_states_except db [] = transaction db (λ s. (
  record s {
    pending_alerts = cancel_alerts (λ p. true) s.pending_alerts;
    alert_states = [];
    states = [];
  },
  ok true,
))
delete_states_except db (id ∷ ids) = transaction db (λ s. (
  record s {
    pending_alerts = cancel_alerts (λ p. not (is_listed (id ∷ ids) p.monitor_id)) s.pending_alerts;
    alert_states = keep (λ a. is_listed (id ∷ ids) a.monitor_id) s.alert_states;
    states = keep (λ m. is_listed (id ∷ ids) m.monitor_id) s.states;
  },
  ok true,
))

-- The alerts of a monitor that wait to be sent.
abbrev pub waiting_for : String → List PendingAlert → List PendingAlert
waiting_for id = keep (λ p. (p.status == pending) && (p.monitor_id == id))

-- What the statements do, whether there are monitors or not.
abbrev kept : List String → Store → Store
kept ids s = record s {
  pending_alerts = cancel_alerts (λ p. not (is_listed ids p.monitor_id)) s.pending_alerts;
  alert_states = keep (λ a. is_listed ids a.monitor_id) s.alert_states;
  states = keep (λ m. is_listed ids m.monitor_id) s.states;
}

keep_none {ℓ} : {A : Type ℓ} (xs : List A) → keep (λ x. false) xs ≡ []
keep_none [] = refl
keep_none (x ∷ xs) = keep_none xs

delete_states_except-kept :
    (ids : List String) (s : Store) → delete_states_except available ids s ≡ (kept ids s, ok true)
unfolding delete_states_except
delete_states_except-kept [] s = rw (keep_none s.alert_states, keep_none s.states)
delete_states_except-kept (id ∷ ids) s = refl

find_state-keep :
    (p : String → Bool) (id : String) (ms : List MonitorState)
    → find_state id (keep (λ m. p m.monitor_id) ms) ≡ (if p id then find_state id ms else none)
unfolding find_state
find_state-keep p id [] = ground arith
find_state-keep p id (m ∷ ms) = elim (Bool-cases (m.monitor_id == id)) [
  | inl e ↦
      let same : p m.monitor_id ≡ p id = ap p ((eq_iff m.monitor_id id).0 e) in
      ground (arith, same, find_state-keep p id ms)
  | inr e ↦ ground (arith, find_state-keep p id ms)
]

find_alert_state-keep :
    (p : String → Bool) (id : String) (rows : List AlertState)
    → find_alert_state id (keep (λ a. p a.monitor_id) rows)
      ≡ (if p id then find_alert_state id rows else none)
unfolding find_alert_state
find_alert_state-keep p id [] = ground arith
find_alert_state-keep p id (a ∷ rows) = elim (Bool-cases (a.monitor_id == id)) [
  | inl e ↦
      let same : p a.monitor_id ≡ p id = ap p ((eq_iff a.monitor_id id).0 e) in
      ground (arith, same, find_alert_state-keep p id rows)
  | inr e ↦ ground (arith, find_alert_state-keep p id rows)
]

waiting_for-cancel_alerts :
    (p : String → Bool) (id : String) (rows : List PendingAlert)
    → waiting_for id (cancel_alerts (λ a. not (p a.monitor_id)) rows)
      ≡ (if p id then waiting_for id rows else [])
unfolding cancel_alerts
waiting_for-cancel_alerts p id [] = ground arith
waiting_for-cancel_alerts p id (a ∷ rows) = elim (Bool-cases (a.monitor_id == id)) [
  | inl e ↦
      let same : p a.monitor_id ≡ p id = ap p ((eq_iff a.monitor_id id).0 e) in
      ground (arith, same, waiting_for-cancel_alerts p id rows)
  | inr e ↦ ground (arith, waiting_for-cancel_alerts p id rows)
]

abbrev pub without_status : PendingAlert → PendingAlert
without_status p = record p { status = pending }

cancel_alerts-without_status :
    (where_row : PendingAlert → Bool) (rows : List PendingAlert)
    → map without_status (cancel_alerts where_row rows) ≡ map without_status rows
unfolding cancel_alerts
cancel_alerts-without_status where_row [] = refl
cancel_alerts-without_status where_row (a ∷ rows) =
    ground (arith, cancel_alerts-without_status where_row rows)

-- Afterwards the store knows the monitors of the list and no others: of a monitor in the list the
-- state, what its followers were told last and the alerts that wait stay as they were, and of any
-- other monitor there is no state, nothing told and no alert that waits. Every other table and every
-- counter of the store is left alone, and so is every alert but for its status.
pub delete_states_except-keeps :
    (ids : List String) (id : String) (s : Store)
    → let s' = (delete_states_except available ids s).0 in
      let listed = is_listed ids id in
      (find_state id s'.states ≡ (if listed then find_state id s.states else none))
      × (find_alert_state id s'.alert_states
          ≡ (if listed then find_alert_state id s.alert_states else none))
      × (waiting_for id s'.pending_alerts
          ≡ (if listed then waiting_for id s.pending_alerts else []))
      × (s' ≡ record s {
        states = s'.states;
        alert_states = s'.alert_states;
        pending_alerts = s'.pending_alerts;
      })
      × (map without_status s'.pending_alerts ≡ map without_status s.pending_alerts)
delete_states_except-keeps ids id s = rw (delete_states_except-kept ids s) (
  find_state-keep (is_listed ids) id s.states,
  find_alert_state-keep (is_listed ids) id s.alert_states,
  waiting_for-cancel_alerts (is_listed ids) id s.pending_alerts,
  refl,
  cancel_alerts-without_status (λ p. not (is_listed ids p.monitor_id)) s.pending_alerts,
)
