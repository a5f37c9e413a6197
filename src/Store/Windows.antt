-- ===== src/Store/Windows.antt =====
-- Maintenance windows.
pub mod Disjoint
pub mod Active
pub mod Race
use upag.Base.{
  ℕ, suc, String, List, [], ◌∷◌, Option, none, some, Bool, true, false, not, ◌&&◌, ltb, Fallible,
  ok, err, ◌==◌, nat_eq, string_eq, if◌then◌else◌, is_empty, order_by, find, keep,
}
use upag.SqlTime.{sql_lt, sql_le}
use upag.Storage.{MaintenanceWindow}
use upag.Store.Defs.{
  Store, StoreError, invalid, not_found, conflict, database, Db, available, broken, transaction,
  find_state,
}

-- `ORDER BY starts_at ASC`.
abbrev pub starts_before : MaintenanceWindow → MaintenanceWindow → Bool
starts_before a b = sql_lt a.starts_at b.starts_at

abbrev pub overlaps : String → ℕ → ℕ → MaintenanceWindow → Bool
overlaps monitor_id starts_at ends_at w =
    w.monitor_id == monitor_id
    && (w.cancelled_at == 0)
    && sql_lt w.starts_at ends_at
    && sql_lt starts_at w.ends_at

abbrev pub is_some {ℓ} : {A : Type ℓ} → Option A → Bool
is_some none = false
is_some (some a) = true

abbrev pub is_valid_window : (String → String) → MaintenanceWindow → Bool
is_valid_window trim w =
    ltb w.starts_at w.ends_at
    && not (is_empty (trim w.reason))
    && not (is_empty (trim w.created_by))

-- What a call of `AddMaintenanceWindow` meets. Its statements are no transaction: each is served or
-- not, and other callers may change the store before the second and before the third.
pub record Statements : Type 0 where
  pub exists_db : Db
  pub overlap_db : Db
  pub insert_db : Db
  pub before_overlap : Store → Store
  pub before_insert : Store → Store

unfoldable pub check_monitor_state : Db → MaintenanceWindow → Store → Option StoreError
unfolding find_state
check_monitor_state broken w s = some database
check_monitor_state available w s =
    if is_some (find_state w.monitor_id s.states) then none else some not_found

unfoldable pub check_overlap : Db → MaintenanceWindow → Store → Option StoreError
check_overlap broken w s = some database
check_overlap available w s =
    if is_some (find (overlaps w.monitor_id w.starts_at w.ends_at) s.maintenance_windows)
    then some conflict
    else none

unfoldable pub insert_window : Db → ℕ → MaintenanceWindow → Store → Store × Fallible StoreError ℕ
insert_window broken clock w s = (s, err database)
insert_window available clock w s = (
  record s {
    maintenance_windows =
        record w {
          id = s.next_window_id;
          created_at = if w.created_at == 0 then clock else w.created_at;
        }
        ∷ s.maintenance_windows;
    next_window_id = suc s.next_window_id;
  },
  ok s.next_window_id,
)

abbrev pub unless_refused :
    Option StoreError
    → Store
    → (Store → Store × Fallible StoreError ℕ)
    → Store × Fallible StoreError ℕ
unless_refused (some e) s next = (s, err e)
unless_refused none s next = next s

abbrev pub cancel_row : ℕ → ℕ → String → String → MaintenanceWindow → MaintenanceWindow
cancel_row id cancelled_at cancelled_by reason w =
    if w.id == id && (w.cancelled_at == 0)
    then record w {
      cancelled_at = cancelled_at;
      cancelled_by = cancelled_by;
      cancellation_reason = reason;
    }
    else w

unfoldable pub cancel_rows :
    ℕ → ℕ → String → String → List MaintenanceWindow → List MaintenanceWindow
cancel_rows id cancelled_at cancelled_by reason [] = []
cancel_rows id cancelled_at cancelled_by reason (w ∷ ws) =
    cancel_row id cancelled_at cancelled_by reason w
    ∷ cancel_rows id cancelled_at cancelled_by reason ws

-- `trim` is `strings.TrimSpace`, `clock` is `time.Now()`. Arguments are checked before the database
-- is asked.
unfoldable pub add_maintenance_window :
    Statements → (String → String) → ℕ → MaintenanceWindow → Store → Store × Fallible StoreError ℕ
unfolding check_monitor_state check_overlap insert_window
add_maintenance_window e trim clock w s =
    let added = unless_refused (check_monitor_state e.exists_db w s) s (λ s.
      let seen = e.before_overlap s in
      unless_refused (check_overlap e.overlap_db w seen) seen
        (λ seen. insert_window e.insert_db clock w (e.before_insert seen))) in
    if is_valid_window trim w then added else (s, err invalid)

-- The query that tells why no row was updated (`rows == 0` of the source).
abbrev pub not_cancelled : Db → ℕ → Store → Store × Fallible StoreError (Unit {0})
not_cancelled broken id s = (s, err database)
not_cancelled available id s =
    if is_some (find (λ w. w.id == id) s.maintenance_windows)
    then (s, err conflict)
    else (s, err not_found)

-- One UPDATE, and that query on what the store is by then.
unfoldable pub cancel_window :
    Db
    → Db
    → (Store → Store)
    → ℕ
    → ℕ
    → String
    → String
    → Store
    → Store × Fallible StoreError (Unit {0})
unfolding cancel_rows
cancel_window broken exists_db meanwhile id at cancelled_by reason s = (s, err database)
cancel_window available exists_db meanwhile id at cancelled_by reason s =
    if is_some (find (λ w. w.id == id && (w.cancelled_at == 0)) s.maintenance_windows)
    then (
      record s {
        maintenance_windows = cancel_rows id at cancelled_by reason s.maintenance_windows;
      },
      ok tt,
    )
    else not_cancelled exists_db id (meanwhile s)

unfoldable pub cancel_maintenance_window :
    Db
    → Db
    → (Store → Store)
    → (String → String)
    → ℕ
    → ℕ
    → ℕ
    → String
    → String
    → Store
    → Store × Fallible StoreError (Unit {0})
unfolding cancel_window
cancel_maintenance_window update_db exists_db meanwhile trim clock id cancelled_at cancelled_by
      reason s =
    if is_empty (trim cancelled_by)
    then (s, err invalid)
    else cancel_window update_db exists_db meanwhile id
        (if cancelled_at == 0 then clock else cancelled_at) cancelled_by reason s

abbrev pub is_active_at : String → ℕ → MaintenanceWindow → Bool
is_active_at monitor_id at w =
    w.monitor_id == monitor_id
    && (w.cancelled_at == 0)
    && sql_le w.starts_at at
    && sql_lt at w.ends_at

unfoldable pub active_maintenance_window :
    Db → String → ℕ → Store → Store × Fallible StoreError (Option MaintenanceWindow)
active_maintenance_window db monitor_id at = transaction db (λ s.
    (s, ok (find (is_active_at monitor_id at) (order_by starts_before s.maintenance_windows))))
