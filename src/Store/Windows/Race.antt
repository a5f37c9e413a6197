-- ===== src/Store/Windows/Race.antt =====
-- Two calls of `AddMaintenanceWindow` at the same time.
use upag.Base.{
  ℕ, suc, ◌+◌, ◌≡◌, refl, String, ◌∷◌, none, true, false, any, count, ok, arith, ◌==◌, nat_eq,
  string_eq, if◌then◌else◌,
}
use upag.Storage.{MaintenanceWindow}
use upag.Store.Defs.{Store, available, find_state}
use upag.Store.Windows.{
  Statements, overlaps, is_some, is_valid_window, check_monitor_state, check_overlap,
  add_maintenance_window, is_active_at,
}
use upag.Store.Windows.Disjoint.{alone, is_some-find}

-- The window may be added: its arguments are valid, its monitor is stored, and no window that stands
-- overlaps it.
abbrev pub MayAdd : (String → String) → MaintenanceWindow → Store → Type 0
MayAdd trim w s =
    (is_valid_window trim w ≡ true)
    × (is_some (find_state w.monitor_id s.states) ≡ true)
    × (any (overlaps w.monitor_id w.starts_at w.ends_at) s.maintenance_windows ≡ false)

abbrev pub inserted : ℕ → MaintenanceWindow → Store → Store
inserted clock w s = record s {
  maintenance_windows =
      record w {
        id = s.next_window_id;
        created_at = if w.created_at == 0 then clock else w.created_at;
      }
      ∷ s.maintenance_windows;
  next_window_id = suc s.next_window_id;
}

refuses_none :
    (trim : String → String) (w : MaintenanceWindow) (s : Store)
    → MayAdd trim w s
    → (check_monitor_state available w s ≡ none) × (check_overlap available w s ≡ none)
unfolding check_monitor_state check_overlap
refuses_none trim w s (valid, known, free) =
    ground (
      arith,
      known,
      is_some-find (overlaps w.monitor_id w.starts_at w.ends_at) s.maintenance_windows,
    )

-- Between the check for an overlap and the insertion, others do `meanwhile`.
abbrev pub interrupted : (Store → Store) → Statements
interrupted meanwhile = record (alone available available available) { before_insert = meanwhile }

add_lem :
    (trim : String → String) (clock : ℕ) (w : MaintenanceWindow) (meanwhile : Store → Store)
    (s : Store)
    → MayAdd trim w s
    → add_maintenance_window (interrupted meanwhile) trim clock w s
      ≡ (inserted clock w (meanwhile s), ok (meanwhile s).next_window_id)
unfolding add_maintenance_window
add_lem trim clock w meanwhile s h =
    let passed = refuses_none trim w s h in rw (h.0, passed.0, passed.1)

-- Two calls that add windows of which each may be added to the store, the one while the other is
-- between its check for an overlap and its insertion: both report success, and at every instant that
-- lies in both windows two more windows of the monitor are active.
pub add_race :
    (trim : String → String) (clock other_clock : ℕ) (w v : MaintenanceWindow) (s : Store)
    (monitor_id : String) (at : ℕ)
    → MayAdd trim w s
    → MayAdd trim v s
    → is_active_at monitor_id at w ≡ true
    → is_active_at monitor_id at v ≡ true
    → let other = λ (s : Store).
      add_maintenance_window (alone available available available) trim other_clock v s in
      let (s', done) = add_maintenance_window (interrupted (λ s. (other s).0)) trim clock w s in
      ((other s).1 ≡ ok s.next_window_id)
      × (done ≡ ok (suc s.next_window_id))
      × (count (is_active_at monitor_id at) s'.maintenance_windows
          ≡ count (is_active_at monitor_id at) s.maintenance_windows + 2)
add_race trim clock other_clock w v s monitor_id at hw hv aw av =
    let other = add_maintenance_window (alone available available available) trim other_clock v in
    rw (add_lem trim clock w (λ s. (other s).0) s hw, add_lem trim other_clock v (λ s. s) s hv)
      (refl, refl, rw (aw, av) (ground arith))
