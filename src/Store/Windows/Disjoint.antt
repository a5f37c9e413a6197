-- ===== src/Store/Windows/Disjoint.antt =====
-- Overlap between the maintenance windows of one monitor.
use upag.Base.{
  Option, none, some, Fallible, ℕ, ◌≤◌, ◌≡◌, refl, String, List, [], ◌∷◌, Bool, true, false, any,
  find, count, eq_iff, arith, ◌==◌, nat_eq, string_eq, if◌then◌else◌, Bool-cases, inl, inr,
}
use upag.SqlTime.Order.{sql_lt_of_le_lt}
use upag.Storage.{MaintenanceWindow}
use upag.Store.Defs.{StoreError, Store, Db, available, broken}
use upag.Store.Windows.{
  overlaps, is_some, cancel_row, cancel_rows, Statements, check_monitor_state, check_overlap,
  insert_window, unless_refused, is_valid_window, cancel_window, add_maintenance_window,
  cancel_maintenance_window, is_active_at,
}

-- A window that stands overlaps no older window of its monitor that stands.
abbrev pub Apart : List MaintenanceWindow → Type 0
Apart [] = Unit
Apart (w ∷ ws) =
    (w.cancelled_at ≡ 0 → any (overlaps w.monitor_id w.starts_at w.ends_at) ws ≡ false) × Apart ws

pub is_some-find {ℓ} : {A : Type ℓ} (p : A → Bool) (xs : List A) → is_some (find p xs) ≡ any p xs
is_some-find p [] = refl
is_some-find p (x ∷ xs) = ground (arith, is_some-find p xs)

cancel_row-overlaps :
    (id at : ℕ) (by reason m : String) (s e : ℕ) (w : MaintenanceWindow)
    → overlaps m s e w ≡ false
    → overlaps m s e (cancel_row id at by reason w) ≡ false
cancel_row-overlaps id at by reason m s e w h = ground arith

cancel_rows-overlaps :
    (id at : ℕ) (by reason m : String) (s e : ℕ) (ws : List MaintenanceWindow)
    → any (overlaps m s e) ws ≡ false
    → any (overlaps m s e) (cancel_rows id at by reason ws) ≡ false
unfolding cancel_rows
cancel_rows-overlaps id at by reason m s e [] h = refl
cancel_rows-overlaps id at by reason m s e (w ∷ ws) h = ground (
  arith,
  cancel_row-overlaps id at by reason m s e w,
  cancel_rows-overlaps id at by reason m s e ws,
)

cancel_rows-Apart :
    (id at : ℕ) (by reason : String) (ws : List MaintenanceWindow)
    → Apart ws
    → Apart (cancel_rows id at by reason ws)
unfolding cancel_rows
cancel_rows-Apart id at by reason [] h = tt
cancel_rows-Apart id at by reason (w ∷ ws) h = ground (
  arith,
  cancel_rows-overlaps id at by reason w.monitor_id w.starts_at w.ends_at ws,
  cancel_rows-Apart id at by reason ws h.1,
)

-- Nobody else changes the store between the statements of a call.
abbrev pub alone : Db → Db → Db → Statements
alone exists_db overlap_db insert_db = record {
  exists_db = exists_db;
  overlap_db = overlap_db;
  insert_db = insert_db;
  before_overlap = λ s. s;
  before_insert = λ s. s;
}

insert_window-Apart :
    (overlap_db insert_db : Db) (clock : ℕ) (w : MaintenanceWindow) (s : Store)
    → Apart s.maintenance_windows
    → Apart
        (unless_refused
          (check_overlap overlap_db w s)
          s
          (insert_window insert_db clock w)).0.maintenance_windows
unfolding check_overlap insert_window
insert_window-Apart broken insert_db clock w s h = h
insert_window-Apart available broken clock w s h = ground arith
insert_window-Apart available available clock w s h =
    ground (arith, is_some-find (overlaps w.monitor_id w.starts_at w.ends_at) s.maintenance_windows)

unless_refused-Apart :
    (refused : Option StoreError) (s : Store) (next : Store → Store × Fallible StoreError ℕ)
    → Apart s.maintenance_windows
    → Apart (next s).0.maintenance_windows
    → Apart (unless_refused refused s next).0.maintenance_windows
unless_refused-Apart none s next h k = k
unless_refused-Apart (some e) s next h k = h

add-Apart :
    (exists_db overlap_db insert_db : Db) (trim : String → String) (clock : ℕ)
    (w : MaintenanceWindow) (s : Store)
    → Apart s.maintenance_windows
    → Apart
        (add_maintenance_window
          (alone exists_db overlap_db insert_db)
          trim
          clock
          w
          s).0.maintenance_windows
unfolding add_maintenance_window
add-Apart exists_db overlap_db insert_db trim clock w s h =
    elim (Bool-cases (is_valid_window trim w)) [
      | inl e ↦ rw e (
          unless_refused-Apart (check_monitor_state exists_db w s) s
            (λ s. unless_refused (check_overlap overlap_db w s) s (insert_window insert_db clock w))
            h (insert_window-Apart overlap_db insert_db clock w s h))
      | inr e ↦ rw e h
    ]

cancel_window-Apart :
    (update_db exists_db : Db) (id at : ℕ) (by reason : String) (s : Store)
    → Apart s.maintenance_windows
    → Apart (cancel_window update_db exists_db (λ s. s) id at by reason s).0.maintenance_windows
unfolding cancel_window
cancel_window-Apart broken exists_db id at by reason s h = h
cancel_window-Apart available broken id at by reason s h =
    ground (arith, cancel_rows-Apart id at by reason s.maintenance_windows h)
cancel_window-Apart available available id at by reason s h =
    ground (arith, cancel_rows-Apart id at by reason s.maintenance_windows h)

-- The two calls that change the windows, with what the database does to each of their statements.
pub data Call : Type 0 where
  adds : Db → Db → Db → ℕ → MaintenanceWindow → Call
  cancels : Db → Db → ℕ → ℕ → ℕ → String → String → Call

module _ (trim : String → String) where
  abbrev pub step : Call → Store → Store
  step (adds exists_db overlap_db insert_db clock w) s =
      (add_maintenance_window (alone exists_db overlap_db insert_db) trim clock w s).0
  step (cancels update_db exists_db clock id at by reason) s =
      (cancel_maintenance_window update_db exists_db (λ s. s) trim clock id at by reason s).0

  abbrev pub run : List Call → Store → Store
  run [] s = s
  run (c ∷ cs) s = run cs (step c s)

  step-Apart :
      (c : Call) (s : Store) → Apart s.maintenance_windows → Apart (step c s).maintenance_windows
  unfolding cancel_maintenance_window
  step-Apart (adds exists_db overlap_db insert_db clock w) s h =
      add-Apart exists_db overlap_db insert_db trim clock w s h
  step-Apart (cancels update_db exists_db clock id at by reason) s h =
      let stamp = if at == 0 then clock else at in
      ground (arith, cancel_window-Apart update_db exists_db id stamp by reason s h)

  run-Apart :
      (cs : List Call) (s : Store)
      → Apart s.maintenance_windows
      → Apart (run cs s).maintenance_windows
  run-Apart [] s h = h
  run-Apart (c ∷ cs) s h = run-Apart cs (step c s) (step-Apart c s h)

both_active_overlap :
    (m : String) (at : ℕ) (w v : MaintenanceWindow)
    → is_active_at m at w ≡ true
    → is_active_at m at v ≡ true
    → overlaps w.monitor_id w.starts_at w.ends_at v ≡ true
both_active_overlap m at w v h k = ground (
  arith,
  sql_lt_of_le_lt w.starts_at at v.ends_at,
  sql_lt_of_le_lt v.starts_at at w.ends_at,
  eq_iff w.monitor_id m,
  eq_iff v.monitor_id m,
  eq_iff v.monitor_id w.monitor_id,
)

none_active :
    (m : String) (at : ℕ) (w : MaintenanceWindow) (ws : List MaintenanceWindow)
    → is_active_at m at w ≡ true
    → any (overlaps w.monitor_id w.starts_at w.ends_at) ws ≡ false
    → count (is_active_at m at) ws ≡ 0
none_active m at w [] h k = refl
none_active m at w (v ∷ vs) h k = elim (Bool-cases (is_active_at m at v)) [
  | inl active ↦ ground (arith, both_active_overlap m at w v h active)
  | inr quiet ↦ rw quiet (none_active m at w vs h (ground arith))
]

active-le-one :
    (m : String) (at : ℕ) (ws : List MaintenanceWindow)
    → Apart ws
    → count (is_active_at m at) ws ≤ 1
active-le-one m at [] h = omega arith
active-le-one m at (w ∷ ws) h = elim (Bool-cases (is_active_at m at w)) [
  | inl active ↦ rw active (omega (arith, none_active m at w ws active (h.0 (ground arith))))
  | inr quiet ↦ rw quiet (active-le-one m at ws h.1)
]

-- Whatever windows are added and cancelled by calls that are made one after the other, no call
-- between the statements of another, and whatever statement fails: at every instant one window of a
-- monitor is active at most, if none overlapped before.
pub run-active-le-one :
    (trim : String → String) (cs : List Call) (s : Store) (monitor_id : String) (at : ℕ)
    → Apart s.maintenance_windows
    → count (is_active_at monitor_id at) (run trim cs s).maintenance_windows ≤ 1
run-active-le-one trim cs s monitor_id at h =
    active-le-one monitor_id at (run trim cs s).maintenance_windows (run-Apart trim cs s h)
