-- ===== src/Store/Windows/Active.antt =====
-- The query for the maintenance window in force at an instant.
use upag.Base.{ℕ, ◌+◌, ◌*◌, ◌<◌, ◌≡◌, true, false, eq_iff, arith, nat_eq, string_eq}
use upag.SqlTime.{sql_le, nanos_per_second}
use upag.SqlTime.Order.{SecondBefore, sql_lt_of_SecondBefore, sql_lt_reversed}
use upag.Storage.{MaintenanceWindow}
use upag.Store.Windows.{is_active_at}

-- A window that stands is in force, by whole seconds, from its start to before its end.
pub active_within :
    (w : MaintenanceWindow) (at : ℕ)
    → w.cancelled_at ≡ 0
    → (SecondBefore w.starts_at at
        → SecondBefore at w.ends_at
        → is_active_at w.monitor_id at w ≡ true)
      × (SecondBefore at w.starts_at → is_active_at w.monitor_id at w ≡ false)
      × (SecondBefore w.ends_at at → is_active_at w.monitor_id at w ≡ false)
unfolding sql_le
active_within w at h = ground (
  arith,
  sql_lt_of_SecondBefore w.starts_at at,
  sql_lt_of_SecondBefore at w.ends_at,
  sql_lt_of_SecondBefore at w.starts_at,
  sql_lt_of_SecondBefore w.ends_at at,
  eq_iff w.monitor_id w.monitor_id,
)

-- A window that ends at a whole second is still in force at every later instant of that second.
pub active_past_end :
    (w : MaintenanceWindow) (s f : ℕ)
    → w.cancelled_at ≡ 0
    → w.ends_at ≡ s * nanos_per_second
    → 0 < s
    → 0 < f
    → f < nanos_per_second
    → SecondBefore w.starts_at (s * nanos_per_second)
    → is_active_at w.monitor_id (s * nanos_per_second + f) w ≡ true
unfolding sql_le
active_past_end w s f hc he hs hf h before = ground (
  arith,
  sql_lt_reversed s f hs hf h,
  sql_lt_of_SecondBefore w.starts_at (s * nanos_per_second + f),
  eq_iff w.monitor_id w.monitor_id,
)
