-- ===== src/Store/Projected/Shown.antt =====
-- What `projectStatusIntervals` shows of an instant, beside the stored intervals and the windows.
use upag.Base.{
  ℕ, String, List, Bool, false, ◌&&◌, any, ltb, leb, ◌==◌, nat_eq, string_eq, if◌then◌else◌,
}
use upag.State.{Status, maintenance}
use upag.Storage.{MaintenanceWindow, StatusInterval}
use upag.Store.Projected.{end_at}
use upag.Store.Projected.Segments.{covers}

-- Whether a window of the monitor that is not cancelled holds at the instant.
abbrev pub in_window : ℕ → String → List MaintenanceWindow → Bool
in_window t id windows =
    any (λ w. (w.cancelled_at == 0) && (w.monitor_id == id) && covers t w) windows

-- Whether a stored interval holds at the instant, and what it tells then passes the test.
abbrev pub recorded :
    (String → Status → Bool → Bool) → ℕ → ℕ → List MaintenanceWindow → StatusInterval → Bool
recorded q t now windows i =
    (if in_window t i.monitor_id windows
      then q i.monitor_id maintenance false
      else q i.monitor_id i.status i.downtime)
    && (leb i.started_at t && ltb t (end_at now i))
