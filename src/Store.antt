-- ===== src/Store.antt =====
-- internal/storage/storage.go: the SQLite store. A table is a list of rows, the newest first, and
-- a counter gives the ids of AUTOINCREMENT. A method runs in one transaction (or is one
-- statement): it either takes effect whole, or fails and changes nothing.
mod Defs
pub mod Intervals
pub mod Probes
pub mod Alerts
pub mod Windows
pub mod Rollups
pub mod Projected
pub mod Uptime
pub mod Backfill
pub mod Deleted
pub mod Listings
pub mod ObserverChecks
pub use Defs.{Store, StoreError, database, invalid, not_found, conflict, not_claimed}
pub use Defs.{Db, available, broken, transaction, status_of}
unfoldable pub use Defs.{find_state, find_alert_state}
