-- ===== src/Lib.antt =====
-- upag watches HTTP endpoints. A runner (internal/app/runner.go) probes every monitor in a
-- goroutine of its own, makes a state of the result (internal/monitor, internal/state,
-- internal/checker), checks with an observer whether the host itself is connected
-- (internal/observer), stores probes, states, incidents and alerts (internal/storage), and sends
-- the alerts to the providers (internal/alert). This library models these parts and proves what
-- they promise.
--
-- Base: names, lists, sorting, signed numbers and errors that all parts share. State, Failure,
-- Storage: internal/state/state.go, the failure kinds, and the records and rows of
-- internal/storage/storage.go; a time is a count of nanoseconds since Go's zero time, a status text
-- a constructor. Checker: results and messages of internal/checker/checker.go, and in Checker.Check
-- its Check, with the HTTP exchange as an argument. Monitor: Evaluate of
-- internal/monitor/transition.go. Observer: internal/observer/observer.go, with the answer of the
-- network to each sentinel as an argument.
--
-- Store: the SQLite store. A table is a list of rows, newest first, with a counter for its ids; a
-- method that writes runs in one transaction or statement, which happens whole or fails, as an
-- argument of type Db says, and one that reads several tables reads them at one instant.
-- AddMaintenanceWindow and CancelMaintenanceWindow are the exceptions: their statements are
-- separate, each with its own Db, and what others do to the store in between is an argument.
-- Intervals is saveStatusInterval, Probes the saving of probes with the queueing and cancelling of
-- alerts, Alerts the claims, deliveries and retries, Windows the maintenance windows,
-- ObserverChecks the observer's tables, and Rollups what RollupAndPruneProbeResults sums up and
-- deletes, with the checks that listUptimeWindowStats counts. Projected is ListStatusIntervals with
-- projectStatusIntervals, which cuts the maintenance windows out of the stored intervals. Backfill
-- is EnsureStatusIntervalsBackfilled, and Uptime is ListUptimeStats and ListDailyUptimeStats of one
-- monitor, which read the tables and hand them to Availability. Deleted is DeleteStatesExcept, and
-- Listings the queries for the control API and the status page. SqlTime is formatTime with the
-- order that SQLite gives to its texts, and Availability the arithmetic of downtime.
--
-- Alert: the fan-out to the providers of internal/alert/email.go and the notifications of the
-- runner. Dispatch: dispatchPendingMonitorAlerts and retryAlertNotifications; rounds exclude one
-- another by the runner's mutex, while probes of other goroutines are interleaved as actions of a
-- run. Two lists that no code reads note what is sent: the alerts handed to all the providers, and
-- the calls of single providers in retries. Transfer: CheckTransfer and the transfer guard of the
-- runner, with its restoration from stored samples. Probe: the runner's probe of one monitor, from
-- the check and its retries over the suppressions and the maintenance to the stored state and the
-- alert. ObserverProbe: probeObserver, which checks, stores and announces the observer. Workers:
-- the map of goroutines that applyConfig keeps, for any type of configuration with an equality.
-- Config: internal/config/config.go. Decoded is what its sections note when they are decoded,
-- Retention the units of days and years, Schema and Sections the check of the YAML tree, Defaults
-- is ApplyDefaults, Validate and its children Validate, with Valid for the propositions that its
-- tests stand for; Load is Parse, and Runtime hands sections to the alerts and the observer. The
-- YAML parser, url.Parse, regexp.Compile, net.SplitHostPort and time.ParseDuration are arguments.
-- Examples: sample data, and the theorems applied to it.
--
-- Numbers of Go that may be negative where the source tests for it are integers, all others natural
-- numbers; counters and times stay far below the bounds of 64 bits and are unbounded here, but the
-- product in Config.Retention wraps around as that of int64 does. Every loop is a recursion over a
-- list or over a count that the caller gives, so no fuel is needed.
--
-- Not modelled: the senders, the HTTP exchanges and the database driver, which are arguments or
-- outcomes; the PostgreSQL backend, whose contract is the same; migrations, the control API, the
-- status page and the command line.
pub mod Base
pub mod State
pub mod Failure
pub mod Storage
pub mod Checker
pub mod Monitor
pub mod Observer
pub mod Availability
pub mod SqlTime
pub mod Store
pub mod Alert
pub mod Dispatch
pub mod Transfer
pub mod Probe
pub mod ObserverProbe
pub mod Workers
pub mod Config
pub mod Examples
