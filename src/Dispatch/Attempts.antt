-- ===== src/Dispatch/Attempts.antt =====
-- The attempts that retryAlertNotifications of internal/app/runner.go spends.
use upag.Base.{All, ℤ, nat_eq, string_eq}
use upag.Store.{Store}
use upag.Dispatch.{Outbox}
use upag.Dispatch.Policy.{WithinPolicy, RetryWithin}

-- The notifications of the store and of the writes to repeat, and the calls of providers in retries.
abbrev pub OutboxWithin : ℤ → Outbox → Type 0
OutboxWithin max o =
    All (WithinPolicy max) o.store.notifications
    × All (λ w. All (WithinPolicy max) w.notifications) o.pending_writes
    × All (RetryWithin max) o.retried
