-- ===== src/Dispatch/Policy.antt =====
-- The notifications on record beside the policy of retries of internal/app/runner.go.
use upag.Base.{
  ℕ, suc, Option, at_least_zero, All-take, All-keep, All-order_by, ◌++◌, Bool-cases, inr, inl, ◌≤◌,
  ◌<◌, ◌≡◌, ◌⊎◌, refl, String, List, [], ◌∷◌, none, some, true, false, All, arith, ℤ, pos, negsuc,
  le_of_nat, ◌==◌, nat_eq, string_eq, if◌then◌else◌,
}
use upag.Storage.{AlertNotification, PendingAlert, Incident, MonitorState}
use upag.Store.{Store, Db, available, broken}
use upag.Store.Alerts.{
  is_due_retry, list_due_alert_notification_retries, record_pending_monitor_alert_delivery,
  record_row, deliver_rows, find_alert, insert_notifications, save_alert_notifications,
}
use upag.Alert.{
  providers, string_in_slice, NotificationRetriesConfig, SendResult, alert_notification,
}
use upag.Dispatch.{Round, Retry, Outbox, send_again, retry_notification, retry_all, due_retries}

-- A notification is counted from one up to the policy's limit, and one that may be tried again has
-- attempts left. The first attempt is always made.
abbrev pub WithinPolicy : ℤ → AlertNotification → Type 0
WithinPolicy max n =
    (0 < n.attempt_number)
    × ((n.attempt_number ≤ 1) ⊎ (n.attempt_number ≤ at_least_zero max))
    × (n.success ≡ false → n.retry_exhausted ≡ false → n.attempt_number < at_least_zero max)

abbrev pub Retriable : ℤ → AlertNotification → Type 0
Retriable max n = (0 < n.attempt_number) × (n.attempt_number < at_least_zero max)

pub le_of_nat-cases : (max : ℤ) (n : ℕ) → (le_of_nat max n ≡ true) ⊎ (n < at_least_zero max)
le_of_nat-cases (pos m) n = ground arith
le_of_nat-cases (negsuc m) n = inl refl

pub alert_notification-WithinPolicy :
    (k : ℕ) (m : String) (at n : ℕ) (policy : NotificationRetriesConfig) (r : SendResult)
    → 0 < n
    → (n ≤ 1) ⊎ (n ≤ at_least_zero policy.max_attempts)
    → WithinPolicy policy.max_attempts (alert_notification k m at n policy r)
unfolding alert_notification
alert_notification-WithinPolicy k m at n policy r h l =
    ground (arith, le_of_nat-cases policy.max_attempts n)

pub retry_notification-WithinPolicy :
    (r : Round) (lookup : AlertNotification → Incident × MonitorState) (n : AlertNotification)
    → Retriable r.policy.max_attempts n
    → WithinPolicy r.policy.max_attempts (retry_notification r lookup n)
unfolding retry_notification alert_notification
retry_notification-WithinPolicy r lookup n h =
    ground (arith, le_of_nat-cases r.policy.max_attempts (suc n.attempt_number))

pub due-Retriable :
    (max : ℤ) (rows : List AlertNotification) (now : ℕ) (n : AlertNotification)
    → WithinPolicy max n
    → is_due_retry rows now n ≡ true
    → Retriable max n
due-Retriable max rows now n h d = (h.0, h.2 (ground arith) (ground arith))

pub due_retries-Retriable :
    (max : ℤ) (db : Db) (now : ℕ) (s : Store)
    → All (WithinPolicy max) s.notifications
    → All (Retriable max) (due_retries (list_due_alert_notification_retries db now (pos 50) s).1)
unfolding list_due_alert_notification_retries
due_retries-Retriable max broken now s h = tt
due_retries-Retriable max available now s h = All-take (Retriable max) 50 _ (
    All-order_by (Retriable max) _ _ (
      All-keep (WithinPolicy max) (Retriable max) (is_due_retry s.notifications now)
        (due-Retriable max s.notifications now) s.notifications h))

pub insert-WithinPolicy :
    (max : ℤ) (ns : List AlertNotification) (s : Store)
    → All (WithinPolicy max) ns
    → All (WithinPolicy max) s.notifications
    → All (WithinPolicy max) (insert_notifications ns s).notifications
unfolding insert_notifications
insert-WithinPolicy max [] s hn h = h
insert-WithinPolicy max (n ∷ ns) s hn h =
    insert-WithinPolicy max ns
      (record s {
        notifications =
            record n {
              id = s.next_notification_id;
              attempt_number = if n.attempt_number == 0 then 1 else n.attempt_number;
            }
            ∷ s.notifications;
        next_notification_id = suc s.next_notification_id;
      })
      hn.1 (ground arith, h)

pub save-WithinPolicy :
    (max : ℤ) (db : Db) (n : AlertNotification) (s : Store)
    → WithinPolicy max n
    → All (WithinPolicy max) s.notifications
    → All (WithinPolicy max) (save_alert_notifications db (n ∷ []) s).0.notifications
unfolding save_alert_notifications
save-WithinPolicy max broken n s hn h = h
save-WithinPolicy max available n s hn h = insert-WithinPolicy max (n ∷ []) s (hn, tt) h

-- A call in a retry is of a notification with attempts left, and of its provider.
abbrev pub RetryWithin : ℤ → Retry → Type 0
RetryWithin max x = Retriable max x.of × (x.to ≡ x.of.provider)

send_again-Within :
    (max : ℤ) (r : Round) (lookup : AlertNotification → Incident × MonitorState)
    (n : AlertNotification) (o : Outbox)
    → Retriable max n
    → All (RetryWithin max) o.retried
    → All (RetryWithin max) ((send_again r lookup n).1 ++ o.retried)
unfolding send_again
send_again-Within max r lookup n o hn h =
    elim (Bool-cases (string_in_slice n.provider (providers r.senders))) [
      | inl e ↦ rw e ((hn, refl), h)
      | inr e ↦ rw e h
    ]

pub retry_all-WithinPolicy :
    (r : Round) (lookup : AlertNotification → Incident × MonitorState) (ns : List AlertNotification)
    (o : Outbox)
    → All (Retriable r.policy.max_attempts) ns
    → All (WithinPolicy r.policy.max_attempts) o.store.notifications
    → All (RetryWithin r.policy.max_attempts) o.retried
    → let o' = retry_all r lookup ns o in
      All (WithinPolicy r.policy.max_attempts) o'.store.notifications
      × (o'.pending_writes ≡ o.pending_writes)
      × All (RetryWithin r.policy.max_attempts) o'.retried
unfolding retry_all
retry_all-WithinPolicy r lookup [] o hn h k = (h, refl, k)
retry_all-WithinPolicy r lookup (n ∷ ns) o hn h k =
    retry_all-WithinPolicy r lookup ns
      (record o {
        store =
            (save_alert_notifications (r.retry_db n.id) (retry_notification r lookup n ∷ [])
              o.store).0;
        retried = (send_again r lookup n).1 ++ o.retried;
      })
      hn.1
      (save-WithinPolicy r.policy.max_attempts (r.retry_db n.id) (retry_notification r lookup n)
        o.store (retry_notification-WithinPolicy r lookup n hn.0) h)
      (send_again-Within r.policy.max_attempts r lookup n o hn.0 k)

pub record_row-WithinPolicy :
    (max : ℤ) (ns : List AlertNotification) (at : ℕ) (found : Option PendingAlert) (s : Store)
    → All (WithinPolicy max) ns
    → All (WithinPolicy max) s.notifications
    → All (WithinPolicy max) (record_row ns at found s).0.notifications
record_row-WithinPolicy max ns at none s hn h = h
record_row-WithinPolicy max ns at (some p) s hn h = ground (
  arith,
  insert-WithinPolicy max ns (record s { pending_alerts = deliver_rows p.id at s.pending_alerts })
      hn h,
)

pub records-WithinPolicy :
    (max : ℤ) (db : Db) (id : ℕ) (ns : List AlertNotification) (at : ℕ) (s : Store)
    → All (WithinPolicy max) ns
    → All (WithinPolicy max) s.notifications
    → All (WithinPolicy max) (record_pending_monitor_alert_delivery db id ns at s).0.notifications
unfolding record_pending_monitor_alert_delivery
records-WithinPolicy max broken id ns at s hn h = h
records-WithinPolicy max available id ns at s hn h =
    record_row-WithinPolicy max ns at (find_alert id s.pending_alerts) s hn h
