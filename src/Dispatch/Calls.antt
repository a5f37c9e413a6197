-- ===== src/Dispatch/Calls.antt =====
-- The calls of single providers that retryAlertNotifications of internal/app/runner.go makes.
use upag.Base.{
  ℕ, ◌≡◌, ◌≢◌, refl, ◌∙◌, List, [], ◌∷◌, ◌++◌, Bool, true, false, All, All-take, All-keep,
  All-order_by, Bool-cases, inl, inr, arith, ok, err, Fallible, pos, nat_eq, string_eq,
}
use upag.Storage.{AlertNotification, Incident, MonitorState}
use upag.Store.{Store, StoreError, Db, available, broken}
use upag.Store.Alerts.{
  save_alert_notifications, DueAlert, is_due_retry, list_due_alert_notification_retries,
  list_due_pending_monitor_alerts, claim_pending_monitor_alert,
  record_pending_monitor_alert_delivery,
}
use upag.Alert.{providers, string_in_slice}
use upag.Dispatch.{
  Round, Retry, Outbox, PendingWrite, retry_writes, delivery_of, recorded, after_claim, send_due,
  listed, dispatch_pending_monitor_alerts, send_again, retry_notification, retry_all, due_retries,
  retry_alert_notifications,
}

-- A notification that failed, is not exhausted and has a time for its retry.
abbrev pub IsFailed : AlertNotification → Type 0
IsFailed n = (n.success ≡ false) × (n.retry_exhausted ≡ false) × (n.next_retry_at ≢ 0)

-- A call for such a notification, of its provider.
abbrev pub IsRetry : Retry → Type 0
IsRetry x = IsFailed x.of × (x.to ≡ x.of.provider)

recorded-retried :
    (w : PendingWrite) (res : Store × Fallible StoreError (Unit {0})) (o : Outbox)
    → (recorded w res o).retried ≡ o.retried
recorded-retried w (s, ok u) o = refl
recorded-retried w (s, err e) o = refl

after_claim-retried :
    (r : Round) (d : DueAlert) (res : Store × Fallible StoreError Bool) (o : Outbox)
    → (after_claim r d res o).retried ≡ o.retried
after_claim-retried r d (s, ok true) o =
    let w = delivery_of r d in
    recorded-retried w
      (record_pending_monitor_alert_delivery (r.record_db w.id) w.id w.notifications w.delivered_at
        s)
      (record o { store = s; sent = w.id ∷ o.sent })
after_claim-retried r d (s, ok false) o = refl
after_claim-retried r d (s, err e) o = refl

send_due-retried :
    (r : Round) (ds : List DueAlert) (o : Outbox) → (send_due r ds o).retried ≡ o.retried
unfolding send_due
send_due-retried r [] o = refl
send_due-retried r (d ∷ ds) o =
    let res = claim_pending_monitor_alert (r.claim_db d.alert.id) d.alert.id o.store in
    send_due-retried r ds (after_claim r d res o) ∙ after_claim-retried r d res o

-- A round of sending makes no retry.
pub dispatch-retried :
    (r : Round) (o : Outbox) → (dispatch_pending_monitor_alerts r o).retried ≡ o.retried
unfolding dispatch_pending_monitor_alerts
dispatch-retried r o =
    let (s, writes) = retry_writes r o.pending_writes o.store in
    let (s', due) = list_due_pending_monitor_alerts r.list_db r.now (pos 50) s in
    send_due-retried r (listed due) (record o { store = s'; pending_writes = writes })

All-any : {A : Type 0} → (xs : List A) → All (λ _. Unit {0}) xs
All-any [] = tt
All-any (x ∷ xs) = (tt, All-any xs)

due-IsFailed :
    (rows : List AlertNotification) (now : ℕ) (n : AlertNotification)
    → Unit {0}
    → is_due_retry rows now n ≡ true
    → IsFailed n
due-IsFailed rows now n h d = ground arith

due_retries-IsFailed :
    (db : Db) (now : ℕ) (s : Store)
    → All IsFailed (due_retries (list_due_alert_notification_retries db now (pos 50) s).1)
unfolding list_due_alert_notification_retries
due_retries-IsFailed broken now s = tt
due_retries-IsFailed available now s = All-take IsFailed 50 _ (
    All-order_by IsFailed _ _ (
      All-keep (λ _. Unit {0}) IsFailed (is_due_retry s.notifications now)
        (due-IsFailed s.notifications now) s.notifications (All-any s.notifications)))

send_again-IsRetry :
    (r : Round) (lookup : AlertNotification → Incident × MonitorState) (n : AlertNotification)
    (xs : List Retry)
    → IsFailed n
    → All IsRetry xs
    → All IsRetry ((send_again r lookup n).1 ++ xs)
unfolding send_again
send_again-IsRetry r lookup n xs hn h =
    elim (Bool-cases (string_in_slice n.provider (providers r.senders))) [
      | inl e ↦ rw e ((hn, refl), h)
      | inr e ↦ rw e h
    ]

retry_all-IsRetry :
    (r : Round) (lookup : AlertNotification → Incident × MonitorState) (ns : List AlertNotification)
    (o : Outbox)
    → All IsFailed ns
    → All IsRetry o.retried
    → All IsRetry (retry_all r lookup ns o).retried
unfolding retry_all
retry_all-IsRetry r lookup [] o hn h = h
retry_all-IsRetry r lookup (n ∷ ns) o hn h =
    retry_all-IsRetry r lookup ns
      (record o {
        store =
            (save_alert_notifications (r.retry_db n.id) (retry_notification r lookup n ∷ [])
              o.store).0;
        retried = (send_again r lookup n).1 ++ o.retried;
      })
      hn.1 (send_again-IsRetry r lookup n o.retried hn.0 h)

-- A round of sending and retrying adds calls of this kind only.
pub retry_alert_notifications-IsRetry :
    (r : Round) (lookup : AlertNotification → Incident × MonitorState) (o : Outbox)
    → All IsRetry o.retried
    → All IsRetry (retry_alert_notifications r lookup o).retried
unfolding retry_alert_notifications
retry_alert_notifications-IsRetry r lookup o h =
    let o' = dispatch_pending_monitor_alerts r o in
    let (s, due) = list_due_alert_notification_retries r.list_db r.now (pos 50) o'.store in
    retry_all-IsRetry r lookup (due_retries due) (record o' { store = s })
      (due_retries-IsFailed r.list_db r.now o'.store) (rw (dispatch-retried r o) h)
