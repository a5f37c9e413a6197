-- ===== src/Probe/Alerts.antt =====
-- What the queue of alerts keeps while the runner probes and sends.
use upag.Base.{ℕ, ◌≤◌, ◌≡◌, nat_eq, List, [], ◌∷◌, Option, none, some, All, arith}
use upag.Storage.{MonitorState, Incident, PendingAlert, AlertNotification}
use upag.Store.{Store, Db, available, broken}
use upag.Store.Probes.Queue.{IsCurrent, Current, save_probe_and_state-Current}
use upag.Store.Alerts.{
  claim_row, claim_rows, claim_pending_monitor_alert, deliver_rows, record_row, find_alert,
  record_pending_monitor_alert_delivery,
}
use upag.Store.Alerts.Lifecycle.{InOrder}
use upag.Dispatch.{Outbox, Round, retry_alert_notifications}
use upag.Dispatch.Once.{SentOnce, times_sent, save_probe-SentOnce, dispatch-SentOnce}
use upag.Dispatch.Calls.{IsRetry, dispatch-retried, retry_alert_notifications-IsRetry}
use upag.Dispatch.Steps.{IsKept as IsKeptBySending, dispatch-keeps}
use upag.Probe.{Probing, Settings, MonitorConfig, World, probe}
use upag.Probe.Steps.{IsKept, probe-keeps}
use upag.Probe.Tables.{
  save_samples_tables, save_result_tables, notifications_tables, retries_tables,
}

claim-Current :
    (id : ℕ) (states states' : List MonitorState) (ps : List PendingAlert)
    → All (IsCurrent states) ps
    → All (IsCurrent states) (claim_rows id states' ps)
unfolding claim_rows claim_row
claim-Current id states states' [] h = tt
claim-Current id states states' (p ∷ ps) h = ground (arith, claim-Current id states states' ps h.1)

deliver-Current :
    (id at : ℕ) (states : List MonitorState) (ps : List PendingAlert)
    → All (IsCurrent states) ps
    → All (IsCurrent states) (deliver_rows id at ps)
unfolding deliver_rows
deliver-Current id at states [] h = tt
deliver-Current id at states (p ∷ ps) h = ground (arith, deliver-Current id at states ps h.1)

record_row-Current :
    (ns : List AlertNotification) (at : ℕ) (found : Option PendingAlert) (s : Store)
    → Current s
    → Current (record_row ns at found s).0
record_row-Current ns at none s h = h
record_row-Current ns at (some p) s h = ground (
  arith,
  deliver-Current p.id at s.states s.pending_alerts h,
  notifications_tables ns (record s { pending_alerts = deliver_rows p.id at s.pending_alerts }),
)

claim_call-Current :
    (db : Db) (id : ℕ) (s : Store) → Current s → Current (claim_pending_monitor_alert db id s).0
unfolding claim_pending_monitor_alert
claim_call-Current broken id s h = h
claim_call-Current available id s h = claim-Current id s.states s.states s.pending_alerts h

record_call-Current :
    (db : Db) (id : ℕ) (ns : List AlertNotification) (at : ℕ) (s : Store)
    → Current s
    → Current (record_pending_monitor_alert_delivery db id ns at s).0
unfolding record_pending_monitor_alert_delivery
record_call-Current broken id ns at s h = h
record_call-Current available id ns at s h =
    record_row-Current ns at (find_alert id s.pending_alerts) s h

sending-Current : IsKeptBySending Current
sending-Current = record { claims = claim_call-Current; records = record_call-Current }

abbrev CurrentOutbox : Outbox → Type 0
CurrentOutbox o = Current o.store

probing-Current : IsKept CurrentOutbox
probing-Current = record {
  results = λ db row o h.
      let (states, alerts, _, _) = save_result_tables db row o.store in rw (states, alerts) h;
  probes = λ db row next i due o h. save_probe_and_state-Current db row next i due o.store h;
  samples = λ db cs o h.
      let (states, alerts, _, _) = save_samples_tables db cs o.store in rw (states, alerts) h;
  rounds = λ r o h. dispatch-keeps Current sending-Current r o h;
}

probing-SentOnce : (k : ℕ) → IsKept (SentOnce k)
probing-SentOnce k = record {
  results = λ db row o h.
      let (_, alerts, next, _) = save_result_tables db row o.store in rw (alerts, next) h;
  probes = λ db row next i due o h. save_probe-SentOnce k db row next i due o h;
  samples = λ db cs o h.
      let (_, alerts, next, _) = save_samples_tables db cs o.store in rw (alerts, next) h;
  rounds = λ r o h. dispatch-SentOnce k r o h;
}

-- What the runner does: a monitor is probed, or the ticker of retries fires.
pub data Action : Type 0 where
  probes_once : Probing → Settings → MonitorConfig → Action
  retries : Round → (AlertNotification → Incident × MonitorState) → Action

abbrev pub act : Action → World → World
act (probes_once e cfg mon) w = probe e cfg mon w
act (retries r lookup) w = record w { outbox = retry_alert_notifications r lookup w.outbox }

abbrev pub run : List Action → World → World
run [] w = w
run (a ∷ as') w = run as' (act a w)

act-Current : (a : Action) (w : World) → Current w.outbox.store → Current (act a w).outbox.store
act-Current (probes_once e cfg mon) w h = probe-keeps CurrentOutbox probing-Current e cfg mon w h
act-Current (retries r lookup) w h =
    let (alerts, states, _, _) = retries_tables r lookup w.outbox in
    rw (alerts, states) (dispatch-keeps Current sending-Current r w.outbox h)

-- While the runner probes its monitors and sends alerts, in any order and with any failures, every
-- alert that waits is about the status that its monitor has, if that was so at the start.
pub run-Current :
    (as' : List Action) (w : World) → Current w.outbox.store → Current (run as' w).outbox.store
run-Current [] w h = h
run-Current (a ∷ as') w h = run-Current as' (act a w) (act-Current a w h)

act-SentOnce : (k : ℕ) (a : Action) (w : World) → SentOnce k w.outbox → SentOnce k (act a w).outbox
act-SentOnce k (probes_once e cfg mon) w h =
    probe-keeps (SentOnce k) (probing-SentOnce k) e cfg mon w h
act-SentOnce k (retries r lookup) w h =
    let (alerts, _, next, sent) = retries_tables r lookup w.outbox in
    rw (alerts, next, sent) (dispatch-SentOnce k r w.outbox h)

run-SentOnce :
    (k : ℕ) (as' : List Action) (w : World) → SentOnce k w.outbox → SentOnce k (run as' w).outbox
run-SentOnce k [] w h = h
run-SentOnce k (a ∷ as') w h = run-SentOnce k as' (act a w) (act-SentOnce k a w h)

abbrev Retries : Outbox → Type 0
Retries o = All IsRetry o.retried

probing-Retries : IsKept Retries
probing-Retries = record {
  results = λ db row o h. h;
  probes = λ db row next i due o h. h;
  samples = λ db cs o h. h;
  rounds = λ r o h. rw (dispatch-retried r o) h;
}

act-Retries : (a : Action) (w : World) → Retries w.outbox → Retries (act a w).outbox
act-Retries (probes_once e cfg mon) w h = probe-keeps Retries probing-Retries e cfg mon w h
act-Retries (retries r lookup) w h = retry_alert_notifications-IsRetry r lookup w.outbox h

run-Retries : (as' : List Action) (w : World) → Retries w.outbox → Retries (run as' w).outbox
run-Retries [] w h = h
run-Retries (a ∷ as') w h = run-Retries as' (act a w) (act-Retries a w h)

-- Over any sequence of probes of any monitors and rounds of sending and retrying, from a store whose
-- alert ids are in order and with no call made yet, whatever the checks find and wherever the
-- database fails: an alert is handed to all the providers at once no more than once, and every call
-- of a provider in a retry is for a notification that failed, is not exhausted and has a time for its
-- retry, and is of the provider of that notification and of no other. How often one notification is
-- tried again is not bounded here.
pub runner-times_sent-le-one :
    (k : ℕ) (as' : List Action) (w : World)
    → InOrder w.outbox.store
    → w.outbox.sent ≡ []
    → w.outbox.retried ≡ []
    → (times_sent k (run as' w).outbox ≤ 1) × All IsRetry (run as' w).outbox.retried
runner-times_sent-le-one k as' w order none_sent none_retried = (
  (run-SentOnce k as' w (order, ground arith, ground arith)).1,
  run-Retries as' w (rw none_retried tt),
)
