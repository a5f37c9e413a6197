-- ===== src/Probe/Saved.antt =====
-- The incident that the transaction of a probe adds.
use upag.Base.{
  ℕ, ◌≡◌, ◌⊎◌, refl, subst, inl, inr, List, ◌∷◌, true, false, Option, none, some, arith, nat_eq, ℤ,
}
use upag.State.{Status, up, down}
use upag.Storage.{MonitorState, ProbeResult, Incident}
use upag.Checker.{Result}
use upag.Monitor.{evaluate}
use upag.Store.{Store, Db, available, broken, find_state}
use upag.Store.Probes.{
  save_probe_and_state, store_probe, queue_alert, insert_incident, finish_probe,
  status_outside_maintenance,
}
use upag.Store.Probes.Reads.{store_probe_tables}
use upag.Probe.{MonitorConfig, evaluate_probe}

-- One incident is added, or none.
abbrev pub Added : Option Incident → List Incident → List Incident → Type 0
Added i before after =
    (after ≡ before)
    ⊎ ((j : Incident) × (k : ℕ) × (i ≡ some j) × (after ≡ record j { id = k } ∷ before))

queue_alert-incidents :
    (previous_status : Status) (next : MonitorState) (id due : ℕ) (s : Store)
    → (queue_alert previous_status next id due s).incidents ≡ s.incidents
unfolding queue_alert
queue_alert-incidents previous_status next id due s = ground arith

finish_probe-Added :
    (previous_status : Status) (next : MonitorState) (i : Option Incident) (due : Option ℕ)
    (s : Store)
    → Added i s.incidents (finish_probe previous_status next i due s).0.incidents
finish_probe-Added previous_status next none due s = inl refl
finish_probe-Added previous_status next (some i) none s = inr (i, s.next_incident_id, refl, refl)
finish_probe-Added previous_status next (some i) (some due) s = inr (
  i,
  s.next_incident_id,
  refl,
  queue_alert-incidents previous_status next s.next_incident_id due (insert_incident i s),
)

pub save_probe-Added :
    (db : Db) (row : ProbeResult) (next : MonitorState) (i : Option Incident) (due : Option ℕ)
    (s : Store)
    → Added i s.incidents (save_probe_and_state db row next i due s).0.incidents
unfolding save_probe_and_state
save_probe-Added broken row next i due s = inl refl
save_probe-Added available row next i due s =
    let stored = store_probe row next s in
    let after =
      (finish_probe (status_outside_maintenance (find_state next.monitor_id s.states)) next i due
        stored).0.incidents in
    subst (λ before. Added i before after) (store_probe_tables row next s).3
      (finish_probe-Added (status_outside_maintenance (find_state next.monitor_id s.states)) next i
        due stored)

-- The incident that a result may open.
abbrev pub Fits : MonitorConfig → Result → Incident → Type 0
Fits mon result i =
    (i.monitor_id ≡ mon.id)
    × (((i.transition ≡ down) × (result.ok ≡ false)) ⊎ ((i.transition ≡ up) × (result.ok ≡ true)))

pub evaluate_probe-Fits :
    (mon : MonitorConfig) (previous : MonitorState) (result : Result) (threshold : ℤ) (i : Incident)
    → (evaluate_probe mon previous result threshold).1 ≡ some i
    → Fits mon result i
unfolding evaluate_probe evaluate
evaluate_probe-Fits mon previous result threshold i h = ground arith

-- The incidents after a probe: those from before, and one that fits at most.
abbrev pub OneFits : MonitorConfig → Result → List Incident → List Incident → Type 0
OneFits mon result before after =
    (after ≡ before) ⊎ ((i : Incident) × Fits mon result i × (after ≡ i ∷ before))

pub OneFits-of_Added :
    (mon : MonitorConfig) (result : Result) (i : Option Incident) (before after : List Incident)
    → ((j : Incident) → i ≡ some j → Fits mon result j)
    → Added i before after
    → OneFits mon result before after
OneFits-of_Added mon result i before after f (inl same) = inl same
OneFits-of_Added mon result i before after f (inr (j, k, e, added)) =
    inr (record j { id = k }, f j e, added)
