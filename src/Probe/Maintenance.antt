-- ===== src/Probe/Maintenance.antt =====
-- A monitor around its maintenance.
use upag.Base.{◌≡◌, ◌≢◌, List, [], ◌∷◌, true, false, none, arith, ℤ}
use upag.State.{unset, up, down, maintenance}
use upag.Storage.{MonitorState}
use upag.Checker.{Result}
use upag.Monitor.{evaluate}
use upag.Probe.{MonitorConfig, maintenance_state, evaluate_probe, incident_for}

-- The state after the probes of a maintenance, newest first.
abbrev pub maintained : MonitorConfig → MonitorState → List Result → MonitorState
maintained mon start [] = start
maintained mon start (r ∷ earlier) =
    maintenance_state (maintained mon start earlier) r mon r.checked_at

maintained-status :
    (mon : MonitorConfig) (start : MonitorState) (r : Result) (earlier : List Result)
    → start.status ≢ maintenance
    → let s = maintained mon start (r ∷ earlier) in
      (s.status ≡ maintenance)
      × (s.status_before_maintenance ≡ start.status)
      × (s.consecutive_failures ≡ 0)
unfolding maintenance_state
maintained-status mon start r [] h = ground arith
maintained-status mon start r (q ∷ earlier) h =
    ground (arith, maintained-status mon start q earlier h)

-- The first probe after any number of probes in a maintenance: a success gives UP, and opens an UP
-- incident exactly if the monitor was DOWN before the maintenance; a failure gives DOWN and opens a
-- DOWN incident at once, whatever the threshold, also if the monitor was DOWN before.
pub after_maintenance :
    (mon : MonitorConfig) (start : MonitorState) (q : Result) (earlier : List Result) (r : Result)
    (threshold : ℤ)
    → start.status ≢ maintenance
    → let (next, incident) = evaluate_probe mon (maintained mon start (q ∷ earlier)) r threshold in
      (next.status_before_maintenance ≡ unset)
      × (r.ok ≡ true
          → (next.status ≡ up)
            × (start.status ≡ down → incident ≡ incident_for mon r up)
            × (start.status ≢ down → incident ≡ none))
      × (r.ok ≡ false
          → (next.status ≡ down)
            × (incident ≡ incident_for mon r down)
            × (next.consecutive_failures ≡ 1))
unfolding evaluate_probe evaluate
after_maintenance mon start q earlier r threshold h =
    ground (arith, maintained-status mon start q earlier h)
