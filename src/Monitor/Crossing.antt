-- ===== src/Monitor/Crossing.antt =====
-- When a probe opens an incident.
use upag.Base.{ℕ, ◌≡◌, ◌≢◌, ◌↔◌, ◌⊎◌, arith, ℤ}
use upag.State.{unset, up, down}
use upag.Storage.{MonitorState}
use upag.Checker.{Result}
use upag.Monitor.{evaluate}

-- A DOWN incident is opened exactly when the status becomes DOWN, an UP incident exactly when it
-- leaves DOWN, and no other incident is ever opened.
pub evaluate_crossing :
    (previous : MonitorState) (result : Result) (threshold : ℤ) (now : ℕ)
    → let e = evaluate previous result threshold now in
      ((e.incident_transition ≡ down) ↔ ((previous.status ≢ down) × (e.next_state.status ≡ down)))
      × ((e.incident_transition ≡ up) ↔ ((previous.status ≡ down) × (e.next_state.status ≢ down)))
      × ((e.incident_transition ≡ down)
          ⊎ (e.incident_transition ≡ up)
          ⊎ (e.incident_transition ≡ unset))
unfolding evaluate
evaluate_crossing previous result threshold now = ground arith
