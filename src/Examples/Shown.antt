-- ===== src/Examples/Shown.antt =====
-- The intervals that are shown of one stored interval and its maintenance windows.
use upag.Base.{◌≡◌, refl, List, [], ◌∷◌, String, Bool, ◌==◌, map}
use upag.State.{Status, down, maintenance, status_eq}
use upag.Storage.{MaintenanceWindow, StatusInterval}
use upag.Store.Projected.{projected_intervals}
use upag.Examples.{open_since, window_of}

abbrev is_maintenance : String → Status → Bool → Bool
is_maintenance id status downtime = status == maintenance

-- DOWN from 10 on, in maintenance from 20 to 40 by two windows that overlap.
abbrev outage : List StatusInterval
outage = open_since down 10 ∷ []

abbrev two_windows : List MaintenanceWindow
two_windows = window_of 30 40 ∷ window_of 20 35 ∷ []

shown_starts :
    map (λ p. p.started_at) (projected_intervals 100 0 two_windows outage) ≡ 40 ∷ 20 ∷ 10 ∷ []
unfolding projected_intervals
shown_starts = refl
