-- ===== src/Examples/Monitors.antt =====
-- Monitors and the observer: three failures in a row, and a quorum of one sentinel.
use upag.Base.{ℕ, ◌≡◌, refl, List, [], ◌∷◌, true, false, pos}
use upag.State.{unknown, down}
use upag.Checker.{Result}
use upag.Monitor.Streak.{
  after, after_documented, incidents, incidents_alternate, Alternates, HeadAgrees,
}
use upag.Observer.{SentinelConfig, ObserverConfig, Response, answered}
use upag.Observer.Streak.{Check}
use upag.Examples.{monitor_in, result_at}

abbrev outage : List (Result × ℕ)
outage = (result_at false 30, 30) ∷ (result_at false 20, 20) ∷ (result_at true 10, 10) ∷ []

after_documented_example :
    let s = after (pos 2) (monitor_in unknown 0) outage in
    (s.consecutive_failures ≡ 2) × (s.status ≡ down)
after_documented_example = after_documented (pos 2) (monitor_in unknown 0) outage (refl, refl)

incidents_alternate_example :
    let s = after (pos 2) (monitor_in unknown 0) outage in
    HeadAgrees s (incidents (pos 2) (monitor_in unknown 0) outage)
    × Alternates (incidents (pos 2) (monitor_in unknown 0) outage)
incidents_alternate_example = incidents_alternate (pos 2) (monitor_in unknown 0) outage (λ e. cc)

abbrev sentinel : SentinelConfig
sentinel = record {
  id = "one";
  name = "One";
  url = "https://one.example.com";
  expected_status_code = 204;
}

abbrev config : ObserverConfig
config = record {
  sentinels = sentinel ∷ [];
  required_successes = pos 1;
  failure_threshold = pos 2;
  recovery_threshold = pos 1;
}

abbrev answers : SentinelConfig → Response
answers s = answered 7 200

abbrev offline : List (Check)
offline =
    record { healthy = false; results = []; now = 20 }
    ∷ record { healthy = false; results = []; now = 10 }
    ∷ []
