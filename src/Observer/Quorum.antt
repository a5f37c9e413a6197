-- ===== src/Observer/Quorum.antt =====
-- The sentinels of internal/observer and the quorum over their results.
use upag.Base.{
  ℕ, ◌≡◌, ◌≢◌, ◌↔◌, ◌⊎◌, refl, Bool, true, false, arith, ℤ, le_of_nat, List, [], ◌∷◌, ◌==◌, nat_eq,
  count,
}
use upag.State.{observer_up, observer_down}
use upag.Storage.{ObserverState, ObserverSentinelResult}
use upag.Observer.{
  evaluate, check, check_sentinel, sentinel_results, successes, Response, answered, SentinelConfig,
  ObserverConfig, observer_error,
}

-- A sentinel answers as it should: with the status code that is expected of it.
abbrev pub answers_well : (SentinelConfig → Response) → SentinelConfig → Bool
answers_well respond s = elim (respond s) [
  | answered ms code ↦ code == s.expected_status_code
  | _ ↦ false
]

sentinel-ok :
    (respond : SentinelConfig → Response) (s : SentinelConfig) (now : ℕ)
    → (check_sentinel s now (respond s)).ok ≡ answers_well respond s
unfolding check_sentinel
sentinel-ok respond s now = ground arith

successes-sentinel_results :
    (respond : SentinelConfig → Response) (now : ℕ) (ss : List SentinelConfig)
    → successes (sentinel_results respond now ss) ≡ count (answers_well respond) ss
successes-sentinel_results respond now [] = refl
successes-sentinel_results respond now (s ∷ ss) =
    ground (arith, sentinel-ok respond s now, successes-sentinel_results respond now ss)

-- One check resets the failure streak if as many sentinels answered with their expected status
-- code as the quorum requires, and the success streak otherwise, and lengthens the other by one.
pub check_quorum :
    (respond : SentinelConfig → Response) (cfg : ObserverConfig) (previous : ObserverState)
    (known : Bool) (now : ℕ)
    → let s = (check respond cfg previous known now).state in
      ((le_of_nat cfg.required_successes (count (answers_well respond) cfg.sentinels) ≡ true)
        × (s.consecutive_failures ≡ 0)
        × (s.last_error ≡ "")
        × (s.last_success_at ≡ now))
      ⊎ ((le_of_nat cfg.required_successes (count (answers_well respond) cfg.sentinels) ≡ false)
          × (s.consecutive_successes ≡ 0)
          × (s.last_error ≡ observer_error (sentinel_results respond now cfg.sentinels))
          × (s.last_failure_at ≡ now))
unfolding check
check_quorum respond cfg previous known now =
    ground (arith, successes-sentinel_results respond now cfg.sentinels)

-- An observer incident is opened exactly when the status crosses OBSERVER_DOWN.
pub observer_crossing :
    (previous : ObserverState) (known healthy : Bool) (results : List ObserverSentinelResult)
    (failure recovery : ℤ) (now : ℕ)
    → let (s, transition) = evaluate previous known healthy results failure recovery now in
      ((transition ≡ observer_down)
        ↔ ((previous.status ≢ observer_down) × (s.status ≡ observer_down)))
      × ((transition ≡ observer_up)
          ↔ ((previous.status ≡ observer_down) × (s.status ≢ observer_down)))
unfolding evaluate
observer_crossing previous known healthy results failure recovery now = ground arith
