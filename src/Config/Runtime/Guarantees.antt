-- ===== src/Config/Runtime/Guarantees.antt =====
-- What the running parts may rely on when the configuration was valid.
use upag.Base.{
  ℕ, zero, suc, ◌-◌, ◌<◌, List, [], ◌∷◌, map, Bool, true, ℤ, pos, negsuc, AtLeast, AtMost,
  at_least_zero, le_of_nat, All, count, length, nat_eq, ◌≡◌, ◌≢◌, inl, inr, refl, arith,
}
use upag.Alert.{new_incident_sender, retry_backoff, duration_at}
use upag.Observer
use upag.Observer.{Response, check}
use upag.Observer.Quorum.{answers_well, check_quorum}
use upag.Storage.{ObserverState}
use upag.Config.{NotificationRetriesConfig, SentinelConfig, ObserverConfig, Config}
use upag.Config.Runtime.{Senders, provider_config, retry_policy, watched, observer_config}
use upag.Config.Validate.{GoLibrary}
use upag.Config.Valid.Sections.{ValidRetries}
use upag.Config.Valid.Observer.{ValidObserver}
use upag.Config.Valid.Providers.{ValidProviders}

-- A valid configuration has an alert sender.
pub new_incident_sender-ne-nil :
    (new : Senders) (go : GoLibrary) (c : Config)
    → ValidProviders go c
    → new_incident_sender (provider_config new c) ≢ []
unfolding new_incident_sender provider_config
new_incident_sender-ne-nil new go c v none_there = ground (arith, v.some_provider)

positives :
    (ds : List ℤ)
    → All (λ (d : ℤ). AtLeast 1 d) ds
    → All (λ (d : ℕ). 0 < d) (map (λ d. at_least_zero d) ds)
positives [] h = tt
positives (pos n ∷ ds) h = (h.0, positives ds h.1)
positives (negsuc n ∷ ds) h = absurd h.0

duration_at_pos :
    (ds : List ℕ) (i : ℕ) → All (λ (d : ℕ). 0 < d) ds → i < length ds → 0 < duration_at ds i
duration_at_pos [] i h lt = absurd (omega arith)
duration_at_pos (d ∷ ds) zero h lt = h.0
duration_at_pos (d ∷ ds) (suc i) h lt = duration_at_pos ds i h.1 (omega arith)

some_backoff : (ds : List ℤ) → ds ≢ [] → 0 < length (map (λ d. at_least_zero d) ds)
some_backoff [] h = absurd (h refl)
some_backoff (d ∷ ds) h = omega arith

-- With a valid policy there is a wait before every retry, whatever the number of the attempt.
pub retry_backoff_pos :
    (c : NotificationRetriesConfig) (attempt : ℕ)
    → ValidRetries c
    → 0 < retry_backoff (retry_policy c) attempt
unfolding retry_backoff retry_policy
retry_backoff_pos c attempt v =
    let ds = map (λ (d : ℤ). at_least_zero d) c.backoff in
    let long = some_backoff c.backoff v.backoff in
    ground (
      arith,
      duration_at_pos ds (attempt - 1) (positives c.backoff v.backoffs),
      duration_at_pos ds (length ds - 1) (positives c.backoff v.backoffs),
      long,
    )

All-well :
    (respond : Observer.SentinelConfig → Response) (ss : List SentinelConfig)
    → All (λ (s : SentinelConfig). answers_well respond (watched s) ≡ true) ss
    → count (answers_well respond) (map watched ss) ≡ length ss
All-well respond [] h = refl
All-well respond (s ∷ ss) h = ground (arith, h.0, All-well respond ss h.1)

within_reach : (z : ℤ) (n : ℕ) → AtMost n z → le_of_nat z n ≡ true
within_reach (pos m) n h = ground arith
within_reach (negsuc m) n h = refl

-- With a valid configuration and the observer enabled, a check at which all sentinels answer as
-- expected counts as a success: the quorum is never out of reach.
pub check-reaches_quorum :
    (respond : Observer.SentinelConfig → Response) (o : ObserverConfig) (previous : ObserverState)
    (known : Bool) (now : ℕ)
    → ValidObserver o
    → o.enabled ≡ true
    → All (λ (s : SentinelConfig). answers_well respond (watched s) ≡ true) o.sentinels
    → let s = (check respond (observer_config o) previous known now).state in
      (s.consecutive_failures ≡ 0) × (s.last_error ≡ "") × (s.last_success_at ≡ now)
unfolding observer_config
check-reaches_quorum respond o previous known now v enabled well =
    elim (check_quorum respond (observer_config o) previous known now) [
      | inl h ↦ (h.1, h.2, h.3)
      | inr h ↦ absurd (
          ground (
            arith,
            All-well respond o.sentinels well,
            within_reach o.required_successes (length o.sentinels) (v.quorum enabled),
            h.0,
          ))
    ]
