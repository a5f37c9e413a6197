-- ===== src/ObserverProbe/History.antt =====
-- The stored state of the observer over a run of checks.
use upag.Base.{
  ℕ, ◌≡◌, not, ◌&&◌, Bool-cases, inl, inr, refl, sym, subst, ◌∙◌, List, [], ◌∷◌, map, Bool, true,
  false, Option, none, some, Fallible, ok, err, le_of_nat, nat_eq, if◌then◌else◌,
}
use upag.Storage.{ObserverState, ObserverSentinelResult, Incident}
use upag.Observer.{ObserverConfig, CheckResult, check, sentinel_results, successes}
use upag.Observer.Streak.{Check, after, Settled, after-Settled}
use upag.Store.{Store, StoreError, Db, available, broken}
use upag.Store.ObserverChecks.{get_observer_state, save_connectivity_samples, save_observer_check}
use upag.Transfer.{TransferCheckConfig, TransferGuard, sample_transfer}
use upag.ObserverProbe.{
  Observing, after_check, with_observer, known_observer, observer_incident, sentinel_sample,
  probe_observer,
}
use upag.ObserverProbe.Tables.{save_samples-observer, sample_transfer-observer, announce-observer}

-- The check that a call of `probeObserver` stores, if it stores one: the runner does not stop, and
-- the database serves both the query for the state and the transaction. It is healthy when as many
-- sentinels succeed as are required.
abbrev pub both_serve : Db → Db → Bool
both_serve available available = true
both_serve available broken = false
both_serve broken db = false

abbrev pub made : ObserverConfig → Observing → Check
made cfg e =
    let results = sentinel_results e.respond e.now cfg.sentinels in
    record {
      healthy = le_of_nat cfg.required_successes (successes results);
      results = results;
      now = e.now;
    }

abbrev pub is_stored : Observing → Bool
is_stored e = not e.stopped && both_serve e.state_db e.save_db

-- The checks stored over a run of calls, newest first, before those that were stored earlier.
abbrev pub stored_checks : ObserverConfig → List Observing → List Check → List Check
stored_checks cfg [] h = h
stored_checks cfg (e ∷ es) h = stored_checks cfg es (if is_stored e then made cfg e ∷ h else h)

-- The state that `Evaluate` makes of checks, newest first; there is none without a check.
abbrev pub made_of : ObserverConfig → List Check → Option ObserverState
made_of cfg [] = none
made_of cfg (c ∷ h) = some (after cfg.failure_threshold cfg.recovery_threshold (c ∷ h)).0

check-made :
    (e : Observing) (cfg : ObserverConfig) (h : List Check)
    → let (previous, known) = known_observer (made_of cfg h) in
      some (check e.respond cfg previous known e.now).state ≡ made_of cfg (made cfg e ∷ h)
unfolding check
check-made e cfg [] = refl
check-made e cfg (c ∷ h) = refl

saved-state :
    (db : Db) (o : ObserverState) (rs : List ObserverSentinelResult) (i : Option Incident)
    (s : Store)
    → (save_observer_check db o rs i s).0.observer_state
      ≡ (if both_serve available db then some o else s.observer_state)
unfolding save_observer_check
saved-state broken o rs i s = refl
saved-state available o rs none s = refl
saved-state available o rs (some i) s = refl

after_check-state :
    (e : Observing) (transfer : TransferCheckConfig) (c : CheckResult) (i : Option Incident)
    (res : Store × Fallible StoreError ℕ) (g : TransferGuard)
    → (after_check e transfer c i res g).0.observer_state ≡ res.0.observer_state
after_check-state e transfer c i (s, err x) g = refl
after_check-state e transfer c i (s, ok id) g =
    announce-observer e c i id (sample_transfer e.sampling transfer "scheduled" "" s g).0
    ∙ sample_transfer-observer e.sampling transfer "scheduled" "" s g

either :
    (cfg : ObserverConfig) (h : List Check) (c : Check) (b : Bool) (x y : Option ObserverState)
    → x ≡ made_of cfg (c ∷ h)
    → y ≡ made_of cfg h
    → (if b then x else y) ≡ made_of cfg (if b then c ∷ h else h)
either cfg h c true x y hx hy = hx
either cfg h c false x y hx hy = hy

with_observer-state :
    (e : Observing) (cfg : ObserverConfig) (transfer : TransferCheckConfig) (s : Store)
    (g : TransferGuard) (h : List Check) (db : Db)
    → s.observer_state ≡ made_of cfg h
    → (with_observer e cfg transfer (get_observer_state db s).1 s g).0.observer_state
      ≡ made_of cfg (if both_serve db e.save_db then made cfg e ∷ h else h)
unfolding get_observer_state
with_observer-state e cfg transfer s g h broken k = k
with_observer-state e cfg transfer s g h available k =
    let (previous, known) = known_observer s.observer_state in
    let c = check e.respond cfg previous known e.now in
    let samples = map sentinel_sample c.sentinel_results in
    let s' = (save_connectivity_samples e.samples_db samples s).0 in
    let incident = observer_incident c e.now in
    after_check-state e transfer c incident
      (save_observer_check e.save_db c.state c.sentinel_results incident s') g
    ∙ saved-state e.save_db c.state c.sentinel_results incident s'
    ∙ either cfg h (made cfg e) (both_serve available e.save_db) (some c.state) s'.observer_state
        (subst
          (λ found.
            some (check e.respond cfg (known_observer found).0 (known_observer found).1 e.now).state
            ≡ made_of cfg (made cfg e ∷ h))
          (sym k) (check-made e cfg h))
        (save_samples-observer e.samples_db samples s ∙ k)

probe_observer-state :
    (e : Observing) (cfg : ObserverConfig) (transfer : TransferCheckConfig) (s : Store)
    (g : TransferGuard) (h : List Check)
    → s.observer_state ≡ made_of cfg h
    → (probe_observer e cfg transfer s g).0.observer_state
      ≡ made_of cfg (if is_stored e then made cfg e ∷ h else h)
unfolding probe_observer
probe_observer-state e cfg transfer s g h k = elim (Bool-cases e.stopped) [
  | inl stopped ↦ rw stopped k
  | inr goes_on ↦ rw goes_on (with_observer-state e cfg transfer s g h e.state_db k)
]

abbrev pub observe_all :
    ObserverConfig
    → TransferCheckConfig
    → List Observing
    → Store × TransferGuard
    → Store × TransferGuard
observe_all cfg transfer [] w = w
observe_all cfg transfer (e ∷ es) (s, g) =
    observe_all cfg transfer es (probe_observer e cfg transfer s g)

observe_all-state :
    (cfg : ObserverConfig) (transfer : TransferCheckConfig) (es : List Observing)
    (w : Store × TransferGuard) (h : List Check)
    → w.0.observer_state ≡ made_of cfg h
    → (observe_all cfg transfer es w).0.observer_state ≡ made_of cfg (stored_checks cfg es h)
observe_all-state cfg transfer [] w h k = k
observe_all-state cfg transfer (e ∷ es) (s, g) h k =
    observe_all-state cfg transfer es (probe_observer e cfg transfer s g)
      (if is_stored e then made cfg e ∷ h else h) (probe_observer-state e cfg transfer s g h k)

-- The counters and the status of a stored state are settled by checks.
abbrev pub SettledStore : ObserverConfig → List Check → Option ObserverState → Type 0
SettledStore cfg h none = h ≡ []
SettledStore cfg h (some o) = Settled cfg.failure_threshold cfg.recovery_threshold h o

made_of-SettledStore : (cfg : ObserverConfig) (h : List Check) → SettledStore cfg h (made_of cfg h)
made_of-SettledStore cfg [] = refl
made_of-SettledStore cfg (c ∷ h) =
    after-Settled cfg.failure_threshold cfg.recovery_threshold (c ∷ h)

-- Over any run of observer checks from a store without an observer state, whatever the sentinels
-- answer and wherever the database fails, the stored state is what `Evaluate` makes of the checks
-- that were stored, one after the other: those of the calls for which the runner does not stop and
-- the database serves the query for the state and the transaction, a check being healthy when as
-- many sentinels succeed as are required. There is no state exactly while nothing was stored, and
-- the counters and the status are settled by the checks that were stored.
pub observe_all-SettledStore :
    (cfg : ObserverConfig) (transfer : TransferCheckConfig) (es : List Observing) (s : Store)
    (g : TransferGuard)
    → s.observer_state ≡ none
    → let found = (observe_all cfg transfer es (s, g)).0.observer_state in
      let h = stored_checks cfg es [] in (found ≡ made_of cfg h) × SettledStore cfg h found
observe_all-SettledStore cfg transfer es s g fresh =
    let h = stored_checks cfg es [] in
    let e = observe_all-state cfg transfer es (s, g) [] fresh in
    (e, subst (SettledStore cfg h) (sym e) (made_of-SettledStore cfg h))
