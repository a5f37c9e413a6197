-- ===== src/Observer/Streak.antt =====
-- The observer over a whole history of checks, newest first. Each entry holds whether the quorum
-- was reached, the results of the sentinels, and the time. Only the first check finds no state.
use upag.Base.{
  ℕ, suc, ◌<◌, ◌≡◌, ◌≢◌, refl, Bool, true, false, arith, ℤ, positive_or, positive_or_pos, List, [],
  ◌∷◌, if◌then◌else◌,
}
use upag.State.{unset, observer_up, observer_down}
use upag.Storage.{ObserverState, ObserverSentinelResult}
use upag.Observer.{evaluate, no_state}
use upag.State.{Status}

abbrev pub Check : Type 0
Check = record { healthy : Bool; results : List ObserverSentinelResult; now : ℕ }

abbrev pub is_cons {ℓ} : {A : Type ℓ} → List A → Bool
is_cons [] = false
is_cons (x ∷ xs) = true

module _ (failure recovery : ℤ) where
  abbrev pub after : List Check → ObserverState × Status
  after [] = (no_state, unset)
  after (c ∷ earlier) =
      evaluate (after earlier).0 (is_cons earlier) c.healthy c.results failure recovery c.now

-- The checks since the last one of the other kind.
abbrev pub streak : Bool → List Check → ℕ
streak good [] = 0
streak good (c ∷ earlier) =
    let n = streak good earlier in
    if c.healthy then (if good then suc n else 0) else (if good then 0 else suc n)

abbrev pub Settled : ℤ → ℤ → List Check → ObserverState → Type 0
Settled failure recovery history s =
    (s.consecutive_failures ≡ streak false history)
    × (s.consecutive_successes ≡ streak true history)
    × (s.status ≡ observer_down → streak true history < positive_or recovery 1)
    × (s.status ≢ observer_down → streak false history < positive_or failure 1)

step-Settled :
    (failure recovery : ℤ) (known : Bool) (c : Check) (earlier : List Check) (s : ObserverState)
    → Settled failure recovery earlier s
    → Settled failure recovery
        (c ∷ earlier)
        (evaluate s known c.healthy c.results failure recovery c.now).0
unfolding evaluate
step-Settled failure recovery known c earlier s h =
    ground (arith, positive_or_pos failure 1, positive_or_pos recovery 1)

-- After any history the two counters are the lengths of the current streaks; while the observer is
-- DOWN the healthy streak is shorter than the recovery threshold, and while it is not the
-- unhealthy streak is shorter than the failure threshold: neither transition is ever overdue.
pub after-Settled :
    (failure recovery : ℤ) (history : List Check)
    → Settled failure recovery history (after failure recovery history).0
after-Settled failure recovery [] = (
  refl,
  refl,
  λ e. positive_or_pos recovery 1 (omega arith),
  λ e. positive_or_pos failure 1 (omega arith),
)
after-Settled failure recovery (c ∷ earlier) =
    step-Settled failure recovery (is_cons earlier) c earlier (after failure recovery earlier).0
      (after-Settled failure recovery earlier)

step_needs_streak :
    (failure recovery : ℤ) (known : Bool) (c : Check) (earlier : List Check) (s : ObserverState)
    → Settled failure recovery earlier s
    → let t = (evaluate s known c.healthy c.results failure recovery c.now).1 in
      (t ≡ observer_down → streak false (c ∷ earlier) ≡ positive_or failure 1)
      × (t ≡ observer_up → streak true (c ∷ earlier) ≡ positive_or recovery 1)
unfolding evaluate
step_needs_streak failure recovery known c earlier s h =
    ground (arith, positive_or_pos failure 1, positive_or_pos recovery 1)

-- An OBSERVER_DOWN incident is opened by the very check that makes the unhealthy streak as long as
-- the failure threshold, an OBSERVER_UP incident by the one that makes the healthy streak as long
-- as the recovery threshold; a threshold that is not positive counts as one.
pub after_needs_streak :
    (failure recovery : ℤ) (history : List Check)
    → let t = (after failure recovery history).1 in
      (t ≡ observer_down → streak false history ≡ positive_or failure 1)
      × (t ≡ observer_up → streak true history ≡ positive_or recovery 1)
after_needs_streak failure recovery [] = ((λ e. cc), (λ e. cc))
after_needs_streak failure recovery (c ∷ earlier) =
    step_needs_streak failure recovery (is_cons earlier) c earlier
      (after failure recovery earlier).0 (after-Settled failure recovery earlier)
