-- ===== src/Availability/ObserverDown.antt =====
-- The time in which the observer was down, from its incidents.
use upag.Base.{
  ℕ, zero, suc, ◌≤◌, ◌<◌, ◌≡◌, refl, Bool, true, false, ◌&&◌, List, [], ◌∷◌, ltb, leb,
  if◌then◌else◌, All, arith, ◌==◌, nat_eq,
}
use upag.State.{observer_up, observer_down, status_eq}
use upag.Availability.{
  TimeInterval, ObserverTransition, observer_down_from, observer_down_intervals,
}
use upag.Availability.Points.{covered}
use upag.Availability.Overlap.{Forward, InOrder}

-- Oldest first, none at the zero time or after `now`.
abbrev pub Chronological : ℕ → List ObserverTransition → ℕ → Type 0
Chronological lower [] now = lower ≤ now
Chronological lower (x ∷ xs) now = (lower ≤ x.at) × (0 < x.at) × Chronological x.at xs now

-- Whether the observer is down at `t`: the latest transition that is not after `t` decides.
abbrev pub down_at : Bool → List ObserverTransition → ℕ → Bool
down_at d [] t = d
down_at d (x ∷ xs) t =
    let later =
      down_at
        (if x.status == observer_down then true else if x.status == observer_up then false else d)
        xs t in
    if ltb t x.at then d else later

down_at_before :
    (d : Bool) (lower : ℕ) (ts : List ObserverTransition) (now t : ℕ)
    → Chronological lower ts now
    → t < lower
    → down_at d ts t ≡ d
down_at_before d lower [] now t c h = refl
down_at_before d lower (x ∷ xs) now t c h = ground arith

abbrev is_down_since : ℕ → List ObserverTransition → ℕ → Bool
is_down_since zero ts t = down_at false ts t
is_down_since (suc s) ts t = leb (suc s) t && down_at true ts t

covered-from :
    (since lower : ℕ) (ts : List ObserverTransition) (now t : ℕ)
    → Chronological lower ts now
    → since ≤ lower
    → t < now
    → covered (observer_down_from since ts now) t ≡ is_down_since since ts t
unfolding observer_down_from
covered-from zero lower [] now t c s h = refl
covered-from (suc since) lower [] now t c s h = ground arith
covered-from zero lower (x ∷ xs) now t c s h = ground (
  arith,
  covered-from x.at x.at xs now t,
  covered-from 0 x.at xs now t,
  down_at_before true x.at xs now t,
  down_at_before false x.at xs now t,
)
covered-from (suc since) lower (x ∷ xs) now t c s h = ground (
  arith,
  covered-from (suc since) x.at xs now t,
  covered-from 0 x.at xs now t,
  down_at_before true x.at xs now t,
  down_at_before false x.at xs now t,
)

abbrev FirstFrom : ℕ → List TimeInterval → Type 0
FirstFrom lower [] = Unit
FirstFrom lower (i ∷ is) = lower ≤ i.start

abbrev from_bound : ℕ → ℕ → ℕ
from_bound zero lower = lower
from_bound (suc s) lower = suc s

InOrder-cons :
    (i : TimeInterval) (is : List TimeInterval) → FirstFrom i.end is → InOrder is → InOrder (i ∷ is)
InOrder-cons i [] f o = tt
InOrder-cons i (j ∷ js) f o = (f, o)

FirstFrom-mono : (a b : ℕ) (is : List TimeInterval) → a ≤ b → FirstFrom b is → FirstFrom a is
FirstFrom-mono a b [] h f = tt
FirstFrom-mono a b (i ∷ is) h f = omega arith

from-InOrder :
    (since lower : ℕ) (ts : List ObserverTransition) (now : ℕ)
    → Chronological lower ts now
    → since ≤ lower
    → let is = observer_down_from since ts now in
      FirstFrom (from_bound since lower) is × InOrder is × All Forward is
unfolding observer_down_from
from-InOrder zero lower [] now c s = (tt, tt, tt)
from-InOrder (suc since) lower [] now c s = ground arith
from-InOrder zero lower (x ∷ xs) now c s = ground (
  arith,
  from-InOrder x.at x.at xs now,
  from-InOrder 0 x.at xs now,
  FirstFrom-mono lower x.at (observer_down_from x.at xs now),
  FirstFrom-mono lower x.at (observer_down_from 0 xs now),
)
from-InOrder (suc since) lower (x ∷ xs) now c s = ground (
  arith,
  from-InOrder (suc since) x.at xs now,
  from-InOrder 0 x.at xs now,
  InOrder-cons (record { start = suc since; end = x.at }) (observer_down_from 0 xs now),
)

-- From the observer's incidents, oldest first, none at the zero time or in the future, the store
-- makes intervals that are in order and run forward; an instant of the past lies in one of them
-- exactly when the latest incident by then is OBSERVER_DOWN.
pub observer_down_intervals_lem :
    (ts : List ObserverTransition) (now : ℕ)
    → Chronological 0 ts now
    → let is = observer_down_intervals ts now in
      ((t : ℕ) → t < now → covered is t ≡ down_at false ts t) × InOrder is × All Forward is
unfolding observer_down_intervals
observer_down_intervals_lem ts now c =
    let (_, order, forward) = from-InOrder 0 0 ts now c (omega arith) in
    ((λ t h. covered-from 0 0 ts now t c (omega arith) h), order, forward)
