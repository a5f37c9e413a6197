-- ===== src/State.antt =====
-- internal/state/state.go: the status texts, as one enumeration. The empty text of the source,
-- which stands for "no status" and "no transition", is `unset`.
use upag.Base.{ℕ, ◌≡◌, ◌↔◌, Bool, true, Eq, ◌==◌, nat_eq, arith}

pub data Status : Type 0 where
  unset unknown failing up down maintenance observer_up observer_down : Status

abbrev pub rank : Status → ℕ
rank unset = 0
rank unknown = 1
rank failing = 2
rank up = 3
rank down = 4
rank maintenance = 5
rank observer_up = 6
rank observer_down = 7

abbrev pub status_beq : Status → Status → Bool
status_beq a b = rank a == rank b

pub status_beq_iff : (a b : Status) → (status_beq a b ≡ true) ↔ (a ≡ b)
status_beq_iff a b = ground arith

instance abbrev pub status_eq : Eq Status
status_eq = record { same = status_beq; same_iff = status_beq_iff }
