-- ===== src/Workers.antt =====
-- The workers of `applyConfig` in internal/app/runner.go: a goroutine for each monitor, started,
-- kept or replaced as the configuration changes. `C` is the type of a worker's configuration, and
-- its equality is `reflect.DeepEqual`. The runner's mutex makes a call one step.
pub mod Running
pub mod Leaks
use upag.Base.{
  ℕ, suc, String, List, [], ◌∷◌, Bool, true, false, not, any, Option, none, some, Eq, ◌==◌,
  string_eq, if◌then◌else◌,
}

-- A monitor that is to be watched.
pub record Wanted (C : Type 0) : Type 0 where
  pub id : String
  pub config : C

-- An entry of the map, with the number of its goroutine.
pub record Worker (C : Type 0) : Type 0 where
  pub id : String
  pub config : C
  pub goroutine : ℕ

-- The map, the goroutines that were cancelled, and the number of the next one.
pub record Workers (C : Type 0) : Type 0 where
  pub running : List (Worker C)
  pub cancelled : List ℕ
  pub next : ℕ

abbrev pub is_wanted : {C : Type 0} → List (Wanted C) → String → Bool
is_wanted wanted id = any (λ m. m.id == id) wanted

unfoldable pub find_worker : {C : Type 0} → String → List (Worker C) → Option (Worker C)
find_worker id [] = none
find_worker id (w ∷ ws) = let rest = find_worker id ws in if w.id == id then some w else rest

-- The first loop: workers of monitors that are gone are cancelled and deleted.
unfoldable pub drop_unwanted :
    {C : Type 0} → List (Wanted C) → List (Worker C) → List ℕ → List (Worker C) × List ℕ
drop_unwanted wanted [] cancelled = ([], cancelled)
drop_unwanted wanted (w ∷ ws) cancelled =
    let (left, gone) = drop_unwanted wanted ws cancelled in
    if is_wanted wanted w.id then (w ∷ left, gone) else (left, w.goroutine ∷ gone)

-- `r.workers[mon.ID] = ...`.
unfoldable pub set_worker : {C : Type 0} → Worker C → List (Worker C) → List (Worker C)
set_worker w [] = w ∷ []
set_worker w (v ∷ vs) = let rest = set_worker w vs in if v.id == w.id then w ∷ vs else v ∷ rest

abbrev pub start : {C : Type 0} → Wanted C → List ℕ → Workers C → Workers C
start m cancelled s = record {
  running = set_worker (record { id = m.id; config = m.config; goroutine = s.next }) s.running;
  cancelled = cancelled;
  next = suc s.next;
}

-- The body of the second loop.
abbrev pub ensure : {C : Type 0} ⦃e : Eq C⦄ → Wanted C → Option (Worker C) → Workers C → Workers C
ensure m none s = start m s.cancelled s
ensure m (some w) s = if w.config == m.config then s else start m (w.goroutine ∷ s.cancelled) s

unfoldable pub ensure_all : {C : Type 0} ⦃e : Eq C⦄ → List (Wanted C) → Workers C → Workers C
unfolding find_worker set_worker
ensure_all [] s = s
ensure_all (m ∷ ms) s = ensure_all ms (ensure m (find_worker m.id s.running) s)

unfoldable pub apply_config : {C : Type 0} ⦃e : Eq C⦄ → List (Wanted C) → Workers C → Workers C
unfolding drop_unwanted ensure_all
apply_config wanted s =
    let (running, cancelled) = drop_unwanted wanted s.running s.cancelled in
    ensure_all wanted (record s { running = running; cancelled = cancelled })
