-- ===== src/Workers/Leaks.antt =====
-- The goroutines that applyConfig has started and cancelled.
use upag.Base.{
  ℕ, ◌<◌, ◌≡◌, refl, ◌∙◌, List, [], ◌∷◌, Bool, true, false, ◌||◌, any, Option, none, some, Eq, ◌==◌,
  nat_eq, string_eq, arith,
}
use upag.Workers.{
  Wanted, Worker, Workers, find_worker, drop_unwanted, set_worker, ensure, ensure_all, apply_config,
}

module _ {C : Type 0} ⦃e : Eq C⦄ where
  -- The goroutine `k` runs, or was cancelled.
  abbrev pub known : ℕ → List (Worker C) → List ℕ → Bool
  known k running cancelled = any (λ w. w.goroutine == k) running || any (λ j. j == k) cancelled

  abbrev pub NoLeak : Workers C → Type 0
  NoLeak s = (k : ℕ) → k < s.next → known k s.running s.cancelled ≡ true

  drop-known :
      (wanted : List (Wanted C)) (k : ℕ) (ws : List (Worker C)) (cancelled : List ℕ)
      → let (left, gone) = drop_unwanted wanted ws cancelled in
        known k left gone ≡ known k ws cancelled
  unfolding drop_unwanted
  drop-known wanted k [] cancelled = refl
  drop-known wanted k (w ∷ ws) cancelled = ground (arith, drop-known wanted k ws cancelled)

  abbrev has_goroutine : ℕ → Option (Worker C) → Bool
  has_goroutine k none = false
  has_goroutine k (some w) = w.goroutine == k

  -- A worker that is set runs, and it takes the place of one worker at most.
  set-known :
      (k : ℕ) (w : Worker C) (ws : List (Worker C)) (cancelled : List ℕ)
      → (known k ws cancelled ≡ true
          → (known k (set_worker w ws) cancelled || has_goroutine k (find_worker w.id ws)) ≡ true)
        × (w.goroutine ≡ k → known k (set_worker w ws) cancelled ≡ true)
  unfolding set_worker find_worker
  set-known k w [] cancelled = ground arith
  set-known k w (v ∷ vs) cancelled = ground (arith, set-known k w vs cancelled)

  ensure-NoLeak :
      (m : Wanted C) (found : Option (Worker C)) (s : Workers C)
      → find_worker m.id s.running ≡ found
      → NoLeak s
      → NoLeak (ensure m found s)
  ensure-NoLeak m none s h n = λ k below.
      let w : Worker C = record { id = m.id; config = m.config; goroutine = s.next } in
      ground (arith, set-known k w s.running s.cancelled, n k)
  ensure-NoLeak m (some v) s h n = λ k below.
      let w : Worker C = record { id = m.id; config = m.config; goroutine = s.next } in
      ground (arith, set-known k w s.running s.cancelled, n k)

  ensure_all-NoLeak : (ms : List (Wanted C)) (s : Workers C) → NoLeak s → NoLeak (ensure_all ms s)
  unfolding ensure_all
  ensure_all-NoLeak [] s n = n
  ensure_all-NoLeak (m ∷ ms) s n =
      let found = find_worker m.id s.running in
      ensure_all-NoLeak ms (ensure m found s) (ensure-NoLeak m found s refl n)

  -- Whatever configuration is applied, every goroutine that was ever started either runs for a
  -- monitor of the map or was cancelled, if that was so before.
  pub apply_config-NoLeak :
      (wanted : List (Wanted C)) (s : Workers C) → NoLeak s → NoLeak (apply_config wanted s)
  unfolding apply_config
  apply_config-NoLeak wanted s n =
      let (running, cancelled) = drop_unwanted wanted s.running s.cancelled in
      ensure_all-NoLeak wanted (record s { running = running; cancelled = cancelled })
        (λ k below. drop-known wanted k s.running s.cancelled ∙ n k below)
