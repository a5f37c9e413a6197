-- ===== src/Workers/Running.antt =====
-- Which workers run after a configuration was applied.
use upag.Base.{
  ℕ, ◌≡◌, ◌≢◌, refl, sym, subst, ◌∙◌, String, List, [], ◌∷◌, true, false, Option, none, some, Eq,
  eq_iff, ◌==◌, string_eq, if◌then◌else◌, arith, Bool-cases, inl, inr, ◌⊎◌,
}
use upag.Workers.{
  Wanted, Worker, Workers, is_wanted, find_worker, drop_unwanted, set_worker, ensure, ensure_all,
  apply_config,
}

module _ {C : Type 0} ⦃e : Eq C⦄ where
  find-set :
      (w : Worker C) (id : String) (ws : List (Worker C))
      → find_worker id (set_worker w ws) ≡ (if w.id == id then some w else find_worker id ws)
  unfolding find_worker set_worker
  find-set w id [] = refl
  find-set w id (v ∷ vs) =
      ground (arith, find-set w id vs, eq_iff v.id w.id, eq_iff v.id id, eq_iff w.id id)

  find-drop :
      (wanted : List (Wanted C)) (id : String) (ws : List (Worker C)) (cancelled : List ℕ)
      → find_worker id (drop_unwanted wanted ws cancelled).0
        ≡ (if is_wanted wanted id then find_worker id ws else none)
  unfolding find_worker drop_unwanted
  find-drop wanted id [] cancelled = ground arith
  find-drop wanted id (w ∷ ws) cancelled =
      ground (arith, find-drop wanted id ws cancelled, eq_iff w.id id)

  ensure_other :
      (m : Wanted C) (found : Option (Worker C)) (s : Workers C) (id : String)
      → m.id ≢ id
      → find_worker id (ensure m found s).running ≡ find_worker id s.running
  ensure_other m none s id h = ground (
    arith,
    find-set (record { id = m.id; config = m.config; goroutine = s.next }) id s.running,
    eq_iff m.id id,
  )
  ensure_other m (some w) s id h = ground (
    arith,
    find-set (record { id = m.id; config = m.config; goroutine = s.next }) id s.running,
    eq_iff m.id id,
  )

  -- Later monitors of the list leave the worker alone.
  ensure_all_other :
      (ms : List (Wanted C)) (s : Workers C) (id : String)
      → is_wanted ms id ≡ false
      → find_worker id (ensure_all ms s).running ≡ find_worker id s.running
  unfolding ensure_all
  ensure_all_other [] s id h = refl
  ensure_all_other (m ∷ ms) s id h = ground (
    arith,
    ensure_all_other ms (ensure m (find_worker m.id s.running) s) id,
    ensure_other m (find_worker m.id s.running) s id,
    eq_iff m.id id,
  )

  -- The worker of a wanted monitor: the old one if its configuration is the same.
  abbrev pub Serves : Wanted C → Option (Worker C) → Option (Worker C) → Type 0
  Serves m before after =
      ((w : Worker C) × (after ≡ some w) × (w.config ≡ m.config))
      × ((v : Worker C) → before ≡ some v → v.config ≡ m.config → after ≡ some v)

  ensure-Serves :
      (m : Wanted C) (found : Option (Worker C)) (s : Workers C)
      → find_worker m.id s.running ≡ found
      → Serves m found (find_worker m.id (ensure m found s).running)
  ensure-Serves m none s h =
      let w : Worker C = record { id = m.id; config = m.config; goroutine = s.next } in
      ((w, ground (arith, find-set w m.id s.running, eq_iff m.id m.id), refl), λ v absent same. cc)
  ensure-Serves m (some v) s h =
      let w : Worker C = record { id = m.id; config = m.config; goroutine = s.next } in
      let (to, from) = e.same_iff v.config m.config in
      elim (Bool-cases (v.config == m.config)) [
        | inl same ↦ rw same ((v, h, to same), λ u found other. h ∙ found)
        | inr other ↦ rw other (
          (w, ground (arith, find-set w m.id s.running, eq_iff m.id m.id), refl),
          λ u found same. absurd (ground arith),
        )
      ]

  -- The configuration has a monitor once.
  abbrev pub Distinct : List (Wanted C) → Type 0
  Distinct [] = Unit
  Distinct (m ∷ ms) = (is_wanted ms m.id ≡ false) × Distinct ms

  abbrev pub Member : Wanted C → List (Wanted C) → Type 0
  Member m [] = ⊥
  Member m (x ∷ xs) = (m ≡ x) ⊎ Member m xs

  is_wanted-Member : (m : Wanted C) (ms : List (Wanted C)) → Member m ms → is_wanted ms m.id ≡ true
  is_wanted-Member m [] h = elim h [ ]
  is_wanted-Member m (x ∷ xs) (inl same) = rw same (ground (arith, eq_iff x.id x.id))
  is_wanted-Member m (x ∷ xs) (inr later) = ground (arith, is_wanted-Member m xs later)

  ensure_all-Serves :
      (ms : List (Wanted C)) (s : Workers C) (m : Wanted C)
      → Distinct ms
      → Member m ms
      → Serves m (find_worker m.id s.running) (find_worker m.id (ensure_all ms s).running)
  unfolding ensure_all
  ensure_all-Serves [] s m d h = elim h [ ]
  ensure_all-Serves (x ∷ xs) s m d (inl same) =
      let next = ensure x (find_worker x.id s.running) s in
      rw same (
        subst (Serves x (find_worker x.id s.running)) (sym (ensure_all_other xs next x.id d.0))
          (ensure-Serves x (find_worker x.id s.running) s refl))
  ensure_all-Serves (x ∷ xs) s m d (inr later) =
      let next = ensure x (find_worker x.id s.running) s in
      let apart : x.id ≢ m.id = λ e'. cc (is_wanted-Member m xs later, d.0, e') in
      subst (λ before. Serves m before (find_worker m.id (ensure_all xs next).running))
        (ensure_other x (find_worker x.id s.running) s m.id apart)
        (ensure_all-Serves xs next m d.1 later)

  -- After a configuration whose monitors have different ids was applied, each of its monitors has a
  -- worker with its configuration, which is the old worker if that had the same one already; and no
  -- other monitor has a worker.
  pub apply_config-Serves :
      (wanted : List (Wanted C)) (s : Workers C)
      → Distinct wanted
      → ((m : Wanted C)
          → Member m wanted
          → Serves m
              (find_worker m.id s.running)
              (find_worker m.id (apply_config wanted s).running))
        × ((id : String)
            → is_wanted wanted id ≡ false
            → find_worker id (apply_config wanted s).running ≡ none)
  unfolding apply_config
  apply_config-Serves wanted s d =
      let (running, cancelled) = drop_unwanted wanted s.running s.cancelled in
      let kept = record s { running = running; cancelled = cancelled } in
      (
        λ m h.
            subst (λ before. Serves m before (find_worker m.id (ensure_all wanted kept).running))
              (rw (find-drop wanted m.id s.running s.cancelled, is_wanted-Member m wanted h) refl)
              (ensure_all-Serves wanted kept m d h),
        λ id h.
            ensure_all_other wanted kept id h
            ∙ rw (find-drop wanted id s.running s.cancelled, h) refl,
      )
