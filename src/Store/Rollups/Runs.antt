-- ===== src/Store/Rollups/Runs.antt =====
-- How many probes the runs of outcomes stand for.
use upag.Base.{
  ℕ, ◌+◌, ◌<◌, ◌≤◌, String, List, [], ◌∷◌, Bool, true, false, ◌&&◌, Option, none, some, ◌==◌,
  nat_eq, string_eq, if◌then◌else◌, Bool-cases, ◌⊎◌, inl, inr, ◌≡◌, nat_beq_iff, subst, refl, ap,
  sym, ◌∙◌, arith, eq_iff,
}
use upag.Store.Rollups.Outcomes.{
  OutcomeRun, RunTable, same_outcome, is_later, later_of, latest_run, extend_run, after_latest,
  append_outcome_run,
}

-- The ids are those of AUTOINCREMENT: each is below those given later.
abbrev pub Numbered : ℕ → List OutcomeRun → Type 0
Numbered n [] = Unit
Numbered n (r ∷ rs) = (r.id < n) × Numbered r.id rs

abbrev Among : OutcomeRun → List OutcomeRun → Type 0
Among x [] = ⊥
Among x (r ∷ rs) = (x ≡ r) ⊎ Among x rs

later_of-either :
    (r : OutcomeRun) (rest : Option OutcomeRun) (last : OutcomeRun)
    → some (later_of r rest) ≡ some last
    → (last ≡ r) ⊎ (rest ≡ some last)
later_of-either r none last h = inl (ground arith)
later_of-either r (some o) last h = elim (Bool-cases (is_later o r)) [
  | inl e ↦ inr (ground arith)
  | inr e ↦ inl (ground arith)
]

latest_run-Among :
    (id : String) (rows : List OutcomeRun) (last : OutcomeRun)
    → latest_run id rows ≡ some last
    → Among last rows × ((last.monitor_id == id) ≡ true)
unfolding latest_run
latest_run-Among id [] last h = absurd (ground arith)
latest_run-Among id (r ∷ rs) last h = elim (Bool-cases (r.monitor_id == id)) [
  | inl e ↦ elim (later_of-either r (latest_run id rs) last (ground arith)) [
    | inl same ↦ (inl same, ap (λ (y : OutcomeRun). y.monitor_id == id) same ∙ e)
    | inr there ↦ let found = latest_run-Among id rs last there in (inr found.0, found.1)
  ]
  | inr e ↦ let found = latest_run-Among id rs last (ground arith) in (inr found.0, found.1)
]

extend_run-none :
    (id at n : ℕ) (rows : List OutcomeRun) → Numbered n rows → n ≤ id → extend_run id at rows ≡ rows
unfolding extend_run
extend_run-none id at n [] h le = refl
extend_run-none id at n (r ∷ rs) h le = ground (arith, extend_run-none id at r.id rs h.1)

extend_run-Numbered :
    (id at n : ℕ) (rows : List OutcomeRun) → Numbered n rows → Numbered n (extend_run id at rows)
unfolding extend_run
extend_run-Numbered id at n [] h = tt
extend_run-Numbered id at n (r ∷ rs) h = elim (Bool-cases (r.id == id)) [
  | inl e ↦ rw e (h.0, extend_run-Numbered id at r.id rs h.1)
  | inr e ↦ rw e (h.0, extend_run-Numbered id at r.id rs h.1)
]

after_latest-Numbered :
    (monitor_id : String) (at : ℕ) (outcome : Bool) (t : RunTable) (latest : Option OutcomeRun)
    → Numbered t.next_id t.rows
    → let u = after_latest monitor_id at outcome t latest in Numbered u.next_id u.rows
after_latest-Numbered monitor_id at outcome t none h = (omega arith, h)
after_latest-Numbered monitor_id at outcome t (some last) h =
    elim (Bool-cases (same_outcome last.ok outcome)) [
      | inl s ↦ rw s (extend_run-Numbered last.id at t.next_id t.rows h)
      | inr s ↦ rw s (omega arith, h)
    ]

pub append_outcome_run-Numbered :
    (monitor_id : String) (at : ℕ) (outcome : Bool) (t : RunTable)
    → Numbered t.next_id t.rows
    → let u = append_outcome_run monitor_id at outcome t in Numbered u.next_id u.rows
unfolding append_outcome_run
append_outcome_run-Numbered monitor_id at outcome t h =
    after_latest-Numbered monitor_id at outcome t (latest_run monitor_id t.rows) h

module _ (id : String) (ok : Bool) where
  abbrev pub in_run : OutcomeRun → ℕ
  in_run r = if r.monitor_id == id && same_outcome r.ok ok then r.probe_count else 0

  unfoldable pub probes_in_runs : List OutcomeRun → ℕ
  probes_in_runs [] = 0
  probes_in_runs (r ∷ rs) = in_run r + probes_in_runs rs

  abbrev pub one_probe : String → Bool → ℕ
  one_probe monitor_id outcome = if monitor_id == id && same_outcome outcome ok then 1 else 0

  Among-below :
      (x : OutcomeRun) (n : ℕ) (rows : List OutcomeRun) → Numbered n rows → Among x rows → x.id < n
  Among-below x n [] h m = absurd m
  Among-below x n (r ∷ rs) h (inl e) = ground (arith, ap (λ (y : OutcomeRun). y.id) e)
  Among-below x n (r ∷ rs) h (inr m) = omega (arith, Among-below x r.id rs h.1 m)

  extended_here :
      (at : ℕ) (r : OutcomeRun) (rs : List OutcomeRun)
      → Numbered r.id rs
      → probes_in_runs (extend_run r.id at (r ∷ rs))
        ≡ probes_in_runs (r ∷ rs) + one_probe r.monitor_id r.ok
  unfolding probes_in_runs extend_run
  extended_here at r rs h = ground (arith, extend_run-none r.id at r.id rs h, nat_beq_iff r.id r.id)

  extended :
      (x : OutcomeRun) (at n : ℕ) (rows : List OutcomeRun)
      → Numbered n rows
      → Among x rows
      → probes_in_runs (extend_run x.id at rows) ≡ probes_in_runs rows + one_probe x.monitor_id x.ok
  unfolding probes_in_runs extend_run
  extended x at n [] h m = absurd m
  extended x at n (r ∷ rs) h (inl e) =
      subst
        (λ (y : OutcomeRun).
          probes_in_runs (extend_run y.id at (r ∷ rs))
          ≡ probes_in_runs (r ∷ rs) + one_probe y.monitor_id y.ok)
        (sym e) (extended_here at r rs h.1)
  extended x at n (r ∷ rs) h (inr m) =
      ground (arith, extended x at r.id rs h.1 m, Among-below x r.id rs h.1 m)

  same_outcome_trans :
      (a b c : Bool) → same_outcome a b ≡ true → same_outcome a c ≡ same_outcome b c
  same_outcome_trans true true c h = refl
  same_outcome_trans true false c h = absurd (ground arith)
  same_outcome_trans false true c h = absurd (ground arith)
  same_outcome_trans false false c h = refl

  after_latest-probes :
      (monitor_id : String) (at : ℕ) (outcome : Bool) (t : RunTable)
      → Numbered t.next_id t.rows
      → (latest : Option OutcomeRun) → latest_run monitor_id t.rows ≡ latest
      → probes_in_runs (after_latest monitor_id at outcome t latest).rows
        ≡ probes_in_runs t.rows + one_probe monitor_id outcome
  unfolding probes_in_runs
  after_latest-probes monitor_id at outcome t h none e = ground arith
  after_latest-probes monitor_id at outcome t h (some last) e =
      let found = latest_run-Among monitor_id t.rows last e in
      elim (Bool-cases (same_outcome last.ok outcome)) [
        | inl s ↦ rw s (
            ground (
              arith,
              extended last at t.next_id t.rows h found.0,
              (eq_iff last.monitor_id monitor_id).0 found.1,
              ap (λ m. m == id) ((eq_iff last.monitor_id monitor_id).0 found.1),
              same_outcome_trans last.ok outcome ok s,
            ))
        | inr s ↦ rw s (ground arith)
      ]

  pub append_outcome_run-probes :
      (monitor_id : String) (at : ℕ) (outcome : Bool) (t : RunTable)
      → Numbered t.next_id t.rows
      → probes_in_runs (append_outcome_run monitor_id at outcome t).rows
        ≡ probes_in_runs t.rows + one_probe monitor_id outcome
  unfolding append_outcome_run
  append_outcome_run-probes monitor_id at outcome t h =
      after_latest-probes monitor_id at outcome t h (latest_run monitor_id t.rows) refl
