-- ===== src/Store/Backfill/Rows.antt =====
-- The rows of the query in `listReportableUptimeRunsTx`, and the runs that its loop makes of them.
use upag.Base.{
  ◌≤◌, String, List, [], ◌∷◌, Bool, true, false, not, ◌&&◌, All, ◌==◌, nat_eq, bool_eq, string_eq,
  eq_iff, Bool-cases, ◌⊎◌, inl, inr, ◌≡◌, ◌∙◌, arith,
}
use upag.Store.Backfill.{UptimeRun, same_run, longer, join_after, join_runs}

abbrev pub HasNone : String → List UptimeRun → Type 0
HasNone id rows = All (λ r. (r.monitor_id == id) ≡ false) rows

-- What follows a row of the monitor: its other rows, none of which starts earlier, and then none.
abbrev pub FollowsOn : String → UptimeRun → List UptimeRun → Type 0
FollowsOn id r [] = Unit
FollowsOn id r (n ∷ rows) =
    (((n.monitor_id == id) ≡ true) × (r.started_at ≤ n.started_at) × FollowsOn id n rows)
    ⊎ HasNone id (n ∷ rows)

-- The rows of the monitor stand together, in the order of their times.
abbrev pub IsGrouped : String → List UptimeRun → Type 0
IsGrouped id [] = Unit
IsGrouped id (r ∷ rows) =
    (((r.monitor_id == id) ≡ true) × FollowsOn id r rows)
    ⊎ (((r.monitor_id == id) ≡ false) × IsGrouped id rows)

-- No run could be joined to the one before it.
abbrev pub ApartFrom : UptimeRun → List UptimeRun → Type 0
ApartFrom r [] = Unit
ApartFrom r (n ∷ rows) = (same_run r n ≡ false) × ApartFrom n rows

abbrev pub IsJoined : List UptimeRun → Type 0
IsJoined [] = Unit
IsJoined (r ∷ rows) = ApartFrom r rows

ApartFrom-join_after :
    (before last : UptimeRun) (rows : List UptimeRun)
    → same_run before last ≡ false
    → ApartFrom before (join_after last rows)
unfolding join_after
ApartFrom-join_after before last [] h = (h, tt)
ApartFrom-join_after before last (run ∷ rows) h = elim (Bool-cases (same_run last run)) [
  | inl e ↦ rw e (ApartFrom-join_after before (longer last run) rows h)
  | inr e ↦ rw e (h, ApartFrom-join_after last run rows e)
]

pub IsJoined-of_ApartFrom :
    (r : UptimeRun) (rows : List UptimeRun) → ApartFrom r rows → IsJoined rows
IsJoined-of_ApartFrom r [] h = tt
IsJoined-of_ApartFrom r (n ∷ rows) h = h.1

pub IsJoined-join_runs : (rows : List UptimeRun) → IsJoined (join_runs rows)
unfolding join_runs
IsJoined-join_runs [] = tt
IsJoined-join_runs (r ∷ rows) =
    let other : UptimeRun = record r { is_ok = not r.is_ok } in
    IsJoined-of_ApartFrom other (join_after r rows)
      (ApartFrom-join_after other r rows (other_outcome r.is_ok (r.monitor_id == r.monitor_id)))
  where
    other_outcome : (a b : Bool) → (b && (not a == a)) ≡ false
    other_outcome a b = ground arith

FollowsOn-of_HasNone :
    (id : String) (r : UptimeRun) (rows : List UptimeRun) → HasNone id rows → FollowsOn id r rows
FollowsOn-of_HasNone id r [] h = tt
FollowsOn-of_HasNone id r (n ∷ rows) h = inr h

FollowsOn-earlier :
    (id : String) (r later : UptimeRun) (rows : List UptimeRun)
    → r.started_at ≤ later.started_at
    → FollowsOn id later rows
    → FollowsOn id r rows
FollowsOn-earlier id r later [] h f = tt
FollowsOn-earlier id r later (n ∷ rows) h (inl (m, le, f)) = inl (m, omega arith, f)
FollowsOn-earlier id r later (n ∷ rows) h (inr none) = inr none

IsGrouped-of_HasNone : (id : String) (rows : List UptimeRun) → HasNone id rows → IsGrouped id rows
IsGrouped-of_HasNone id [] h = tt
IsGrouped-of_HasNone id (r ∷ rows) h = inr (h.0, IsGrouped-of_HasNone id rows h.1)

IsGrouped-of_FollowsOn :
    (id : String) (r : UptimeRun) (rows : List UptimeRun) → FollowsOn id r rows → IsGrouped id rows
IsGrouped-of_FollowsOn id r [] f = tt
IsGrouped-of_FollowsOn id r (n ∷ rows) (inl (m, le, f)) = inl (m, f)
IsGrouped-of_FollowsOn id r (n ∷ rows) (inr none) = IsGrouped-of_HasNone id (n ∷ rows) none

HasNone-join_after :
    (id : String) (last : UptimeRun) (rows : List UptimeRun)
    → HasNone id (last ∷ rows)
    → HasNone id (join_after last rows)
unfolding join_after
HasNone-join_after id last [] h = h
HasNone-join_after id last (run ∷ rows) h = elim (Bool-cases (same_run last run)) [
  | inl e ↦ rw e (HasNone-join_after id (longer last run) rows (h.0, h.1.1))
  | inr e ↦ rw e (h.0, HasNone-join_after id run rows h.1)
]

same_monitor :
    (id : String) (last run : UptimeRun)
    → same_run last run ≡ true
    → (run.monitor_id == id) ≡ (last.monitor_id == id)
same_monitor id last run h =
    let same : last.monitor_id ≡ run.monitor_id =
      ground (arith, eq_iff last.monitor_id run.monitor_id) in
    rw same

FollowsOn-join_after :
    (id : String) (before last : UptimeRun) (rows : List UptimeRun)
    → (last.monitor_id == id) ≡ true
    → before.started_at ≤ last.started_at
    → FollowsOn id last rows
    → FollowsOn id before (join_after last rows)
unfolding join_after
FollowsOn-join_after id before last [] m le f = inl (m, le, tt)
FollowsOn-join_after id before last (run ∷ rows) m le (inl (n, later, f)) =
    elim (Bool-cases (same_run last run)) [
      | inl e ↦ rw e (
          FollowsOn-join_after id before (longer last run) rows m le
            (FollowsOn-earlier id (longer last run) run rows later f))
      | inr e ↦ rw e (inl (m, le, FollowsOn-join_after id last run rows n later f))
    ]
FollowsOn-join_after id before last (run ∷ rows) m le (inr none) =
    elim (Bool-cases (same_run last run)) [
      | inl e ↦ absurd (ground (arith, same_monitor id last run e, none.0))
      | inr e ↦ rw e (
          inl (
            m,
            le,
            FollowsOn-of_HasNone id last (join_after run rows)
                (HasNone-join_after id run rows none),
          ))
    ]

pub IsGrouped-rest :
    (id : String) (r : UptimeRun) (rows : List UptimeRun)
    → (r.monitor_id == id) ≡ false
    → IsGrouped id (r ∷ rows)
    → IsGrouped id rows
IsGrouped-rest id r rows m (inl (n, f)) = absurd (ground arith)
IsGrouped-rest id r rows m (inr (n, g)) = g

IsGrouped-join_after :
    (id : String) (last : UptimeRun) (rows : List UptimeRun)
    → IsGrouped id (last ∷ rows)
    → IsGrouped id (join_after last rows)
unfolding join_after
IsGrouped-join_after id last rows (inl (m, f)) =
    IsGrouped-of_FollowsOn id last (join_after last rows)
      (FollowsOn-join_after id last last rows m (omega arith) f)
IsGrouped-join_after id last [] (inr h) = inr h
IsGrouped-join_after id last (run ∷ rows) (inr (m, g)) = elim (Bool-cases (same_run last run)) [
  | inl e ↦ rw e (
      IsGrouped-join_after id (longer last run) rows
        (inr (m, IsGrouped-rest id run rows (same_monitor id last run e ∙ m) g)))
  | inr e ↦ rw e (inr (m, IsGrouped-join_after id run rows g))
]

pub IsGrouped-join_runs :
    (id : String) (rows : List UptimeRun) → IsGrouped id rows → IsGrouped id (join_runs rows)
unfolding join_runs
IsGrouped-join_runs id [] g = tt
IsGrouped-join_runs id (r ∷ rows) g = IsGrouped-join_after id r rows g
