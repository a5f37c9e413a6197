-- ===== src/Store/Intervals/Chain.antt =====
-- The status history of one monitor as a chain of intervals.
use upag.Base.{
  ℕ, String, List, [], ◌∷◌, Option, none, some, Bool, true, false, ◌≤◌, ◌<◌, ◌≡◌, ◌≢◌, refl, keep,
  eq_iff, arith, ◌==◌, nat_eq, string_eq, if◌then◌else◌, Bool-cases, inl, inr,
}
use upag.State.{Status, status_eq}
use upag.Storage.{StatusInterval}
use upag.Store.Defs.{Store}
use upag.Store.Intervals.{open_interval, close_interval, opened, save_status_interval}

-- The rows of one monitor, newest first.
abbrev pub history_of : String → List StatusInterval → List StatusInterval
history_of id = keep (λ r. r.monitor_id == id)

-- Older intervals: each ended where the next one started, with another status.
abbrev pub Closed : ℕ → Status → List StatusInterval → Type 0
Closed t status [] = Unit
Closed t status (r ∷ rs) =
    (r.ended_at ≡ some t)
    × (r.started_at ≤ t)
    × (r.status ≢ status)
    × Closed r.started_at r.status rs

-- The newest interval is open, and the others lead up to it without a gap.
abbrev pub IsChain : List StatusInterval → Type 0
IsChain [] = Unit
IsChain (r ∷ rs) = (r.ended_at ≡ none) × Closed r.started_at r.status rs

-- Ids fall along the table and stay under the counter.
abbrev pub Below : ℕ → List StatusInterval → Type 0
Below n [] = Unit
Below n (r ∷ rs) = (r.id < n) × Below r.id rs

-- The last status began at or before `t`.
abbrev pub StartedBy : ℕ → List StatusInterval → Type 0
StartedBy t [] = Unit
StartedBy t (r ∷ rs) = r.started_at ≤ t

-- What `saveStatusInterval` does to the history of its monitor.
abbrev pub extend_history :
    ℕ → String → Status → ℕ → Bool → List StatusInterval → List StatusInterval
extend_history id monitor_id status t was_down [] = opened id monitor_id status t ∷ []
extend_history id monitor_id status t was_down (r ∷ rs) =
    if r.status == status
    then r ∷ rs
    else opened id monitor_id status t ∷ record r { ended_at = some t; downtime = was_down } ∷ rs

close-above :
    (id t n : ℕ) (d : Bool) (rows : List StatusInterval)
    → Below n rows
    → n ≤ id
    → close_interval id t d rows ≡ rows
unfolding close_interval
close-above id t n d [] b h = refl
close-above id t n d (r ∷ rs) b h = ground (arith, close-above id t r.id d rs b.1)

-- The newest row of the monitor, as the query finds it.
open_interval-head :
    (m : String) (rows : List StatusInterval) (r : StatusInterval) (rs : List StatusInterval)
    → history_of m rows ≡ r ∷ rs
    → r.ended_at ≡ none
    → open_interval m rows ≡ some r
unfolding open_interval
open_interval-head m [] r rs e o = cc
open_interval-head m (x ∷ xs) r rs e o = ground (arith, open_interval-head m xs r rs)

open_interval-none :
    (m : String) (rows : List StatusInterval) → history_of m rows ≡ [] → open_interval m rows ≡ none
unfolding open_interval
open_interval-none m [] e = refl
open_interval-none m (x ∷ xs) e = ground (arith, open_interval-none m xs)

head-Below :
    (m : String) (n : ℕ) (rows : List StatusInterval) (r : StatusInterval)
    (rs : List StatusInterval)
    → Below n rows
    → history_of m rows ≡ r ∷ rs
    → (r.id < n) × (r.monitor_id ≡ m)
head-Below m n [] r rs b e = cc
head-Below m n (x ∷ xs) r rs b e =
    ground (arith, head-Below m x.id xs r rs b.1, eq_iff x.monitor_id m)

history_of-close :
    (m : String) (n t : ℕ) (d : Bool) (rows : List StatusInterval) (r : StatusInterval)
    (rs : List StatusInterval)
    → Below n rows
    → history_of m rows ≡ r ∷ rs
    → history_of m (close_interval r.id t d rows)
      ≡ record r { ended_at = some t; downtime = d } ∷ rs
unfolding close_interval
history_of-close m n t d [] r rs b e = cc
history_of-close m n t d (x ∷ xs) r rs b e = ground (
  arith,
  history_of-close m x.id t d xs r rs b.1,
  head-Below m x.id xs r rs b.1,
  close-above x.id t x.id d xs b.1,
)

history_of-close_other :
    (m other : String) (n t : ℕ) (d : Bool) (rows : List StatusInterval) (r : StatusInterval)
    (rs : List StatusInterval)
    → other ≢ m
    → Below n rows
    → history_of m rows ≡ r ∷ rs
    → history_of other (close_interval r.id t d rows) ≡ history_of other rows
unfolding close_interval
history_of-close_other m other n t d [] r rs ne b e = refl
history_of-close_other m other n t d (x ∷ xs) r rs ne b e = ground (
  arith,
  history_of-close_other m other x.id t d xs r rs ne b.1,
  head-Below m x.id xs r rs b.1,
  close-above x.id t x.id d xs b.1,
  eq_iff x.monitor_id m,
  eq_iff x.monitor_id other,
)

Below-close :
    (id t n : ℕ) (d : Bool) (rows : List StatusInterval)
    → Below n rows
    → Below n (close_interval id t d rows)
unfolding close_interval
Below-close id t n d [] b = tt
Below-close id t n d (r ∷ rs) b = ground (arith, Below-close id t r.id d rs b.1)

abbrev pub latest_status : List StatusInterval → Option Status
latest_status [] = none
latest_status (r ∷ rs) = some r.status

-- What one call leaves of the table, for its monitor and for any other.
abbrev pub Kept : Store → Store → String → Status → Type 0
Kept s s' m status =
    IsChain (history_of m s'.status_intervals)
    × (latest_status (history_of m s'.status_intervals) ≡ some status)
    × Below s'.next_interval_id s'.status_intervals
    × ((other : String)
        → other ≢ m
        → history_of other s'.status_intervals ≡ history_of other s.status_intervals)

save-first :
    (s : Store) (m : String) (status : Status) (t : ℕ)
    → Below s.next_interval_id s.status_intervals
    → history_of m s.status_intervals ≡ []
    → Kept s (save_status_interval s m status t) m status
unfolding save_status_interval
save-first s m status t b e =
    rw (open_interval-none m s.status_intervals e, save_status_interval)
      (
        ground (arith, eq_iff m m),
        ground (arith, eq_iff m m),
        ground arith,
        λ other ne. ground (arith, eq_iff m other),
      )

save-same :
    (s : Store) (m : String) (status : Status) (t : ℕ) (r : StatusInterval)
    (rs : List StatusInterval)
    → Below s.next_interval_id s.status_intervals
    → IsChain (r ∷ rs)
    → history_of m s.status_intervals ≡ r ∷ rs
    → r.status ≡ status
    → Kept s (save_status_interval s m status t) m status
unfolding save_status_interval
save-same s m status t r rs b c e same =
    let found = open_interval-head m s.status_intervals r rs e c.0 in
    (ground arith, ground arith, ground arith, λ other ne. ground arith)

save-change :
    (s : Store) (m : String) (status : Status) (t : ℕ) (r : StatusInterval)
    (rs : List StatusInterval)
    → Below s.next_interval_id s.status_intervals
    → IsChain (r ∷ rs)
    → r.started_at ≤ t
    → history_of m s.status_intervals ≡ r ∷ rs
    → r.status ≢ status
    → Kept s (save_status_interval s m status t) m status
unfolding save_status_interval
save-change s m status t r rs b c st e change =
    let found = open_interval-head m s.status_intervals r rs e c.0 in
    let n = s.next_interval_id in
    let rows = s.status_intervals in
    (
      ground (
        arith,
        eq_iff m m,
        history_of-close m n t true rows r rs,
        history_of-close m n t false rows r rs,
      ),
      ground (arith, eq_iff m m),
      ground (arith, Below-close r.id t n true rows, Below-close r.id t n false rows),
      λ other ne. ground (
        arith,
        eq_iff m other,
        history_of-close_other m other n t true rows r rs,
        history_of-close_other m other n t false rows r rs,
      ),
    )

save-by-history :
    (s : Store) (m : String) (status : Status) (t : ℕ) (h : List StatusInterval)
    → history_of m s.status_intervals ≡ h
    → Below s.next_interval_id s.status_intervals
    → IsChain h
    → StartedBy t h
    → Kept s (save_status_interval s m status t) m status
save-by-history s m status t [] e b c st = save-first s m status t b e
save-by-history s m status t (r ∷ rs) e b c st = elim (Bool-cases (r.status == status)) [
  | inl same ↦ save-same s m status t r rs b c e (ground arith)
  | inr change ↦ save-change s m status t r rs b c st e (ground arith)
]

-- If the intervals of a monitor form a chain (the newest open, each older one ended where the next
-- began, under another status) whose newest did not begin after `t`, then recording a status at
-- `t` keeps the chain, makes the status the latest, keeps the ids below the counter, and leaves the
-- intervals of every other monitor as they were.
pub save_status_interval-Kept :
    (s : Store) (m : String) (status : Status) (t : ℕ)
    → Below s.next_interval_id s.status_intervals
    → IsChain (history_of m s.status_intervals)
    → StartedBy t (history_of m s.status_intervals)
    → Kept s (save_status_interval s m status t) m status
save_status_interval-Kept s m status t b c st =
    save-by-history s m status t (history_of m s.status_intervals) refl b c st
