-- ===== src/Store/Backfill/History.antt =====
-- The history that `EnsureStatusIntervalsBackfilled` makes, beside the one that `saveStatusInterval`
-- continues.
use upag.Base.{
  ℕ, ◌+◌, map, keep, String, List, [], ◌∷◌, Bool, true, false, none, some, ◌==◌, nat_eq, bool_eq,
  string_eq, eq_iff, if◌then◌else◌, inl, inr, ◌≡◌, ◌≢◌, refl, ap, leb, ◌∙◌, sym, arith,
}
use upag.State.{up, failing, down}
use upag.Storage.{StatusInterval}
use upag.Store.Defs.{Store, available}
use upag.Store.Intervals.Chain.{history_of, Closed, IsChain}
use upag.Store.Rollups.{ProbeTables, is_reportable}
use upag.Store.Rollups.Runs.{probes_in_runs}
use upag.Store.Rollups.Compacted.{probes_in}
use upag.Store.Backfill.Told.{
  entry, entry_of_run, onto, entries-backfill, probes_of, probes_of-runs,
}
use upag.Store.Backfill.{
  FailureThresholds, for_monitor, UptimeRun, same_run, status_of_run, run_row, insert_run, run_rows,
  join_runs, list_reportable_uptime_runs, backfill_status_intervals_from_runs, Backfilled,
  ensure_status_intervals_backfilled,
}
use upag.Store.Backfill.Rows.{
  HasNone, FollowsOn, IsGrouped, IsJoined-of_ApartFrom, ApartFrom, IsJoined, IsJoined-join_runs,
  IsGrouped-join_runs,
}

same_id : (x y id : String) → (x == id) ≡ true → (y == id) ≡ true → (x == y) ≡ true
same_id x y id hx hy = (eq_iff x y).1 ((eq_iff x id).0 hx ∙ sym ((eq_iff y id).0 hy))

other_id : (x y id : String) → (x == id) ≡ true → (y == id) ≡ false → (y == x) ≡ false
other_id x y id hx hy = let same : x ≡ id = (eq_iff x id).0 hx in rw same hy

other_outcome :
    (a b c d : Bool)
    → (a == b) ≡ false
    → (if a then up else if c then down else failing)
      ≢ (if b then up else if d then down else failing)
other_outcome a b c d h = ground arith

module _ (th : FailureThresholds) (id : String) where
  abbrev history : Store → List StatusInterval
  history s = history_of id s.status_intervals

  history-other :
      (r : UptimeRun) (rest : List UptimeRun) (s : Store)
      → (r.monitor_id == id) ≡ false
      → history (insert_run th r rest s) ≡ history s
  history-other r rest s h = rw h

  history-own :
      (r : UptimeRun) (rest : List UptimeRun) (s : Store)
      → (r.monitor_id == id) ≡ true
      → history (insert_run th r rest s) ≡ run_row th s.next_interval_id r rest ∷ history s
  history-own r rest s h = rw h

  history-none :
      (rows : List UptimeRun) (s : Store)
      → HasNone id rows
      → history (backfill_status_intervals_from_runs th rows s) ≡ history s
  unfolding backfill_status_intervals_from_runs
  history-none [] s h = refl
  history-none (r ∷ rest) s h =
      history-none rest (insert_run th r rest s) h.1 ∙ history-other r rest s h.0

  other_status :
      (r n : UptimeRun)
      → (r.monitor_id == id) ≡ true
      → (n.monitor_id == id) ≡ true
      → same_run r n ≡ false
      → status_of_run th r ≢ status_of_run th n
  other_status r n hr hn h =
      other_outcome r.is_ok n.is_ok (leb (for_monitor th r.monitor_id) r.probe_count)
        (leb (for_monitor th n.monitor_id) n.probe_count)
        (ground (arith, same_id r.monitor_id n.monitor_id id hr hn))

  after_run :
      (r : UptimeRun) (rest : List UptimeRun) (s : Store) (k : ℕ) (older : List StatusInterval)
      → (r.monitor_id == id) ≡ true
      → history s ≡ run_row th k r rest ∷ older
      → Closed r.started_at (status_of_run th r) older
      → FollowsOn id r rest
      → ApartFrom r rest
      → IsChain (history (backfill_status_intervals_from_runs th rest s))
  unfolding backfill_status_intervals_from_runs
  after_run r [] s k older m h c f a = rw h (refl, c)
  after_run r (n ∷ rest) s k older m h c (inl (own, le, f)) a =
      after_run n rest (insert_run th n rest s) s.next_interval_id
        (run_row th k r (n ∷ rest) ∷ older) own
        (history-own n rest s own
          ∙ ap (λ (hs : List StatusInterval). run_row th s.next_interval_id n rest ∷ hs) h)
        (rw (same_id n.monitor_id r.monitor_id id own m) refl, le, other_status r n m own a.0, c) f
        a.1
  after_run r (n ∷ rest) s k older m h c (inr others) a =
      rw (history-none (n ∷ rest) s others, h)
        (rw (other_id r.monitor_id n.monitor_id id m others.0) refl, c)

  IsChain-backfill :
      (rows : List UptimeRun) (s : Store)
      → history s ≡ []
      → IsGrouped id rows
      → IsJoined rows
      → IsChain (history (backfill_status_intervals_from_runs th rows s))
  unfolding backfill_status_intervals_from_runs
  IsChain-backfill [] s h g j = rw h tt
  IsChain-backfill (r ∷ rest) s h (inl (own, f)) j =
      after_run r rest (insert_run th r rest s) s.next_interval_id [] own
        (history-own r rest s own
          ∙ ap (λ (hs : List StatusInterval). run_row th s.next_interval_id r rest ∷ hs) h)
        tt f j
  IsChain-backfill (r ∷ rest) s h (inr (other, g)) j =
      IsChain-backfill rest (insert_run th r rest s) (history-other r rest s other ∙ h) g
        (IsJoined-of_ApartFrom r rest j)

list_runs : (t : ProbeTables) → list_reportable_uptime_runs t ≡ join_runs (run_rows t)
unfolding list_reportable_uptime_runs
list_runs t = refl

abbrev filled : FailureThresholds → ℕ → ProbeTables → Store → Backfilled
filled th clock t s = record {
  marker = some (clock, for_monitor th "");
  store =
      backfill_status_intervals_from_runs th (list_reportable_uptime_runs t)
        (record s { status_intervals = [] });
}

ensure_first :
    (th : FailureThresholds) (clock : ℕ) (t : ProbeTables) (s : Store)
    → ensure_status_intervals_backfilled available th clock t (record { marker = none; store = s })
      ≡ (filled th clock t s, none)
unfolding ensure_status_intervals_backfilled
ensure_first th clock t s = refl

ensure_again :
    (th : FailureThresholds) (clock : ℕ) (t : ProbeTables) (row : ℕ × ℕ) (s : Store)
    → let b : Backfilled = record { marker = some row; store = s } in
      ensure_status_intervals_backfilled available th clock t b ≡ (b, none)
unfolding ensure_status_intervals_backfilled
ensure_again th clock t row s = refl

-- Provided that the rows of a monitor stand together and in the order of their times, the first call
-- makes the history of the monitor anew, whatever the table held before: oldest first, it has one
-- interval for each run, which begins with the run and is UP for successes, DOWN for as many failures
-- as the threshold asks for (that of the monitor if it is positive, or else the default, or else one)
-- and FAILING for fewer. The runs stand for as many probes of each outcome as the runs of outcomes
-- and the reportable results of the tables together. `saveStatusInterval` can continue the history:
-- the newest interval is open, every older one ended where the next began, and no two that follow
-- each other have the same status. A second call, whatever its thresholds, time and tables, changes
-- nothing.
pub ensure_backfilled-IsChain :
    (th again : FailureThresholds) (clock later : ℕ) (t other : ProbeTables) (s : Store)
    (id : String) (ok : Bool)
    → IsGrouped id (run_rows t)
    → let first =
        ensure_status_intervals_backfilled available th clock t
          (record { marker = none; store = s }) in
      let made = history_of id first.0.store.status_intervals in
      let runs = list_reportable_uptime_runs t in
      (map entry made ≡ onto (map (entry_of_run th) (keep (λ r. r.monitor_id == id) runs)) [])
      × (probes_of id ok runs
          ≡ probes_in_runs id ok t.runs.rows + probes_in id ok (keep is_reportable t.results))
      × IsChain made
      × (ensure_status_intervals_backfilled available again later other first.0 ≡ (first.0, none))
ensure_backfilled-IsChain th again clock later t other s id ok g =
    let emptied : Store = record s { status_intervals = [] } in
    rw (ensure_first th clock t s, list_runs t)
      (
        entries-backfill th id (join_runs (run_rows t)) emptied,
        probes_of-runs id ok t,
        IsChain-backfill th id (join_runs (run_rows t)) emptied refl
            (IsGrouped-join_runs id (run_rows t) g) (IsJoined-join_runs (run_rows t)),
        ensure_again again later other (clock, for_monitor th "")
            (backfill_status_intervals_from_runs th (join_runs (run_rows t)) emptied),
      )
