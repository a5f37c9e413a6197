-- ===== src/Store/ObserverChecks.antt =====
-- The methods that keep the observer's state and its samples.
use upag.SqlTime.{sql_lt, sql_le}
use upag.Base.{
  String, Bool, ◌&&◌, ◌||◌, ◌==◌, nat_eq, string_eq, is_empty, ltb, take, keep, order_by,
  positive_or, ℤ, ℕ, suc, List, [], ◌∷◌, Option, none, some, not, Fallible, ok, if◌then◌else◌,
}
use upag.Storage.{ObserverState, ObserverSentinelResult, Incident, ConnectivitySample}
use upag.Store.Defs.{Store, StoreError, Db, transaction}

unfoldable pub get_observer_state : Db → Store → Store × Fallible StoreError (Option ObserverState)
get_observer_state db = transaction db (λ s. (s, ok s.observer_state))

-- The tables of sentinels have no column for `response_time_ms`.
abbrev pub sentinel_row : ObserverSentinelResult → ObserverSentinelResult
sentinel_row r = record r { response_time_ms = 0 }

abbrev pub sentinel_rows : List ObserverSentinelResult → List ObserverSentinelResult
sentinel_rows [] = []
sentinel_rows (r ∷ rs) = sentinel_row r ∷ sentinel_rows rs

-- The rows that the loop adds to `observer_sentinel_events`, the newest first.
unfoldable pub failed_sentinels :
    List ObserverSentinelResult → List ObserverSentinelResult → List ObserverSentinelResult
failed_sentinels [] events = events
failed_sentinels (r ∷ rs) events =
    failed_sentinels rs (if not r.ok then sentinel_row r ∷ events else events)

abbrev pub insert_observer_incident : Option Incident → Store → Store × ℕ
insert_observer_incident none s = (s, 0)
insert_observer_incident (some i) s = (
  record s {
    incidents = record i { id = s.next_incident_id } ∷ s.incidents;
    next_incident_id = suc s.next_incident_id;
  },
  s.next_incident_id,
)

unfoldable pub save_observer_check :
    Db
    → ObserverState
    → List ObserverSentinelResult
    → Option Incident
    → Store
    → Store × Fallible StoreError ℕ
unfolding failed_sentinels
save_observer_check db state results incident = transaction db λ s.
    let (s', id) = insert_observer_incident incident (record s {
      observer_state = some state;
      sentinel_results = sentinel_rows results;
      sentinel_events = failed_sentinels results s.sentinel_events;
    }) in
    (s', ok id)

unfoldable pub insert_samples : List ConnectivitySample → Store → Store
insert_samples [] s = s
insert_samples (c ∷ cs) s = insert_samples cs (record s {
  connectivity_samples = record c { id = s.next_sample_id } ∷ s.connectivity_samples;
  next_sample_id = suc s.next_sample_id;
})

unfoldable pub save_connectivity_samples :
    Db → List ConnectivitySample → Store → Store × Fallible StoreError (Unit {0})
unfolding insert_samples
save_connectivity_samples db [] s = (s, ok tt)
save_connectivity_samples db (c ∷ cs) s = transaction db (λ s. (insert_samples (c ∷ cs) s, ok tt)) s

-- The condition and the order of `ListConnectivitySamples`, for a filter by kind and time.
abbrev pub sample_matches : String → ℕ → ConnectivitySample → Bool
sample_matches kind since c =
    (is_empty kind || c.kind == kind) && (since == 0 || sql_le since c.checked_at)

abbrev pub sample_before : ConnectivitySample → ConnectivitySample → Bool
sample_before a b =
    sql_lt b.checked_at a.checked_at || not (sql_lt a.checked_at b.checked_at) && ltb b.id a.id

unfoldable pub list_connectivity_samples :
    Db → String → ℕ → ℤ → Store → Store × Fallible StoreError (List ConnectivitySample)
list_connectivity_samples db kind since limit = transaction db (λ s. (
  s,
  ok (
      take (positive_or limit 1000)
        (order_by sample_before (keep (sample_matches kind since) s.connectivity_samples))),
))
