-- ===== src/Store/Projected.antt =====
-- `projectStatusIntervals`, `ListStatusIntervals` and `ListMaintenanceWindows` of
-- internal/storage/storage.go: the stored intervals of status as they are shown, with the
-- maintenance windows cut out of them. The zero time is 0.
pub mod Segments
pub mod Joined
pub mod Shown
use Prim.Native.String.{compare}
use text.Mathlib.Text.{is_lt}
use upag.Base.{
  ℕ, zero, suc, ℤ, positive_or, String, List, [], ◌∷◌, ◌++◌, map, Bool, true, false, not, ◌&&◌,
  ◌||◌, Option, none, some, keep, take, ltb, leb, order_by, sort_by, ◌==◌, nat_eq, bool_eq,
  string_eq, is_empty, trim_space, if◌then◌else◌,
}
use upag.State.{Status, maintenance, status_eq}
use upag.Storage.{MaintenanceWindow, StatusInterval}
use upag.SqlTime.{sql_lt, sql_le}
use upag.Availability.{min_time, max_time}
use upag.Store.Defs.{Store}
use upag.Store.Rollups.{time_or_zero}

pub record StatusIntervalFilter : Type 0 where
  pub monitor_id : String
  pub limit : ℤ
  pub since : ℕ
  pub now : ℕ

-- `projectedStatusInterval`: the row, whose own end is not used, with its end in effect.
pub record ProjectedStatusInterval : Type 0 where
  pub id : ℕ
  pub monitor_id : String
  pub status : Status
  pub started_at : ℕ
  pub downtime : Bool
  pub effective_end : ℕ
  pub open_ended : Bool

-- The windows that are put in `windowsByMonitor`, and the entry of one monitor in it.
abbrev pub is_used : ℕ → MaintenanceWindow → Bool
is_used now w = (w.cancelled_at == 0) && ltb w.starts_at w.ends_at && ltb w.starts_at now

unfoldable pub windows_of : ℕ → String → List MaintenanceWindow → List MaintenanceWindow
windows_of now id windows =
    sort_by (λ w. w.starts_at) (keep (λ w. is_used now w && (w.monitor_id == id)) windows)

-- `appendSegment`, as the list of what it appends.
unfoldable pub segment :
    StatusInterval → Status → Bool → ℕ → ℕ → Bool → List ProjectedStatusInterval
segment source status downtime start end open_ended =
    if ltb start end
    then record {
      id = source.id;
      monitor_id = source.monitor_id;
      status = status;
      started_at = start;
      downtime = downtime;
      effective_end = end;
      open_ended = open_ended;
    }
      ∷ []
    else []

-- The body of the loop over the windows of an interval: what it appends, and the cursor.
unfoldable pub cut :
    StatusInterval → Bool → ℕ → MaintenanceWindow → ℕ → List ProjectedStatusInterval × ℕ
unfolding segment
cut i open_ended end w cursor =
    let overlap_start = max_time cursor w.starts_at in
    let overlap_end = min_time end w.ends_at in
    if ltb overlap_start overlap_end
    then (
      segment i i.status i.downtime cursor overlap_start false
          ++ segment i maintenance false overlap_start overlap_end
              (open_ended && (overlap_end == end)),
      overlap_end,
    )
    else ([], cursor)

-- The loop, which ends when the cursor reaches the end, and what follows it.
unfoldable pub segments_from :
    StatusInterval → Bool → ℕ → List MaintenanceWindow → ℕ → List ProjectedStatusInterval
unfolding segment cut
segments_from i open_ended end [] cursor = segment i i.status i.downtime cursor end open_ended
segments_from i open_ended end (w ∷ ws) cursor =
    let one = cut i open_ended end w cursor in
    let rest = segments_from i open_ended end ws one.1 in
    if ltb cursor end then one.0 ++ rest else []

abbrev pub end_at : ℕ → StatusInterval → ℕ
end_at now i =
    let ended = time_or_zero i.ended_at in if (ended == 0) || ltb now ended then now else ended

unfoldable pub interval_segments :
    ℕ → List MaintenanceWindow → StatusInterval → List ProjectedStatusInterval
unfolding windows_of segments_from
interval_segments now windows i =
    let end = end_at now i in
    if ltb i.started_at now && ltb i.started_at end
    then segments_from i (time_or_zero i.ended_at == 0) end (windows_of now i.monitor_id windows)
        i.started_at
    else []

unfoldable pub all_segments :
    ℕ → List MaintenanceWindow → List StatusInterval → List ProjectedStatusInterval
unfolding interval_segments
all_segments now windows [] = []
all_segments now windows (i ∷ is) = interval_segments now windows i ++ all_segments now windows is

abbrev pub by_monitor : ProjectedStatusInterval → ProjectedStatusInterval → Bool
by_monitor a b =
    is_lt (compare a.monitor_id b.monitor_id)
    || ((a.monitor_id == b.monitor_id)
        && (ltb a.started_at b.started_at || ((a.started_at == b.started_at) && ltb a.id b.id)))

abbrev pub newest_first : ProjectedStatusInterval → ProjectedStatusInterval → Bool
newest_first a b =
    ltb b.started_at a.started_at || ((a.started_at == b.started_at) && ltb b.id a.id)

abbrev pub continues : ProjectedStatusInterval → ProjectedStatusInterval → Bool
continues previous i =
    (previous.monitor_id == i.monitor_id)
    && (previous.status == i.status)
    && (previous.downtime == i.downtime)
    && (previous.effective_end == i.started_at)

abbrev pub extended : ProjectedStatusInterval → ProjectedStatusInterval → ProjectedStatusInterval
extended previous i = record previous { effective_end = i.effective_end; open_ended = i.open_ended }

-- The loop that merges, with the last interval of `merged`, which is added when it is complete.
unfoldable pub merge_after :
    ProjectedStatusInterval → List ProjectedStatusInterval → List ProjectedStatusInterval
merge_after previous [] = previous ∷ []
merge_after previous (i ∷ is) =
    let joined = continues previous i in
    let rest = merge_after (if joined then extended previous i else i) is in
    if joined then rest else previous ∷ rest

unfoldable pub merge_intervals : List ProjectedStatusInterval → List ProjectedStatusInterval
unfolding merge_after
merge_intervals [] = []
merge_intervals (i ∷ is) = merge_after i is

abbrev pub is_since : ℕ → ProjectedStatusInterval → Bool
is_since since i = not (not (since == 0) && (ltb i.started_at since && ltb i.effective_end since))

-- The intervals in the order in which they are shown, before the limit.
unfoldable pub projected_intervals :
    ℕ → ℕ → List MaintenanceWindow → List StatusInterval → List ProjectedStatusInterval
unfolding all_segments merge_intervals
projected_intervals now since windows intervals = order_by newest_first (
    keep (is_since since)
      (merge_intervals (order_by by_monitor (all_segments now windows intervals))))

abbrev pub shown : ProjectedStatusInterval → StatusInterval
shown p = record {
  id = p.id;
  monitor_id = p.monitor_id;
  status = p.status;
  started_at = p.started_at;
  ended_at = if p.open_ended then none else some p.effective_end;
  downtime = p.downtime;
}

unfoldable pub project_status_intervals :
    ℕ → List StatusInterval → List MaintenanceWindow → StatusIntervalFilter → List StatusInterval
unfolding projected_intervals
project_status_intervals clock intervals windows filter =
    let now = if filter.now == 0 then clock else filter.now in
    map shown
      (take (positive_or filter.limit 50) (projected_intervals now filter.since windows intervals))

-- `WHERE monitor_id = ? AND (started_at >= ? OR ended_at IS NULL OR ended_at >= ?)`.
abbrev pub ends_since : ℕ → Option ℕ → Bool
ends_since since none = true
ends_since since (some at) = sql_le since at

abbrev pub is_asked : StatusIntervalFilter → StatusInterval → Bool
is_asked filter i =
    let id = trim_space filter.monitor_id in
    (is_empty id || (i.monitor_id == id))
    && ((filter.since == 0)
        || (sql_le filter.since i.started_at || ends_since filter.since i.ended_at))

abbrev pub started_before : StatusInterval → StatusInterval → Bool
started_before a b =
    sql_lt a.started_at b.started_at || (not (sql_lt b.started_at a.started_at) && ltb a.id b.id)

pub record MaintenanceWindowFilter : Type 0 where
  pub monitor_id : String
  pub include_all : Bool
  pub now : ℕ

abbrev pub is_listed : MaintenanceWindowFilter → MaintenanceWindow → Bool
is_listed filter w =
    (is_empty filter.monitor_id || (w.monitor_id == filter.monitor_id))
    && (filter.include_all
        || ((w.cancelled_at == 0) && ((filter.now == 0) || sql_lt filter.now w.ends_at)))

abbrev pub begins_before : MaintenanceWindow → MaintenanceWindow → Bool
begins_before a b =
    sql_lt a.starts_at b.starts_at || (not (sql_lt b.starts_at a.starts_at) && ltb a.id b.id)

unfoldable pub list_maintenance_windows : Store → MaintenanceWindowFilter → List MaintenanceWindow
list_maintenance_windows s filter =
    order_by begins_before (keep (is_listed filter) s.maintenance_windows)

unfoldable pub list_status_intervals : ℕ → Store → StatusIntervalFilter → List StatusInterval
unfolding list_maintenance_windows project_status_intervals
list_status_intervals clock s filter =
    project_status_intervals clock
      (order_by started_before (keep (is_asked filter) s.status_intervals))
      (list_maintenance_windows s
        (record { monitor_id = trim_space filter.monitor_id; include_all = false; now = 0 }))
      filter
