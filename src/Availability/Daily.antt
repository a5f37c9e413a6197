-- ===== src/Availability/Daily.antt =====
-- The figures of one day.
use upag.Base.{ℕ, ◌+◌, ◌-◌, ◌/◌, ◌≤◌, ◌≡◌, ◌≢◌, ap, Bool, not, ◌&&◌, ◌||◌, List, All, arith, nat_eq}
use upag.Availability.{
  TimeInterval, max_time, min_time, excluded_intervals, daily_entry, second, day,
}
use upag.Availability.Points.{covered, points, points-le, points_ext}
use upag.Availability.Merge.{excluded_intervals_union}
use upag.Availability.Overlap.{Forward, InOrder, InOrder-of_Apart, excluded_intervals-Forward}
use upag.Availability.Downtime.{is_down, total_downtime_counts}

-- Provided that the outages are in order (none begins before the one before it has ended) and that
-- no outage, maintenance window or observer-down time ends before it begins: a day reports the time
-- of it that lies between the first probe and now, and as downtime the instants of that time in an
-- outage that lie in no maintenance window and in no observer-down time. A monitor that was never
-- probed reports nothing.
pub daily_entry_counts :
    (day_start now first_probe : ℕ) (outages maintenance host_down : List TimeInterval)
    → InOrder outages
    → All Forward outages
    → All Forward maintenance
    → All Forward host_down
    → let s = daily_entry day_start now first_probe outages maintenance host_down in
      let from = max_time day_start first_probe in
      let length = min_time (day_start + day) now - from in
      (first_probe ≢ 0
        → (s.reportable_seconds ≡ length / second)
          × (s.downtime_seconds
              ≡ points
                  (λ t. covered outages t && not (covered maintenance t || covered host_down t))
                  from
                  length
                / second))
      × (first_probe ≡ 0 → (s.reportable_seconds ≡ 0) × (s.downtime_seconds ≡ 0))
      × (s.downtime_seconds ≤ s.reportable_seconds)
unfolding daily_entry
daily_entry_counts day_start now first_probe outages maintenance host_down io fo fm fh =
    let from = max_time day_start first_probe in
    let to = min_time (day_start + day) now in
    let excluded = excluded_intervals maintenance host_down in
    let (apart, union) = excluded_intervals_union maintenance host_down in
    let spec : ℕ → Bool =
      λ t. covered outages t && not (covered maintenance t || covered host_down t) in
    ground (
      arith,
      total_downtime_counts from to excluded outages,
      InOrder-of_Apart excluded apart,
      excluded_intervals-Forward maintenance host_down fm fh,
      points_ext (is_down outages excluded) spec from (to - from)
          (λ t. ap (λ (c : Bool). covered outages t && not c) (union t)),
      points-le spec from (to - from),
    )
