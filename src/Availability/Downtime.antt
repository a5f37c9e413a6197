-- ===== src/Availability/Downtime.antt =====
-- What the availability figures count: the outage time that is not excluded.
use upag.Base.{
  ℕ, zero, suc, ◌+◌, ◌-◌, ◌/◌, ◌≤◌, ◌<◌, ◌≡◌, refl, sym, ap, Bool, true, false, not, ◌&&◌, ◌||◌,
  List, [], ◌∷◌, ltb, if◌then◌else◌, All, arith, ◌==◌, nat_eq,
}
use upag.Availability.{
  TimeInterval, UptimeWindowStats, max_time, min_time, outage_duration, total_downtime,
  apply_availability_window, excluded_intervals, second,
}
use upag.Availability.Points.{contains, covered, points, points-le, points_union, points_ext}
use upag.Availability.Merge.{excluded_intervals_union}
use upag.Availability.Overlap.{
  Forward, InOrder, InOrder-tail, InOrder-of_Apart, contains_alone, overlap_duration_counts,
  points_of_nothing, excluded_intervals-Forward,
}

-- The instant belongs to an outage and is not excluded.
abbrev pub is_down : List TimeInterval → List TimeInterval → ℕ → Bool
is_down outages excluded t = covered outages t && not (covered excluded t)

points_step :
    (p : ℕ → Bool) (start n : ℕ)
    → 0 < n
    → points p start n ≡ (if p start then 1 else 0) + points p (suc start) (n - 1)
points_step p start zero h = absurd (omega arith)
points_step p start (suc n) h = ground arith

-- A test that also asks for an interval looks at the part of the window in that interval.
points_within :
    (q : ℕ → Bool) (i : TimeInterval) (start n : ℕ)
    → points (λ t. contains t i && q t) start n
      ≡ points q (max_time start i.start) (min_time (start + n) i.end - max_time start i.start)
points_within q i start zero = ground (arith, points_step q (max_time start i.start))
points_within q i start (suc n) = ground (
  arith,
  points_within q i (suc start) n,
  points_step q (max_time start i.start) (min_time (start + suc n) i.end - max_time start i.start),
)

points_complement :
    (q : ℕ → Bool) (start n : ℕ) → points q start n + points (λ t. not (q t)) start n ≡ n
points_complement q start zero = omega arith
points_complement q start (suc n) = ground (arith, points_complement q (suc start) n)

outage_duration-points :
    (start end : ℕ) (excluded : List TimeInterval) (o : TimeInterval)
    → start ≤ end
    → InOrder excluded
    → All Forward excluded
    → outage_duration start end excluded o
      ≡ points (λ t. contains t o && not (covered excluded t)) start (end - start)
unfolding outage_duration
outage_duration-points start end excluded o h a f =
    let from = max_time start o.start in
    let to = min_time end o.end in
    ground (
      arith,
      points_within (λ t. not (covered excluded t)) o start (end - start),
      overlap_duration_counts from to excluded,
      points_complement (covered excluded) from (to - from),
    )

-- Over outages in order the loop adds up the instants of the window that belong to an outage and
-- are not excluded.
pub total_downtime_counts :
    (start end : ℕ) (excluded outages : List TimeInterval)
    → start ≤ end
    → InOrder excluded
    → All Forward excluded
    → InOrder outages
    → All Forward outages
    → total_downtime start end excluded outages
      ≡ points (is_down outages excluded) start (end - start)
unfolding total_downtime
total_downtime_counts start end excluded [] h a f b g = sym (points_of_nothing start (end - start))
total_downtime_counts start end excluded (o ∷ os) h a f b g =
    let alone : ℕ → Bool = λ t. contains t o && not (covered excluded t) in
    omega (
      arith,
      outage_duration-points start end excluded o h a f,
      total_downtime_counts start end excluded os h a f (InOrder-tail o os b) g.1,
      points_union alone (is_down os excluded) start (end - start) (λ t c. apart_instant t c),
      points_ext (is_down (o ∷ os) excluded) (λ t. alone t || is_down os excluded t) start
          (end - start) (λ t. distribute (contains t o) (covered os t) (covered excluded t)),
    )
  where
    distribute : (x y z : Bool) → ((x || y) && not z) ≡ ((x && not z) || (y && not z))
    distribute true true true = refl
    distribute true true false = refl
    distribute true false true = refl
    distribute true false false = refl
    distribute false true true = refl
    distribute false true false = refl
    distribute false false true = refl
    distribute false false false = refl

    apart_instant :
        (t : ℕ) → (contains t o && not (covered excluded t)) ≡ true → is_down os excluded t ≡ false
    apart_instant t c = ground (arith, contains_alone o os b g.1 t)

abbrev pub window_start : ℕ → ℕ → ℕ
window_start first_probe cutoff =
    if not (cutoff == 0) && ltb first_probe cutoff then cutoff else first_probe

-- The availability of a window, with the exclusions that the store computes, provided that the
-- outages are in order (none begins before the one before it has ended) and that no outage,
-- maintenance window or observer-down time ends before it begins: it reports the seconds of the
-- window, and as downtime the instants in an outage that lie in no maintenance window and in no
-- observer-down time, counted once each. A window that is empty reports nothing.
pub apply_availability_window_counts :
    (stats : UptimeWindowStats) (first_probe cutoff now : ℕ)
    (outages maintenance host_down : List TimeInterval)
    → InOrder outages
    → All Forward outages
    → All Forward maintenance
    → All Forward host_down
    → let s =
        apply_availability_window stats first_probe cutoff now outages
          (excluded_intervals maintenance host_down) in
      let start = window_start first_probe cutoff in
      (s.reportable_seconds ≡ (now - start) / second)
      × (s.downtime_seconds
          ≡ points
              (λ t. covered outages t && not (covered maintenance t || covered host_down t))
              start
              (now - start)
            / second)
      × (s.downtime_seconds ≤ s.reportable_seconds)
unfolding apply_availability_window
apply_availability_window_counts stats first_probe cutoff now outages maintenance host_down io fo fm
      fh =
    let start = window_start first_probe cutoff in
    let excluded = excluded_intervals maintenance host_down in
    let (apart, union) = excluded_intervals_union maintenance host_down in
    let spec : ℕ → Bool =
      λ t. covered outages t && not (covered maintenance t || covered host_down t) in
    ground (
      arith,
      total_downtime_counts start now excluded outages,
      InOrder-of_Apart excluded apart,
      excluded_intervals-Forward maintenance host_down fm fh,
      points_ext (is_down outages excluded) spec start (now - start)
          (λ t. ap (λ (c : Bool). covered outages t && not c) (union t)),
      points-le spec start (now - start),
    )
