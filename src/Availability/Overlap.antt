-- ===== src/Availability/Overlap.antt =====
-- The overlap of two spans beside a count of instants.
use upag.Base.{
  ℕ, ◌-◌, ◌≤◌, ◌<◌, ◌≡◌, refl, sym, true, false, List, [], ◌∷◌, ◌++◌, All, All-append, All-sort_by,
  arith, sort_by,
}
use upag.Availability.{
  TimeInterval, max_time, clipped_interval, clipped_length, overlap_duration, merge_from,
  merge_sorted, excluded_intervals, interval_start,
}
use upag.Availability.Points.{contains, covered, points, points-contains, points_union}
use upag.Availability.Merge.{Apart}

-- An interval that does not end before it starts.
abbrev pub Forward : TimeInterval → Type 0
Forward i = i.start ≤ i.end

merge_from-Forward :
    (last : TimeInterval) (is : List TimeInterval)
    → Forward last
    → All Forward is
    → All Forward (merge_from last is)
unfolding merge_from
merge_from-Forward last [] h hs = (h, tt)
merge_from-Forward last (i ∷ is) h hs = ground (
  arith,
  merge_from-Forward (record last { end = max_time last.end i.end }) is,
  merge_from-Forward i is,
)

merge_sorted-Forward : (is : List TimeInterval) → All Forward is → All Forward (merge_sorted is)
unfolding merge_sorted
merge_sorted-Forward [] h = tt
merge_sorted-Forward (i ∷ is) h = merge_from-Forward i is h.0 h.1

pub excluded_intervals-Forward :
    (maintenance host_down : List TimeInterval)
    → All Forward maintenance
    → All Forward host_down
    → All Forward (excluded_intervals maintenance host_down)
unfolding excluded_intervals
excluded_intervals-Forward maintenance host_down hm hd =
    merge_sorted-Forward (sort_by interval_start (maintenance ++ host_down)) (
      All-sort_by interval_start Forward (maintenance ++ host_down)
        (All-append Forward maintenance host_down hm hd))

pub clipped_length-points :
    (start end : ℕ) (i : TimeInterval)
    → start ≤ end
    → clipped_length (clipped_interval start end i) ≡ points (λ t. contains t i) start (end - start)
unfolding clipped_interval
clipped_length-points start end i h = ground (arith, points-contains i start (end - start))

-- Each interval ends before the next one starts, or where it starts.
abbrev pub InOrder : List TimeInterval → Type 0
InOrder [] = Unit
InOrder (i ∷ []) = Unit
InOrder (i ∷ j ∷ js) = (i.end ≤ j.start) × InOrder (j ∷ js)

pub InOrder-tail : (i : TimeInterval) (is : List TimeInterval) → InOrder (i ∷ is) → InOrder is
InOrder-tail i [] a = tt
InOrder-tail i (j ∷ js) a = a.1

pub InOrder-of_Apart : (is : List TimeInterval) → Apart is → InOrder is
InOrder-of_Apart [] a = tt
InOrder-of_Apart (i ∷ []) a = tt
InOrder-of_Apart (i ∷ j ∷ js) a = ground (arith, InOrder-of_Apart (j ∷ js) a.1)

covered_before :
    (t : ℕ) (j : TimeInterval) (js : List TimeInterval)
    → InOrder (j ∷ js)
    → All Forward (j ∷ js)
    → t < j.start
    → covered (j ∷ js) t ≡ false
covered_before t j [] a f h = ground arith
covered_before t j (k ∷ ks) a f h = ground (arith, covered_before t k ks)

-- An instant of the first interval lies in no later one.
pub contains_alone :
    (i : TimeInterval) (is : List TimeInterval)
    → InOrder (i ∷ is)
    → All Forward is
    → (t : ℕ) → contains t i ≡ true
    → covered is t ≡ false
contains_alone i [] a f t h = refl
contains_alone i (j ∷ js) a f t h = ground (arith, covered_before t j js)

pub points_of_nothing : (start n : ℕ) → points (λ t. false) start n ≡ 0
points_of_nothing start ℕ.zero = refl
points_of_nothing start (ℕ.suc n) = points_of_nothing (ℕ.suc start) n

-- Of intervals in order the overlap with a window is the number of instants of the window that
-- they cover.
pub overlap_duration_counts :
    (start end : ℕ) (is : List TimeInterval)
    → start ≤ end
    → InOrder is
    → All Forward is
    → overlap_duration start end is ≡ points (covered is) start (end - start)
unfolding overlap_duration
overlap_duration_counts start end [] h a f = sym (points_of_nothing start (end - start))
overlap_duration_counts start end (i ∷ is) h a f = omega (
  arith,
  clipped_length-points start end i h,
  overlap_duration_counts start end is h (InOrder-tail i is a) f.1,
  points_union (λ t. contains t i) (covered is) start (end - start) (contains_alone i is a f.1),
)
