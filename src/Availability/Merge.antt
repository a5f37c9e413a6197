-- ===== src/Availability/Merge.antt =====
-- The union of maintenance and observer-down time.
use upag.Base.{
  ℕ, ◌<◌, ◌≡◌, refl, Bool, ◌||◌, ◌∙◌, List, [], ◌∷◌, ◌++◌, any, arith, sort_by, IsSortedBy,
  sort_by-IsSortedBy, any-sort_by,
}
use upag.Availability.{
  TimeInterval, max_time, merge_from, merge_sorted, excluded_intervals, interval_start,
}
use upag.Availability.Points.{contains, covered}

-- Each interval ends before the next one starts: they are in order, apart, and do not touch.
abbrev pub Apart : List TimeInterval → Type 0
Apart [] = Unit
Apart (i ∷ []) = Unit
Apart (i ∷ j ∷ js) = (i.end < j.start) × Apart (j ∷ js)

-- The first interval starts where the given one does.
abbrev StartsAt : ℕ → List TimeInterval → Type 0
StartsAt s [] = ⊥
StartsAt s (i ∷ is) = i.start ≡ s

merge_from-StartsAt :
    (last : TimeInterval) (is : List TimeInterval) → StartsAt last.start (merge_from last is)
unfolding merge_from
merge_from-StartsAt last [] = refl
merge_from-StartsAt last (i ∷ is) =
    ground (arith, merge_from-StartsAt (record last { end = max_time last.end i.end }) is)

Apart-cons :
    (last : TimeInterval) (s : ℕ) (is : List TimeInterval)
    → last.end < s
    → StartsAt s is
    → Apart is
    → Apart (last ∷ is)
Apart-cons last s [] h at a = elim at [ ]
Apart-cons last s (i ∷ is) h at a = ground arith

merge_from-Apart : (last : TimeInterval) (is : List TimeInterval) → Apart (merge_from last is)
unfolding merge_from
merge_from-Apart last [] = tt
merge_from-Apart last (i ∷ is) = ground (
  arith,
  merge_from-Apart (record last { end = max_time last.end i.end }) is,
  merge_from-Apart i is,
  Apart-cons last i.start (merge_from i is),
  merge_from-StartsAt i is,
)

covered-merge_from :
    (last : TimeInterval) (is : List TimeInterval) (t : ℕ)
    → IsSortedBy interval_start (last ∷ is)
    → covered (merge_from last is) t ≡ (contains t last || covered is t)
unfolding merge_from
covered-merge_from last [] t h = refl
covered-merge_from last (i ∷ []) t h = ground arith
covered-merge_from last (i ∷ j ∷ js) t h = ground (
  arith,
  covered-merge_from (record last { end = max_time last.end i.end }) (j ∷ js) t,
  covered-merge_from i (j ∷ js) t,
)

any-append :
    (p : TimeInterval → Bool) (xs ys : List TimeInterval)
    → any p (xs ++ ys) ≡ (any p xs || any p ys)
any-append p [] ys = refl
any-append p (x ∷ xs) ys = ground (arith, any-append p xs ys)

covered-merge_sorted :
    (is : List TimeInterval) (t : ℕ)
    → IsSortedBy interval_start is
    → covered (merge_sorted is) t ≡ covered is t
unfolding merge_sorted
covered-merge_sorted [] t h = refl
covered-merge_sorted (i ∷ is) t h = covered-merge_from i is t h

merge_sorted-Apart : (is : List TimeInterval) → Apart (merge_sorted is)
unfolding merge_sorted
merge_sorted-Apart [] = tt
merge_sorted-Apart (i ∷ is) = merge_from-Apart i is

-- The excluded intervals are in order and apart, and an instant lies in one of them exactly when it
-- lies in a maintenance window or in an observer-down interval.
pub excluded_intervals_union :
    (maintenance host_down : List TimeInterval)
    → let merged = excluded_intervals maintenance host_down in
      Apart merged × ((t : ℕ) → covered merged t ≡ (covered maintenance t || covered host_down t))
unfolding excluded_intervals
excluded_intervals_union maintenance host_down = (
  merge_sorted-Apart (sort_by interval_start (maintenance ++ host_down)),
  λ t.
      covered-merge_sorted (sort_by interval_start (maintenance ++ host_down)) t
        (sort_by-IsSortedBy interval_start (maintenance ++ host_down))
      ∙ any-sort_by interval_start (contains t) (maintenance ++ host_down)
      ∙ any-append (contains t) maintenance host_down,
)
