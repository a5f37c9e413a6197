-- ===== src/Store/Projected/Joined.antt =====
-- The merging of adjacent intervals in `projectStatusIntervals`.
use upag.Base.{
  ℕ, ◌<◌, String, List, [], ◌∷◌, Bool, true, false, ◌&&◌, count-append, ltb, All, All-append, ◌==◌,
  nat_eq, nat_beq_iff, bool_eq, bool_beq_iff, string_eq, eq_iff, Bool-cases, inl, inr,
  if◌then◌else◌, ◌≡◌, refl, arith,
}
use upag.State.{Status, maintenance, status_eq, status_beq_iff}
use upag.Storage.{MaintenanceWindow, StatusInterval}
use upag.Availability.{min_time, max_time}
use upag.Store.Projected.{
  ProjectedStatusInterval, end_at, windows_of, segment, cut, segments_from, interval_segments,
  all_segments, continues, extended, merge_after, merge_intervals,
}
use upag.Store.Rollups.{time_or_zero}
use upag.Store.Projected.Segments.{tells, told, cut_overlap, cut_apart}

abbrev pub Lasting : ProjectedStatusInterval → Type 0
Lasting p = p.started_at < p.effective_end

Lasting-segment :
    (i : StatusInterval) (status : Status) (downtime : Bool) (start end : ℕ) (open_ended : Bool)
    → All Lasting (segment i status downtime start end open_ended)
unfolding segment
Lasting-segment i status downtime start end open_ended = ground arith

Lasting-cut :
    (i : StatusInterval) (open_ended : Bool) (end : ℕ) (w : MaintenanceWindow) (cursor : ℕ)
    → All Lasting (cut i open_ended end w cursor).0
Lasting-cut i open_ended end w cursor =
    let start = max_time cursor w.starts_at in
    let stop = min_time end w.ends_at in
    elim (Bool-cases (ltb start stop)) [
      | inl e ↦
          let shut = open_ended && (stop == end) in
          rw (cut_overlap i open_ended end w cursor e) (
            All-append Lasting (segment i i.status i.downtime cursor start false)
              (segment i maintenance false start stop shut)
              (Lasting-segment i i.status i.downtime cursor start false)
              (Lasting-segment i maintenance false start stop shut))
      | inr e ↦ rw (cut_apart i open_ended end w cursor e) tt
    ]

Lasting-segments_from :
    (i : StatusInterval) (open_ended : Bool) (end : ℕ) (ws : List MaintenanceWindow) (cursor : ℕ)
    → All Lasting (segments_from i open_ended end ws cursor)
unfolding segments_from
Lasting-segments_from i open_ended end [] cursor =
    Lasting-segment i i.status i.downtime cursor end open_ended
Lasting-segments_from i open_ended end (w ∷ ws) cursor = elim (Bool-cases (ltb cursor end)) [
  | inl e ↦
      let one = cut i open_ended end w cursor in
      rw e (
        All-append Lasting one.0 (segments_from i open_ended end ws one.1)
          (Lasting-cut i open_ended end w cursor) (Lasting-segments_from i open_ended end ws one.1))
  | inr e ↦ rw e tt
]

All-when :
    (b : Bool) (ps : List ProjectedStatusInterval)
    → All Lasting ps
    → All Lasting (if b then ps else [])
All-when true ps h = h
All-when false ps h = tt

Lasting-interval_segments :
    (now : ℕ) (windows : List MaintenanceWindow) (i : StatusInterval)
    → All Lasting (interval_segments now windows i)
unfolding interval_segments
Lasting-interval_segments now windows i =
    let end = end_at now i in
    All-when (ltb i.started_at now && ltb i.started_at end)
      (segments_from i (time_or_zero i.ended_at == 0) end (windows_of now i.monitor_id windows)
        i.started_at)
      (Lasting-segments_from i (time_or_zero i.ended_at == 0) end
        (windows_of now i.monitor_id windows) i.started_at)

pub Lasting-all_segments :
    (now : ℕ) (windows : List MaintenanceWindow) (is : List StatusInterval)
    → All Lasting (all_segments now windows is)
unfolding all_segments
Lasting-all_segments now windows [] = tt
Lasting-all_segments now windows (i ∷ is) =
    All-append Lasting (interval_segments now windows i) (all_segments now windows is)
      (Lasting-interval_segments now windows i) (Lasting-all_segments now windows is)

module _ (q : String → Status → Bool → Bool) (t : ℕ) where
  continues_same :
      (p i : ProjectedStatusInterval)
      → continues p i ≡ true
      → (q p.monitor_id p.status p.downtime ≡ q i.monitor_id i.status i.downtime)
        × (p.effective_end ≡ i.started_at)
  continues_same p i h = ground (
    arith,
    eq_iff p.monitor_id i.monitor_id,
    status_beq_iff p.status i.status,
    bool_beq_iff p.downtime i.downtime,
    nat_beq_iff p.effective_end i.started_at,
  )

  told-extended :
      (p i : ProjectedStatusInterval)
      → continues p i ≡ true
      → Lasting p
      → Lasting i
      → told q t (extended p i ∷ []) ≡ told q t (p ∷ i ∷ [])
  told-extended p i h lp li = let same = continues_same p i h in rw (same.1) (ground (arith, same))

  told-merge_after :
      (p : ProjectedStatusInterval) (is : List ProjectedStatusInterval)
      → Lasting p
      → All Lasting is
      → told q t (merge_after p is) ≡ told q t (p ∷ is)
  unfolding merge_after
  told-merge_after p [] lp h = refl
  told-merge_after p (i ∷ is) lp h = elim (Bool-cases (continues p i)) [
    | inl e ↦ rw e (
        omega (
          arith,
          told-merge_after (extended p i) is (ground arith) h.1,
          told-extended p i e lp h.0,
          count-append (tells q t) (p ∷ i ∷ []) is,
          count-append (tells q t) (extended p i ∷ []) is,
        ))
    | inr e ↦ rw e (
        omega (
          arith,
          told-merge_after i is h.0 h.1,
          count-append (tells q t) (p ∷ []) (i ∷ is),
          count-append (tells q t) (p ∷ []) (merge_after i is),
        ))
  ]

  pub told-merge_intervals :
      (ps : List ProjectedStatusInterval)
      → All Lasting ps
      → told q t (merge_intervals ps) ≡ told q t ps
  unfolding merge_intervals
  told-merge_intervals [] h = refl
  told-merge_intervals (p ∷ ps) h = told-merge_after p ps h.0 h.1
