-- ===== src/Store/Projected/Segments.antt =====
-- What the loop of `projectStatusIntervals` over the maintenance windows tells of each instant.
use upag.Base.{
  ℕ, ◌+◌, ◌<◌, String, List, [], ◌∷◌, ◌++◌, Bool, true, false, ◌&&◌, ◌||◌, any, count, count-append,
  ltb, leb, IsSortedBy, ◌==◌, nat_eq, Bool-cases, inl, inr, if◌then◌else◌, ◌≡◌, arith,
}
use upag.State.{Status, maintenance}
use upag.Storage.{MaintenanceWindow, StatusInterval}
use upag.Availability.{min_time, max_time}
use upag.Store.Projected.{ProjectedStatusInterval, segment, cut, segments_from}

-- Whether an interval of what is shown holds at an instant and passes a test.
abbrev pub tells : (String → Status → Bool → Bool) → ℕ → ProjectedStatusInterval → Bool
tells q t p = q p.monitor_id p.status p.downtime && (leb p.started_at t && ltb t p.effective_end)

abbrev pub covers : ℕ → MaintenanceWindow → Bool
covers t w = leb w.starts_at t && ltb t w.ends_at

abbrev one_if : Bool → ℕ
one_if b = if b then 1 else 0

pub cut_overlap :
    (i : StatusInterval) (open_ended : Bool) (end : ℕ) (w : MaintenanceWindow) (cursor : ℕ)
    → ltb (max_time cursor w.starts_at) (min_time end w.ends_at) ≡ true
    → let start = max_time cursor w.starts_at in
      let stop = min_time end w.ends_at in
      cut i open_ended end w cursor ≡ (
        segment i i.status i.downtime cursor start false
            ++ segment i maintenance false start stop (open_ended && (stop == end)),
        stop,
      )
unfolding cut
cut_overlap i open_ended end w cursor e = rw e

pub cut_apart :
    (i : StatusInterval) (open_ended : Bool) (end : ℕ) (w : MaintenanceWindow) (cursor : ℕ)
    → ltb (max_time cursor w.starts_at) (min_time end w.ends_at) ≡ false
    → cut i open_ended end w cursor ≡ ([], cursor)
unfolding cut
cut_apart i open_ended end w cursor e = rw e

module _ (q : String → Status → Bool → Bool) (t : ℕ) where
  abbrev pub told : List ProjectedStatusInterval → ℕ
  told ps = count (tells q t) ps

  told-segment :
      (i : StatusInterval) (status : Status) (downtime : Bool) (start end : ℕ) (open_ended : Bool)
      → told (segment i status downtime start end open_ended)
        ≡ one_if (q i.monitor_id status downtime && (leb start t && ltb t end))
  unfolding segment
  told-segment i status downtime start end open_ended = ground arith

  -- The test on what the interval is at an instant, inside a window or outside.
  abbrev pub stands : StatusInterval → Bool → Bool
  stands i inside =
      if inside then q i.monitor_id maintenance false else q i.monitor_id i.status i.downtime

  none_before :
      (w : MaintenanceWindow) (ws : List MaintenanceWindow)
      → IsSortedBy (λ v. v.starts_at) (w ∷ ws)
      → t < w.starts_at
      → any (covers t) (w ∷ ws) ≡ false
  none_before w [] h lt = ground arith
  none_before w (v ∷ ws) h lt = ground (arith, none_before v ws h.1 (ground arith))

  none_later :
      (w : MaintenanceWindow) (ws : List MaintenanceWindow)
      → IsSortedBy (λ v. v.starts_at) (w ∷ ws)
      → t < w.starts_at
      → any (covers t) ws ≡ false
  none_later w ws h lt = ground (arith, none_before w ws h lt)

  sorted_tail :
      (w : MaintenanceWindow) (ws : List MaintenanceWindow)
      → IsSortedBy (λ v. v.starts_at) (w ∷ ws)
      → IsSortedBy (λ v. v.starts_at) ws
  sorted_tail w [] h = tt
  sorted_tail w (v ∷ ws) h = h.1

  -- The part before a window, the part inside and the part behind it, and the whole.
  shares :
      (a b rest : Bool) (cursor end starts ends : ℕ)
      → cursor < end
      → max_time cursor starts < min_time end ends
      → (t < starts → rest ≡ false)
      → one_if (b && (leb cursor t && ltb t (max_time cursor starts)))
          + one_if (a && (leb (max_time cursor starts) t && ltb t (min_time end ends)))
          + one_if ((if rest then a else b) && (leb (min_time end ends) t && ltb t end))
        ≡ one_if
            ((if (leb starts t && ltb t ends) || rest then a else b) && (leb cursor t && ltb t end))
  shares a b rest cursor end starts ends lt le before = ground (arith, before)

  told-cut :
      (i : StatusInterval) (open_ended : Bool) (end : ℕ) (w : MaintenanceWindow) (cursor : ℕ)
      → (rest : Bool) → cursor < end
      → (t < w.starts_at → rest ≡ false)
      → let one = cut i open_ended end w cursor in
        told one.0 + one_if (stands i rest && (leb one.1 t && ltb t end))
        ≡ one_if (stands i (covers t w || rest) && (leb cursor t && ltb t end))
  told-cut i open_ended end w cursor rest lt before =
      elim (Bool-cases (ltb (max_time cursor w.starts_at) (min_time end w.ends_at))) [
        | inl e ↦ rw (cut_overlap i open_ended end w cursor e) (
            omega (
              arith,
              count-append (tells q t)
                  (segment i i.status i.downtime cursor (max_time cursor w.starts_at) false)
                  (segment i maintenance false (max_time cursor w.starts_at)
                    (min_time end w.ends_at) (open_ended && (min_time end w.ends_at == end))),
              told-segment i i.status i.downtime cursor (max_time cursor w.starts_at) false,
              told-segment i maintenance false (max_time cursor w.starts_at)
                  (min_time end w.ends_at) (open_ended && (min_time end w.ends_at == end)),
              shares (q i.monitor_id maintenance false) (q i.monitor_id i.status i.downtime) rest
                  cursor end w.starts_at w.ends_at lt (ground arith) before,
            ))
        | inr e ↦ rw (cut_apart i open_ended end w cursor e) (ground (arith, before))
      ]

  pub told-segments_from :
      (i : StatusInterval) (open_ended : Bool) (end : ℕ) (ws : List MaintenanceWindow) (cursor : ℕ)
      → IsSortedBy (λ w. w.starts_at) ws
      → told (segments_from i open_ended end ws cursor)
        ≡ one_if (stands i (any (covers t) ws) && (leb cursor t && ltb t end))
  unfolding segments_from
  told-segments_from i open_ended end [] cursor h =
      told-segment i i.status i.downtime cursor end open_ended
  told-segments_from i open_ended end (w ∷ ws) cursor h = elim (Bool-cases (ltb cursor end)) [
    | inl e ↦
        let one = cut i open_ended end w cursor in
        rw
          (
            e,
            count-append (tells q t) one.0 (segments_from i open_ended end ws one.1),
            told-segments_from i open_ended end ws one.1 (sorted_tail w ws h),
          )
          (told-cut i open_ended end w cursor (any (covers t) ws) (ground arith)
            (none_later w ws h))
    | inr e ↦ ground arith
  ]
