-- ===== src/Store/Rollups/Sums.antt =====
-- Sums over the rollup tables, for one monitor and one of the counts of a row.
use upag.Base.{
  ℕ, ◌+◌, String, List, [], ◌∷◌, ◌++◌, map, Bool, true, not, keep, ◌==◌, nat_eq, string_eq,
  if◌then◌else◌, Bool-cases, inl, inr, ◌≡◌, refl, ap, ◌∙◌, arith, eq_iff,
}
use upag.Storage.{ProbeResult}
use upag.Store.Rollups.{
  Rollup, counted, add_rollup, same_bucket, upsert_rollup, upsert_rollups, group_rollups,
  rollup_of_probe, in_bucket,
}

-- A count that is added up where rows are merged, and that the name of a bucket does not change.
pub record IsCount (count_of : Rollup → ℕ) : Type 0 where
  pub added : (a b : Rollup) → count_of (add_rollup a b) ≡ count_of a + count_of b
  pub unmoved : (bucket : ℕ → ℕ) (r : Rollup) → count_of (in_bucket bucket r) ≡ count_of r

monitor-add_rollup : (t r : Rollup) → (add_rollup t r).monitor_id ≡ t.monitor_id
unfolding add_rollup
monitor-add_rollup t r = refl

same_monitor : (t r : Rollup) → same_bucket t r ≡ true → (t.monitor_id == r.monitor_id) ≡ true
same_monitor t r h = ground arith

module _ (count_of : Rollup → ℕ) (id : String) where
  abbrev pub counted_row : Rollup → ℕ
  counted_row r = if r.monitor_id == id then count_of r else 0

  pub counted-append :
      (rs ts : List Rollup)
      → counted count_of id (rs ++ ts) ≡ counted count_of id rs + counted count_of id ts
  unfolding counted
  counted-append [] ts = omega arith
  counted-append (r ∷ rs) ts = omega (arith, counted-append rs ts)

  unfoldable pub counted_results : List ProbeResult → ℕ
  counted_results [] = 0
  counted_results (p ∷ ps) = counted_row (rollup_of_probe p) + counted_results ps

  pub counted-map :
      (ps : List ProbeResult) → counted count_of id (map rollup_of_probe ps) ≡ counted_results ps
  unfolding counted counted_results
  counted-map [] = refl
  counted-map (p ∷ ps) = ap (λ n. counted_row (rollup_of_probe p) + n) (counted-map ps)

  pub counted-keep :
      (p : Rollup → Bool) (rs : List Rollup)
      → counted count_of id (keep p rs) + counted count_of id (keep (λ r. not (p r)) rs)
        ≡ counted count_of id rs
  unfolding counted
  counted-keep p [] = omega arith
  counted-keep p (r ∷ rs) = elim (Bool-cases (p r)) [
    | inl e ↦ rw e (omega (arith, counted-keep p rs))
    | inr e ↦ rw e (omega (arith, counted-keep p rs))
  ]

  pub counted_results-keep :
      (p : ProbeResult → Bool) (rs : List ProbeResult)
      → counted_results (keep p rs) + counted_results (keep (λ r. not (p r)) rs)
        ≡ counted_results rs
  unfolding counted_results
  counted_results-keep p [] = omega arith
  counted_results-keep p (r ∷ rs) = elim (Bool-cases (p r)) [
    | inl e ↦ rw e (omega (arith, counted_results-keep p rs))
    | inr e ↦ rw e (omega (arith, counted_results-keep p rs))
  ]

  module _ (c : IsCount count_of) where
    counted-same :
        (t r : Rollup)
        → same_bucket t r ≡ true
        → counted_row (add_rollup t r) ≡ counted_row t + counted_row r
    counted-same t r same = ground (
      arith,
      monitor-add_rollup t r,
      c.added t r,
      eq_iff t.monitor_id r.monitor_id,
      ap (λ s. s == id) ((eq_iff t.monitor_id r.monitor_id).0 (same_monitor t r same)),
    )

    counted-upsert_rollup :
        (r : Rollup) (ts : List Rollup)
        → counted count_of id (upsert_rollup r ts) ≡ counted_row r + counted count_of id ts
    unfolding counted upsert_rollup
    counted-upsert_rollup r [] = refl
    counted-upsert_rollup r (t ∷ ts) = elim (Bool-cases (same_bucket t r)) [
      | inl e ↦ rw e (omega (arith, counted-same t r e))
      | inr e ↦ rw e (omega (arith, counted-upsert_rollup r ts))
    ]

    pub counted-upsert_rollups :
        (rs ts : List Rollup)
        → counted count_of id (upsert_rollups rs ts)
          ≡ counted count_of id rs + counted count_of id ts
    unfolding counted upsert_rollups
    counted-upsert_rollups [] ts = omega arith
    counted-upsert_rollups (r ∷ rs) ts =
        omega (arith, counted-upsert_rollup r (upsert_rollups rs ts), counted-upsert_rollups rs ts)

    counted-nil : (n : ℕ) → n + counted count_of id [] ≡ n
    unfolding counted
    counted-nil n = omega arith

    pub counted-group_rollups :
        (rs : List Rollup) → counted count_of id (group_rollups rs) ≡ counted count_of id rs
    unfolding group_rollups
    counted-group_rollups rs = counted-upsert_rollups rs [] ∙ counted-nil (counted count_of id rs)

    pub counted-in_bucket :
        (bucket : ℕ → ℕ) (rs : List Rollup)
        → counted count_of id (map (in_bucket bucket) rs) ≡ counted count_of id rs
    unfolding counted
    counted-in_bucket bucket [] = refl
    counted-in_bucket bucket (r ∷ rs) =
        ground (arith, c.unmoved bucket r, counted-in_bucket bucket rs)
