-- ===== src/Probe/Retries.antt =====
-- How often one probe checks its monitor.
use upag.Base.{ℕ, suc, ◌+◌, ◌≤◌, ◌<◌, ◌≡◌, ◌⊎◌, true, false, ℤ, at_least_zero, is_positive, arith}
use upag.Probe.{Probing, retry_from, check_with_retries}

retry_from_lem :
    (e : Probing) (backoff : ℤ) (a left : ℕ)
    → let (r, n) = retry_from e backoff a left in
      (r ≡ e.check n)
      × (a ≤ n)
      × (n ≤ a + left)
      × ((r.ok ≡ true) ⊎ (n ≡ a + left) ⊎ ((is_positive backoff ≡ true) × (e.interrupted n ≡ true)))
unfolding retry_from
retry_from_lem e backoff a ℕ.zero = ground arith
retry_from_lem e backoff a (suc left) = ground (arith, retry_from_lem e backoff (suc a) left)

earlier_fail :
    (e : Probing) (backoff : ℤ) (a left k : ℕ)
    → a ≤ k
    → k < (retry_from e backoff a left).1
    → (e.check k).ok ≡ false
unfolding retry_from
earlier_fail e backoff a ℕ.zero k h l = absurd (omega arith)
earlier_fail e backoff a (suc left) k h l = ground (arith, earlier_fail e backoff (suc a) left k)

-- A probe reports its last check, after at most the configured number of retries (none if that is
-- negative), of which all but the last failed; it stops early only with a success, or when the
-- wait before the next one is interrupted.
pub check_with_retries_lem :
    (e : Probing) (probe_retries backoff : ℤ)
    → let (r, n) = check_with_retries e probe_retries backoff in
      (r ≡ e.check n)
      × (1 ≤ n)
      × (n ≤ 1 + at_least_zero probe_retries)
      × ((k : ℕ) → 1 ≤ k → k < n → (e.check k).ok ≡ false)
      × ((r.ok ≡ true)
          ⊎ (n ≡ 1 + at_least_zero probe_retries)
          ⊎ ((is_positive backoff ≡ true) × (e.interrupted n ≡ true)))
unfolding check_with_retries
check_with_retries_lem e probe_retries backoff =
    let left = at_least_zero probe_retries in
    let (last, low, high, why) = retry_from_lem e backoff 1 left in
    (last, low, high, (λ k. earlier_fail e backoff 1 left k), why)
