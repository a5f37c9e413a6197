-- ===== src/Alert/Backoff.antt =====
-- The retries of one provider.
use upag.Base.{
  ℕ, zero, suc, ◌-◌, ◌≤◌, ◌<◌, ◌≡◌, refl, List, [], ◌∷◌, some, length, get_elem?, arith, nat_eq,
}
use upag.Alert.{NotificationRetriesConfig, duration_at, retry_backoff}

get_elem?-duration_at :
    (ds : List ℕ) (i : ℕ) → i < length ds → get_elem? ds i ≡ some (duration_at ds i)
get_elem?-duration_at [] i h = elim h [ ]
get_elem?-duration_at (d ∷ ds) zero h = refl
get_elem?-duration_at (d ∷ ds) (suc i) h = get_elem?-duration_at ds i (omega arith)

-- The delay after an attempt is the entry of the configured list under the number of the attempt,
-- counted from one; after the last entry the last one is used again, and attempts are never
-- numbered past an entry that is not there.
pub retry_backoff_lem :
    (policy : NotificationRetriesConfig) (n : ℕ)
    → 0 < n
    → 0 < length policy.backoff
    → (n ≤ length policy.backoff → get_elem? policy.backoff (n - 1) ≡ some (retry_backoff policy n))
      × (length policy.backoff ≤ n
          → get_elem? policy.backoff (length policy.backoff - 1) ≡ some (retry_backoff policy n))
unfolding retry_backoff
retry_backoff_lem policy n hn hl = ground (
  arith,
  get_elem?-duration_at policy.backoff (n - 1),
  get_elem?-duration_at policy.backoff (length policy.backoff - 1),
)
