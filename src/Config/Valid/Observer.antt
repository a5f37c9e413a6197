-- ===== src/Config/Valid/Observer.antt =====
-- What a valid section of the configuration is, and that `Validate` of internal/config/config.go
-- asks for it: the observer and its transfer guard.
use upag.Base.{
  String, List, [], ◌∷◌, ◌++◌, Bool, true, false, not, ℤ, pos, negsuc, le_of_nat, AtLeast, AtMost,
  not-le_of_nat_iff, string_eq, length, ◌≡◌, ◌↔◌, refl, arith,
}
use upag.Config.{TransferCheckConfig, ObserverConfig, SentinelConfig, is_nil}
use upag.Config.Validate.{when, only_if}
use upag.Config.Validate.Whole.{validate_transfer_check, validate_observer}
use upag.Config.Valid.{iff_trans, pointwise, collects, when-nil_iff, only_if-nil_iff, positive_test}

enabled_test : (b : Bool) (m : String) → (when (not b) m ≡ []) ↔ (b ≡ true)
enabled_test true m = (λ _. refl, λ _. refl)
enabled_test false m = ground arith

pub record ValidTransferCheck (observer_enabled : Bool) (c : TransferCheckConfig) : Type 0 where
  pub observed : observer_enabled ≡ true
  pub interval : AtLeast 1 c.interval
  pub incident_interval : AtLeast 1 c.incident_interval
  pub timeout : AtLeast 1 c.timeout
  pub slow_threshold : AtLeast 1 c.slow_threshold
  pub consecutive_slow_results : AtLeast 1 c.consecutive_slow_results

pub validate_transfer_check_iff :
    (observer_enabled : Bool) (c : TransferCheckConfig)
    → (validate_transfer_check observer_enabled c ≡ [])
      ↔ ((c.enabled ≡ true) → ValidTransferCheck observer_enabled c)
unfolding validate_transfer_check
validate_transfer_check_iff observer_enabled c = iff_trans (only_if-nil_iff c.enabled _) (
    pointwise (
      collects _
        (λ t. record {
          observed = (enabled_test observer_enabled _).0 t.0;
          interval = (positive_test c.interval _).0 t.1.0;
          incident_interval = (positive_test c.incident_interval _).0 t.1.1.0;
          timeout = (positive_test c.timeout _).0 t.1.1.1.0;
          slow_threshold = (positive_test c.slow_threshold _).0 t.1.1.1.1.0;
          consecutive_slow_results = (positive_test c.consecutive_slow_results _).0 t.1.1.1.1.1.0;
        })
        (λ v. (
          (enabled_test observer_enabled _).1 v.observed,
          (
            (positive_test c.interval _).1 v.interval,
            (
              (positive_test c.incident_interval _).1 v.incident_interval,
              (
                (positive_test c.timeout _).1 v.timeout,
                (
                  (positive_test c.slow_threshold _).1 v.slow_threshold,
                  ((positive_test c.consecutive_slow_results _).1 v.consecutive_slow_results, tt),
                ),
              ),
            ),
          ),
        ))))

none_required : (z : ℤ) → AtLeast 1 z → AtMost 0 z → ⊥
none_required (pos n) h k = omega arith
none_required (negsuc n) h k = h

-- The quorum can be met: there are as many sentinels as successes are required.
quorum_test :
    (required : ℤ) (ss : List SentinelConfig) (m n : String)
    → AtLeast 1 required
    → (when (is_nil ss) m ++ when (not (le_of_nat required (length ss))) n ≡ [])
      ↔ AtMost (length ss) required
quorum_test required [] m n pos_required =
    (λ h. absurd (ground arith), λ h. absurd (none_required required pos_required h))
quorum_test required (s ∷ ss) m n pos_required =
    iff_trans (when-nil_iff _ n) (not-le_of_nat_iff required (length (s ∷ ss)))

quorum_if :
    (o : ObserverConfig)
    → AtLeast 1 o.required_successes
    → (only_if o.enabled (
          when
            (is_nil o.sentinels)
            "observer.sentinels must contain at least one sentinel when observer is enabled"
          ++ when
              (not (le_of_nat o.required_successes (length o.sentinels)))
              "observer.required_successes must be less than or equal to the number of observer.sentinels")
        ≡ [])
      ↔ ((o.enabled ≡ true) → AtMost (length o.sentinels) o.required_successes)
quorum_if o pos_required =
    iff_trans (only_if-nil_iff o.enabled _)
      (pointwise (quorum_test o.required_successes o.sentinels _ _ pos_required))

pub record ValidObserver (o : ObserverConfig) : Type 0 where
  pub interval : AtLeast 1 o.interval
  pub timeout : AtLeast 1 o.timeout
  pub failure_threshold : AtLeast 1 o.failure_threshold
  pub recovery_threshold : AtLeast 1 o.recovery_threshold
  pub required_successes : AtLeast 1 o.required_successes
  pub quorum : (o.enabled ≡ true) → AtMost (length o.sentinels) o.required_successes
  pub transfer_check :
      (o.transfer_check.enabled ≡ true) → ValidTransferCheck o.enabled o.transfer_check

pub validate_observer_iff : (o : ObserverConfig) → (validate_observer o ≡ []) ↔ ValidObserver o
unfolding validate_observer
validate_observer_iff o =
    collects _
      (λ t. record {
        interval = (positive_test o.interval _).0 t.0;
        timeout = (positive_test o.timeout _).0 t.1.0;
        failure_threshold = (positive_test o.failure_threshold _).0 t.1.1.0;
        recovery_threshold = (positive_test o.recovery_threshold _).0 t.1.1.1.0;
        required_successes = (positive_test o.required_successes _).0 t.1.1.1.1.0;
        quorum =
            (quorum_if o ((positive_test o.required_successes _).0 t.1.1.1.1.0)).0 t.1.1.1.1.1.0;
        transfer_check = (validate_transfer_check_iff o.enabled o.transfer_check).0 t.1.1.1.1.1.1.0;
      })
      (λ v. (
        (positive_test o.interval _).1 v.interval,
        (
          (positive_test o.timeout _).1 v.timeout,
          (
            (positive_test o.failure_threshold _).1 v.failure_threshold,
            (
              (positive_test o.recovery_threshold _).1 v.recovery_threshold,
              (
                (positive_test o.required_successes _).1 v.required_successes,
                (
                  (quorum_if o v.required_successes).1 v.quorum,
                  ((validate_transfer_check_iff o.enabled o.transfer_check).1 v.transfer_check, tt),
                ),
              ),
            ),
          ),
        ),
      ))
