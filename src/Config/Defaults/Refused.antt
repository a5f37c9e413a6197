-- ===== src/Config/Defaults/Refused.antt =====
-- What `ApplyDefaults` of internal/config/config.go leaves to `Validate` in the section `defaults`.
use upag.Base.{ℕ, zero, suc, [], Bool, true, false, ℤ, pos, negsuc, AtLeast, ◌≡◌, ◌↔◌, refl, arith}
use upag.Config.{DefaultsConfig}
use upag.Config.Defaults.{unless_zero, unless_set, default_defaults}
use upag.Config.Validate.Whole.{validate_defaults}
use upag.Config.Valid.{iff_trans}
use upag.Config.Valid.Sections.{validate_defaults_iff}

positive_after : (z : ℤ) (k : ℕ) → AtLeast 1 (unless_zero z (pos (suc k))) ↔ AtLeast 0 z
positive_after (pos zero) k = (λ _. omega arith, λ _. omega arith)
positive_after (pos (suc n)) k = (λ _. omega arith, λ _. omega arith)
positive_after (negsuc n) k = (λ h. h, λ h. h)

-- Nothing that is given is negative; without retries the wait between them does not matter.
pub record NotNegative (d : DefaultsConfig) : Type 0 where
  pub interval : AtLeast 0 d.interval
  pub timeout : AtLeast 0 d.timeout
  pub probe_retries : (d.probe_retries_set ≡ true) → AtLeast 0 d.probe_retries
  pub probe_retry_backoff :
      ((d.probe_retries_set ≡ true) → AtLeast 1 d.probe_retries) → AtLeast 0 d.probe_retry_backoff
  pub failure_threshold : AtLeast 0 d.failure_threshold
  pub history_retention : AtLeast 0 d.history_retention

retries_after :
    (set : Bool) (z : ℤ) → AtLeast 0 (unless_set set z (pos 2)) ↔ ((set ≡ true) → AtLeast 0 z)
retries_after true z = (λ h _. h, λ h. h refl)
retries_after false z = (λ _ e. absurd (ground arith), λ _. omega arith)

retried_after :
    (set : Bool) (z : ℤ) → AtLeast 1 (unless_set set z (pos 2)) ↔ ((set ≡ true) → AtLeast 1 z)
retried_after true z = (λ h _. h, λ h. h refl)
retried_after false z = (λ _ e. absurd (ground arith), λ _. omega arith)

-- After `ApplyDefaults`, `Validate` has nothing against the section `defaults` exactly when nothing
-- that the file gives there is negative.
pub validate_defaults-default_iff :
    (d : DefaultsConfig) → (validate_defaults (default_defaults d) ≡ []) ↔ NotNegative d
unfolding default_defaults
validate_defaults-default_iff d = iff_trans (validate_defaults_iff (default_defaults d)) (
  λ v. record {
    interval = (positive_after d.interval _).0 v.interval;
    timeout = (positive_after d.timeout _).0 v.timeout;
    probe_retries = (retries_after d.probe_retries_set d.probe_retries).0 v.probe_retries;
    probe_retry_backoff = λ h.
        (positive_after d.probe_retry_backoff _).0
          (v.probe_retry_backoff ((retried_after d.probe_retries_set d.probe_retries).1 h));
    failure_threshold = (positive_after d.failure_threshold _).0 v.failure_threshold;
    history_retention = (positive_after d.history_retention _).0 v.history_retention;
  },
  λ n. record {
    interval = (positive_after d.interval _).1 n.interval;
    timeout = (positive_after d.timeout _).1 n.timeout;
    probe_retries = (retries_after d.probe_retries_set d.probe_retries).1 n.probe_retries;
    probe_retry_backoff = λ h.
        (positive_after d.probe_retry_backoff _).1
          (n.probe_retry_backoff ((retried_after d.probe_retries_set d.probe_retries).0 h));
    failure_threshold = (positive_after d.failure_threshold _).1 n.failure_threshold;
    history_retention = (positive_after d.history_retention _).1 n.history_retention;
  },
)
