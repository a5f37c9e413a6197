-- ===== src/Config/Valid/Sections.antt =====
-- What a valid section of the configuration is, and that `Validate` of internal/config/config.go
-- asks for it: defaults, storage, observer, retries and delays.
use upag.Base.{
  ℕ, suc, String, List, [], ◌∷◌, false, ◌&&◌, ℤ, le_of_nat, is_positive, AtLeast, positive_iff,
  is_empty, trim_space, ◌==◌, string_eq, if◌then◌else◌, All, Bool-cases, ◌≡◌, ◌≢◌, ◌↔◌, ◌⊎◌, inl,
  inr, refl, sym, arith, eq_iff, ◌∙◌,
}
use upag.Config.{
  NotificationRetriesConfig, TransitionDelayConfig, RetentionConfig, StorageConfig, DefaultsConfig,
}
use upag.Config.Validate.{when}
use upag.Config.Validate.Whole.{
  validate_defaults, validate_retention, validate_backend, validate_storage, validate_backoff,
  validate_notification_retries, validate_transition_delay,
}
use upag.Config.Valid.{
  iff_trans, append-nil_iff, collects, when-nil_iff, positive_test, natural_test, is_positive_iff,
  some_test, NotBlank, given_test,
}

-- `if a && b` as a test: where the first holds, the second does not.
backoff_test :
    (retries backoff : ℤ) (m : String)
    → (when (is_positive retries && le_of_nat backoff 0) m ≡ [])
      ↔ (AtLeast 1 retries → AtLeast 1 backoff)
backoff_test retries backoff m = iff_trans (when-nil_iff _ m) (
  λ e pos_retries.
      (positive_iff backoff).0 (ground (arith, (is_positive_iff retries).1 pos_retries)),
  λ h. elim (Bool-cases (is_positive retries)) [
    | inl e ↦ rw e ((positive_iff backoff).1 (h ((is_positive_iff retries).0 e)))
    | inr e ↦ rw e
  ],
)

pub record ValidDefaults (d : DefaultsConfig) : Type 0 where
  pub interval : AtLeast 1 d.interval
  pub timeout : AtLeast 1 d.timeout
  pub probe_retries : AtLeast 0 d.probe_retries
  pub probe_retry_backoff : AtLeast 1 d.probe_retries → AtLeast 1 d.probe_retry_backoff
  pub failure_threshold : AtLeast 1 d.failure_threshold
  pub history_retention : AtLeast 1 d.history_retention

pub validate_defaults_iff : (d : DefaultsConfig) → (validate_defaults d ≡ []) ↔ ValidDefaults d
unfolding validate_defaults
validate_defaults_iff d =
    collects _
      (λ t. record {
        interval = (positive_test d.interval _).0 t.0;
        timeout = (positive_test d.timeout _).0 t.1.0;
        probe_retries = (natural_test d.probe_retries _).0 t.1.1.0;
        probe_retry_backoff = (backoff_test d.probe_retries d.probe_retry_backoff _).0 t.1.1.1.0;
        failure_threshold = (positive_test d.failure_threshold _).0 t.1.1.1.1.0;
        history_retention = (positive_test d.history_retention _).0 t.1.1.1.1.1.0;
      })
      (λ v. (
        (positive_test d.interval _).1 v.interval,
        (
          (positive_test d.timeout _).1 v.timeout,
          (
            (natural_test d.probe_retries _).1 v.probe_retries,
            (
              (backoff_test d.probe_retries d.probe_retry_backoff _).1 v.probe_retry_backoff,
              (
                (positive_test d.failure_threshold _).1 v.failure_threshold,
                ((positive_test d.history_retention _).1 v.history_retention, tt),
              ),
            ),
          ),
        ),
      ))

abbrev pub ValidRetention : RetentionConfig → Type 0
ValidRetention c = (c.retention.forever ≡ false) → AtLeast 1 c.retention.duration

retention_test :
    (path : String) (c : RetentionConfig) → (validate_retention path c ≡ []) ↔ ValidRetention c
retention_test path c = iff_trans (when-nil_iff _ _) (
  λ e once. (positive_iff c.retention.duration).0 (ground arith),
  λ h. elim (Bool-cases c.retention.forever) [
    | inl e ↦ rw e
    | inr e ↦ rw e ((positive_iff c.retention.duration).1 (h e))
  ],
)

-- One of the two backends, with the place where it stores.
abbrev pub ValidBackend : StorageConfig → Type 0
ValidBackend s =
    ((s.backend ≡ "sqlite") × NotBlank s.sqlite.path)
    ⊎ ((s.backend ≡ "postgres") × NotBlank s.postgres.dsn)

postgres_test :
    (s : StorageConfig)
    → (s.backend == "sqlite") ≡ false
    → ((if s.backend == "postgres"
          then when
              (is_empty (trim_space s.postgres.dsn))
              "storage.postgres.dsn is required when storage.backend is postgres"
          else "storage.backend must be one of: sqlite, postgres" ∷ [])
        ≡ [])
      ↔ ValidBackend s
postgres_test s no_sqlite = elim (Bool-cases (s.backend == "postgres")) [
  | inl e ↦ rw e (
      iff_trans (given_test (trim_space s.postgres.dsn) _) (
        λ h. inr ((eq_iff s.backend "postgres").0 e, h),
        λ v. elim v [
          | inl p ↦ absurd (ground (arith, (eq_iff s.backend "sqlite").1 p.0))
          | inr p ↦ p.1
        ],
      ))
  | inr e ↦ rw e (
    λ h. absurd (ground arith),
    λ v. elim v [
      | inl p ↦ ground (arith, (eq_iff s.backend "sqlite").1 p.0)
      | inr p ↦ ground (arith, (eq_iff s.backend "postgres").1 p.0)
    ],
  )
]

sqlite_not_postgres : (s : String) → s ≡ "sqlite" → s ≡ "postgres" → ⊥
sqlite_not_postgres s e f = ground (arith, eq_iff "sqlite" "postgres", sym e ∙ f)

backend_test : (s : StorageConfig) → (validate_backend s ≡ []) ↔ ValidBackend s
unfolding validate_backend
backend_test s = elim (Bool-cases (s.backend == "sqlite")) [
  | inl e ↦
      let is_sqlite = (eq_iff s.backend "sqlite").0 e in
      rw e (
        iff_trans (given_test (trim_space s.sqlite.path) _) (
          λ h. inl (is_sqlite, h),
          λ v. elim v [
            | inl p ↦ p.1
            | inr p ↦ absurd (sqlite_not_postgres s.backend is_sqlite p.0)
          ],
        ))
  | inr e ↦ rw e (postgres_test s e)
]

pub record ValidStorage (s : StorageConfig) : Type 0 where
  pub probe_results : ValidRetention s.probe_results
  pub connectivity_samples : ValidRetention s.connectivity_samples
  pub probe_minute_rollups : ValidRetention s.probe_minute_rollups
  pub probe_hourly_rollups : ValidRetention s.probe_hourly_rollups
  pub probe_daily_rollups : ValidRetention s.probe_daily_rollups
  pub backend : ValidBackend s

pub validate_storage_iff : (s : StorageConfig) → (validate_storage s ≡ []) ↔ ValidStorage s
unfolding validate_storage
validate_storage_iff s =
    collects _
      (λ t. record {
        probe_results = (retention_test "storage.probe_results" s.probe_results).0 t.0;
        connectivity_samples =
            (retention_test "storage.connectivity_samples" s.connectivity_samples).0 t.1.0;
        probe_minute_rollups =
            (retention_test "storage.probe_minute_rollups" s.probe_minute_rollups).0 t.1.1.0;
        probe_hourly_rollups =
            (retention_test "storage.probe_hourly_rollups" s.probe_hourly_rollups).0 t.1.1.1.0;
        probe_daily_rollups =
            (retention_test "storage.probe_daily_rollups" s.probe_daily_rollups).0 t.1.1.1.1.0;
        backend = (backend_test s).0 t.1.1.1.1.1.0;
      })
      (λ v. (
        (retention_test "storage.probe_results" s.probe_results).1 v.probe_results,
        (
          (retention_test "storage.connectivity_samples" s.connectivity_samples).1
              v.connectivity_samples,
          (
            (retention_test "storage.probe_minute_rollups" s.probe_minute_rollups).1
                v.probe_minute_rollups,
            (
              (retention_test "storage.probe_hourly_rollups" s.probe_hourly_rollups).1
                  v.probe_hourly_rollups,
              (
                (retention_test "storage.probe_daily_rollups" s.probe_daily_rollups).1
                    v.probe_daily_rollups,
                ((backend_test s).1 v.backend, tt),
              ),
            ),
          ),
        ),
      ))

pub record ValidTransitionDelay (c : TransitionDelayConfig) : Type 0 where
  pub down : AtLeast 0 c.down
  pub up : AtLeast 0 c.up

pub validate_transition_delay_iff :
    (c : TransitionDelayConfig) → (validate_transition_delay c ≡ []) ↔ ValidTransitionDelay c
unfolding validate_transition_delay
validate_transition_delay_iff c =
    collects _
      (λ t. record { down = (natural_test c.down _).0 t.0; up = (natural_test c.up _).0 t.1.0 })
      (λ v. ((natural_test c.down _).1 v.down, ((natural_test c.up _).1 v.up, tt)))

backoffs_test :
    (i : ℕ) (ds : List ℤ) → (validate_backoff i ds ≡ []) ↔ All (λ (d : ℤ). AtLeast 1 d) ds
unfolding validate_backoff
backoffs_test i [] = (λ _. tt, λ _. refl)
backoffs_test i (d ∷ ds) = iff_trans (append-nil_iff _ _) (
  λ h. ((positive_test d _).0 h.0, (backoffs_test (suc i) ds).0 h.1),
  λ h. ((positive_test d _).1 h.0, (backoffs_test (suc i) ds).1 h.1),
)

pub record ValidRetries (c : NotificationRetriesConfig) : Type 0 where
  pub max_attempts : AtLeast 1 c.max_attempts
  pub backoff : c.backoff ≢ []
  pub backoffs : All (λ (d : ℤ). AtLeast 1 d) c.backoff

pub validate_notification_retries_iff :
    (c : NotificationRetriesConfig) → (validate_notification_retries c ≡ []) ↔ ValidRetries c
unfolding validate_notification_retries
validate_notification_retries_iff c =
    collects _
      (λ t. record {
        max_attempts = (positive_test c.max_attempts _).0 t.0;
        backoff = (some_test c.backoff _).0 t.1.0;
        backoffs = (backoffs_test 0 c.backoff).0 t.1.1.0;
      })
      (λ v. (
        (positive_test c.max_attempts _).1 v.max_attempts,
        ((some_test c.backoff _).1 v.backoff, ((backoffs_test 0 c.backoff).1 v.backoffs, tt)),
      ))
