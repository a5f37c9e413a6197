-- ===== src/Config/Validate/Whole.antt =====
-- `Validate` of internal/config/config.go, section by section and as a whole.
use upag.Base.{
  ℕ, suc, String, List, [], ◌∷◌, ◌++◌, Bool, not, ◌&&◌, ◌||◌, ℤ, le_of_nat, lt_of_nat, is_positive,
  is_empty, ◌==◌, string_eq, if◌then◌else◌, trim_space, decimal, ◌<>◌, length,
}
use upag.Config.{
  NotificationRetriesConfig, TransitionDelayConfig, HttpConfig, TransferCheckConfig, ObserverConfig,
  RetentionConfig, StorageConfig, DefaultsConfig, Config, is_nil, smtp_configured,
  mailtrap_configured, telegram_configured,
}
use upag.Config.Validate.{GoLibrary, when, only_if, on_error, collect}
use upag.Config.Validate.Provider.{
  validate_smtp_config, validate_mailtrap_config, validate_telegram_config,
}
use upag.Config.Validate.Address.{validate_tenant_id, validate_http_address, validate_bearer_token}
use upag.Config.Validate.Monitor.{validate_sentinels, validate_monitors}

unfoldable pub validate_defaults : DefaultsConfig → List String
validate_defaults d = collect (
    when (le_of_nat d.interval 0) "defaults.interval must be positive"
    ∷ when (le_of_nat d.timeout 0) "defaults.timeout must be positive"
    ∷ when (lt_of_nat d.probe_retries 0) "defaults.probe_retries must be non-negative"
    ∷ when (is_positive d.probe_retries && le_of_nat d.probe_retry_backoff 0)
        "defaults.probe_retry_backoff must be positive when defaults.probe_retries is positive"
    ∷ when (le_of_nat d.failure_threshold 0) "defaults.failure_threshold must be positive"
    ∷ when (le_of_nat d.history_retention 0) "defaults.history_retention must be positive"
    ∷ [])

-- The local function `validateRetention`.
abbrev pub validate_retention : String → RetentionConfig → List String
validate_retention path c =
    when (not c.retention.forever && le_of_nat c.retention.duration 0)
      (path <> ".retention must be positive or forever")

unfoldable pub validate_backend : StorageConfig → List String
validate_backend s =
    if s.backend == "sqlite"
    then when (is_empty (trim_space s.sqlite.path))
        "storage.sqlite.path is required when storage.backend is sqlite"
    else if s.backend == "postgres"
    then when (is_empty (trim_space s.postgres.dsn))
        "storage.postgres.dsn is required when storage.backend is postgres"
    else "storage.backend must be one of: sqlite, postgres" ∷ []

unfoldable pub validate_storage : StorageConfig → List String
unfolding validate_backend
validate_storage s = collect (
    validate_retention "storage.probe_results" s.probe_results
    ∷ validate_retention "storage.connectivity_samples" s.connectivity_samples
    ∷ validate_retention "storage.probe_minute_rollups" s.probe_minute_rollups
    ∷ validate_retention "storage.probe_hourly_rollups" s.probe_hourly_rollups
    ∷ validate_retention "storage.probe_daily_rollups" s.probe_daily_rollups
    ∷ validate_backend s
    ∷ [])

-- The checks on the transfer guard, which are made when it is enabled.
unfoldable pub validate_transfer_check : Bool → TransferCheckConfig → List String
validate_transfer_check observer_enabled t = only_if t.enabled (
    collect (
      when (not observer_enabled) "observer.transfer_check.enabled requires observer.enabled"
      ∷ when (le_of_nat t.interval 0) "observer.transfer_check.interval must be positive"
      ∷ when (le_of_nat t.incident_interval 0)
          "observer.transfer_check.incident_interval must be positive"
      ∷ when (le_of_nat t.timeout 0) "observer.transfer_check.timeout must be positive"
      ∷ when (le_of_nat t.slow_threshold 0)
          "observer.transfer_check.slow_threshold must be positive"
      ∷ when (le_of_nat t.consecutive_slow_results 0)
          "observer.transfer_check.consecutive_slow_results must be positive"
      ∷ []))

unfoldable pub validate_observer : ObserverConfig → List String
unfolding validate_transfer_check
validate_observer o = collect (
    when (le_of_nat o.interval 0) "observer.interval must be positive"
    ∷ when (le_of_nat o.timeout 0) "observer.timeout must be positive"
    ∷ when (le_of_nat o.failure_threshold 0) "observer.failure_threshold must be positive"
    ∷ when (le_of_nat o.recovery_threshold 0) "observer.recovery_threshold must be positive"
    ∷ when (le_of_nat o.required_successes 0) "observer.required_successes must be positive"
    ∷ only_if o.enabled (
        when (is_nil o.sentinels)
          "observer.sentinels must contain at least one sentinel when observer is enabled"
        ++ when (not (le_of_nat o.required_successes (length o.sentinels)))
            "observer.required_successes must be less than or equal to the number of observer.sentinels")
    ∷ validate_transfer_check o.enabled o.transfer_check
    ∷ [])

unfoldable pub validate_backoff : ℕ → List ℤ → List String
validate_backoff i [] = []
validate_backoff i (d ∷ ds) =
    when (le_of_nat d 0)
      ("alerts.notification_retries.backoff[" <> (decimal i <> "] must be positive"))
    ++ validate_backoff (suc i) ds

unfoldable pub validate_notification_retries : NotificationRetriesConfig → List String
unfolding validate_backoff
validate_notification_retries c = collect (
    when (le_of_nat c.max_attempts 0) "alerts.notification_retries.max_attempts must be positive"
    ∷ when (is_nil c.backoff)
        "alerts.notification_retries.backoff must contain at least one duration"
    ∷ validate_backoff 0 c.backoff
    ∷ [])

unfoldable pub validate_transition_delay : TransitionDelayConfig → List String
validate_transition_delay c = collect (
    when (lt_of_nat c.down 0) "alerts.transition_delay.down must be non-negative"
    ∷ when (lt_of_nat c.up 0) "alerts.transition_delay.up must be non-negative"
    ∷ [])

module _ (go : GoLibrary) where
  unfoldable pub validate_providers : Config → List String
  unfolding validate_smtp_config validate_mailtrap_config validate_telegram_config
  validate_providers c =
      let p = c.alerts.providers in
      collect (
        when
          (not (smtp_configured c.smtp)
            && not (mailtrap_configured c.mailtrap)
            && not (smtp_configured p.smtp)
            && not (mailtrap_configured p.mailtrap)
            && not (telegram_configured p.telegram))
          "at least one alert provider must be configured"
        ∷ when (smtp_configured c.smtp && smtp_configured p.smtp)
            "smtp must be configured either at top level or alerts.providers.smtp, not both"
        ∷ when (mailtrap_configured c.mailtrap && mailtrap_configured p.mailtrap)
            "mailtrap must be configured either at top level or alerts.providers.mailtrap, not both"
        ∷ only_if (smtp_configured c.smtp) (validate_smtp_config "smtp" c.smtp)
        ∷ only_if (smtp_configured p.smtp) (validate_smtp_config "alerts.providers.smtp" p.smtp)
        ∷ only_if (mailtrap_configured c.mailtrap)
            (validate_mailtrap_config go "mailtrap" c.mailtrap)
        ∷ only_if (mailtrap_configured p.mailtrap)
            (validate_mailtrap_config go "alerts.providers.mailtrap" p.mailtrap)
        ∷ only_if (telegram_configured p.telegram)
            (validate_telegram_config go "alerts.providers.telegram" p.telegram)
        ∷ [])

  unfoldable pub validate_http : String → HttpConfig → List String
  unfolding validate_tenant_id validate_http_address validate_bearer_token
  validate_http tenant_id c = collect (
      when (lt_of_nat c.port 0 || not (le_of_nat c.port 65535))
        "http.port must be a TCP port number from 0 through 65535"
      ∷ on_error "" (validate_tenant_id tenant_id)
      ∷ on_error "http.address: " (validate_http_address go c.address)
      ∷ validate_bearer_token c.auth.bearer_token
      ∷ [])

  -- `errors.Join` of no errors is nil: a configuration is valid when the list is empty.
  unfoldable pub validate : Config → List String
  unfolding validate_providers validate_defaults validate_storage validate_http validate_observer
      validate_transition_delay validate_sentinels validate_notification_retries validate_monitors
  validate c = collect (
      validate_providers c
      ∷ validate_defaults c.defaults
      ∷ validate_storage c.storage
      ∷ validate_http c.tenant_id c.http
      ∷ validate_observer c.observer
      ∷ validate_transition_delay c.alerts.transition_delay
      ∷ validate_sentinels go 0 [] c.observer.sentinels
      ∷ when (is_nil c.monitors) "monitors must contain at least one monitor"
      ∷ validate_notification_retries c.alerts.notification_retries
      ∷ validate_monitors go 0 [] c.monitors
      ∷ [])
