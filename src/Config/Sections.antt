-- ===== src/Config/Sections.antt =====
-- The mappings of a configuration file, as the functions `validate…Schema` of
-- internal/config/config.go list them. What the YAML decoder reads from a node is given; `none` is
-- its error.
use upag.Base.{
  String, [], ◌∷◌, Option, none, some, ℤ, le_of_nat, is_empty, if◌then◌else◌, ◌<>◌, trim_space,
}
use upag.Config.Schema.{
  Node, SchemaValidator, Fields, mapping, document, no_items, item, no_entries, entry,
  validate_mapping, validate_sequence,
}

abbrev pub plain {ℓ} : {A : Type ℓ} → A → A × Option SchemaValidator
plain key = (key, none)

abbrev pub checked {ℓ} : {A : Type ℓ} → A → SchemaValidator → A × Option SchemaValidator
checked key v = (key, some v)

abbrev pub http_auth_config_fields : Fields
http_auth_config_fields = plain "bearer_token" ∷ []

abbrev pub validate_http_auth_config_schema : SchemaValidator
validate_http_auth_config_schema node path = validate_mapping node path http_auth_config_fields

abbrev pub http_config_fields : Fields
http_config_fields =
    plain "address" ∷ plain "port" ∷ checked "auth" validate_http_auth_config_schema ∷ []

abbrev pub validate_http_config_schema : SchemaValidator
validate_http_config_schema node path = validate_mapping node path http_config_fields

abbrev pub transition_delay_fields : Fields
transition_delay_fields = plain "down" ∷ plain "up" ∷ []

abbrev pub validate_transition_delay_schema : SchemaValidator
validate_transition_delay_schema node path = validate_mapping node path transition_delay_fields

abbrev pub notification_retries_fields : Fields
notification_retries_fields = plain "max_attempts" ∷ plain "backoff" ∷ []

abbrev pub validate_notification_retries_schema : SchemaValidator
validate_notification_retries_schema node path =
    validate_mapping node path notification_retries_fields

abbrev pub smtp_config_fields : Fields
smtp_config_fields =
    plain "host"
    ∷ plain "port"
    ∷ plain "tls"
    ∷ plain "username"
    ∷ plain "password"
    ∷ plain "from"
    ∷ plain "to"
    ∷ plain "local_name"
    ∷ []

abbrev pub validate_smtp_config_schema : SchemaValidator
validate_smtp_config_schema node path = validate_mapping node path smtp_config_fields

abbrev pub mailtrap_config_fields : Fields
mailtrap_config_fields =
    plain "token" ∷ plain "endpoint" ∷ plain "from" ∷ plain "from_name" ∷ plain "to" ∷ []

abbrev pub validate_mailtrap_config_schema : SchemaValidator
validate_mailtrap_config_schema node path = validate_mapping node path mailtrap_config_fields

abbrev pub telegram_config_fields : Fields
telegram_config_fields = plain "token" ∷ plain "chat_ids" ∷ plain "endpoint" ∷ []

abbrev pub validate_telegram_config_schema : SchemaValidator
validate_telegram_config_schema node path = validate_mapping node path telegram_config_fields

abbrev pub alert_providers_fields : Fields
alert_providers_fields =
    checked "smtp" validate_smtp_config_schema
    ∷ checked "mailtrap" validate_mailtrap_config_schema
    ∷ checked "telegram" validate_telegram_config_schema
    ∷ []

abbrev pub validate_alert_providers_schema : SchemaValidator
validate_alert_providers_schema node path = validate_mapping node path alert_providers_fields

abbrev pub alerts_config_fields : Fields
alerts_config_fields =
    checked "notification_retries" validate_notification_retries_schema
    ∷ checked "transition_delay" validate_transition_delay_schema
    ∷ checked "providers" validate_alert_providers_schema
    ∷ []

abbrev pub validate_alerts_config_schema : SchemaValidator
validate_alerts_config_schema node path = validate_mapping node path alerts_config_fields

abbrev pub sentinels_fields : Fields
sentinels_fields = plain "id" ∷ plain "name" ∷ plain "url" ∷ plain "expected_status_code" ∷ []

abbrev pub validate_sentinels_schema : SchemaValidator
validate_sentinels_schema = validate_sequence sentinels_fields

abbrev pub sqlite_config_fields : Fields
sqlite_config_fields = plain "path" ∷ []

abbrev pub validate_sqlite_config_schema : SchemaValidator
validate_sqlite_config_schema node path = validate_mapping node path sqlite_config_fields

abbrev pub postgres_config_fields : Fields
postgres_config_fields = plain "dsn" ∷ []

abbrev pub validate_postgres_config_schema : SchemaValidator
validate_postgres_config_schema node path = validate_mapping node path postgres_config_fields

abbrev pub retention_config_fields : Fields
retention_config_fields = plain "retention" ∷ []

abbrev pub validate_retention_config_schema : SchemaValidator
validate_retention_config_schema node path = validate_mapping node path retention_config_fields

abbrev pub storage_config_fields : Fields
storage_config_fields =
    plain "backend"
    ∷ checked "sqlite" validate_sqlite_config_schema
    ∷ checked "postgres" validate_postgres_config_schema
    ∷ checked "probe_results" validate_retention_config_schema
    ∷ checked "connectivity_samples" validate_retention_config_schema
    ∷ checked "probe_minute_rollups" validate_retention_config_schema
    ∷ checked "probe_hourly_rollups" validate_retention_config_schema
    ∷ checked "probe_daily_rollups" validate_retention_config_schema
    ∷ []

abbrev pub validate_storage_config_schema : SchemaValidator
validate_storage_config_schema node path = validate_mapping node path storage_config_fields

abbrev pub defaults_fields : Fields
defaults_fields =
    plain "interval"
    ∷ plain "timeout"
    ∷ plain "probe_retries"
    ∷ plain "probe_retry_backoff"
    ∷ plain "failure_threshold"
    ∷ plain "history_retention"
    ∷ []

abbrev pub validate_defaults_schema : SchemaValidator
validate_defaults_schema node path = validate_mapping node path defaults_fields

abbrev pub response_body_fields : Fields
response_body_fields =
    plain "must_contain" ∷ plain "must_not_contain" ∷ plain "command" ∷ plain "command_timeout" ∷ []

abbrev pub validate_response_body_schema : SchemaValidator
validate_response_body_schema node path = validate_mapping node path response_body_fields

-- The decoder's readings of a node as an `int` and as a text.
module _ (decode_int : Node → Option ℤ) (decode_string : Node → Option String) where
  abbrev pub validate_positive_integer : SchemaValidator
  validate_positive_integer node path = elim (decode_int node) [
    | none ↦ none
    | some value ↦
        if le_of_nat value 0 then some ("config field " <> (path <> " must be positive")) else none
  ]

  abbrev pub validate_non_empty_string : SchemaValidator
  validate_non_empty_string node path = elim (decode_string node) [
    | none ↦ none
    | some value ↦
        if is_empty (trim_space value)
        then some ("config field " <> (path <> " must not be empty"))
        else none
  ]

  abbrev pub redirect_target_fields : Fields
  redirect_target_fields =
      checked "exact" validate_non_empty_string ∷ checked "regex" validate_non_empty_string ∷ []

  abbrev pub validate_redirect_target_schema : SchemaValidator
  validate_redirect_target_schema (mapping no_entries) path =
      some ("config field " <> (path <> " must configure exactly one of exact or regex"))
  validate_redirect_target_schema (mapping (entry k v es)) path =
      validate_mapping (mapping (entry k v es)) path redirect_target_fields
  validate_redirect_target_schema _ path = some ("config field " <> (path <> " must be a mapping"))

  abbrev pub transfer_check_fields : Fields
  transfer_check_fields =
      plain "enabled"
      ∷ plain "interval"
      ∷ plain "incident_interval"
      ∷ plain "timeout"
      ∷ plain "slow_threshold"
      ∷ checked "consecutive_slow_results" validate_positive_integer
      ∷ []

  abbrev pub validate_transfer_check_schema : SchemaValidator
  validate_transfer_check_schema node path = validate_mapping node path transfer_check_fields

  abbrev pub observer_config_fields : Fields
  observer_config_fields =
      plain "enabled"
      ∷ plain "interval"
      ∷ plain "timeout"
      ∷ plain "failure_threshold"
      ∷ plain "recovery_threshold"
      ∷ plain "required_successes"
      ∷ checked "sentinels" validate_sentinels_schema
      ∷ checked "transfer_check" validate_transfer_check_schema
      ∷ []

  abbrev pub validate_observer_config_schema : SchemaValidator
  validate_observer_config_schema node path = validate_mapping node path observer_config_fields

  abbrev pub monitors_fields : Fields
  monitors_fields =
      plain "id"
      ∷ plain "name"
      ∷ plain "url"
      ∷ plain "expected_status_code"
      ∷ plain "follow_redirects"
      ∷ checked "max_redirects" validate_positive_integer
      ∷ checked "redirect_target" validate_redirect_target_schema
      ∷ checked "response_body" validate_response_body_schema
      ∷ plain "max_response_time"
      ∷ plain "interval"
      ∷ plain "timeout"
      ∷ plain "failure_threshold"
      ∷ plain "insecure_skip_verify"
      ∷ []

  abbrev pub validate_monitors_schema : SchemaValidator
  validate_monitors_schema = validate_sequence monitors_fields

  abbrev pub config_fields : Fields
  config_fields =
      checked "http" validate_http_config_schema
      ∷ checked "alerts" validate_alerts_config_schema
      ∷ checked "smtp" validate_smtp_config_schema
      ∷ checked "mailtrap" validate_mailtrap_config_schema
      ∷ checked "observer" validate_observer_config_schema
      ∷ checked "storage" validate_storage_config_schema
      ∷ plain "tenant_id"
      ∷ checked "defaults" validate_defaults_schema
      ∷ checked "monitors" validate_monitors_schema
      ∷ []

  abbrev config_root : Node → Option String
  config_root root = validate_mapping root "" config_fields

  unfoldable pub validate_config_schema : Node → Option String
  unfolding validate_mapping
  validate_config_schema (document no_items) = none
  validate_config_schema (document (item root rest)) = config_root root
  validate_config_schema root = config_root root
