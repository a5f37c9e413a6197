-- ===== src/Config/Decoded.antt =====
-- The sections of internal/config/config.go that decode themselves: `UnmarshalYAML` of Defaults,
-- StorageConfig and ObserverConfig notes which fields the file gave. What the YAML decoder makes of
-- the inner struct `raw` of each is given; `none` is a nil pointer.
use upag.Base.{String, List, Bool, true, false, ℤ, Option, none, some}
use upag.Config.{
  HttpConfig, AlertsConfig, SmtpConfig, MailtrapConfig, SentinelConfig, TransferCheckConfig,
  ObserverConfig, SqliteConfig, PostgresConfig, RetentionConfig, StorageConfig, DefaultsConfig,
  MonitorConfig, Config,
}

pub record RawDefaults : Type 0 where
  pub interval : ℤ
  pub timeout : ℤ
  pub probe_retries : Option ℤ
  pub probe_retry_backoff : ℤ
  pub failure_threshold : ℤ
  pub history_retention : ℤ

pub record RawStorage : Type 0 where
  pub backend : String
  pub sqlite : SqliteConfig
  pub postgres : PostgresConfig
  pub probe_results : Option RetentionConfig
  pub connectivity_samples : Option RetentionConfig
  pub probe_minute_rollups : Option RetentionConfig
  pub probe_hourly_rollups : Option RetentionConfig
  pub probe_daily_rollups : Option RetentionConfig

pub record RawObserver : Type 0 where
  pub enabled : Option Bool
  pub interval : ℤ
  pub timeout : ℤ
  pub failure_threshold : ℤ
  pub recovery_threshold : ℤ
  pub required_successes : ℤ
  pub sentinels : List SentinelConfig
  pub transfer_check : TransferCheckConfig

-- A section that the file leaves out is decoded from zero values.
pub record RawConfig : Type 0 where
  pub http : HttpConfig
  pub alerts : AlertsConfig
  pub smtp : SmtpConfig
  pub mailtrap : MailtrapConfig
  pub observer : RawObserver
  pub storage : RawStorage
  pub tenant_id : String
  pub defaults : RawDefaults
  pub monitors : List MonitorConfig

-- `*p` where it is not nil, and the zero value that stays otherwise.
abbrev pub value_or {ℓ} : {A : Type ℓ} → A → Option A → A
value_or zero_value none = zero_value
value_or zero_value (some x) = x

abbrev pub is_set {ℓ} : {A : Type ℓ} → Option A → Bool
is_set none = false
is_set (some x) = true

abbrev pub no_retention : RetentionConfig
no_retention = record { retention = record { duration = ℤ.pos 0; forever = false } }

unfoldable pub unmarshal_defaults : RawDefaults → DefaultsConfig
unmarshal_defaults raw = record {
  interval = raw.interval;
  timeout = raw.timeout;
  probe_retries = value_or (ℤ.pos 0) raw.probe_retries;
  probe_retry_backoff = raw.probe_retry_backoff;
  failure_threshold = raw.failure_threshold;
  history_retention = raw.history_retention;
  probe_retries_set = is_set raw.probe_retries;
}

unfoldable pub unmarshal_storage : RawStorage → StorageConfig
unmarshal_storage raw = record {
  backend = raw.backend;
  sqlite = raw.sqlite;
  postgres = raw.postgres;
  probe_results = value_or no_retention raw.probe_results;
  connectivity_samples = value_or no_retention raw.connectivity_samples;
  probe_minute_rollups = value_or no_retention raw.probe_minute_rollups;
  probe_hourly_rollups = value_or no_retention raw.probe_hourly_rollups;
  probe_daily_rollups = value_or no_retention raw.probe_daily_rollups;
  probe_results_set = is_set raw.probe_results;
  connectivity_samples_set = is_set raw.connectivity_samples;
  probe_minute_rollups_set = is_set raw.probe_minute_rollups;
  probe_hourly_rollups_set = is_set raw.probe_hourly_rollups;
  probe_daily_rollups_set = is_set raw.probe_daily_rollups;
}

unfoldable pub unmarshal_observer : RawObserver → ObserverConfig
unmarshal_observer raw = record {
  enabled = value_or false raw.enabled;
  interval = raw.interval;
  timeout = raw.timeout;
  failure_threshold = raw.failure_threshold;
  recovery_threshold = raw.recovery_threshold;
  required_successes = raw.required_successes;
  sentinels = raw.sentinels;
  transfer_check = raw.transfer_check;
  enabled_set = is_set raw.enabled;
}

unfoldable pub decoded : RawConfig → Config
unfolding unmarshal_defaults unmarshal_storage unmarshal_observer
decoded raw = record {
  http = raw.http;
  alerts = raw.alerts;
  smtp = raw.smtp;
  mailtrap = raw.mailtrap;
  observer = unmarshal_observer raw.observer;
  storage = unmarshal_storage raw.storage;
  tenant_id = raw.tenant_id;
  defaults = unmarshal_defaults raw.defaults;
  monitors = raw.monitors;
}
