-- ===== src/Config.antt =====
-- The types of internal/config/config.go. A duration and an `int` of the source are integers; what
-- is left out of a file is the zero value of its type.
pub mod Texts
pub mod Retention
pub mod Decoded
pub mod Defaults
pub mod Schema
pub mod Sections
pub mod Validate
pub mod Valid
pub mod Load
pub mod Runtime
use upag.Base.{String, List, [], ◌∷◌, Bool, not, ◌||◌, ℤ, is_empty}

pub record HttpAuthConfig : Type 0 where
  pub bearer_token : String

pub record HttpConfig : Type 0 where
  pub address : String
  pub port : ℤ
  pub auth : HttpAuthConfig

pub record TransitionDelayConfig : Type 0 where
  pub down : ℤ
  pub up : ℤ

pub record NotificationRetriesConfig : Type 0 where
  pub max_attempts : ℤ
  pub backoff : List ℤ

pub record SmtpConfig : Type 0 where
  pub host : String
  pub port : ℤ
  pub tls : String
  pub username : String
  pub password : String
  pub from : String
  pub to : List String
  pub local_name : String

pub record MailtrapConfig : Type 0 where
  pub token : String
  pub endpoint : String
  pub from : String
  pub from_name : String
  pub to : List String

pub record TelegramConfig : Type 0 where
  pub token : String
  pub chat_ids : List String
  pub endpoint : String

pub record AlertProvidersConfig : Type 0 where
  pub smtp : SmtpConfig
  pub mailtrap : MailtrapConfig
  pub telegram : TelegramConfig

pub record AlertsConfig : Type 0 where
  pub notification_retries : NotificationRetriesConfig
  pub transition_delay : TransitionDelayConfig
  pub providers : AlertProvidersConfig

pub record SentinelConfig : Type 0 where
  pub id : String
  pub name : String
  pub url : String
  pub expected_status_code : ℤ

pub record TransferCheckConfig : Type 0 where
  pub enabled : Bool
  pub interval : ℤ
  pub incident_interval : ℤ
  pub timeout : ℤ
  pub slow_threshold : ℤ
  pub consecutive_slow_results : ℤ

pub record ObserverConfig : Type 0 where
  pub enabled : Bool
  pub interval : ℤ
  pub timeout : ℤ
  pub failure_threshold : ℤ
  pub recovery_threshold : ℤ
  pub required_successes : ℤ
  pub sentinels : List SentinelConfig
  pub transfer_check : TransferCheckConfig
  pub enabled_set : Bool

pub record RetentionDuration : Type 0 where
  pub duration : ℤ
  pub forever : Bool

pub record RetentionConfig : Type 0 where
  pub retention : RetentionDuration

pub record SqliteConfig : Type 0 where
  pub path : String

pub record PostgresConfig : Type 0 where
  pub dsn : String

pub record StorageConfig : Type 0 where
  pub backend : String
  pub sqlite : SqliteConfig
  pub postgres : PostgresConfig
  pub probe_results : RetentionConfig
  pub connectivity_samples : RetentionConfig
  pub probe_minute_rollups : RetentionConfig
  pub probe_hourly_rollups : RetentionConfig
  pub probe_daily_rollups : RetentionConfig
  pub probe_results_set : Bool
  pub connectivity_samples_set : Bool
  pub probe_minute_rollups_set : Bool
  pub probe_hourly_rollups_set : Bool
  pub probe_daily_rollups_set : Bool

pub record DefaultsConfig : Type 0 where
  pub interval : ℤ
  pub timeout : ℤ
  pub probe_retries : ℤ
  pub probe_retry_backoff : ℤ
  pub failure_threshold : ℤ
  pub history_retention : ℤ
  pub probe_retries_set : Bool

pub record RedirectTargetAssertions : Type 0 where
  pub exact : String
  pub regex : String

-- `command_given` tells an empty list in the file from no list: Go's `Command != nil`.
pub record ResponseBodyAssertions : Type 0 where
  pub must_contain : List String
  pub must_not_contain : List String
  pub command : List String
  pub command_given : Bool
  pub command_timeout : ℤ

pub record MonitorConfig : Type 0 where
  pub id : String
  pub name : String
  pub url : String
  pub expected_status_code : ℤ
  pub follow_redirects : Bool
  pub max_redirects : ℤ
  pub redirect_target : RedirectTargetAssertions
  pub response_body : ResponseBodyAssertions
  pub max_response_time : ℤ
  pub interval : ℤ
  pub timeout : ℤ
  pub failure_threshold : ℤ
  pub insecure_skip_verify : Bool

pub record Config : Type 0 where
  pub http : HttpConfig
  pub alerts : AlertsConfig
  pub smtp : SmtpConfig
  pub mailtrap : MailtrapConfig
  pub observer : ObserverConfig
  pub storage : StorageConfig
  pub tenant_id : String
  pub defaults : DefaultsConfig
  pub monitors : List MonitorConfig

abbrev pub is_nil {ℓ} : {A : Type ℓ} → List A → Bool
is_nil [] = Bool.true
is_nil (x ∷ xs) = Bool.false

abbrev pub given : String → Bool
given s = not (is_empty s)

-- `RedirectTargetAssertions.Configured`.
abbrev pub target_configured : RedirectTargetAssertions → Bool
target_configured a = given a.exact || given a.regex

abbrev pub smtp_configured : SmtpConfig → Bool
smtp_configured c =
    given c.host
    || given c.username
    || given c.password
    || given c.from
    || not (is_nil c.to)
    || given c.local_name

abbrev pub mailtrap_configured : MailtrapConfig → Bool
mailtrap_configured c = given c.token || given c.from || given c.from_name || not (is_nil c.to)

abbrev pub telegram_configured : TelegramConfig → Bool
telegram_configured c = given c.token || not (is_nil c.chat_ids)
