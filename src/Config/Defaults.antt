-- ===== src/Config/Defaults.antt =====
-- `ApplyDefaults` of internal/config/config.go, one function for each section.
pub mod Twice
pub mod Accepted
pub mod Refused
use upag.Base.{
  String, List, [], ◌∷◌, Bool, true, not, ◌&&◌, ℤ, pos, is_zero, is_empty, ◌==◌, string_eq,
  if◌then◌else◌, ◌*◌, ℕ,
}
use upag.Config.{
  NotificationRetriesConfig, AlertsConfig, SmtpConfig, MailtrapConfig, TelegramConfig,
  SentinelConfig, TransferCheckConfig, ObserverConfig, RetentionConfig, StorageConfig,
  DefaultsConfig, MonitorConfig, Config, is_nil,
}

abbrev pub millisecond : ℕ
millisecond = 1_000_000

abbrev pub second : ℕ
second = 1_000_000_000

abbrev pub minute : ℕ
minute = 60 * second

abbrev pub day : ℕ
day = 24 * (60 * minute)

-- `if z == 0 { z = d }`, and the same for texts and lists.
abbrev pub unless_zero : ℤ → ℤ → ℤ
unless_zero z d = if is_zero z then d else z

abbrev pub unless_empty : String → String → String
unless_empty s d = if is_empty s then d else s

abbrev pub unless_set {ℓ} : {A : Type ℓ} → Bool → A → A → A
unless_set set x d = if set then x else d

unfoldable pub default_retries : NotificationRetriesConfig → NotificationRetriesConfig
default_retries c = record {
  max_attempts = unless_zero c.max_attempts (pos 3);
  backoff =
      if is_nil c.backoff
      then pos minute ∷ pos (5 * minute) ∷ pos (15 * minute) ∷ []
      else c.backoff;
}

unfoldable pub default_smtp : SmtpConfig → SmtpConfig
default_smtp c = record c {
  port = unless_zero c.port (pos 587);
  tls = unless_empty c.tls "starttls";
}

unfoldable pub default_mailtrap : MailtrapConfig → MailtrapConfig
default_mailtrap c = record c {
  endpoint = unless_empty c.endpoint "https://send.api.mailtrap.io/api/send";
}

unfoldable pub default_telegram : TelegramConfig → TelegramConfig
default_telegram c = record c { endpoint = unless_empty c.endpoint "https://api.telegram.org" }

unfoldable pub default_alerts : AlertsConfig → AlertsConfig
default_alerts c = record c {
  notification_retries = default_retries c.notification_retries;
  providers = record {
    smtp = default_smtp c.providers.smtp;
    mailtrap = default_mailtrap c.providers.mailtrap;
    telegram = default_telegram c.providers.telegram;
  };
}

unfoldable pub default_defaults : DefaultsConfig → DefaultsConfig
default_defaults c = record c {
  interval = unless_zero c.interval (pos minute);
  timeout = unless_zero c.timeout (pos (10 * second));
  probe_retries = unless_set c.probe_retries_set c.probe_retries (pos 2);
  probe_retry_backoff = unless_zero c.probe_retry_backoff (pos (500 * millisecond));
  failure_threshold = unless_zero c.failure_threshold (pos 3);
  history_retention = unless_zero c.history_retention (pos (30 * day));
}

-- Only the duration is assigned.
abbrev pub lasting : RetentionConfig → ℤ → RetentionConfig
lasting c d = record c { retention = record (c.retention) { duration = d } }

abbrev pub for_ever : RetentionConfig → RetentionConfig
for_ever c = record c { retention = record (c.retention) { forever = true } }

-- The retention of probe results is the history retention, after its own default.
unfoldable pub default_storage : ℤ → StorageConfig → StorageConfig
default_storage history_retention c =
    let backend = unless_empty c.backend "sqlite" in
    record c {
      backend = backend;
      sqlite = record {
        path =
            if backend == "sqlite" && is_empty c.sqlite.path
            then "./upag.sqlite"
            else c.sqlite.path;
      };
      probe_results =
          unless_set c.probe_results_set c.probe_results
            (lasting c.probe_results history_retention);
      connectivity_samples =
          unless_set c.connectivity_samples_set c.connectivity_samples
            (lasting c.connectivity_samples (pos (30 * day)));
      probe_minute_rollups =
          unless_set c.probe_minute_rollups_set c.probe_minute_rollups
            (lasting c.probe_minute_rollups (pos (30 * day)));
      probe_hourly_rollups =
          unless_set c.probe_hourly_rollups_set c.probe_hourly_rollups
            (lasting c.probe_hourly_rollups (pos (365 * day)));
      probe_daily_rollups =
          unless_set c.probe_daily_rollups_set c.probe_daily_rollups
            (for_ever c.probe_daily_rollups);
    }

unfoldable pub built_in_observer_sentinels : List SentinelConfig
built_in_observer_sentinels =
    record {
      id = "gstatic";
      name = "Google connectivity check";
      url = "https://www.gstatic.com/generate_204";
      expected_status_code = pos 204;
    }
    ∷ record {
      id = "cloudflare";
      name = "Cloudflare connectivity check";
      url = "https://cp.cloudflare.com/generate_204";
      expected_status_code = pos 204;
    }
    ∷ record {
      id = "cloudflare-ip";
      name = "Cloudflare IPv4 connectivity check";
      url = "http://1.1.1.1/cdn-cgi/trace";
      expected_status_code = pos 301;
    }
    ∷ record {
      id = "msftconnecttest";
      name = "Microsoft connectivity check";
      url = "http://www.msftconnecttest.com/connecttest.txt";
      expected_status_code = pos 200;
    }
    ∷ []

unfoldable pub default_transfer_check : TransferCheckConfig → TransferCheckConfig
default_transfer_check c = record c {
  interval = unless_zero c.interval (pos (15 * minute));
  incident_interval = unless_zero c.incident_interval (pos (30 * second));
  timeout = unless_zero c.timeout (pos (5 * second));
  slow_threshold = unless_zero c.slow_threshold (pos (3 * second));
  consecutive_slow_results = unless_zero c.consecutive_slow_results (pos 2);
}

unfoldable pub default_observer : ObserverConfig → ObserverConfig
default_observer c =
    let enabled = unless_set c.enabled_set c.enabled true in
    record c {
      enabled = enabled;
      interval = unless_zero c.interval (pos (30 * second));
      timeout = unless_zero c.timeout (pos (5 * second));
      failure_threshold = unless_zero c.failure_threshold (pos 3);
      recovery_threshold = unless_zero c.recovery_threshold (pos 1);
      required_successes = unless_zero c.required_successes (pos 1);
      transfer_check = default_transfer_check c.transfer_check;
      sentinels =
          if enabled && is_nil c.sentinels then built_in_observer_sentinels else c.sentinels;
    }

unfoldable pub default_monitor : DefaultsConfig → MonitorConfig → MonitorConfig
default_monitor d m = record m {
  max_redirects = if m.follow_redirects && is_zero m.max_redirects then pos 10 else m.max_redirects;
  interval = unless_zero m.interval d.interval;
  timeout = unless_zero m.timeout d.timeout;
  failure_threshold = unless_zero m.failure_threshold d.failure_threshold;
  response_body = record (m.response_body) {
    command_timeout =
        if not (is_nil m.response_body.command) && is_zero m.response_body.command_timeout
        then pos (10 * second)
        else m.response_body.command_timeout;
  };
}

abbrev pub default_monitors : DefaultsConfig → List MonitorConfig → List MonitorConfig
default_monitors d [] = []
default_monitors d (m ∷ ms) = default_monitor d m ∷ default_monitors d ms

unfoldable pub apply_defaults : Config → Config
apply_defaults c =
    let d = default_defaults c.defaults in
    record {
      http = record (c.http) { address = unless_empty c.http.address "127.0.0.1" };
      alerts = default_alerts c.alerts;
      smtp = default_smtp c.smtp;
      mailtrap = default_mailtrap c.mailtrap;
      observer = default_observer c.observer;
      storage = default_storage d.history_retention c.storage;
      tenant_id = unless_empty c.tenant_id "default";
      defaults = d;
      monitors = default_monitors d c.monitors;
    }
