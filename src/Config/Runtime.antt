-- ===== src/Config/Runtime.antt =====
-- What the running parts receive from a configuration: internal/alert/email.go takes its providers
-- and its retries, internal/observer/observer.go its sentinels. Their models have a number where
-- the source has an `int` or a duration that a valid configuration bounds from below.
pub mod Guarantees
use upag.Base.{String, List, [], ◌∷◌, Bool, Option, none, some, at_least_zero, if◌then◌else◌, map}
use upag.Alert.{IncidentSender, ProviderConfig}
use upag.Alert
use upag.Observer
use upag.Config.{
  SmtpConfig, MailtrapConfig, TelegramConfig, NotificationRetriesConfig, SentinelConfig,
  ObserverConfig, Config, smtp_configured, mailtrap_configured, telegram_configured,
}

-- `NewEmailer`, `NewMailtrapEmailer` and `NewTelegramSender`.
pub record Senders : Type 0 where
  pub emailer : SmtpConfig → IncidentSender
  pub mailtrap_emailer : MailtrapConfig → IncidentSender
  pub telegram_sender : TelegramConfig → IncidentSender

abbrev pub sender_if {ℓ} : {A : Type ℓ} → Bool → A → Option A
sender_if configured sender = if configured then some sender else none

unfoldable pub provider_config : Senders → Config → ProviderConfig
provider_config new c = record {
  smtp = sender_if (smtp_configured c.smtp) (new.emailer c.smtp);
  alerts_smtp =
      sender_if (smtp_configured c.alerts.providers.smtp) (new.emailer c.alerts.providers.smtp);
  mailtrap = sender_if (mailtrap_configured c.mailtrap) (new.mailtrap_emailer c.mailtrap);
  alerts_mailtrap =
      sender_if (mailtrap_configured c.alerts.providers.mailtrap)
        (new.mailtrap_emailer c.alerts.providers.mailtrap);
  alerts_telegram =
      sender_if (telegram_configured c.alerts.providers.telegram)
        (new.telegram_sender c.alerts.providers.telegram);
}

unfoldable pub retry_policy : NotificationRetriesConfig → Alert.NotificationRetriesConfig
retry_policy c = record {
  max_attempts = c.max_attempts;
  backoff = map (λ d. at_least_zero d) c.backoff;
}

abbrev pub watched : SentinelConfig → Observer.SentinelConfig
watched s = record {
  id = s.id;
  name = s.name;
  url = s.url;
  expected_status_code = at_least_zero s.expected_status_code;
}

unfoldable pub observer_config : ObserverConfig → Observer.ObserverConfig
observer_config o = record {
  sentinels = map watched o.sentinels;
  required_successes = o.required_successes;
  failure_threshold = o.failure_threshold;
  recovery_threshold = o.recovery_threshold;
}
