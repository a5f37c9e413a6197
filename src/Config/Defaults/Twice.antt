-- ===== src/Config/Defaults/Twice.antt =====
-- `ApplyDefaults` on a configuration that has its defaults already.
use upag.Base.{
  ◌*◌, String, List, [], ◌∷◌, Bool, true, false, not, ◌&&◌, ℤ, pos, is_zero, is_empty, ◌==◌,
  string_eq, if◌then◌else◌, ◌≡◌, refl, ap, ◌∙◌, Bool-cases, inl, inr,
}
use upag.Config.{
  NotificationRetriesConfig, AlertsConfig, SmtpConfig, MailtrapConfig, TelegramConfig,
  SentinelConfig, TransferCheckConfig, ObserverConfig, StorageConfig, DefaultsConfig, MonitorConfig,
  Config, is_nil,
}
use upag.Config.Defaults.{
  second, day, unless_zero, unless_empty, unless_set, default_retries, default_smtp,
  default_mailtrap, default_telegram, default_alerts, default_defaults, lasting, for_ever,
  default_storage, built_in_observer_sentinels, default_transfer_check, default_observer,
  default_monitor, default_monitors, apply_defaults,
}

unless_zero_twice : (z d : ℤ) → unless_zero (unless_zero z d) d ≡ unless_zero z d
unless_zero_twice z d = elim (Bool-cases (is_zero z)) [
  | inl e ↦ rw e (elim (Bool-cases (is_zero d)) [ inl f ↦ rw f | inr f ↦ rw f ])
  | inr e ↦ rw (e, e)
]

unless_empty_twice : (s d : String) → unless_empty (unless_empty s d) d ≡ unless_empty s d
unless_empty_twice s d = elim (Bool-cases (is_empty s)) [
  | inl e ↦ rw e (elim (Bool-cases (is_empty d)) [ inl f ↦ rw f | inr f ↦ rw f ])
  | inr e ↦ rw (e, e)
]

ruleset twice = (unless_zero_twice, unless_empty_twice)

default_defaults_twice :
    (d : DefaultsConfig) → default_defaults (default_defaults d) ≡ default_defaults d
unfolding default_defaults
default_defaults_twice d = elim (Bool-cases d.probe_retries_set) [
  | inl e ↦ simp (twice, e)
  | inr e ↦ simp (twice, e)
]

default_smtp_twice : (c : SmtpConfig) → default_smtp (default_smtp c) ≡ default_smtp c
unfolding default_smtp
default_smtp_twice c = simp twice

default_mailtrap_twice :
    (c : MailtrapConfig) → default_mailtrap (default_mailtrap c) ≡ default_mailtrap c
unfolding default_mailtrap
default_mailtrap_twice c = simp twice

default_telegram_twice :
    (c : TelegramConfig) → default_telegram (default_telegram c) ≡ default_telegram c
unfolding default_telegram
default_telegram_twice c = simp twice

default_retries_twice :
    (c : NotificationRetriesConfig) → default_retries (default_retries c) ≡ default_retries c
unfolding default_retries
default_retries_twice c = elim (Bool-cases (is_nil c.backoff)) [
  | inl e ↦ simp (twice, e)
  | inr e ↦ simp (twice, e)
]

default_transfer_check_twice :
    (c : TransferCheckConfig)
    → default_transfer_check (default_transfer_check c) ≡ default_transfer_check c
unfolding default_transfer_check
default_transfer_check_twice c = simp twice

sentinels_twice :
    (enabled : Bool) (ss : List SentinelConfig)
    → let given = if enabled && is_nil ss then built_in_observer_sentinels else ss in
      (if enabled && is_nil given then built_in_observer_sentinels else given) ≡ given
unfolding built_in_observer_sentinels
sentinels_twice true [] = refl
sentinels_twice true (s ∷ ss) = refl
sentinels_twice false ss = refl

default_observer_twice :
    (o : ObserverConfig) → default_observer (default_observer o) ≡ default_observer o
unfolding default_observer
default_observer_twice o = elim (Bool-cases o.enabled_set) [
  | inl e ↦ simp (twice, e, default_transfer_check_twice, sentinels_twice)
  | inr e ↦ simp (twice, e, default_transfer_check_twice, sentinels_twice)
]

path_twice :
    (sqlite : Bool) (path d : String)
    → let once = if sqlite && is_empty path then d else path in
      (if sqlite && is_empty once then d else once) ≡ once
path_twice true path d = unless_empty_twice path d
path_twice false path d = refl

unless_set_twice {ℓ} :
    {A : Type ℓ} (set : Bool) (x : A) (f : A → A)
    → ((y : A) → f (f y) ≡ f y)
    → unless_set set (unless_set set x (f x)) (f (unless_set set x (f x))) ≡ unless_set set x (f x)
unless_set_twice true x f h = refl
unless_set_twice false x f h = h x

default_storage_twice :
    (history : ℤ) (s : StorageConfig)
    → default_storage history (default_storage history s) ≡ default_storage history s
unfolding default_storage
default_storage_twice history s =
    let once = default_storage history s in
    λ i. record once {
      backend = unless_empty_twice s.backend "sqlite" i;
      sqlite = record {
        path =
            (ap
                  (λ b.
                    if (b == "sqlite") && is_empty once.sqlite.path
                    then "./upag.sqlite"
                    else once.sqlite.path)
                  (unless_empty_twice s.backend "sqlite")
                ∙ path_twice (once.backend == "sqlite") s.sqlite.path "./upag.sqlite")
              i;
      };
      probe_results =
          unless_set_twice s.probe_results_set s.probe_results (λ r. lasting r history) (λ r. refl)
            i;
      connectivity_samples =
          unless_set_twice s.connectivity_samples_set s.connectivity_samples
            (λ r. lasting r (pos (30 * day))) (λ r. refl) i;
      probe_minute_rollups =
          unless_set_twice s.probe_minute_rollups_set s.probe_minute_rollups
            (λ r. lasting r (pos (30 * day))) (λ r. refl) i;
      probe_hourly_rollups =
          unless_set_twice s.probe_hourly_rollups_set s.probe_hourly_rollups
            (λ r. lasting r (pos (365 * day))) (λ r. refl) i;
      probe_daily_rollups =
          unless_set_twice s.probe_daily_rollups_set s.probe_daily_rollups for_ever (λ r. refl) i;
    }

number_twice :
    (b : Bool) (z d : ℤ)
    → let once = if b && is_zero z then d else z in (if b && is_zero once then d else once) ≡ once
number_twice true z d = unless_zero_twice z d
number_twice false z d = refl

default_monitor_twice :
    (d : DefaultsConfig) (m : MonitorConfig)
    → default_monitor d (default_monitor d m) ≡ default_monitor d m
unfolding default_monitor
default_monitor_twice d m =
    let command = m.response_body.command in
    λ i. record (default_monitor d m) {
      max_redirects = number_twice m.follow_redirects m.max_redirects (pos 10) i;
      interval = unless_zero_twice m.interval d.interval i;
      timeout = unless_zero_twice m.timeout d.timeout i;
      failure_threshold = unless_zero_twice m.failure_threshold d.failure_threshold i;
      response_body = record (m.response_body) {
        command_timeout =
            number_twice (not (is_nil command)) m.response_body.command_timeout (pos (10 * second))
              i;
      };
    }

default_monitors_twice :
    (d : DefaultsConfig) (ms : List MonitorConfig)
    → default_monitors d (default_monitors d ms) ≡ default_monitors d ms
default_monitors_twice d [] = refl
default_monitors_twice d (m ∷ ms) = rw (default_monitor_twice d m, default_monitors_twice d ms)

default_alerts_twice : (c : AlertsConfig) → default_alerts (default_alerts c) ≡ default_alerts c
unfolding default_alerts
default_alerts_twice c =
    simp (default_retries_twice, default_smtp_twice, default_mailtrap_twice, default_telegram_twice)

-- Completing a configuration by the defaults a second time changes nothing.
pub apply_defaults_twice : (c : Config) → apply_defaults (apply_defaults c) ≡ apply_defaults c
unfolding apply_defaults
apply_defaults_twice c = simp (
  twice, default_defaults_twice, default_alerts_twice, default_smtp_twice, default_mailtrap_twice,
  default_observer_twice, default_storage_twice, default_monitors_twice,
)
