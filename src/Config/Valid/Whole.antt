-- ===== src/Config/Valid/Whole.antt =====
-- A valid configuration, and that `Validate` of internal/config/config.go reports nothing exactly
-- for those.
use upag.Base.{[], ◌≡◌, ◌≢◌, ◌↔◌}
use upag.Config.{Config}
use upag.Config.Validate.{GoLibrary}
use upag.Config.Validate.Whole.{validate}
use upag.Config.Valid.{collects, some_test}
use upag.Config.Valid.Sections.{
  ValidDefaults, ValidStorage, ValidTransitionDelay, ValidRetries, validate_defaults_iff,
  validate_storage_iff, validate_transition_delay_iff, validate_notification_retries_iff,
}
use upag.Config.Valid.Observer.{ValidObserver, validate_observer_iff}
use upag.Config.Valid.Providers.{ValidProviders, validate_providers_iff}
use upag.Config.Valid.Addresses.{ValidHttp, validate_http_iff}
use upag.Config.Valid.Monitors.{
  ValidSentinels, ValidMonitors, validate_sentinels_iff, validate_monitors_iff,
}

pub record ValidConfig (go : GoLibrary) (c : Config) : Type 0 where
  pub providers : ValidProviders go c
  pub defaults : ValidDefaults c.defaults
  pub storage : ValidStorage c.storage
  pub http : ValidHttp go c.tenant_id c.http
  pub observer : ValidObserver c.observer
  pub delays : ValidTransitionDelay c.alerts.transition_delay
  pub sentinels : ValidSentinels go [] c.observer.sentinels
  pub some_monitor : c.monitors ≢ []
  pub retries : ValidRetries c.alerts.notification_retries
  pub monitors : ValidMonitors go [] c.monitors

-- `Validate` reports no error exactly for a valid configuration: some provider, each configured one
-- complete and none given twice; positive intervals, timeouts, thresholds and retentions; a backend with
-- its place; a tenant, an address and a token of the right form; a quorum that the sentinels can meet;
-- retries that can be made; and monitors and sentinels with distinct ids, addresses over HTTP, status
-- codes, and assertions that fit together.
pub validate_iff : (go : GoLibrary) (c : Config) → (validate go c ≡ []) ↔ ValidConfig go c
unfolding validate
validate_iff go c =
    collects _
      (λ t. record {
        providers = (validate_providers_iff go c).0 t.0;
        defaults = (validate_defaults_iff c.defaults).0 t.1.0;
        storage = (validate_storage_iff c.storage).0 t.1.1.0;
        http = (validate_http_iff go c.tenant_id c.http).0 t.1.1.1.0;
        observer = (validate_observer_iff c.observer).0 t.1.1.1.1.0;
        delays = (validate_transition_delay_iff c.alerts.transition_delay).0 t.1.1.1.1.1.0;
        sentinels = (validate_sentinels_iff go 0 [] c.observer.sentinels).0 t.1.1.1.1.1.1.0;
        some_monitor = (some_test c.monitors _).0 t.1.1.1.1.1.1.1.0;
        retries =
            (validate_notification_retries_iff c.alerts.notification_retries).0 t.1.1.1.1.1.1.1.1.0;
        monitors = (validate_monitors_iff go 0 [] c.monitors).0 t.1.1.1.1.1.1.1.1.1.0;
      })
      (λ v. (
        (validate_providers_iff go c).1 v.providers,
        (
          (validate_defaults_iff c.defaults).1 v.defaults,
          (
            (validate_storage_iff c.storage).1 v.storage,
            (
              (validate_http_iff go c.tenant_id c.http).1 v.http,
              (
                (validate_observer_iff c.observer).1 v.observer,
                (
                  (validate_transition_delay_iff c.alerts.transition_delay).1 v.delays,
                  (
                    (validate_sentinels_iff go 0 [] c.observer.sentinels).1 v.sentinels,
                    (
                      (some_test c.monitors _).1 v.some_monitor,
                      (
                        (validate_notification_retries_iff c.alerts.notification_retries).1
                            v.retries,
                        ((validate_monitors_iff go 0 [] c.monitors).1 v.monitors, tt),
                      ),
                    ),
                  ),
                ),
              ),
            ),
          ),
        ),
      ))
