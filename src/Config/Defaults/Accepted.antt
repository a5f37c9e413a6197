-- ===== src/Config/Defaults/Accepted.antt =====
-- `Validate` after `ApplyDefaults`, for the smallest configuration.
use upag.Base.{
  String, List, [], ◌∷◌, false, ℤ, pos, none, ◌≡◌, ◌≢◌, refl, arith, is_empty, trim_space,
  trim_space-nil,
}
use upag.Config.{SentinelConfig, AlertProvidersConfig, SmtpConfig, MailtrapConfig, Config}
use upag.Config.Decoded.{RawConfig, decoded, unmarshal_defaults}
use upag.Config.Defaults.{
  default_defaults, default_alerts, default_retries, default_storage, default_observer,
  default_transfer_check, default_monitor, apply_defaults, built_in_observer_sentinels,
}
use upag.Config.Validate.{GoLibrary, collect}
use upag.Config.Validate.Address.{validate_tenant_id}
use upag.Config.Validate.Whole.{
  validate, validate_defaults, validate_storage, validate_observer, validate_notification_retries,
  validate_backend, validate_transfer_check, validate_backoff,
}
use upag.Config.Texts.{contains, contains-Absent_iff}
use upag.Config.Valid.{is_empty_iff, Within}
use upag.Config.Valid.Sections.{
  validate_defaults_iff, validate_storage_iff, validate_notification_retries_iff,
}
use upag.Config.Valid.Observer.{validate_observer_iff}
use upag.Config.Valid.Monitors.{ValidSentinel}
use upag.Config.Valid.Addresses.{GivenUrl, unspaced}
use upag.Config.Valid.Providers.{ValidProviders}
use upag.Config.Valid.Whole.{ValidConfig, validate_iff}

-- What the file gives in the smallest configuration: a monitor and the sections of the providers.
pub record Given : Type 0 where
  pub id : String
  pub name : String
  pub url : String
  pub expected_status_code : ℤ
  pub smtp : SmtpConfig
  pub mailtrap : MailtrapConfig
  pub providers : AlertProvidersConfig

-- The zero value of everything else.
abbrev pub smallest : Given → RawConfig
smallest g = record {
  http = record { address = ""; port = pos 0; auth = record { bearer_token = "" } };
  alerts = record {
    notification_retries = record { max_attempts = pos 0; backoff = [] };
    transition_delay = record { down = pos 0; up = pos 0 };
    providers = g.providers;
  };
  smtp = g.smtp;
  mailtrap = g.mailtrap;
  observer = record {
    enabled = none;
    interval = pos 0;
    timeout = pos 0;
    failure_threshold = pos 0;
    recovery_threshold = pos 0;
    required_successes = pos 0;
    sentinels = [];
    transfer_check = record {
      enabled = false;
      interval = pos 0;
      incident_interval = pos 0;
      timeout = pos 0;
      slow_threshold = pos 0;
      consecutive_slow_results = pos 0;
    };
  };
  storage = record {
    backend = "";
    sqlite = record { path = "" };
    postgres = record { dsn = "" };
    probe_results = none;
    connectivity_samples = none;
    probe_minute_rollups = none;
    probe_hourly_rollups = none;
    probe_daily_rollups = none;
  };
  tenant_id = "";
  defaults = record {
    interval = pos 0;
    timeout = pos 0;
    probe_retries = none;
    probe_retry_backoff = pos 0;
    failure_threshold = pos 0;
    history_retention = pos 0;
  };
  monitors =
      record {
        id = g.id;
        name = g.name;
        url = g.url;
        expected_status_code = g.expected_status_code;
        follow_redirects = false;
        max_redirects = pos 0;
        redirect_target = record { exact = ""; regex = "" };
        response_body = record {
          must_contain = [];
          must_not_contain = [];
          command = [];
          command_given = false;
          command_timeout = pos 0;
        };
        max_response_time = pos 0;
        interval = pos 0;
        timeout = pos 0;
        failure_threshold = pos 0;
        insecure_skip_verify = false;
      }
      ∷ [];
}

abbrev completed : Given → Config
completed g = apply_defaults (decoded (smallest g))

given_text : (s : String) → is_empty s ≡ false → s ≢ ""
given_text s e = (is_empty_iff s).0 e

module _ (go : GoLibrary) (g : Given) (provided : ValidProviders go (completed g)) (id : g.id ≢ "")
    (name : g.name ≢ "") (url : GivenUrl go g.url) (code : Within 100 599 g.expected_status_code)
    (no_port : go.splits_host_port "127.0.0.1" ≡ false)
    (gstatic : GivenUrl go "https://www.gstatic.com/generate_204")
    (cloudflare : GivenUrl go "https://cp.cloudflare.com/generate_204")
    (cloudflare_ip : GivenUrl go "http://1.1.1.1/cdn-cgi/trace")
    (microsoft : GivenUrl go "http://www.msftconnecttest.com/connecttest.txt") where
  sentinel :
      {c : SentinelConfig} (seen : List String)
      → is_empty c.id ≡ false
      → is_empty c.name ≡ false
      → GivenUrl go c.url
      → Within 100 599 c.expected_status_code
      → contains c.id seen ≡ false
      → ValidSentinel go seen c
  sentinel {c} seen i n u w f = record {
    id = given_text c.id i;
    fresh = (contains-Absent_iff c.id seen).0 f;
    name = given_text c.name n;
    url = u;
    status = w;
  }

  valid : ValidConfig go (completed g)
  unfolding decoded apply_defaults default_alerts default_retries default_storage default_observer
      default_defaults default_transfer_check default_monitor built_in_observer_sentinels
      unmarshal_defaults validate_defaults validate_storage validate_observer
      validate_notification_retries collect validate_backend validate_transfer_check
      validate_backoff validate_tenant_id trim_space contains
  valid = record {
    providers = provided;
    defaults = (validate_defaults_iff _).0 refl;
    storage = (validate_storage_iff _).0 refl;
    http = record {
      port = (omega arith, omega arith);
      tenant = refl;
      address = record {
        given = given_text "127.0.0.1" refl;
        trimmed = refl;
        spaces = (unspaced "127.0.0.1").0 refl;
        no_port = no_port;
      };
      token = record { trimmed = trim_space-nil; printable = tt };
    };
    observer = (validate_observer_iff _).0 refl;
    delays = record { down = omega arith; up = omega arith };
    sentinels = (
      sentinel [] refl refl gstatic (omega arith, omega arith) refl,
      (
        sentinel _ refl refl cloudflare (omega arith, omega arith) refl,
        (
          sentinel _ refl refl cloudflare_ip (omega arith, omega arith) refl,
          (sentinel _ refl refl microsoft (omega arith, omega arith) refl, tt),
        ),
      ),
    );
    some_monitor = λ e. ground arith;
    retries = (validate_notification_retries_iff _).0 refl;
    monitors = (
      record {
        id = id;
        fresh = tt;
        name = name;
        url = url;
        status = code;
        max_response_time = omega arith;
        max_redirects = omega arith;
        follows = λ h. absurd (omega arith);
        target = record {
          follows = λ e. absurd (ground arith);
          exclusive = λ h. refl;
          exact = λ h. absurd (h refl);
          regex = λ h. absurd (h refl);
        };
        command_given = λ e. absurd (ground arith);
        command = refl;
        interval = omega arith;
        timeout = omega arith;
        failure_threshold = omega arith;
      },
      tt,
    );
  }

  -- A file that gives one monitor (its id, its name, a URL and a status code) and a valid choice of
  -- alert providers, and nothing else, is valid once it is completed by the defaults. It is assumed
  -- of Go's library that it takes 127.0.0.1 for a host without a port and the addresses of the four
  -- built-in sentinels for URLs.
  pub smallest-validates : validate go (apply_defaults (decoded (smallest g))) ≡ []
  smallest-validates = (validate_iff go (completed g)).1 valid
