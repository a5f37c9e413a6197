-- ===== src/Examples/Configs.antt =====
-- Configurations: one monitor with one provider, a mapping of the file, a long retention.
use upag.Base.{
  ◌*◌, ◌<◌, ◌^◌, String, [], ◌∷◌, true, false, ℤ, pos, none, some, Fallible, ok, ◌≡◌, ◌↔◌, inr,
  refl, arith, is_empty, codes, trim_space,
}
use upag.Alert.{IncidentSender}
use upag.Observer
use upag.Observer.{Response, check, no_state}
use upag.Config.{SmtpConfig, MailtrapConfig, Config, ObserverConfig, NotificationRetriesConfig}
use upag.Config.Decoded.{decoded}
use upag.Config.Defaults.{
  apply_defaults, default_observer, default_alerts, default_smtp, default_mailtrap,
  default_telegram, default_transfer_check, built_in_observer_sentinels,
}
use upag.Config.Defaults.Accepted.{Given, smallest, smallest-validates}
use upag.Config.Schema.{
  Node, document, mapping, scalar, no_items, entry, no_entries, validate_mapping,
}
use upag.Config.Schema.Accepts.{MappingAccepts, validate_mapping-accepts_iff}
use upag.Config.Sections.{http_config_fields}
use upag.Config.Retention.{int64, unmarshal_retention, unmarshal_retention-days_iff}
use upag.Config.Validate.{GoLibrary, collect}
use upag.Config.Validate.Address.{matches_tenant_id, validate_tenant_id}
use upag.Config.Validate.Whole.{
  validate, validate_providers, validate_observer, validate_transfer_check,
}
use upag.Config.Valid.{is_empty_iff}
use upag.Config.Valid.Tenant.{validate_tenant_id_iff}
use upag.Config.Valid.Addresses.{GivenUrl, spaceless}
use upag.Config.Valid.Observer.{validate_observer_iff}
use upag.Config.Validate.Provider.{validate_smtp_config}
use upag.Config.Texts.{contains}
use upag.Config.Runtime.{Senders, observer_config}
use upag.Config.Runtime.Guarantees.{check-reaches_quorum}
use upag.Config.Valid.Providers.{ValidProviders, validate_providers_iff}
use upag.Config.Valid.Whole.{ValidConfig, validate_iff}
use upag.Config.Load.{YamlLibrary, parse, Loads}
use upag.Config.Load.Parsed.{parse-Loads_iff}

abbrev go : GoLibrary
go = record {
  parse_url = λ raw. ok (record { scheme = "https"; host = "example.com" });
  compile_error = λ raw. none;
  splits_host_port = λ raw. false;
  quote = λ s. s;
}

abbrev no_mailtrap : MailtrapConfig
no_mailtrap = record { token = ""; endpoint = ""; from = ""; from_name = ""; to = [] }

abbrev smtp : SmtpConfig
smtp = record {
  host = "mail.example.com";
  port = pos 25;
  tls = "none";
  username = "";
  password = "";
  from = "upag@example.com";
  to = "ops@example.com" ∷ [];
  local_name = "";
}

abbrev no_smtp : SmtpConfig
no_smtp = record {
  host = "";
  port = pos 0;
  tls = "";
  username = "";
  password = "";
  from = "";
  to = [];
  local_name = "";
}

abbrev one_monitor : Given
one_monitor = record {
  id = "api";
  name = "API";
  url = "https://api.example.com";
  expected_status_code = pos 200;
  smtp = smtp;
  mailtrap = no_mailtrap;
  providers = record {
    smtp = no_smtp;
    mailtrap = no_mailtrap;
    telegram = record { token = ""; chat_ids = []; endpoint = "" };
  };
}

abbrev yaml : YamlLibrary
yaml = record {
  unmarshal = λ text. ok (document no_items);
  decode = λ root. ok (smallest one_monitor);
  decode_int = λ n. none;
  decode_string = λ n. none;
}

abbrev completed : Config
completed = apply_defaults (decoded (smallest one_monitor))

is_url : (s : String) → is_empty s ≡ false → GivenUrl go s
is_url s e = record {
  given = (is_empty_iff s).0 e;
  valid = record {
    scheme = inr refl;
    host = (is_empty_iff "example.com").0 refl;
    spaces = (spaceless "example.com").0 refl;
  };
}

provided : ValidProviders go completed
unfolding apply_defaults decoded validate_providers default_alerts default_smtp default_mailtrap
    default_telegram collect validate_smtp_config
provided = (validate_providers_iff go completed).0 refl

smallest-validates_example : validate go completed ≡ []
smallest-validates_example =
    smallest-validates go one_monitor provided ((is_empty_iff "api").0 refl)
      ((is_empty_iff "API").0 refl) (is_url "https://api.example.com" refl)
      (omega arith, omega arith) refl (is_url "https://www.gstatic.com/generate_204" refl)
      (is_url "https://cp.cloudflare.com/generate_204" refl)
      (is_url "http://1.1.1.1/cdn-cgi/trace" refl)
      (is_url "http://www.msftconnecttest.com/connecttest.txt" refl)

validate_iff_example : (validate go completed ≡ []) ↔ ValidConfig go completed
validate_iff_example = validate_iff go completed

parse-Loads_iff_example :
    (parse yaml go "monitors: []" ≡ ok completed) ↔ Loads yaml go "monitors: []" completed
parse-Loads_iff_example = parse-Loads_iff yaml go "monitors: []" completed

-- `http: {port: "8080", host: "h"}`.
abbrev http_section : Node
http_section =
    mapping (entry (scalar "port") (scalar "8080") (entry (scalar "host") (scalar "h") no_entries))

validate_mapping-accepts_iff_example :
    (validate_mapping http_section "http" http_config_fields ≡ none)
    ↔ MappingAccepts http_config_fields "http" http_section
validate_mapping-accepts_iff_example =
    validate_mapping-accepts_iff http_section "http" http_config_fields

unknown_field :
    validate_mapping http_section "http" http_config_fields ≡ some "unknown config field http.host"
unfolding validate_mapping contains
unknown_field = refl

validate_tenant_id_iff_example :
    (validate_tenant_id "team-1" ≡ none) ↔ (matches_tenant_id (codes "team-1") ≡ true)
validate_tenant_id_iff_example = validate_tenant_id_iff "team-1"

-- 200000 days: as hours they are 720000000000000000 nanoseconds.
abbrev parse_hours : String → Fallible String ℤ
parse_hours text = ok (pos 720_000_000_000_000_000)

unmarshal_retention-days_iff_example :
    (unmarshal_retention parse_hours "200000d"
      ≡ ok (record { duration = int64 (pos (720_000_000_000_000_000 * 24)); forever = false }))
    × ((unmarshal_retention parse_hours "200000d"
          ≡ ok (record { duration = pos (720_000_000_000_000_000 * 24); forever = false }))
        ↔ (720_000_000_000_000_000 * 24 < 2 ^ 63))
unfolding trim_space
unmarshal_retention-days_iff_example =
    unmarshal_retention-days_iff parse_hours "200000d" "200000" 720_000_000_000_000_000 refl refl

abbrev one_sender : IncidentSender
one_sender = record {
  send_incident = λ incident current. [];
  send_provider = λ provider incident current. record { provider = provider; error = none };
  providers = "smtp" ∷ [];
}

abbrev new : Senders
new = record {
  emailer = λ c. one_sender;
  mailtrap_emailer = λ c. one_sender;
  telegram_sender = λ c. one_sender;
}

abbrev blank_retries : NotificationRetriesConfig
blank_retries = record { max_attempts = pos 0; backoff = [] }

abbrev observer : ObserverConfig
observer = default_observer (decoded (smallest one_monitor)).observer

abbrev expected_answer : Observer.SentinelConfig → Response
expected_answer s = Response.answered 20 s.expected_status_code

check-reaches_quorum_example :
    let s = (check expected_answer (observer_config observer) no_state false 9).state in
    (s.consecutive_failures ≡ 0) × (s.last_error ≡ "") × (s.last_success_at ≡ 9)
unfolding default_observer decoded default_transfer_check built_in_observer_sentinels
    validate_observer validate_transfer_check collect
check-reaches_quorum_example =
    check-reaches_quorum expected_answer observer no_state false 9
      ((validate_observer_iff observer).0 refl) refl (refl, (refl, (refl, (refl, tt))))
