-- ===== src/Alert.antt =====
-- internal/alert/email.go (the fan-out to the providers) and the notifications that
-- internal/app/runner.go makes of its results.
pub mod Routing
pub mod Backoff
use upag.Base.{
  ℕ, zero, suc, ◌+◌, ◌-◌, String, List, [], ◌∷◌, ◌++◌, Option, none, some, Bool, true, false, not,
  any, map, length, get_elem?, leb, ◌<>◌, ℤ, le_of_nat, ◌==◌, nat_eq, string_eq, if◌then◌else◌,
}
use upag.Storage.{Incident, MonitorState, AlertNotification}

-- An `error` of the source is its text, and none is nil.
pub record SendResult : Type 0 where
  pub provider : String
  pub error : Option String

-- The interface `IncidentSender`, over the senders of SMTP, Mailtrap and Telegram.
pub record IncidentSender : Type 0 where
  pub send_incident : Incident → MonitorState → List SendResult
  pub send_provider : String → Incident → MonitorState → SendResult
  pub providers : List String

unfoldable pub string_in_slice : String → List String → Bool
string_in_slice value [] = false
string_in_slice value (c ∷ cs) =
    let rest = string_in_slice value cs in if c == value then true else rest

-- `fmt.Errorf` of the source; `%q` of a name without special characters is the name in quotes.
abbrev pub not_configured : String → SendResult
not_configured provider = record {
  provider = provider;
  error = some ("alert provider \"" <> (provider <> "\" is not configured"));
}

unfoldable pub send_incident : List IncidentSender → Incident → MonitorState → List SendResult
send_incident [] incident current = []
send_incident (s ∷ ss) incident current =
    s.send_incident incident current ++ send_incident ss incident current

unfoldable pub send_provider : List IncidentSender → String → Incident → MonitorState → SendResult
unfolding string_in_slice
send_provider [] provider incident current = not_configured provider
send_provider (s ∷ ss) provider incident current =
    let rest = send_provider ss provider incident current in
    if string_in_slice provider s.providers then s.send_provider provider incident current else rest

unfoldable pub providers : List IncidentSender → List String
providers [] = []
providers (s ∷ ss) = s.providers ++ providers ss

-- `NewIncidentSender`: for SMTP and Mailtrap the section of old comes first.
pub record ProviderConfig : Type 0 where
  pub smtp : Option IncidentSender
  pub alerts_smtp : Option IncidentSender
  pub mailtrap : Option IncidentSender
  pub alerts_mailtrap : Option IncidentSender
  pub alerts_telegram : Option IncidentSender

abbrev first_of_two : Option IncidentSender → Option IncidentSender → List IncidentSender
first_of_two (some a) b = a ∷ []
first_of_two none (some b) = b ∷ []
first_of_two none none = []

unfoldable pub new_incident_sender : ProviderConfig → List IncidentSender
new_incident_sender cfg =
    first_of_two cfg.smtp cfg.alerts_smtp
    ++ first_of_two cfg.mailtrap cfg.alerts_mailtrap
    ++ first_of_two cfg.alerts_telegram none

pub record NotificationRetriesConfig : Type 0 where
  pub max_attempts : ℤ
  pub backoff : List ℕ

abbrev pub duration_at : List ℕ → ℕ → ℕ
duration_at [] i = 0
duration_at (d ∷ ds) zero = d
duration_at (d ∷ ds) (suc i) = duration_at ds i

-- `attempt_number - 1` is truncated at 0, as the source does it.
unfoldable pub retry_backoff : NotificationRetriesConfig → ℕ → ℕ
retry_backoff policy attempt_number =
    let index = attempt_number - 1 in
    let last = length policy.backoff - 1 in
    if length policy.backoff == 0
    then 0
    else duration_at policy.backoff (if leb (length policy.backoff) index then last else index)

abbrev pub error_text : Option String → String
error_text none = ""
error_text (some e) = e

abbrev pub is_nil {ℓ} : {A : Type ℓ} → Option A → Bool
is_nil none = true
is_nil (some a) = false

unfoldable pub alert_notification :
    ℕ → String → ℕ → ℕ → NotificationRetriesConfig → SendResult → AlertNotification
unfolding retry_backoff
alert_notification incident_id monitor_id attempted_at attempt_number policy result =
    let exhausted = le_of_nat policy.max_attempts attempt_number in
    record {
      id = 0;
      incident_id = incident_id;
      monitor_id = monitor_id;
      provider = result.provider;
      attempted_at = attempted_at;
      attempt_number = attempt_number;
      success = is_nil result.error;
      error = error_text result.error;
      next_retry_at =
          if is_nil result.error
          then 0
          else if exhausted
          then 0
          else attempted_at + retry_backoff policy attempt_number;
      retry_exhausted = if is_nil result.error then false else exhausted;
    }

unfoldable pub alert_notifications :
    ℕ → String → ℕ → ℕ → NotificationRetriesConfig → List SendResult → List AlertNotification
unfolding alert_notification
alert_notifications incident_id monitor_id attempted_at attempt_number policy [] = []
alert_notifications incident_id monitor_id attempted_at attempt_number policy (r ∷ rs) =
    alert_notification incident_id monitor_id attempted_at attempt_number policy r
    ∷ alert_notifications incident_id monitor_id attempted_at attempt_number policy rs
