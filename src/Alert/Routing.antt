-- ===== src/Alert/Routing.antt =====
-- The fan-out of internal/alert/email.go to the providers.
use upag.Base.{
  ℕ, String, List, [], ◌∷◌, ◌++◌, false, ◌||◌, ◌≡◌, refl, ◌∙◌, All, map, arith, string_eq,
}
use upag.Storage.{Incident, MonitorState}
use upag.Alert.{
  IncidentSender, SendResult, NotificationRetriesConfig, send_incident, send_provider, providers,
  string_in_slice, alert_notifications, not_configured,
}
use mathlib.Core.List.{map-append}

-- What the senders rely on one another for: one result for each of their providers, in order, and
-- a result that names the provider that it was asked for.
pub record IsSender (s : IncidentSender) : Type 0 where
  pub reports :
      (i : Incident) (m : MonitorState) → map (λ r. r.provider) (s.send_incident i m) ≡ s.providers
  pub names : (p : String) (i : Incident) (m : MonitorState) → (s.send_provider p i m).provider ≡ p

send_incident-providers :
    (senders : List IncidentSender) (i : Incident) (m : MonitorState)
    → All IsSender senders
    → map (λ r. r.provider) (send_incident senders i m) ≡ providers senders
unfolding send_incident providers
send_incident-providers [] i m h = refl
send_incident-providers (s ∷ ss) i m h =
    rw (map-append, h.0.reports i m, send_incident-providers ss i m h.1)

notification-providers :
    (k : ℕ) (monitor : String) (at n : ℕ) (policy : NotificationRetriesConfig)
    (rs : List SendResult)
    → map (λ x. x.provider) (alert_notifications k monitor at n policy rs)
      ≡ map (λ r. r.provider) rs
unfolding alert_notifications
notification-providers k monitor at n policy [] = refl
notification-providers k monitor at n policy (r ∷ rs) =
    rw (notification-providers k monitor at n policy rs)

-- An incident makes one notification for each configured provider, in the order of the senders, if
-- each sender reports one result for each of its own.
pub incident_notifies_each :
    (senders : List IncidentSender) (i : Incident) (m : MonitorState) (k at n : ℕ)
    (policy : NotificationRetriesConfig)
    → All IsSender senders
    → map
        (λ x. x.provider)
        (alert_notifications k i.monitor_id at n policy (send_incident senders i m))
      ≡ providers senders
incident_notifies_each senders i m k at n policy h =
    notification-providers k i.monitor_id at n policy (send_incident senders i m)
    ∙ send_incident-providers senders i m h

in_append :
    (p : String) (xs ys : List String)
    → string_in_slice p (xs ++ ys) ≡ (string_in_slice p xs || string_in_slice p ys)
unfolding string_in_slice
in_append p [] ys = refl
in_append p (x ∷ xs) ys = ground (arith, in_append p xs ys)

-- A retry is handed to a sender of the provider exactly if the provider is configured, and otherwise
-- it fails with an error of its own; the result names the provider either way.
pub send_provider_routes :
    (senders : List IncidentSender) (p : String) (i : Incident) (m : MonitorState)
    → All IsSender senders
    → ((send_provider senders p i m).provider ≡ p)
      × (string_in_slice p (providers senders) ≡ false
          → send_provider senders p i m ≡ not_configured p)
unfolding send_provider providers
send_provider_routes [] p i m h = (refl, λ e. refl)
send_provider_routes (s ∷ ss) p i m h = ground (
  arith,
  in_append p s.providers (providers ss),
  send_provider_routes ss p i m h.1,
  h.0.names p i m,
)
