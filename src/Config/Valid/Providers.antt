-- ===== src/Config/Valid/Providers.antt =====
-- The alert providers that `Validate` of internal/config/config.go accepts, as a whole.
use upag.Base.{[], Bool, true, false, not, ◌&&◌, string_eq, ◌≡◌, ◌↔◌, ◌⊎◌, inl, inr, refl, arith}
use upag.Config.{Config, smtp_configured, mailtrap_configured, telegram_configured}
use upag.Config.Validate.{GoLibrary}
use upag.Config.Validate.Whole.{validate_providers}
use upag.Config.Valid.{iff_trans, pointwise, collects, when-nil_iff, only_if-nil_iff}
use upag.Config.Valid.Senders.{
  ValidSmtp, validate_smtp_config_iff, ValidMailtrap, validate_mailtrap_config_iff, ValidTelegram,
  validate_telegram_config_iff,
}

not_both_iff : (a b : Bool) → (a && b ≡ false) ↔ ((a ≡ true) → b ≡ false)
not_both_iff true b = (λ h _. h, λ h. h refl)
not_both_iff false b = (λ _ e. absurd (ground arith), λ _. refl)

-- One of the five sections at least is configured.
abbrev pub SomeProvider : Config → Type 0
SomeProvider c =
    (smtp_configured c.smtp ≡ true)
    ⊎ (mailtrap_configured c.mailtrap ≡ true)
    ⊎ (smtp_configured c.alerts.providers.smtp ≡ true)
    ⊎ (mailtrap_configured c.alerts.providers.mailtrap ≡ true)
    ⊎ (telegram_configured c.alerts.providers.telegram ≡ true)

one_of_five :
    (a b c d e : Bool)
    → (not a && not b && not c && not d && not e ≡ false)
      ↔ ((a ≡ true) ⊎ (b ≡ true) ⊎ (c ≡ true) ⊎ (d ≡ true) ⊎ (e ≡ true))
one_of_five true b c d e = (λ _. inl refl, λ _. refl)
one_of_five false true c d e = (λ _. inr (inl refl), λ _. refl)
one_of_five false false true d e = (λ _. inr (inr (inl refl)), λ _. refl)
one_of_five false false false true e = (λ _. inr (inr (inr (inl refl))), λ _. refl)
one_of_five false false false false true = (λ _. inr (inr (inr (inr refl))), λ _. refl)
one_of_five false false false false false = (λ h. absurd (ground arith), λ h. ground arith)

pub record ValidProviders (go : GoLibrary) (c : Config) : Type 0 where
  pub some_provider : SomeProvider c
  pub one_smtp : (smtp_configured c.smtp ≡ true) → smtp_configured c.alerts.providers.smtp ≡ false
  pub one_mailtrap :
      (mailtrap_configured c.mailtrap ≡ true)
      → mailtrap_configured c.alerts.providers.mailtrap ≡ false
  pub smtp : (smtp_configured c.smtp ≡ true) → ValidSmtp c.smtp
  pub alerts_smtp :
      (smtp_configured c.alerts.providers.smtp ≡ true) → ValidSmtp c.alerts.providers.smtp
  pub mailtrap : (mailtrap_configured c.mailtrap ≡ true) → ValidMailtrap go c.mailtrap
  pub alerts_mailtrap :
      (mailtrap_configured c.alerts.providers.mailtrap ≡ true)
      → ValidMailtrap go c.alerts.providers.mailtrap
  pub telegram :
      (telegram_configured c.alerts.providers.telegram ≡ true)
      → ValidTelegram go c.alerts.providers.telegram

pub validate_providers_iff :
    (go : GoLibrary) (c : Config) → (validate_providers go c ≡ []) ↔ ValidProviders go c
unfolding validate_providers
validate_providers_iff go c =
    collects _
      (λ t. record {
        some_provider =
            (iff_trans (when-nil_iff _ _) (
                one_of_five (smtp_configured c.smtp) (mailtrap_configured c.mailtrap)
                  (smtp_configured c.alerts.providers.smtp)
                  (mailtrap_configured c.alerts.providers.mailtrap)
                  (telegram_configured c.alerts.providers.telegram))).0
              t.0;
        one_smtp =
            (iff_trans (when-nil_iff _ _)
                (not_both_iff (smtp_configured c.smtp) (smtp_configured c.alerts.providers.smtp))).0
              t.1.0;
        one_mailtrap =
            (iff_trans (when-nil_iff _ _) (
                not_both_iff (mailtrap_configured c.mailtrap)
                  (mailtrap_configured c.alerts.providers.mailtrap))).0
              t.1.1.0;
        smtp =
            (iff_trans (only_if-nil_iff (smtp_configured c.smtp) _)
                (pointwise (validate_smtp_config_iff "smtp" c.smtp))).0
              t.1.1.1.0;
        alerts_smtp =
            (iff_trans (only_if-nil_iff (smtp_configured c.alerts.providers.smtp) _) (
                pointwise
                  (validate_smtp_config_iff "alerts.providers.smtp" c.alerts.providers.smtp))).0
              t.1.1.1.1.0;
        mailtrap =
            (iff_trans (only_if-nil_iff (mailtrap_configured c.mailtrap) _)
                (pointwise (validate_mailtrap_config_iff "mailtrap" go c.mailtrap))).0
              t.1.1.1.1.1.0;
        alerts_mailtrap =
            (iff_trans (only_if-nil_iff (mailtrap_configured c.alerts.providers.mailtrap) _) (
                pointwise (
                  validate_mailtrap_config_iff "alerts.providers.mailtrap" go
                    c.alerts.providers.mailtrap))).0
              t.1.1.1.1.1.1.0;
        telegram =
            (iff_trans (only_if-nil_iff (telegram_configured c.alerts.providers.telegram) _) (
                pointwise (
                  validate_telegram_config_iff "alerts.providers.telegram" go
                    c.alerts.providers.telegram))).0
              t.1.1.1.1.1.1.1.0;
      })
      (λ v. (
        (iff_trans (when-nil_iff _ _) (
              one_of_five (smtp_configured c.smtp) (mailtrap_configured c.mailtrap)
                (smtp_configured c.alerts.providers.smtp)
                (mailtrap_configured c.alerts.providers.mailtrap)
                (telegram_configured c.alerts.providers.telegram))).1
            v.some_provider,
        (
          (iff_trans (when-nil_iff _ _)
                (not_both_iff (smtp_configured c.smtp) (smtp_configured c.alerts.providers.smtp))).1
              v.one_smtp,
          (
            (iff_trans (when-nil_iff _ _) (
                  not_both_iff (mailtrap_configured c.mailtrap)
                    (mailtrap_configured c.alerts.providers.mailtrap))).1
                v.one_mailtrap,
            (
              (iff_trans (only_if-nil_iff (smtp_configured c.smtp) _)
                    (pointwise (validate_smtp_config_iff "smtp" c.smtp))).1
                  v.smtp,
              (
                (iff_trans (only_if-nil_iff (smtp_configured c.alerts.providers.smtp) _) (
                      pointwise (
                        validate_smtp_config_iff "alerts.providers.smtp"
                          c.alerts.providers.smtp))).1
                    v.alerts_smtp,
                (
                  (iff_trans (only_if-nil_iff (mailtrap_configured c.mailtrap) _)
                        (pointwise (validate_mailtrap_config_iff "mailtrap" go c.mailtrap))).1
                      v.mailtrap,
                  (
                    (iff_trans (only_if-nil_iff (mailtrap_configured c.alerts.providers.mailtrap) _)
                          (pointwise (
                            validate_mailtrap_config_iff "alerts.providers.mailtrap" go
                              c.alerts.providers.mailtrap))).1
                        v.alerts_mailtrap,
                    (
                      (iff_trans
                            (only_if-nil_iff (telegram_configured c.alerts.providers.telegram) _)
                            (pointwise (
                              validate_telegram_config_iff "alerts.providers.telegram" go
                                c.alerts.providers.telegram))).1
                          v.telegram,
                      tt,
                    ),
                  ),
                ),
              ),
            ),
          ),
        ),
      ))
