-- ===== src/Config/Validate/Provider.antt =====
-- `validateSMTPConfig`, `validateMailtrapConfig` and `validateTelegramConfig` of
-- internal/config/config.go.
use upag.Base.{
  ℕ, suc, String, List, [], ◌∷◌, ◌++◌, Bool, not, ◌||◌, le_of_nat, ◌==◌, string_eq, is_empty,
  trim_space, decimal, ◌<>◌,
}
use upag.Config.{SmtpConfig, MailtrapConfig, TelegramConfig, is_nil}
use upag.Config.Validate.{GoLibrary, when, required_url, collect}

abbrev pub is_tls_mode : String → Bool
is_tls_mode s = s == "none" || s == "starttls" || s == "tls"

unfoldable pub validate_smtp_config : String → SmtpConfig → List String
validate_smtp_config path c = collect (
    when (is_empty c.host) (path <> ".host is required")
    ∷ when (le_of_nat c.port 0 || not (le_of_nat c.port 65535))
        (path <> ".port must be a TCP port number from 1 through 65535")
    ∷ when (not (is_tls_mode c.tls)) (path <> ".tls must be one of: none, starttls, tls")
    ∷ when (is_empty c.from) (path <> ".from is required")
    ∷ when (is_nil c.to) (path <> ".to must contain at least one recipient")
    ∷ [])

unfoldable pub validate_chat_ids : String → ℕ → List String → List String
validate_chat_ids path i [] = []
validate_chat_ids path i (id ∷ ids) =
    when (is_empty (trim_space id)) (path <> (".chat_ids[" <> (decimal i <> "] is required")))
    ++ validate_chat_ids path (suc i) ids

module _ (go : GoLibrary) where
  unfoldable pub validate_mailtrap_config : String → MailtrapConfig → List String
  validate_mailtrap_config path c = collect (
      when (is_empty c.token) (path <> ".token is required")
      ∷ required_url go (path <> ".endpoint") c.endpoint
      ∷ when (is_empty c.from) (path <> ".from is required")
      ∷ when (is_nil c.to) (path <> ".to must contain at least one recipient")
      ∷ [])

  unfoldable pub validate_telegram_config : String → TelegramConfig → List String
  unfolding validate_chat_ids
  validate_telegram_config path c = collect (
      when (is_empty c.token) (path <> ".token is required")
      ∷ when (is_nil c.chat_ids) (path <> ".chat_ids must contain at least one chat ID")
      ∷ validate_chat_ids path 0 c.chat_ids
      ∷ required_url go (path <> ".endpoint") c.endpoint
      ∷ [])
