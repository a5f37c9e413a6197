-- ===== src/Config/Valid/Senders.antt =====
-- The sections of the mail servers, of Mailtrap and of Telegram that `Validate` of
-- internal/config/config.go accepts.
use upag.Base.{
  ℕ, suc, String, List, [], ◌∷◌, false, not, trim_space, ◌==◌, string_eq, All, Bool-cases, ◌<>◌,
  ◌≡◌, ◌≢◌, ◌↔◌, ◌⊎◌, inl, inr, refl, arith, eq_iff,
}
use upag.Config.{SmtpConfig, MailtrapConfig, TelegramConfig}
use upag.Config.Validate.{GoLibrary, when}
use upag.Config.Validate.Provider.{
  is_tls_mode, validate_smtp_config, validate_chat_ids, validate_mailtrap_config,
  validate_telegram_config,
}
use upag.Config.Valid.{
  iff_trans, append-nil_iff, collects, when-nil_iff, given_test, some_test, port_test, Within,
  NotBlank,
}
use upag.Config.Valid.Addresses.{GivenUrl, required_url_test}

abbrev pub IsTlsMode : String → Type 0
IsTlsMode s = (s ≡ "none") ⊎ (s ≡ "starttls") ⊎ (s ≡ "tls")

tls_iff : (s : String) → (not (is_tls_mode s) ≡ false) ↔ IsTlsMode s
tls_iff s = elim (Bool-cases (s == "none")) [
  | inl e ↦ (λ _. inl ((eq_iff s "none").0 e), λ _. rw e)
  | inr e ↦ elim (Bool-cases (s == "starttls")) [
    | inl f ↦ (λ _. inr (inl ((eq_iff s "starttls").0 f)), λ _. rw (e, f))
    | inr f ↦ elim (Bool-cases (s == "tls")) [
      | inl g ↦ (λ _. inr (inr ((eq_iff s "tls").0 g)), λ _. rw (e, f, g))
      | inr g ↦ (
        λ h. absurd (ground arith),
        λ h. elim h [
          | inl p ↦ ground (arith, (eq_iff s "none").1 p)
          | inr q ↦ elim q [
            | inl p ↦ ground (arith, (eq_iff s "starttls").1 p)
            | inr p ↦ ground (arith, (eq_iff s "tls").1 p)
          ]
        ],
      )
    ]
  ]
]

tls_test : (s : String) (m : String) → (when (not (is_tls_mode s)) m ≡ []) ↔ IsTlsMode s
tls_test s m = iff_trans (when-nil_iff _ m) (tls_iff s)

pub record ValidSmtp (c : SmtpConfig) : Type 0 where
  pub host : c.host ≢ ""
  pub port : Within 1 65535 c.port
  pub tls : IsTlsMode c.tls
  pub from : c.from ≢ ""
  pub to : c.to ≢ []

pub validate_smtp_config_iff :
    (path : String) (c : SmtpConfig) → (validate_smtp_config path c ≡ []) ↔ ValidSmtp c
unfolding validate_smtp_config
validate_smtp_config_iff path c =
    collects _
      (λ t. record {
        host = (given_test c.host _).0 t.0;
        port = (port_test c.port _).0 t.1.0;
        tls = (tls_test c.tls _).0 t.1.1.0;
        from = (given_test c.from _).0 t.1.1.1.0;
        to = (some_test c.to _).0 t.1.1.1.1.0;
      })
      (λ v. (
        (given_test c.host _).1 v.host,
        (
          (port_test c.port _).1 v.port,
          (
            (tls_test c.tls _).1 v.tls,
            ((given_test c.from _).1 v.from, ((some_test c.to _).1 v.to, tt)),
          ),
        ),
      ))

chat_ids_test :
    (path : String) (i : ℕ) (ids : List String)
    → (validate_chat_ids path i ids ≡ []) ↔ All (λ (id : String). NotBlank id) ids
unfolding validate_chat_ids
chat_ids_test path i [] = (λ _. tt, λ _. refl)
chat_ids_test path i (id ∷ ids) = iff_trans (append-nil_iff _ _) (
  λ h. ((given_test (trim_space id) _).0 h.0, (chat_ids_test path (suc i) ids).0 h.1),
  λ h. ((given_test (trim_space id) _).1 h.0, (chat_ids_test path (suc i) ids).1 h.1),
)

pub record ValidMailtrap (go : GoLibrary) (c : MailtrapConfig) : Type 0 where
  pub token : c.token ≢ ""
  pub endpoint : GivenUrl go c.endpoint
  pub from : c.from ≢ ""
  pub to : c.to ≢ []

pub validate_mailtrap_config_iff :
    (path : String) (go : GoLibrary) (c : MailtrapConfig)
    → (validate_mailtrap_config go path c ≡ []) ↔ ValidMailtrap go c
unfolding validate_mailtrap_config
validate_mailtrap_config_iff path go c =
    collects _
      (λ t. record {
        token = (given_test c.token _).0 t.0;
        endpoint = (required_url_test go (path <> ".endpoint") c.endpoint).0 t.1.0;
        from = (given_test c.from _).0 t.1.1.0;
        to = (some_test c.to _).0 t.1.1.1.0;
      })
      (λ v. (
        (given_test c.token _).1 v.token,
        (
          (required_url_test go (path <> ".endpoint") c.endpoint).1 v.endpoint,
          ((given_test c.from _).1 v.from, ((some_test c.to _).1 v.to, tt)),
        ),
      ))

pub record ValidTelegram (go : GoLibrary) (c : TelegramConfig) : Type 0 where
  pub token : c.token ≢ ""
  pub chat_ids : c.chat_ids ≢ []
  pub each_chat_id : All (λ (id : String). NotBlank id) c.chat_ids
  pub endpoint : GivenUrl go c.endpoint

pub validate_telegram_config_iff :
    (path : String) (go : GoLibrary) (c : TelegramConfig)
    → (validate_telegram_config go path c ≡ []) ↔ ValidTelegram go c
unfolding validate_telegram_config
validate_telegram_config_iff path go c =
    collects _
      (λ t. record {
        token = (given_test c.token _).0 t.0;
        chat_ids = (some_test c.chat_ids _).0 t.1.0;
        each_chat_id = (chat_ids_test path 0 c.chat_ids).0 t.1.1.0;
        endpoint = (required_url_test go (path <> ".endpoint") c.endpoint).0 t.1.1.1.0;
      })
      (λ v. (
        (given_test c.token _).1 v.token,
        (
          (some_test c.chat_ids _).1 v.chat_ids,
          (
            (chat_ids_test path 0 c.chat_ids).1 v.each_chat_id,
            ((required_url_test go (path <> ".endpoint") c.endpoint).1 v.endpoint, tt),
          ),
        ),
      ))
