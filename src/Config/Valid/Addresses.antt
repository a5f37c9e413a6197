-- ===== src/Config/Valid/Addresses.antt =====
-- URLs, addresses and tokens that `Validate` of internal/config/config.go accepts.
use upag.Base.{
  ℕ, String, List, [], ◌∷◌, Bool, true, false, not, ◌&&◌, ◌||◌, Option, none, Fallible, ok, err,
  ◌<◌, is_empty, codes, any, trim_space, trim_space-nil, ◌==◌, nat_eq, string_eq, All, Bool-cases,
  ◌≡◌, ◌≢◌, ◌↔◌, ◌⊎◌, inl, inr, refl, arith, eq_iff,
}
use upag.Config.{HttpConfig}
use upag.Config.Validate.{on_error}
use upag.Config.Validate.{Url, GoLibrary, when, collect, judge_url, validate_http_url, required_url}
use upag.Config.Validate.Address.{
  is_blank_or_control, matches_tenant_id, validate_tenant_id, validate_http_address,
  validate_bearer_token,
}
use upag.Config.Validate.Whole.{validate_http}
use upag.Config.Valid.Tenant.{validate_tenant_id_iff}
use upag.Config.Valid.{
  iff_trans, refuse_iff, same_iff, collects, when-nil_iff, on_error-nil_iff, is_empty_iff,
  range_test, Within,
}

pair_iff {ℓ κ μ ν} :
    {A : Type ℓ} {B : Type κ} {C : Type μ} {D : Type ν} → A ↔ C → B ↔ D → (A × B) ↔ (C × D)
pair_iff f g = (λ h. (f.0 h.0, g.0 h.1), λ h. (f.1 h.0, g.1 h.1))

any_iff {κ} :
    (p : ℕ → Bool) (P : ℕ → Type κ)
    → ((c : ℕ) → (p c ≡ false) ↔ P c)
    → (cs : List ℕ) → (any p cs ≡ false) ↔ All P cs
any_iff p P f [] = (λ _. tt, λ _. refl)
any_iff p P f (c ∷ cs) = (
  λ h. ((f c).0 (ground arith), (any_iff p P f cs).0 (ground arith)),
  λ h. rw ((f c).1 h.0, (any_iff p P f cs).1 h.1),
)

differs_iff : (k c : ℕ) → ((c == k) ≡ false) ↔ (c ≢ k)
differs_iff k c = (
  λ e same. ground arith,
  λ h. elim (Bool-cases (c == k)) [ inl e ↦ absurd (h (ground arith)) | inr e ↦ e ],
)

-- An absolute address over HTTP or HTTPS with a host that has no spaces.
pub record ValidUrl (parsed : Url) : Type 0 where
  pub scheme : (parsed.scheme ≡ "http") ⊎ (parsed.scheme ≡ "https")
  pub host : parsed.host ≢ ""
  pub spaces : All (λ (c : ℕ). c ≢ b' ') (codes parsed.host)

abbrev pub ParsesToUrl : Fallible String Url → Type 0
ParsesToUrl (err e) = ⊥
ParsesToUrl (ok parsed) = ValidUrl parsed

scheme_iff :
    (s : String)
    → (not (s == "http") && not (s == "https") ≡ false) ↔ ((s ≡ "http") ⊎ (s ≡ "https"))
scheme_iff s = elim (Bool-cases (s == "http")) [
  | inl e ↦ (λ _. inl ((eq_iff s "http").0 e), λ _. rw e)
  | inr e ↦ elim (Bool-cases (s == "https")) [
    | inl f ↦ (λ _. inr ((eq_iff s "https").0 f), λ _. ground arith)
    | inr f ↦ (
      λ h. absurd (ground arith),
      λ h. elim h [
        | inl p ↦ ground (arith, (eq_iff s "http").1 p)
        | inr p ↦ ground (arith, (eq_iff s "https").1 p)
      ],
    )
  ]
]

judge_url_iff : (r : Fallible String Url) → (judge_url r ≡ none) ↔ ParsesToUrl r
judge_url_iff (err e) = (λ h. absurd (ground arith), λ h. absurd h)
judge_url_iff (ok u) = iff_trans (refuse_iff _ _ _) (
    iff_trans
      (pair_iff (scheme_iff u.scheme) (
        iff_trans (refuse_iff _ _ _) (
          pair_iff (is_empty_iff u.host) (
            iff_trans (refuse_iff _ _ _) (
              pair_iff
                (any_iff (λ c. c == b' ') (λ (c : ℕ). c ≢ b' ') (differs_iff b' ') (codes u.host))
                (λ (e : ◌≡◌ {A = Option String} none none). tt {0}, λ _. refl))))))
      (
        λ h. record { scheme = h.0; host = h.1.0; spaces = h.1.1.0 },
        λ v. (v.scheme, (v.host, (v.spaces, tt))),
      ))

abbrev pub IsHttpUrl : GoLibrary → String → Type 0
IsHttpUrl go raw = ParsesToUrl (go.parse_url raw)

pub validate_http_url_iff :
    (go : GoLibrary) (raw : String) → (validate_http_url go raw ≡ none) ↔ IsHttpUrl go raw
unfolding validate_http_url
validate_http_url_iff go raw = judge_url_iff (go.parse_url raw)

pub record GivenUrl (go : GoLibrary) (raw : String) : Type 0 where
  pub given : raw ≢ ""
  pub valid : IsHttpUrl go raw

pub required_url_test :
    (go : GoLibrary) (field raw : String) → (required_url go field raw ≡ []) ↔ GivenUrl go raw
required_url_test go field raw = elim (Bool-cases (is_empty raw)) [
  | inl e ↦
      rw e (λ h. absurd (ground arith), λ v. absurd (ground (arith, (is_empty_iff raw).1 v.given)))
  | inr e ↦ rw e (
      iff_trans (on_error-nil_iff _ _) (
        iff_trans (validate_http_url_iff go raw)
          (λ h. record { given = (is_empty_iff raw).0 e; valid = h }, λ v. v.valid)))
]

-- A host, without a port.
pub record ValidAddress (go : GoLibrary) (raw : String) : Type 0 where
  pub given : raw ≢ ""
  pub trimmed : raw ≡ trim_space raw
  pub spaces : All (λ (c : ℕ). (c ≢ 32) × (c ≢ 9) × (c ≢ 13) × (c ≢ 10)) (codes raw)
  pub no_port : go.splits_host_port raw ≡ false

pub spaceless :
    (host : String)
    → (any (λ c. c == b' ') (codes host) ≡ false) ↔ All (λ (c : ℕ). c ≢ b' ') (codes host)
spaceless host = any_iff _ _ (differs_iff b' ') (codes host)

no_space_iff :
    (c : ℕ)
    → (c == 32 || c == 9 || c == 13 || c == 10 ≡ false) ↔ ((c ≢ 32) × (c ≢ 9) × (c ≢ 13) × (c ≢ 10))
no_space_iff c = (
  λ h. (λ e. ground arith, λ e. ground arith, λ e. ground arith, λ e. ground arith),
  λ h. ground (arith, differs_iff 32 c, differs_iff 9 c, differs_iff 13 c, differs_iff 10 c),
)

pub unspaced :
    (raw : String)
    → (any (λ c. c == 32 || c == 9 || c == 13 || c == 10) (codes raw) ≡ false)
      ↔ All (λ (c : ℕ). (c ≢ 32) × (c ≢ 9) × (c ≢ 13) × (c ≢ 10)) (codes raw)
unspaced raw = any_iff _ _ no_space_iff (codes raw)

validate_http_address_iff :
    (go : GoLibrary) (raw : String) → (validate_http_address go raw ≡ none) ↔ ValidAddress go raw
unfolding validate_http_address
validate_http_address_iff go raw = iff_trans (refuse_iff _ _ _) (
    iff_trans
      (pair_iff (is_empty_iff raw) (
        iff_trans (refuse_iff _ _ _) (
          pair_iff (same_iff raw (trim_space raw))
            (iff_trans (refuse_iff _ _ _) (pair_iff (unspaced raw) (refuse_iff _ _ _))))))
      (
        λ h. record { given = h.0; trimmed = h.1.0; spaces = h.1.1.0; no_port = h.1.1.1.0 },
        λ v. (v.given, (v.trimmed, (v.spaces, (v.no_port, refl)))),
      ))

-- A token that can stand in a header; the empty one means that none is asked for.
pub record ValidToken (token : String) : Type 0 where
  pub trimmed : trim_space token ≡ token
  pub printable : All (λ (c : ℕ). (0x20 < c) × (c ≢ 0x7F)) (codes token)

printable_iff : (c : ℕ) → (is_blank_or_control c ≡ false) ↔ ((0x20 < c) × (c ≢ 0x7F))
printable_iff c = (λ h. (ground arith, λ e. ground arith), λ h. ground (arith, differs_iff 0x7F c))

token_tests :
    (token : String)
    → (collect (
          when
            (not (trim_space token == token))
            "http.auth.bearer_token must not have leading or trailing whitespace"
          ∷ when
              (any is_blank_or_control (codes token))
              "http.auth.bearer_token must not contain whitespace or control characters"
          ∷ [])
        ≡ [])
      ↔ ValidToken token
token_tests token =
    collects _
      (λ t. record {
        trimmed = (iff_trans (when-nil_iff _ _) (same_iff (trim_space token) token)).0 t.0;
        printable =
            (iff_trans (when-nil_iff _ _) (any_iff _ _ printable_iff (codes token))).0 t.1.0;
      })
      (λ v. (
        (iff_trans (when-nil_iff _ _) (same_iff (trim_space token) token)).1 v.trimmed,
        (
          (iff_trans (when-nil_iff _ _) (any_iff _ _ printable_iff (codes token))).1 v.printable,
          tt,
        ),
      ))

token_test : (token : String) → (validate_bearer_token token ≡ []) ↔ ValidToken token
unfolding validate_bearer_token
token_test String.[] = (λ _. record { trimmed = trim_space-nil; printable = tt }, λ _. refl)
token_test (String.◌∷◌ c s) = token_tests (String.◌∷◌ c s)

tenant_test :
    (tenant_id : String)
    → (on_error "" (validate_tenant_id tenant_id) ≡ [])
      ↔ (matches_tenant_id (codes tenant_id) ≡ true)
tenant_test tenant_id = iff_trans (on_error-nil_iff "" _) (validate_tenant_id_iff tenant_id)

pub record ValidHttp (go : GoLibrary) (tenant_id : String) (c : HttpConfig) : Type 0 where
  pub port : Within 0 65535 c.port
  pub tenant : matches_tenant_id (codes tenant_id) ≡ true
  pub address : ValidAddress go c.address
  pub token : ValidToken c.auth.bearer_token

pub validate_http_iff :
    (go : GoLibrary) (tenant_id : String) (c : HttpConfig)
    → (validate_http go tenant_id c ≡ []) ↔ ValidHttp go tenant_id c
unfolding validate_http
validate_http_iff go tenant_id c =
    collects _
      (λ t. record {
        port = (range_test c.port 0 65535 _).0 t.0;
        tenant = (tenant_test tenant_id).0 t.1.0;
        address =
            (iff_trans (on_error-nil_iff "http.address: " (validate_http_address go c.address))
                (validate_http_address_iff go c.address)).0
              t.1.1.0;
        token = (token_test c.auth.bearer_token).0 t.1.1.1.0;
      })
      (λ v. (
        (range_test c.port 0 65535 _).1 v.port,
        (
          (tenant_test tenant_id).1 v.tenant,
          (
            (iff_trans (on_error-nil_iff "http.address: " (validate_http_address go c.address))
                  (validate_http_address_iff go c.address)).1
                v.address,
            ((token_test c.auth.bearer_token).1 v.token, tt),
          ),
        ),
      ))
