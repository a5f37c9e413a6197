-- ===== src/Config/Validate/Address.antt =====
-- The tenant, the address and the token of internal/config/config.go.
use Prim.Native.String.{len}
use upag.Base.{
  ℕ, String, List, [], ◌∷◌, Bool, false, not, ◌&&◌, ◌||◌, Option, none, some, ltb, leb, ◌==◌,
  nat_eq, string_eq, is_empty, codes, all, any, length, trim_space, if◌then◌else◌,
}
use upag.Config.Validate.{GoLibrary, when, only_if, collect}

abbrev pub is_alphanumeric : ℕ → Bool
is_alphanumeric c =
    (leb b'a' c && leb c b'z') || (leb b'A' c && leb c b'Z') || (leb b'0' c && leb c b'9')

abbrev pub is_inner : ℕ → Bool
is_inner c = is_alphanumeric c || c == b'.' || c == b'_' || c == b'-'

abbrev pub ends_alphanumeric : List ℕ → Bool
ends_alphanumeric [] = false
ends_alphanumeric (c ∷ []) = is_alphanumeric c
ends_alphanumeric (c ∷ (d ∷ cs)) = ends_alphanumeric (d ∷ cs)

-- `^[a-zA-Z0-9](?:[a-zA-Z0-9._-]{0,61}[a-zA-Z0-9])?$`: after the first character nothing, or at
-- most 61 inner characters and one that is alphanumeric.
abbrev pub matches_tenant_id : List ℕ → Bool
matches_tenant_id [] = false
matches_tenant_id (c ∷ []) = is_alphanumeric c
matches_tenant_id (c ∷ (d ∷ cs)) =
    is_alphanumeric c
    && (all is_inner (d ∷ cs) && (ends_alphanumeric (d ∷ cs) && leb (length (d ∷ cs)) 62))

unfoldable pub validate_tenant_id : String → Option String
validate_tenant_id raw =
    let tenant_id = trim_space raw in
    if is_empty tenant_id
    then some "tenant_id is required"
    else if not (raw == tenant_id)
    then some "tenant_id must not have leading or trailing whitespace"
    else if ltb 63 (len tenant_id)
    then some "tenant_id must not exceed 63 characters"
    else if not (matches_tenant_id (codes tenant_id))
    then some "tenant_id must match ^[a-zA-Z0-9](?:[a-zA-Z0-9._-]{0,61}[a-zA-Z0-9])?$"
    else none

unfoldable pub validate_http_address : GoLibrary → String → Option String
validate_http_address go raw =
    if is_empty raw
    then some "address is required"
    else if not (raw == trim_space raw)
    then some "address must not contain leading or trailing whitespace"
    else if any (λ c. c == 32 || c == 9 || c == 13 || c == 10) (codes raw)
    then some "address must not contain whitespace"
    else if go.splits_host_port raw
    then some "address must not include a port"
    else none

abbrev pub is_blank_or_control : ℕ → Bool
is_blank_or_control c = leb c 0x20 || c == 0x7F

unfoldable pub validate_bearer_token : String → List String
validate_bearer_token token = only_if (not (is_empty token)) (
    collect (
      when (not (trim_space token == token))
        "http.auth.bearer_token must not have leading or trailing whitespace"
      ∷ when (any is_blank_or_control (codes token))
          "http.auth.bearer_token must not contain whitespace or control characters"
      ∷ []))
