-- ===== src/Config/Valid/Tenant.antt =====
-- The tenants that `validateTenantID` of internal/config/config.go accepts.
use Prim.Native.Char.{code, len_utf8, len_utf8_def, width}
use Prim.Native.Nat.{compare}
use Prim.Native.String.len
use Prim.Native.String.{len}
use upag.Base.{
  ℕ, ◌≤◌, ◌<◌, String, List, [], ◌∷◌, Bool, true, false, not, ◌&&◌, none, some, ltb, leb, nat_eq,
  string_eq, is_empty, codes, all, length, is_space, trim_space, trim_space-id, if◌then◌else◌, ◌≡◌,
  ◌↔◌, refl, ◌∙◌, arith, eq_iff,
}
use upag.Config.Valid.{same_iff}
use upag.Config.Validate.Address.{
  is_alphanumeric, is_inner, ends_alphanumeric, matches_tenant_id, validate_tenant_id,
}

inner-space : (c : ℕ) → is_inner c ≡ true → not (is_space c) ≡ true
inner-space c h = ground arith

inner-narrow : (c : ℕ) → is_inner c ≡ true → c < 128
inner-narrow c h = ground arith

alphanumeric-inner : (c : ℕ) → is_alphanumeric c ≡ true → is_inner c ≡ true
alphanumeric-inner c h = ground arith

both_true : (a b : Bool) → a && b ≡ true → (a ≡ true) × (b ≡ true)
both_true true b h = (refl, h)
both_true false b h = absurd (ground arith)

all-spaceless : (cs : List ℕ) → all is_inner cs ≡ true → all (λ c. not (is_space c)) cs ≡ true
all-spaceless [] h = refl
all-spaceless (c ∷ cs) h =
    let both = both_true (is_inner c) (all is_inner cs) h in
    rw (inner-space c both.0, all-spaceless cs both.1)

width_narrow : (c : ℕ) → c < 128 → width (compare c 128) (compare c 2048) (compare c 65536) ≡ 1
width_narrow c h = ground arith

len-codes : (s : String) → all is_inner (codes s) ≡ true → len s ≡ length (codes s)
len-codes String.[] h = refl
len-codes (String.◌∷◌ c s) h =
    let both = both_true (is_inner (code c)) (all is_inner (codes s)) h in
    let width_one : len_utf8 c ≡ 1 =
      len_utf8_def c ∙ width_narrow (code c) (inner-narrow (code c) both.0) in
    len.cons c s ∙ omega (arith, width_one, len-codes s both.1)

matches-inner : (cs : List ℕ) → matches_tenant_id cs ≡ true → all is_inner cs ≡ true
matches-inner [] h = refl
matches-inner (c ∷ []) h = rw (alphanumeric-inner c h)
matches-inner (c ∷ (d ∷ cs)) h =
    let parts =
      both_true (is_alphanumeric c)
        (all is_inner (d ∷ cs) && (ends_alphanumeric (d ∷ cs) && leb (length (d ∷ cs)) 62)) h in
    let more =
      both_true (all is_inner (d ∷ cs)) (ends_alphanumeric (d ∷ cs) && leb (length (d ∷ cs)) 62)
        parts.1 in
    rw (alphanumeric-inner c parts.0) more.0

matches-short : (cs : List ℕ) → matches_tenant_id cs ≡ true → length cs ≤ 63
matches-short [] h = omega arith
matches-short (c ∷ []) h = omega arith
matches-short (c ∷ (d ∷ cs)) h =
    let parts =
      both_true (is_alphanumeric c)
        (all is_inner (d ∷ cs) && (ends_alphanumeric (d ∷ cs) && leb (length (d ∷ cs)) 62)) h in
    let more =
      both_true (all is_inner (d ∷ cs)) (ends_alphanumeric (d ∷ cs) && leb (length (d ∷ cs)) 62)
        parts.1 in
    let last = both_true (ends_alphanumeric (d ∷ cs)) (leb (length (d ∷ cs)) 62) more.1 in
    ground (arith, last.1)

matches-given : (s : String) → matches_tenant_id (codes s) ≡ true → is_empty s ≡ false
matches-given String.[] h = absurd (ground arith)
matches-given (String.◌∷◌ c s) h = refl

accepted : (raw : String) → matches_tenant_id (codes raw) ≡ true → validate_tenant_id raw ≡ none
unfolding validate_tenant_id
accepted raw h =
    let inner = matches-inner (codes raw) h in
    let trimmed = trim_space-id raw (all-spaceless (codes raw) inner) in
    let short = len-codes raw inner in
    let low = matches-short (codes raw) h in
    let fits : ltb 63 (len raw) ≡ false = ground arith in
    rw (trimmed, matches-given raw h, (eq_iff raw raw).1 refl, fits, h)

true_of_not : (b : Bool) → not b ≡ false → b ≡ true
true_of_not true h = refl
true_of_not false h = absurd (ground arith)

four_tests :
    (a b c d : Bool) (e f g h : String)
    → (if a then some e else if b then some f else if c then some g else if d then some h else none)
      ≡ none
    → (b ≡ false) × (d ≡ false)
four_tests a b c d e f g h nothing = (ground arith, ground arith)

-- `validateTenantID` accepts exactly the texts that match the pattern: the tests before the pattern
-- refuse nothing more, they choose the message.
pub validate_tenant_id_iff :
    (raw : String) → (validate_tenant_id raw ≡ none) ↔ (matches_tenant_id (codes raw) ≡ true)
unfolding validate_tenant_id
validate_tenant_id_iff raw = (
  λ h.
      let (trimmed, matches) = four_tests _ _ _ _ _ _ _ _ h in
      let same = (same_iff raw (trim_space raw)).0 trimmed in
      rw same (true_of_not (matches_tenant_id (codes (trim_space raw))) matches),
  accepted raw,
)
