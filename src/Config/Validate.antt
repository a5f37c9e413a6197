-- ===== src/Config/Validate.antt =====
-- `Validate` of internal/config/config.go. Every test that fails adds its message, in the order of
-- the source; each section of the configuration has a function.
pub mod Provider
pub mod Monitor
pub mod Address
pub mod Whole
use upag.Base.{
  String, List, [], ◌∷◌, ◌++◌, Bool, false, Option, none, some, if◌then◌else◌, All, ◌≡◌, ◌↔◌, refl,
  arith, ℕ, ◌<>◌, Fallible, ok, err, is_empty, any, codes, ◌==◌, nat_eq, string_eq, not, ◌&&◌,
}

-- `url.URL`, as far as it is read.
pub record Url : Type 0 where
  pub scheme : String
  pub host : String

-- What the code asks of Go's own library: `url.Parse`, the error of `regexp.Compile`, whether
-- `net.SplitHostPort` succeeds, and `%q`.
pub record GoLibrary : Type 0 where
  pub parse_url : String → Fallible String Url
  pub compile_error : String → Option String
  pub splits_host_port : String → Bool
  pub quote : String → String

-- `if bad { errs = append(errs, …) }`.
abbrev pub when : Bool → String → List String
when bad message = if bad then message ∷ [] else []

-- `if b { … }` round several tests.
abbrev pub only_if : Bool → List String → List String
only_if b errs = if b then errs else []

-- `if err := …; err != nil { errs = append(errs, …) }`.
abbrev pub on_error : String → Option String → List String
on_error context none = []
on_error context (some e) = (context <> e) ∷ []

-- The appends of a function, one after the other.
unfoldable pub collect : List (List String) → List String
collect [] = []
collect (errs ∷ rest) = errs ++ collect rest

abbrev pub judge_url : Fallible String Url → Option String
judge_url (err e) = some e
judge_url (ok parsed) =
    if not (parsed.scheme == "http") && not (parsed.scheme == "https")
    then some "scheme must be http or https"
    else if is_empty parsed.host
    then some "host is required"
    else if any (λ c. c == b' ') (codes parsed.host)
    then some "host must not contain spaces"
    else none

unfoldable pub validate_http_url : GoLibrary → String → Option String
validate_http_url go raw = judge_url (go.parse_url raw)

-- An address that has to be given and to be valid.
abbrev pub required_url : GoLibrary → String → String → List String
required_url go field url =
    if is_empty url
    then (field <> " is required") ∷ []
    else on_error (field <> ": ") (validate_http_url go url)
