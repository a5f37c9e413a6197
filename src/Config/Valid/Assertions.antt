-- ===== src/Config/Valid/Assertions.antt =====
-- The redirect targets and commands that `Validate` of internal/config/config.go accepts.
use upag.Base.{
  suc, String, List, [], ◌∷◌, Bool, true, false, not, ◌&&◌, Option, none, ℤ, pos, negsuc, zero,
  AtLeast, is_zero, is_empty, trim_space, ◌<>◌, ◌≡◌, ◌≢◌, ◌↔◌, refl, ap, arith,
}
use upag.Config.{RedirectTargetAssertions, given, target_configured}
use upag.Config.Validate.{GoLibrary, when, only_if, on_error, validate_http_url}
use upag.Config.Validate.Monitor.{
  full_url_regex_pattern, validate_command, validate_redirect_target,
}
use upag.Config.Valid.{
  iff_trans, collects, when-nil_iff, only_if-nil_iff, on_error-nil_iff, positive_test, is_empty_iff,
  given_test, NotBlank,
}
use upag.Config.Valid.Addresses.{IsHttpUrl, validate_http_url_iff}

pub and_iff : (a b : Bool) → (a && b ≡ false) ↔ ((a ≡ true) → b ≡ false)
and_iff true b = (λ h _. h, λ h. h refl)
and_iff false b = (λ _ e. absurd (ground arith), λ _. refl)

pub unless_iff : (a b : Bool) → (not a && b ≡ false) ↔ ((b ≡ true) → a ≡ true)
unless_iff true b = (λ _ _. refl, λ _. refl)
unless_iff false true = (λ h. absurd (ground arith), λ h. ground (arith, h refl))
unless_iff false false = (λ _ e. absurd (ground arith), λ _. refl)

pub given_iff : (s : String) → (given s ≡ true) ↔ (s ≢ "")
given_iff s = (λ h. (is_empty_iff s).0 (ground arith), λ h. ground (arith, (is_empty_iff s).1 h))

-- What `redirect_target` may ask for.
exclusive_test :
    (exact regex m : String)
    → (when (given exact && given regex) m ≡ []) ↔ (exact ≢ "" → regex ≡ "")
exclusive_test exact String.[] m =
    iff_trans (when-nil_iff _ m)
      (iff_trans (and_iff (given exact) false) (λ _ _. refl, λ _ _. refl))
exclusive_test exact (String.◌∷◌ c s) m = iff_trans (when-nil_iff _ m) (
    iff_trans (and_iff (given exact) true) (
      λ f h. absurd (ground (arith, f ((given_iff exact).1 h))),
      λ f e. absurd (ground (arith, ap is_empty (f ((given_iff exact).0 e)))),
    ))

exact_test :
    (go : GoLibrary) (context exact : String)
    → (only_if (given exact) (on_error context (validate_http_url go exact)) ≡ [])
      ↔ (exact ≢ "" → IsHttpUrl go exact)
exact_test go context exact =
    let url = iff_trans (on_error-nil_iff context _) (validate_http_url_iff go exact) in
    iff_trans (only_if-nil_iff (given exact) _)
      (λ f h. url.0 (f ((given_iff exact).1 h)), λ f e. url.1 (f ((given_iff exact).0 e)))

regex_test :
    (regex context : String) (e : Option String)
    → (only_if (given regex) (on_error context e) ≡ []) ↔ (regex ≢ "" → e ≡ none)
regex_test regex context e = iff_trans (only_if-nil_iff (given regex) _) (
  λ f h. (on_error-nil_iff context e).0 (f ((given_iff regex).1 h)),
  λ f g. (on_error-nil_iff context e).1 (f ((given_iff regex).0 g)),
)

pub record ValidTarget (go : GoLibrary) (follow : Bool) (target : RedirectTargetAssertions)
    : Type 0 where
  pub follows : (target_configured target ≡ true) → follow ≡ true
  pub exclusive : target.exact ≢ "" → target.regex ≡ ""
  pub exact : target.exact ≢ "" → IsHttpUrl go target.exact
  pub regex : target.regex ≢ "" → go.compile_error (full_url_regex_pattern target.regex) ≡ none

pub target_test :
    (prefix : String) (go : GoLibrary) (follow : Bool) (target : RedirectTargetAssertions)
    → (validate_redirect_target go prefix follow target ≡ []) ↔ ValidTarget go follow target
unfolding validate_redirect_target
target_test prefix go follow target =
    collects _
      (λ t. record {
        follows =
            (iff_trans (when-nil_iff _ _) (unless_iff follow (target_configured target))).0 t.0;
        exclusive = (exclusive_test target.exact target.regex _).0 t.1.0;
        exact = (exact_test go (prefix <> ".redirect_target.exact: ") target.exact).0 t.1.1.0;
        regex =
            (regex_test target.regex
                (prefix <> ".redirect_target.regex: invalid regular expression: ")
                (go.compile_error (full_url_regex_pattern target.regex))).0
              t.1.1.1.0;
      })
      (λ v. (
        (iff_trans (when-nil_iff _ _) (unless_iff follow (target_configured target))).1 v.follows,
        (
          (exclusive_test target.exact target.regex _).1 v.exclusive,
          (
            (exact_test go (prefix <> ".redirect_target.exact: ") target.exact).1 v.exact,
            (
              (regex_test target.regex
                    (prefix <> ".redirect_target.regex: invalid regular expression: ")
                    (go.compile_error (full_url_regex_pattern target.regex))).1
                  v.regex,
              tt,
            ),
          ),
        ),
      ))

-- A command has a name and a time; without one there is no time.
abbrev pub ValidCommand : List String → ℤ → Type 0
ValidCommand [] command_timeout = command_timeout ≡ pos 0
ValidCommand (name ∷ arguments) command_timeout = NotBlank name × AtLeast 1 command_timeout

is_zero_iff : (z : ℤ) → (not (is_zero z) ≡ false) ↔ (z ≡ pos 0)
is_zero_iff (pos zero) = (λ _. refl, λ _. refl)
is_zero_iff (pos (suc n)) = (λ h. absurd (ground arith), λ h. absurd (ground arith))
is_zero_iff (negsuc n) = (λ h. absurd (ground arith), λ h. absurd (ground arith))

pub command_test :
    (prefix : String) (command : List String) (command_timeout : ℤ)
    → (validate_command prefix command command_timeout ≡ []) ↔ ValidCommand command command_timeout
unfolding validate_command
command_test prefix [] command_timeout = iff_trans (when-nil_iff _ _) (is_zero_iff command_timeout)
command_test prefix (name ∷ arguments) command_timeout =
    collects _
      (λ t. ((given_test (trim_space name) _).0 t.0, (positive_test command_timeout _).0 t.1.0))
      (λ v. ((given_test (trim_space name) _).1 v.0, ((positive_test command_timeout _).1 v.1, tt)))
