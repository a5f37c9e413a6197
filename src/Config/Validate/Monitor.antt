-- ===== src/Config/Validate/Monitor.antt =====
-- The loops of `Validate` over the sentinels and the monitors.
use upag.Base.{
  ℕ, suc, String, List, [], ◌∷◌, ◌++◌, Bool, not, ◌&&◌, ◌||◌, ℤ, le_of_nat, lt_of_nat, is_positive,
  is_zero, is_empty, trim_space, decimal, ◌<>◌,
}
use upag.Config.{
  SentinelConfig, MonitorConfig, RedirectTargetAssertions, is_nil, given, target_configured,
}
use upag.Config.Texts.{contains}
use upag.Config.Validate.{
  GoLibrary, when, only_if, on_error, required_url, collect, validate_http_url,
}

abbrev pub not_a_status_code : ℤ → Bool
not_a_status_code code = lt_of_nat code 100 || not (le_of_nat code 599)

-- `full_url_regex_pattern`.
abbrev pub full_url_regex_pattern : String → String
full_url_regex_pattern pattern' = "\\A(?:" <> (pattern' <> ")\\z")

-- The command of the response body and its timeout.
unfoldable pub validate_command : String → List String → ℤ → List String
validate_command prefix [] command_timeout =
    when (not (is_zero command_timeout))
      (prefix <> ".response_body.command_timeout requires response_body.command")
validate_command prefix (name ∷ arguments) command_timeout = collect (
    when (is_empty (trim_space name)) (prefix <> ".response_body.command[0] is required")
    ∷ when (le_of_nat command_timeout 0)
        (prefix <> ".response_body.command_timeout must be positive")
    ∷ [])

module _ (go : GoLibrary) where
  unfoldable pub validate_redirect_target : String → Bool → RedirectTargetAssertions → List String
  validate_redirect_target prefix follow_redirects target = collect (
      when (not follow_redirects && target_configured target)
        (prefix <> ".redirect_target requires follow_redirects")
      ∷ when (given target.exact && given target.regex)
          (prefix <> ".redirect_target must configure exactly one of exact or regex")
      ∷ only_if (given target.exact)
          (on_error (prefix <> ".redirect_target.exact: ") (validate_http_url go target.exact))
      ∷ only_if (given target.regex) (
          on_error (prefix <> ".redirect_target.regex: invalid regular expression: ")
            (go.compile_error (full_url_regex_pattern target.regex)))
      ∷ [])

  unfoldable pub validate_sentinel : String → List String → SentinelConfig → List String
  validate_sentinel prefix seen s = collect (
      when (is_empty s.id) (prefix <> ".id is required")
      ∷ when (given s.id && contains s.id seen)
          (prefix <> (".id " <> (go.quote s.id <> " is duplicated")))
      ∷ when (is_empty s.name) (prefix <> ".name is required")
      ∷ required_url go (prefix <> ".url") s.url
      ∷ when (not_a_status_code s.expected_status_code)
          (prefix <> ".expected_status_code must be from 100 through 599")
      ∷ [])

  unfoldable pub validate_sentinels : ℕ → List String → List SentinelConfig → List String
  unfolding validate_sentinel
  validate_sentinels i seen [] = []
  validate_sentinels i seen (s ∷ ss) =
      validate_sentinel ("observer.sentinels[" <> (decimal i <> "]")) seen s
      ++ validate_sentinels (suc i) (s.id ∷ seen) ss

  unfoldable pub validate_monitor : String → List String → MonitorConfig → List String
  unfolding validate_redirect_target validate_command
  validate_monitor prefix seen m = collect (
      when (is_empty m.id) (prefix <> ".id is required")
      ∷ when (given m.id && contains m.id seen)
          (prefix <> (".id " <> (go.quote m.id <> " is duplicated")))
      ∷ when (is_empty m.name) (prefix <> ".name is required")
      ∷ required_url go (prefix <> ".url") m.url
      ∷ when (not_a_status_code m.expected_status_code)
          (prefix <> ".expected_status_code must be from 100 through 599")
      ∷ when (lt_of_nat m.max_response_time 0) (prefix <> ".max_response_time must be positive")
      ∷ when (lt_of_nat m.max_redirects 0) (prefix <> ".max_redirects must be positive")
      ∷ when (not m.follow_redirects && is_positive m.max_redirects)
          (prefix <> ".max_redirects requires follow_redirects")
      ∷ validate_redirect_target prefix m.follow_redirects m.redirect_target
      ∷ when (m.response_body.command_given && is_nil m.response_body.command)
          (prefix <> ".response_body.command must contain at least one item")
      ∷ validate_command prefix m.response_body.command m.response_body.command_timeout
      ∷ when (le_of_nat m.interval 0) (prefix <> ".interval must be positive")
      ∷ when (le_of_nat m.timeout 0) (prefix <> ".timeout must be positive")
      ∷ when (le_of_nat m.failure_threshold 0) (prefix <> ".failure_threshold must be positive")
      ∷ [])

  unfoldable pub validate_monitors : ℕ → List String → List MonitorConfig → List String
  unfolding validate_monitor
  validate_monitors i seen [] = []
  validate_monitors i seen (m ∷ ms) =
      validate_monitor ("monitors[" <> (decimal i <> "]")) seen m
      ++ validate_monitors (suc i) (m.id ∷ seen) ms
