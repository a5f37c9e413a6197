-- ===== src/Config/Valid/Monitors.antt =====
-- The sentinels and the monitors that `Validate` of internal/config/config.go accepts.
use upag.Base.{
  ℕ, suc, String, List, [], ◌∷◌, Bool, true, not, ◌&&◌, ℤ, AtLeast, is_positive, ◌<>◌, ◌≡◌, ◌≢◌,
  ◌↔◌, refl, decimal,
}
use upag.Config.{SentinelConfig, MonitorConfig, is_nil, given}
use upag.Config.Texts.{contains, Absent, contains-Absent_iff}
use upag.Config.Validate.{GoLibrary, when}
use upag.Config.Validate.Monitor.{
  validate_sentinel, validate_sentinels, validate_monitor, validate_monitors,
}
use upag.Config.Valid.{
  iff_trans, pointwise, append-nil_iff, collects, when-nil_iff, positive_test, natural_test,
  is_positive_iff, is_nil_iff, given_test, range_test, Within,
}
use upag.Config.Valid.Addresses.{GivenUrl, required_url_test}
use upag.Config.Valid.Assertions.{
  and_iff, unless_iff, given_iff, ValidTarget, ValidCommand, target_test, command_test,
}

-- An id that is not among those before it.
fresh_test :
    (id : String) (seen : List String) (m : String)
    → id ≢ ""
    → (when (given id && contains id seen) m ≡ []) ↔ Absent id seen
fresh_test id seen m h = iff_trans (when-nil_iff _ m) (
    iff_trans (and_iff (given id) (contains id seen)) (
      λ f. (contains-Absent_iff id seen).0 (f ((given_iff id).1 h)),
      λ a _. (contains-Absent_iff id seen).1 a,
    ))

pub record ValidSentinel (go : GoLibrary) (seen : List String) (s : SentinelConfig) : Type 0 where
  pub id : s.id ≢ ""
  pub fresh : Absent s.id seen
  pub name : s.name ≢ ""
  pub url : GivenUrl go s.url
  pub status : Within 100 599 s.expected_status_code

pub sentinel_test :
    (prefix : String) (go : GoLibrary) (seen : List String) (s : SentinelConfig)
    → (validate_sentinel go prefix seen s ≡ []) ↔ ValidSentinel go seen s
unfolding validate_sentinel
sentinel_test prefix go seen s =
    collects _
      (λ t. record {
        id = (given_test s.id _).0 t.0;
        fresh = (fresh_test s.id seen _ ((given_test s.id _).0 t.0)).0 t.1.0;
        name = (given_test s.name _).0 t.1.1.0;
        url = (required_url_test go (prefix <> ".url") s.url).0 t.1.1.1.0;
        status = (range_test s.expected_status_code 100 599 _).0 t.1.1.1.1.0;
      })
      (λ v. (
        (given_test s.id _).1 v.id,
        (
          (fresh_test s.id seen _ v.id).1 v.fresh,
          (
            (given_test s.name _).1 v.name,
            (
              (required_url_test go (prefix <> ".url") s.url).1 v.url,
              ((range_test s.expected_status_code 100 599 _).1 v.status, tt),
            ),
          ),
        ),
      ))

-- Each of them is valid, and its id is new among those before it.
abbrev pub ValidSentinels : GoLibrary → List String → List SentinelConfig → Type 0
ValidSentinels go seen [] = Unit
ValidSentinels go seen (s ∷ ss) = ValidSentinel go seen s × ValidSentinels go (s.id ∷ seen) ss

pub validate_sentinels_iff :
    (go : GoLibrary) (i : ℕ) (seen : List String) (ss : List SentinelConfig)
    → (validate_sentinels go i seen ss ≡ []) ↔ ValidSentinels go seen ss
unfolding validate_sentinels
validate_sentinels_iff go i seen [] = (λ _. tt, λ _. refl)
validate_sentinels_iff go i seen (s ∷ ss) =
    let one = sentinel_test ("observer.sentinels[" <> (decimal i <> "]")) go seen s in
    let others = validate_sentinels_iff go (suc i) (s.id ∷ seen) ss in
    iff_trans (append-nil_iff _ _) (λ h. (one.0 h.0, others.0 h.1), λ h. (one.1 h.0, others.1 h.1))

follows_test :
    (follow : Bool) (max_redirects : ℤ) (m : String)
    → (when (not follow && is_positive max_redirects) m ≡ [])
      ↔ (AtLeast 1 max_redirects → follow ≡ true)
follows_test follow max_redirects m = iff_trans (when-nil_iff _ m) (
    iff_trans (unless_iff follow (is_positive max_redirects)) (
      λ f h. f ((is_positive_iff max_redirects).1 h),
      λ f e. f ((is_positive_iff max_redirects).0 e),
    ))

command_given_test :
    (stated : Bool) (command : List String) (m : String)
    → (when (stated && is_nil command) m ≡ []) ↔ ((stated ≡ true) → command ≢ [])
command_given_test stated command m =
    iff_trans (when-nil_iff _ m)
      (iff_trans (and_iff stated (is_nil command)) (pointwise (is_nil_iff command)))

pub record ValidMonitor (go : GoLibrary) (seen : List String) (m : MonitorConfig) : Type 0 where
  pub id : m.id ≢ ""
  pub fresh : Absent m.id seen
  pub name : m.name ≢ ""
  pub url : GivenUrl go m.url
  pub status : Within 100 599 m.expected_status_code
  pub max_response_time : AtLeast 0 m.max_response_time
  pub max_redirects : AtLeast 0 m.max_redirects
  pub follows : AtLeast 1 m.max_redirects → m.follow_redirects ≡ true
  pub target : ValidTarget go m.follow_redirects m.redirect_target
  pub command_given : (m.response_body.command_given ≡ true) → m.response_body.command ≢ []
  pub command : ValidCommand m.response_body.command m.response_body.command_timeout
  pub interval : AtLeast 1 m.interval
  pub timeout : AtLeast 1 m.timeout
  pub failure_threshold : AtLeast 1 m.failure_threshold

pub monitor_test :
    (prefix : String) (go : GoLibrary) (seen : List String) (m : MonitorConfig)
    → (validate_monitor go prefix seen m ≡ []) ↔ ValidMonitor go seen m
unfolding validate_monitor
monitor_test prefix go seen m =
    collects _
      (λ t. record {
        id = (given_test m.id _).0 t.0;
        fresh = (fresh_test m.id seen _ ((given_test m.id _).0 t.0)).0 t.1.0;
        name = (given_test m.name _).0 t.1.1.0;
        url = (required_url_test go (prefix <> ".url") m.url).0 t.1.1.1.0;
        status = (range_test m.expected_status_code 100 599 _).0 t.1.1.1.1.0;
        max_response_time = (natural_test m.max_response_time _).0 t.1.1.1.1.1.0;
        max_redirects = (natural_test m.max_redirects _).0 t.1.1.1.1.1.1.0;
        follows = (follows_test m.follow_redirects m.max_redirects _).0 t.1.1.1.1.1.1.1.0;
        target = (target_test prefix go m.follow_redirects m.redirect_target).0 t.1.1.1.1.1.1.1.1.0;
        command_given =
            (command_given_test m.response_body.command_given m.response_body.command _).0
              t.1.1.1.1.1.1.1.1.1.0;
        command =
            (command_test prefix m.response_body.command m.response_body.command_timeout).0
              t.1.1.1.1.1.1.1.1.1.1.0;
        interval = (positive_test m.interval _).0 t.1.1.1.1.1.1.1.1.1.1.1.0;
        timeout = (positive_test m.timeout _).0 t.1.1.1.1.1.1.1.1.1.1.1.1.0;
        failure_threshold = (positive_test m.failure_threshold _).0 t.1.1.1.1.1.1.1.1.1.1.1.1.1.0;
      })
      (λ v. (
        (given_test m.id _).1 v.id,
        (
          (fresh_test m.id seen _ v.id).1 v.fresh,
          (
            (given_test m.name _).1 v.name,
            (
              (required_url_test go (prefix <> ".url") m.url).1 v.url,
              (
                (range_test m.expected_status_code 100 599 _).1 v.status,
                (
                  (natural_test m.max_response_time _).1 v.max_response_time,
                  (
                    (natural_test m.max_redirects _).1 v.max_redirects,
                    (
                      (follows_test m.follow_redirects m.max_redirects _).1 v.follows,
                      (
                        (target_test prefix go m.follow_redirects m.redirect_target).1 v.target,
                        (
                          (command_given_test m.response_body.command_given m.response_body.command
                                _).1
                              v.command_given,
                          (
                            (command_test prefix m.response_body.command
                                  m.response_body.command_timeout).1
                                v.command,
                            (
                              (positive_test m.interval _).1 v.interval,
                              (
                                (positive_test m.timeout _).1 v.timeout,
                                ((positive_test m.failure_threshold _).1 v.failure_threshold, tt),
                              ),
                            ),
                          ),
                        ),
                      ),
                    ),
                  ),
                ),
              ),
            ),
          ),
        ),
      ))

abbrev pub ValidMonitors : GoLibrary → List String → List MonitorConfig → Type 0
ValidMonitors go seen [] = Unit
ValidMonitors go seen (m ∷ ms) = ValidMonitor go seen m × ValidMonitors go (m.id ∷ seen) ms

pub validate_monitors_iff :
    (go : GoLibrary) (i : ℕ) (seen : List String) (ms : List MonitorConfig)
    → (validate_monitors go i seen ms ≡ []) ↔ ValidMonitors go seen ms
unfolding validate_monitors
validate_monitors_iff go i seen [] = (λ _. tt, λ _. refl)
validate_monitors_iff go i seen (m ∷ ms) =
    let one = monitor_test ("monitors[" <> (decimal i <> "]")) go seen m in
    let others = validate_monitors_iff go (suc i) (m.id ∷ seen) ms in
    iff_trans (append-nil_iff _ _) (λ h. (one.0 h.0, others.0 h.1), λ h. (one.1 h.0, others.1 h.1))
