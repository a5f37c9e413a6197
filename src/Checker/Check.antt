-- ===== src/Checker/Check.antt =====
-- `Check` of internal/checker/checker.go: one request and the assertions on its answer. The HTTP
-- exchange, regular expressions, the command and the printing of durations are arguments.
use upag.Base.{
  ℕ, String, List, [], ◌∷◌, Bool, true, false, not, ◌&&◌, ◌||◌, ltb, Option, none, some, Fallible,
  ok, err, ◌>>=◌, ◌==◌, nat_eq, string_eq, if◌then◌else◌, is_empty, ◌<>◌, decimal,
}
use upag.Failure.{
  FailureKind, no_failure, timeout, transport, status_code, body_read, body_assertion,
  redirect_target, max_response_time, invalid_request,
}
use upag.Checker.{Result}

-- `strings.Contains`, a compiled pattern that must match whole (or the error of compiling it), the
-- command's run on a body (its error, if it fails), and `%q` and `%s` of texts and durations.
pub record Tools : Type 0 where
  pub contains : String → String → Bool
  pub compile : String → Fallible String (String → Bool)
  pub run_command : List String → String → Option String
  pub quote : String → String
  pub duration_text : ℕ → String

pub record RedirectTargetAssertions : Type 0 where
  pub exact : String
  pub regex : String

pub record ResponseBodyAssertions : Type 0 where
  pub must_contain : List String
  pub must_not_contain : List String
  pub command : List String

-- The fields that `Check` looks at once the exchange is over.
pub record CheckConfig : Type 0 where
  pub expected_status_code : ℕ
  pub target : RedirectTargetAssertions
  pub body : ResponseBodyAssertions
  pub max_time : ℕ

-- What reading the body gives: an error, which may be a timeout, or its text.
pub data Body : Type 0 where
  unread : Bool → String → Body
  text : String → Body

pub record Answer : Type 0 where
  pub status : ℕ
  pub final_url : String
  pub redirects : ℕ
  pub latency : ℕ
  pub status_time : ℕ
  pub body_time : ℕ
  pub content : Body

-- The exchange: no request could be made; an error, with whether it is a timeout and the last
-- response if there is one; or an answer.
pub data Exchange : Type 0 where
  no_request : String → Exchange
  no_answer : Bool → String → ℕ → ℕ → Option (ℕ × String) → Exchange
  answered : Answer → Exchange

abbrev is_nil {ℓ} : {A : Type ℓ} → List A → Bool
is_nil [] = true
is_nil (x ∷ xs) = false

unfoldable pub target_configured : RedirectTargetAssertions → Bool
target_configured a = not (is_empty a.exact) || not (is_empty a.regex)

unfoldable pub body_configured : ResponseBodyAssertions → Bool
body_configured a =
    not (is_nil a.must_contain) || not (is_nil a.must_not_contain) || not (is_nil a.command)

abbrev pub blank_result : ℕ → Result
blank_result start = record {
  ok = false;
  failure_kind = no_failure;
  observed_status_code = 0;
  final_url = "";
  redirects_followed = 0;
  latency = 0;
  response_time = 0;
  error = "";
  checked_at = start;
}

unfoldable pub transport_failure_kind : Bool → FailureKind
transport_failure_kind timed_out = if timed_out then timeout else transport

unfoldable pub record_final_response : Result → Option (ℕ × String) → Result
record_final_response r none = r
record_final_response r (some (code, url)) = record r {
  observed_status_code = code;
  final_url = url;
}

abbrev pub match_regex : Tools → String → String → Fallible String (String → Bool) → Option String
match_regex t regex actual (err e) =
    some ("invalid redirect target regular expression " <> (t.quote regex <> (": " <> e)))
match_regex t regex actual (ok matches) =
    if not (matches actual)
    then some (
        "final redirect target URL "
        <> (t.quote actual <> (" did not fully match regular expression " <> t.quote regex)))
    else none

-- The error of the source, if there is one.
unfoldable pub assert_redirect_target :
    Tools → RedirectTargetAssertions → ℕ → String → Option String
unfolding target_configured
assert_redirect_target t a followed actual =
    let by_regex =
      if not (is_empty a.regex) then match_regex t a.regex actual (t.compile a.regex) else none in
    if not (target_configured a)
    then none
    else if followed == 0
    then some "redirect target assertion requires at least one followed redirect"
    else if not (is_empty a.exact) && not (actual == a.exact)
    then some (
        "final redirect target URL "
        <> (t.quote actual <> (" did not exactly match " <> t.quote a.exact)))
    else by_regex

-- The two loops over strings.
unfoldable pub first_missing : Tools → String → List String → Option String
first_missing t body [] = none
first_missing t body (s ∷ ss) =
    let rest = first_missing t body ss in
    if not (t.contains body s)
    then some ("response body does not contain required string " <> t.quote s)
    else rest

unfoldable pub first_forbidden : Tools → String → List String → Option String
first_forbidden t body [] = none
first_forbidden t body (s ∷ ss) =
    let rest = first_forbidden t body ss in
    if t.contains body s
    then some ("response body contains forbidden string " <> t.quote s)
    else rest

-- A step that ends the check with an error of the given kind, or goes on.
abbrev pub unless_failed : FailureKind → Option String → Result → Fallible Result Result
unless_failed kind none r = ok r
unless_failed kind (some e) r = err (record r { error = e; failure_kind = kind })

abbrev pub command_error : Tools → List String → String → Option String
command_error t [] body = none
command_error t (c ∷ cs) body = t.run_command (c ∷ cs) body

abbrev pub time_error : Tools → ℕ → ℕ → Option String
time_error t limit taken =
    if ltb 0 limit && ltb limit taken
    then some (
        "response time "
        <> (t.duration_text taken <> (" exceeded maximum " <> t.duration_text limit)))
    else none

abbrev pub needs_body : CheckConfig → Bool
needs_body cfg = body_configured cfg.body || ltb 0 cfg.max_time

abbrev pub received : ℕ → Body → Result → Fallible Result (Result × String)
received body_time (unread timed_out e) r = err (record r {
  response_time = body_time;
  error = "read response body: " <> e;
  failure_kind = if timed_out then timeout else body_read;
})
received body_time (text b) r = ok (record r { response_time = body_time }, b)

-- The assertions on a body, and on the time.
abbrev pub assert_body : Tools → CheckConfig → Result × String → Fallible Result Result
assert_body t cfg (r, b) = do
  r1 ← unless_failed body_assertion (first_missing t b cfg.body.must_contain) r
  r2 ← unless_failed body_assertion (first_forbidden t b cfg.body.must_not_contain) r1
  r3 ← unless_failed body_assertion (command_error t cfg.body.command b) r2
  unless_failed max_response_time (time_error t cfg.max_time r3.response_time) r3

abbrev pub assert_answer : Tools → CheckConfig → Answer → Result × String → Fallible Result Result
assert_answer t cfg a (r, b) = do
  r1 ← unless_failed redirect_target (assert_redirect_target t cfg.target a.redirects a.final_url) r
  if not (body_configured cfg.body) && (cfg.max_time == 0) then ok r1 else assert_body t cfg (r1, b)

abbrev pub finish : Fallible Result Result → Result
finish (ok r) = record r { ok = true }
finish (err r) = r

unfoldable pub check_monitor : Tools → CheckConfig → ℕ → Exchange → Result
unfolding transport_failure_kind record_final_response body_configured assert_redirect_target
    first_missing first_forbidden
check_monitor t cfg start (no_request e) = record (blank_result start) {
  error = e;
  failure_kind = invalid_request;
}
check_monitor t cfg start (no_answer timed_out e latency redirects last) =
    let r = record (blank_result start) { latency = latency; redirects_followed = redirects } in
    record (record_final_response r last) {
      error = e;
      failure_kind = transport_failure_kind timed_out;
    }
check_monitor t cfg start (answered a) =
    let r = record (blank_result start) {
      latency = a.latency;
      redirects_followed = a.redirects;
      observed_status_code = a.status;
      final_url = a.final_url;
    } in
    let asserted =
      (if needs_body cfg then received a.body_time a.content r else ok (r, ""))
      >>= assert_answer t cfg a in
    if not (a.status == cfg.expected_status_code)
    then record r {
      error =
          "expected HTTP status "
          <> (decimal cfg.expected_status_code <> (", observed HTTP status " <> decimal a.status));
      failure_kind = status_code;
      response_time = a.status_time;
    }
    else finish asserted
