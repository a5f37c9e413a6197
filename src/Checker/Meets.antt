-- ===== src/Checker/Meets.antt =====
-- When a check succeeds.
use upag.Base.{
  ◌>>=◌, ◌≢◌, ℕ, ◌≡◌, ◌↔◌, refl, sym, ◌∙◌, String, List, [], ◌∷◌, Bool, true, false, not, ◌&&◌,
  ◌||◌, ltb, all, Option, none, some, Fallible, ok, err, ◌==◌, nat_eq, string_eq, if◌then◌else◌,
  is_empty, arith,
}
use upag.Failure.{FailureKind, no_failure, body_assertion, redirect_target, max_response_time}
use upag.Checker.{Result}
use upag.Checker.Check.{
  Tools, CheckConfig, RedirectTargetAssertions, Answer, Body, unread, text, Exchange, answered,
  no_request, no_answer, target_configured, body_configured, assert_redirect_target, match_regex,
  first_missing, first_forbidden, command_error, time_error, needs_body, assert_body, assert_answer,
  finish, unless_failed,
}

abbrev matches_regex : Fallible String (String → Bool) → String → Bool
matches_regex (err e) actual = false
matches_regex (ok matches) actual = matches actual

-- The redirect assertions, as the documentation has them: if a target is configured, a redirect was
-- followed, and the final URL is the exact one and matches the pattern, where they are given.
abbrev pub target_meets : Tools → RedirectTargetAssertions → ℕ → String → Bool
target_meets t a followed actual =
    (is_empty a.exact && is_empty a.regex)
    || (not (followed == 0)
        && (is_empty a.exact || actual == a.exact)
        && (is_empty a.regex || matches_regex (t.compile a.regex) actual))

abbrev pub is_none {ℓ} : {A : Type ℓ} → Option A → Bool
is_none none = true
is_none (some a) = false

-- The body has every required string and no forbidden one, the command accepts it, and it came in
-- time.
abbrev pub body_meets : Tools → CheckConfig → ℕ → String → Bool
body_meets t cfg taken b =
    all (t.contains b) cfg.body.must_contain
    && (all (λ s. not (t.contains b s)) cfg.body.must_not_contain
        && (is_none (command_error t cfg.body.command b)
            && (cfg.max_time == 0 || not (ltb cfg.max_time taken))))

abbrev pub content_meets : Tools → CheckConfig → ℕ → Body → Bool
content_meets t cfg taken (unread timed_out e) = not (needs_body cfg)
content_meets t cfg taken (text b) = not (needs_body cfg) || body_meets t cfg taken b

abbrev pub meets : Tools → CheckConfig → Exchange → Bool
meets t cfg (no_request e) = false
meets t cfg (no_answer timed_out e latency redirects last) = false
meets t cfg (answered a) =
    a.status == cfg.expected_status_code
    && (target_meets t cfg.target a.redirects a.final_url
        && content_meets t cfg a.body_time a.content)

regex-meets :
    (t : Tools) (regex actual : String) (compiled : Fallible String (String → Bool))
    → is_none (match_regex t regex actual compiled) ≡ matches_regex compiled actual
regex-meets t regex actual (err e) = refl
regex-meets t regex actual (ok matches) = ground arith

target-meets :
    (t : Tools) (a : RedirectTargetAssertions) (followed : ℕ) (actual : String)
    → is_none (assert_redirect_target t a followed actual) ≡ target_meets t a followed actual
unfolding assert_redirect_target target_configured
target-meets t a followed actual = ground (arith, regex-meets t a.regex actual (t.compile a.regex))

missing-all :
    (t : Tools) (b : String) (ss : List String)
    → is_none (first_missing t b ss) ≡ all (t.contains b) ss
unfolding first_missing
missing-all t b [] = refl
missing-all t b (s ∷ ss) = ground (arith, missing-all t b ss)

forbidden-all :
    (t : Tools) (b : String) (ss : List String)
    → is_none (first_forbidden t b ss) ≡ all (λ s. not (t.contains b s)) ss
unfolding first_forbidden
forbidden-all t b [] = refl
forbidden-all t b (s ∷ ss) = ground (arith, forbidden-all t b ss)

-- A check that goes on has not failed.
abbrev pub IsFresh : Result → Type 0
IsFresh r = (r.ok ≡ false) × (r.failure_kind ≡ no_failure)

abbrev succeeds : Fallible Result Result → Bool
succeeds (ok r) = true
succeeds (err r) = false

-- An end with an error says so, an end without one has none.
abbrev Fair : Fallible Result Result → Type 0
Fair (ok r) = IsFresh r
Fair (err r) = (r.ok ≡ false) × (r.failure_kind ≢ no_failure)

-- What the assertions on a fresh result amount to.
abbrev pub Decides : Bool → Fallible Result Result → Type 0
Decides b c = (succeeds c ≡ b) × Fair c

time-meets :
    (t : Tools) (limit taken : ℕ)
    → is_none (time_error t limit taken) ≡ (limit == 0 || not (ltb limit taken))
time-meets t limit taken = ground arith

unless_failed-Decides :
    (kind : FailureKind) (e : Option String) (r : Result)
    → kind ≢ no_failure
    → IsFresh r
    → Decides (is_none e) (unless_failed kind e r)
unless_failed-Decides kind none r k f = (refl, f)
unless_failed-Decides kind (some e) r k f = (refl, (f.0, k))

-- A further assertion, on what the first one leaves.
then-Decides :
    (b c : Bool) (first : Fallible Result Result) (next : Result → Fallible Result Result)
    → Decides b first
    → ((r : Result) → IsFresh r → first ≡ ok r → Decides c (next r))
    → Decides (b && c) (first >>= next)
then-Decides b c (ok r) next h k = rw (sym h.0) (k r h.1 refl)
then-Decides b c (err r) next h k = rw (sym h.0) (refl, h.1)

kept_time :
    (kind : FailureKind) (e : Option String) (r r' : Result)
    → unless_failed kind e r ≡ ok r'
    → r'.response_time ≡ r.response_time
kept_time kind none r r' h = ground arith
kept_time kind (some e) r r' h = cc

assert_body-Decides :
    (t : Tools) (cfg : CheckConfig) (r : Result) (b : String)
    → IsFresh r
    → Decides (body_meets t cfg r.response_time b) (assert_body t cfg (r, b))
assert_body-Decides t cfg r b f =
    let missing = first_missing t b cfg.body.must_contain in
    let forbidden = first_forbidden t b cfg.body.must_not_contain in
    let failed = command_error t cfg.body.command b in
    rw
      (
        sym (missing-all t b cfg.body.must_contain),
        sym (forbidden-all t b cfg.body.must_not_contain),
        sym (time-meets t cfg.max_time r.response_time),
      )
      (then-Decides (is_none missing)
        (is_none forbidden
          && (is_none failed && is_none (time_error t cfg.max_time r.response_time)))
        (unless_failed body_assertion missing r)
        (λ r1. unless_failed body_assertion forbidden r1 >>= λ r2.
          unless_failed body_assertion failed r2 >>= λ r3.
          unless_failed max_response_time (time_error t cfg.max_time r3.response_time) r3)
        (unless_failed-Decides body_assertion missing r (λ e. cc) f)
        (λ r1 f1 e1.
          then-Decides (is_none forbidden)
            (is_none failed && is_none (time_error t cfg.max_time r.response_time))
            (unless_failed body_assertion forbidden r1)
            (λ r2. unless_failed body_assertion failed r2 >>= λ r3.
              unless_failed max_response_time (time_error t cfg.max_time r3.response_time) r3)
            (unless_failed-Decides body_assertion forbidden r1 (λ e. cc) f1)
            (λ r2 f2 e2.
              then-Decides (is_none failed) (is_none (time_error t cfg.max_time r.response_time))
                (unless_failed body_assertion failed r2)
                (λ r3.
                  unless_failed max_response_time (time_error t cfg.max_time r3.response_time) r3)
                (unless_failed-Decides body_assertion failed r2 (λ e. cc) f2)
                (λ r3 f3 e3.
                  rw
                    (sym (
                      kept_time body_assertion failed r2 r3 e3
                      ∙ kept_time body_assertion forbidden r1 r2 e2
                      ∙ kept_time body_assertion missing r r1 e1))
                    (unless_failed-Decides max_response_time
                      (time_error t cfg.max_time r3.response_time) r3 (λ e. cc) f3)))))

-- The assertions on the redirect, and on the body where there are any.
pub assert_answer-Decides :
    (t : Tools) (cfg : CheckConfig) (a : Answer) (r : Result) (b : String)
    → IsFresh r
    → Decides
        (target_meets t cfg.target a.redirects a.final_url
          && (not (needs_body cfg) || body_meets t cfg r.response_time b))
        (assert_answer t cfg a (r, b))
assert_answer-Decides t cfg a r b f =
    let failed = assert_redirect_target t cfg.target a.redirects a.final_url in
    rw (sym (target-meets t cfg.target a.redirects a.final_url)) (
      then-Decides (is_none failed) (not (needs_body cfg) || body_meets t cfg r.response_time b)
        (unless_failed redirect_target failed r)
        (λ r1.
          if not (body_configured cfg.body) && (cfg.max_time == 0)
          then ok r1
          else assert_body t cfg (r1, b))
        (unless_failed-Decides redirect_target failed r (λ e. cc) f)
        (λ r1 f1 e1.
          rw (sym (kept_time redirect_target failed r r1 e1))
            (skip (body_configured cfg.body) cfg.max_time r1 f1)))
  where
    skip :
        (configured : Bool) (limit : ℕ) (r1 : Result)
        → IsFresh r1
        → Decides
            (not (configured || ltb 0 limit) || body_meets t cfg r1.response_time b)
            (if not configured && (limit == 0) then ok r1 else assert_body t cfg (r1, b))
    skip configured limit r1 f1 = ground (arith, assert_body-Decides t cfg r1 b f1)

pub finish-Decides :
    (b : Bool) (c : Fallible Result Result)
    → Decides b c
    → ((finish c).ok ≡ b) × (((finish c).failure_kind ≡ no_failure) ↔ (b ≡ true))
finish-Decides b (ok r) h = ground arith
finish-Decides b (err r) h = ground arith
