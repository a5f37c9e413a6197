-- ===== src/Checker/Verdict.antt =====
-- The verdict of a whole check.
use upag.Base.{
  ℕ, ◌≡◌, ◌↔◌, refl, subst, Bool, true, false, not, ◌&&◌, ◌||◌, ok, ◌>>=◌, ◌==◌, nat_eq,
  if◌then◌else◌, arith, Bool-cases, inl, inr,
}
use upag.Failure.{no_failure}
use upag.Checker.{Result}
use upag.Checker.Check.{
  Tools, CheckConfig, Answer, Body, unread, text, Exchange, answered, no_request, no_answer,
  needs_body, received, assert_answer, check_monitor, blank_result,
}
use upag.Checker.Meets.{
  meets, content_meets, target_meets, body_meets, Decides, IsFresh, assert_answer-Decides,
  finish-Decides,
}

without_body :
    (t : Tools) (cfg : CheckConfig) (a : Answer) (r : Result)
    → needs_body cfg ≡ false
    → IsFresh r
    → Decides
        (target_meets t cfg.target a.redirects a.final_url && true)
        (assert_answer t cfg a (r, ""))
without_body t cfg a r h f =
    subst
      (λ n.
        Decides
          (target_meets t cfg.target a.redirects a.final_url
            && (not n || body_meets t cfg r.response_time ""))
          (assert_answer t cfg a (r, "")))
      h (assert_answer-Decides t cfg a r "" f)

received-Decides :
    (t : Tools) (cfg : CheckConfig) (a : Answer) (r : Result) (content : Body) (n : Bool)
    → needs_body cfg ≡ n
    → IsFresh r
    → Decides
        (target_meets t cfg.target a.redirects a.final_url
          && content_meets t cfg a.body_time content)
        ((if n then received a.body_time content r else ok (r, "")) >>= assert_answer t cfg a)
received-Decides t cfg a r (unread timed_out e) true h f = ground arith
received-Decides t cfg a r (unread timed_out e) false h f = rw h (without_body t cfg a r h f)
received-Decides t cfg a r (text b) true h f =
    assert_answer-Decides t cfg a (record r { response_time = a.body_time }) b f
received-Decides t cfg a r (text b) false h f = rw h (without_body t cfg a r h f)

-- A check succeeds exactly if an answer came with the expected status, the redirect ended at the
-- configured target, and, where there are assertions on the body or the time, the body could be
-- read, has what it must and nothing that it must not have, is accepted by the command, and came in
-- time. A failure kind is set exactly if it fails.
pub check_monitor-meets :
    (t : Tools) (cfg : CheckConfig) (start : ℕ) (x : Exchange)
    → let r = check_monitor t cfg start x in
      (r.ok ≡ meets t cfg x) × ((r.failure_kind ≡ no_failure) ↔ (meets t cfg x ≡ true))
unfolding check_monitor
check_monitor-meets t cfg start (no_request e) = ground arith
check_monitor-meets t cfg start (no_answer timed_out e latency redirects last) = ground arith
check_monitor-meets t cfg start (answered a) =
    let r = record (blank_result start) {
      latency = a.latency;
      redirects_followed = a.redirects;
      observed_status_code = a.status;
      final_url = a.final_url;
    } in
    let asserted =
      (if needs_body cfg then received a.body_time a.content r else ok (r, ""))
      >>= assert_answer t cfg a in
    let decided =
      finish-Decides
        (target_meets t cfg.target a.redirects a.final_url
          && content_meets t cfg a.body_time a.content)
        asserted (received-Decides t cfg a r a.content (needs_body cfg) refl (refl, refl)) in
    elim (Bool-cases (a.status == cfg.expected_status_code)) [
      | inl same ↦ rw same decided
      | inr other ↦ rw other (ground arith)
    ]
