-- ===== src/Checker.antt =====
-- internal/checker/checker.go: the result of a probe and its classification.
pub mod Check
pub mod Meets
pub mod Verdict
use upag.Failure.{FailureKind}
use upag.Base.{ℕ, String, Bool, not, ◌==◌, nat_eq, if◌then◌else◌, is_empty, ◌<>◌, decimal}

pub record Result : Type 0 where
  pub ok : Bool
  pub failure_kind : FailureKind
  pub observed_status_code : ℕ
  pub final_url : String
  pub redirects_followed : ℕ
  pub latency : ℕ
  pub response_time : ℕ
  pub error : String
  pub checked_at : ℕ

unfoldable pub failure_message : Result → String
failure_message r =
    if not (is_empty r.error)
    then r.error
    else if not (r.observed_status_code == 0)
    then "unexpected HTTP status " <> decimal r.observed_status_code
    else "unknown failure"
