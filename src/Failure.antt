-- ===== src/Failure.antt =====
-- internal/checker/checker.go: the kinds of failure of a probe. No failure is the empty text.
use upag.Base.{Bool, true, false}

pub data FailureKind : Type 0 where
  no_failure timeout transport status_code body_read body_assertion redirect_target
        max_response_time invalid_request :
      FailureKind

unfoldable pub is_connectivity_suppressible : FailureKind → Bool
is_connectivity_suppressible timeout = true
is_connectivity_suppressible max_response_time = true
is_connectivity_suppressible _ = false
