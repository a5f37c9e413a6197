-- ===== src/Examples/Checks.antt =====
-- A check whose answer must have a text.
use upag.Base.{◌≡◌, ◌↔◌, [], ◌∷◌, true, none, ok, ◌==◌, string_eq}
use upag.Failure.{no_failure}
use upag.Checker.Check.{Tools, CheckConfig, Exchange, text, answered, check_monitor}
use upag.Checker.Meets.{meets}
use upag.Checker.Verdict.{check_monitor-meets}

abbrev tools : Tools
tools = record {
  contains = λ body s. body == s;
  compile = λ regex. ok (λ actual. actual == regex);
  run_command = λ command body. none;
  quote = λ s. s;
  duration_text = λ d. "";
}

abbrev config : CheckConfig
config = record {
  expected_status_code = 200;
  target = record { exact = ""; regex = "" };
  body = record { must_contain = "healthy" ∷ []; must_not_contain = []; command = [] };
  max_time = 0;
}

abbrev exchange : Exchange
exchange = answered (record {
  status = 200;
  final_url = "https://api.example.com";
  redirects = 0;
  latency = 5;
  status_time = 5;
  body_time = 7;
  content = text "starting";
})

check_monitor-meets_example :
    let r = check_monitor tools config 10 exchange in
    (r.ok ≡ meets tools config exchange)
    × ((r.failure_kind ≡ no_failure) ↔ (meets tools config exchange ≡ true))
check_monitor-meets_example = check_monitor-meets tools config 10 exchange
