-- ===== src/Github/RequestPolicy/Tests.antt =====
-- Requests to GitHub that are repeated, and the theorems at them.
use understandproof.Base.{
  ℕ, zero, suc, ◌+◌, ◌≤◌, ◌≡◌, refl, [], ◌∷◌, Option, none, some, nat, Text, Text-discrete, text,
  ok,
}
use understandproof.Github.RequestPolicy.{
  header, is_secondary_rate_limit_message, read_http_failure, Events, RequestError, object,
  request_error, response, default_policy, allowed_attempts, attempt_timeout, jittered_backoff,
  to_control_error, pause, read_retry_after, classify_status, classify_http, classify_failure,
  after_failure, after_answer, attempts_from, execute_github_request,
}
use understandproof.Github.RequestPolicy.Runs.{IsRun, execute_github_request-IsRun}

runs : Unit {0}
unfolding Text-discrete header is_secondary_rate_limit_message read_http_failure default_policy
    allowed_attempts attempt_timeout jittered_backoff to_control_error pause read_retry_after
    classify_status classify_http classify_failure after_failure after_answer attempts_from
    execute_github_request
runs = tt

-- The tests read every header as two seconds, and no date.
abbrev two_seconds : Text → Option ℕ
two_seconds s = some 2000

abbrev no_date : Text → Option ℕ
no_date s = none

abbrev limited : RequestError
limited = object (some (nat 429)) (some ((text "Retry-After", some (text "2")) ∷ [])) none

-- The first request is limited, the second gets an answer.
abbrev world : ℕ → Events ℕ
world zero = record {
  started_at = 0;
  answer = response 0;
  failed_at = 0;
  random = 0;
  paused_at = 0;
}
world (suc zero) = record {
  started_at = 100;
  answer = request_error limited;
  failed_at = 110;
  random = 0;
  paused_at = 120;
}
world (suc (suc n)) = record {
  started_at = 2200;
  answer = response 7;
  failed_at = 0;
  random = 0;
  paused_at = 0;
}

repeats :
    execute_github_request two_seconds no_date default_policy 100 world
    ≡ record { requests = 2; pauses = 2000 ∷ []; outcome = ok 7 }
unfolding runs
repeats = refl

execute_github_request-IsRun_example :
    IsRun two_seconds no_date
      (100 + default_policy.deadline_ms)
      world
      (allowed_attempts default_policy)
      1
      (execute_github_request two_seconds no_date default_policy 100 world)
    × (allowed_attempts default_policy ≤ 3)
execute_github_request-IsRun_example =
    execute_github_request-IsRun two_seconds no_date default_policy 100 world
