-- ===== src/Github/RequestPolicy.antt =====
-- packages/github/src/request-policy.ts: `executeGithubRequest`. What happens outside of it, the answers to
-- the requests, the clock and the random numbers, is a function of the number of the attempt. Times are
-- natural numbers of milliseconds. `Number` and `Date.parse` on the text of a header are parameters, and
-- header names are lower-cased as ASCII.
pub mod Runs
pub mod Failures
mod Tests
use understandproof.Base.{
  ℕ, zero, suc, ◌+◌, ◌-◌, ◌*◌, ◌/◌, ◌^◌, min, Bool, true, false, not, ◌&&◌, ◌||◌, List, [], ◌∷◌,
  Option, none, some, Number, nat, other, map, Text, text_eq, text, length, take, any, find, leb,
  ltb, nat_eqb, ◌==◌, Outcome, ok, throw, if◌then◌else◌,
}

pub data ControlErrorCode : Type 0 where
  invalid_input invalid_key_file invalid_response limit_exceeded stale_head : ControlErrorCode
  rate_limited timeout unavailable rejected ambiguous_write : ControlErrorCode

pub record ControlError : Type 0 where
  pub code : ControlErrorCode
  pub status : Option ℕ
  pub retry_after_ms : Option ℕ

pub record Failure : Type 0 where
  pub code : ControlErrorCode
  pub retryable : Bool
  pub status : Option ℕ
  pub retry_after_ms : Option ℕ

-- The entries of a headers object; a value may be undefined.
abbrev pub Headers : Type 0
Headers = List (Text × Option Text)

pub record ErrorResponse : Type 0 where
  pub status : Option Number
  pub headers : Option Headers
  pub message : Option Text

-- What a request throws that is no `GithubControlError`.
pub data RequestError : Type 0 where
  no_object : RequestError
  object :
      (status : Option Number) (headers : Option Headers) (response : Option ErrorResponse)
      → RequestError

abbrev lower_unit : ℕ → ℕ
lower_unit c = if leb b'A' c && leb c b'Z' then c + 32 else c

abbrev entry_value : Option (Text × Option Text) → Option Text
entry_value none = none
entry_value (some (key, value)) = value

-- `header`
unfoldable pub header : Option Headers → Text → Option Text
header none name = none
header (some headers) name = entry_value (find (λ entry. map lower_unit entry.0 == name) headers)

-- `a ?? b`
abbrev pub or_else {ℓ} : {A : Type ℓ} → Option A → Option A → Option A
or_else none b = b
or_else (some a) b = some a

pub record HttpFailure : Type 0 where
  pub status : Option ℕ
  pub headers : Option Headers
  pub secondary_rate_limit : Bool

abbrev error_status : Option Number → Option ℕ
error_status none = none
error_status (some other) = none
error_status (some (nat n)) = if leb 400 n && leb n 599 then some n else none

abbrev starts_with : Text → Text → Bool
starts_with message marker = take (length marker) message == marker

unfoldable pub is_secondary_rate_limit_message : Option Text → Bool
is_secondary_rate_limit_message none = false
is_secondary_rate_limit_message (some message) = any (starts_with message) (
    text "You have exceeded a secondary rate limit."
    ∷ text "You have exceeded a secondary rate limit and have been temporarily blocked"
    ∷ text "You have triggered an abuse detection mechanism."
    ∷ [])

unfoldable pub read_http_failure : RequestError → HttpFailure
read_http_failure no_object = record { status = none; headers = none; secondary_rate_limit = false }
read_http_failure (object status headers none) = record {
  status = error_status status;
  headers = headers;
  secondary_rate_limit = false;
}
read_http_failure (object status headers (some response)) = record {
  status = error_status (or_else status response.status);
  headers = or_else response.headers headers;
  secondary_rate_limit = is_secondary_rate_limit_message response.message;
}

abbrev pub secondary_minimum_retry_ms : ℕ
secondary_minimum_retry_ms = 60000

-- What comes of an attempt.
pub data Answer (R : Type 0) : Type 0 where
  response : R → Answer R
  control_error : ControlError → Answer R
  timed_out : Answer R
  request_error : RequestError → Answer R

-- The outside world at one attempt: the clock before the request, the answer, the clock when a failure is
-- classified, the random number in units of 1 / 2 ^ 53, and the clock before the pause.
pub record Events (R : Type 0) : Type 0 where
  pub started_at : ℕ
  pub answer : Answer R
  pub failed_at : ℕ
  pub random : ℕ
  pub paused_at : ℕ

pub record RequestPolicy : Type 0 where
  pub max_attempts : Number
  pub deadline_ms : ℕ
  pub attempt_timeout_ms : ℕ

unfoldable pub default_policy : RequestPolicy
default_policy = record { max_attempts = nat 3; deadline_ms = 25000; attempt_timeout_ms = 10000 }

abbrev max_attempts_or_zero : Number → ℕ
max_attempts_or_zero (nat n) = if leb 1 n && leb n 3 then n else 0
max_attempts_or_zero other = 0

-- The number of attempts, or 0 for a policy that is refused.
unfoldable pub allowed_attempts : RequestPolicy → ℕ
allowed_attempts p =
    if leb 1 p.deadline_ms && leb 1 p.attempt_timeout_ms
    then max_attempts_or_zero p.max_attempts
    else 0

-- The time that an attempt is given: `Math.max(1, Math.min(attemptTimeoutMs, remaining))`.
unfoldable pub attempt_timeout : RequestPolicy → ℕ → ℕ
attempt_timeout p remaining =
    let bound = min p.attempt_timeout_ms remaining in if leb 1 bound then bound else 1

-- `Math.round(base * (0.75 + random * 0.5))`, with `base` at most a second.
unfoldable pub jittered_backoff : ℕ → ℕ → ℕ
jittered_backoff attempt random =
    let base = min (150 * 2 ^ (attempt - 1)) 1000 in
    let unit = 2 ^ 53 in (2 * base * (3 * unit + 2 * min random unit) + 4 * unit) / (8 * unit)

abbrev pub timeout_failure : Failure
timeout_failure = record { code = timeout; retryable = true; status = none; retry_after_ms = none }

abbrev pub limited_failure : ℕ → Option ℕ → Failure
limited_failure status retry_after = record {
  code = rate_limited;
  retryable = true;
  status = some status;
  retry_after_ms = retry_after;
}

abbrev pub server_failure : ℕ → Failure
server_failure status = record {
  code = unavailable;
  retryable = true;
  status = some status;
  retry_after_ms = none;
}

abbrev pub final_failure : ℕ → Failure
final_failure status = record {
  code = rejected;
  retryable = false;
  status = some status;
  retry_after_ms = none;
}

unfoldable pub to_control_error : Failure → ControlError
to_control_error f = record { code = f.code; status = f.status; retry_after_ms = f.retry_after_ms }

abbrev pub or_zero : Option ℕ → ℕ
or_zero none = 0
or_zero (some n) = n

unfoldable pub pause : ℕ → ℕ → Failure → ℕ
pause attempt random f =
    let backoff = jittered_backoff attempt random in
    let asked = or_zero f.retry_after_ms in if leb backoff asked then asked else backoff

-- What was done: the requests that were sent, the pauses between them, and what is returned or thrown.
pub record Run (R : Type 0) : Type 0 where
  pub requests : ℕ
  pub pauses : List ℕ
  pub outcome : Outcome ControlError R

abbrev pub simple_error : ControlErrorCode → ControlError
simple_error code = record { code = code; status = none; retry_after_ms = none }

abbrev pub refused_before : {R : Type 0} → ControlErrorCode → Run R
refused_before code = record { requests = 0; pauses = []; outcome = throw (simple_error code) }

abbrev pub after_one : {R : Type 0} → Outcome ControlError R → Run R
after_one outcome = record { requests = 1; pauses = []; outcome = outcome }

abbrev pub after_pause : {R : Type 0} → ℕ → Run R → Run R
after_pause delay rest = record {
  requests = suc rest.requests;
  pauses = delay ∷ rest.pauses;
  outcome = rest.outcome;
}

abbrev pub is_exhausted : Option Text → Bool
is_exhausted none = false
is_exhausted (some remaining) = remaining == text "0"

abbrev pub is_some {ℓ} : {A : Type ℓ} → Option A → Bool
is_some none = false
is_some (some a) = true

module _ (to_millis date_parse : Text → Option ℕ) where
  abbrev until : ℕ → Option ℕ → Option ℕ
  until now none = none
  until now (some time) = some (time - now)

  abbrev reset_after : Option Headers → ℕ → Option ℕ
  reset_after headers now = elim (header headers (text "x-ratelimit-reset")) [
    | none ↦ none
    | some reset ↦ until now (to_millis reset)
  ]

  abbrev limit_reset : Option Headers → ℕ → Option ℕ
  limit_reset headers now = elim (header headers (text "x-ratelimit-remaining")) [
    | none ↦ none
    | some remaining ↦ if remaining == text "0" then reset_after headers now else none
  ]

  -- `readRetryAfter`
  unfoldable pub read_retry_after : Option Headers → ℕ → Option ℕ
  read_retry_after headers now = elim (header headers (text "retry-after")) [
    | none ↦ limit_reset headers now
    | some retry_after ↦
        or_else (or_else (to_millis retry_after) (until now (date_parse retry_after)))
          (limit_reset headers now)
  ]

  abbrev pub is_limited : HttpFailure → ℕ → ℕ → Bool
  is_limited f status now =
      nat_eqb status 429
      || nat_eqb status 403
        && (is_some (read_retry_after f.headers now)
            || is_exhausted (header f.headers (text "x-ratelimit-remaining"))
            || f.secondary_rate_limit)

  -- `classifyFailure` of a failure with an HTTP status
  unfoldable pub classify_status : HttpFailure → ℕ → ℕ → Failure
  classify_status f status now =
      let retry_after =
        or_else (read_retry_after f.headers now)
          (if f.secondary_rate_limit then some secondary_minimum_retry_ms else none) in
      if is_limited f status now
      then limited_failure status retry_after
      else if leb 500 status && leb status 599
      then server_failure status
      else final_failure status

  unfoldable pub classify_http : HttpFailure → ℕ → Failure
  classify_http f now = elim f.status [
    | none ↦ record { code = unavailable; retryable = true; status = none; retry_after_ms = none }
    | some status ↦ classify_status f status now
  ]

  unfoldable pub classify_failure : RequestError → ℕ → Failure
  classify_failure error now = classify_http (read_http_failure error) now

  module _ {R : Type 0} where
    -- After a failed attempt: it is final, or there is a pause before the next, if the deadline allows it.
    unfoldable pub after_failure : ℕ → ℕ → ℕ → Events R → Failure → Run R → Run R
    after_failure deadline_at left attempt events f rest =
        let delay = pause attempt events.random f in
        if not f.retryable || nat_eqb left 0
        then after_one (throw (to_control_error f))
        else if leb deadline_at (events.paused_at + delay)
        then after_one (throw (to_control_error f))
        else after_pause delay rest

    unfoldable pub after_answer : ℕ → ℕ → ℕ → Events R → Answer R → Run R → Run R
    after_answer deadline_at left attempt events (response r) rest = after_one (ok r)
    after_answer deadline_at left attempt events (control_error e) rest = after_one (throw e)
    after_answer deadline_at left attempt events timed_out rest =
        after_failure deadline_at left attempt events timeout_failure rest
    after_answer deadline_at left attempt events (request_error e) rest =
        after_failure deadline_at left attempt events (classify_failure e events.failed_at) rest

    -- The loop, with the attempts that are left.
    unfoldable pub attempts_from : ℕ → (ℕ → Events R) → ℕ → ℕ → Run R
    attempts_from deadline_at world zero attempt = refused_before unavailable
    attempts_from deadline_at world (suc left) attempt =
        let rest = attempts_from deadline_at world left (suc attempt) in
        let events = world attempt in
        if leb deadline_at events.started_at
        then refused_before timeout
        else after_answer deadline_at left attempt events events.answer rest

    abbrev pub start_attempts : ℕ → (ℕ → Events R) → ℕ → Run R
    start_attempts deadline_at world zero = refused_before invalid_input
    start_attempts deadline_at world (suc left) = attempts_from deadline_at world (suc left) 1

    -- `executeGithubRequest`, called at a time
    unfoldable pub execute_github_request : RequestPolicy → ℕ → (ℕ → Events R) → Run R
    execute_github_request policy now world =
        start_attempts (now + policy.deadline_ms) world (allowed_attempts policy)
