-- ===== src/Github/RequestPolicy/Runs.antt =====
-- How often and when `executeGithubRequest` repeats a request.
use understandproof.Base.{
  ℕ, zero, suc, ◌+◌, ◌≤◌, ◌<◌, ◌≡◌, refl, subst, true, not, ◌||◌, List, [], ◌∷◌, Option, none, some,
  Text, arith, length, leb, nat_eqb, Outcome, ok, throw, if_either,
}
use understandproof.Github.RequestPolicy.{
  ControlError, Failure, Answer, response, control_error, timed_out, request_error, Events,
  RequestPolicy, allowed_attempts, Run, pause, or_zero, after_one, after_pause, to_control_error,
  classify_failure, after_failure, after_answer, attempts_from, start_attempts,
  execute_github_request, timeout_failure,
}

pause-patient :
    (attempt random : ℕ) (f : Failure) → or_zero f.retry_after_ms ≤ pause attempt random f
unfolding pause
pause-patient attempt random f = ground arith

allowed_attempts-few : (policy : RequestPolicy) → allowed_attempts policy ≤ 3
unfolding allowed_attempts
allowed_attempts-few policy = ground arith

module _ (to_millis date_parse : Text → Option ℕ) {R : Type 0} where
  -- The failure that an attempt ends with, if it does.
  unfoldable pub failure_of : Events R → Option Failure
  failure_of events = elim events.answer [
    | response r ↦ none
    | control_error e ↦ none
    | timed_out ↦ some timeout_failure
    | request_error e ↦ some (classify_failure to_millis date_parse e events.failed_at)
  ]

  -- A pause after an attempt: the attempt failed in a way that may be repeated, the pause is at least what
  -- the answer asked for, and it is over before the deadline.
  pub record IsPause (deadline_at : ℕ) (events : Events R) (delay : ℕ) : Type 0 where
    pub failure : Failure
    pub failed : failure_of events ≡ some failure
    pub may_repeat : failure.retryable ≡ true
    pub patient : or_zero failure.retry_after_ms ≤ delay
    pub in_time : events.paused_at + delay < deadline_at

  unfoldable pub ArePauses : ℕ → (ℕ → Events R) → ℕ → List ℕ → Type 0
  ArePauses deadline_at world attempt [] = Unit
  ArePauses deadline_at world attempt (delay ∷ rest) =
      IsPause deadline_at (world attempt) delay × ArePauses deadline_at world (suc attempt) rest

  unfoldable pub IsLast : (ℕ → Events R) → ℕ → Outcome ControlError R → Type 0
  IsLast world attempt (ok r) = (world attempt).answer ≡ response r
  IsLast world attempt (throw e) = Unit

  pub record IsRun (deadline_at : ℕ) (world : ℕ → Events R) (left attempt : ℕ) (run : Run R)
      : Type 0 where
    pub few : run.requests ≤ left
    pub pauses_between : length run.pauses ≤ run.requests
    pub requests_between : run.requests ≤ suc (length run.pauses)
    pub are_pauses : ArePauses deadline_at world attempt run.pauses
    pub answered : IsLast world (attempt + length run.pauses) run.outcome

  one-IsRun :
      (deadline_at : ℕ) (world : ℕ → Events R) (left attempt : ℕ) (e : ControlError)
      → IsRun deadline_at world (suc left) attempt (after_one (throw e))
  unfolding ArePauses IsLast
  one-IsRun deadline_at world left attempt e = record {
    few = omega arith;
    pauses_between = omega arith;
    requests_between = omega arith;
    are_pauses = tt;
    answered = tt;
  }

  after_pause-IsRun :
      (deadline_at : ℕ) (world : ℕ → Events R) (left attempt delay : ℕ) (rest : Run R)
      → IsPause deadline_at (world attempt) delay
      → IsRun deadline_at world left (suc attempt) rest
      → IsRun deadline_at world (suc left) attempt (after_pause delay rest)
  unfolding ArePauses IsLast
  after_pause-IsRun deadline_at world left attempt delay rest is_pause run = record {
    few = omega (arith, run.few);
    pauses_between = omega (arith, run.pauses_between);
    requests_between = omega (arith, run.requests_between);
    are_pauses = (is_pause, run.are_pauses);
    answered =
        subst (λ n. IsLast world n rest.outcome) {x = suc attempt + length rest.pauses}
          {y = attempt + suc (length rest.pauses)} (omega arith) run.answered;
  }

  after_failure-IsRun :
      (deadline_at : ℕ) (world : ℕ → Events R) (left attempt : ℕ) (f : Failure) (rest : Run R)
      → failure_of (world attempt) ≡ some f
      → IsRun deadline_at world left (suc attempt) rest
      → IsRun deadline_at world
          (suc left)
          attempt
          (after_failure to_millis date_parse deadline_at left attempt (world attempt) f rest)
  unfolding after_failure
  after_failure-IsRun deadline_at world left attempt f rest failed run =
      let delay = pause attempt (world attempt).random f in
      let stopped = one-IsRun deadline_at world left attempt (to_control_error f) in
      if_either {A = Run R} (IsRun deadline_at world (suc left) attempt)
        (not f.retryable || nat_eqb left 0) _ _ (λ final. stopped)
        (λ repeats.
          if_either {A = Run R} (IsRun deadline_at world (suc left) attempt)
            (leb deadline_at ((world attempt).paused_at + delay)) _ _ (λ late. stopped)
            (λ in_time.
              after_pause-IsRun deadline_at world left attempt delay rest
                (record {
                  failure = f;
                  failed = failed;
                  may_repeat = ground (arith, repeats);
                  patient = pause-patient attempt (world attempt).random f;
                  in_time = ground (arith, in_time);
                })
                run))

  after_answer-IsRun :
      (deadline_at : ℕ) (world : ℕ → Events R) (left attempt : ℕ) (answer : Answer R) (rest : Run R)
      → (world attempt).answer ≡ answer
      → IsRun deadline_at world left (suc attempt) rest
      → IsRun deadline_at world
          (suc left)
          attempt
          (after_answer to_millis date_parse deadline_at left attempt (world attempt) answer rest)
  unfolding after_answer ArePauses IsLast failure_of
  after_answer-IsRun deadline_at world left attempt (response r) rest same run = record {
    few = omega arith;
    pauses_between = omega arith;
    requests_between = omega arith;
    are_pauses = tt;
    answered =
        subst (λ n. (world n).answer ≡ response r) {x = attempt} {y = attempt + 0} (omega arith)
          same;
  }
  after_answer-IsRun deadline_at world left attempt (control_error e) rest same run =
      one-IsRun deadline_at world left attempt e
  after_answer-IsRun deadline_at world left attempt timed_out rest same run =
      after_failure-IsRun deadline_at world left attempt timeout_failure rest (rw same refl) run
  after_answer-IsRun deadline_at world left attempt (request_error e) rest same run =
      after_failure-IsRun deadline_at world left attempt
        (classify_failure to_millis date_parse e (world attempt).failed_at) rest (rw same refl) run

  attempts_from-IsRun :
      (deadline_at : ℕ) (world : ℕ → Events R) (left attempt : ℕ)
      → IsRun deadline_at world left attempt
          (attempts_from to_millis date_parse deadline_at world left attempt)
  unfolding attempts_from ArePauses IsLast
  attempts_from-IsRun deadline_at world zero attempt = record {
    few = omega arith;
    pauses_between = omega arith;
    requests_between = omega arith;
    are_pauses = tt;
    answered = tt;
  }
  attempts_from-IsRun deadline_at world (suc left) attempt =
      if_either {A = Run R} (IsRun deadline_at world (suc left) attempt)
        (leb deadline_at (world attempt).started_at) _ _
        (λ late. record {
          few = omega arith;
          pauses_between = omega arith;
          requests_between = omega arith;
          are_pauses = tt;
          answered = tt;
        })
        (λ in_time.
          after_answer-IsRun deadline_at world left attempt (world attempt).answer _ refl
            (attempts_from-IsRun deadline_at world left (suc attempt)))

  start_attempts-IsRun :
      (deadline_at : ℕ) (world : ℕ → Events R) (left : ℕ)
      → IsRun deadline_at world left 1 (start_attempts to_millis date_parse deadline_at world left)
  unfolding ArePauses IsLast
  start_attempts-IsRun deadline_at world zero = record {
    few = omega arith;
    pauses_between = omega arith;
    requests_between = omega arith;
    are_pauses = tt;
    answered = tt;
  }
  start_attempts-IsRun deadline_at world (suc left) =
      attempts_from-IsRun deadline_at world (suc left) 1

  -- Whatever GitHub answers and the clock says, executeGithubRequest sends at most the attempts of the
  -- policy, three at most. It pauses only after a failure that may be repeated, at least as long as the
  -- answer asked for and so that the pause is over before the deadline; and a value that it returns is the
  -- response to its last request.
  pub execute_github_request-IsRun :
      (policy : RequestPolicy) (now : ℕ) (world : ℕ → Events R)
      → IsRun
          (now + policy.deadline_ms)
          world
          (allowed_attempts policy)
          1
          (execute_github_request to_millis date_parse policy now world)
        × (allowed_attempts policy ≤ 3)
  unfolding execute_github_request
  execute_github_request-IsRun policy now world = (
    start_attempts-IsRun (now + policy.deadline_ms) world (allowed_attempts policy),
    allowed_attempts-few policy,
  )
