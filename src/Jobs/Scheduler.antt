-- ===== src/Jobs/Scheduler.antt =====
-- apps/worker/src/semantic-generation-scheduler.ts: `PgBossSemanticTransactionalScheduler`, on the queue of
-- pg-boss. The times are natural numbers of milliseconds.
pub mod Recovery
use understandproof.Base.{
  ℕ, Bool, true, false, ◌||◌, List, [], ◌∷◌, Option, none, some, Text, leb, nat_eqb, Outcome, ok,
  throw, if◌then◌else◌,
}
use understandproof.Jobs.{JobName, proof_expire_attempt, JobPayload, get_job_singleton_key}
use understandproof.Jobs.Queue.{
  JobState, created, retry, active, QueuedJob, QueueFailure, not_recovered, conflicting,
  not_deferred, not_updated, JobQueue, Call, is_failed, filter_jobs, recover, expedite_job,
  schedule_job,
}

abbrev pub is_live_state : JobState → Bool
is_live_state created = true
is_live_state retry = true
is_live_state active = true
is_live_state other_state = false

abbrev pub is_live : QueuedJob → Bool
is_live job = is_live_state job.state

abbrev is_active_state : JobState → Bool
is_active_state active = true
is_active_state other_state = false

-- `startAfter === undefined || startAfter.getTime() <= Date.now()`
abbrev pub is_due : ℕ → Option ℕ → Bool
is_due now none = true
is_due now (some start_after) = leb start_after now

-- What a `Promise<void>` leaves of a call.
abbrev pub without_result : {Q A : Type 0} → Call Q A → Call Q (Unit {0})
without_result (q, ok a) = (q, ok tt)
without_result (q, throw failure) = (q, throw failure)

module _ {Q : Type 0} (queue : JobQueue Q) where
  abbrev done_if_one : QueueFailure → Q × ℕ → Call Q (Unit {0})
  done_if_one failure updated = (updated.0, if nat_eqb updated.1 1 then ok tt else throw failure)

  -- A failed job is recovered when it is due, and put off otherwise.
  unfoldable pub recover_or_defer :
      Q → JobName → JobPayload → Option ℕ → ℕ → QueuedJob → Call Q (Unit {0})
  recover_or_defer q name payload start_after now job =
      if is_due now start_after
      then without_result (recover queue q name payload now job)
      else done_if_one not_deferred (queue.update q name payload job.id start_after)

  unfoldable pub update_pending :
      Q → JobName → JobPayload → Option ℕ → QueuedJob → Call Q (Unit {0})
  update_pending q name payload start_after job =
      if is_active_state job.state
      then (q, ok tt)
      else done_if_one not_updated (queue.update q name payload job.id start_after)

  module _ (is_uuid : Text → Bool) where
    unfoldable pub schedule : Q → JobName → JobPayload → Option ℕ → ℕ → Call Q (Unit {0})
    schedule q name payload none now =
        without_result (expedite_job queue is_uuid q name payload now)
    schedule q name payload (some start_after) now =
        without_result (schedule_job queue is_uuid q name payload start_after)

    -- What is done by the live and the failed jobs that there are.
    unfoldable pub recover_jobs :
        Q
        → JobName
        → JobPayload
        → Option ℕ
        → ℕ
        → List QueuedJob
        → List QueuedJob
        → Call Q (Unit {0})
    recover_jobs q name payload start_after now (first ∷ second ∷ rest) failed_jobs =
        (q, throw conflicting)
    recover_jobs q name payload start_after now [] (first ∷ second ∷ rest) = (q, throw conflicting)
    recover_jobs q name payload start_after now (live ∷ []) (first ∷ second ∷ rest) =
        (q, throw conflicting)
    recover_jobs q name payload start_after now [] (job ∷ []) =
        recover_or_defer q name payload start_after now job
    recover_jobs q name payload start_after now (live ∷ []) (job ∷ []) =
        recover_or_defer q name payload start_after now job
    recover_jobs q name payload start_after now (live ∷ []) [] =
        update_pending q name payload start_after live
    recover_jobs q name payload start_after now [] [] = schedule q name payload start_after now

    unfoldable pub recover_or_expedite : Q → JobName → JobPayload → Option ℕ → ℕ → Call Q (Unit {0})
    recover_or_expedite q name payload start_after now =
        let jobs = queue.find_jobs q name (get_job_singleton_key payload.content) in
        recover_jobs q name payload start_after now (filter_jobs is_live jobs)
          (filter_jobs is_failed jobs)

    unfoldable pub schedule_attempt_expiry : Q → JobPayload → ℕ → Call Q (Unit {0})
    schedule_attempt_expiry q payload start_after =
        without_result (schedule_job queue is_uuid q proof_expire_attempt payload start_after)
