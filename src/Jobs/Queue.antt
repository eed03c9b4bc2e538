-- ===== src/Jobs/Queue.antt =====
-- packages/db/src/jobs.ts: the calls that put jobs into the queue. pg-boss is a parameter, the record
-- `JobQueue` of the calls that the code makes of it, each on a state of the queue that it may change. The
-- transaction that a call runs in is that of its caller. The time is an argument.
pub mod Runnable
use understandproof.Base.{
  ℕ, ◌≤◌, ◌≡◌, Bool, true, false, ◌||◌, List, [], ◌∷◌, Memᴰ, Option, none, some, Text, nat_eqb,
  Outcome, ok, throw, if◌then◌else◌,
}
use understandproof.Jobs.{JobName, JobPayload, get_job_singleton_key}
use understandproof.Jobs.Schemas.{parse_job_payload}

pub data JobState : Type 0 where
  created retry active completed cancelled failed : JobState

abbrev pub is_failed_state : JobState → Bool
is_failed_state failed = true
is_failed_state other_state = false

pub record QueuedJob : Type 0 where
  pub id : Text
  pub singleton_key : Text
  pub state : JobState
  pub payload : JobPayload
  pub start_after : ℕ

pub data QueueFailure : Type 0 where
  invalid_payload slot_unavailable multiple_failed not_recovered conflicting not_deferred
        not_updated :
      QueueFailure

-- What the code calls of pg-boss: `findJobs` by the singleton key, `retry`, `update` with the number of
-- jobs that it changed, `upsert` with the ids of its jobs, and `send` with the id of the job or null.
pub record JobQueue (Q : Type 0) : Type 0 where
  pub find_jobs : Q → JobName → Text → List QueuedJob
  pub retry_job : Q → JobName → Text → Q
  pub update : Q → JobName → JobPayload → Text → Option ℕ → Q × ℕ
  pub upsert : Q → JobName → JobPayload → Text → ℕ → Q × List Text
  pub send : Q → JobName → JobPayload → Text → Q × Option Text

-- The state that a call leaves, and what it returns or throws.
abbrev pub Call : Type 0 → Type 0 → Type 0
Call Q A = Q × Outcome QueueFailure A

abbrev pub is_failed : QueuedJob → Bool
is_failed job = is_failed_state job.state

abbrev pub filter_jobs : (QueuedJob → Bool) → List QueuedJob → List QueuedJob
filter_jobs p [] = []
filter_jobs p (job ∷ rest) = let kept = filter_jobs p rest in if p job then job ∷ kept else kept

-- `result.jobs[0] ?? null`
abbrev pub first_id : List Text → Option Text
first_id [] = none
first_id (id ∷ rest) = some id

module _ {Q : Type 0} (queue : JobQueue Q) where
  abbrev sent_id : Option Text → Outcome QueueFailure Text
  sent_id none = throw slot_unavailable
  sent_id (some id) = ok id

  abbrev updated_one : QueueFailure → Q × ℕ → Text → Call Q (Option Text)
  updated_one failure updated id =
      (updated.0, if nat_eqb updated.1 1 then ok (some id) else throw failure)

  -- A failed job is retried in place, with the new payload.
  unfoldable pub recover : Q → JobName → JobPayload → ℕ → QueuedJob → Call Q (Option Text)
  recover q name payload now job =
      updated_one not_recovered
        (queue.update (queue.retry_job q name job.id) name payload job.id (some now)) job.id

  unfoldable pub upsert_job : Q → JobName → JobPayload → ℕ → Call Q (Option Text)
  upsert_job q name payload start_after =
      let result =
        queue.upsert q name payload (get_job_singleton_key payload.content) start_after in
      (result.0, ok (first_id result.1))

  -- What is done by the failed jobs that there are.
  unfoldable pub expedite : Q → JobName → JobPayload → ℕ → List QueuedJob → Call Q (Option Text)
  expedite q name payload now [] = upsert_job q name payload now
  expedite q name payload now (job ∷ []) = recover q name payload now job
  expedite q name payload now (job ∷ second ∷ rest) = (q, throw multiple_failed)

  unfoldable pub expedite_parsed : Q → JobName → Option JobPayload → ℕ → Call Q (Option Text)
  expedite_parsed q name none now = (q, throw invalid_payload)
  expedite_parsed q name (some payload) now =
      expedite q name payload now
        (filter_jobs is_failed (queue.find_jobs q name (get_job_singleton_key payload.content)))

  unfoldable pub schedule_parsed : Q → JobName → Option JobPayload → ℕ → Call Q (Option Text)
  schedule_parsed q name none start_after = (q, throw invalid_payload)
  schedule_parsed q name (some payload) start_after = upsert_job q name payload start_after

  unfoldable pub send_parsed :
      Q → JobName → Option JobPayload → Q × Outcome QueueFailure (Option Text)
  send_parsed q name none = (q, throw invalid_payload)
  send_parsed q name (some payload) =
      let sent = queue.send q name payload (get_job_singleton_key payload.content) in
      (sent.0, ok sent.1)

  abbrev require_id : Q × Outcome QueueFailure (Option Text) → Call Q Text
  require_id (q, ok id) = (q, sent_id id)
  require_id (q, throw failure) = (q, throw failure)

  module _ (is_uuid : Text → Bool) where
    -- `enqueueJobInPgTransaction`
    unfoldable pub enqueue_job_in_pg_transaction : Q → JobName → JobPayload → Call Q (Option Text)
    enqueue_job_in_pg_transaction q name raw =
        send_parsed q name (parse_job_payload is_uuid name raw)

    -- `enqueueJob`, and `enqueueJobInTransaction` in its transaction
    unfoldable pub enqueue_job : Q → JobName → JobPayload → Call Q Text
    enqueue_job q name raw = require_id (send_parsed q name (parse_job_payload is_uuid name raw))

    -- `expediteJob`, and `expediteJobInTransaction` and `expediteJobInPgTransaction` in their transactions
    unfoldable pub expedite_job : Q → JobName → JobPayload → ℕ → Call Q (Option Text)
    expedite_job q name raw now = expedite_parsed q name (parse_job_payload is_uuid name raw) now

    -- `scheduleJobInPgTransaction`
    unfoldable pub schedule_job : Q → JobName → JobPayload → ℕ → Call Q (Option Text)
    schedule_job q name raw start_after =
        schedule_parsed q name (parse_job_payload is_uuid name raw) start_after
