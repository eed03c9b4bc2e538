-- ===== src/Jobs/Scheduler/Recovery.antt =====
-- When `recoverOrExpedite` refuses to go on.
use understandproof.Base.{
  ℕ, ◌≤◌, ◌≡◌, ◌↔◌, refl, ap, ◌⊎◌, inl, inr, Bool, List, [], ◌∷◌, Option, none, some, Text, arith,
  length, ok, throw, if_either,
}
use understandproof.Jobs.{JobName, JobPayload, get_job_singleton_key}
use understandproof.Jobs.Schemas.{parse_job_payload}
use understandproof.Jobs.Queue.{
  QueuedJob, conflicting, JobQueue, Call, is_failed, filter_jobs, recover, upsert_job, expedite,
  expedite_parsed, expedite_job, schedule_parsed, schedule_job,
}
use understandproof.Jobs.Scheduler.{
  is_live, is_due, without_result, recover_or_defer, update_pending, schedule, recover_jobs,
  recover_or_expedite,
}

-- What the aggregate has more than one of.
abbrev pub Conflicts : List QueuedJob → Type 0
Conflicts jobs = (2 ≤ length (filter_jobs is_live jobs)) ⊎ (2 ≤ length (filter_jobs is_failed jobs))

abbrev Goes : {Q A : Type 0} → Call Q A → Type 0
Goes call = ¬ (call.1 ≡ throw conflicting)

without_result-Goes : {Q A : Type 0} (call : Call Q A) → Goes call → Goes (without_result call)
without_result-Goes (q, ok a) h e = ground (arith, e)
without_result-Goes (q, throw f) h e = h (ground (arith, e))

module _ {Q : Type 0} (queue : JobQueue Q) where
  recover-Goes :
      (q : Q) (name : JobName) (payload : JobPayload) (now : ℕ) (job : QueuedJob)
      → Goes (recover queue q name payload now job)
  unfolding recover
  recover-Goes q name payload now job e = ground (arith, e)

  recover_or_defer-Goes :
      (q : Q) (name : JobName) (payload : JobPayload) (start_after : Option ℕ) (now : ℕ)
      (job : QueuedJob)
      → Goes (recover_or_defer queue q name payload start_after now job)
  unfolding recover_or_defer
  recover_or_defer-Goes q name payload start_after now job =
      if_either {A = Call Q (Unit {0})} (λ call. Goes call) (is_due now start_after) _ _
        (λ due.
          without_result-Goes (recover queue q name payload now job)
            (recover-Goes q name payload now job))
        (λ later e. ground (arith, e))

  update_pending-Goes :
      (q : Q) (name : JobName) (payload : JobPayload) (start_after : Option ℕ) (job : QueuedJob)
      → Goes (update_pending queue q name payload start_after job)
  unfolding update_pending
  update_pending-Goes q name payload start_after job e = ground (arith, e)

  expedite-Goes :
      (q : Q) (name : JobName) (payload : JobPayload) (now : ℕ) (jobs : List QueuedJob)
      → Goes (expedite queue q name payload now jobs)
  unfolding expedite upsert_job
  expedite-Goes q name payload now [] e = ground (arith, e)
  expedite-Goes q name payload now (job ∷ []) e = recover-Goes q name payload now job e
  expedite-Goes q name payload now (job ∷ second ∷ rest) e = ground (arith, e)

  expedite_parsed-Goes :
      (q : Q) (name : JobName) (parsed : Option JobPayload) (now : ℕ)
      → Goes (expedite_parsed queue q name parsed now)
  unfolding expedite_parsed
  expedite_parsed-Goes q name none now e = ground (arith, e)
  expedite_parsed-Goes q name (some payload) now e = expedite-Goes q name payload now _ e

  schedule_parsed-Goes :
      (q : Q) (name : JobName) (parsed : Option JobPayload) (start_after : ℕ)
      → Goes (schedule_parsed queue q name parsed start_after)
  unfolding schedule_parsed upsert_job
  schedule_parsed-Goes q name none start_after e = ground (arith, e)
  schedule_parsed-Goes q name (some payload) start_after e = ground (arith, e)

  module _ (is_uuid : Text → Bool) where
    schedule-Goes :
        (q : Q) (name : JobName) (payload : JobPayload) (start_after : Option ℕ) (now : ℕ)
        → Goes (schedule queue is_uuid q name payload start_after now)
    unfolding schedule expedite_job schedule_job
    schedule-Goes q name payload none now =
        without_result-Goes _
          (expedite_parsed-Goes q name (parse_job_payload is_uuid name payload) now)
    schedule-Goes q name payload (some start_after) now =
        without_result-Goes _
          (schedule_parsed-Goes q name (parse_job_payload is_uuid name payload) start_after)

    recover_jobs_iff :
        (q : Q) (name : JobName) (payload : JobPayload) (start_after : Option ℕ) (now : ℕ)
        (live failed_jobs : List QueuedJob)
        → (recover_jobs queue is_uuid q name payload start_after now live failed_jobs
            ≡ (q, throw conflicting))
          ↔ ((2 ≤ length live) ⊎ (2 ≤ length failed_jobs))
    unfolding recover_jobs
    recover_jobs_iff q name payload start_after now (first ∷ second ∷ rest) failed_jobs =
        (λ e. inl (omega arith), λ h. refl)
    recover_jobs_iff q name payload start_after now [] (first ∷ second ∷ rest) =
        (λ e. inr (omega arith), λ h. refl)
    recover_jobs_iff q name payload start_after now (one ∷ []) (first ∷ second ∷ rest) =
        (λ e. inr (omega arith), λ h. refl)
    recover_jobs_iff q name payload start_after now [] (job ∷ []) = (
      λ e. absurd (recover_or_defer-Goes q name payload start_after now job (ap (λ c. c.1) e)),
      λ h. absurd (ground (arith, h)),
    )
    recover_jobs_iff q name payload start_after now (one ∷ []) (job ∷ []) = (
      λ e. absurd (recover_or_defer-Goes q name payload start_after now job (ap (λ c. c.1) e)),
      λ h. absurd (ground (arith, h)),
    )
    recover_jobs_iff q name payload start_after now (one ∷ []) [] = (
      λ e. absurd (update_pending-Goes q name payload start_after one (ap (λ c. c.1) e)),
      λ h. absurd (ground (arith, h)),
    )
    recover_jobs_iff q name payload start_after now [] [] = (
      λ e. absurd (schedule-Goes q name payload start_after now (ap (λ c. c.1) e)),
      λ h. absurd (ground (arith, h)),
    )

    -- recoverOrExpedite throws that the singleton jobs are conflicting, and leaves the queue as it is, exactly
    -- if the queue has more than one live or more than one failed job of the payload's aggregate, whatever
    -- the queue does.
    pub recover_or_expedite-Conflicts_iff :
        (q : Q) (name : JobName) (payload : JobPayload) (start_after : Option ℕ) (now : ℕ)
        → (recover_or_expedite queue is_uuid q name payload start_after now
            ≡ (q, throw conflicting))
          ↔ Conflicts (queue.find_jobs q name (get_job_singleton_key payload.content))
    unfolding recover_or_expedite
    recover_or_expedite-Conflicts_iff q name payload start_after now =
        let jobs = queue.find_jobs q name (get_job_singleton_key payload.content) in
        recover_jobs_iff q name payload start_after now (filter_jobs is_live jobs)
          (filter_jobs is_failed jobs)
