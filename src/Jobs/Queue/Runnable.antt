-- ===== src/Jobs/Queue/Runnable.antt =====
-- What the calls achieve: the job of an aggregate is there to be run. What pg-boss documents of its calls
-- is the record `QueueLaws`.
use understandproof.Base.{
  ℕ, ◌≡◌, refl, sym, ap, ◌∙◌, inl, inr, Bool, true, List, [], ◌∷◌, Memᴰ, some, Text, arith, ok,
  Bool-cases, Option-cases,
}
use mathlib.Core.Option.{some-injective}
use understandproof.Jobs.{JobName, JobPayload, get_job_singleton_key}
use understandproof.Jobs.Schemas.{parse_job_payload}
use understandproof.Jobs.Queue.{
  JobState, created, retry, active, completed, cancelled, failed, is_failed_state, QueuedJob,
  JobQueue, is_failed, filter_jobs, first_id, recover, upsert_job, expedite, expedite_parsed,
  expedite_job,
}

-- A job waits to be run once its time has come: it is new, or is to be retried.
abbrev pub Waits : JobState → Type 0
Waits created = Unit
Waits retry = Unit
Waits other_state = ⊥

-- The queue has a job of the payload's aggregate, with the payload, that waits for this time.
pub record HasWaiting {Q : Type 0} (queue : JobQueue Q) (q : Q) (name : JobName) (new : JobPayload)
    (due : ℕ) (job_id : Text) : Type 0 where
  pub job : QueuedJob
  pub listed : Memᴰ job (queue.find_jobs q name (get_job_singleton_key new.content))
  pub same_id : job.id ≡ job_id
  pub same_payload : job.payload ≡ new
  pub waits : Waits job.state
  pub due_then : job.start_after ≡ due

-- The same job, as it is after `retry` and after `update`.
abbrev pub retried : QueuedJob → QueuedJob
retried job = record {
  id = job.id;
  singleton_key = job.singleton_key;
  state = retry;
  payload = job.payload;
  start_after = job.start_after;
}

abbrev pub updated_job : JobPayload → ℕ → QueuedJob → QueuedJob
updated_job payload start_after job = record {
  id = job.id;
  singleton_key = job.singleton_key;
  state = job.state;
  payload = payload;
  start_after = start_after;
}

-- What the code relies on: `retry` puts a failed job back to be run; `update` of one waiting job gives it
-- the payload and the start; `upsert` returns the jobs that it changed or made, which wait under the
-- key with the payload and the start.
pub record QueueLaws {Q : Type 0} (queue : JobQueue Q) : Type 0 where
  pub retry_failed :
      (q : Q) (name : JobName) (key : Text) (job : QueuedJob)
      → Memᴰ job (queue.find_jobs q name key)
      → job.state ≡ failed
      → Memᴰ (retried job) (queue.find_jobs (queue.retry_job q name job.id) name key)
  pub update_waiting :
      (q : Q) (name : JobName) (key : Text) (job : QueuedJob) (payload : JobPayload)
      (start_after : ℕ)
      → Memᴰ job (queue.find_jobs q name key)
      → Waits job.state
      → (queue.update q name payload job.id (some start_after)).1 ≡ 1
      → Memᴰ
          (updated_job payload start_after job)
          (queue.find_jobs (queue.update q name payload job.id (some start_after)).0 name key)
  pub upsert_waiting :
      (q : Q) (name : JobName) (payload : JobPayload) (start_after : ℕ) (id : Text)
      → Memᴰ id (queue.upsert q name payload (get_job_singleton_key payload.content) start_after).1
      → HasWaiting queue
          (queue.upsert q name payload (get_job_singleton_key payload.content) start_after).0
          name
          payload
          start_after
          id

kept-Memᴰ :
    (p : QueuedJob → Bool) (first : QueuedJob) (kept rest : List QueuedJob) (job : QueuedJob)
    → p first ≡ true
    → (Memᴰ job kept → Memᴰ job rest × (p job ≡ true))
    → Memᴰ job (first ∷ kept)
    → Memᴰ job (first ∷ rest) × (p job ≡ true)
kept-Memᴰ p first kept rest job passes later (Memᴰ.head same) = (Memᴰ.head same, ap p same ∙ passes)
kept-Memᴰ p first kept rest job passes later (Memᴰ.tail m) = (Memᴰ.tail (later m).0, (later m).1)

pub filter_jobs-Memᴰ :
    (p : QueuedJob → Bool) (jobs : List QueuedJob) (job : QueuedJob)
    → Memᴰ job (filter_jobs p jobs)
    → Memᴰ job jobs × (p job ≡ true)
filter_jobs-Memᴰ p [] job m = elim m [ ]
filter_jobs-Memᴰ p (first ∷ rest) job m = elim (Bool-cases (p first)) [
  | inl passes ↦
      kept-Memᴰ p first (filter_jobs p rest) rest job passes (filter_jobs-Memᴰ p rest job)
        (rw passes at m)
  | inr fails ↦
      let (listed, passes) = filter_jobs-Memᴰ p rest job (rw fails at m) in
      (Memᴰ.tail listed, passes)
]

is_failed_state-eq : (s : JobState) → is_failed_state s ≡ true → s ≡ failed
is_failed_state-eq created e = ground (arith, e)
is_failed_state-eq retry e = ground (arith, e)
is_failed_state-eq active e = ground (arith, e)
is_failed_state-eq completed e = ground (arith, e)
is_failed_state-eq cancelled e = ground (arith, e)
is_failed_state-eq failed e = refl

first_id-Memᴰ : (ids : List Text) (id : Text) → first_id ids ≡ some id → Memᴰ id ids
first_id-Memᴰ [] id e = ground (arith, e)
first_id-Memᴰ (first ∷ rest) id e = Memᴰ.head (sym (some-injective first id e))

module _ {Q : Type 0} (queue : JobQueue Q) (laws : QueueLaws queue) where
  recover-HasWaiting :
      (q : Q) (name : JobName) (payload : JobPayload) (now : ℕ) (job : QueuedJob) (id : Text)
      → Memᴰ job (queue.find_jobs q name (get_job_singleton_key payload.content))
      → job.state ≡ failed
      → (recover queue q name payload now job).1 ≡ ok (some id)
      → HasWaiting queue (recover queue q name payload now job).0 name payload now id
  unfolding recover
  recover-HasWaiting q name payload now job id listed broken e =
      let key = get_job_singleton_key payload.content in
      let retrying = laws.retry_failed q name key job listed broken in
      let changed : (queue.update (queue.retry_job q name job.id) name payload job.id (some now)).1
          ≡ 1 =
        ground (arith, e) in
      record {
        job = updated_job payload now (retried job);
        listed =
            laws.update_waiting (queue.retry_job q name job.id) name key (retried job) payload now
              retrying tt changed;
        same_id = ground (arith, e, changed);
        same_payload = refl;
        waits = tt;
        due_then = refl;
      }

  upsert_job-HasWaiting :
      (q : Q) (name : JobName) (payload : JobPayload) (start_after : ℕ) (id : Text)
      → (upsert_job queue q name payload start_after).1 ≡ ok (some id)
      → HasWaiting queue (upsert_job queue q name payload start_after).0 name payload start_after id
  unfolding upsert_job
  upsert_job-HasWaiting q name payload start_after id e =
      laws.upsert_waiting q name payload start_after id (first_id-Memᴰ _ id (ground (arith, e)))

  expedite-HasWaiting :
      (q : Q) (name : JobName) (payload : JobPayload) (now : ℕ) (failed_jobs : List QueuedJob)
      (id : Text)
      → ((job : QueuedJob)
          → Memᴰ job failed_jobs
          → Memᴰ job (queue.find_jobs q name (get_job_singleton_key payload.content))
            × (is_failed job ≡ true))
      → (expedite queue q name payload now failed_jobs).1 ≡ ok (some id)
      → HasWaiting queue (expedite queue q name payload now failed_jobs).0 name payload now id
  unfolding expedite
  expedite-HasWaiting q name payload now [] id h e = upsert_job-HasWaiting q name payload now id e
  expedite-HasWaiting q name payload now (job ∷ []) id h e =
      let (listed, broken) = h job (Memᴰ.head refl) in
      recover-HasWaiting q name payload now job id listed (is_failed_state-eq job.state broken) e
  expedite-HasWaiting q name payload now (job ∷ second ∷ rest) id h e = absurd (ground (arith, e))

  -- When expediteJob returns the id of a job, the queue has the job of that id under the singleton key of
  -- the payload that was parsed; it holds that payload, is new or to be retried, also when it had failed
  -- before, and is due now. pg-boss keeps to what it documents of retry, update and upsert.
  pub expedite_job-HasWaiting :
      (is_uuid : Text → Bool) (q : Q) (name : JobName) (raw : JobPayload) (now : ℕ) (id : Text)
      → (expedite_job queue is_uuid q name raw now).1 ≡ ok (some id)
      → (payload : JobPayload) × (parse_job_payload is_uuid name raw ≡ some payload)
        × HasWaiting queue (expedite_job queue is_uuid q name raw now).0 name payload now id
  unfolding expedite_job expedite_parsed
  expedite_job-HasWaiting is_uuid q name raw now id e =
      elim (Option-cases (parse_job_payload is_uuid name raw)) [
        | inl refused ↦ absurd (ground (arith, rw refused at e))
        | inr (payload, parsed) ↦
            let jobs = queue.find_jobs q name (get_job_singleton_key payload.content) in
            (
              payload,
              parsed,
              rw parsed (
                  expedite-HasWaiting q name payload now (filter_jobs is_failed jobs) id
                    (filter_jobs-Memᴰ is_failed jobs) (rw parsed at e)),
            )
      ]
