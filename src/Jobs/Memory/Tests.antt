-- ===== src/Jobs/Memory/Tests.antt =====
-- The calls of the queue on the queue in memory.
use understandproof.Base.{
  ◌≡◌, refl, Bool, true, List, [], ◌∷◌, ◌++◌, ◌↔◌, none, some, Text, Text-discrete, text, trim,
  replicate, ok, throw,
}
use understandproof.Domain.Primitives.{is_lower_hex, is_git_sha, is_idempotency_key}
use understandproof.Media.Canonical.{decimal}
use understandproof.Jobs.{
  media_finalize_upload, JobPayload, finalize_upload, name_of, get_job_singleton_key,
}
use understandproof.Jobs.Schemas.{is_envelope, trim_data, is_job_data, parse_job_payload}
use understandproof.Jobs.Queue.{
  QueuedJob, failed, conflicting, recover, upsert_job, expedite, expedite_parsed, expedite_job,
}
use understandproof.Jobs.Queue.Runnable.{HasWaiting, expedite_job-HasWaiting}
use understandproof.Jobs.Scheduler.{recover_or_expedite}
use understandproof.Jobs.Scheduler.Recovery.{Conflicts, recover_or_expedite-Conflicts_iff}
use understandproof.Jobs.Memory.{Entry, memory_queue, memory_queue-QueueLaws}

abbrev any_text : Text → Bool
any_text s = true

abbrev payload : JobPayload
payload = record {
  envelope = record { schema_version = text "1"; idempotency_key = text "upload-1" };
  content = finalize_upload (text "attempt") (text "session") (replicate 40 b'a');
}

abbrev broken_job : QueuedJob
broken_job = record {
  id = text "job";
  singleton_key = text "attempt";
  state = failed;
  payload = payload;
  start_after = 3;
}

abbrev entries : List Entry
entries = record { queue_name = media_finalize_upload; job = broken_job } ∷ []

runs : Unit {0}
unfolding Text-discrete trim is_lower_hex is_git_sha is_idempotency_key decimal name_of
    get_job_singleton_key is_envelope trim_data is_job_data parse_job_payload recover upsert_job
    expedite expedite_parsed expedite_job
runs = tt

recovers :
    (expedite_job memory_queue any_text entries media_finalize_upload payload 9).1
    ≡ ok (some (text "job"))
unfolding runs
recovers = refl

expedite_job-HasWaiting_example :
    (parsed : JobPayload) × (parse_job_payload any_text media_finalize_upload payload ≡ some parsed)
    × HasWaiting memory_queue
        (expedite_job memory_queue any_text entries media_finalize_upload payload 9).0
        media_finalize_upload
        parsed
        9
        (text "job")
expedite_job-HasWaiting_example =
    expedite_job-HasWaiting memory_queue memory_queue-QueueLaws any_text entries
      media_finalize_upload payload 9 (text "job") recovers

recover_or_expedite-Conflicts_iff_example :
    (recover_or_expedite memory_queue any_text
        (entries ++ entries)
        media_finalize_upload
        payload
        none
        9
      ≡ (entries ++ entries, throw conflicting))
    ↔ Conflicts (
        memory_queue.find_jobs
          (entries ++ entries)
          media_finalize_upload
          (get_job_singleton_key payload.content))
recover_or_expedite-Conflicts_iff_example =
    recover_or_expedite-Conflicts_iff memory_queue any_text (entries ++ entries)
      media_finalize_upload payload none 9
