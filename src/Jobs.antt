-- ===== src/Jobs.antt =====
-- packages/db/src/jobs.ts: the names of the jobs, their payloads with the schemas, the singleton keys and
-- the options of the queues. The test of a UUID is a parameter. A number is a natural number: the schemas
-- refuse every other. A value whose keys are those of no schema is refused, and those of one schema make
-- it a value of that constructor.
pub mod Schemas
pub mod Queue
pub mod Memory
pub mod Scheduler
use understandproof.Base.{
  ℕ, ◌*◌, Bool, true, false, not, ◌&&◌, ◌||◌, List, [], ◌∷◌, ◌++◌, Option, none, some, Text,
  text_eq, text, trim, length, every, includes, leb, nat_eqb, ◌==◌, Outcome, ok, throw, throw_if,
  ◌>>=◌, ◌>>◌,
}
use understandproof.Domain.Primitives.{is_git_sha, is_idempotency_key}
use understandproof.Media.Canonical.{decimal}

pub data JobName : Type 0 where
  github_ingest_pr github_reconcile_check analysis_prepare_revision : JobName
  semantic_generate_learning semantic_generate_practice_feedback semantic_generate_proof_questions :
      JobName
  semantic_expire_private proof_expire_attempt media_finalize_upload media_extract_transcript :
      JobName
  media_select_frames evaluation_run evaluation_apply_policy evidence_delete
        evidence_audit_retention :
      JobName

-- The position in `JOB_NAMES`.
abbrev job_number : JobName → ℕ
job_number github_ingest_pr = 0
job_number github_reconcile_check = 1
job_number analysis_prepare_revision = 2
job_number semantic_generate_learning = 3
job_number semantic_generate_practice_feedback = 4
job_number semantic_generate_proof_questions = 5
job_number semantic_expire_private = 6
job_number proof_expire_attempt = 7
job_number media_finalize_upload = 8
job_number media_extract_transcript = 9
job_number media_select_frames = 10
job_number evaluation_run = 11
job_number evaluation_apply_policy = 12
job_number evidence_delete = 13
job_number evidence_audit_retention = 14

abbrev pub same_name : JobName → JobName → Bool
same_name a b = nat_eqb (job_number a) (job_number b)

pub record JobEnvelope : Type 0 where
  pub schema_version : Text
  pub idempotency_key : Text

pub record JobInstallation : Type 0 where
  pub github_installation_id : Text
  pub account_id : Text
  pub account_login : Text

pub record JobRepository : Type 0 where
  pub github_repository_id : Text
  pub owner : Text
  pub name : Text
  pub default_branch : Text

pub record JobPullRequest : Type 0 where
  pub github_pull_request_id : Text
  pub number : ℕ
  pub author_id : Text
  pub state : Text
  pub head_sha : Text
  pub base_sha : Text

pub record WebhookIngest : Type 0 where
  pub delivery_id : Text
  pub action : Text
  pub installation : JobInstallation
  pub repository : JobRepository
  pub pull_request : JobPullRequest

pub record RefreshIngest : Type 0 where
  pub installation_id : Text
  pub repository_id : Text
  pub owner : Text
  pub repository_name : Text
  pub pull_number : ℕ
  pub expected_head_sha : Text

pub record SemanticGeneration : Type 0 where
  pub revision_id : Text
  pub generation_context_id : Text
  pub expected_head_sha : Text

-- What a payload holds besides its envelope. The event names and the kinds of the semantic artifacts
-- are those of the constructors.
pub data JobData : Type 0 where
  webhook_ingest : WebhookIngest → JobData
  refresh_ingest : RefreshIngest → JobData
  reconcile_check : (revision_id expected_head_sha reason : Text) → JobData
  prepare_revision : (revision_id expected_head_sha : Text) → JobData
  expire_attempt : (attempt_id expected_head_sha : Text) → JobData
  generate_learning : SemanticGeneration → JobData
  generate_practice_feedback :
      SemanticGeneration
      → (practice_session_id practice_question_id practice_answer_id : Text) → JobData
  generate_proof_questions : SemanticGeneration → JobData
  expire_private : (revision_id artifact_id artifact_kind : Text) → JobData
  finalize_upload : (attempt_id upload_session_id expected_head_sha : Text) → JobData
  extract_transcript : (attempt_id recording_object_id expected_head_sha : Text) → JobData
  select_frames : (attempt_id recording_object_id transcript_id expected_head_sha : Text) → JobData
  run_evaluation : (attempt_id transcript_id expected_head_sha : Text) → JobData
  apply_policy : (attempt_id evaluation_id expected_head_sha : Text) → JobData
  delete_evidence : (deletion_job_id : Text) → JobData
  audit_retention : (audit_run_id : Text) → JobData

pub record JobPayload : Type 0 where
  pub envelope : JobEnvelope
  pub content : JobData

-- The name under which the schema of the payload stands in `JobPayloadSchemas`.
unfoldable pub name_of : JobData → JobName
name_of (webhook_ingest w) = github_ingest_pr
name_of (refresh_ingest r) = github_ingest_pr
name_of (reconcile_check revision sha reason) = github_reconcile_check
name_of (prepare_revision revision sha) = analysis_prepare_revision
name_of (expire_attempt attempt sha) = proof_expire_attempt
name_of (generate_learning s) = semantic_generate_learning
name_of (generate_practice_feedback s session question answer) = semantic_generate_practice_feedback
name_of (generate_proof_questions s) = semantic_generate_proof_questions
name_of (expire_private revision artifact kind) = semantic_expire_private
name_of (finalize_upload attempt session sha) = media_finalize_upload
name_of (extract_transcript attempt recording sha) = media_extract_transcript
name_of (select_frames attempt recording transcript sha) = media_select_frames
name_of (run_evaluation attempt transcript sha) = evaluation_run
name_of (apply_policy attempt evaluation sha) = evaluation_apply_policy
name_of (delete_evidence deletion) = evidence_delete
name_of (audit_retention audit) = evidence_audit_retention

-- `getJobSingletonKey`
unfoldable pub get_job_singleton_key : JobData → Text
get_job_singleton_key (webhook_ingest w) =
    w.repository.github_repository_id ++ b':' ∷ decimal w.pull_request.number
get_job_singleton_key (refresh_ingest r) = r.repository_id ++ b':' ∷ decimal r.pull_number
get_job_singleton_key (reconcile_check revision sha reason) = revision
get_job_singleton_key (prepare_revision revision sha) = revision
get_job_singleton_key (expire_attempt attempt sha) = attempt
get_job_singleton_key (generate_learning s) = s.generation_context_id ++ text ":learning"
get_job_singleton_key (generate_practice_feedback s session question answer) = answer
get_job_singleton_key (generate_proof_questions s) = s.generation_context_id ++ text ":proof-v2"
get_job_singleton_key (expire_private revision artifact kind) = kind ++ b':' ∷ artifact
get_job_singleton_key (finalize_upload attempt session sha) = attempt
get_job_singleton_key (extract_transcript attempt recording sha) = attempt
get_job_singleton_key (select_frames attempt recording transcript sha) = attempt
get_job_singleton_key (run_evaluation attempt transcript sha) = attempt
get_job_singleton_key (apply_policy attempt evaluation sha) = attempt
get_job_singleton_key (delete_evidence deletion) = deletion
get_job_singleton_key (audit_retention audit) = audit

-- `COMMON_QUEUE_OPTIONS` and what the queues add to them.
pub record QueueOptions : Type 0 where
  pub retry_limit : ℕ
  pub retry_delay : ℕ
  pub retry_delay_max : ℕ
  pub retention_seconds : ℕ
  pub delete_after_seconds : ℕ
  pub warning_queue_size : ℕ
  pub expire_in_seconds : ℕ
  pub heartbeat_seconds : Option ℕ

unfoldable pub common_queue_options : ℕ → ℕ → Option ℕ → QueueOptions
common_queue_options retry_limit expire_in_seconds heartbeat_seconds = record {
  retry_limit = retry_limit;
  retry_delay = 2;
  retry_delay_max = 5 * 60;
  retention_seconds = 7 * 24 * 60 * 60;
  delete_after_seconds = 24 * 60 * 60;
  warning_queue_size = 1000;
  expire_in_seconds = expire_in_seconds;
  heartbeat_seconds = heartbeat_seconds;
}

unfoldable pub job_queue_definitions : JobName → QueueOptions
job_queue_definitions github_ingest_pr = common_queue_options 5 (5 * 60) (some 30)
job_queue_definitions github_reconcile_check = common_queue_options 5 (5 * 60) (some 30)
job_queue_definitions analysis_prepare_revision = common_queue_options 5 (5 * 60) none
job_queue_definitions semantic_generate_learning = common_queue_options 5 (10 * 60) (some 30)
job_queue_definitions semantic_generate_practice_feedback =
    common_queue_options 5 (10 * 60) (some 30)
job_queue_definitions semantic_generate_proof_questions = common_queue_options 5 (10 * 60) (some 30)
job_queue_definitions semantic_expire_private = common_queue_options 10 (2 * 60) none
job_queue_definitions proof_expire_attempt = common_queue_options 5 60 none
job_queue_definitions media_finalize_upload = common_queue_options 5 (5 * 60) none
job_queue_definitions media_extract_transcript = common_queue_options 5 (15 * 60) (some 60)
job_queue_definitions media_select_frames = common_queue_options 5 (10 * 60) (some 60)
job_queue_definitions evaluation_run = common_queue_options 5 (15 * 60) (some 60)
job_queue_definitions evaluation_apply_policy = common_queue_options 5 (2 * 60) none
job_queue_definitions evidence_delete = common_queue_options 10 (5 * 60) none
job_queue_definitions evidence_audit_retention = common_queue_options 5 (5 * 60) none
