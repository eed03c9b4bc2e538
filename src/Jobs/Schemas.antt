-- ===== src/Jobs/Schemas.antt =====
-- packages/db/src/jobs.ts: the schemas of the payloads, and `parseJobPayload`.
use understandproof.Base.{
  ℕ, Bool, false, ◌&&◌, List, [], ◌∷◌, Text, text_eq, text, Option, none, some, trim, if◌then◌else◌,
  length, every, includes, leb, ◌==◌,
}
use understandproof.Domain.Primitives.{is_git_sha, is_idempotency_key}
use understandproof.Jobs.{
  JobName, JobEnvelope, WebhookIngest, RefreshIngest, SemanticGeneration, JobData, webhook_ingest,
  refresh_ingest, reconcile_check, prepare_revision, expire_attempt, generate_learning,
  generate_practice_feedback, generate_proof_questions, expire_private, finalize_upload,
  extract_transcript, select_frames, run_evaluation, apply_policy, delete_evidence, audit_retention,
  JobPayload, name_of, same_name,
}

abbrev pub is_digit : ℕ → Bool
is_digit c = leb b'0' c && leb c b'9'

-- `/^[1-9][0-9]*$/`, of at most 32 digits
unfoldable pub is_github_numeric_id : Text → Bool
is_github_numeric_id [] = false
is_github_numeric_id (c ∷ rest) =
    leb b'1' c && leb c b'9' && every is_digit rest && leb (length rest) 31

-- A text that was trimmed and has at least one and at most `limit` code units.
abbrev is_bounded : ℕ → Text → Bool
is_bounded limit s = leb 1 (length s) && leb (length s) limit

unfoldable pub is_envelope : JobEnvelope → Bool
is_envelope e = e.schema_version == text "1" && is_idempotency_key e.idempotency_key

abbrev pub webhook_actions : List Text
webhook_actions =
    text "opened"
    ∷ text "reopened"
    ∷ text "ready_for_review"
    ∷ text "synchronize"
    ∷ text "closed"
    ∷ []

abbrev pub reconcile_reasons : List Text
reconcile_reasons =
    text "webhook_ingested"
    ∷ text "analysis_ready"
    ∷ text "preparation_failed"
    ∷ text "proof_started"
    ∷ text "review_required"
    ∷ text "maintainer_decision"
    ∷ text "revision_invalidated"
    ∷ text "manual_reconcile"
    ∷ text "technical_retry"
    ∷ text "attempt_expired"
    ∷ text "contributor_retry"
    ∷ []

abbrev pub private_artifact_kinds : List Text
private_artifact_kinds =
    text "learning_bundle_v1" ∷ text "practice_answer_v1" ∷ text "practice_feedback_v1" ∷ []

-- What the schemas trim.
unfoldable pub trim_webhook : WebhookIngest → WebhookIngest
trim_webhook w = record {
  delivery_id = w.delivery_id;
  action = w.action;
  installation = record {
    github_installation_id = w.installation.github_installation_id;
    account_id = w.installation.account_id;
    account_login = trim w.installation.account_login;
  };
  repository = record {
    github_repository_id = w.repository.github_repository_id;
    owner = trim w.repository.owner;
    name = trim w.repository.name;
    default_branch = trim w.repository.default_branch;
  };
  pull_request = w.pull_request;
}

unfoldable pub trim_refresh : RefreshIngest → RefreshIngest
trim_refresh r = record {
  installation_id = r.installation_id;
  repository_id = r.repository_id;
  owner = trim r.owner;
  repository_name = trim r.repository_name;
  pull_number = r.pull_number;
  expected_head_sha = r.expected_head_sha;
}

unfoldable pub trim_data : JobData → JobData
trim_data (webhook_ingest w) = webhook_ingest (trim_webhook w)
trim_data (refresh_ingest r) = refresh_ingest (trim_refresh r)
trim_data other_data = other_data

module _ (is_uuid : Text → Bool) where
  unfoldable pub is_webhook_ingest : WebhookIngest → Bool
  is_webhook_ingest w =
      is_uuid w.delivery_id
      && includes webhook_actions w.action
      && is_github_numeric_id w.installation.github_installation_id
      && is_github_numeric_id w.installation.account_id
      && is_bounded 100 w.installation.account_login
      && is_github_numeric_id w.repository.github_repository_id
      && is_bounded 100 w.repository.owner
      && is_bounded 100 w.repository.name
      && is_bounded 255 w.repository.default_branch
      && is_github_numeric_id w.pull_request.github_pull_request_id
      && leb 1 w.pull_request.number
      && is_github_numeric_id w.pull_request.author_id
      && includes (text "open" ∷ text "closed" ∷ []) w.pull_request.state
      && is_git_sha w.pull_request.head_sha
      && is_git_sha w.pull_request.base_sha

  unfoldable pub is_refresh_ingest : RefreshIngest → Bool
  is_refresh_ingest r =
      is_github_numeric_id r.installation_id
      && is_github_numeric_id r.repository_id
      && is_bounded 100 r.owner
      && is_bounded 100 r.repository_name
      && leb 1 r.pull_number
      && leb r.pull_number 2147483647
      && is_git_sha r.expected_head_sha

  unfoldable pub is_semantic_generation : SemanticGeneration → Bool
  is_semantic_generation s =
      is_uuid s.revision_id && is_uuid s.generation_context_id && is_git_sha s.expected_head_sha

  unfoldable pub is_job_data : JobData → Bool
  is_job_data (webhook_ingest w) = is_webhook_ingest w
  is_job_data (refresh_ingest r) = is_refresh_ingest r
  is_job_data (reconcile_check revision sha reason) =
      is_uuid revision && is_git_sha sha && includes reconcile_reasons reason
  is_job_data (prepare_revision revision sha) = is_uuid revision && is_git_sha sha
  is_job_data (expire_attempt attempt sha) = is_uuid attempt && is_git_sha sha
  is_job_data (generate_learning s) = is_semantic_generation s
  is_job_data (generate_practice_feedback s session question answer) =
      is_semantic_generation s && is_uuid session && is_uuid question && is_uuid answer
  is_job_data (generate_proof_questions s) = is_semantic_generation s
  is_job_data (expire_private revision artifact kind) =
      is_uuid revision && is_uuid artifact && includes private_artifact_kinds kind
  is_job_data (finalize_upload attempt session sha) =
      is_uuid attempt && is_uuid session && is_git_sha sha
  is_job_data (extract_transcript attempt recording sha) =
      is_uuid attempt && is_uuid recording && is_git_sha sha
  is_job_data (select_frames attempt recording transcript sha) =
      is_uuid attempt && is_uuid recording && is_uuid transcript && is_git_sha sha
  is_job_data (run_evaluation attempt transcript sha) =
      is_uuid attempt && is_uuid transcript && is_git_sha sha
  is_job_data (apply_policy attempt evaluation sha) =
      is_uuid attempt && is_uuid evaluation && is_git_sha sha
  is_job_data (delete_evidence deletion) = is_uuid deletion
  is_job_data (audit_retention audit) = is_uuid audit

  -- `parseJobPayload`, which gives nothing when the schema library throws.
  unfoldable pub parse_job_payload : JobName → JobPayload → Option JobPayload
  parse_job_payload name raw =
      let content = trim_data raw.content in
      if same_name (name_of content) name && is_envelope raw.envelope && is_job_data content
      then some (record { envelope = raw.envelope; content = content })
      else none
