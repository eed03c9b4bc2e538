-- ===== src/Policy.antt =====
-- packages/policy/src/index.ts: the repository policy, the limits that it leaves, the deadline for
-- deleting evidence, and what a provider's evaluation is allowed to do.
pub mod Laws
mod Tests
use understandproof.Base.{
  ℕ, ◌+◌, ◌*◌, min, Bool, true, false, not, ◌&&◌, ◌||◌, List, [], ◌∷◌, none, some, Text, text_eq,
  text, Number, nat, is_int_between, nat_value, max_safe_integer, Date, new_date, Outcome, ok,
  throw, ◌>>=◌, ◌>>◌, throw_if, if◌then◌else◌, leb, ltb, nat_eqb, length, every, includes, ◌==◌,
}
use understandproof.Domain.Primitives.{is_git_sha}
use understandproof.Domain.Status.{AttemptStatus}

pub data PolicyFailure : Type 0 where
  schema_error invalid_protocol_limits invalid_retention head_sha_mismatch : PolicyFailure

pub record ProofPolicy : Type 0 where
  pub minimum_questions : Number
  pub maximum_questions : Number
  pub maximum_duration_seconds : Number
  pub maximum_upload_bytes : Number

pub record EvidencePolicy : Type 0 where
  pub retention_hours : Number
  pub delete_after_maintainer_pass : Bool

pub record RepositoryPolicy : Type 0 where
  pub schema_version : Text
  pub decision_mode : Text
  pub proof : ProofPolicy
  pub evidence : EvidencePolicy

unfoldable pub is_repository_policy : RepositoryPolicy → Bool
is_repository_policy p =
    p.schema_version == text "1"
    && p.decision_mode == text "maintainer_review"
    && is_int_between 1 5 p.proof.minimum_questions
    && is_int_between 1 5 p.proof.maximum_questions
    && is_int_between 30 (30 * 60) p.proof.maximum_duration_seconds
    && is_int_between 1 2_000_000_000 p.proof.maximum_upload_bytes
    && is_int_between 1 24 p.evidence.retention_hours
    && leb (nat_value p.proof.minimum_questions) (nat_value p.proof.maximum_questions)

pub record RecordingProtocolLimits : Type 0 where
  pub maximum_duration_ms : Number
  pub maximum_upload_bytes : Number

pub record EffectiveRecordingLimits : Type 0 where
  pub maximum_duration_ms : ℕ
  pub maximum_upload_bytes : ℕ
  pub retention_hours : ℕ
  pub delete_after_maintainer_pass : Bool

-- `Number.isSafeInteger(n) && n >= 1`
unfoldable pub is_positive_safe : Number → Bool
is_positive_safe n = is_int_between 1 max_safe_integer n

unfoldable pub resolve_effective_recording_limits :
    RepositoryPolicy → RecordingProtocolLimits → Outcome PolicyFailure EffectiveRecordingLimits
resolve_effective_recording_limits policy protocol = do
  throw_if (not (is_repository_policy policy)) schema_error
  throw_if
      (not (is_positive_safe protocol.maximum_duration_ms)
        || not (is_positive_safe protocol.maximum_upload_bytes))
      invalid_protocol_limits
  ok (record {
    maximum_duration_ms =
        min (nat_value protocol.maximum_duration_ms)
          (nat_value policy.proof.maximum_duration_seconds * 1000);
    maximum_upload_bytes =
        min (nat_value protocol.maximum_upload_bytes) (nat_value policy.proof.maximum_upload_bytes);
    retention_hours = nat_value policy.evidence.retention_hours;
    delete_after_maintainer_pass = policy.evidence.delete_after_maintainer_pass;
  })

unfoldable pub calculate_evidence_delete_after : Date → Number → Outcome PolicyFailure Date
calculate_evidence_delete_after none hours = throw invalid_retention
calculate_evidence_delete_after (some accepted_at) hours =
    if is_int_between 1 24 hours
    then ok (new_date (accepted_at + nat_value hours * 60 * 60_000))
    else throw invalid_retention

unfoldable pub default_repository_policy : RepositoryPolicy
default_repository_policy = record {
  schema_version = text "1";
  decision_mode = text "maintainer_review";
  proof = record {
    minimum_questions = nat 1;
    maximum_questions = nat 5;
    maximum_duration_seconds = nat (10 * 60);
    maximum_upload_bytes = nat 500_000_000;
  };
  evidence = record { retention_hours = nat 24; delete_after_maintainer_pass = true };
}

pub data ProviderRecommendation : Type 0 where
  pass review_required retry : ProviderRecommendation

pub record ApplyPolicyInput : Type 0 where
  pub attempt_id : Text
  pub revision_id : Text
  pub evaluation_id : Text
  pub expected_head_sha : Text
  pub current_head_sha : Text
  pub recommendation : ProviderRecommendation
  pub evaluated_question_ids : List Text

-- `new Set(ids)`: each value once, in the order of its first occurrence (read from the end here:
-- only the size is used).
unfoldable pub set_of : List Text → List Text
set_of [] = []
set_of (x ∷ xs) = let rest = set_of xs in if includes rest x then rest else x ∷ rest

-- Whether and how a check is changed; there is one way only.
pub data CheckMutation : Type 0 where
  no_mutation : CheckMutation

pub record MaintainerReviewDecision : Type 0 where
  pub attempt_status : AttemptStatus
  pub check_mutation : CheckMutation
  pub attempt_id : Text
  pub revision_id : Text
  pub evaluation_id : Text
  pub head_sha : Text
  pub provider_recommendation : ProviderRecommendation

module _ (is_uuid : Text → Bool) where
  unfoldable pub is_apply_policy_input : ApplyPolicyInput → Bool
  is_apply_policy_input i =
      is_uuid i.attempt_id
      && is_uuid i.revision_id
      && is_uuid i.evaluation_id
      && is_git_sha i.expected_head_sha
      && is_git_sha i.current_head_sha
      && leb 1 (length i.evaluated_question_ids)
      && every is_uuid i.evaluated_question_ids
      && nat_eqb (length (set_of i.evaluated_question_ids)) (length i.evaluated_question_ids)

  unfoldable pub apply_repository_policy :
      RepositoryPolicy → ApplyPolicyInput → Outcome PolicyFailure MaintainerReviewDecision
  apply_repository_policy policy input = do
    throw_if (not (is_repository_policy policy)) schema_error
    throw_if (not (is_apply_policy_input input)) schema_error
    throw_if (not (input.expected_head_sha == input.current_head_sha)) head_sha_mismatch
    ok (record {
      attempt_status = AttemptStatus.review_required;
      check_mutation = no_mutation;
      attempt_id = input.attempt_id;
      revision_id = input.revision_id;
      evaluation_id = input.evaluation_id;
      head_sha = input.current_head_sha;
      provider_recommendation = input.recommendation;
    })
