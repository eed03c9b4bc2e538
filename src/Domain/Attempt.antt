-- ===== src/Domain/Attempt.antt =====
-- packages/domain/src/attempt.ts: the records of an attempt, and the schemas that parse them.
-- A time is its number of milliseconds since 1970. `is_uuid` is the UUID test of the validation
-- library. A parser returns the value with its identifiers trimmed, or throws.
pub mod Schemas
use understandproof.Base.{
  ℕ, Bool, true, false, ◌&&◌, not, List, [], ◌∷◌, map, Option, none, some, Text, trim, every, any,
  Outcome, ok, throw, if◌then◌else◌, leb, length, ◌≡◌,
}
use understandproof.Domain.Primitives.{is_git_sha, is_identifier, is_idempotency_key}
use understandproof.Domain.Status.{
  AttemptStatus, ArtifactKey, ActorRole, AuthorizationScope, handoff_token_id, mobile_session_id,
  upload_session_id, recording_manifest_id, recording_object_id, wrapped_key_ref, transcript_id,
  evaluation_id, review_decision_id, technical_event_id,
}

pub data TransitionErrorCode : Type 0 where
  idempotency_conflict terminal_status invalid_transition stale_status : TransitionErrorCode
  expected_sha_mismatch revision_invalidated invalidation_requires_new_sha : TransitionErrorCode
  attempt_expired expiration_not_due authorization_repository_mismatch : TransitionErrorCode
  authorization_not_yet_valid authorization_expired authorization_stale : TransitionErrorCode
  actor_not_allowed author_mismatch missing_scope missing_artifact : TransitionErrorCode

-- What a call throws: a schema's error, or an `AttemptTransitionError` with its code.
pub data Failure : Type 0 where
  schema_error : Failure
  transition_error : TransitionErrorCode → Failure

-- One optional key of an object: left out, present with the value `undefined`, or set.
pub data Slot : Type 0 where
  absent undefined : Slot
  set_to : Text → Slot

-- `AttemptArtifactRefs`: a slot for each of its keys.
abbrev pub ArtifactRefs : Type 0
ArtifactRefs = ArtifactKey → Slot

abbrev pub no_artifacts : ArtifactRefs
no_artifacts key = absent

pub record Authorization : Type 0 where
  pub authorized : Bool
  pub repository_id : Text
  pub scopes : List AuthorizationScope
  pub checked_at : ℕ
  pub expires_at : ℕ

pub record AuthorizedActor : Type 0 where
  pub actor_id : Text
  pub role : ActorRole
  pub authorization : Authorization

pub record Receipt : Type 0 where
  pub id : Text
  pub attempt_id : Text
  pub idempotency_key : Text
  pub from : AttemptStatus
  pub to : AttemptStatus
  pub expected_head_sha : Text
  pub current_head_sha : Text
  pub actor_id : Text
  pub actor_role : ActorRole
  pub occurred_at : ℕ

pub record Attempt : Type 0 where
  pub id : Text
  pub repository_id : Text
  pub revision_id : Text
  pub proof_plan_id : Text
  pub author_id : Text
  pub head_sha : Text
  pub status : AttemptStatus
  pub expires_at : ℕ
  pub created_at : ℕ
  pub updated_at : ℕ
  pub started_at : Option ℕ
  pub completed_at : Option ℕ
  pub invalidated_at : Option ℕ
  pub artifacts : ArtifactRefs
  pub transition_receipts : List Receipt

pub record CreateAttemptInput : Type 0 where
  pub repository_id : Text
  pub revision_id : Text
  pub proof_plan_id : Text
  pub author_id : Text
  pub head_sha : Text
  pub expires_at : ℕ

pub record TransitionCommand : Type 0 where
  pub attempt : Attempt
  pub expected_status : AttemptStatus
  pub target_status : AttemptStatus
  pub expected_head_sha : Text
  pub current_head_sha : Text
  pub actor : AuthorizedActor
  pub artifacts : ArtifactRefs
  pub idempotency_key : Text

abbrev pub artifact_keys : List ArtifactKey
artifact_keys =
    handoff_token_id ∷ mobile_session_id ∷ upload_session_id ∷ recording_manifest_id
    ∷ recording_object_id ∷ wrapped_key_ref ∷ transcript_id ∷ evaluation_id ∷ review_decision_id
    ∷ technical_event_id ∷ []

-- A schema's verdict on a value, and the value that the parser returns.
abbrev pub parsed {ℓ} : {A : Type ℓ} → Bool → A → Outcome Failure A
parsed valid value = if valid then ok value else throw schema_error

unfoldable pub trim_receipt : Receipt → Receipt
trim_receipt r = record r { actor_id = trim r.actor_id }

unfoldable pub trim_attempt : Attempt → Attempt
trim_attempt a = record a {
  author_id = trim a.author_id;
  transition_receipts = map trim_receipt a.transition_receipts;
}

unfoldable pub trim_input : CreateAttemptInput → CreateAttemptInput
trim_input i = record i { author_id = trim i.author_id }

unfoldable pub trim_actor : AuthorizedActor → AuthorizedActor
trim_actor a = record a { actor_id = trim a.actor_id }

unfoldable pub trim_command : TransitionCommand → TransitionCommand
trim_command c = record c { attempt = trim_attempt c.attempt; actor = trim_actor c.actor }

module _ (is_uuid : Text → Bool) where
  abbrev pub is_slot_valid : Slot → Bool
  is_slot_valid absent = true
  is_slot_valid undefined = true
  is_slot_valid (set_to value) = is_uuid value

  unfoldable pub is_artifact_refs : ArtifactRefs → Bool
  is_artifact_refs refs = every (λ key. is_slot_valid (refs key)) artifact_keys

  unfoldable pub is_actor : AuthorizedActor → Bool
  is_actor a =
      is_identifier (trim a.actor_id)
      && a.authorization.authorized
      && is_uuid a.authorization.repository_id
      && leb 1 (length a.authorization.scopes)

  unfoldable pub is_receipt : Receipt → Bool
  is_receipt r =
      is_uuid r.id
      && is_uuid r.attempt_id
      && is_idempotency_key r.idempotency_key
      && is_git_sha r.expected_head_sha
      && is_git_sha r.current_head_sha
      && is_identifier (trim r.actor_id)

  unfoldable pub is_attempt : Attempt → Bool
  is_attempt a =
      is_uuid a.id
      && is_uuid a.repository_id
      && is_uuid a.revision_id
      && is_uuid a.proof_plan_id
      && is_identifier (trim a.author_id)
      && is_git_sha a.head_sha
      && is_artifact_refs a.artifacts
      && every is_receipt a.transition_receipts

  unfoldable pub is_create_input : CreateAttemptInput → Bool
  is_create_input i =
      is_uuid i.repository_id
      && is_uuid i.revision_id
      && is_uuid i.proof_plan_id
      && is_identifier (trim i.author_id)
      && is_git_sha i.head_sha

  unfoldable pub is_command : TransitionCommand → Bool
  is_command c =
      is_attempt c.attempt
      && is_git_sha c.expected_head_sha
      && is_git_sha c.current_head_sha
      && is_actor c.actor
      && is_artifact_refs c.artifacts
      && is_idempotency_key c.idempotency_key
