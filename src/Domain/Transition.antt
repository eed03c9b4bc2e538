-- ===== src/Domain/Transition.antt =====
-- packages/domain/src/attempt.ts: `createAttempt` and `transitionAttempt`, with their guards in the
-- source's order. `now` is what `clock.now()` returns and `next_id` what `ids.nextId()` returns:
-- each is called once on the path that uses it.
pub mod Guards
pub mod Applied
pub mod Calls
pub mod Replay
pub mod History
pub mod Creation
mod Tests
use understandproof.Base.{
  ℕ, ◌-◌, ◌*◌, Bool, true, false, not, ◌&&◌, Option, none, some, List, [], ◌∷◌, ◌++◌, Text, text_eq,
  Outcome, ok, throw, ◌>>=◌, ◌>>◌, throw_if, if◌then◌else◌, leb, ltb, ◌==◌, find, includes, any, Eq,
}
use understandproof.Domain.Status.{
  AttemptStatus, status_eq, active, expired, invalidated, preparing, ArtifactKey, role_eq, author,
  scope_eq, is_terminal_attempt_status, can_transition_attempt, required_artifacts,
  transition_authorization,
}
use understandproof.Domain.Attempt.{
  TransitionErrorCode, idempotency_conflict, terminal_status, invalid_transition, stale_status,
  expected_sha_mismatch, revision_invalidated, invalidation_requires_new_sha, attempt_expired,
  expiration_not_due, authorization_repository_mismatch, authorization_not_yet_valid,
  authorization_expired, authorization_stale, actor_not_allowed, author_mismatch, missing_scope,
  missing_artifact, Failure, schema_error, transition_error, Slot, absent, undefined, set_to,
  ArtifactRefs, no_artifacts, AuthorizedActor, Receipt, Attempt, CreateAttemptInput,
  TransitionCommand, parsed, trim_receipt, trim_attempt, trim_command, trim_input, is_artifact_refs,
  is_receipt, is_attempt, is_create_input, is_command,
}

abbrev pub five_minutes_ms : ℕ
five_minutes_ms = 5 * 60 * 1000

pub record Dependencies : Type 0 where
  pub now : ℕ
  pub next_id : Text
  pub max_authorization_age_ms : Option ℕ

abbrev pub require : Bool → TransitionErrorCode → Outcome Failure (Unit {0})
require test code = throw_if (not test) (transition_error code)

abbrev pub reject_if : Bool → TransitionErrorCode → Outcome Failure (Unit {0})
reject_if test code = throw_if test (transition_error code)

-- The last guard speaks of an author alone.
unfoldable pub is_foreign_author : Attempt → AuthorizedActor → Bool
is_foreign_author attempt actor = actor.role == author && not (actor.actor_id == attempt.author_id)

unfoldable pub assert_authorization :
    Attempt → AttemptStatus → AuthorizedActor → ℕ → ℕ → Outcome Failure (Unit {0})
assert_authorization attempt target actor now max_age = do
  require (actor.authorization.repository_id == attempt.repository_id)
      authorization_repository_mismatch
  reject_if (ltb now actor.authorization.checked_at) authorization_not_yet_valid
  reject_if (leb actor.authorization.expires_at now) authorization_expired
  reject_if (ltb max_age (now - actor.authorization.checked_at)) authorization_stale
  require (includes (transition_authorization target).roles actor.role) actor_not_allowed
  require (includes actor.authorization.scopes (transition_authorization target).scope)
      missing_scope
  reject_if (is_foreign_author attempt actor) author_mismatch

abbrev pub is_missing : Slot → Bool
is_missing absent = true
is_missing undefined = true
is_missing (set_to _) = false

-- Some artifact that the target status requires is `undefined`.
unfoldable pub lacks_artifact : AttemptStatus → ArtifactRefs → Bool
lacks_artifact target artifacts =
    any (λ key. is_missing (artifacts key)) (required_artifacts target)

unfoldable pub assert_artifacts : AttemptStatus → ArtifactRefs → Outcome Failure (Unit {0})
assert_artifacts target artifacts = reject_if (lacks_artifact target artifacts) missing_artifact

-- `{...old, ...new}`: a key of the new object overrides, also with the value `undefined`.
abbrev pub override : Slot → Slot → Slot
override old absent = old
override old new = new

unfoldable pub spread : ArtifactRefs → ArtifactRefs → ArtifactRefs
spread old new key = override (old key) (new key)

unfoldable pub has_key : Text → Receipt → Bool
has_key key receipt = receipt.idempotency_key == key

-- The receipt records the same transition as the command asks for.
unfoldable pub matches : TransitionCommand → Receipt → Bool
matches c receipt =
    receipt.attempt_id == c.attempt.id
    && receipt.from == c.expected_status
    && receipt.to == c.target_status
    && receipt.expected_head_sha == c.expected_head_sha
    && receipt.current_head_sha == c.current_head_sha
    && receipt.actor_id == c.actor.actor_id
    && receipt.actor_role == c.actor.role

replay_of : TransitionCommand → Option Receipt → Outcome Failure (Option Receipt)
replay_of c none = ok none
replay_of c (some receipt) =
    if matches c receipt then ok (some receipt) else throw (transition_error idempotency_conflict)

unfoldable pub find_idempotent_replay : TransitionCommand → Outcome Failure (Option Receipt)
unfolding replay_of
find_idempotent_replay c =
    replay_of c (find (has_key c.idempotency_key) c.attempt.transition_receipts)

unfoldable pub check_revision : AttemptStatus → Bool → Outcome Failure (Unit {0})
check_revision target current_sha_matches =
    if target == invalidated
    then reject_if current_sha_matches invalidation_requires_new_sha
    else require current_sha_matches revision_invalidated

unfoldable pub check_expiration : AttemptStatus → Bool → Outcome Failure (Unit {0})
check_expiration target has_expired =
    if target == expired
    then require has_expired expiration_not_due
    else reject_if (has_expired && not (target == invalidated)) attempt_expired

abbrev or_else {ℓ} : {A : Type ℓ} → Option A → A → A
or_else none d = d
or_else (some a) d = a

-- The guards between the search for a replay and the check of the artifacts.
unfoldable pub check_guards : TransitionCommand → Dependencies → Outcome Failure (Unit {0})
check_guards c deps = do
  reject_if (is_terminal_attempt_status c.attempt.status) terminal_status
  require (c.attempt.status == c.expected_status) stale_status
  require (can_transition_attempt c.attempt.status c.target_status) invalid_transition
  require (c.expected_head_sha == c.attempt.head_sha) expected_sha_mismatch
  check_revision c.target_status (c.current_head_sha == c.attempt.head_sha)
  check_expiration c.target_status (leb c.attempt.expires_at deps.now)
  assert_authorization c.attempt c.target_status c.actor deps.now
      (or_else deps.max_authorization_age_ms five_minutes_ms)

unfoldable pub new_receipt : TransitionCommand → Dependencies → Receipt
new_receipt c deps = record {
  id = deps.next_id;
  attempt_id = c.attempt.id;
  idempotency_key = c.idempotency_key;
  from = c.attempt.status;
  to = c.target_status;
  expected_head_sha = c.expected_head_sha;
  current_head_sha = c.current_head_sha;
  actor_id = c.actor.actor_id;
  actor_role = c.actor.role;
  occurred_at = deps.now;
}

abbrev pub started : AttemptStatus → Option ℕ → ℕ → Option ℕ
started target none now = if target == active then some now else none
started target (some t) now = some t

unfoldable pub next_attempt : TransitionCommand → Dependencies → ArtifactRefs → Receipt → Attempt
next_attempt c deps artifacts receipt = record c.attempt {
  status = c.target_status;
  updated_at = deps.now;
  artifacts = artifacts;
  transition_receipts = c.attempt.transition_receipts ++ receipt ∷ [];
  started_at = started c.target_status c.attempt.started_at deps.now;
  completed_at =
      if is_terminal_attempt_status c.target_status then some deps.now else c.attempt.completed_at;
  invalidated_at =
      if c.target_status == invalidated then some deps.now else c.attempt.invalidated_at;
}

pub record TransitionResult : Type 0 where
  pub attempt : Attempt
  pub receipt : Receipt
  pub replayed : Bool

unfoldable pub fresh_attempt : CreateAttemptInput → ℕ → Text → Attempt
fresh_attempt input now next_id = record {
  id = next_id;
  repository_id = input.repository_id;
  revision_id = input.revision_id;
  proof_plan_id = input.proof_plan_id;
  author_id = input.author_id;
  head_sha = input.head_sha;
  status = preparing;
  expires_at = input.expires_at;
  created_at = now;
  updated_at = now;
  started_at = none;
  completed_at = none;
  invalidated_at = none;
  artifacts = no_artifacts;
  transition_receipts = [];
}

module _ (is_uuid : Text → Bool) where
  unfoldable pub create_attempt : CreateAttemptInput → ℕ → Text → Outcome Failure Attempt
  create_attempt raw now next_id = do
    input ← parsed (is_create_input is_uuid raw) (trim_input raw)
    reject_if (leb input.expires_at now) attempt_expired
    id ← parsed (is_uuid next_id) next_id
    parsed (is_attempt is_uuid (fresh_attempt input now id))
        (trim_attempt (fresh_attempt input now id))

  -- What follows when no earlier receipt has the command's key.
  unfoldable pub apply_transition :
      TransitionCommand → Dependencies → Outcome Failure TransitionResult
  apply_transition c deps = do
    check_guards c deps
    artifacts ←
        parsed (is_artifact_refs is_uuid (spread c.attempt.artifacts c.artifacts))
          (spread c.attempt.artifacts c.artifacts)
    assert_artifacts c.target_status artifacts
    receipt ← parsed (is_receipt is_uuid (new_receipt c deps)) (trim_receipt (new_receipt c deps))
    next ←
        parsed (is_attempt is_uuid (next_attempt c deps artifacts receipt))
          (trim_attempt (next_attempt c deps artifacts receipt))
    ok (record { attempt = next; receipt = receipt; replayed = false })

  finish : TransitionCommand → Dependencies → Option Receipt → Outcome Failure TransitionResult
  finish c deps none = apply_transition c deps
  finish c deps (some receipt) =
      ok (record { attempt = c.attempt; receipt = receipt; replayed = true })

  unfoldable pub transition_attempt :
      TransitionCommand → Dependencies → Outcome Failure TransitionResult
  unfolding finish
  transition_attempt raw deps = do
    command ← parsed (is_command is_uuid raw) (trim_command raw)
    replay ← find_idempotent_replay command
    finish command deps replay
