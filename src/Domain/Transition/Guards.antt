-- ===== src/Domain/Transition/Guards.antt =====
-- What the guards of `transitionAttempt` let through, stated without the tests that decide it.
use understandproof.Base.{
  ℕ, ◌+◌, ◌≤◌, ◌<◌, ◌≡◌, ◌≢◌, ◌⊎◌, ◌↔◌, true, false, Text, ok, arith, Memᴰ, includes→Memᴰ,
  Memᴰ→includes, text_eq, ◌==◌, includes, leb,
}
use understandproof.Domain.Status.{
  AttemptStatus, active, uploading, passed, retry_required, expired, invalidated, ActorRole, author,
  maintainer, worker, system, can_transition_attempt, transition_authorization,
  is_terminal_attempt_status, scope_eq, role_eq,
}
use understandproof.Domain.Attempt.{Attempt, AuthorizedActor, TransitionCommand}
use understandproof.Domain.Transition.{
  Dependencies, is_foreign_author, assert_authorization, check_revision, check_expiration,
  check_guards, or_else, five_minutes_ms,
}

-- Who moves an attempt to a status: the author starts and uploads, a maintainer decides, and the
-- machine does the rest.
abbrev pub MayAct : ActorRole → AttemptStatus → Type 0
MayAct role active = role ≡ author
MayAct role uploading = role ≡ author
MayAct role passed = role ≡ maintainer
MayAct role retry_required = role ≡ maintainer
MayAct role _ = (role ≡ worker) ⊎ (role ≡ system)

pub record IsAuthorized (a : Attempt) (target : AttemptStatus) (actor : AuthorizedActor)
    (now max_age : ℕ) : Type 0 where
  pub same_repository : actor.authorization.repository_id ≡ a.repository_id
  pub checked_before : actor.authorization.checked_at ≤ now
  pub not_over : now < actor.authorization.expires_at
  pub recent : now ≤ actor.authorization.checked_at + max_age
  pub role_fits : MayAct actor.role target
  pub has_scope : Memᴰ (transition_authorization target).scope actor.authorization.scopes
  pub own_proof : actor.role ≡ author → actor.actor_id ≡ a.author_id

-- The target `invalidated` needs a new head, and every other target the head of the attempt.
abbrev pub RevisionFits : AttemptStatus → Text → Text → Type 0
RevisionFits invalidated current head = current ≢ head
RevisionFits _ current head = current ≡ head

-- The target `expired` needs an attempt that is over, `invalidated` takes any, and every other
-- target an attempt that is not over.
abbrev pub TimeFits : AttemptStatus → ℕ → ℕ → Type 0
TimeFits expired expires_at now = expires_at ≤ now
TimeFits invalidated expires_at now = Unit
TimeFits _ expires_at now = now < expires_at

pub record MayTransition (c : TransitionCommand) (deps : Dependencies) : Type 0 where
  pub is_open : is_terminal_attempt_status c.attempt.status ≡ false
  pub current : c.attempt.status ≡ c.expected_status
  pub allowed : can_transition_attempt c.attempt.status c.target_status ≡ true
  pub bound : c.expected_head_sha ≡ c.attempt.head_sha
  pub revision : RevisionFits c.target_status c.current_head_sha c.attempt.head_sha
  pub time : TimeFits c.target_status c.attempt.expires_at deps.now
  pub authorized :
      IsAuthorized c.attempt c.target_status c.actor deps.now
        (or_else deps.max_authorization_age_ms five_minutes_ms)

role_fits_iff :
    (role : ActorRole) (target : AttemptStatus)
    → (includes (transition_authorization target).roles role ≡ true) ↔ MayAct role target
unfolding transition_authorization
role_fits_iff role active = ground arith
role_fits_iff role _ = ground arith

check_revision_iff :
    (target : AttemptStatus) (current head : Text)
    → (check_revision target (current == head) ≡ ok tt) ↔ RevisionFits target current head
unfolding check_revision
check_revision_iff invalidated current head = ground arith
check_revision_iff _ current head = ground arith

check_expiration_iff :
    (target : AttemptStatus) (expires_at now : ℕ)
    → (check_expiration target (leb expires_at now) ≡ ok tt) ↔ TimeFits target expires_at now
unfolding check_expiration
check_expiration_iff expired expires_at now = ground arith
check_expiration_iff _ expires_at now = ground arith

assert_authorization_sound :
    (a : Attempt) (target : AttemptStatus) (actor : AuthorizedActor) (now max_age : ℕ)
    → assert_authorization a target actor now max_age ≡ ok tt
    → IsAuthorized a target actor now max_age
unfolding assert_authorization is_foreign_author
assert_authorization_sound a target actor now max_age h = record {
  same_repository = ground arith;
  checked_before = ground arith;
  not_over = ground arith;
  recent = ground arith;
  role_fits = ground (arith, role_fits_iff actor.role target);
  has_scope = includes→Memᴰ _ _ (ground arith);
  own_proof = ground arith;
}

assert_authorization_complete :
    (a : Attempt) (target : AttemptStatus) (actor : AuthorizedActor) (now max_age : ℕ)
    → IsAuthorized a target actor now max_age
    → assert_authorization a target actor now max_age ≡ ok tt
unfolding assert_authorization is_foreign_author
assert_authorization_complete a target actor now max_age h =
    ground (arith, (role_fits_iff actor.role target).1 h.role_fits, Memᴰ→includes h.has_scope)

abbrev max_age_of : Dependencies → ℕ
max_age_of deps = or_else deps.max_authorization_age_ms five_minutes_ms

check_guards_sound :
    (c : TransitionCommand) (deps : Dependencies)
    → check_guards c deps ≡ ok tt
    → MayTransition c deps
unfolding check_guards
check_guards_sound c deps h = record {
  is_open = ground arith;
  current = ground arith;
  allowed = ground arith;
  bound = ground arith;
  revision = (check_revision_iff c.target_status _ _).0 (ground arith);
  time = (check_expiration_iff c.target_status _ _).0 (ground arith);
  authorized =
      assert_authorization_sound c.attempt c.target_status c.actor deps.now (max_age_of deps)
        (ground arith);
}

check_guards_complete :
    (c : TransitionCommand) (deps : Dependencies)
    → MayTransition c deps
    → check_guards c deps ≡ ok tt
unfolding check_guards
check_guards_complete c deps m = ground (
  arith,
  (check_revision_iff c.target_status _ _).1 m.revision,
  (check_expiration_iff c.target_status _ _).1 m.time,
  assert_authorization_complete c.attempt c.target_status c.actor deps.now (max_age_of deps)
      m.authorized,
)

-- The guards let a command through exactly when the specification does.
pub check_guards_iff :
    (c : TransitionCommand) (deps : Dependencies)
    → (check_guards c deps ≡ ok tt) ↔ MayTransition c deps
check_guards_iff c deps = (check_guards_sound c deps, check_guards_complete c deps)
