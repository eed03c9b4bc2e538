-- ===== src/Domain/Transition/Calls.antt =====
-- The results of `transitionAttempt`: a transition that is applied, or one that is replayed.
use understandproof.Base.{
  ◌≡◌, ◌↔◌, ◌≢◌, ◌∙◌, Bool, true, false, none, some, Text, text_eq, ok, arith, find, All,
  find-eq-none→All, All→find-eq-none, find_passes, All-map,
}
use understandproof.Domain.Status.{status_eq, role_eq}
use understandproof.Domain.Attempt.{Receipt, TransitionCommand, trim_command, is_command}
use understandproof.Domain.Attempt.Schemas.{trim_command_idem, is_command-trim_command}
use understandproof.Domain.Transition.{
  Dependencies, TransitionResult, has_key, matches, find_idempotent_replay, apply_transition,
  transition_attempt,
}
use understandproof.Domain.Transition.Applied.{IsApplied, applied, applied_sound, applied_complete}

abbrev pub KeyUnused : TransitionCommand → Type 0
KeyUnused c = All (λ r. r.idempotency_key ≢ c.idempotency_key) c.attempt.transition_receipts

pub KeyUnused-iff :
    (c : TransitionCommand)
    → (find (has_key c.idempotency_key) c.attempt.transition_receipts ≡ none) ↔ KeyUnused c
unfolding has_key
KeyUnused-iff c = (
  λ h. All-map (λ r e. ground arith) _ (find-eq-none→All (has_key c.idempotency_key) _ h),
  λ h. All→find-eq-none (has_key c.idempotency_key) _ (All-map (λ r e. ground arith) _ h),
)

-- A call that applies its command.
pub record Applies (is_uuid : Text → Bool) (raw : TransitionCommand) (deps : Dependencies)
    (r : TransitionResult) : Type 0 where
  pub valid : is_command is_uuid raw ≡ true
  pub unused : KeyUnused (trim_command raw)
  pub applied : IsApplied is_uuid (trim_command raw) deps r

-- The receipt is for the very transition that the command asks for.
pub record Records (c : TransitionCommand) (receipt : Receipt) : Type 0 where
  pub key : receipt.idempotency_key ≡ c.idempotency_key
  pub attempt : receipt.attempt_id ≡ c.attempt.id
  pub from : receipt.from ≡ c.expected_status
  pub to : receipt.to ≡ c.target_status
  pub expected_head : receipt.expected_head_sha ≡ c.expected_head_sha
  pub current_head : receipt.current_head_sha ≡ c.current_head_sha
  pub actor : receipt.actor_id ≡ c.actor.actor_id
  pub role : receipt.actor_role ≡ c.actor.role

matches-Records :
    (c : TransitionCommand) (r : Receipt)
    → has_key c.idempotency_key r ≡ true
    → (matches c r ≡ true) ↔ Records c r
unfolding matches has_key
matches-Records c r h = (λ e. ground arith, λ e. ground arith)

module _ (is_uuid : Text → Bool) (raw : TransitionCommand) (deps : Dependencies)
    (r : TransitionResult) where
  trimmed_valid : is_command is_uuid raw ≡ true → is_command is_uuid (trim_command raw) ≡ true
  trimmed_valid h = is_command-trim_command is_uuid raw ∙ h

  pub Applies-sound :
      transition_attempt is_uuid raw deps ≡ ok r → r.replayed ≡ false → Applies is_uuid raw deps r
  unfolding transition_attempt find_idempotent_replay
  Applies-sound e fresh =
      let valid : is_command is_uuid raw ≡ true = ground arith in
      record {
        valid = valid;
        unused = (KeyUnused-iff (trim_command raw)).0 (ground arith);
        applied =
            applied_sound is_uuid (trim_command raw) deps r (trim_command_idem raw)
              (trimmed_valid valid) (ground arith);
      }

  pub Applies-complete :
      Applies is_uuid raw deps r
      → (transition_attempt is_uuid raw deps ≡ ok r) × (r.replayed ≡ false)
  unfolding transition_attempt find_idempotent_replay applied
  Applies-complete a = (
    ground (
      arith,
      (KeyUnused-iff (trim_command raw)).1 a.unused,
      applied_complete is_uuid (trim_command raw) deps r (trim_command_idem raw)
          (trimmed_valid a.valid) a.applied,
    ),
    ground (arith, a.applied.result),
  )

  -- A call returns a result that is not a replay exactly when the command is valid, its key is
  -- unused, the guards of the specification hold and the required artifacts are there; the result
  -- is then the attempt with the new status and one more receipt.
  pub transition_attempt-Applies_iff :
      ((transition_attempt is_uuid raw deps ≡ ok r) × (r.replayed ≡ false))
      ↔ Applies is_uuid raw deps r
  transition_attempt-Applies_iff = (λ h. Applies-sound h.0 h.1, Applies-complete)

-- A call that replays the receipt of an earlier transition: the first one under the command's key.
pub record Replays (is_uuid : Text → Bool) (raw : TransitionCommand) (r : TransitionResult)
    : Type 0 where
  pub valid : is_command is_uuid raw ≡ true
  pub first :
      find
        (has_key (trim_command raw).idempotency_key)
        (trim_command raw).attempt.transition_receipts
      ≡ some r.receipt
  pub records : Records (trim_command raw) r.receipt
  pub unchanged : r.attempt ≡ (trim_command raw).attempt
  pub again : r.replayed ≡ true

module _ (is_uuid : Text → Bool) (raw : TransitionCommand) (deps : Dependencies)
    (r : TransitionResult) where
  pub Replays-sound :
      transition_attempt is_uuid raw deps ≡ ok r → r.replayed ≡ true → Replays is_uuid raw r
  unfolding transition_attempt find_idempotent_replay apply_transition
  Replays-sound e again =
      let c = trim_command raw in
      let first : find (has_key c.idempotency_key) c.attempt.transition_receipts ≡ some r.receipt =
        ground arith in
      let keyed =
        find_passes (has_key c.idempotency_key) c.attempt.transition_receipts r.receipt first in
      record {
        valid = ground arith;
        first = first;
        records = (matches-Records c r.receipt keyed).0 (ground arith);
        unchanged = ground arith;
        again = again;
      }

  pub Replays-complete :
      Replays is_uuid raw r → (transition_attempt is_uuid raw deps ≡ ok r) × (r.replayed ≡ true)
  unfolding transition_attempt find_idempotent_replay
  Replays-complete p =
      let c = trim_command raw in
      let keyed =
        find_passes (has_key c.idempotency_key) c.attempt.transition_receipts r.receipt p.first in
      (ground (arith, p, (matches-Records c r.receipt keyed).1 p.records), p.again)

  -- A call returns a replay exactly when the first receipt under the command's key records the very
  -- same transition; it then returns that receipt with the attempt that it was given.
  pub transition_attempt-Replays_iff :
      ((transition_attempt is_uuid raw deps ≡ ok r) × (r.replayed ≡ true)) ↔ Replays is_uuid raw r
  transition_attempt-Replays_iff = (λ h. Replays-sound h.0 h.1, Replays-complete)
