-- ===== src/Domain/Transition/Replay.antt =====
-- Idempotency: sending an applied command again, against the attempt that it produced.
use understandproof.Base.{
  ◌≡◌, refl, ap, ◌∙◌, sym, Bool, true, false, some, Text, text_eq, ok, arith, find, find-append,
}
use understandproof.Domain.Attempt.{
  TransitionCommand, trim_command, trim_attempt, is_command, is_attempt,
}
use understandproof.Domain.Attempt.Schemas.{trim_command_idem, is_command-trim_command}
use understandproof.Domain.Transition.{
  Dependencies, TransitionResult, has_key, transition_attempt, new_receipt, next_attempt,
}
use understandproof.Domain.Transition.Applied.{applied, next_valid, next_trimmed}
use understandproof.Domain.Transition.Calls.{
  Applies, Applies-sound, Records, Replays, Replays-complete, KeyUnused-iff, KeyUnused,
}

-- The command as a client sends it again, with the attempt that it was given back.
abbrev resend : TransitionCommand → TransitionResult → TransitionCommand
resend raw r = record raw { attempt = r.attempt }

finds_new_receipt :
    (c : TransitionCommand) (deps : Dependencies)
    → KeyUnused c
    → find (has_key c.idempotency_key) (applied c deps).attempt.transition_receipts
      ≡ some (new_receipt c deps)
unfolding applied next_attempt new_receipt has_key
finds_new_receipt c deps unused =
    find-append (has_key c.idempotency_key) c.attempt.transition_receipts _
      ((KeyUnused-iff c).1 unused)
    ∙ ground arith

module _ (is_uuid : Text → Bool) (raw : TransitionCommand) (deps : Dependencies)
    (r : TransitionResult) (a : Applies is_uuid raw deps r) where
  trimmed_valid : is_command is_uuid (trim_command raw) ≡ true
  trimmed_valid = is_command-trim_command is_uuid raw ∙ a.valid

  attempt_trimmed : trim_attempt r.attempt ≡ r.attempt
  unfolding applied
  attempt_trimmed =
      let next =
        next_trimmed is_uuid (trim_command raw) deps r (trim_command_idem raw) trimmed_valid in
      rw a.applied.result next

  attempt_valid : is_attempt is_uuid r.attempt ≡ true
  unfolding applied
  attempt_valid = rw a.applied.result (
      next_valid is_uuid (trim_command raw) deps r (trim_command_idem raw) trimmed_valid
        a.applied.new_id)

  resent_trimmed : trim_command (resend raw r) ≡ resend (trim_command raw) r
  unfolding trim_command
  resent_trimmed = cc attempt_trimmed

  resent_valid : is_command is_uuid (resend raw r) ≡ true
  unfolding is_command
  resent_valid = ground (arith, a.valid, attempt_valid)

  resent_finds :
      find (has_key (resend (trim_command raw) r).idempotency_key) r.attempt.transition_receipts
      ≡ some r.receipt
  unfolding applied
  resent_finds = rw a.applied.result (finds_new_receipt (trim_command raw) deps a.unused)

  resent-Records : Records (resend (trim_command raw) r) r.receipt
  unfolding applied new_receipt next_attempt
  resent-Records =
      let e = a.applied.result in
      let current = a.applied.may.current in
      record {
        key = cc;
        attempt = cc;
        from = cc;
        to = cc;
        expected_head = cc;
        current_head = cc;
        actor = cc;
        role = cc;
      }

  resent-Replays : Replays is_uuid (resend raw r) (record r { replayed = true })
  resent-Replays = record {
    valid = resent_valid;
    first = rw resent_trimmed resent_finds;
    records = rw resent_trimmed resent-Records;
    unchanged = ap (λ (c : TransitionCommand). c.attempt) (sym resent_trimmed);
    again = refl;
  }

-- After a command was applied, sending it again with the returned attempt, at any later time and
-- under any other fresh id, changes nothing and returns the first call's receipt.
pub transition_attempt_idempotent :
    (is_uuid : Text → Bool) (raw : TransitionCommand) (deps later : Dependencies)
    (r : TransitionResult)
    → transition_attempt is_uuid raw deps ≡ ok r
    → r.replayed ≡ false
    → transition_attempt is_uuid (record raw { attempt = r.attempt }) later
      ≡ ok (record r { replayed = true })
transition_attempt_idempotent is_uuid raw deps later r e fresh =
    (Replays-complete is_uuid (resend raw r) later (record r { replayed = true })
      (resent-Replays is_uuid raw deps r (Applies-sound is_uuid raw deps r e fresh))).0
