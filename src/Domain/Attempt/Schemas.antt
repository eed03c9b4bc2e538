-- ===== src/Domain/Attempt/Schemas.antt =====
-- Parsing is idempotent: what a parser returns, it accepts and leaves alone.
use understandproof.Base.{◌≡◌, refl, Bool, List, [], ◌∷◌, map, every, Text, trim_idem}
use understandproof.Domain.Attempt.{
  Receipt, Attempt, TransitionCommand, trim_receipt, trim_attempt, trim_actor, trim_command,
  is_receipt, is_attempt, is_actor, is_command,
}

pub trim_receipt_idem : (r : Receipt) → trim_receipt (trim_receipt r) ≡ trim_receipt r
unfolding trim_receipt
trim_receipt_idem r = simp trim_idem

map-trim_receipt_idem :
    (rs : List Receipt) → map trim_receipt (map trim_receipt rs) ≡ map trim_receipt rs
map-trim_receipt_idem [] = refl
map-trim_receipt_idem (r ∷ rs) = cc (trim_receipt_idem r, map-trim_receipt_idem rs)

pub trim_attempt_idem : (a : Attempt) → trim_attempt (trim_attempt a) ≡ trim_attempt a
unfolding trim_attempt
trim_attempt_idem a = simp (trim_idem, map-trim_receipt_idem)

pub trim_command_idem : (c : TransitionCommand) → trim_command (trim_command c) ≡ trim_command c
unfolding trim_command trim_actor
trim_command_idem c = cc (trim_idem c.actor.actor_id, trim_attempt_idem c.attempt)

module _ (is_uuid : Text → Bool) where
  pub is_receipt-trim_receipt :
      (r : Receipt) → is_receipt is_uuid (trim_receipt r) ≡ is_receipt is_uuid r
  unfolding is_receipt trim_receipt
  is_receipt-trim_receipt r = simp trim_idem

  every-is_receipt-trim :
      (rs : List Receipt)
      → every (is_receipt is_uuid) (map trim_receipt rs) ≡ every (is_receipt is_uuid) rs
  every-is_receipt-trim [] = refl
  every-is_receipt-trim (r ∷ rs) = cc (is_receipt-trim_receipt r, every-is_receipt-trim rs)

  pub is_attempt-trim_attempt :
      (a : Attempt) → is_attempt is_uuid (trim_attempt a) ≡ is_attempt is_uuid a
  unfolding is_attempt trim_attempt
  is_attempt-trim_attempt a = simp (trim_idem, every-is_receipt-trim)

  pub is_command-trim_command :
      (c : TransitionCommand) → is_command is_uuid (trim_command c) ≡ is_command is_uuid c
  unfolding is_command trim_command is_actor trim_actor
  is_command-trim_command c = cc (trim_idem c.actor.actor_id, is_attempt-trim_attempt c.attempt)
