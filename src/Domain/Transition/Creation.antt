-- ===== src/Domain/Transition/Creation.antt =====
-- When `createAttempt` makes an attempt, and which.
use understandproof.Base.{ℕ, ◌<◌, ◌≡◌, Bool, true, Text}
use understandproof.Domain.Attempt.{Attempt, CreateAttemptInput, trim_input, is_create_input}
use understandproof.Domain.Transition.{fresh_attempt}

-- A creation that goes through, and the attempt that it makes.
pub record Creates (is_uuid : Text → Bool) (input : CreateAttemptInput) (now : ℕ) (id : Text)
    (a : Attempt) : Type 0 where
  pub valid : is_create_input is_uuid input ≡ true
  pub in_future : now < input.expires_at
  pub new_id : is_uuid id ≡ true
  pub made : a ≡ fresh_attempt (trim_input input) now id
