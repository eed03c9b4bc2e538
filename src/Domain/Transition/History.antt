-- ===== src/Domain/Transition/History.antt =====
-- What the receipts of an attempt say about its life, for every attempt that `createAttempt` and
-- calls of `transitionAttempt` can produce.
pub mod Pipeline
use understandproof.Base.{
  ℕ, ◌≡◌, ◌≢◌, ◌⊎◌, inl, inr, refl, ap, ◌∙◌, sym, Bool, true, false, List, [], ◌∷◌, ◌++◌, Option,
  none, some, Text, text_eq, Outcome, ok, arith, All, All-append, Bool-cases, subst,
}
use understandproof.Domain.Status.{
  AttemptStatus, status_eq, preparing, ready, active, uploading, processing, review_required,
  passed, retry_required, technical_retry, expired, invalidated, ActorRole, author,
  is_terminal_attempt_status, can_transition_attempt,
}
use understandproof.Domain.Attempt.{
  Attempt, Receipt, CreateAttemptInput, TransitionCommand, trim_attempt, trim_command, trim_input,
}
use understandproof.Domain.Attempt.Schemas.{
  trim_attempt_idem, trim_command_idem, is_command-trim_command,
}
use understandproof.Domain.Transition.{
  Dependencies, TransitionResult, create_attempt, fresh_attempt, transition_attempt, next_attempt,
  new_receipt, spread, started,
}
use understandproof.Domain.Transition.Guards.{MayAct, MayTransition}
use understandproof.Domain.Transition.Applied.{applied, next_trimmed, IsApplied}
use understandproof.Domain.Transition.Calls.{
  Applies, Applies-sound, Replays, Replays-sound, KeyUnused,
}

-- A receipt of a legitimate step of the attempt out of the status `s`.
pub record IsStep (id author_id head : Text) (s : AttemptStatus) (r : Receipt) : Type 0 where
  pub of_attempt : r.attempt_id ≡ id
  pub starts : r.from ≡ s
  pub allowed : can_transition_attempt s r.to ≡ true
  pub role_fits : MayAct r.actor_role r.to
  pub own_proof : r.actor_role ≡ author → r.actor_id ≡ author_id
  pub bound : r.expected_head_sha ≡ head

-- The receipts lead from the status `s` to the status `t`, each starting where the last one ended.
abbrev pub Leads :
    (id author_id head : Text) → AttemptStatus → List Receipt → AttemptStatus → Type 0
Leads id author_id head s [] t = s ≡ t
Leads id author_id head s (r ∷ rs) t =
    IsStep id author_id head s r × Leads id author_id head r.to rs t

abbrev pub DistinctKeys : List Receipt → Type 0
DistinctKeys [] = Unit
DistinctKeys (r ∷ rs) = All (λ x. x.idempotency_key ≢ r.idempotency_key) rs × DistinctKeys rs

-- When the proof was started, as far as the status tells.
abbrev pub StartFits : AttemptStatus → Option ℕ → Type 0
StartFits preparing started = started ≡ none
StartFits ready started = started ≡ none
StartFits technical_retry started = Unit
StartFits expired started = Unit
StartFits invalidated started = Unit
StartFits _ started = started ≢ none

pub record IsConsistent (a : Attempt) : Type 0 where
  pub trimmed : trim_attempt a ≡ a
  pub chain : Leads a.id a.author_id a.head_sha preparing a.transition_receipts a.status
  pub keys : DistinctKeys a.transition_receipts
  pub completed : is_terminal_attempt_status a.status ≡ true → a.completed_at ≡ some a.updated_at
  pub unfinished : is_terminal_attempt_status a.status ≡ false → a.completed_at ≡ none
  pub invalid : a.status ≡ invalidated → a.invalidated_at ≡ some a.updated_at
  pub valid : a.status ≢ invalidated → a.invalidated_at ≡ none
  pub start : StartFits a.status a.started_at

Leads-snoc :
    (id author_id head : Text) (s t : AttemptStatus) (rs : List Receipt) (r : Receipt)
    → Leads id author_id head s rs t
    → IsStep id author_id head t r
    → Leads id author_id head s (rs ++ r ∷ []) r.to
Leads-snoc id author_id head s t [] r e h = (rw e h, refl)
Leads-snoc id author_id head s t (x ∷ rs) r e h =
    (e.0, Leads-snoc id author_id head x.to t rs r e.1 h)

DistinctKeys-snoc :
    (rs : List Receipt) (r : Receipt)
    → DistinctKeys rs
    → All (λ x. x.idempotency_key ≢ r.idempotency_key) rs
    → DistinctKeys (rs ++ r ∷ [])
DistinctKeys-snoc [] r d u = (tt, tt)
DistinctKeys-snoc (x ∷ rs) r d u =
    (All-append _ rs (r ∷ []) d.0 ((λ e. u.0 (sym e)), tt), DistinctKeys-snoc rs r d.1 u.1)

start_kept :
    (s t : AttemptStatus) (at : Option ℕ) (now : ℕ)
    → can_transition_attempt s t ≡ true
    → StartFits s at
    → StartFits t (started t at now)
unfolding can_transition_attempt
start_kept preparing t at now h fits = ground arith
start_kept _ t at now h fits = ground arith

open-ne-invalidated : (s : AttemptStatus) → is_terminal_attempt_status s ≡ false → s ≢ invalidated
unfolding is_terminal_attempt_status
open-ne-invalidated s h = ground arith

new_receipt-IsStep :
    (c : TransitionCommand) (deps : Dependencies)
    → MayTransition c deps
    → IsStep c.attempt.id c.attempt.author_id c.attempt.head_sha c.attempt.status
        (new_receipt c deps)
unfolding new_receipt
new_receipt-IsStep c deps m = record {
  of_attempt = refl;
  starts = refl;
  allowed = m.allowed;
  role_fits = m.authorized.role_fits;
  own_proof = m.authorized.own_proof;
  bound = m.bound;
}

-- A consistent attempt stays so when a command is applied to it.
next_attempt-IsConsistent :
    (c : TransitionCommand) (deps : Dependencies)
    → trim_command c ≡ c
    → KeyUnused c
    → MayTransition c deps
    → trim_attempt (applied c deps).attempt ≡ (applied c deps).attempt
    → IsConsistent c.attempt
    → IsConsistent (applied c deps).attempt
unfolding applied next_attempt new_receipt
next_attempt-IsConsistent c deps t unused m trimmed k = record {
  trimmed = trimmed;
  chain =
      Leads-snoc _ _ _ preparing c.attempt.status _ (new_receipt c deps) k.chain
        (new_receipt-IsStep c deps m);
  keys = DistinctKeys-snoc _ (new_receipt c deps) k.keys unused;
  completed = ground (arith, m, k);
  unfinished = ground (arith, m, k);
  invalid = ground arith;
  valid = ground (arith, k.valid (open-ne-invalidated c.attempt.status m.is_open));
  start = start_kept c.attempt.status c.target_status _ deps.now m.allowed k.start;
}

fresh_attempt-IsConsistent :
    (input : CreateAttemptInput) (now : ℕ) (id : Text)
    → IsConsistent (trim_attempt (fresh_attempt input now id))
unfolding fresh_attempt trim_attempt is_terminal_attempt_status
fresh_attempt-IsConsistent input now id = record {
  trimmed = trim_attempt_idem (fresh_attempt input now id);
  chain = refl;
  keys = tt;
  completed = ground arith;
  unfinished = ground arith;
  invalid = ground arith;
  valid = ground arith;
  start = refl;
}

module _ (is_uuid : Text → Bool) where
  -- The attempts that the two functions can produce, whatever the clock and the ids are.
  pub data Reachable : Attempt → Type 0 where
    created :
        (input : CreateAttemptInput) (now : ℕ) (id : Text) {a : Attempt}
        → create_attempt is_uuid input now id ≡ ok a
        → Reachable a
    moved :
        (raw : TransitionCommand) (deps : Dependencies) (r : TransitionResult) {a : Attempt}
        → Reachable raw.attempt
        → transition_attempt is_uuid raw deps ≡ ok r
        → a ≡ r.attempt
        → Reachable a

  create_attempt-IsConsistent :
      (input : CreateAttemptInput) (now : ℕ) (id : Text) (a : Attempt)
      → create_attempt is_uuid input now id ≡ ok a
      → IsConsistent a
  unfolding create_attempt
  create_attempt-IsConsistent input now id a e =
      let same : trim_attempt (fresh_attempt (trim_input input) now id) ≡ a = ground arith in
      rw (← same) (fresh_attempt-IsConsistent (trim_input input) now id)

  trimmed_attempt-IsConsistent :
      (raw : TransitionCommand) → IsConsistent raw.attempt → IsConsistent (trim_command raw).attempt
  unfolding trim_command
  trimmed_attempt-IsConsistent raw k = rw k.trimmed k

  Applies-keep :
      (raw : TransitionCommand) (deps : Dependencies) (r : TransitionResult)
      → Applies is_uuid raw deps r
      → IsConsistent raw.attempt
      → IsConsistent r.attempt
  Applies-keep raw deps r a k =
      let c = trim_command raw in
      let trimmed =
        next_trimmed is_uuid c deps r (trim_command_idem raw)
          (is_command-trim_command is_uuid raw ∙ a.valid) in
      rw a.applied.result (
        next_attempt-IsConsistent c deps (trim_command_idem raw) a.unused a.applied.may
          (unfold applied in trimmed) (trimmed_attempt-IsConsistent raw k))

  transition_attempt-IsConsistent :
      (raw : TransitionCommand) (deps : Dependencies) (r : TransitionResult)
      → transition_attempt is_uuid raw deps ≡ ok r
      → IsConsistent raw.attempt
      → IsConsistent r.attempt
  transition_attempt-IsConsistent raw deps r e k = elim (Bool-cases r.replayed) [
    | inl again ↦
        rw (Replays-sound is_uuid raw deps r e again).unchanged (trimmed_attempt-IsConsistent raw k)
    | inr fresh ↦ Applies-keep raw deps r (Applies-sound is_uuid raw deps r e fresh) k
  ]

  -- Every attempt that the functions can produce is consistent: its receipts have distinct keys and
  -- lead by allowed steps of allowed actors from `preparing` to its status, and its times of
  -- completion, invalidation and start fit its status.
  pub Reachable-IsConsistent : {a : Attempt} → Reachable a → IsConsistent a
  Reachable-IsConsistent (created input now id {a} e) = create_attempt-IsConsistent input now id a e
  Reachable-IsConsistent (moved raw deps r {a} before e same) =
      rw same (transition_attempt-IsConsistent raw deps r e (Reachable-IsConsistent before))
