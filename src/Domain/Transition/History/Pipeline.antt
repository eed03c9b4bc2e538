-- ===== src/Domain/Transition/History/Pipeline.antt =====
-- The way of an attempt through the review pipeline, read off its receipts.
use understandproof.Base.{
  ◌+◌, ◌≤◌, ◌≡◌, ◌⊎◌, refl, ap, ◌∙◌, sym, Bool, true, false, List, [], ◌∷◌, map, Text, ok, arith,
  All, length, Bool-cases, inl, inr,
}
use understandproof.Domain.Status.{
  AttemptStatus, preparing, ready, active, uploading, processing, review_required, passed,
  retry_required, author, is_terminal_attempt_status, can_transition_attempt,
}
use understandproof.Domain.Status.Graph.{stage, transition_advances}
use understandproof.Domain.Attempt.{Attempt, Receipt, TransitionCommand, trim_command, trim_attempt}
use understandproof.Domain.Transition.{Dependencies, TransitionResult, transition_attempt}
use understandproof.Domain.Transition.Guards.{MayAct}
use understandproof.Domain.Transition.Calls.{Applies-sound, Replays-sound}
use understandproof.Domain.Transition.History.{Leads, Reachable, Reachable-IsConsistent}

stage-le : (s : AttemptStatus) → stage s ≤ 6
stage-le preparing = omega arith
stage-le _ = omega arith

module _ (id author_id head : Text) where
  Leads-length :
      (s t : AttemptStatus) (rs : List Receipt)
      → Leads id author_id head s rs t
      → stage s + length rs ≤ stage t
  Leads-length s t [] e = rw e (omega arith)
  Leads-length s t (r ∷ rs) e =
      omega (arith, Leads-length r.to t rs e.1, (transition_advances s r.to e.0.allowed).0)

  Leads-roles :
      (s t : AttemptStatus) (rs : List Receipt)
      → Leads id author_id head s rs t
      → All (λ r. MayAct r.actor_role r.to × (r.actor_role ≡ author → r.actor_id ≡ author_id)) rs
  Leads-roles s t [] e = tt
  Leads-roles s t (r ∷ rs) e = ((e.0.role_fits, e.0.own_proof), Leads-roles r.to t rs e.1)

-- The statuses that lie between a status and a maintainer's decision.
abbrev remaining : AttemptStatus → AttemptStatus → List AttemptStatus
remaining preparing t = ready ∷ active ∷ uploading ∷ processing ∷ review_required ∷ t ∷ []
remaining ready t = active ∷ uploading ∷ processing ∷ review_required ∷ t ∷ []
remaining active t = uploading ∷ processing ∷ review_required ∷ t ∷ []
remaining uploading t = processing ∷ review_required ∷ t ∷ []
remaining processing t = review_required ∷ t ∷ []
remaining review_required t = t ∷ []
remaining _ t = []

abbrev IsDecision : AttemptStatus → Type 0
IsDecision t = (t ≡ passed) ⊎ (t ≡ retry_required)

remaining-step :
    (s u t : AttemptStatus)
    → can_transition_attempt s u ≡ true
    → is_terminal_attempt_status u ≡ false
    → remaining s t ≡ u ∷ remaining u t
unfolding can_transition_attempt is_terminal_attempt_status
remaining-step s u t = ground arith

remaining-last :
    (s t : AttemptStatus)
    → IsDecision t
    → can_transition_attempt s t ≡ true
    → remaining s t ≡ t ∷ []
unfolding can_transition_attempt
remaining-last s t d h = ground arith

terminal-no_step :
    (s t : AttemptStatus)
    → is_terminal_attempt_status s ≡ true
    → can_transition_attempt s t ≡ true
    → ⊥
unfolding can_transition_attempt is_terminal_attempt_status
terminal-no_step s t h a = ground arith

module _ (id author_id head : Text) where
  Leads-terminal :
      (s t : AttemptStatus) (rs : List Receipt)
      → Leads id author_id head s rs t
      → is_terminal_attempt_status s ≡ true
      → (rs ≡ []) × (s ≡ t)
  Leads-terminal s t [] e h = (refl, e)
  Leads-terminal s t (r ∷ rs) e h = absurd (terminal-no_step s r.to h e.0.allowed)

  Leads-remaining :
      (s t : AttemptStatus) (rs : List Receipt)
      → IsDecision t
      → Leads id author_id head s rs t
      → map (λ r. r.to) rs ≡ remaining s t
  Leads-remaining s t [] d e = ground arith
  Leads-remaining s t (r ∷ rs) d e = elim (Bool-cases (is_terminal_attempt_status r.to)) [
    | inl over ↦
        let (nothing, last) = Leads-terminal r.to t rs e.1 over in
        rw (nothing, last) (sym (remaining-last s t d (rw last at e.0.allowed)))
    | inr open_still ↦
        ap (λ l. r.to ∷ l) (Leads-remaining r.to t rs d e.1)
        ∙ sym (remaining-step s r.to t e.0.allowed open_still)
  ]

-- What the receipts of a decided attempt are: one for each stage of the pipeline, in order, and
-- each by an actor whose role may take that step; an author's by the attempt's own author.
pub record IsPipeline (a : Attempt) : Type 0 where
  pub statuses :
      map (λ r. r.to) a.transition_receipts
      ≡ ready ∷ active ∷ uploading ∷ processing ∷ review_required ∷ a.status ∷ []
  pub roles :
      All
        (λ r. MayAct r.actor_role r.to × (r.actor_role ≡ author → r.actor_id ≡ a.author_id))
        a.transition_receipts

module _ (is_uuid : Text → Bool) (a : Attempt) (reached : Reachable is_uuid a) where
  -- An attempt that is passed or sent back by a maintainer went through the whole pipeline: no
  -- sequence of calls reaches a decision around the recording, the evaluation or the maintainer.
  pub decision_needs-IsPipeline : (a.status ≡ passed) ⊎ (a.status ≡ retry_required) → IsPipeline a
  decision_needs-IsPipeline d =
      let k = Reachable-IsConsistent is_uuid reached in
      record {
        statuses = Leads-remaining _ _ _ preparing a.status _ d k.chain;
        roles = Leads-roles _ _ _ preparing a.status _ k.chain;
      }

  -- No attempt ever holds more than six receipts.
  pub receipts_bounded : length a.transition_receipts ≤ 6
  receipts_bounded =
      let k = Reachable-IsConsistent is_uuid reached in
      omega (
        arith,
        Leads-length a.id a.author_id a.head_sha preparing a.status a.transition_receipts k.chain,
        stage-le a.status,
      )

-- A terminal attempt is final: a call on it that returns at all is a replay, and gives the attempt
-- back unchanged but for the trimming of its identifiers.
pub terminal_is_final :
    (is_uuid : Text → Bool) (raw : TransitionCommand) (deps : Dependencies) (r : TransitionResult)
    → is_terminal_attempt_status raw.attempt.status ≡ true
    → transition_attempt is_uuid raw deps ≡ ok r
    → (r.replayed ≡ true) × (r.attempt ≡ trim_attempt raw.attempt)
unfolding trim_command trim_attempt
terminal_is_final is_uuid raw deps r h e = elim (Bool-cases r.replayed) [
  | inl again ↦ (again, (Replays-sound is_uuid raw deps r e again).unchanged)
  | inr fresh ↦
      let open_still = (Applies-sound is_uuid raw deps r e fresh).applied.may.is_open in cc
]
