-- ===== src/Domain/Transition/Applied.antt =====
-- When `transitionAttempt` applies a command, and what it returns then.
use understandproof.Base.{
  ◌≡◌, ◌↔◌, refl, ap, ◌∙◌, Bool, true, false, List, [], ◌∷◌, Text, text_eq, ok, arith, Memᴰ, every,
  any, every-append, map-append,
}
use understandproof.Domain.Status.{AttemptStatus, ArtifactKey, required_artifacts}
use understandproof.Domain.Attempt.{
  Slot, absent, undefined, set_to, ArtifactRefs, Receipt, TransitionCommand, trim_receipt,
  trim_attempt, trim_actor, trim_command, is_slot_valid, is_artifact_refs, artifact_keys,
  is_receipt, is_attempt, is_actor, is_command,
}
use understandproof.Domain.Transition.{
  Dependencies, TransitionResult, is_missing, lacks_artifact, assert_artifacts, override, spread,
  new_receipt, next_attempt, apply_transition,
}
use understandproof.Domain.Transition.Guards.{MayTransition, check_guards_iff}

-- Every artifact that the target status requires is there.
abbrev pub HasArtifacts : AttemptStatus → ArtifactRefs → Type 0
HasArtifacts target refs =
    (key : ArtifactKey)
    → Memᴰ key (required_artifacts target)
    → (id : Text) × (refs key ≡ set_to id)

present : (s : Slot) → is_missing s ≡ false → (id : Text) × (s ≡ set_to id)
present absent h = cc
present undefined h = cc
present (set_to id) h = (id, refl)

none_missing :
    (refs : ArtifactRefs) (keys : List ArtifactKey)
    → any (λ key. is_missing (refs key)) keys ≡ false
    → (key : ArtifactKey) → Memᴰ key keys
    → (id : Text) × (refs key ≡ set_to id)
none_missing refs [] h key m = elim m [ ]
none_missing refs (k ∷ keys) h key (Memᴰ.head e) = rw e (present (refs k) (ground arith))
none_missing refs (k ∷ keys) h key (Memᴰ.tail m) = none_missing refs keys (ground arith) key m

missing_one :
    (refs : ArtifactRefs) (keys : List ArtifactKey)
    → ((key : ArtifactKey) → Memᴰ key keys → (id : Text) × (refs key ≡ set_to id))
    → any (λ key. is_missing (refs key)) keys ≡ false
missing_one refs [] h = refl
missing_one refs (k ∷ keys) h =
    let (id, e) = h k (Memᴰ.head refl) in
    ground (arith, e, missing_one refs keys (λ key m. h key (Memᴰ.tail m)))

pub lacks_artifact_iff :
    (target : AttemptStatus) (refs : ArtifactRefs)
    → (lacks_artifact target refs ≡ false) ↔ HasArtifacts target refs
unfolding lacks_artifact
lacks_artifact_iff target refs =
    (none_missing refs (required_artifacts target), missing_one refs (required_artifacts target))

module _ (is_uuid : Text → Bool) where
  every-override :
      (old new : ArtifactRefs) (keys : List ArtifactKey)
      → every (λ key. is_slot_valid is_uuid (old key)) keys ≡ true
      → every (λ key. is_slot_valid is_uuid (new key)) keys ≡ true
      → every (λ key. is_slot_valid is_uuid (override (old key) (new key))) keys ≡ true
  every-override old new [] h h' = refl
  every-override old new (k ∷ keys) h h' = ground (arith, every-override old new keys)

  pub is_artifact_refs-spread :
      (old new : ArtifactRefs)
      → is_artifact_refs is_uuid old ≡ true
      → is_artifact_refs is_uuid new ≡ true
      → is_artifact_refs is_uuid (spread old new) ≡ true
  unfolding is_artifact_refs spread
  is_artifact_refs-spread old new = every-override old new artifact_keys

  is_receipt-new_receipt :
      (c : TransitionCommand) (deps : Dependencies)
      → is_command is_uuid c ≡ true
      → is_receipt is_uuid (new_receipt c deps) ≡ is_uuid deps.next_id
  unfolding is_command is_attempt is_receipt new_receipt is_actor
  is_receipt-new_receipt c deps h = ground arith

  is_attempt-next_attempt :
      (c : TransitionCommand) (deps : Dependencies) (refs : ArtifactRefs) (r : Receipt)
      → is_command is_uuid c ≡ true
      → is_artifact_refs is_uuid refs ≡ true
      → is_receipt is_uuid r ≡ true
      → is_attempt is_uuid (next_attempt c deps refs r) ≡ true
  unfolding is_command is_attempt next_attempt
  is_attempt-next_attempt c deps refs r h hr hx =
      ground (arith, every-append (is_receipt is_uuid) c.attempt.transition_receipts (r ∷ []))

-- What a command that is applied returns.
unfoldable pub applied : TransitionCommand → Dependencies → TransitionResult
applied c deps = record {
  attempt = next_attempt c deps (spread c.attempt.artifacts c.artifacts) (new_receipt c deps);
  receipt = new_receipt c deps;
  replayed = false;
}

trim_receipt-new_receipt :
    (c : TransitionCommand) (deps : Dependencies)
    → trim_command c ≡ c
    → trim_receipt (new_receipt c deps) ≡ new_receipt c deps
unfolding trim_receipt new_receipt trim_command trim_actor
trim_receipt-new_receipt c deps t =
    ap (λ (k : TransitionCommand). record (new_receipt c deps) { actor_id = k.actor.actor_id }) t

trim_attempt-next_attempt :
    (c : TransitionCommand) (deps : Dependencies) (refs : ArtifactRefs) (r : Receipt)
    → trim_command c ≡ c
    → trim_receipt r ≡ r
    → trim_attempt (next_attempt c deps refs r) ≡ next_attempt c deps refs r
unfolding trim_attempt next_attempt trim_command
trim_attempt-next_attempt c deps refs r t e =
    cc (map-append trim_receipt c.attempt.transition_receipts (r ∷ []), e)

-- A parsed command for which no earlier receipt has its key.
pub record IsApplied (is_uuid : Text → Bool) (c : TransitionCommand) (deps : Dependencies)
    (r : TransitionResult) : Type 0 where
  pub may : MayTransition c deps
  pub has_artifacts : HasArtifacts c.target_status (spread c.attempt.artifacts c.artifacts)
  pub new_id : is_uuid deps.next_id ≡ true
  pub result : r ≡ applied c deps

module _ (is_uuid : Text → Bool) (c : TransitionCommand) (deps : Dependencies)
    (r : TransitionResult) (t : trim_command c ≡ c) (h : is_command is_uuid c ≡ true) where
  spread_valid : is_artifact_refs is_uuid (spread c.attempt.artifacts c.artifacts) ≡ true
  unfolding is_command is_attempt
  spread_valid =
      is_artifact_refs-spread is_uuid c.attempt.artifacts c.artifacts (ground arith) (ground arith)

  pub next_valid :
      is_uuid deps.next_id ≡ true
      → is_attempt is_uuid
          (next_attempt c deps (spread c.attempt.artifacts c.artifacts) (new_receipt c deps))
        ≡ true
  next_valid u =
      is_attempt-next_attempt is_uuid c deps _ _ h spread_valid
        (is_receipt-new_receipt is_uuid c deps h ∙ u)

  receipt_trimmed : trim_receipt (new_receipt c deps) ≡ new_receipt c deps
  receipt_trimmed = trim_receipt-new_receipt c deps t

  pub next_trimmed :
      let next =
        next_attempt c deps (spread c.attempt.artifacts c.artifacts) (new_receipt c deps) in
      trim_attempt next ≡ next
  next_trimmed = trim_attempt-next_attempt c deps _ _ t receipt_trimmed

  pub applied_sound : apply_transition is_uuid c deps ≡ ok r → IsApplied is_uuid c deps r
  unfolding apply_transition assert_artifacts applied
  applied_sound e = record {
    may = (check_guards_iff c deps).0 (ground arith);
    has_artifacts = (lacks_artifact_iff _ _).0 (ground (arith, spread_valid));
    new_id = ground (arith, spread_valid, is_receipt-new_receipt is_uuid c deps h);
    result = ground (
      arith,
      spread_valid,
      is_receipt-new_receipt is_uuid c deps h,
      next_valid,
      receipt_trimmed,
      next_trimmed,
    );
  }

  pub applied_complete : IsApplied is_uuid c deps r → apply_transition is_uuid c deps ≡ ok r
  unfolding apply_transition assert_artifacts applied
  applied_complete a = ground (
    arith,
    (check_guards_iff c deps).1 a.may,
    (lacks_artifact_iff _ _).1 a.has_artifacts,
    spread_valid,
    is_receipt-new_receipt is_uuid c deps h,
    next_valid a.new_id,
    receipt_trimmed,
    next_trimmed,
  )
