-- ===== src/Domain/Transition/Tests.antt =====
-- Runs of the transition functions, and the theorems at them.
use understandproof.Base.{
  ◌≡◌, ◌↔◌, refl, Bool, true, false, [], ◌∷◌, none, Text, Text-discrete, text, ok, throw, nat_eqb,
  length, trim, inl, ◌≤◌,
}
use understandproof.Domain.Primitives.{is_git_sha, is_identifier, is_idempotency_key}
use understandproof.Domain.Status.{
  AttemptStatus, AttemptStatus-discrete, ActorRole-discrete, AuthorizationScope-discrete, preparing,
  ready, passed, worker, prepare, active, uploading, processing, review_required, author, system,
  maintainer, start, upload, process, request_review, decide, ActorRole, is_terminal_attempt_status,
  can_transition_attempt, transition_authorization, required_artifacts,
}
use understandproof.Domain.Attempt.{
  Attempt, CreateAttemptInput, TransitionCommand, AuthorizedActor, no_artifacts, set_to,
  trim_receipt, trim_attempt, trim_actor, trim_input, trim_command, is_artifact_refs, is_actor,
  is_receipt, is_attempt, is_create_input, is_command, transition_error, terminal_status,
}
use understandproof.Domain.Transition.{
  Dependencies, TransitionResult, is_foreign_author, assert_authorization, lacks_artifact,
  assert_artifacts, spread, has_key, matches, find_idempotent_replay, check_revision,
  check_expiration, check_guards, new_receipt, next_attempt, fresh_attempt, create_attempt,
  apply_transition, transition_attempt,
}
use understandproof.Domain.Transition.Applied.{applied}
use understandproof.Domain.Transition.Calls.{
  Applies, Replays, transition_attempt-Applies_iff, transition_attempt-Replays_iff,
}
use understandproof.Domain.Transition.Replay.{transition_attempt_idempotent}
use understandproof.Domain.Transition.History.{
  IsConsistent, Reachable, created, moved, Reachable-IsConsistent,
}
use understandproof.Domain.Transition.History.Pipeline.{
  IsPipeline, decision_needs-IsPipeline, receipts_bounded, terminal_is_final,
}

-- Names all that a run of the functions computes with.
runs : Unit {0}
unfolding trim Text-discrete is_git_sha is_identifier is_idempotency_key AttemptStatus-discrete
    ActorRole-discrete AuthorizationScope-discrete is_terminal_attempt_status can_transition_attempt
    transition_authorization required_artifacts trim_receipt trim_attempt trim_actor trim_input
    trim_command is_artifact_refs is_actor is_receipt is_attempt is_create_input is_command
    is_foreign_author assert_authorization lacks_artifact assert_artifacts spread has_key matches
    find_idempotent_replay check_revision check_expiration check_guards new_receipt next_attempt
    fresh_attempt create_attempt apply_transition transition_attempt
runs = tt

abbrev short_uuid : Text → Bool
short_uuid s = nat_eqb (length s) 2

abbrev head : Text
head = text "aaaaaaaaaaaaaaaaaaaaaaaaaaaaaaaaaaaaaaaa"

abbrev input : CreateAttemptInput
input = record {
  repository_id = text "r1";
  revision_id = text "v1";
  proof_plan_id = text "p1";
  author_id = text " ann ";
  head_sha = head;
  expires_at = 1000;
}

abbrev prepared : Attempt
prepared = fresh_attempt (trim_input input) 100 (text "a1")

creates : create_attempt short_uuid input 100 (text "a1") ≡ ok prepared
unfolding runs
creates = refl

abbrev machine : AuthorizedActor
machine = record {
  actor_id = text "w ";
  role = worker;
  authorization = record {
    authorized = true;
    repository_id = text "r1";
    scopes = prepare ∷ [];
    checked_at = 150;
    expires_at = 900;
  };
}

abbrev make_ready : TransitionCommand
make_ready = record {
  attempt = prepared;
  expected_status = preparing;
  target_status = ready;
  expected_head_sha = head;
  current_head_sha = head;
  actor = machine;
  artifacts = no_artifacts;
  idempotency_key = text "key-0001";
}

abbrev deps : Dependencies
deps = record { now = 200; next_id = text "n1"; max_authorization_age_ms = none }

abbrev made_ready : TransitionResult
made_ready = applied (trim_command make_ready) deps

makes_ready : transition_attempt short_uuid make_ready deps ≡ ok made_ready
unfolding runs applied
makes_ready = refl

-- A command that moves an attempt on, with every scope, every artifact and the time at hand.
abbrev move : Attempt → AttemptStatus → ActorRole → Text → Text → TransitionCommand
move a target role who key = record {
  attempt = a;
  expected_status = a.status;
  target_status = target;
  expected_head_sha = head;
  current_head_sha = head;
  actor = record {
    actor_id = who;
    role = role;
    authorization = record {
      authorized = true;
      repository_id = text "r1";
      scopes = prepare ∷ start ∷ upload ∷ process ∷ request_review ∷ decide ∷ [];
      checked_at = 150;
      expires_at = 900;
    };
  };
  artifacts = λ key. set_to (text "x1");
  idempotency_key = key;
}

abbrev next : TransitionCommand → TransitionResult
next c = applied (trim_command c) deps

abbrev c1 : TransitionCommand
c1 = move prepared ready worker (text "w") (text "key-0001")

abbrev c2 : TransitionCommand
c2 = move (next c1).attempt active author (text "ann") (text "key-0002")

abbrev c3 : TransitionCommand
c3 = move (next c2).attempt uploading author (text "ann") (text "key-0003")

abbrev c4 : TransitionCommand
c4 = move (next c3).attempt processing system (text "s") (text "key-0004")

abbrev c5 : TransitionCommand
c5 = move (next c4).attempt review_required worker (text "w") (text "key-0005")

abbrev c6 : TransitionCommand
c6 = move (next c5).attempt passed maintainer (text "mia") (text "key-0006")

abbrev AppliedAt : TransitionCommand → Type 0
AppliedAt c = transition_attempt short_uuid c deps ≡ ok (next c)

pipeline_runs :
    AppliedAt c1 × AppliedAt c2 × AppliedAt c3 × AppliedAt c4 × AppliedAt c5 × AppliedAt c6
unfolding runs applied
pipeline_runs = (refl, refl, refl, refl, refl, refl)

reached : Reachable short_uuid (next c6).attempt
reached =
    let (e1, e2, e3, e4, e5, e6) = pipeline_runs in
    let a0 = created input 100 (text "a1") creates in
    let a1 = moved c1 deps (next c1) a0 e1 refl in
    let a2 = moved c2 deps (next c2) a1 e2 refl in
    let a3 = moved c3 deps (next c3) a2 e3 refl in
    let a4 = moved c4 deps (next c4) a3 e4 refl in
    let a5 = moved c5 deps (next c5) a4 e5 refl in moved c6 deps (next c6) a5 e6 refl

transition_attempt-Applies_iff_example :
    ((transition_attempt short_uuid make_ready deps ≡ ok made_ready)
      × (made_ready.replayed ≡ false))
    ↔ Applies short_uuid make_ready deps made_ready
transition_attempt-Applies_iff_example =
    transition_attempt-Applies_iff short_uuid make_ready deps made_ready

transition_attempt-Replays_iff_example :
    ((transition_attempt short_uuid make_ready deps ≡ ok made_ready) × (made_ready.replayed ≡ true))
    ↔ Replays short_uuid make_ready made_ready
transition_attempt-Replays_iff_example =
    transition_attempt-Replays_iff short_uuid make_ready deps made_ready

transition_attempt_idempotent_example :
    transition_attempt short_uuid
      (record make_ready { attempt = made_ready.attempt })
      (record deps { now = 5000 })
    ≡ ok (record made_ready { replayed = true })
transition_attempt_idempotent_example =
    transition_attempt_idempotent short_uuid make_ready deps (record deps { now = 5000 }) made_ready
      makes_ready (unfold applied in refl)

Reachable-IsConsistent_example : IsConsistent (next c6).attempt
Reachable-IsConsistent_example = Reachable-IsConsistent short_uuid reached

decision_needs-IsPipeline_example : IsPipeline (next c6).attempt
unfolding runs applied
decision_needs-IsPipeline_example =
    decision_needs-IsPipeline short_uuid (next c6).attempt reached (inl refl)

receipts_bounded_example : length (next c6).attempt.transition_receipts ≤ 6
receipts_bounded_example = receipts_bounded short_uuid (next c6).attempt reached

-- The decision sent again, with the passed attempt: a replay.
abbrev c7 : TransitionCommand
c7 = record c6 { attempt = (next c6).attempt }

terminal_is_final_example :
    (◌≡◌ {A = Bool} true true) × ((next c6).attempt ≡ trim_attempt c7.attempt)
unfolding runs applied
terminal_is_final_example =
    terminal_is_final short_uuid c7 deps (record (next c6) { replayed = true }) refl refl

-- The passed attempt takes no other command.
passed_is_final :
    transition_attempt short_uuid
      (move (next c6).attempt ready worker (text "w") (text "key-0007"))
      deps
    ≡ throw (transition_error terminal_status)
unfolding runs applied
passed_is_final = refl
