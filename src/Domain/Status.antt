-- ===== src/Domain/Status.antt =====
-- packages/domain/src/attempt.ts: the statuses of an attempt and the tables indexed by them.
pub mod Graph
use understandproof.Base.{ℕ, ◌≡◌, Bool, true, false, List, [], ◌∷◌, Eq, discrete_eq, includes}

pub data AttemptStatus : Type 0 where
  preparing ready active uploading processing review_required : AttemptStatus
  passed retry_required technical_retry expired invalidated : AttemptStatus

unfoldable pub AttemptStatus-discrete : Discrete AttemptStatus
AttemptStatus-discrete = hlevel

instance abbrev pub status_eq : Eq AttemptStatus
status_eq = discrete_eq AttemptStatus-discrete

unfoldable pub nonterminal_attempt_statuses : List AttemptStatus
nonterminal_attempt_statuses =
    preparing ∷ ready ∷ active ∷ uploading ∷ processing ∷ review_required ∷ []

unfoldable pub terminal_attempt_statuses : List AttemptStatus
terminal_attempt_statuses = passed ∷ retry_required ∷ technical_retry ∷ expired ∷ invalidated ∷ []

unfoldable pub allowed_attempt_transitions : AttemptStatus → List AttemptStatus
allowed_attempt_transitions preparing = ready ∷ technical_retry ∷ expired ∷ invalidated ∷ []
allowed_attempt_transitions ready = active ∷ technical_retry ∷ expired ∷ invalidated ∷ []
allowed_attempt_transitions active = uploading ∷ technical_retry ∷ expired ∷ invalidated ∷ []
allowed_attempt_transitions uploading = processing ∷ technical_retry ∷ expired ∷ invalidated ∷ []
allowed_attempt_transitions processing =
    review_required ∷ technical_retry ∷ expired ∷ invalidated ∷ []
allowed_attempt_transitions review_required =
    passed ∷ retry_required ∷ technical_retry ∷ expired ∷ invalidated ∷ []
allowed_attempt_transitions passed = []
allowed_attempt_transitions retry_required = []
allowed_attempt_transitions technical_retry = []
allowed_attempt_transitions expired = []
allowed_attempt_transitions invalidated = []

unfoldable pub is_terminal_attempt_status : AttemptStatus → Bool
unfolding terminal_attempt_statuses AttemptStatus-discrete
is_terminal_attempt_status status = includes terminal_attempt_statuses status

unfoldable pub can_transition_attempt : AttemptStatus → AttemptStatus → Bool
unfolding allowed_attempt_transitions AttemptStatus-discrete
can_transition_attempt from to = includes (allowed_attempt_transitions from) to

pub data ArtifactKey : Type 0 where
  handoff_token_id mobile_session_id upload_session_id recording_manifest_id : ArtifactKey
  recording_object_id wrapped_key_ref transcript_id evaluation_id : ArtifactKey
  review_decision_id technical_event_id : ArtifactKey

unfoldable pub required_artifacts : AttemptStatus → List ArtifactKey
required_artifacts preparing = []
required_artifacts ready = []
required_artifacts active = handoff_token_id ∷ mobile_session_id ∷ []
required_artifacts uploading = upload_session_id ∷ []
required_artifacts processing = recording_manifest_id ∷ recording_object_id ∷ wrapped_key_ref ∷ []
required_artifacts review_required = transcript_id ∷ evaluation_id ∷ []
required_artifacts passed = review_decision_id ∷ []
required_artifacts retry_required = review_decision_id ∷ []
required_artifacts technical_retry = technical_event_id ∷ []
required_artifacts expired = []
required_artifacts invalidated = []

pub data ActorRole : Type 0 where
  author maintainer worker system : ActorRole

unfoldable pub ActorRole-discrete : Discrete ActorRole
ActorRole-discrete = hlevel

instance abbrev pub role_eq : Eq ActorRole
role_eq = discrete_eq ActorRole-discrete

pub data AuthorizationScope : Type 0 where
  prepare start upload process request_review decide : AuthorizationScope
  mark_technical_retry expire invalidate : AuthorizationScope

unfoldable pub AuthorizationScope-discrete : Discrete AuthorizationScope
AuthorizationScope-discrete = hlevel

instance abbrev pub scope_eq : Eq AuthorizationScope
scope_eq = discrete_eq AuthorizationScope-discrete

pub record TransitionRule : Type 0 where
  pub roles : List ActorRole
  pub scope : AuthorizationScope

abbrev machine : AuthorizationScope → TransitionRule
machine scope = record { roles = worker ∷ system ∷ []; scope = scope }

abbrev only : ActorRole → AuthorizationScope → TransitionRule
only role scope = record { roles = role ∷ []; scope = scope }

unfoldable pub transition_authorization : AttemptStatus → TransitionRule
transition_authorization preparing = machine prepare
transition_authorization ready = machine prepare
transition_authorization active = only author start
transition_authorization uploading = only author upload
transition_authorization processing = machine process
transition_authorization review_required = machine request_review
transition_authorization passed = only maintainer decide
transition_authorization retry_required = only maintainer decide
transition_authorization technical_retry = machine mark_technical_retry
transition_authorization expired = machine expire
transition_authorization invalidated = machine invalidate
