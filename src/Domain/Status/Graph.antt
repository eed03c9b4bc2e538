-- ===== src/Domain/Status/Graph.antt =====
-- The transition diagram: what the two tables of statuses say together.
use understandproof.Base.{ℕ, suc, ◌<◌, ◌≡◌, true, arith, ◌⊎◌}
use understandproof.Domain.Status.{
  AttemptStatus, preparing, ready, active, uploading, processing, review_required,
  is_terminal_attempt_status, can_transition_attempt,
}

-- How far a status lies from the start of the review pipeline.
abbrev pub stage : AttemptStatus → ℕ
stage preparing = 0
stage ready = 1
stage active = 2
stage uploading = 3
stage processing = 4
stage review_required = 5
stage _ = 6

-- Every allowed transition moves to a later stage, and skips none but to end the attempt.
pub transition_advances :
    (s t : AttemptStatus)
    → can_transition_attempt s t ≡ true
    → (stage s < stage t) × ((stage t ≡ suc (stage s)) ⊎ (is_terminal_attempt_status t ≡ true))
unfolding is_terminal_attempt_status can_transition_attempt
transition_advances s t = ground arith
