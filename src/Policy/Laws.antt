-- ===== src/Policy/Laws.antt =====
-- What the policy guarantees: limits that it can only tighten, a deadline for evidence, and that no
-- provider decides about an attempt.
use understandproof.Base.{
  ℕ, ◌+◌, ◌*◌, ◌≤◌, ◌≡◌, ◌↔◌, refl, ap, sym, Bool, true, false, List, [], ◌∷◌, some, Text, text_eq,
  nat, nat_value, ok, arith, length, includes, Memᴰ, Unique, Bool-cases, inl, inr, ◌==◌, suc, All,
  every→All, All→every,
}
use understandproof.Domain.Status.{review_required}
use understandproof.Domain.Primitives.{is_git_sha}
use understandproof.Policy.{
  RepositoryPolicy, is_repository_policy, RecordingProtocolLimits, EffectiveRecordingLimits,
  is_positive_safe, resolve_effective_recording_limits, calculate_evidence_delete_after,
  ApplyPolicyInput, set_of, MaintainerReviewDecision, is_apply_policy_input,
  apply_repository_policy, no_mutation,
}

-- The limits are positive, are the widest that both the protocol's ceilings and the policy allow, and
-- keep evidence as long as the policy says, for 1 to 24 hours.
pub record IsNarrowed (policy : RepositoryPolicy) (protocol : RecordingProtocolLimits)
    (l : EffectiveRecordingLimits) : Type 0 where
  pub positive : (1 ≤ l.maximum_duration_ms) × (1 ≤ l.maximum_upload_bytes)
  pub duration_protocol : l.maximum_duration_ms ≤ nat_value protocol.maximum_duration_ms
  pub duration_policy :
      l.maximum_duration_ms ≤ nat_value policy.proof.maximum_duration_seconds * 1000
  pub duration_widest :
      (n : ℕ)
      → n ≤ nat_value protocol.maximum_duration_ms
      → n ≤ nat_value policy.proof.maximum_duration_seconds * 1000
      → n ≤ l.maximum_duration_ms
  pub upload_protocol : l.maximum_upload_bytes ≤ nat_value protocol.maximum_upload_bytes
  pub upload_policy : l.maximum_upload_bytes ≤ nat_value policy.proof.maximum_upload_bytes
  pub upload_widest :
      (n : ℕ)
      → n ≤ nat_value protocol.maximum_upload_bytes
      → n ≤ nat_value policy.proof.maximum_upload_bytes
      → n ≤ l.maximum_upload_bytes
  pub retention : l.retention_hours ≡ nat_value policy.evidence.retention_hours
  pub retention_bounds : (1 ≤ l.retention_hours) × (l.retention_hours ≤ 24)
  pub deletion : l.delete_after_maintainer_pass ≡ policy.evidence.delete_after_maintainer_pass

module _ (policy : RepositoryPolicy) (protocol : RecordingProtocolLimits) where
  -- Limits that are resolved lie within the protocol and the policy, and narrow neither further.
  pub resolved_limits-IsNarrowed :
      (l : EffectiveRecordingLimits)
      → resolve_effective_recording_limits policy protocol ≡ ok l
      → IsNarrowed policy protocol l
  unfolding resolve_effective_recording_limits is_repository_policy is_positive_safe
  resolved_limits-IsNarrowed l e = record {
    positive = ground arith;
    duration_protocol = ground arith;
    duration_policy = ground arith;
    duration_widest = λ n h h'. ground arith;
    upload_protocol = ground arith;
    upload_policy = ground arith;
    upload_widest = λ n h h'. ground arith;
    retention = ground arith;
    retention_bounds = ground arith;
    deletion = ground arith;
  }

  -- With limits that were resolved, the deadline for evidence that was accepted at a time (not in the
  -- last day that a date can hold) exists, and lies 1 to 24 hours after it, as the policy says.
  pub resolved_limits-deadline :
      (l : EffectiveRecordingLimits) (accepted_at : ℕ)
      → resolve_effective_recording_limits policy protocol ≡ ok l
      → accepted_at + 86_400_000 ≤ 8_640_000_000_000_000
      → (deadline : ℕ) × (calculate_evidence_delete_after (some accepted_at) (nat l.retention_hours)
          ≡ ok (some deadline))
        × (deadline ≡ accepted_at + 3_600_000 * nat_value policy.evidence.retention_hours)
        × (accepted_at + 3_600_000 ≤ deadline)
        × (deadline ≤ accepted_at + 86_400_000)
  unfolding calculate_evidence_delete_after
  resolved_limits-deadline l accepted_at e h =
      let n = resolved_limits-IsNarrowed l e in
      (
        accepted_at + l.retention_hours * 60 * 60_000,
        ground (arith, n.retention_bounds),
        omega (arith, n.retention),
        omega (arith, n.retention_bounds),
        omega (arith, n.retention_bounds),
      )

length-set_of : (xs : List Text) → length (set_of xs) ≤ length xs
unfolding set_of
length-set_of [] = omega arith
length-set_of (x ∷ xs) = ground (arith, length-set_of xs)

mem-set_of : (x : Text) (xs : List Text) → Memᴰ x xs → includes (set_of xs) x ≡ true
unfolding set_of
mem-set_of x [] m = elim m [ ]
mem-set_of x (y ∷ xs) (Memᴰ.head e) = ground (arith, sym e)
mem-set_of x (y ∷ xs) (Memᴰ.tail m) = ground (arith, mem-set_of x xs m)

set_of-mem : (x : Text) (xs : List Text) → includes (set_of xs) x ≡ true → Memᴰ x xs
unfolding set_of
set_of-mem x [] h = cc
set_of-mem x (y ∷ xs) h = elim (Bool-cases (y == x)) [
  | inl same ↦ Memᴰ.head (ground arith)
  | inr different ↦ Memᴰ.tail (set_of-mem x xs (ground arith))
]

Unique-sound : (xs : List Text) → length (set_of xs) ≡ length xs → Unique xs
unfolding set_of
Unique-sound [] h = tt
Unique-sound (x ∷ xs) h =
    let new : includes (set_of xs) x ≡ false = ground (arith, length-set_of xs) in
    ((λ m. cc (mem-set_of x xs m, new)), Unique-sound xs (ground (arith, new)))

Unique-complete : (xs : List Text) → Unique xs → length (set_of xs) ≡ length xs
unfolding set_of
Unique-complete [] h = refl
Unique-complete (x ∷ xs) h = elim (Bool-cases (includes (set_of xs) x)) [
  | inl old ↦ absurd (h.0 (set_of-mem x xs old))
  | inr new ↦ rw new (ap suc (Unique-complete xs h.1))
]

-- The decision for an evaluation: a maintainer's review of its head, that changes no check.
abbrev pub review_of : ApplyPolicyInput → MaintainerReviewDecision
review_of i = record {
  attempt_status = review_required;
  check_mutation = no_mutation;
  attempt_id = i.attempt_id;
  revision_id = i.revision_id;
  evaluation_id = i.evaluation_id;
  head_sha = i.current_head_sha;
  provider_recommendation = i.recommendation;
}

-- What an evaluation must be for the policy to route it.
pub record IsRoutable (is_uuid : Text → Bool) (policy : RepositoryPolicy) (i : ApplyPolicyInput)
    : Type 0 where
  pub policy_valid : is_repository_policy policy ≡ true
  pub ids :
      (is_uuid i.attempt_id ≡ true)
      × (is_uuid i.revision_id ≡ true)
      × (is_uuid i.evaluation_id ≡ true)
  pub head : is_git_sha i.current_head_sha ≡ true
  pub same_head : i.expected_head_sha ≡ i.current_head_sha
  pub questions :
      (1 ≤ length i.evaluated_question_ids)
      × All (λ id. is_uuid id ≡ true) i.evaluated_question_ids
      × Unique i.evaluated_question_ids

module _ (is_uuid : Text → Bool) (policy : RepositoryPolicy) (i : ApplyPolicyInput) where
  -- Whatever a provider recommends, `pass` too, its evaluation of the current head is routed to a
  -- maintainer: the attempt is to be in review, and the recommendation is only recorded. A result
  -- comes exactly for a valid policy and a valid evaluation, with no question twice.
  pub apply_repository_policy_iff :
      (d : MaintainerReviewDecision)
      → (apply_repository_policy is_uuid policy i ≡ ok d)
        ↔ (IsRoutable is_uuid policy i × (d ≡ review_of i))
  unfolding apply_repository_policy is_apply_policy_input
  apply_repository_policy_iff d = (
    λ e. (
      record {
        policy_valid = ground arith;
        ids = ground arith;
        head = ground arith;
        same_head = ground arith;
        questions =
            (ground arith, every→All is_uuid _ (ground arith), Unique-sound _ (ground arith));
      },
      ground arith,
    ),
    λ r.
        ground
          (arith, r.0, r.1, All→every is_uuid _ r.0.questions.1, Unique-complete _ r.0.questions.2),
  )
