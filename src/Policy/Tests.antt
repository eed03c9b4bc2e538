-- ===== src/Policy/Tests.antt =====
-- Runs of the policy functions, and the theorems at them.
use understandproof.Base.{
  ℕ, ◌+◌, ◌*◌, ◌≤◌, ◌≡◌, ◌↔◌, refl, Bool, true, [], ◌∷◌, some, Text, Text-discrete, text, nat,
  nat_value, ok, arith, nat_eqb, length, throw,
}
use understandproof.Domain.Primitives.{is_git_sha}
use understandproof.Policy.{
  RecordingProtocolLimits, EffectiveRecordingLimits, is_positive_safe, is_repository_policy,
  resolve_effective_recording_limits, calculate_evidence_delete_after, default_repository_policy,
  ApplyPolicyInput, set_of, is_apply_policy_input, apply_repository_policy, pass, head_sha_mismatch,
}
use understandproof.Policy.Laws.{
  IsNarrowed, resolved_limits-IsNarrowed, resolved_limits-deadline, IsRoutable, review_of,
  apply_repository_policy_iff,
}

runs : Unit {0}
unfolding Text-discrete is_git_sha is_positive_safe is_repository_policy
    resolve_effective_recording_limits calculate_evidence_delete_after default_repository_policy
    set_of is_apply_policy_input apply_repository_policy
runs = tt

abbrev protocol : RecordingProtocolLimits
protocol = record { maximum_duration_ms = nat 480_000; maximum_upload_bytes = nat 134_217_728 }

abbrev limits : EffectiveRecordingLimits
limits = record {
  maximum_duration_ms = 480_000;
  maximum_upload_bytes = 134_217_728;
  retention_hours = 24;
  delete_after_maintainer_pass = true;
}

resolves : resolve_effective_recording_limits default_repository_policy protocol ≡ ok limits
unfolding runs
resolves = refl

resolved_limits-IsNarrowed_example : IsNarrowed default_repository_policy protocol limits
resolved_limits-IsNarrowed_example =
    resolved_limits-IsNarrowed default_repository_policy protocol limits resolves

resolved_limits-deadline_example :
    (deadline : ℕ) × (calculate_evidence_delete_after (some 1000) (nat 24) ≡ ok (some deadline))
    × (deadline ≡ 1000 + 3_600_000 * nat_value default_repository_policy.evidence.retention_hours)
    × (1000 + 3_600_000 ≤ deadline)
    × (deadline ≤ 1000 + 86_400_000)
resolved_limits-deadline_example =
    resolved_limits-deadline default_repository_policy protocol limits 1000 resolves (omega arith)

abbrev short_uuid : Text → Bool
short_uuid s = nat_eqb (length s) 2

abbrev evaluation : ApplyPolicyInput
evaluation = record {
  attempt_id = text "a1";
  revision_id = text "v1";
  evaluation_id = text "e1";
  expected_head_sha = text "aaaaaaaaaaaaaaaaaaaaaaaaaaaaaaaaaaaaaaaa";
  current_head_sha = text "aaaaaaaaaaaaaaaaaaaaaaaaaaaaaaaaaaaaaaaa";
  recommendation = pass;
  evaluated_question_ids = text "q1" ∷ text "q2" ∷ [];
}

routes :
    apply_repository_policy short_uuid default_repository_policy evaluation
    ≡ ok (review_of evaluation)
unfolding runs
routes = refl

stale_head :
    apply_repository_policy short_uuid default_repository_policy
      (record evaluation { current_head_sha = text "bbbbbbbbbbbbbbbbbbbbbbbbbbbbbbbbbbbbbbbb" })
    ≡ throw head_sha_mismatch
unfolding runs
stale_head = refl

apply_repository_policy_iff_example :
    (apply_repository_policy short_uuid default_repository_policy evaluation
      ≡ ok (review_of evaluation))
    ↔ (IsRoutable short_uuid default_repository_policy evaluation
        × (review_of evaluation ≡ review_of evaluation))
apply_repository_policy_iff_example =
    apply_repository_policy_iff short_uuid default_repository_policy evaluation
      (review_of evaluation)
