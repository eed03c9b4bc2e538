-- ===== src/Questions/Tests.antt =====
-- A small analysis that is planned and practised, and the theorems at it.
use understandproof.Base.{
  ℕ, zero, suc, ◌≡◌, ◌↔◌, refl, Bool, true, false, [], ◌∷◌, some, Text, Text-discrete, text, length,
}
use understandproof.Domain.Primitives.{is_lower_hex, is_git_sha, is_sha256}
use understandproof.Media.Bytes.{Bytes}
use understandproof.Media.Canonical.{decimal}
use understandproof.Media.Encoding.{hex_digit, encode_hex}
use understandproof.Policy.{is_repository_policy, default_repository_policy}
use understandproof.Questions.{AnalysisSnapshot, DiffAnchor, small, ProofPlan}
use understandproof.Questions.Texts.{
  text_leb, insert_by, sort_by, unique_texts, bounded_display_path, location_of, prompt_by_intent,
  prompt_for, second_point, rubric_for, risk_level_text, intent_text, rationale,
}
use understandproof.Questions.Pool.{
  push_focus, push_focuses, anchor_by_id, candidates_at, candidates_of, focused_candidates,
  plain_candidates, candidate_pool,
}
use understandproof.Questions.Planner.{
  requested_budget, plan_proof_budget, domain_seed, candidate_key, presented_anchor, is_anchor,
  is_proof_question, is_proof_plan, sha256_hex, deterministic_uuid, stable_order, question_of,
  questions_from, draft_plan, plan_proof,
}
use understandproof.Questions.Planner.Plans.{IsPlanFor, plan_proof-IsPlanFor}
use understandproof.Questions.Practice.{
  PracticeSet, PracticeInput, focus_text, practice_seed_of, is_practice_question, is_practice_set,
  practice_questions_from, draft_practice_set, create_practice_set,
  practice_and_proof_are_separated,
}
use understandproof.Questions.Practice.Separation.{IdsApart, practice_and_proof_are_separated_iff}

abbrev twos : ℕ → Bytes
twos zero = []
twos (suc n) = 17 ∷ twos n

-- The tests' hash is the same for every text.
abbrev one_hash : Text → Bytes
one_hash value = twos 32

abbrev any_uuid : Text → Bool
any_uuid s = true

abbrev anchor : DiffAnchor
anchor = record {
  id = text "a1";
  file = text "src/a.ts";
  hunk_header = text "@@ -1 +1 @@";
  old_start = 1;
  new_start = 7;
  changed_lines = 2;
  evidence = text "+ return 1";
}

abbrev analysis : AnalysisSnapshot
analysis = record {
  head_sha = text "aaaaaaaaaaaaaaaaaaaaaaaaaaaaaaaaaaaaaaaa";
  risk_level = small;
  risk_vector = record {
    scope = 1;
    sensitive_surface = 0;
    migration = 0;
    concurrency = 0;
    test_gap = 0;
    unverifiable = 0;
    total = 1;
  };
  behavioral_changes = record { kind = text "api"; anchor_id = text "a1" } ∷ [];
  risks = [];
  anchors = anchor ∷ [];
  generated_changed_lines = 0;
}

abbrev plan : ProofPlan
plan = draft_plan one_hash analysis default_repository_policy (text "seed") 5

runs : Unit {0}
unfolding Text-discrete is_lower_hex is_sha256 decimal hex_digit encode_hex is_repository_policy
    default_repository_policy text_leb insert_by sort_by unique_texts bounded_display_path
    location_of prompt_by_intent prompt_for second_point rubric_for risk_level_text intent_text
    rationale push_focus push_focuses anchor_by_id candidates_at candidates_of focused_candidates
    plain_candidates candidate_pool requested_budget plan_proof_budget domain_seed candidate_key
    presented_anchor is_anchor is_proof_question is_proof_plan sha256_hex deterministic_uuid
    stable_order question_of questions_from draft_plan plan_proof is_git_sha focus_text
    practice_seed_of is_practice_question is_practice_set practice_questions_from draft_practice_set
    create_practice_set practice_and_proof_are_separated
runs = tt

accepts : is_repository_policy default_repository_policy ≡ true
unfolding runs
accepts = refl

one_question : length plan.questions ≡ 1
unfolding runs
one_question = refl

plans : plan_proof one_hash any_uuid analysis default_repository_policy (text "seed") 5 ≡ some plan
unfolding runs
plans = refl

plan_proof-IsPlanFor_example : IsPlanFor analysis default_repository_policy plan
plan_proof-IsPlanFor_example =
    plan_proof-IsPlanFor one_hash any_uuid analysis default_repository_policy (text "seed") 5 plan
      accepts plans

abbrev practice_input : PracticeInput
practice_input = record { analysis = analysis; practice_seed = text "practice"; maximum_items = 2 }

abbrev practice : PracticeSet
practice = draft_practice_set one_hash practice_input 4

practises : create_practice_set one_hash any_uuid practice_input 4 ≡ some practice
unfolding runs
practises = refl

-- The tests' hash gives all questions one id.
not_separated : practice_and_proof_are_separated practice plan ≡ false
unfolding runs
not_separated = refl

practice_and_proof_are_separated_iff_example :
    (practice_and_proof_are_separated practice plan ≡ true) ↔ IdsApart practice plan
practice_and_proof_are_separated_iff_example =
    practice_and_proof_are_separated_iff one_hash any_uuid practice_input 4 practice analysis
      default_repository_policy (text "seed") 5 plan practises plans
