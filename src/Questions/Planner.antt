-- ===== src/Questions/Planner.antt =====
-- packages/questions/src/planner.ts: `planProofBudget` and `planProof`. SHA-256 of a text, the plan as JSON and
-- the UUID test are parameters. Texts are sorted by their code units, which is the order of the locale on
-- the hexadecimal digests that are compared.
pub mod Plans
use understandproof.Base.{
  ℕ, zero, suc, ◌+◌, ◌*◌, ◌/◌, ◌%◌, min, Bool, true, false, not, ◌&&◌, ◌||◌, List, [], ◌∷◌, ◌++◌,
  map, Option, none, some, nat_value, Text, text_eq, text, length, take, drop, every, includes, leb,
  nat_eqb, ◌==◌, Outcome, ok, throw, if◌then◌else◌,
}
use understandproof.Domain.Primitives.{is_sha256}
use understandproof.Media.Bytes.{Bytes}
use understandproof.Media.Encoding.{encode_hex}
use understandproof.Policy.{RepositoryPolicy}
use understandproof.Questions.{
  RiskLevel, small, medium, high_risk, mega, DiffAnchor, AnalysisSnapshot, Candidate, PlanStatus,
  ready, split_recommended, ProofQuestion, ProofPlan,
}
use understandproof.Questions.Texts.{sort_by, prompt_for, rubric_for, rationale, intent_text}
use understandproof.Questions.Pool.{candidate_pool}

abbrev pub risk_budget : RiskLevel → ℕ → ℕ
risk_budget small total = 1
risk_budget medium total = if leb 8 total then 3 else 2
risk_budget high_risk total = if leb 15 total then 5 else 4
risk_budget mega total = 0

abbrev pub is_mega : RiskLevel → Bool
is_mega mega = true
is_mega other_level = false

-- `Math.max`
abbrev pub larger : ℕ → ℕ → ℕ
larger a b = if leb a b then b else a

abbrev pub cannot_ask : AnalysisSnapshot → Bool
cannot_ask a = is_mega a.risk_level || nat_eqb (length a.anchors) 0

unfoldable pub requested_budget : AnalysisSnapshot → RepositoryPolicy → ℕ
requested_budget a policy =
    if cannot_ask a
    then 0
    else min (nat_value policy.proof.maximum_questions) (
        larger (nat_value policy.proof.minimum_questions)
          (risk_budget a.risk_level a.risk_vector.total))

pub record ProofBudgetPlan : Type 0 where
  pub status : PlanStatus
  pub question_budget : ℕ
  pub rationale : List Text
  pub split_recommendation : Option Text

unfoldable pub plan_proof_budget : AnalysisSnapshot → RepositoryPolicy → ProofBudgetPlan
plan_proof_budget a policy =
    let budget = requested_budget a policy in
    let reasons = rationale a budget in
    if is_mega a.risk_level
    then record {
      status = split_recommended;
      question_budget = 0;
      rationale = reasons;
      split_recommendation = some (
          text
            "Split or narrow the pull request so each proof can be grounded in a bounded, reviewable behavior set.");
    }
    else if nat_eqb (length a.anchors) 0
    then record {
      status = split_recommended;
      question_budget = 0;
      rationale = reasons;
      split_recommendation =
          some (
            text "Provide a text patch with visible hunk anchors before creating proof questions.");
    }
    else record {
      status = ready;
      question_budget = budget;
      rationale = reasons;
      split_recommendation = none;
    }

-- One byte of a list changed.
abbrev change_at : ℕ → (ℕ → ℕ) → Bytes → Bytes
change_at at f [] = []
change_at zero f (b ∷ bs) = f b ∷ bs
change_at (suc at) f (b ∷ bs) = b ∷ change_at at f bs

abbrev pub version_text : Text
version_text = text "proof-planner-v1"

abbrev pub templates_text : Text
templates_text = text "proof-questions-v1"

unfoldable pub domain_seed : Text → Text → Text
domain_seed server_seed head_sha =
    text "proof:" ++ server_seed ++ b':' ∷ head_sha ++ b':' ∷ version_text ++ b':' ∷ templates_text

unfoldable pub candidate_key : Candidate → Text
candidate_key c = c.anchor.id ++ b':' ∷ c.focus ++ b':' ∷ intent_text c.intent

-- The anchor of a question: the evidence is replaced.
unfoldable pub presented_anchor : DiffAnchor → DiffAnchor
presented_anchor a = record {
  id = a.id;
  file = a.file;
  hunk_header = a.hunk_header;
  old_start = a.old_start;
  new_start = a.new_start;
  changed_lines = a.changed_lines;
  evidence =
      text
        "Patch content remains external data; resolve this bounded anchor when presenting the question.";
}

abbrev pub answer_seconds : RiskLevel → ℕ
answer_seconds high_risk = 120
answer_seconds other_level = 90

abbrev is_bounded : ℕ → ℕ → Text → Bool
is_bounded least most s = leb least (length s) && leb (length s) most

-- `new Set(texts).size === texts.length`
abbrev pub all_different : List Text → Bool
all_different [] = true
all_different (t ∷ rest) = not (includes rest t) && all_different rest

abbrev is_none {ℓ} : {A : Type ℓ} → Option A → Bool
is_none none = true
is_none (some a) = false

abbrev is_ready : PlanStatus → Bool
is_ready ready = true
is_ready split_recommended = false

abbrev is_split_text : Option Text → Bool
is_split_text none = true
is_split_text (some t) = is_bounded 1 500 t

-- `DiffAnchorSchema`
unfoldable pub is_anchor : DiffAnchor → Bool
is_anchor a =
    is_bounded 1 1024 a.file
    && is_bounded 1 500 a.hunk_header
    && leb 1 a.changed_lines
    && is_bounded 1 500 a.evidence

module _ (is_uuid : Text → Bool) where
  unfoldable pub is_proof_question : ProofQuestion → Bool
  is_proof_question q =
      is_uuid q.id
      && leb 1 q.order
      && leb q.order 5
      && is_bounded 1 100 q.focus
      && is_bounded 20 600 q.prompt
      && is_anchor q.anchor
      && every (is_bounded 5 300) q.required_points
      && leb 2 (length q.required_points)
      && leb (length q.required_points) 5
      && leb 30 q.maximum_answer_seconds
      && leb q.maximum_answer_seconds 180

  -- `ProofPlanSchema`, but for the literals and for what is copied from an analysis that was accepted
  unfoldable pub is_proof_plan : ProofPlan → Bool
  is_proof_plan p =
      is_uuid p.id
      && leb p.question_budget 5
      && every (is_bounded 1 300) p.rationale
      && leb 1 (length p.rationale)
      && is_split_text p.split_recommendation
      && is_sha256 p.seed_commitment
      && every is_proof_question p.questions
      && leb (length p.questions) 5
      && nat_eqb p.question_budget (length p.questions)
      && all_different (map (λ q. q.id) p.questions)
      && all_different (map (λ q. q.prompt) p.questions)
      && not (is_ready p.status && nat_eqb (length p.questions) 0)
      && not (not (is_ready p.status) && is_none p.split_recommendation)

module _ (sha256 : Text → Bytes) where
  unfoldable pub sha256_hex : Text → Text
  sha256_hex value = encode_hex (sha256 value)

  -- The first 16 bytes of the hash, with the bits of the version and the variant.
  unfoldable pub deterministic_uuid : Text → Text
  deterministic_uuid value =
      let bytes =
        change_at 8 (λ b. b % 64 + 128) (change_at 6 (λ b. b % 16 + 80) (take 16 (sha256 value))) in
      let hex = encode_hex bytes in
      take 8 hex
      ++ b'-' ∷ take 4 (drop 8 hex)
      ++ b'-' ∷ take 4 (drop 12 hex)
      ++ b'-' ∷ take 4 (drop 16 hex)
      ++ b'-' ∷ take 12 (drop 20 hex)

  unfoldable pub stable_order : {A : Type 0} → Text → (A → Text) → List A → List A
  stable_order seed key items = sort_by (λ item. sha256_hex (seed ++ b':' ∷ key item)) items

  unfoldable pub question_of : Text → RiskLevel → ℕ → Candidate → ProofQuestion
  question_of seed level order c = record {
    id = deterministic_uuid (seed ++ text ":question:" ++ candidate_key c);
    order = order;
    intent = c.intent;
    focus = c.focus;
    prompt = prompt_for c;
    anchor = presented_anchor c.anchor;
    required_points = rubric_for c;
    maximum_answer_seconds = answer_seconds level;
  }

  -- `candidates.map((candidate, index) => ...)` from an order on.
  unfoldable pub questions_from : Text → RiskLevel → ℕ → List Candidate → List ProofQuestion
  questions_from seed level order [] = []
  questions_from seed level order (c ∷ rest) =
      question_of seed level order c ∷ questions_from seed level (suc order) rest

  -- The plan before its schema is asked. Its hash, which is of the plan as JSON, is not part of it.
  unfoldable pub draft_plan : AnalysisSnapshot → RepositoryPolicy → Text → ℕ → ProofPlan
  draft_plan a policy server_seed now =
      let budget = plan_proof_budget a policy in
      let seed = domain_seed server_seed a.head_sha in
      let questions =
        questions_from seed a.risk_level 1
          (take budget.question_budget (stable_order seed candidate_key (candidate_pool a))) in
      record {
        id = deterministic_uuid (seed ++ text ":plan");
        head_sha = a.head_sha;
        risk_level = a.risk_level;
        risk_vector = a.risk_vector;
        status = budget.status;
        question_budget = length questions;
        rationale = budget.rationale;
        split_recommendation = budget.split_recommendation;
        seed_commitment = sha256_hex seed;
        questions = questions;
        created_at = now;
      }

  module _ (is_uuid : Text → Bool) where
    -- `planProof`, which gives nothing when the schema of the plan throws.
    unfoldable pub plan_proof : AnalysisSnapshot → RepositoryPolicy → Text → ℕ → Option ProofPlan
    plan_proof a policy server_seed now =
        let plan = draft_plan a policy server_seed now in
        if is_proof_plan is_uuid plan then some plan else none
