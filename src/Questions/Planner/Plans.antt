-- ===== src/Questions/Planner/Plans.antt =====
-- What a plan is that `planProof` returns.
use understandproof.Base.{
  ℕ, zero, suc, ◌≤◌, ◌≡◌, ◌↔◌, refl, sym, ap, subst, ◌∙◌, ◌⊎◌, inl, inr, min, Bool, true, false,
  List, [], ◌∷◌, map, Memᴰ, some, nat_value, Number, nat, other, is_int_between, leb→le, Text,
  arith, length, take, length-take, All, nat_eqb, if◌then◌else◌, Bool-cases,
}
use mathlib.Core.Option.{some-injective}
use understandproof.Media.Bytes.{Bytes}
use understandproof.Policy.{RepositoryPolicy, is_repository_policy}
use understandproof.Questions.{
  RiskLevel, small, medium, high_risk, mega, DiffAnchor, AnalysisSnapshot, Candidate,
  split_recommended, ProofQuestion, ProofPlan,
}
use understandproof.Questions.Texts.{text_leb, insert_by, sort_by}
use understandproof.Questions.Pool.{
  IsGrounded, candidate_pool, candidate_pool-IsGrounded, candidate_pool-five,
}
use understandproof.Questions.Planner.{
  risk_budget, is_mega, larger, cannot_ask, requested_budget, plan_proof_budget, candidate_key,
  presented_anchor, all_different, is_proof_plan, domain_seed, stable_order, question_of,
  questions_from, draft_plan, plan_proof,
}

module _ {A : Type 0} (key : A → Text) where
  insert_by-length : (x : A) (xs : List A) → length (insert_by key x xs) ≡ suc (length xs)
  unfolding insert_by
  insert_by-length x [] = refl
  insert_by-length x (y ∷ rest) = elim (Bool-cases (text_leb (key x) (key y))) [
    | inl before ↦ rw before refl
    | inr after ↦ rw after (ap suc (insert_by-length x rest))
  ]

  sort_by-length : (xs : List A) → length (sort_by key xs) ≡ length xs
  unfolding sort_by
  sort_by-length [] = refl
  sort_by-length (x ∷ rest) = insert_by-length x (sort_by key rest) ∙ ap suc (sort_by-length rest)

  insert_by-All :
      (P : A → Type 0) (x : A) (xs : List A) → P x → All P xs → All P (insert_by key x xs)
  unfolding insert_by
  insert_by-All P x [] p h = (p, tt)
  insert_by-All P x (y ∷ rest) p h = elim (Bool-cases (text_leb (key x) (key y))) [
    | inl before ↦ rw before (p, h)
    | inr after ↦ rw after (h.0, insert_by-All P x rest p h.1)
  ]

  pub sort_by-All : (P : A → Type 0) (xs : List A) → All P xs → All P (sort_by key xs)
  unfolding sort_by
  sort_by-All P [] h = tt
  sort_by-All P (x ∷ rest) h = insert_by-All P x (sort_by key rest) h.0 (sort_by-All P rest h.1)

pub take-All : {A : Type 0} (P : A → Type 0) (n : ℕ) (xs : List A) → All P xs → All P (take n xs)
take-All P zero xs h = tt
take-All P (suc n) [] h = tt
take-All P (suc n) (x ∷ rest) h = (h.0, take-All P n rest h.1)

-- The orders of the questions count up from a number.
unfoldable pub CountFrom : ℕ → List ProofQuestion → Type 0
CountFrom n [] = Unit
CountFrom n (q ∷ rest) = (q.order ≡ n) × CountFrom (suc n) rest

-- The question is about an anchor of the analysis.
pub record IsAnchored (anchors : List DiffAnchor) (q : ProofQuestion) : Type 0 where
  pub source : DiffAnchor
  pub listed : Memᴰ source anchors
  pub presented : q.anchor ≡ presented_anchor source

pub record IsPlanFor (a : AnalysisSnapshot) (policy : RepositoryPolicy) (p : ProofPlan)
    : Type 0 where
  pub asks_budget : length p.questions ≡ requested_budget a policy
  pub states_budget : p.question_budget ≡ length p.questions
  pub splits : (p.status ≡ split_recommended) ↔ ((a.risk_level ≡ mega) ⊎ (a.anchors ≡ []))
  pub within :
      (p.status ≡ split_recommended)
      ⊎ ((nat_value policy.proof.minimum_questions ≤ length p.questions)
          × (length p.questions ≤ nat_value policy.proof.maximum_questions))
  pub counted : CountFrom 1 p.questions
  pub anchored : All (IsAnchored a.anchors) p.questions
  pub ids_differ : all_different (map (λ q. q.id) p.questions) ≡ true
  pub prompts_differ : all_different (map (λ q. q.prompt) p.questions) ≡ true

module _ (sha256 : Text → Bytes) where
  questions_from-CountFrom :
      (seed : Text) (level : RiskLevel) (order : ℕ) (cs : List Candidate)
      → CountFrom order (questions_from sha256 seed level order cs)
  unfolding questions_from question_of CountFrom
  questions_from-CountFrom seed level order [] = tt
  questions_from-CountFrom seed level order (c ∷ rest) =
      (refl, questions_from-CountFrom seed level (suc order) rest)

  questions_from-length :
      (seed : Text) (level : RiskLevel) (order : ℕ) (cs : List Candidate)
      → length (questions_from sha256 seed level order cs) ≡ length cs
  unfolding questions_from
  questions_from-length seed level order [] = refl
  questions_from-length seed level order (c ∷ rest) =
      ap suc (questions_from-length seed level (suc order) rest)

  questions_from-IsAnchored :
      (anchors : List DiffAnchor) (seed : Text) (level : RiskLevel) (order : ℕ)
      (cs : List Candidate)
      → All (IsGrounded anchors) cs
      → All (IsAnchored anchors) (questions_from sha256 seed level order cs)
  unfolding questions_from question_of
  questions_from-IsAnchored anchors seed level order [] h = tt
  questions_from-IsAnchored anchors seed level order (c ∷ rest) h = (
    record { source = c.anchor; listed = h.0; presented = refl },
    questions_from-IsAnchored anchors seed level (suc order) rest h.1,
  )

is_mega_iff : (level : RiskLevel) → (is_mega level ≡ true) ↔ (level ≡ mega)
is_mega_iff small = (λ e. ground (arith, e), λ e. ground (arith, e))
is_mega_iff medium = (λ e. ground (arith, e), λ e. ground (arith, e))
is_mega_iff high_risk = (λ e. ground (arith, e), λ e. ground (arith, e))
is_mega_iff mega = (λ e. refl, λ e. refl)

no_anchors_iff : (anchors : List DiffAnchor) → (nat_eqb (length anchors) 0 ≡ true) ↔ (anchors ≡ [])
no_anchors_iff [] = (λ e. refl, λ e. refl)
no_anchors_iff (x ∷ rest) = (λ e. ground (arith, e), λ e. ground (arith, e))

cannot_ask-cases :
    (a : AnalysisSnapshot) → cannot_ask a ≡ true → (a.risk_level ≡ mega) ⊎ (a.anchors ≡ [])
cannot_ask-cases a e = elim (Bool-cases (is_mega a.risk_level)) [
  | inl too_large ↦ inl ((is_mega_iff a.risk_level).0 too_large)
  | inr bounded ↦ inr ((no_anchors_iff a.anchors).0 (ground (arith, e, bounded)))
]

cannot_ask-from :
    (a : AnalysisSnapshot) → (a.risk_level ≡ mega) ⊎ (a.anchors ≡ []) → cannot_ask a ≡ true
cannot_ask-from a (inl too_large) = ground (arith, (is_mega_iff a.risk_level).1 too_large)
cannot_ask-from a (inr none_there) = ground (arith, (no_anchors_iff a.anchors).1 none_there)

plan_proof_budget-facts :
    (a : AnalysisSnapshot) (policy : RepositoryPolicy)
    → ((plan_proof_budget a policy).question_budget ≡ requested_budget a policy)
      × (((plan_proof_budget a policy).status ≡ split_recommended) ↔ (cannot_ask a ≡ true))
unfolding plan_proof_budget requested_budget
plan_proof_budget-facts a policy = elim (Bool-cases (is_mega a.risk_level)) [
  | inl too_large ↦ rw too_large (refl, (λ e. refl, λ e. refl))
  | inr bounded ↦ elim (Bool-cases (nat_eqb (length a.anchors) 0)) [
    | inl none_there ↦ rw (bounded, none_there) (refl, (λ e. refl, λ e. refl))
    | inr some_there ↦
        rw (bounded, some_there)
          (refl, (λ e. absurd (ground (arith, e)), λ e. absurd (ground (arith, e))))
  ]
]

int_below : (n : Number) → is_int_between 1 5 n ≡ true → nat_value n ≤ 5
int_below (nat n) e = ground (arith, e)
int_below other e = omega arith

policy-limits :
    (policy : RepositoryPolicy)
    → is_repository_policy policy ≡ true
    → (nat_value policy.proof.minimum_questions ≤ nat_value policy.proof.maximum_questions)
      × (nat_value policy.proof.maximum_questions ≤ 5)
unfolding is_repository_policy
policy-limits policy h = (
  leb→le (nat_value policy.proof.minimum_questions) (nat_value policy.proof.maximum_questions)
      (ground (arith, h)),
  int_below policy.proof.maximum_questions (ground (arith, h)),
)

budget_within :
    (stops : Bool) (least most wanted : ℕ)
    → least ≤ most
    → most ≤ 5
    → let budget = if stops then 0 else min most (larger least wanted) in
      (budget ≤ 5) × ((stops ≡ true) ⊎ ((least ≤ budget) × (budget ≤ most)))
budget_within true least most wanted h k = (omega arith, inl refl)
budget_within false least most wanted h k = (omega (arith, k), inr (ground (arith, h), omega arith))

requested_budget-within :
    (a : AnalysisSnapshot) (policy : RepositoryPolicy)
    → is_repository_policy policy ≡ true
    → (requested_budget a policy ≤ 5)
      × ((cannot_ask a ≡ true)
          ⊎ ((nat_value policy.proof.minimum_questions ≤ requested_budget a policy)
              × (requested_budget a policy ≤ nat_value policy.proof.maximum_questions)))
unfolding requested_budget
requested_budget-within a policy h =
    let limits = policy-limits policy h in
    budget_within (cannot_ask a) (nat_value policy.proof.minimum_questions)
      (nat_value policy.proof.maximum_questions) (risk_budget a.risk_level a.risk_vector.total)
      limits.0 limits.1

requested_budget-available :
    (a : AnalysisSnapshot) (policy : RepositoryPolicy)
    → requested_budget a policy ≤ 5
    → requested_budget a policy ≤ length (candidate_pool a)
unfolding requested_budget
requested_budget-available a policy h = elim (Bool-cases (cannot_ask a)) [
  | inl stops ↦ rw stops (omega arith)
  | inr asks ↦ omega (arith, h, candidate_pool-five a (ground (arith, asks)))
]

module _ (sha256 : Text → Bytes) where
  asked : AnalysisSnapshot → RepositoryPolicy → Text → List Candidate
  asked a policy server_seed =
      let seed = domain_seed server_seed a.head_sha in
      take (plan_proof_budget a policy).question_budget
        (stable_order sha256 seed candidate_key (candidate_pool a))

  stable_order-length :
      (seed : Text) (cs : List Candidate)
      → length (stable_order sha256 seed candidate_key cs) ≡ length cs
  unfolding stable_order
  stable_order-length seed cs = sort_by-length _ cs

  asked-length :
      (a : AnalysisSnapshot) (policy : RepositoryPolicy) (server_seed : Text)
      → is_repository_policy policy ≡ true
      → length (asked a policy server_seed) ≡ requested_budget a policy
  unfolding asked
  asked-length a policy server_seed h =
      let budget = requested_budget a policy in
      rw ((plan_proof_budget-facts a policy).0) (
        length-take budget _
        ∙ omega (
          arith,
          stable_order-length (domain_seed server_seed a.head_sha) (candidate_pool a),
          requested_budget-available a policy (requested_budget-within a policy h).0,
        ))

  asked-IsGrounded :
      (a : AnalysisSnapshot) (policy : RepositoryPolicy) (server_seed : Text)
      → All (IsGrounded a.anchors) (asked a policy server_seed)
  unfolding asked stable_order
  asked-IsGrounded a policy server_seed =
      take-All (IsGrounded a.anchors) (plan_proof_budget a policy).question_budget _
        (sort_by-All _ (IsGrounded a.anchors) (candidate_pool a) (candidate_pool-IsGrounded a))

  draft_plan-status :
      (a : AnalysisSnapshot) (policy : RepositoryPolicy)
      → ((plan_proof_budget a policy).status ≡ split_recommended)
        ↔ ((a.risk_level ≡ mega) ⊎ (a.anchors ≡ []))
  draft_plan-status a policy =
      let (_, iff) = plan_proof_budget-facts a policy in
      (λ e. cannot_ask-cases a (iff.0 e), λ h. iff.1 (cannot_ask-from a h))

  module _ (is_uuid : Text → Bool) where
    pub plan_proof-accepted :
        (a : AnalysisSnapshot) (policy : RepositoryPolicy) (server_seed : Text) (now : ℕ)
        (p : ProofPlan)
        → plan_proof sha256 is_uuid a policy server_seed now ≡ some p
        → (draft_plan sha256 a policy server_seed now ≡ p) × (is_proof_plan is_uuid p ≡ true)
    unfolding plan_proof
    plan_proof-accepted a policy server_seed now p e =
        let plan = draft_plan sha256 a policy server_seed now in
        elim (Bool-cases (is_proof_plan is_uuid plan)) [
          | inl accepted ↦
              let same = some-injective plan p (rw accepted at e) in
              (same, subst (λ q. is_proof_plan is_uuid q ≡ true) same accepted)
          | inr refused ↦ absurd (ground (arith, rw refused at e))
        ]

    is_proof_plan-differ :
        (p : ProofPlan)
        → is_proof_plan is_uuid p ≡ true
        → (all_different (map (λ q. q.id) p.questions) ≡ true)
          × (all_different (map (λ q. q.prompt) p.questions) ≡ true)
    unfolding is_proof_plan
    is_proof_plan-differ p e = ground (arith, e)

    draft_plan-IsPlanFor :
        (a : AnalysisSnapshot) (policy : RepositoryPolicy) (server_seed : Text) (now : ℕ)
        → is_repository_policy policy ≡ true
        → is_proof_plan is_uuid (draft_plan sha256 a policy server_seed now) ≡ true
        → IsPlanFor a policy (draft_plan sha256 a policy server_seed now)
    unfolding draft_plan asked
    draft_plan-IsPlanFor a policy server_seed now h accepted =
        let seed = domain_seed server_seed a.head_sha in
        let chosen = asked a policy server_seed in
        let budget = requested_budget-within a policy h in
        let differ = is_proof_plan-differ (draft_plan sha256 a policy server_seed now) accepted in
        let size =
          questions_from-length sha256 seed a.risk_level 1 chosen
          ∙ asked-length a policy server_seed h in
        record {
          asks_budget = size;
          states_budget = refl;
          splits = draft_plan-status a policy;
          within = elim budget.1 [
            | inl stops ↦ inl ((plan_proof_budget-facts a policy).1.1 stops)
            | inr limits ↦ inr (omega (arith, limits, size), omega (arith, limits, size))
          ];
          counted = questions_from-CountFrom sha256 seed a.risk_level 1 chosen;
          anchored =
              questions_from-IsAnchored sha256 a.anchors seed a.risk_level 1 chosen
                (asked-IsGrounded a policy server_seed);
          ids_differ = differ.0;
          prompts_differ = differ.1;
        }

    -- A plan that planProof returns under an accepted policy asks exactly the questions of the budget: none
    -- exactly if the change is too large or has no anchor, when it recommends to split it, and otherwise a
    -- number within the policy's bounds. The questions are numbered from 1, each is about an anchor of the
    -- analysis, and no two have one id or one prompt.
    pub plan_proof-IsPlanFor :
        (a : AnalysisSnapshot) (policy : RepositoryPolicy) (server_seed : Text) (now : ℕ)
        (p : ProofPlan)
        → is_repository_policy policy ≡ true
        → plan_proof sha256 is_uuid a policy server_seed now ≡ some p
        → IsPlanFor a policy p
    plan_proof-IsPlanFor a policy server_seed now p h e =
        let (same, accepted) = plan_proof-accepted a policy server_seed now p e in
        subst (IsPlanFor a policy) same (
          draft_plan-IsPlanFor a policy server_seed now h
            (subst (λ q. is_proof_plan is_uuid q ≡ true) (sym same) accepted))
