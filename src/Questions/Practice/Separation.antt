-- ===== src/Questions/Practice/Separation.antt =====
-- The questions of a practice set and those of a plan.
use understandproof.Base.{
  ℕ, suc, ◌≡◌, ◌↔◌, refl, sym, ap, subst, ◌∙◌, Bool, true, false, List, [], ◌∷◌, map, Memᴰ, some,
  Text, text_eq, Text-discrete, text, arith, take, includes, includes→Memᴰ, Memᴰ→includes, All,
  All-at, every→All, All→every, inl, inr, Bool-cases,
}
use mathlib.Core.Option.{some-injective}
use understandproof.Media.Bytes.{Bytes}
use understandproof.Policy.{RepositoryPolicy}
use understandproof.Questions.{
  RiskLevel, AnalysisSnapshot, Candidate, QuestionIntent, explain, predict, failure_path,
  test_and_rollback, tradeoff, ProofQuestion, ProofPlan,
}
use understandproof.Questions.Texts.{prompt_by_intent, prompt_for}
use understandproof.Questions.Planner.{
  stable_order, question_of, questions_from, draft_plan, plan_proof,
}
use understandproof.Questions.Planner.Plans.{take-All, sort_by-All, plan_proof-accepted}
use understandproof.Questions.Practice.{
  PracticeItem, practice_pool, PracticeQuestion, PracticeSet, PracticeInput, practice_seed_of,
  is_practice_set, practice_questions_from, draft_practice_set, create_practice_set,
  practice_and_proof_are_separated,
}

-- How the prompts of a plan begin.
abbrev begins_as_proof : Text → Bool
begins_as_proof prompt =
    includes
      (text "Explain th"
        ∷ text "Predict wh"
        ∷ text "Describe t"
        ∷ text "Walk throu"
        ∷ text "Give a foc"
        ∷ [])
      (take 10 prompt)

prompt_by_intent-begins :
    (intent : QuestionIntent) (location : Text)
    → begins_as_proof (prompt_by_intent intent location) ≡ true
unfolding prompt_by_intent Text-discrete
prompt_by_intent-begins explain location = refl
prompt_by_intent-begins predict location = refl
prompt_by_intent-begins tradeoff location = refl
prompt_by_intent-begins failure_path location = refl
prompt_by_intent-begins test_and_rollback location = refl

practice_pool-begins : All (λ item. begins_as_proof item.prompt ≡ false) practice_pool
unfolding Text-discrete
practice_pool-begins = (refl, (refl, (refl, (refl, (refl, tt)))))

module _ (sha256 : Text → Bytes) where
  questions_from-begins :
      (seed : Text) (level : RiskLevel) (order : ℕ) (cs : List Candidate)
      → All (λ q. begins_as_proof q.prompt ≡ true) (questions_from sha256 seed level order cs)
  unfolding questions_from question_of prompt_for
  questions_from-begins seed level order [] = tt
  questions_from-begins seed level order (c ∷ rest) =
      (prompt_by_intent-begins c.intent _, questions_from-begins seed level (suc order) rest)

  draft_plan-begins :
      (a : AnalysisSnapshot) (policy : RepositoryPolicy) (server_seed : Text) (now : ℕ)
      → All
          (λ q. begins_as_proof q.prompt ≡ true)
          (draft_plan sha256 a policy server_seed now).questions
  unfolding draft_plan
  draft_plan-begins a policy server_seed now = questions_from-begins _ a.risk_level 1 _

  practice_questions_from-begins :
      (seed : Text) (order : ℕ) (items : List PracticeItem)
      → All (λ item. begins_as_proof item.prompt ≡ false) items
      → All
          (λ q. begins_as_proof q.prompt ≡ false)
          (practice_questions_from sha256 seed order items)
  unfolding practice_questions_from
  practice_questions_from-begins seed order [] h = tt
  practice_questions_from-begins seed order (item ∷ rest) h =
      (h.0, practice_questions_from-begins seed (suc order) rest h.1)

  draft_practice_set-begins :
      (input : PracticeInput) (now : ℕ)
      → All (λ q. begins_as_proof q.prompt ≡ false) (draft_practice_set sha256 input now).questions
  unfolding draft_practice_set stable_order
  draft_practice_set-begins input now =
      practice_questions_from-begins (practice_seed_of input) 1 _
        (take-All _ input.maximum_items _ (sort_by-All _ _ practice_pool practice_pool-begins))

module _ {A : Type 0} where
  map-Memᴰ : {B : Type 0} (f : A → B) {a : A} {xs : List A} → Memᴰ a xs → Memᴰ (f a) (map f xs)
  map-Memᴰ f (Memᴰ.head same) = Memᴰ.head (ap f same)
  map-Memᴰ f (Memᴰ.tail later) = Memᴰ.tail (map-Memᴰ f later)

  map-origin :
      {B : Type 0} (f : A → B) (b : B) (xs : List A)
      → Memᴰ b (map f xs)
      → (a : A) × Memᴰ a xs × (b ≡ f a)
  map-origin f b [] m = elim m [ ]
  map-origin f b (x ∷ rest) (Memᴰ.head same) = (x, Memᴰ.head refl, same)
  map-origin f b (x ∷ rest) (Memᴰ.tail later) =
      let (a, m, e) = map-origin f b rest later in (a, Memᴰ.tail m, e)

  All-from : (P : A → Type 0) (xs : List A) → ((a : A) → Memᴰ a xs → P a) → All P xs
  All-from P [] h = tt
  All-from P (x ∷ rest) h = (h x (Memᴰ.head refl), All-from P rest (λ a m. h a (Memᴰ.tail m)))

-- A prompt that begins otherwise is none of the list's.
begins-excludes :
    (prompt : Text) (qs : List ProofQuestion)
    → begins_as_proof prompt ≡ false
    → All (λ q. begins_as_proof q.prompt ≡ true) qs
    → includes (map (λ q. q.prompt) qs) prompt ≡ false
begins-excludes prompt qs begin h = elim (Bool-cases (includes (map (λ q. q.prompt) qs) prompt)) [
  | inl listed ↦
      let (q, m, same) = map-origin (λ q. q.prompt) prompt qs (includes→Memᴰ _ prompt listed) in
      absurd (ground (arith, sym (All-at _ qs h m) ∙ ap begins_as_proof (sym same) ∙ begin))
  | inr absent ↦ absent
]

-- No question of the set has the id of a question of the plan.
unfoldable pub IdsApart : PracticeSet → ProofPlan → Type 0
IdsApart practice proof =
    (q : PracticeQuestion)
    → Memᴰ q practice.questions
    → (p : ProofQuestion) → Memᴰ p proof.questions
    → ¬ (q.id ≡ p.id)

module _ (practice : PracticeSet) (proof : ProofPlan) where
  separated→IdsApart :
      practice_and_proof_are_separated practice proof ≡ true → IdsApart practice proof
  unfolding practice_and_proof_are_separated IdsApart
  separated→IdsApart h q m p n same = ground (
    arith,
    All-at _ practice.questions (every→All _ practice.questions h) m,
    Memᴰ→includes (
        subst (λ id. Memᴰ id (map (λ r. r.id) proof.questions)) (sym same)
          (map-Memᴰ (λ r. r.id) n)),
  )

  IdsApart→absent :
      IdsApart practice proof
      → (q : PracticeQuestion) → Memᴰ q practice.questions
      → includes (map (λ p. p.id) proof.questions) q.id ≡ false
  unfolding IdsApart
  IdsApart→absent apart q m = elim (Bool-cases (includes (map (λ p. p.id) proof.questions) q.id)) [
    | inl listed ↦
        let (p, n, same) =
          map-origin (λ r. r.id) q.id proof.questions (includes→Memᴰ _ q.id listed) in
        absurd (apart q m p n same)
    | inr absent ↦ absent
  ]

  IdsApart→separated :
      IdsApart practice proof
      → All (λ q. begins_as_proof q.prompt ≡ false) practice.questions
      → All (λ p. begins_as_proof p.prompt ≡ true) proof.questions
      → practice_and_proof_are_separated practice proof ≡ true
  unfolding practice_and_proof_are_separated
  IdsApart→separated apart practice_begins proof_begins = All→every _ practice.questions (
      All-from _ practice.questions (λ q m. ground (
        arith,
        IdsApart→absent apart q m,
        begins-excludes q.prompt proof.questions (All-at _ practice.questions practice_begins m)
            proof_begins,
      )))

module _ (sha256 : Text → Bytes) (is_uuid : Text → Bool) where
  create_practice_set-draft :
      (input : PracticeInput) (now : ℕ) (practice : PracticeSet)
      → create_practice_set sha256 is_uuid input now ≡ some practice
      → draft_practice_set sha256 input now ≡ practice
  unfolding create_practice_set
  create_practice_set-draft input now practice e =
      let set = draft_practice_set sha256 input now in
      elim (Bool-cases (is_practice_set is_uuid set)) [
        | inl accepted ↦ some-injective set practice (rw accepted at e)
        | inr refused ↦ absurd (ground (arith, rw refused at e))
      ]

  -- For a set that createPracticeSet returns and a plan that planProof returns, of any analyses and seeds,
  -- practiceAndProofAreSeparated holds exactly if no practice question has the id of a question of the plan:
  -- their prompts never agree.
  pub practice_and_proof_are_separated_iff :
      (input : PracticeInput) (created_at : ℕ) (practice : PracticeSet) (a : AnalysisSnapshot)
      (policy : RepositoryPolicy) (server_seed : Text) (now : ℕ) (proof : ProofPlan)
      → create_practice_set sha256 is_uuid input created_at ≡ some practice
      → plan_proof sha256 is_uuid a policy server_seed now ≡ some proof
      → (practice_and_proof_are_separated practice proof ≡ true) ↔ IdsApart practice proof
  practice_and_proof_are_separated_iff input created_at practice a policy server_seed now proof made
        planned =
      (
        separated→IdsApart practice proof,
        λ apart.
            IdsApart→separated practice proof apart
              (subst (λ s. All (λ q. begins_as_proof q.prompt ≡ false) s.questions)
                (create_practice_set-draft input created_at practice made)
                (draft_practice_set-begins sha256 input created_at))
              (subst (λ p. All (λ q. begins_as_proof q.prompt ≡ true) p.questions)
                (plan_proof-accepted sha256 is_uuid a policy server_seed now proof planned).0
                (draft_plan-begins sha256 a policy server_seed now)),
      )
