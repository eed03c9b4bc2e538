-- ===== src/Questions/Practice.antt =====
-- packages/questions/src/planner.ts: `createPracticeSet`, whose questions stay private to a practice session, and
-- `practiceAndProofAreSeparated`. SHA-256 of a text and the UUID test are parameters.
pub mod Separation
use understandproof.Base.{
  ℕ, suc, Bool, not, ◌&&◌, List, [], ◌∷◌, ◌++◌, map, Option, some, none, Text, text_eq, text,
  length, take, every, includes, leb, if◌then◌else◌,
}
use understandproof.Domain.Primitives.{is_git_sha, is_sha256}
use understandproof.Media.Bytes.{Bytes}
use understandproof.Questions.{AnalysisSnapshot, ProofPlan}
use understandproof.Questions.Planner.{sha256_hex, deterministic_uuid, stable_order}

pub data PracticeFocus : Type 0 where
  patch_map behavior risk testing rollback : PracticeFocus

pub record PracticeItem : Type 0 where
  pub focus : PracticeFocus
  pub prompt : Text

-- `PRACTICE_POOL`
abbrev pub practice_pool : List PracticeItem
practice_pool =
    record {
      focus = patch_map;
      prompt =
          text
            "Summarize the purpose of this patch in one sentence, then name the component boundaries it crosses.";
    }
    ∷ record {
      focus = behavior;
      prompt =
          text
            "Describe one user-visible behavior that changed and one input for which that difference matters.";
    }
    ∷ record {
      focus = risk;
      prompt =
          text
            "Identify the riskiest assumption in the patch and explain how you would notice that assumption failing.";
    }
    ∷ record {
      focus = testing;
      prompt =
          text
            "Sketch a minimal test matrix covering the normal path, one boundary case, and one failure path.";
    }
    ∷ record {
      focus = rollback;
      prompt =
          text
            "Choose an observable rollback signal and describe the safest first response if that signal appears.";
    }
    ∷ []

unfoldable pub focus_text : PracticeFocus → Text
focus_text patch_map = text "patch_map"
focus_text behavior = text "behavior"
focus_text risk = text "risk"
focus_text testing = text "testing"
focus_text rollback = text "rollback"

pub record PracticeQuestion : Type 0 where
  pub id : Text
  pub order : ℕ
  pub focus : PracticeFocus
  pub prompt : Text

pub record PracticeSet : Type 0 where
  pub id : Text
  pub head_sha : Text
  pub seed_commitment : Text
  pub questions : List PracticeQuestion
  pub created_at : ℕ

-- `PracticeInput`, once its schema has accepted it
pub record PracticeInput : Type 0 where
  pub analysis : AnalysisSnapshot
  pub practice_seed : Text
  pub maximum_items : ℕ

unfoldable pub practice_seed_of : PracticeInput → Text
practice_seed_of input =
    text "practice:"
    ++ input.practice_seed
    ++ b':' ∷ input.analysis.head_sha
    ++ text ":practice-questions-v1"

module _ (is_uuid : Text → Bool) where
  unfoldable pub is_practice_question : PracticeQuestion → Bool
  is_practice_question q =
      is_uuid q.id
      && leb 1 q.order
      && leb q.order 5
      && leb 20 (length q.prompt)
      && leb (length q.prompt) 500

  -- `PracticeSetSchema`
  unfoldable pub is_practice_set : PracticeSet → Bool
  is_practice_set s =
      is_uuid s.id
      && is_git_sha s.head_sha
      && is_sha256 s.seed_commitment
      && every is_practice_question s.questions
      && leb 1 (length s.questions)
      && leb (length s.questions) 5

module _ (sha256 : Text → Bytes) where
  unfoldable pub practice_questions_from : Text → ℕ → List PracticeItem → List PracticeQuestion
  practice_questions_from seed order [] = []
  practice_questions_from seed order (item ∷ rest) =
      record {
        id = deterministic_uuid sha256 (seed ++ text ":question:" ++ focus_text item.focus);
        order = order;
        focus = item.focus;
        prompt = item.prompt;
      }
      ∷ practice_questions_from seed (suc order) rest

  unfoldable pub draft_practice_set : PracticeInput → ℕ → PracticeSet
  draft_practice_set input now =
      let seed = practice_seed_of input in
      let selected =
        take input.maximum_items
          (stable_order sha256 seed (λ item. focus_text item.focus) practice_pool) in
      record {
        id = deterministic_uuid sha256 (seed ++ text ":set");
        head_sha = input.analysis.head_sha;
        seed_commitment = sha256_hex sha256 seed;
        questions = practice_questions_from seed 1 selected;
        created_at = now;
      }

  module _ (is_uuid : Text → Bool) where
    -- `createPracticeSet`, which gives nothing when the schema of the set throws.
    unfoldable pub create_practice_set : PracticeInput → ℕ → Option PracticeSet
    create_practice_set input now =
        let set = draft_practice_set input now in
        if is_practice_set is_uuid set then some set else none

unfoldable pub practice_and_proof_are_separated : PracticeSet → ProofPlan → Bool
practice_and_proof_are_separated practice proof =
    every
      (λ q.
        not (includes (map (λ p. p.id) proof.questions) q.id)
        && not (includes (map (λ p. p.prompt) proof.questions) q.prompt))
      practice.questions
