-- ===== src/Questions/Texts.antt =====
-- packages/questions/src/planner.ts: the texts of a question and of the reasons for a budget, and the
-- orders by text.
use understandproof.Base.{
  ℕ, ◌-◌, Bool, true, false, ◌||◌, ◌&&◌, List, [], ◌∷◌, ◌++◌, Text, text_eq, text, length, take,
  drop, includes, leb, ltb, nat_eqb, if◌then◌else◌,
}
use understandproof.Media.Canonical.{decimal}
use understandproof.Questions.{
  RiskLevel, small, medium, high_risk, mega, AnalysisSnapshot, QuestionIntent, explain, predict,
  failure_path, test_and_rollback, tradeoff, Candidate,
}

-- The order of texts by their code units.
unfoldable pub text_leb : Text → Text → Bool
text_leb [] right = true
text_leb (a ∷ left) [] = false
text_leb (a ∷ left) (b ∷ right) = let rest = text_leb left right in ltb a b || nat_eqb a b && rest

module _ {A : Type 0} (key : A → Text) where
  unfoldable pub insert_by : A → List A → List A
  insert_by x [] = x ∷ []
  insert_by x (y ∷ rest) =
      let later = insert_by x rest in if text_leb (key x) (key y) then x ∷ y ∷ rest else y ∷ later

  -- A stable sort by the key.
  unfoldable pub sort_by : List A → List A
  sort_by [] = []
  sort_by (x ∷ rest) = insert_by x (sort_by rest)

-- `[...new Set(items)]`
unfoldable pub unique_texts : List Text → List Text → List Text
unique_texts seen [] = []
unique_texts seen (x ∷ rest) =
    let without = unique_texts seen rest in
    let later = unique_texts (x ∷ seen) rest in if includes seen x then without else x ∷ later

unfoldable pub bounded_display_path : Text → Text
bounded_display_path path =
    if leb (length path) 240 then path else take 118 path ++ 8230 ∷ drop (length path - 118) path

unfoldable pub location_of : Candidate → Text
location_of c =
    text "the supplied "
    ++ c.focus
    ++ text " anchor "
    ++ c.anchor.id
    ++ text " in "
    ++ bounded_display_path c.anchor.file
    ++ text " near new line "
    ++ decimal c.anchor.new_start

unfoldable pub prompt_by_intent : QuestionIntent → Text → Text
prompt_by_intent explain location =
    text "Explain the observable before-and-after behavior at "
    ++ location
    ++ text ", and why the new behavior is intended."
prompt_by_intent predict location =
    text "Predict what a caller or user observes at "
    ++ location
    ++ text " in both the normal case and one boundary case."
prompt_by_intent tradeoff location =
    text "Describe the main implementation tradeoff at "
    ++ location
    ++ text " and one reasonable alternative you rejected."
prompt_by_intent failure_path location =
    text "Walk through a realistic failure path at "
    ++ location
    ++ text ", including the resulting state and recovery behavior."
prompt_by_intent test_and_rollback location =
    text "Give a focused verification and rollback plan for "
    ++ location
    ++ text ", naming the signal that would trigger rollback."

unfoldable pub prompt_for : Candidate → Text
prompt_for c = prompt_by_intent c.intent (location_of c)

unfoldable pub second_point : QuestionIntent → Text
second_point explain = text "Explains the before-and-after effect and why it is intentional."
second_point predict = text "Predicts both a normal outcome and a relevant boundary outcome."
second_point tradeoff = text "Names a concrete tradeoff and a plausible alternative."
second_point failure_path =
    text "Explains failure state, containment, and recovery or retry behavior."
second_point test_and_rollback = text "Proposes an observable test and a specific rollback trigger."

-- The required points of `rubricFor`.
unfoldable pub rubric_for : Candidate → List Text
rubric_for c =
    (text "Identifies the concrete behavior represented by anchor " ++ c.anchor.id ++ text ".")
    ∷ second_point c.intent
    ∷ []

unfoldable pub risk_level_text : RiskLevel → Text
risk_level_text small = text "small"
risk_level_text medium = text "medium"
risk_level_text high_risk = text "high_risk"
risk_level_text mega = text "mega"

unfoldable pub intent_text : QuestionIntent → Text
intent_text explain = text "explain"
intent_text predict = text "predict"
intent_text failure_path = text "failure_path"
intent_text test_and_rollback = text "test_and_rollback"
intent_text tradeoff = text "tradeoff"

unfoldable pub rationale : AnalysisSnapshot → ℕ → List Text
rationale a budget =
    (text "Risk class "
      ++ risk_level_text a.risk_level
      ++ text " maps to "
      ++ decimal budget
      ++ text " proof question"
      ++ (if nat_eqb budget 1 then [] else text "s")
      ++ text " under the repository proof policy.")
    ∷ (text "Risk vector: scope="
        ++ decimal a.risk_vector.scope
        ++ text ", sensitive="
        ++ decimal a.risk_vector.sensitive_surface
        ++ text ", migration="
        ++ decimal a.risk_vector.migration
        ++ text ", concurrency="
        ++ decimal a.risk_vector.concurrency
        ++ text ".")
    ∷ (if ltb 0 a.generated_changed_lines
        then (decimal a.generated_changed_lines
            ++ text " generated changed lines were excluded from proof-budget inflation.")
          ∷ []
        else [])
