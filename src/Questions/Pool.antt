-- ===== src/Questions/Pool.antt =====
-- packages/questions/src/planner.ts: `candidatePool`, the questions that may be asked of an analysis.
use understandproof.Base.{
  ℕ, suc, ◌%◌, ◌≤◌, ◌≡◌, refl, ap, ◌∙◌, ◌⊎◌, inl, inr, List, [], ◌∷◌, ◌++◌, Memᴰ, Option, none,
  some, Text, text_eq, text, arith, length, length-append, All, All-append, get_elem?, leb, ◌==◌,
  if◌then◌else◌, Option-cases,
}
use understandproof.Questions.{
  DiffAnchor, Signal, AnalysisSnapshot, QuestionIntent, explain, predict, failure_path,
  test_and_rollback, tradeoff, Candidate,
}
use understandproof.Questions.Texts.{sort_by, unique_texts}

abbrev pub intents : List QuestionIntent
intents = explain ∷ predict ∷ failure_path ∷ test_and_rollback ∷ tradeoff ∷ []

-- The kinds at each anchor, in the order in which the anchors are first met.
abbrev pub Focuses : Type 0
Focuses = List (Text × List Text)

unfoldable pub push_focus : Focuses → Signal → Focuses
push_focus [] s = (s.anchor_id, s.kind ∷ []) ∷ []
push_focus (entry ∷ rest) s =
    let later = push_focus rest s in
    if entry.0 == s.anchor_id then (entry.0, entry.1 ++ s.kind ∷ []) ∷ rest else entry ∷ later

unfoldable pub push_focuses : Focuses → List Signal → Focuses
push_focuses focuses [] = focuses
push_focuses focuses (s ∷ rest) = push_focuses (push_focus focuses s) rest

-- `anchorById.get(id)`: of two anchors with one id, the last.
unfoldable pub anchor_by_id : List DiffAnchor → Text → Option DiffAnchor
anchor_by_id [] id = none
anchor_by_id (a ∷ rest) id = elim (anchor_by_id rest id) [
  | some later ↦ some later
  | none ↦ if a.id == id then some a else none
]

abbrev focus_or_behavior : Option Text → Text
focus_or_behavior none = text "behavior"
focus_or_behavior (some focus) = focus

abbrev one_at_least : ℕ → ℕ
one_at_least n = if leb 1 n then n else 1

-- The candidates of an anchor, from an index of `INTENTS` on.
unfoldable pub candidates_at : DiffAnchor → List Text → ℕ → List QuestionIntent → List Candidate
candidates_at anchor focuses index [] = []
candidates_at anchor focuses index (intent ∷ rest) =
    record {
      anchor = anchor;
      focus = focus_or_behavior (get_elem? focuses (index % one_at_least (length focuses)));
      intent = intent;
    }
    ∷ candidates_at anchor focuses (suc index) rest

unfoldable pub candidates_of : Option DiffAnchor → List Text → List Candidate
candidates_of none raw_focuses = []
candidates_of (some anchor) raw_focuses =
    candidates_at anchor (sort_by (λ t. t) (unique_texts [] raw_focuses)) 0 intents

unfoldable pub focused_candidates : List DiffAnchor → Focuses → List Candidate
focused_candidates anchors [] = []
focused_candidates anchors (entry ∷ rest) =
    candidates_of (anchor_by_id anchors entry.0) entry.1 ++ focused_candidates anchors rest

unfoldable pub plain_candidates : List DiffAnchor → List Candidate
plain_candidates [] = []
plain_candidates (anchor ∷ rest) = candidates_at anchor [] 0 intents ++ plain_candidates rest

abbrev or_plain : List DiffAnchor → List Candidate → List Candidate
or_plain anchors [] = plain_candidates anchors
or_plain anchors (c ∷ rest) = c ∷ rest

unfoldable pub candidate_pool : AnalysisSnapshot → List Candidate
candidate_pool a =
    or_plain a.anchors
      (focused_candidates a.anchors (push_focuses (push_focuses [] a.behavioral_changes) a.risks))

-- A candidate is about an anchor of the analysis.
abbrev pub IsGrounded : List DiffAnchor → Candidate → Type 0
IsGrounded anchors c = Memᴰ c.anchor anchors

anchor_by_id-Memᴰ :
    (anchors : List DiffAnchor) (id : Text) (a : DiffAnchor)
    → anchor_by_id anchors id ≡ some a
    → Memᴰ a anchors
unfolding anchor_by_id
anchor_by_id-Memᴰ [] id a e = absurd (ground (arith, e))
anchor_by_id-Memᴰ (b ∷ rest) id a e = elim (Option-cases (anchor_by_id rest id)) [
  | inr (later, found) ↦ Memᴰ.tail (anchor_by_id-Memᴰ rest id a (found ∙ (rw found at e)))
  | inl missing ↦ Memᴰ.head (ground (arith, rw missing at e))
]

candidates_at-length :
    (anchor : DiffAnchor) (focuses : List Text) (index : ℕ) (left : List QuestionIntent)
    → length (candidates_at anchor focuses index left) ≡ length left
unfolding candidates_at
candidates_at-length anchor focuses index [] = refl
candidates_at-length anchor focuses index (intent ∷ rest) =
    ap suc (candidates_at-length anchor focuses (suc index) rest)

candidates_at-IsGrounded :
    (anchors : List DiffAnchor) (anchor : DiffAnchor) (focuses : List Text) (index : ℕ)
    (left : List QuestionIntent)
    → Memᴰ anchor anchors
    → All (IsGrounded anchors) (candidates_at anchor focuses index left)
unfolding candidates_at
candidates_at-IsGrounded anchors anchor focuses index [] m = tt
candidates_at-IsGrounded anchors anchor focuses index (intent ∷ rest) m =
    (m, candidates_at-IsGrounded anchors anchor focuses (suc index) rest m)

candidates_of-IsGrounded :
    (anchors : List DiffAnchor) (id : Text) (raw_focuses : List Text)
    → All (IsGrounded anchors) (candidates_of (anchor_by_id anchors id) raw_focuses)
unfolding candidates_of
candidates_of-IsGrounded anchors id raw_focuses = elim (Option-cases (anchor_by_id anchors id)) [
  | inl missing ↦ rw missing tt
  | inr (anchor, found) ↦ rw found (
      candidates_at-IsGrounded anchors anchor (sort_by (λ t. t) (unique_texts [] raw_focuses)) 0
        intents (anchor_by_id-Memᴰ anchors id anchor found))
]

focused_candidates-IsGrounded :
    (anchors : List DiffAnchor) (focuses : Focuses)
    → All (IsGrounded anchors) (focused_candidates anchors focuses)
unfolding focused_candidates
focused_candidates-IsGrounded anchors [] = tt
focused_candidates-IsGrounded anchors (entry ∷ rest) =
    All-append (IsGrounded anchors) (candidates_of (anchor_by_id anchors entry.0) entry.1)
      (focused_candidates anchors rest) (candidates_of-IsGrounded anchors entry.0 entry.1)
      (focused_candidates-IsGrounded anchors rest)

plain_candidates-IsGrounded :
    (anchors left : List DiffAnchor)
    → ((a : DiffAnchor) → Memᴰ a left → Memᴰ a anchors)
    → All (IsGrounded anchors) (plain_candidates left)
unfolding plain_candidates
plain_candidates-IsGrounded anchors [] h = tt
plain_candidates-IsGrounded anchors (anchor ∷ rest) h =
    All-append (IsGrounded anchors) (candidates_at anchor [] 0 intents) (plain_candidates rest)
      (candidates_at-IsGrounded anchors anchor [] 0 intents (h anchor (Memᴰ.head refl)))
      (plain_candidates-IsGrounded anchors rest (λ a m. h a (Memᴰ.tail m)))

or_plain-IsGrounded :
    (anchors : List DiffAnchor) (found : List Candidate)
    → All (IsGrounded anchors) found
    → All (IsGrounded anchors) (or_plain anchors found)
or_plain-IsGrounded anchors [] h = plain_candidates-IsGrounded anchors anchors (λ a m. m)
or_plain-IsGrounded anchors (c ∷ rest) h = h

pub candidate_pool-IsGrounded :
    (a : AnalysisSnapshot) → All (IsGrounded a.anchors) (candidate_pool a)
unfolding candidate_pool
candidate_pool-IsGrounded a = or_plain-IsGrounded a.anchors _ (
    focused_candidates-IsGrounded a.anchors
      (push_focuses (push_focuses [] a.behavioral_changes) a.risks))

-- The candidates of an anchor are five, so that there are none or at least five.
abbrev NoneOrFive : List Candidate → Type 0
NoneOrFive found = (found ≡ []) ⊎ (5 ≤ length found)

candidates_of-NoneOrFive :
    (found : Option DiffAnchor) (raw_focuses : List Text)
    → NoneOrFive (candidates_of found raw_focuses)
unfolding candidates_of
candidates_of-NoneOrFive none raw_focuses = inl refl
candidates_of-NoneOrFive (some anchor) raw_focuses = inr (
    omega (
      arith,
      candidates_at-length anchor (sort_by (λ t. t) (unique_texts [] raw_focuses)) 0 intents,
    ))

append-NoneOrFive :
    (left right : List Candidate) → NoneOrFive left → NoneOrFive right → NoneOrFive (left ++ right)
append-NoneOrFive left right (inl empty) h = rw empty h
append-NoneOrFive left right (inr five) h = inr (omega (arith, five, length-append left right))

focused_candidates-NoneOrFive :
    (anchors : List DiffAnchor) (focuses : Focuses)
    → NoneOrFive (focused_candidates anchors focuses)
unfolding focused_candidates
focused_candidates-NoneOrFive anchors [] = inl refl
focused_candidates-NoneOrFive anchors (entry ∷ rest) =
    append-NoneOrFive (candidates_of (anchor_by_id anchors entry.0) entry.1)
      (focused_candidates anchors rest)
      (candidates_of-NoneOrFive (anchor_by_id anchors entry.0) entry.1)
      (focused_candidates-NoneOrFive anchors rest)

plain_candidates-five :
    (anchors : List DiffAnchor) → 1 ≤ length anchors → 5 ≤ length (plain_candidates anchors)
unfolding plain_candidates
plain_candidates-five [] h = absurd (omega (arith, h))
plain_candidates-five (anchor ∷ rest) h = omega (
  arith,
  length-append (candidates_at anchor [] 0 intents) (plain_candidates rest),
  candidates_at-length anchor [] 0 intents,
)

or_plain-five :
    (anchors : List DiffAnchor) (found : List Candidate)
    → 1 ≤ length anchors
    → NoneOrFive found
    → 5 ≤ length (or_plain anchors found)
or_plain-five anchors [] h (inl empty) = plain_candidates-five anchors h
or_plain-five anchors [] h (inr five) = absurd (omega (arith, five))
or_plain-five anchors (c ∷ rest) h (inl empty) = absurd (ground (arith, empty))
or_plain-five anchors (c ∷ rest) h (inr five) = five

pub candidate_pool-five :
    (a : AnalysisSnapshot) → 1 ≤ length a.anchors → 5 ≤ length (candidate_pool a)
unfolding candidate_pool
candidate_pool-five a h = or_plain-five a.anchors _ h (
    focused_candidates-NoneOrFive a.anchors
      (push_focuses (push_focuses [] a.behavioral_changes) a.risks))
