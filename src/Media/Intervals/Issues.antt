-- ===== src/Media/Intervals/Issues.antt =====
-- The conditions that the refinement of the list of intervals checks in its loop.
use understandproof.Base.{
  ℕ, suc, ◌≡◌, ◌↔◌, ◌⊎◌, refl, inl, inr, Bool, true, false, not, ◌&&◌, List, [], ◌∷◌, ◌++◌, Option,
  none, some, Text, text_eq, Memᴰ, includes, All, All-map, All-at, ltb, nat_eqb, ◌==◌, arith,
  Bool-cases, Unique,
}
use understandproof.Media.Intervals.{
  Interval, IntervalIssue, wrong_ordinal, repeated_question, not_contiguous, other_duration,
  issue_if, starts_elsewhere, interval_issues,
}
use understandproof.Media.Intervals.Timeline.{Numbered, Follows, ids_of}

-- No identifier stands twice, nor in the first list.
abbrev pub Unseen : List Text → List Text → Type 0
Unseen seen [] = Unit
Unseen seen (id ∷ ids) = (includes seen id ≡ false) × Unseen (id ∷ seen) ids

-- What the loop checks of each interval, in place of its issues.
abbrev pub Orderly : ℕ → ℕ → List Text → Option ℕ → List Interval → Type 0
Orderly duration index seen previous_end [] = Unit
Orderly duration index seen previous_end (i ∷ rest) =
    (i.ordinal ≡ index)
    × (includes seen i.question_id ≡ false)
    × (starts_elsewhere previous_end i ≡ false)
    × ((index ≡ 0) ⊎ (i.recorded_duration_ms ≡ duration))
    × Orderly duration (suc index) (i.question_id ∷ seen) (some i.end_ms) rest

no_issues :
    (a b c d : Bool) (i j k l : IntervalIssue) (rest : List IntervalIssue)
    → (issue_if a i ++ (issue_if b j ++ (issue_if c k ++ (issue_if d l ++ rest))) ≡ [])
      ↔ (a ≡ false) × (b ≡ false) × (c ≡ false) × (d ≡ false) × (rest ≡ [])
no_issues true b c d i j k l rest = ground arith
no_issues false true c d i j k l rest = ground arith
no_issues false false true d i j k l rest = ground arith
no_issues false false false true i j k l rest = ground arith
no_issues false false false false i j k l rest = ground arith

pub issues-Orderly :
    (duration index : ℕ) (seen : List Text) (previous_end : Option ℕ) (xs : List Interval)
    → (interval_issues duration index seen previous_end xs ≡ [])
      ↔ Orderly duration index seen previous_end xs
unfolding interval_issues
issues-Orderly duration index seen previous_end [] = ground arith
issues-Orderly duration index seen previous_end (i ∷ rest) =
    let IH = issues-Orderly duration (suc index) (i.question_id ∷ seen) (some i.end_ms) rest in
    let here =
      no_issues (not (nat_eqb i.ordinal index)) (includes seen i.question_id)
        (starts_elsewhere previous_end i)
        (ltb 0 index && not (nat_eqb i.recorded_duration_ms duration)) (wrong_ordinal index)
        (repeated_question index) (not_contiguous index) (other_duration index)
        (interval_issues duration (suc index) (i.question_id ∷ seen) (some i.end_ms) rest) in
    (λ e. ground (arith, here.0 e, IH), λ h. here.1 (ground (arith, IH)))

unseen_later :
    (id : Text) (seen ids : List Text)
    → ¬ Memᴰ id ids
    → All (λ a. includes seen a ≡ false) ids
    → All (λ a. includes (id ∷ seen) a ≡ false) ids
unseen_later id seen [] new h = tt
unseen_later id seen (a ∷ ids) new h = (
  elim (Bool-cases (id == a)) [
    | inl same ↦ absurd (new (Memᴰ.head ((text_eq.same_iff id a).0 same)))
    | inr other ↦ ground (arith, h.0)
  ],
  unseen_later id seen ids (λ m. new (Memᴰ.tail m)) h.1,
)

pub Unseen-Unique :
    (seen ids : List Text) → Unseen seen ids ↔ All (λ id. includes seen id ≡ false) ids × Unique ids
Unseen-Unique seen [] = (λ _. (tt, tt), λ _. tt)
Unseen-Unique seen (id ∷ ids) =
    let IH = Unseen-Unique (id ∷ seen) ids in
    (
      λ h.
          let (later, unique) = IH.0 h.1 in
          (
            (h.0, All-map (λ a. λ e. ground arith) ids later),
            (λ m. ground (arith, All-at _ ids later m), unique),
          ),
      λ h. (h.0.0, IH.1 (unseen_later id seen ids h.1.0 h.0.1, h.1.1)),
    )

pub Orderly-ordinals :
    (duration index : ℕ) (seen : List Text) (previous_end : Option ℕ) (xs : List Interval)
    → Orderly duration index seen previous_end xs
    → Numbered index xs × Unseen seen (ids_of xs) × Follows previous_end xs
Orderly-ordinals duration index seen previous_end [] h = (tt, tt, tt)
Orderly-ordinals duration index seen none (i ∷ rest) h =
    let (o, u, s, d, later) = h in
    let (a, b, c) =
      Orderly-ordinals duration (suc index) (i.question_id ∷ seen) (some i.end_ms) rest later in
    ((o, a), (u, b), c)
Orderly-ordinals duration index seen (some end) (i ∷ rest) h =
    let (o, u, s, d, later) = h in
    let (a, b, c) =
      Orderly-ordinals duration (suc index) (i.question_id ∷ seen) (some i.end_ms) rest later in
    ((o, a), (u, b), (ground (arith, s), c))

pub Orderly-built :
    (duration index : ℕ) (seen : List Text) (previous_end : Option ℕ) (xs : List Interval)
    → Numbered index xs
    → Unseen seen (ids_of xs)
    → Follows previous_end xs
    → All (λ i. i.recorded_duration_ms ≡ duration) xs
    → Orderly duration index seen previous_end xs
Orderly-built duration index seen previous_end [] a b c d = tt
Orderly-built duration index seen none (i ∷ rest) a b c d = (
  a.0,
  b.0,
  refl,
  inr d.0,
  Orderly-built duration (suc index) (i.question_id ∷ seen) (some i.end_ms) rest a.1 b.1 c d.1,
)
Orderly-built duration index seen (some end) (i ∷ rest) a b c d = (
  a.0,
  b.0,
  ground (arith, c.0),
  inr d.0,
  Orderly-built duration (suc index) (i.question_id ∷ seen) (some i.end_ms) rest a.1 b.1 c.1 d.1,
)
