-- ===== src/Media/Intervals/Timeline.antt =====
-- What a recording cut up by question intervals is like, and that each time has its one question.
use understandproof.Base.{
  ℕ, suc, ◌+◌, ◌≤◌, ◌<◌, ◌≡◌, refl, ap, inl, inr, List, [], ◌∷◌, map, Option, none, some, Text,
  text_eq, length, Memᴰ, All, All-map, All-at, ltb, arith, Bool-cases, Unique,
}
use understandproof.Media.Intervals.{Interval, last}

-- The ordinals count up from a number.
abbrev pub Numbered : ℕ → List Interval → Type 0
Numbered index [] = Unit
Numbered index (i ∷ rest) = (i.ordinal ≡ index) × Numbered (suc index) rest

-- Each interval starts where the one before it ends.
abbrev pub Follows : Option ℕ → List Interval → Type 0
Follows previous_end [] = Unit
Follows none (i ∷ rest) = Follows (some i.end_ms) rest
Follows (some previous_end) (i ∷ rest) = (i.start_ms ≡ previous_end) × Follows (some i.end_ms) rest

abbrev pub ids_of : List Interval → List Text
ids_of = map (λ i. i.question_id)

-- What an interval of a recording has to be like by itself.
pub record FitsRecording (duration : ℕ) (i : Interval) : Type 0 where
  pub proper : i.start_ms < i.end_ms
  pub within : i.end_ms ≤ duration
  pub short : i.end_ms ≤ i.start_ms + 120_000
  pub bound : i.recorded_duration_ms ≡ duration

-- The first interval starts within the first second, and the last ends in the last one.
abbrev pub Spans : ℕ → List Interval → Type 0
Spans duration [] = ⊥
Spans duration (i ∷ rest) = (i.start_ms ≤ 1000) × (duration ≤ (last i rest).end_ms + 1000)

-- The intervals cut up a recording, one for each question of the plan, in its order.
pub record IsTimeline (plan : List Text) (duration : ℕ) (xs : List Interval) : Type 0 where
  pub questions : ids_of xs ≡ plan
  pub distinct : Unique plan
  pub count : (1 ≤ length xs) × (length xs ≤ 5)
  pub ordinals : Numbered 0 xs
  pub contiguous : Follows none xs
  pub each : All (FitsRecording duration) xs
  pub spans : Spans duration xs

abbrev pub Contains : ℕ → Interval → Type 0
Contains time i = (i.start_ms ≤ time) × (time < i.end_ms)

starts_later :
    (duration end : ℕ) (xs : List Interval)
    → Follows (some end) xs
    → All (FitsRecording duration) xs
    → All (λ i. end ≤ i.start_ms) xs
starts_later duration end [] f h = tt
starts_later duration end (i ∷ rest) f h = (
  omega (arith, f.0),
  All-map (λ j. λ later. omega (arith, f.0, h.0.proper, later)) rest
      (starts_later duration i.end_ms rest f.1 h.1),
)

-- One interval holds the time, and each that does is that one.
abbrev pub HasExactlyOne : ℕ → List Interval → Type 0
HasExactlyOne time xs =
    (i : Interval) × Memᴰ i xs
    × Contains time i
    × ((j : Interval) → Memᴰ j xs → Contains time j → j ≡ i)

only_first :
    (time : ℕ) (i : Interval) (rest : List Interval) (j : Interval)
    → time < i.end_ms
    → All (λ k. i.end_ms ≤ k.start_ms) rest
    → Memᴰ j (i ∷ rest)
    → Contains time j
    → j ≡ i
only_first time i rest j before later (Memᴰ.head same) c = same
only_first time i rest j before later (Memᴰ.tail m) c =
    let after = All-at (λ k. i.end_ms ≤ k.start_ms) rest later m in
    absurd (omega (arith, after, before, c.0))

only_rest :
    (time : ℕ) (i : Interval) (rest : List Interval) (found j : Interval)
    → i.end_ms ≤ time
    → ((k : Interval) → Memᴰ k rest → Contains time k → k ≡ found)
    → Memᴰ j (i ∷ rest)
    → Contains time j
    → j ≡ found
only_rest time i rest found j over unique (Memᴰ.head same) c =
    absurd (omega (arith, over, c.1, ap (λ k. k.end_ms) same))
only_rest time i rest found j over unique (Memᴰ.tail m) c = unique j m c

Follows-HasExactlyOne :
    (duration time : ℕ) (i : Interval) (rest : List Interval)
    → Follows (some i.end_ms) rest
    → All (FitsRecording duration) (i ∷ rest)
    → i.start_ms ≤ time
    → time < (last i rest).end_ms
    → HasExactlyOne time (i ∷ rest)
Follows-HasExactlyOne duration time i [] f h after before =
    (i, Memᴰ.head refl, (after, before), λ j m c. only_first time i [] j before tt m c)
Follows-HasExactlyOne duration time i (next ∷ rest) f h after before =
    elim (Bool-cases (ltb time i.end_ms)) [
      | inl here ↦ (
        i,
        Memᴰ.head refl,
        (after, ground arith),
        λ j m c.
            only_first time i (next ∷ rest) j (ground arith)
              (starts_later duration i.end_ms (next ∷ rest) f h.1) m c,
      )
      | inr over ↦
          let (found, member, holds, unique) =
            Follows-HasExactlyOne duration time next rest f.1 h.1 (ground (arith, f.0)) before in
          (
            found,
            Memᴰ.tail member,
            holds,
            λ j m c. only_rest time i (next ∷ rest) found j (ground arith) unique m c,
          )
    ]

pub IsTimeline-HasExactlyOne :
    (plan : List Text) (duration time : ℕ) (xs : List Interval)
    → IsTimeline plan duration xs
    → 1000 ≤ time
    → time + 1000 < duration
    → HasExactlyOne time xs
IsTimeline-HasExactlyOne plan duration time [] t early late = absurd t.spans
IsTimeline-HasExactlyOne plan duration time (i ∷ rest) t early late =
    Follows-HasExactlyOne duration time i rest t.contiguous t.each (omega (arith, t.spans.0, early))
      (omega (arith, t.spans.1, late))
