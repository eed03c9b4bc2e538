-- ===== src/Media/Intervals/Accepted.antt =====
-- When `validateProofQuestionIntervalsV1` accepts intervals.
use understandproof.Base.{
  ℕ, suc, ◌+◌, ◌≤◌, ◌<◌, ◌≡◌, ◌↔◌, refl, sym, subst, ap, ◌∙◌, Bool, true, false, List, [], ◌∷◌, map,
  none, Text, text_eq, nat, ok, length, every, any, includes, All, All-map, arith, Unique,
}
use understandproof.Media.Intervals.{
  RawInterval, Interval, IntervalIssue, interval_of, exceeds_binding, interval_issues,
  first_duration, is_empty, differs_from_plan, exceeds_answer_limit, last, misses_timeline,
  is_interval, parse_intervals, validate_proof_question_intervals,
}
use understandproof.Media.Intervals.Timeline.{
  ids_of, FitsRecording, Spans, IsTimeline, HasExactlyOne, IsTimeline-HasExactlyOne,
}
use understandproof.Media.Intervals.Issues.{
  Unseen-Unique, issues-Orderly, Orderly-ordinals, Orderly-built,
}

plan_agrees :
    (duration : ℕ) (xs : List Interval) (plan : List Text)
    → length plan ≡ length xs
    → (differs_from_plan (nat duration) xs plan ≡ false)
      ↔ (ids_of xs ≡ plan) × All (λ i. i.recorded_duration_ms ≡ duration) xs
unfolding differs_from_plan
plan_agrees duration [] [] h = ground arith
plan_agrees duration [] (id ∷ plan) h = ground arith
plan_agrees duration (i ∷ rest) [] h = ground arith
plan_agrees duration (i ∷ rest) (id ∷ plan) h =
    let IH = plan_agrees duration rest plan (omega (arith, h)) in
    (λ e. (ground (arith, IH), (ground arith, (IH.0 (ground arith)).1)), λ k. ground (arith, IH, k))

last-All :
    (P : Interval → Type 0) (i : Interval) (rest : List Interval)
    → All P (i ∷ rest)
    → P (last i rest)
last-All P i [] h = h.0
last-All P i (j ∷ rest) h = last-All P j rest h.1

misses-Spans :
    (duration : ℕ) (xs : List Interval)
    → All (λ i. i.end_ms ≤ duration) xs
    → (misses_timeline duration xs ≡ false) ↔ Spans duration xs
unfolding misses_timeline
misses-Spans duration [] h = (λ e. cc e, λ e. absurd e)
misses-Spans duration (i ∷ rest) h =
    let within : (last i rest).end_ms ≤ duration = last-All (λ j. j.end_ms ≤ duration) i rest h in
    ground (arith, within)

any_issue :
    (xs : List Interval)
    → (any exceeds_answer_limit xs ≡ false) ↔ All (λ i. i.end_ms ≤ i.start_ms + 120_000) xs
unfolding exceeds_answer_limit
any_issue [] = (λ _. tt, λ _. refl)
any_issue (i ∷ rest) =
    let IH = any_issue rest in
    (λ e. (ground arith, IH.0 (ground arith)), λ h. ground (arith, h.0, IH.1 h.1))

bound_intervals :
    (is_uuid : Text → Bool) (raws : List RawInterval)
    → every (is_interval is_uuid) raws ≡ true
    → All
        (λ i. (i.start_ms < i.end_ms) × (i.end_ms ≤ i.recorded_duration_ms))
        (map interval_of raws)
unfolding is_interval exceeds_binding
bound_intervals is_uuid [] h = tt
bound_intervals is_uuid (raw ∷ raws) h = (ground arith, bound_intervals is_uuid raws (ground arith))

fits_all :
    (duration : ℕ) (xs : List Interval)
    → All (λ i. (i.start_ms < i.end_ms) × (i.end_ms ≤ i.recorded_duration_ms)) xs
    → All (λ i. i.recorded_duration_ms ≡ duration) xs
    → All (λ i. i.end_ms ≤ i.start_ms + 120_000) xs
    → All (FitsRecording duration) xs
fits_all duration [] a b c = tt
fits_all duration (i ∷ rest) a b c = (
  record { proper = a.0.0; within = omega (arith, a.0.1, b.0); short = c.0; bound = b.0 },
  fits_all duration rest a.1 b.1 c.1,
)

length-intervals : (raws : List RawInterval) → length (map interval_of raws) ≡ length raws
length-intervals [] = refl
length-intervals (raw ∷ raws) = ap suc (length-intervals raws)

length-ids : (xs : List Interval) → length (ids_of xs) ≡ length xs
length-ids [] = refl
length-ids (i ∷ rest) = ap suc (length-ids rest)

nothing_seen : (ids : List Text) → All (λ id. includes [] id ≡ false) ids
nothing_seen [] = tt
nothing_seen (id ∷ ids) = (refl, nothing_seen ids)

shared_duration :
    (duration : ℕ) (xs : List Interval)
    → All (λ i. i.recorded_duration_ms ≡ duration) xs
    → All (λ i. i.recorded_duration_ms ≡ first_duration xs) xs
shared_duration duration [] h = tt
shared_duration duration (i ∷ rest) h = All-map (λ j. λ e. e ∙ sym h.0) (i ∷ rest) h

is_empty_iff : (xs : List IntervalIssue) → (is_empty xs ≡ true) ↔ (xs ≡ [])
is_empty_iff [] = ground arith
is_empty_iff (x ∷ xs) = ground arith

module _ (is_uuid : Text → Bool) (raws : List RawInterval) (plan : List Text) (duration : ℕ) where
  parse_intervals_iff :
      (xs : List Interval)
      → (parse_intervals is_uuid raws ≡ ok xs)
        ↔ (xs ≡ map interval_of raws)
          × (every (is_interval is_uuid) raws ≡ true)
          × (1 ≤ length raws)
          × (length raws ≤ 5)
          × (interval_issues
                (first_duration (map interval_of raws))
                0
                []
                none
                (map interval_of raws)
              ≡ [])
  unfolding parse_intervals
  parse_intervals_iff xs =
      let empty = is_empty_iff (
        interval_issues (first_duration (map interval_of raws)) 0 [] none (map interval_of raws)) in
      ground (arith, empty)

  validate_tests :
      (xs : List Interval)
      → (validate_proof_question_intervals is_uuid raws plan (nat duration) ≡ ok xs)
        ↔ (parse_intervals is_uuid raws ≡ ok xs)
          × (length plan ≡ length xs)
          × (differs_from_plan (nat duration) xs plan ≡ false)
          × (any exceeds_answer_limit xs ≡ false)
          × (misses_timeline duration xs ≡ false)
  unfolding validate_proof_question_intervals
  validate_tests xs = ground arith

  accepted-IsTimeline :
      (xs : List Interval)
      → validate_proof_question_intervals is_uuid raws plan (nat duration) ≡ ok xs
      → (xs ≡ map interval_of raws)
        × (every (is_interval is_uuid) raws ≡ true)
        × IsTimeline plan duration xs
  accepted-IsTimeline xs e =
      let (parsed, same_length, agrees, short, spans) = (validate_tests xs).0 e in
      let (same, valid, some_raw, few, no_issue) = (parse_intervals_iff xs).0 parsed in
      let (questions, bound) = (plan_agrees duration xs plan same_length).0 agrees in
      let (ordinals, unseen, contiguous) =
        Orderly-ordinals (first_duration xs) 0 [] none xs
          ((issues-Orderly (first_duration xs) 0 [] none xs).0 (rw same no_issue)) in
      let fits =
        fits_all duration xs (rw same (bound_intervals is_uuid raws valid)) bound
          ((any_issue xs).0 short) in
      (
        same,
        valid,
        record {
          questions = questions;
          distinct = subst Unique questions ((Unseen-Unique [] (ids_of xs)).0 unseen).1;
          count = (
            rw same (rw (length-intervals raws) some_raw),
            rw same (rw (length-intervals raws) few),
          );
          ordinals = ordinals;
          contiguous = contiguous;
          each = fits;
          spans = (misses-Spans duration xs (All-map (λ i. λ f. f.within) xs fits)).0 spans;
        },
      )

  IsTimeline-accepted :
      (xs : List Interval)
      → (xs ≡ map interval_of raws)
      → (every (is_interval is_uuid) raws ≡ true)
      → IsTimeline plan duration xs
      → validate_proof_question_intervals is_uuid raws plan (nat duration) ≡ ok xs
  IsTimeline-accepted xs same valid t =
      let bound = All-map (λ i. λ f. f.bound) xs t.each in
      let first : All (λ i. i.recorded_duration_ms ≡ first_duration xs) xs =
        shared_duration duration xs bound in
      let unseen =
        (Unseen-Unique [] (ids_of xs)).1
          (nothing_seen (ids_of xs), subst Unique (sym t.questions) t.distinct) in
      let orderly =
        Orderly-built (first_duration xs) 0 [] none xs t.ordinals unseen t.contiguous first in
      let no_issue = (issues-Orderly (first_duration xs) 0 [] none xs).1 orderly in
      let few : (1 ≤ length raws) × (length raws ≤ 5) =
        subst (λ n. (1 ≤ n) × (n ≤ 5)) (ap length same ∙ length-intervals raws) t.count in
      let parsed = (parse_intervals_iff xs).1 (
        same,
        valid,
        few.0,
        few.1,
        subst (λ ys. interval_issues (first_duration ys) 0 [] none ys ≡ []) same no_issue,
      ) in
      let same_length : length plan ≡ length xs = sym (ap length t.questions) ∙ length-ids xs in
      (validate_tests xs).1 (
        parsed,
        same_length,
        (plan_agrees duration xs plan same_length).1 (t.questions, bound),
        (any_issue xs).1 (All-map (λ i. λ f. f.short) xs t.each),
        (misses-Spans duration xs (All-map (λ i. λ f. f.within) xs t.each)).1 t.spans,
      )

  -- Intervals are accepted exactly when each is valid by itself and together they cut up the
  -- recording: one interval for each question of the plan, in its order, without a gap.
  pub validate_proof_question_intervals_iff :
      (xs : List Interval)
      → (validate_proof_question_intervals is_uuid raws plan (nat duration) ≡ ok xs)
        ↔ (xs ≡ map interval_of raws)
          × (every (is_interval is_uuid) raws ≡ true)
          × IsTimeline plan duration xs
  validate_proof_question_intervals_iff xs =
      (accepted-IsTimeline xs, λ h. IsTimeline-accepted xs h.0 h.1 h.2)

  -- Of accepted intervals exactly one holds any time of the recording that is neither in its first
  -- nor in its last second.
  pub accepted-HasExactlyOne :
      (xs : List Interval) (time : ℕ)
      → validate_proof_question_intervals is_uuid raws plan (nat duration) ≡ ok xs
      → 1000 ≤ time
      → time + 1000 < duration
      → HasExactlyOne time xs
  accepted-HasExactlyOne xs time e early late =
      IsTimeline-HasExactlyOne plan duration time xs (accepted-IsTimeline xs e).2 early late
