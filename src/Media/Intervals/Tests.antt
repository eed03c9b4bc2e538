-- ===== src/Media/Intervals/Tests.antt =====
-- Runs of the interval functions, and the theorems at them.
use understandproof.Base.{
  ℕ, ◌≡◌, ◌↔◌, refl, true, Bool, List, [], ◌∷◌, map, Text, text, Text-discrete, nat, ok, throw,
  every, arith,
}
use understandproof.Media.Intervals.{
  RawInterval, Interval, interval_version, interval_source, interval_of, exceeds_binding,
  interval_issues, differs_from_plan, exceeds_answer_limit, misses_timeline, is_interval,
  parse_intervals, validate_proof_question_intervals, plan_mismatch, schema_error, not_covered,
}
use understandproof.Media.Intervals.Timeline.{IsTimeline, HasExactlyOne}
use understandproof.Media.Intervals.Accepted.{
  validate_proof_question_intervals_iff, accepted-HasExactlyOne,
}

runs : Unit {0}
unfolding Text-discrete interval_of exceeds_binding interval_issues differs_from_plan
    exceeds_answer_limit misses_timeline is_interval parse_intervals
    validate_proof_question_intervals
runs = tt

abbrev any_id : Text → Bool
any_id _ = true

abbrev raw : Text → ℕ → ℕ → ℕ → RawInterval
raw id ordinal start end = record {
  schema_version = text "1";
  interval_version = interval_version;
  question_id = id;
  ordinal = nat ordinal;
  start_ms = nat start;
  end_ms = nat end;
  recorded_duration_ms = nat 100_000;
  source = interval_source;
}

abbrev plan : List Text
plan = text "q1" ∷ text "q2" ∷ []

abbrev raws : List RawInterval
raws = raw (text "q1") 0 500 40_000 ∷ raw (text "q2") 1 40_000 99_500 ∷ []

abbrev parsed : List Interval
parsed = map interval_of raws

accepts : validate_proof_question_intervals any_id raws plan (nat 100_000) ≡ ok parsed
unfolding runs
accepts = refl

refuses :
    (validate_proof_question_intervals any_id raws (text "q1" ∷ []) (nat 100_000)
      ≡ throw plan_mismatch)
    × (validate_proof_question_intervals any_id
          (raw (text "q1") 0 500 40_000 ∷ raw (text "q2") 1 40_001 99_500 ∷ [])
          plan
          (nat 100_000)
        ≡ throw schema_error)
    × (validate_proof_question_intervals any_id
          (raw (text "q1") 0 500 40_000 ∷ raw (text "q1") 1 40_000 99_500 ∷ [])
          plan
          (nat 100_000)
        ≡ throw schema_error)
    × (validate_proof_question_intervals any_id
          (raw (text "q1") 0 500 40_000 ∷ [])
          (text "q1" ∷ [])
          (nat 100_000)
        ≡ throw not_covered)
unfolding runs
refuses = (refl, refl, refl, refl)

validate_proof_question_intervals_iff_example :
    (validate_proof_question_intervals any_id raws plan (nat 100_000) ≡ ok parsed)
    ↔ (parsed ≡ map interval_of raws)
      × (every (is_interval any_id) raws ≡ true)
      × IsTimeline plan 100_000 parsed
validate_proof_question_intervals_iff_example =
    validate_proof_question_intervals_iff any_id raws plan 100_000 parsed

accepted-HasExactlyOne_example : HasExactlyOne 50_000 parsed
accepted-HasExactlyOne_example =
    accepted-HasExactlyOne any_id raws plan 100_000 parsed 50_000 accepts (omega arith)
      (omega arith)
