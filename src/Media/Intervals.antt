-- ===== src/Media/Intervals.antt =====
-- packages/media/src/question-intervals.ts: when in the recording which question was answered. A raw
-- interval is a value that has the keys of the schema; the test of a UUID is a parameter.
pub mod Timeline
pub mod Issues
pub mod Accepted
pub mod Tests
use understandproof.Base.{
  ℕ, ◌+◌, ◌-◌, ◌*◌, zero, suc, Bool, true, false, not, ◌&&◌, ◌||◌, List, [], ◌∷◌, ◌++◌, map, Option,
  none, some, Text, text_eq, text, Number, nat, other, is_int_between, nat_value, Outcome, throw_if,
  ok, length, every, any, includes, ltb, leb, nat_eqb, ◌==◌, if◌then◌else◌, ◌>>=◌, ◌>>◌,
}
use understandproof.Media.Protocol.{max_recording_duration_ms}

abbrev pub interval_version : Text
interval_version = text "proof-question-interval-v1"

abbrev pub interval_source : Text
interval_source = text "mobile_navigation_v1"

abbrev pub max_proof_question_count : ℕ
max_proof_question_count = 5

abbrev pub max_initial_question_gap_ms : ℕ
max_initial_question_gap_ms = 1000

abbrev pub max_final_question_end_drift_ms : ℕ
max_final_question_end_drift_ms = 1000

abbrev pub max_proof_question_answer_ms : ℕ
max_proof_question_answer_ms = 120_000

pub record RawInterval : Type 0 where
  pub schema_version : Text
  pub interval_version : Text
  pub question_id : Text
  pub ordinal : Number
  pub start_ms : Number
  pub end_ms : Number
  pub recorded_duration_ms : Number
  pub source : Text

-- What a parsed interval holds besides the three constants.
pub record Interval : Type 0 where
  pub question_id : Text
  pub ordinal : ℕ
  pub start_ms : ℕ
  pub end_ms : ℕ
  pub recorded_duration_ms : ℕ

unfoldable pub interval_of : RawInterval → Interval
interval_of raw = record {
  question_id = raw.question_id;
  ordinal = nat_value raw.ordinal;
  start_ms = nat_value raw.start_ms;
  end_ms = nat_value raw.end_ms;
  recorded_duration_ms = nat_value raw.recorded_duration_ms;
}

-- The `superRefine` of one interval.
unfoldable pub exceeds_binding : Interval → Bool
exceeds_binding i = leb i.end_ms i.start_ms || ltb i.recorded_duration_ms i.end_ms

pub data IntervalIssue : Type 0 where
  wrong_ordinal repeated_question not_contiguous other_duration : ℕ → IntervalIssue

abbrev pub issue_if : Bool → IntervalIssue → List IntervalIssue
issue_if true issue = issue ∷ []
issue_if false issue = []

abbrev pub starts_elsewhere : Option ℕ → Interval → Bool
starts_elsewhere none i = false
starts_elsewhere (some previous_end) i = not (nat_eqb i.start_ms previous_end)

-- The loop of the `superRefine` of the list, with the issues that it adds; `duration` is that of the
-- first interval.
unfoldable pub interval_issues : ℕ → ℕ → List Text → Option ℕ → List Interval → List IntervalIssue
interval_issues duration index question_ids previous_end [] = []
interval_issues duration index question_ids previous_end (i ∷ rest) =
    issue_if (not (nat_eqb i.ordinal index)) (wrong_ordinal index)
    ++ (issue_if (includes question_ids i.question_id) (repeated_question index)
        ++ (issue_if (starts_elsewhere previous_end i) (not_contiguous index)
            ++ (issue_if (ltb 0 index && not (nat_eqb i.recorded_duration_ms duration))
                  (other_duration index)
                ++ interval_issues duration (suc index) (i.question_id ∷ question_ids)
                    (some i.end_ms) rest)))

abbrev pub first_duration : List Interval → ℕ
first_duration [] = 0
first_duration (i ∷ rest) = i.recorded_duration_ms

abbrev pub is_empty {ℓ} : {A : Type ℓ} → List A → Bool
is_empty [] = true
is_empty (x ∷ xs) = false

pub data IntervalFailure : Type 0 where
  schema_error plan_mismatch answer_too_long not_covered : IntervalFailure

abbrev pub is_number : ℕ → Number → Bool
is_number n (nat m) = nat_eqb n m
is_number n other = false

-- Some interval is for another question than the plan's, or for another recording.
unfoldable pub differs_from_plan : Number → List Interval → List Text → Bool
differs_from_plan duration [] expected = false
differs_from_plan duration (i ∷ rest) [] = true
differs_from_plan duration (i ∷ rest) (id ∷ expected) =
    not (i.question_id == id)
    || not (is_number i.recorded_duration_ms duration)
    || differs_from_plan duration rest expected

unfoldable pub exceeds_answer_limit : Interval → Bool
exceeds_answer_limit i = ltb max_proof_question_answer_ms (i.end_ms - i.start_ms)

-- `intervals.at(-1)`
abbrev pub last {ℓ} : {A : Type ℓ} → A → List A → A
last x [] = x
last x (y ∷ rest) = last y rest

unfoldable pub misses_timeline : ℕ → List Interval → Bool
misses_timeline duration [] = true
misses_timeline duration (i ∷ rest) =
    let end = (last i rest).end_ms in
    ltb max_initial_question_gap_ms i.start_ms
    || ltb max_final_question_end_drift_ms ((duration - end) + (end - duration))

module _ (is_uuid : Text → Bool) where
  unfoldable pub is_interval : RawInterval → Bool
  is_interval raw =
      raw.schema_version == text "1"
      && raw.interval_version == interval_version
      && is_uuid raw.question_id
      && is_int_between 0 (max_proof_question_count - 1) raw.ordinal
      && is_int_between 0 (max_recording_duration_ms - 1) raw.start_ms
      && is_int_between 1 max_recording_duration_ms raw.end_ms
      && is_int_between 1 max_recording_duration_ms raw.recorded_duration_ms
      && raw.source == interval_source
      && not (exceeds_binding (interval_of raw))

  unfoldable pub parse_intervals : List RawInterval → Outcome IntervalFailure (List Interval)
  parse_intervals raws = do
    let intervals = map interval_of raws
    throw_if
        (not (
          every is_interval raws
          && leb 1 (length raws)
          && leb (length raws) max_proof_question_count
          && is_empty (interval_issues (first_duration intervals) 0 [] none intervals)))
        schema_error
    ok intervals

  unfoldable pub validate_proof_question_intervals :
      List RawInterval → List Text → Number → Outcome IntervalFailure (List Interval)
  validate_proof_question_intervals raws expected duration = do
    intervals ← parse_intervals raws
    throw_if
        (not (nat_eqb (length expected) (length intervals))
          || differs_from_plan duration intervals expected)
        plan_mismatch
    throw_if (any exceeds_answer_limit intervals) answer_too_long
    throw_if (misses_timeline (nat_value duration) intervals) not_covered
    ok intervals
