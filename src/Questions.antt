-- ===== src/Questions.antt =====
-- packages/questions/src: what the planner reads of an analysis, and what it makes. The input is one that
-- its schema has accepted.
pub mod Texts
pub mod Pool
pub mod Planner
pub mod Practice
mod Tests
use understandproof.Base.{ℕ, List, Option, Text}

pub data RiskLevel : Type 0 where
  small medium high_risk mega : RiskLevel

pub record RiskVector : Type 0 where
  pub scope : ℕ
  pub sensitive_surface : ℕ
  pub migration : ℕ
  pub concurrency : ℕ
  pub test_gap : ℕ
  pub unverifiable : ℕ
  pub total : ℕ

pub record DiffAnchor : Type 0 where
  pub id : Text
  pub file : Text
  pub hunk_header : Text
  pub old_start : ℕ
  pub new_start : ℕ
  pub changed_lines : ℕ
  pub evidence : Text

-- A behavioural change or a risk: its kind, and the anchor that it is about.
pub record Signal : Type 0 where
  pub kind : Text
  pub anchor_id : Text

pub record AnalysisSnapshot : Type 0 where
  pub head_sha : Text
  pub risk_level : RiskLevel
  pub risk_vector : RiskVector
  pub behavioral_changes : List Signal
  pub risks : List Signal
  pub anchors : List DiffAnchor
  pub generated_changed_lines : ℕ

pub data QuestionIntent : Type 0 where
  explain predict failure_path test_and_rollback tradeoff : QuestionIntent

pub record Candidate : Type 0 where
  pub anchor : DiffAnchor
  pub focus : Text
  pub intent : QuestionIntent

pub data PlanStatus : Type 0 where
  ready split_recommended : PlanStatus

pub record ProofQuestion : Type 0 where
  pub id : Text
  pub order : ℕ
  pub intent : QuestionIntent
  pub focus : Text
  pub prompt : Text
  pub anchor : DiffAnchor
  pub required_points : List Text
  pub maximum_answer_seconds : ℕ

pub record ProofPlan : Type 0 where
  pub id : Text
  pub head_sha : Text
  pub risk_level : RiskLevel
  pub risk_vector : RiskVector
  pub status : PlanStatus
  pub question_budget : ℕ
  pub rationale : List Text
  pub split_recommendation : Option Text
  pub seed_commitment : Text
  pub questions : List ProofQuestion
  pub created_at : ℕ
