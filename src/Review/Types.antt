-- ===== src/Review/Types.antt =====
-- apps/api/src/modules/review/review.types.ts. A `Date` is its number of milliseconds; the copies
-- that the source makes of dates and records are values here.
use repo_mentor.Prelude.{
  Bool, Eq, List, Option, String, arith, nat_eq, option_eq, string_eq, true, ℕ, ◌==◌, ◌↔◌, ◌≡◌,
}

pub data ReviewStatus : Type 0 where
  pending processing completed failed cancelled : ReviewStatus

abbrev status_code : ReviewStatus → ℕ
status_code pending = 0
status_code processing = 1
status_code completed = 2
status_code failed = 3
status_code cancelled = 4

abbrev pub status_beq : ReviewStatus → ReviewStatus → Bool
status_beq a b = status_code a == status_code b

pub status_beq_iff : (a b : ReviewStatus) → (status_beq a b ≡ true) ↔ (a ≡ b)
status_beq_iff a b = ground arith

instance abbrev pub status_eq : Eq ReviewStatus
status_eq = record { beq = status_beq; beq_iff = status_beq_iff }

pub data ReviewMode : Type 0 where
  quick standard deep : ReviewMode

abbrev mode_code : ReviewMode → ℕ
mode_code quick = 0
mode_code standard = 1
mode_code deep = 2

abbrev pub mode_beq : ReviewMode → ReviewMode → Bool
mode_beq a b = mode_code a == mode_code b

pub mode_beq_iff : (a b : ReviewMode) → (mode_beq a b ≡ true) ↔ (a ≡ b)
mode_beq_iff a b = ground arith

instance abbrev pub mode_eq : Eq ReviewMode
mode_eq = record { beq = mode_beq; beq_iff = mode_beq_iff }

pub data ReviewLearnerLevel : Type 0 where
  beginner intermediate advanced : ReviewLearnerLevel

pub data ReviewEventType : Type 0 where
  snapshot_event completed_event failed_event cancelled_event : ReviewEventType

abbrev pub max_processing_generation : ℕ
max_processing_generation = 2147483646

abbrev pub max_event_sequence : ℕ
max_event_sequence = 2147483646

pub record ReviewRecord : Type 0 where
  pub id : String
  pub user_id : String
  pub source : String
  pub language : String
  pub mode : ReviewMode
  pub learner_level : ReviewLearnerLevel
  pub title : Option String
  pub context : Option String
  pub processing_generation : ℕ
  pub status : ReviewStatus
  pub deleted_at : Option ℕ
  pub created_at : ℕ
  pub updated_at : ℕ

pub record CreateReviewInput : Type 0 where
  pub id : Option String
  pub user_id : String
  pub source : String
  pub language : String
  pub mode : ReviewMode
  pub learner_level : ReviewLearnerLevel
  pub title : Option String
  pub context : Option String

pub record ReviewStatusTransition : Type 0 where
  pub from_statuses : List ReviewStatus
  pub expected_processing_generation : Option ℕ
  pub retryable : Option Bool
  pub to_status : ReviewStatus
  pub now : ℕ

pub record ReviewEventRecord : Type 0 where
  pub review_id : String
  pub sequence : ℕ
  pub event_type : ReviewEventType
  pub status : ReviewStatus
  pub generation : ℕ
  pub result_available : Bool
  pub retryable : Option Bool
  pub created_at : ℕ
