-- ===== src/Review/Policy.antt =====
-- apps/api/src/modules/review/review.policy.ts and processing/review-processing.policy.ts.
pub mod Laws
mod Tests
use repo_mentor.Prelude.{
  Bool, List, Option, [], filter, includes, nat_eq, option_eq, string_eq, ℕ, ◌∷◌,
}
use repo_mentor.Review.Types.{
  ReviewStatus, pending, processing, completed, failed, cancelled, status_eq,
  ReviewStatusTransition,
}

abbrev review_statuses : List ReviewStatus
review_statuses = cancelled ∷ completed ∷ failed ∷ pending ∷ processing ∷ []

-- ALLOWED_TRANSITIONS, whose keys are listed above in their order.
unfoldable pub allowed_transitions : ReviewStatus → List ReviewStatus
allowed_transitions cancelled = pending ∷ []
allowed_transitions completed = []
allowed_transitions failed = pending ∷ []
allowed_transitions pending = processing ∷ cancelled ∷ []
allowed_transitions processing = completed ∷ failed ∷ cancelled ∷ []

unfoldable pub can_transition : ReviewStatus → ReviewStatus → Bool
unfolding allowed_transitions
can_transition from to = includes (allowed_transitions from) to

unfoldable pub allowed_source_statuses : ReviewStatus → List ReviewStatus
unfolding allowed_transitions
allowed_source_statuses to = filter (λ from. includes (allowed_transitions from) to) review_statuses

pub data ProcessingTransitionName : Type 0 where
  claim complete fail cancel : ProcessingTransitionName

pub record ProcessingTransitionRule : Type 0 where
  pub from_statuses : List ReviewStatus
  pub to_status : ReviewStatus

-- REVIEW_PROCESSING_TRANSITIONS
unfoldable pub processing_transitions : ProcessingTransitionName → ProcessingTransitionRule
processing_transitions cancel = record { from_statuses = processing ∷ []; to_status = cancelled }
processing_transitions claim = record { from_statuses = pending ∷ []; to_status = processing }
processing_transitions complete = record { from_statuses = processing ∷ []; to_status = completed }
processing_transitions fail = record { from_statuses = processing ∷ []; to_status = failed }

unfoldable pub create_processing_transition :
    ProcessingTransitionName → ℕ → Option ℕ → Option Bool → ReviewStatusTransition
unfolding processing_transitions
create_processing_transition name now generation retryable =
    let rule = processing_transitions name in
    record {
      from_statuses = rule.from_statuses;
      expected_processing_generation = generation;
      retryable = retryable;
      to_status = rule.to_status;
      now = now;
    }
