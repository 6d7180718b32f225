-- ===== src/Review/Processing.antt =====
-- apps/api/src/modules/review/processing: review-processing.types.ts, review-processing.errors.ts, and the
-- outcomes that review-processing.service.ts builds outside its class.
pub mod World
pub mod Coordinator
pub mod Keepalive
pub mod Mapping
pub mod Triple
pub mod Service
mod Tests
use repo_mentor.Prelude.{
  Bool, Option, Result, err, false, if◌then◌else◌, none, ok, some, true, ℕ, ◌>>=◌, ◌||◌,
}
use repo_mentor.Ai.Errors.{
  AiProviderErrorCode, provider_cancelled, AiProviderError, AiError, provider_error, request_error,
  validation_error, abort_error, unknown_error,
}
use repo_mentor.Review.Types.{
  ReviewStatus, pending, processing, completed, failed, cancelled, ReviewRecord,
}

pub data ReviewProcessingFailureCode : Type 0 where
  ai_request_invalid ai_result_invalid : ReviewProcessingFailureCode
  ai_provider : AiProviderErrorCode → ReviewProcessingFailureCode
  internal : ReviewProcessingFailureCode

pub record ReviewProcessingFailure : Type 0 where
  pub code : ReviewProcessingFailureCode
  pub retryable : Bool
  pub provider_code : Option AiProviderErrorCode
  pub attempts : Option ℕ

pub data ReviewProcessingCancellationSource : Type 0 where
  signal ai_provider_source concurrent_transition lock_renewal : ReviewProcessingCancellationSource

-- `code` and `kind` are fixed; `provider_code` is given where the provider reports "CANCELLED".
pub record ReviewProcessingCancellation : Type 0 where
  pub source : ReviewProcessingCancellationSource
  pub provider_code : Option AiProviderErrorCode

abbrev pub cancellation_by : ReviewProcessingCancellationSource → ReviewProcessingCancellation
cancellation_by source = record { source = source; provider_code = none }

pub data ReviewProcessingErrorMapping : Type 0 where
  mapped_failure : ReviewProcessingFailure → ReviewProcessingErrorMapping
  mapped_cancellation : ReviewProcessingCancellation → ReviewProcessingErrorMapping

pub data BoundaryErrorCode : Type 0 where
  review_not_found claim_conflict finalization_conflict processing_lock_unavailable result_not_ready
        result_unavailable :
      BoundaryErrorCode

-- The `Error` that `mapProviderFailure` throws.
pub data MappingError : Type 0 where
  cancellation_not_mapped : MappingError

abbrev pub is_cancelled_code : AiProviderErrorCode → Bool
is_cancelled_code provider_cancelled = true
is_cancelled_code _ = false

unfoldable pub map_provider_failure : AiProviderError → Result MappingError ReviewProcessingFailure
map_provider_failure error =
    if is_cancelled_code error.code
    then err cancellation_not_mapped
    else ok (record {
      code = ai_provider error.code;
      retryable = error.retryable;
      provider_code = if error.normalized_from_unknown then none else some error.code;
      attempts = error.attempts;
    })

abbrev pub is_abort_error : AiError → Bool
is_abort_error abort_error = true
is_abort_error _ = false

-- `mapAiError` after its test of the signal.
unfoldable pub map_unaborted : AiError → Result MappingError ReviewProcessingErrorMapping
unfolding map_provider_failure
map_unaborted (provider_error error) =
    if is_cancelled_code error.code
    then ok (
        mapped_cancellation
          (record { source = ai_provider_source; provider_code = some provider_cancelled }))
    else (map_provider_failure error >>= λ failure. ok (mapped_failure failure))
map_unaborted request_error = ok (
    mapped_failure (record {
      code = ai_request_invalid;
      retryable = false;
      provider_code = none;
      attempts = none;
    }))
map_unaborted (validation_error attempts) = ok (
    mapped_failure (record {
      code = ai_result_invalid;
      retryable = false;
      provider_code = none;
      attempts = attempts;
    }))
map_unaborted _ = ok (
    mapped_failure
      (record { code = internal; retryable = false; provider_code = none; attempts = none }))

unfoldable pub map_ai_error : AiError → Bool → Result MappingError ReviewProcessingErrorMapping
unfolding map_unaborted
map_ai_error error aborted =
    if aborted || is_abort_error error
    then ok (mapped_cancellation (cancellation_by signal))
    else map_unaborted error

pub data ReviewProcessingClaim : Type 0 where
  claimed : ℕ → ReviewRecord → ReviewProcessingClaim
  already_processing : ReviewRecord → ReviewProcessingClaim
  already_completed : ReviewRecord → ReviewProcessingClaim
  not_claimed : ReviewRecord → ReviewStatus → ReviewProcessingClaim

pub data ReviewProcessingSkippedReason : Type 0 where
  skipped_processing skipped_completed retry_required_reason stale_claim_reason :
      ReviewProcessingSkippedReason

-- `E` is the type of an execution. The first three kinds have a fixed status.
pub data ReviewProcessingOutcome (E : Type 0) : Type 0 where
  completed_outcome : ReviewRecord → E → ReviewProcessingOutcome E
  failed_outcome : ReviewRecord → ReviewProcessingFailure → ReviewProcessingOutcome E
  cancelled_outcome : ReviewRecord → ReviewProcessingCancellation → ReviewProcessingOutcome E
  skipped_outcome :
      ReviewRecord → ReviewStatus → ReviewProcessingSkippedReason → ReviewProcessingOutcome E

module _ {E : Type 0} where
  -- The fields `status` and `review` of an outcome.
  abbrev pub outcome_status : ReviewProcessingOutcome E → ReviewStatus
  outcome_status (completed_outcome r e) = completed
  outcome_status (failed_outcome r f) = failed
  outcome_status (cancelled_outcome r c) = cancelled
  outcome_status (skipped_outcome r status reason) = status

  abbrev pub outcome_review : ReviewProcessingOutcome E → ReviewRecord
  outcome_review (completed_outcome r e) = r
  outcome_review (failed_outcome r f) = r
  outcome_review (cancelled_outcome r c) = r
  outcome_review (skipped_outcome r status reason) = r

  unfoldable pub retry_required : ReviewRecord → ReviewStatus → ReviewProcessingOutcome E
  retry_required review status = skipped_outcome review status retry_required_reason

  unfoldable pub stale_claim : ReviewRecord → ReviewProcessingOutcome E
  stale_claim review = skipped_outcome review processing stale_claim_reason

  unfoldable pub was_completed : ReviewRecord → ReviewProcessingOutcome E
  was_completed review = skipped_outcome review completed skipped_completed

  unfoldable pub was_processing : ReviewRecord → ReviewProcessingOutcome E
  was_processing review = skipped_outcome review processing skipped_processing

  unfoldable pub concurrent_cancellation : ReviewRecord → ReviewProcessingOutcome E
  concurrent_cancellation review = cancelled_outcome review (cancellation_by concurrent_transition)

  -- `lockContention` by the status of the review.
  unfoldable pub contention_by :
      ReviewStatus → ReviewRecord → Result BoundaryErrorCode (ReviewProcessingOutcome E)
  unfolding was_completed was_processing
  contention_by completed review = ok (was_completed review)
  contention_by processing review = ok (was_processing review)
  contention_by _ review = err claim_conflict

  unfoldable pub lock_contention :
      ReviewRecord → Result BoundaryErrorCode (ReviewProcessingOutcome E)
  unfolding contention_by
  lock_contention review = contention_by review.status review

-- `classifyNonClaimed`, by the status of the review.
unfoldable pub classify_by :
    ReviewStatus → ReviewRecord → Result BoundaryErrorCode ReviewProcessingClaim
classify_by processing review = ok (already_processing review)
classify_by completed review = ok (already_completed review)
classify_by pending review = err claim_conflict
classify_by status review = ok (not_claimed review status)

unfoldable pub classify_non_claimed : ReviewRecord → Result BoundaryErrorCode ReviewProcessingClaim
unfolding classify_by
classify_non_claimed review = classify_by review.status review
