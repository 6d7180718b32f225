-- ===== src/Review/Processing/Service.antt =====
-- The class of apps/api/src/modules/review/processing/review-processing.service.ts: its methods on a claim
-- that has been made, and those that make one. A helper named `.._by` branches on the status that a
-- call of the repository returned.
pub mod Run
pub mod Agrees
pub mod Kept
pub mod Finalize
pub mod Flow
pub mod Lock
pub mod Seen
pub mod Shown
pub mod Outcome
pub mod Anyhow
pub mod Decided
pub mod Release
pub mod Barred
pub mod Guarded
pub mod Fenced
pub mod Waiting
pub mod Ended
pub mod Quiet
pub mod Delayed
use repo_mentor.Review.Repository.{RepositoryError}
use repo_mentor.Review.Repository.Writes.{transition_for_user, finalize_for_user}
use repo_mentor.Review.Persistence.{Schemas}
use repo_mentor.Prelude.{
  Bool, Option, Result, String, err, if◌then◌else◌, nat_eq, none, ok, option_eq, some, string_eq, ℕ,
  ◌==◌,
}
use repo_mentor.Review.Policy
use repo_mentor.Review.Policy.{create_processing_transition}
use repo_mentor.Review.Processing.World.{
  M, World, ◌>>=◌, return, throw, lift, clock, is_aborted, is_lost, call, found_or_throw,
  find_current_or_throw, wait_fence, repository_error, boundary_error, mapping_error, foreign_error,
  lock_renewal_abort,
}
use repo_mentor.Review.Processing.{
  outcome_status, cancellation_by, classify_non_claimed, ReviewProcessingFailure,
  ReviewProcessingOutcome, ReviewProcessingClaim, ReviewProcessingCancellation,
  finalization_conflict, signal, lock_renewal, claimed, not_claimed, already_completed,
  already_processing, completed_outcome, failed_outcome, cancelled_outcome, skipped_outcome,
  was_completed, was_processing, retry_required, stale_claim, concurrent_cancellation,
  BoundaryErrorCode,
}
use repo_mentor.Review.Types.{
  status_eq, ReviewStatus, pending, processing, completed, failed, cancelled, ReviewRecord,
}

-- `claim` on the review that the transition returned.
unfoldable pub claim_by :
    ReviewStatus → ReviewRecord → Result BoundaryErrorCode ReviewProcessingClaim
claim_by processing review = ok (claimed review.processing_generation review)
claim_by _ review = classify_non_claimed review

module _ {E : Type 0} where
  -- `complete`: on what the finalization returned, and on the review read again.
  unfoldable pub completed_by : E → ReviewStatus → ReviewRecord → Option (ReviewProcessingOutcome E)
  completed_by execution completed review = some (completed_outcome review execution)
  completed_by execution cancelled review = some (concurrent_cancellation review)
  completed_by execution failed review = some (retry_required review failed)
  completed_by execution _ review = none

  unfoldable pub complete_reread :
      ReviewStatus → ReviewRecord → Result BoundaryErrorCode (ReviewProcessingOutcome E)
  complete_reread completed review = ok (was_completed review)
  complete_reread cancelled review = ok (concurrent_cancellation review)
  complete_reread failed review = ok (retry_required review failed)
  complete_reread processing review = ok (stale_claim review)
  complete_reread pending review = err finalization_conflict

  -- `fail`
  unfoldable pub failed_by :
      ReviewProcessingFailure → ReviewStatus → ReviewRecord → Option (ReviewProcessingOutcome E)
  failed_by failure failed review = some (failed_outcome review failure)
  failed_by failure cancelled review = some (concurrent_cancellation review)
  failed_by failure completed review = some (was_completed review)
  failed_by failure _ review = none

  unfoldable pub fail_reread :
      ReviewProcessingFailure
      → ReviewStatus
      → ReviewRecord
      → Result BoundaryErrorCode (ReviewProcessingOutcome E)
  fail_reread failure completed review = ok (was_completed review)
  fail_reread failure cancelled review = ok (concurrent_cancellation review)
  fail_reread failure failed review = ok (failed_outcome review failure)
  fail_reread failure processing review = ok (stale_claim review)
  fail_reread failure pending review = err finalization_conflict

  -- `cancel`
  unfoldable pub cancelled_by :
      ReviewProcessingCancellation
      → ReviewStatus
      → ReviewRecord
      → Option (ReviewProcessingOutcome E)
  cancelled_by cancellation cancelled review = some (cancelled_outcome review cancellation)
  cancelled_by cancellation failed review = some (retry_required review failed)
  cancelled_by cancellation completed review = some (was_completed review)
  cancelled_by cancellation _ review = none

  unfoldable pub cancel_reread :
      ReviewStatus → ReviewRecord → Result BoundaryErrorCode (ReviewProcessingOutcome E)
  cancel_reread cancelled review = ok (concurrent_cancellation review)
  cancel_reread completed review = ok (was_completed review)
  cancel_reread failed review = ok (retry_required review failed)
  cancel_reread processing review = ok (stale_claim review)
  cancel_reread pending review = err finalization_conflict

  -- `returned?.status === …`
  unfoldable pub when_returned :
      (ReviewStatus → ReviewRecord → Option (ReviewProcessingOutcome E))
      → Option ReviewRecord
      → Option (ReviewProcessingOutcome E)
  when_returned by none = none
  when_returned by (some review) = by review.status review

-- `lockLossCancellation`
unfoldable pub lock_loss_cancellation : Bool → ReviewProcessingCancellation
lock_loss_cancellation aborted =
    if aborted then cancellation_by signal else cancellation_by lock_renewal

module _ {S : Schemas} (user_id id : String) where
  -- The end of `complete`, `fail` and `cancel`: the outcome, or the one by the review read again.
  unfoldable pub or_reread :
      (ReviewStatus → ReviewRecord → Result BoundaryErrorCode (ReviewProcessingOutcome S.Execution))
      → Option (ReviewProcessingOutcome S.Execution)
      → M S (ReviewProcessingOutcome S.Execution)
  or_reread reread (some outcome) = return outcome
  or_reread reread none =
      find_current_or_throw user_id id >>= λ current. lift (reread current.status current)

  unfoldable pub claim_returned : Option ReviewRecord → M S ReviewProcessingClaim
  claim_returned (some review) = lift (claim_by review.status review)
  claim_returned none =
      find_current_or_throw user_id id >>= λ current. lift (classify_non_claimed current)

  unfoldable pub claim : M S ReviewProcessingClaim
  claim = clock >>= λ now.
      call user_id id (λ s.
        transition_for_user s user_id id (create_processing_transition Policy.claim now none none))
      >>= claim_returned

  unfoldable pub complete : ℕ → S.Execution → M S (ReviewProcessingOutcome S.Execution)
  complete g execution = clock >>= λ now.
      call user_id id (λ s. finalize_for_user S s user_id id execution now g) >>= λ returned.
      or_reread complete_reread (when_returned (completed_by execution) returned)

  unfoldable pub fail : ℕ → ReviewProcessingFailure → M S (ReviewProcessingOutcome S.Execution)
  fail g failure = clock >>= λ now.
      call user_id id (λ s.
        transition_for_user s user_id id
          (create_processing_transition Policy.fail now (some g) (some failure.retryable)))
      >>= λ returned. or_reread (fail_reread failure) (when_returned (failed_by failure) returned)

  unfoldable pub cancel :
      ℕ → ReviewProcessingCancellation → M S (ReviewProcessingOutcome S.Execution)
  cancel g cancellation = clock >>= λ now.
      call user_id id (λ s.
        transition_for_user s user_id id
          (create_processing_transition Policy.cancel now (some g) none))
      >>= λ returned. or_reread cancel_reread (when_returned (cancelled_by cancellation) returned)

  unfoldable pub fallback_by :
      Option RepositoryError
      → ReviewProcessingOutcome S.Execution
      → M S (ReviewProcessingOutcome S.Execution)
  fallback_by none fallback = return fallback
  fallback_by (some e) fallback =
      if outcome_status fallback == cancelled then throw (repository_error e) else return fallback

  -- What follows the fence: the review where it is cancelled, or the fallback with the fence's error.
  unfoldable pub fence_returned :
      ℕ
      → ReviewProcessingCancellation
      → Result RepositoryError (Option ReviewRecord)
      → M S (ReviewProcessingOutcome S.Execution)
  fence_returned g cancellation (ok none) = cancel g cancellation >>= fallback_by none
  fence_returned g cancellation (ok (some review)) =
      if review.status == cancelled
      then return (cancelled_outcome review cancellation)
      else (cancel g cancellation >>= fallback_by none)
  fence_returned g cancellation (err e) = cancel g cancellation >>= fallback_by (some e)

  unfoldable pub cancel_after_lease_loss :
      ℕ → ReviewProcessingCancellation → M S (ReviewProcessingOutcome S.Execution)
  cancel_after_lease_loss g cancellation = wait_fence user_id id >>= fence_returned g cancellation

  -- The tests of the signal and of the keepalive that guard a result or an error of a claim.
  unfoldable pub unless_stopped :
      ℕ → M S (ReviewProcessingOutcome S.Execution) → M S (ReviewProcessingOutcome S.Execution)
  unless_stopped g rest = is_aborted >>= λ aborted. is_lost >>= λ lost.
      if aborted
      then (if lost
          then cancel_after_lease_loss g (cancellation_by signal)
          else cancel g (cancellation_by signal))
      else (if lost then cancel_after_lease_loss g (lock_loss_cancellation aborted) else rest)
