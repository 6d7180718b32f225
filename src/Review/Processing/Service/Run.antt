-- ===== src/Review/Processing/Service/Run.antt =====
-- review-processing.service.ts: the methods that run a claim under the lock.
use repo_mentor.Review.Repository.Writes.{find_result_for_user}
use repo_mentor.Ai.Errors.{unknown_error, AiError}
use repo_mentor.Review.Persistence.{ReviewResultRecord}
use repo_mentor.Review.Processing.{
  retry_required, not_claimed, was_processing, already_processing, mapped_failure, was_completed,
  already_completed, mapped_cancellation, map_ai_error, result_not_ready, lock_contention,
  result_unavailable, claimed, ReviewProcessingErrorMapping, processing_lock_unavailable,
  MappingError,
}
use repo_mentor.Prelude.{
  Bool, Option, Result, String, err, false, if◌then◌else◌, nat_eq, none, not, ok, option_eq, some,
  string_eq, true, ℕ, ◌&&◌, ◌+◌, ◌==◌,
}
use repo_mentor.Review.Types.{status_eq, completed}
use repo_mentor.Review.Processing.World.{
  Thrown, M, World, ◌>>=◌, return, throw, lift, is_aborted, is_lost, find_current_or_throw,
  boundary_error, mapping_error, foreign_error, lock_renewal_abort, set_claimed_generation,
  no_fence, wait,
}
use repo_mentor.Review.Processing.Service.{
  ReviewProcessingClaim, ReviewProcessingOutcome, ReviewRecord, Schemas, claim, complete, fail,
  cancel, cancel_after_lease_loss, unless_stopped, lock_loss_cancellation,
}

-- What is outside the service in one run: how the AI review service settles, and whether the loss of the
-- lock, once it has happened, is what settles each of the two races.
pub record Choices (S : Schemas) : Type 0 where
  pub provider : ReviewRecord → Result AiError S.Execution
  pub provider_race : Bool
  pub final_race : Bool

-- How `acquireReviewLock` and `releaseReviewLock` settle.
pub data LockAcquisition : Type 0 where
  lock_acquired : String → LockAcquisition
  lock_without_token lock_refused lock_redis_failure lock_foreign_error : LockAcquisition

pub data LockRelease : Type 0 where
  lock_released release_redis_failure release_foreign_error : LockRelease

unfoldable pub release_settled : {A : Type 0} → LockRelease → Result Thrown A → Result Thrown A
release_settled release_foreign_error result = err foreign_error
release_settled _ result = result

module _ {S : Schemas} (user_id id : String) where
  -- A finalization that is called in a later microtask, against the loss of the lock. An abandoned one has its
  -- calls among the events of the wait.
  unfoldable pub race_finalization :
      Bool
      → M S (ReviewProcessingOutcome S.Execution)
      → World S
      → World S × Result Thrown (ReviewProcessingOutcome S.Execution)
  race_finalization choice finalize w =
      let deferred = wait user_id id w in
      if choice && deferred.lost then (deferred, err lock_renewal_abort) else finalize deferred

  unfoldable pub rethrow : ℕ → Thrown → M S (ReviewProcessingOutcome S.Execution)
  rethrow g lock_renewal_abort = is_aborted >>= λ aborted.
      cancel_after_lease_loss user_id id g (lock_loss_cancellation aborted)
  rethrow g e = throw e

  -- The two continuations of the `try`.
  unfoldable pub finalization_settled :
      ℕ
      → World S × Result Thrown (ReviewProcessingOutcome S.Execution)
      → World S × Result Thrown (ReviewProcessingOutcome S.Execution)
  finalization_settled g (w, ok outcome) = unless_stopped user_id id g (return outcome) w
  finalization_settled g (w, err e) = unless_stopped user_id id g (rethrow g e) w

  unfoldable pub run_finalization_with_lock :
      ℕ
      → Bool
      → M S (ReviewProcessingOutcome S.Execution)
      → M S (ReviewProcessingOutcome S.Execution)
  run_finalization_with_lock g choice finalize w =
      if w.lost
      then cancel_after_lease_loss user_id id g (lock_loss_cancellation w.aborted) w
      else finalization_settled g (race_finalization choice finalize w)

  -- `Promise.race([executionPromise, lockLossPromise])`; what the loss throws is no error of the provider.
  unfoldable pub race_provider : Choices S → ReviewRecord → M S (Result AiError S.Execution)
  race_provider choices review w =
      let settled = wait user_id id w in
      (
        settled,
        ok (
            if choices.provider_race && settled.lost
            then err unknown_error
            else choices.provider review),
      )

  unfoldable pub finish_mapped :
      Choices S
      → ℕ
      → Result MappingError ReviewProcessingErrorMapping
      → M S (ReviewProcessingOutcome S.Execution)
  finish_mapped choices g (ok (mapped_cancellation cancellation)) = cancel user_id id g cancellation
  finish_mapped choices g (ok (mapped_failure failure)) =
      run_finalization_with_lock g choices.final_race (fail user_id id g failure)
  finish_mapped choices g (err e) = throw (mapping_error e)

  unfoldable pub execution_settled :
      Choices S → ℕ → Result AiError S.Execution → M S (ReviewProcessingOutcome S.Execution)
  execution_settled choices g (err error) =
      unless_stopped user_id id g
        (is_aborted >>= λ aborted. finish_mapped choices g (map_ai_error error aborted))
  execution_settled choices g (ok execution) =
      unless_stopped user_id id g
        (run_finalization_with_lock g choices.final_race (complete user_id id g execution))

  -- What follows a claim that was made.
  unfoldable pub run_claim :
      Choices S → ℕ → ReviewRecord → M S (ReviewProcessingOutcome S.Execution)
  run_claim choices g review w =
      let set = set_claimed_generation user_id id g w in
      if set.lost
      then cancel_after_lease_loss user_id id g (lock_loss_cancellation set.aborted) set
      else (race_provider choices review >>= execution_settled choices g) set

  -- `if (keepalive.isLost() && !input.signal?.aborted) throw …`
  unfoldable pub unless_unavailable : {A : Type 0} → M S A → M S A
  unless_unavailable rest = is_lost >>= λ lost. is_aborted >>= λ aborted.
      if lost && not aborted then throw (boundary_error processing_lock_unavailable) else rest

  unfoldable pub claim_settled :
      Choices S → ReviewProcessingClaim → M S (ReviewProcessingOutcome S.Execution)
  claim_settled choices (claimed g review) = run_claim choices g review
  claim_settled choices (already_completed review) =
      unless_unavailable (return (was_completed review))
  claim_settled choices (already_processing review) =
      unless_unavailable (return (was_processing review))
  claim_settled choices (not_claimed review status) =
      unless_unavailable (return (retry_required review status))

  unfoldable pub process_with_lock : Choices S → M S (ReviewProcessingOutcome S.Execution)
  process_with_lock choices = unless_unavailable (claim user_id id >>= claim_settled choices)

  -- `new ReviewProcessingLeaseFence` and `new ReviewLockKeepalive`.
  unfoldable pub start_keepalive : World S → World S
  start_keepalive w = record w {
    lost = false;
    stopped = false;
    claimed_generation = none;
    fence = no_fence;
  }

  -- The `finally` of `process`.
  unfoldable pub released :
      {A : Type 0} → LockRelease → World S × Result Thrown A → World S × Result Thrown A
  released release (w, result) = (
    wait user_id id (record w { stopped = true; releases = w.releases + 1 }),
    release_settled release result,
  )

  unfoldable pub run_under_lock :
      Choices S → LockRelease → M S (ReviewProcessingOutcome S.Execution)
  run_under_lock choices release w =
      released release (process_with_lock choices (start_keepalive w))

  unfoldable pub acquisition_settled :
      Choices S → LockRelease → LockAcquisition → M S (ReviewProcessingOutcome S.Execution)
  acquisition_settled choices release lock_refused =
      find_current_or_throw user_id id >>= λ current. lift (lock_contention current)
  acquisition_settled choices release lock_without_token =
      throw (boundary_error processing_lock_unavailable)
  acquisition_settled choices release lock_redis_failure =
      throw (boundary_error processing_lock_unavailable)
  acquisition_settled choices release lock_foreign_error = throw foreign_error
  acquisition_settled choices release (lock_acquired token) = run_under_lock choices release

  -- `process`, where the lock's acquisition and release settle as given.
  unfoldable pub process :
      Choices S → LockAcquisition → LockRelease → M S (ReviewProcessingOutcome S.Execution)
  process choices lock release = find_current_or_throw user_id id >>= λ _.
      λ w. acquisition_settled choices release lock (wait user_id id w)

  unfoldable pub result_by :
      Option (ReviewResultRecord S.ReviewResult) → M S (ReviewResultRecord S.ReviewResult)
  result_by none = throw (boundary_error result_unavailable)
  result_by (some result) = return result

  unfoldable pub read_result : M S (Option (ReviewResultRecord S.ReviewResult))
  read_result w =
      let there = wait user_id id w in
      (wait user_id id there, ok (find_result_for_user there.repository user_id id))

  unfoldable pub get_result : M S (ReviewResultRecord S.ReviewResult)
  get_result = find_current_or_throw user_id id >>= λ review.
      if review.status == completed
      then (read_result >>= result_by)
      else throw (boundary_error result_not_ready)
