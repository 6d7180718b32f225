-- ===== src/Review/Processing/Service/Agrees.antt =====
-- What the outcomes of review-processing.service.ts show of the review that they carry.
use repo_mentor.Review.Processing.Triple.{Each}
use repo_mentor.Review.Repository.Guards.{Visible}
use repo_mentor.Prelude.{String, arith, refl, ◌≡◌}
use repo_mentor.Review.Processing.{
  ReviewProcessingFailure, stale_claim, ReviewProcessingCancellation, outcome_review,
  retry_required, outcome_status, was_processing, concurrent_cancellation, was_completed,
  ReviewStatus, ReviewProcessingOutcome, ReviewRecord, contention_by,
}
use repo_mentor.Review.Processing.Triple.{Each, Lifted}
use repo_mentor.Review.Processing.Service.{
  fail_reread, completed_by, cancelled_by, failed_by, cancel_reread, complete_reread,
}

module _ {E : Type 0} where
  -- The outcome is of this review, and its status is the given one.
  abbrev pub Agrees : ReviewStatus → ReviewRecord → ReviewProcessingOutcome E → Type 0
  Agrees status review o = (outcome_status o ≡ status) × (outcome_review o ≡ review)

  -- The outcome shows its review's status, and the review is the user's and not deleted.
  abbrev pub Shown : String → ReviewProcessingOutcome E → Type 0
  Shown user_id o =
      ((outcome_review o).status ≡ outcome_status o) × Visible user_id (outcome_review o)

  pub Agrees-Shown :
      (user_id : String) (r : ReviewRecord) (o : ReviewProcessingOutcome E)
      → Visible user_id r
      → Agrees r.status r o
      → Shown user_id o
  Agrees-Shown user_id r o v (a, b) = (rw (b, a) refl, rw b v)

module _ (E : Type 0) where
  pub completed_by-Agrees :
      (execution : E) (status : ReviewStatus) (r : ReviewRecord)
      → Each (Agrees {E = E} status r) (completed_by {E = E} execution status r)
  unfolding completed_by concurrent_cancellation retry_required
  completed_by-Agrees execution status r = ground arith

  pub failed_by-Agrees :
      (failure : ReviewProcessingFailure) (status : ReviewStatus) (r : ReviewRecord)
      → Each (Agrees {E = E} status r) (failed_by {E = E} failure status r)
  unfolding failed_by concurrent_cancellation was_completed
  failed_by-Agrees failure status r = ground arith

  pub cancelled_by-Agrees :
      (cancellation : ReviewProcessingCancellation) (status : ReviewStatus) (r : ReviewRecord)
      → Each (Agrees {E = E} status r) (cancelled_by {E = E} cancellation status r)
  unfolding cancelled_by retry_required was_completed
  cancelled_by-Agrees cancellation status r = ground arith

  pub complete_reread-Agrees :
      (status : ReviewStatus) (r : ReviewRecord)
      → Lifted (Agrees {E = E} status r) (complete_reread {E = E} status r)
  unfolding complete_reread concurrent_cancellation retry_required was_completed stale_claim
  complete_reread-Agrees status r = ground arith

  pub fail_reread-Agrees :
      (failure : ReviewProcessingFailure) (status : ReviewStatus) (r : ReviewRecord)
      → Lifted (Agrees {E = E} status r) (fail_reread {E = E} failure status r)
  unfolding fail_reread concurrent_cancellation was_completed stale_claim
  fail_reread-Agrees failure status r = ground arith

  pub cancel_reread-Agrees :
      (status : ReviewStatus) (r : ReviewRecord)
      → Lifted (Agrees {E = E} status r) (cancel_reread {E = E} status r)
  unfolding cancel_reread concurrent_cancellation retry_required was_completed stale_claim
  cancel_reread-Agrees status r = ground arith

  pub contention_by-Agrees :
      (status : ReviewStatus) (r : ReviewRecord)
      → Lifted (Agrees {E = E} status r) (contention_by {E = E} status r)
  unfolding contention_by was_completed was_processing
  contention_by-Agrees status r = ground arith
