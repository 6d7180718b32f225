-- ===== src/Review/Processing/Service/Decided.antt =====
-- review-processing.service.ts: when an outcome of `process` may be that of a finalization.
use repo_mentor.Review.Processing.Service.Flow.{Handled, run_claim-Good}
use repo_mentor.Review.Processing.Service.Lock.{Claiming, process_with_lock-Good}
use repo_mentor.Review.Processing.Service.Anyhow.{
  find_current_or_throw-Any, complete-Any, fail-Any, claim-Any,
}
use repo_mentor.Review.Processing.Service.Run.{process_with_lock, Choices}
use repo_mentor.Prelude.{Bool, Option, String, arith, false, none, ok, some, true, ℕ, ◌≡◌}
use repo_mentor.Review.Types.{ReviewRecord}
use repo_mentor.Review.Policy
use repo_mentor.Review.Policy.{create_processing_transition}
use repo_mentor.Review.Processing.{
  was_processing, ReviewStatus, ReviewProcessingCancellation, completed_outcome, failed_outcome,
  was_completed, retry_required, stale_claim, concurrent_cancellation, ReviewProcessingOutcome,
}
use repo_mentor.Review.Processing.World.{World, find_current_or_throw}
use repo_mentor.Review.Processing.Triple.{Good-returns, Good, Good-imp, Each, Lifted}
use repo_mentor.Review.Processing.Service.{
  Schemas, cancel, when_returned, cancelled_by, cancel_reread,
}
use repo_mentor.Review.Processing.Service.Kept.{Closed, transition_for_user-Steps}
use repo_mentor.Review.Processing.Service.Finalize.{finalization-Good}

-- `COMPLETED` and `FAILED`
abbrev pub is_decided : {E : Type 0} → ReviewProcessingOutcome E → Bool
is_decided (completed_outcome r e) = true
is_decided (failed_outcome r f) = true
is_decided _ = false

when_returned-undecided :
    (E : Type 0) (c : ReviewProcessingCancellation) (o : Option ReviewRecord)
    → Each
        (λ (x : ReviewProcessingOutcome E). is_decided x ≡ false)
        (when_returned {E = E} (cancelled_by c) o)
unfolding when_returned cancelled_by retry_required was_completed
when_returned-undecided E c o = ground arith

cancel_reread-undecided :
    (E : Type 0) (status : ReviewStatus) (r : ReviewRecord)
    → Lifted
        (λ (x : ReviewProcessingOutcome E). is_decided x ≡ false)
        (cancel_reread {E = E} status r)
unfolding cancel_reread retry_required was_completed stale_claim concurrent_cancellation
cancel_reread-undecided E status r = ground arith

module _ (S : Schemas) (user_id id : String) where
  abbrev Outcome : Type 0
  Outcome = ReviewProcessingOutcome S.Execution

  abbrev I : World S → Type 0
  I w = Unit

  -- A decided outcome is one of a run that has not been stopped.
  abbrev pub Q : World S → Outcome → Type 0
  Q w o = is_decided o ≡ true → (w.aborted ≡ false) × (w.lost ≡ false)

  closed : Closed user_id id I (λ w r. Unit)
  closed = record {
    on_wait = λ w i. tt;
    on_fence = λ w i. tt;
    on_call = λ w c calm i. tt;
    on_promise = λ w r i e. tt;
  }

  cancel-undecided :
      (g : ℕ) (c : ReviewProcessingCancellation) (w : World S)
      → I w
      → Good I (λ w' o. is_decided o ≡ false) (cancel user_id id g c w)
  unfolding cancel
  cancel-undecided g c w i =
      finalization-Good user_id id I _ closed (λ w' o. is_decided o ≡ false) (cancelled_by c)
        cancel_reread (λ w' o. Unit) _
        (transition_for_user-Steps S user_id id
          (create_processing_transition Policy.cancel w.now (some g) none))
        (λ w' t o i' h _. tt) (λ w' o v. when_returned-undecided S.Execution c o)
        (λ w' o i' v e.
          Good-imp I (λ w'' r. Unit) _ (find_current_or_throw user_id id w')
            (find_current_or_throw-Any user_id id I _ closed w' i')
            (λ w'' r u. cancel_reread-undecided S.Execution r.status r))
        w i

  handled : (g : ℕ) → Handled user_id id I (λ w r. Unit) (λ w o. Unit) Q g
  handled g = record {
    completes = complete-Any user_id id I _ closed g;
    fails = fail-Any user_id id I _ closed g;
    cancels = λ c w i.
        Good-imp I (λ w' o. is_decided o ≡ false) Q (cancel user_id id g c w)
          (cancel-undecided g c w i) (λ w' o undecided decided. cc);
    fences = λ w r c p e decided. cc;
    settles = λ w o going held u decided. (going, held);
  }

  claiming : Claiming user_id id I I (λ w c. Unit) Q
  unfolding was_completed was_processing retry_required
  claiming = record {
    claims = claim-Any user_id id I _ closed;
    runs = λ choices g r w i h.
        run_claim-Good user_id id I _ (λ w' o. Unit) Q g closed (handled g) choices r w tt;
    weakens = λ w i. i;
    skips_completed = λ w r h decided. cc;
    skips_processing = λ w r h decided. cc;
    skips_unclaimed = λ w r status h decided. cc;
  }

  -- A processing under the lock that returns the outcome `COMPLETED` or `FAILED` of its own finalization
  -- returns it at a moment at which the caller has not aborted and the lock is not known to be lost,
  -- however the AI review service and the races settle and whatever others do at every wait.
  pub process_with_lock-decided :
      (choices : Choices S) (w w' : World S) (o : ReviewProcessingOutcome S.Execution)
      → process_with_lock user_id id choices w ≡ (w', ok o)
      → is_decided o ≡ true
      → (w'.aborted ≡ false) × (w'.lost ≡ false)
  process_with_lock-decided choices w w' o returned =
      Good-returns I Q
        (process_with_lock-Good user_id id I I (λ w' c. Unit) Q claiming choices w tt) returned
