-- ===== src/Review/Processing/Service/Anyhow.antt =====
-- review-processing.service.ts: a property of the world that what surrounds the service keeps is kept by
-- the service's methods.
use repo_mentor.Review.Repository.{Repository}
use repo_mentor.Prelude.{Option, Result, String, err, none, ok, some, ℕ}
use repo_mentor.Review.Policy
use repo_mentor.Review.Policy.{create_processing_transition}
use repo_mentor.Review.Processing.{
  ReviewStatus, classify_non_claimed, ReviewProcessingCancellation, ReviewProcessingFailure,
  ReviewRecord, BoundaryErrorCode, ReviewProcessingOutcome,
}
use repo_mentor.Review.Processing.World.{Thrown, World, ◌>>=◌, call, find_current_or_throw}
use repo_mentor.Review.Processing.Triple.{Good, Good-bind_result, Good-lift, Good-imp, Each, Lifted}
use repo_mentor.Review.Processing.Service.{
  RepositoryError, lift, Schemas, claim, complete, fail, cancel, or_reread, when_returned,
  claim_returned,
}
use repo_mentor.Review.Processing.Service.Kept.{
  Closed, Steps, call-Good, transition_for_user-Steps, finalize_for_user-Steps,
}
use repo_mentor.Review.Processing.Service.Finalize.{finalization-Good, find_current_or_throw-Good}

Each-Any : {A : Type 0} (o : Option A) → Each (λ _. Unit) o
Each-Any none = tt
Each-Any (some a) = tt

pub Lifted-Any : {A : Type 0} (m : Result BoundaryErrorCode A) → Lifted (λ _. Unit) m
Lifted-Any (ok a) = tt
Lifted-Any (err e) = tt

module _ {S : Schemas} (user_id id : String) (I : World S → Type 0)
    (P : World S → ReviewRecord → Type 0) (closed : Closed user_id id I P) where
  abbrev pub Any : {A : Type 0} → World S × Result Thrown A → Type 0
  Any p = Good I (λ w a. Unit) p

  pub find_current_or_throw-Any : (w : World S) → I w → Any (find_current_or_throw user_id id w)
  find_current_or_throw-Any =
      find_current_or_throw-Good user_id id I P closed (λ w r. Unit) (λ w t o i h _. Each-Any o)

  finalization-Any :
      (method : Repository S.ReviewResult
        → Result RepositoryError (Repository S.ReviewResult × Option ReviewRecord))
      (by : ReviewStatus → ReviewRecord → Option (ReviewProcessingOutcome S.Execution))
      (reread : ReviewStatus
        → ReviewRecord
        → Result BoundaryErrorCode (ReviewProcessingOutcome S.Execution))
      → Steps S method
      → (w : World S) → I w
      → Any ((call user_id id method >>= λ o. or_reread user_id id reread (when_returned by o)) w)
  finalization-Any method by reread steps =
      finalization-Good user_id id I P closed (λ w o. Unit) by reread (λ w o. Unit) method steps
        (λ w t o i h _. tt) (λ w o v. Each-Any (when_returned by o))
        (λ w o i v e.
          Good-imp I (λ w' r. Unit) (λ w' r. Lifted (λ _. Unit) (reread r.status r))
            (find_current_or_throw user_id id w) (find_current_or_throw-Any w i)
            (λ w' r u. Lifted-Any (reread r.status r)))

  pub complete-Any :
      (g : ℕ) (execution : S.Execution) (w : World S)
      → I w
      → Any (complete user_id id g execution w)
  unfolding complete
  complete-Any g execution w i =
      finalization-Any _ _ _ (finalize_for_user-Steps S user_id id execution w.now g) w i

  pub fail-Any :
      (g : ℕ) (failure : ReviewProcessingFailure) (w : World S)
      → I w
      → Any (fail user_id id g failure w)
  unfolding fail
  fail-Any g failure w i =
      finalization-Any _ _ _
        (transition_for_user-Steps S user_id id
          (create_processing_transition Policy.fail w.now (some g) (some failure.retryable)))
        w i

  pub cancel-Any :
      (g : ℕ) (c : ReviewProcessingCancellation) (w : World S) → I w → Any (cancel user_id id g c w)
  unfolding cancel
  cancel-Any g c w i =
      finalization-Any _ _ _
        (transition_for_user-Steps S user_id id
          (create_processing_transition Policy.cancel w.now (some g) none))
        w i

  claim_returned-Any :
      (o : Option ReviewRecord) (w : World S) → I w → Any (claim_returned user_id id o w)
  unfolding claim_returned
  claim_returned-Any (some r) w i = Good-lift I (λ w' c. Unit) _ w i (Lifted-Any _)
  claim_returned-Any none w i =
      Good-bind_result I (λ w' r. Unit) (λ w' c. Unit) (λ r. lift (classify_non_claimed r))
        (find_current_or_throw user_id id w) (find_current_or_throw-Any w i)
        (λ w' r i' v. Good-lift I (λ w'' c. Unit) _ w' i' (Lifted-Any (classify_non_claimed r)))

  pub claim-Any : (w : World S) → I w → Any (claim user_id id w)
  unfolding claim
  claim-Any w i =
      Good-bind_result I (λ w' o. Unit) (λ w' c. Unit) (claim_returned user_id id)
        (call user_id id _ w)
        (call-Good user_id id I P closed (λ w' o. Unit) _
          (transition_for_user-Steps S user_id id
            (create_processing_transition Policy.claim w.now none none))
          (λ w' t o i' h _. tt) w i)
        (λ w' o i' v. claim_returned-Any o w' i')
