-- ===== src/Review/Processing/Service/Shown.antt =====
-- The outcomes of review-processing.service.ts show the status of the review that they carry, which is
-- the user's and was not deleted when it was read.
use repo_mentor.Review.Repository.{Repository}
use repo_mentor.Review.Processing.Service.Agrees.{
  cancel_reread-Agrees, cancelled_by-Agrees, fail_reread-Agrees, failed_by-Agrees,
  complete_reread-Agrees, Agrees-Shown, Agrees, completed_by-Agrees, Shown,
}
use repo_mentor.Review.Repository.Guards.{Visible}
use repo_mentor.Prelude.{Option, Result, String, err, none, ok, refl, some, ℕ, ◌≡◌}
use repo_mentor.Review.Types.{pending, processing, completed, failed, cancelled, ReviewRecord}
use repo_mentor.Review.Processing.{
  BoundaryErrorCode, ReviewProcessingOutcome, ReviewStatus, classify_non_claimed, classify_by,
  claimed, ReviewProcessingClaim, not_claimed, already_completed, already_processing,
}
use repo_mentor.Review.Processing.World.{lift, ◌>>=◌, World, find_current_or_throw}
use repo_mentor.Review.Processing.Service.Finalize.{finalization-Good, find_current_or_throw-Good}
use repo_mentor.Review.Processing.Triple.{Good-imp, Good, Good-bind_result, Good-lift, Each, Lifted}
use repo_mentor.Review.Processing.Service.{
  RepositoryError, call, lift, find_current_or_throw, Schemas, claim, complete, fail, cancel,
  or_reread, when_returned, claim_returned, claim_by,
}
use repo_mentor.Review.Processing.Service.Kept.{
  Steps, call-Good, transition_for_user-Steps, finalize_for_user-Steps,
}
use repo_mentor.Review.Processing.Service.Flow.{Handled}
use repo_mentor.Review.Processing.Service.Seen.{
  Seen, transition-Visible, finalize-Visible, reading-Visible, seen,
}

-- The claim shows the status and the user of its review.
abbrev pub ClaimShown : String → ReviewProcessingClaim → Type 0
ClaimShown user_id (claimed g r) = Unit
ClaimShown user_id (already_completed r) = (r.status ≡ completed) × Visible user_id r
ClaimShown user_id (already_processing r) = (r.status ≡ processing) × Visible user_id r
ClaimShown user_id (not_claimed r status) = (r.status ≡ status) × Visible user_id r

classify_by-Shown :
    (user_id : String) (status : ReviewStatus) (r : ReviewRecord)
    → r.status ≡ status
    → Visible user_id r
    → Lifted (ClaimShown user_id) (classify_by status r)
unfolding classify_by
classify_by-Shown user_id pending r e v = tt
classify_by-Shown user_id processing r e v = (e, v)
classify_by-Shown user_id completed r e v = (e, v)
classify_by-Shown user_id failed r e v = (e, v)
classify_by-Shown user_id cancelled r e v = (e, v)

claim_by-Shown :
    (user_id : String) (status : ReviewStatus) (r : ReviewRecord)
    → r.status ≡ status
    → Visible user_id r
    → Lifted (ClaimShown user_id) (claim_by status r)
unfolding claim_by classify_non_claimed
claim_by-Shown user_id processing r e v = tt
claim_by-Shown user_id pending r e v = classify_by-Shown user_id r.status r refl v
claim_by-Shown user_id completed r e v = classify_by-Shown user_id r.status r refl v
claim_by-Shown user_id failed r e v = classify_by-Shown user_id r.status r refl v
claim_by-Shown user_id cancelled r e v = classify_by-Shown user_id r.status r refl v

module _ {E : Type 0} (user_id : String) (r : ReviewRecord) where
  pub Lifted-Shown :
      (m : Result BoundaryErrorCode (ReviewProcessingOutcome E))
      → Visible user_id r
      → Lifted (Agrees r.status r) m
      → Lifted (Shown user_id) m
  Lifted-Shown (ok o) v a = Agrees-Shown user_id r o v a
  Lifted-Shown (err e) v a = tt

  Each-Shown :
      (o : Option (ReviewProcessingOutcome E))
      → Visible user_id r
      → Each (Agrees r.status r) o
      → Each (Shown user_id) o
  Each-Shown (some o) v a = Agrees-Shown user_id r o v a
  Each-Shown none v a = tt

when_returned-Shown :
    {E : Type 0} (user_id : String)
    (by : ReviewStatus → ReviewRecord → Option (ReviewProcessingOutcome E))
    (o : Option ReviewRecord)
    → ((status : ReviewStatus) (r : ReviewRecord) → Each (Agrees status r) (by status r))
    → Each (Visible user_id) o
    → Each (Shown user_id) (when_returned by o)
unfolding when_returned
when_returned-Shown user_id by none agrees v = tt
when_returned-Shown user_id by (some r) agrees v =
    Each-Shown user_id r (by r.status r) v (agrees r.status r)

module _ (S : Schemas) (user_id id : String) where
  abbrev Outcome : Type 0
  Outcome = ReviewProcessingOutcome S.Execution

  abbrev I : World S → Type 0
  I = Seen S user_id id

  abbrev Q : World S → Outcome → Type 0
  Q w o = Shown user_id o

  pub find_current_or_throw-Visible :
      (w : World S) → I w → Good I (λ _. Visible user_id) (find_current_or_throw user_id id w)
  find_current_or_throw-Visible =
      find_current_or_throw-Good user_id id I _ (seen S user_id id) (λ _. Visible user_id)
        (λ w t o i h _. reading-Visible S user_id id w.repository t o h)

  finalization-Shown :
      (method : Repository S.ReviewResult
        → Result RepositoryError (Repository S.ReviewResult × Option ReviewRecord))
      (by : ReviewStatus → ReviewRecord → Option Outcome)
      (reread : ReviewStatus → ReviewRecord → Result BoundaryErrorCode Outcome)
      → Steps S method
      → ((s t : Repository S.ReviewResult) (o : Option ReviewRecord)
          → method s ≡ ok (t, o)
          → Each (Visible user_id) o)
      → ((status : ReviewStatus) (r : ReviewRecord) → Each (Agrees status r) (by status r))
      → ((status : ReviewStatus) (r : ReviewRecord) → Lifted (Agrees status r) (reread status r))
      → (w : World S) → I w
      → Good I Q
          ((call user_id id method >>= λ o. or_reread user_id id reread (when_returned by o)) w)
  finalization-Shown method by reread steps sees agrees agrees' =
      finalization-Good user_id id I _ (seen S user_id id) Q by reread (λ _. Each (Visible user_id))
        method steps (λ w t o i h _. sees w.repository t o h)
        (λ w o v. when_returned-Shown user_id by o agrees v)
        (λ w o i v e.
          Good-imp I (λ _. Visible user_id) (λ w' r. Lifted (Q w') (reread r.status r))
            (find_current_or_throw user_id id w) (find_current_or_throw-Visible w i)
            (λ w' r v'. Lifted-Shown user_id r (reread r.status r) v' (agrees' r.status r)))

  pub Handled-Shown : (g : ℕ) → Handled user_id id I (λ _. Visible user_id) Q Q g
  unfolding complete fail cancel
  Handled-Shown g = record {
    completes = λ execution w i.
        finalization-Shown _ _ _ (finalize_for_user-Steps S user_id id execution w.now g)
          (λ s t o h. finalize-Visible S user_id id s t execution w.now g o h)
          (completed_by-Agrees S.Execution execution) (complete_reread-Agrees S.Execution) w i;
    fails = λ failure w i.
        finalization-Shown _ _ _ (transition_for_user-Steps S user_id id _)
          (λ s t o h. transition-Visible S user_id id s t _ o h)
          (failed_by-Agrees S.Execution failure) (fail_reread-Agrees S.Execution failure) w i;
    cancels = λ cancellation w i.
        finalization-Shown _ _ _ (transition_for_user-Steps S user_id id _)
          (λ s t o h. transition-Visible S user_id id s t _ o h)
          (cancelled_by-Agrees S.Execution cancellation) (cancel_reread-Agrees S.Execution) w i;
    fences = λ w r cancellation v same. (same, v);
    settles = λ w o going held h. h;
  }

  claim_returned-Shown :
      (o : Option ReviewRecord) (w : World S)
      → I w
      → Each (Visible user_id) o
      → Good I (λ _. ClaimShown user_id) (claim_returned user_id id o w)
  unfolding claim_returned classify_non_claimed
  claim_returned-Shown (some r) w i v =
      Good-lift I (λ _. ClaimShown user_id) _ w i (claim_by-Shown user_id r.status r refl v)
  claim_returned-Shown none w i v =
      Good-bind_result I (λ _. Visible user_id) (λ _. ClaimShown user_id)
        (λ r. lift (classify_non_claimed r)) (find_current_or_throw user_id id w)
        (find_current_or_throw-Visible w i)
        (λ w' r i' v'.
          Good-lift I (λ _. ClaimShown user_id) _ w' i'
            (classify_by-Shown user_id r.status r refl v'))

  pub claim-Shown : (w : World S) → I w → Good I (λ _. ClaimShown user_id) (claim user_id id w)
  unfolding claim
  claim-Shown w i =
      Good-bind_result I (λ _. Each (Visible user_id)) (λ _. ClaimShown user_id)
        (claim_returned user_id id) (call user_id id _ w)
        (call-Good user_id id I _ (seen S user_id id) (λ _. Each (Visible user_id)) _
          (transition_for_user-Steps S user_id id _)
          (λ w' t o i' h _. transition-Visible S user_id id w'.repository t _ o h) w i)
        (λ w' o i' v. claim_returned-Shown o w' i' v)
