-- ===== src/Review/Processing/Service/Fenced.antt =====
-- review-processing.service.ts: a run of a claim that returns has ended the claim.
use repo_mentor.Review.Repository.{Repository}
use repo_mentor.Prelude.{Bool, Option, Result, String, err, none, ok, some, ℕ, ◌≡◌, ◌≢◌}
use repo_mentor.Review.Types.{processing}
use repo_mentor.Review.Policy
use repo_mentor.Review.Policy.{create_processing_transition, processing_transitions}
use repo_mentor.Review.Repository.Evolution.{On, Lasting}
use repo_mentor.Review.Repository.Claims.{Beyond, Beyond-Lasting, finalized-Past}
use repo_mentor.Review.Processing.{
  ReviewStatus, ReviewRecord, BoundaryErrorCode, ReviewProcessingOutcome,
}
use repo_mentor.Review.Processing.World.{
  set_claimed_generation, World, ◌>>=◌, reading, call, find_current_or_throw, wait,
}
use repo_mentor.Review.Processing.Triple.{Good-weaken, Good, Good-imp, Each, Lifted}
use repo_mentor.Review.Processing.Service.{
  RepositoryError, Schemas, complete, fail, cancel, or_reread, when_returned,
}
use repo_mentor.Review.Processing.Service.Kept.{
  Steps, transition_for_user-Steps, finalize_for_user-Steps,
}
use repo_mentor.Review.Processing.Service.Finalize.{finalization-Good, find_current_or_throw-Good}
use repo_mentor.Review.Processing.Service.Flow.{Handled, run_claim-Good}
use repo_mentor.Review.Processing.Service.Barred.{
  Barred, Barred-Lasting, Reached, reading-Past, transition_some-Past, transition_none-Barred,
  finalize_none-Barred, may_transition-cancel, may_transition-fail,
}
use repo_mentor.Review.Processing.Service.Guarded.{Guarded, guarded, wait-G}
use repo_mentor.Review.Processing.Service.Run.{run_claim, Choices}

Lifted-given : {A : Type 0} (T : Type 0) (m : Result BoundaryErrorCode A) → T → Lifted (λ _. T) m
Lifted-given T (ok a) h = h
Lifted-given T (err e) h = tt

Each-given : {A : Type 0} (T : Type 0) (o : Option A) → T → Each (λ _. T) o
Each-given T (some a) h = h
Each-given T none h = tt

fail_ends :
    (now g : ℕ) (retryable : Bool)
    → (create_processing_transition Policy.fail now (some g) (some retryable)).to_status
      ≢ processing
unfolding create_processing_transition processing_transitions
fail_ends now g retryable h = cc

cancel_ends :
    (now g : ℕ)
    → (create_processing_transition Policy.cancel now (some g) none).to_status ≢ processing
unfolding create_processing_transition processing_transitions
cancel_ends now g h = cc

module _ (S : Schemas) (user_id id : String) (m g : ℕ) where
  -- What is known of the claim, and `J` of the review.
  abbrev pub G : (ReviewRecord → Type 0) → World S → Type 0
  G J = Guarded S id m g J

  abbrev pub None : ReviewRecord → Type 0
  None r = Unit

  abbrev pub Ended : World S → Type 0
  Ended w = On (Beyond g) id w.repository

  with_also : (J : ReviewRecord → Type 0) (w : World S) → G None w → On J id w.repository → G J w
  with_also J w i on = record {
    apart = i.apart;
    counted = i.counted;
    reached = i.reached;
    also = on;
    fence_ok = i.fence_ok;
    claims = i.claims;
  }

  without : (J : ReviewRecord → Type 0) (w : World S) → G J w → G None w
  without J w i = record {
    apart = i.apart;
    counted = i.counted;
    reached = i.reached;
    also = λ r found. tt;
    fence_ok = i.fence_ok;
    claims = i.claims;
  }

  known_after_wait :
      (J : ReviewRecord → Type 0) (w : World S)
      → Lasting J
      → G None w
      → On J id w.repository
      → On J id (wait user_id id w).repository
  known_after_wait J w lasting i on =
      (wait-G S user_id id m g J lasting w (with_also J w i on)).also

  -- What the first call of a finalization leaves known.
  abbrev V : World S → Option ReviewRecord → Type 0
  V w none = On (Barred user_id g) id w.repository
  V w (some r) = Ended w

  found_again :
      (w : World S) (t : Repository S.ReviewResult) (o : Option ReviewRecord)
      → G (Barred user_id g) w
      → reading user_id id w.repository ≡ ok (t, o)
      → G (Barred user_id g) (record w { repository = t })
      → Each (λ _. Ended (wait user_id id (record w { repository = t }))) o
  found_again w t none i h next = tt
  found_again w t (some r) i h next =
      known_after_wait (Beyond g) (record w { repository = t }) (Beyond-Lasting g)
        (without (Barred user_id g) (record w { repository = t }) next)
        (reading-Past S w.repository t user_id id g i.reached r i.also h)

  reread-Ended :
      (w : World S) (o : Option ReviewRecord)
      → G None w
      → V w o
      → Good (G None) (λ w' r. Ended w') (find_current_or_throw user_id id w)
  reread-Ended w none i v =
      Good-weaken (G (Barred user_id g)) (G None) (λ w' r. Ended w')
        (find_current_or_throw user_id id w) (without (Barred user_id g))
        (find_current_or_throw-Good user_id id (G (Barred user_id g)) _
          (guarded S user_id id m g (Barred user_id g) (Barred-Lasting user_id g))
          (λ w' r. Ended w') (λ w' t o i' h next. found_again w' t o i' h next) w
          (with_also (Barred user_id g) w i v))
  reread-Ended w (some r) i v =
      Good-weaken (G (Beyond g)) (G None) (λ w' r'. Ended w') (find_current_or_throw user_id id w)
        (without (Beyond g))
        (find_current_or_throw-Good user_id id (G (Beyond g)) _
          (guarded S user_id id m g (Beyond g) (Beyond-Lasting g)) (λ w' r'. Ended w')
          (λ w' t o i' h next. Each-given _ o (
            (wait-G S user_id id m g (Beyond g) (Beyond-Lasting g) (record w' { repository = t })
              next).also))
          w (with_also (Beyond g) w i v))

  returns :
      (w : World S)
      (by : ReviewStatus → ReviewRecord → Option (ReviewProcessingOutcome S.Execution))
      (o : Option ReviewRecord)
      → V w o
      → Each (λ _. Ended w) (when_returned by o)
  unfolding when_returned
  returns w by none v = tt
  returns w by (some r) v = Each-given (Ended w) (by r.status r) v

  finalization-Ended :
      (method : Repository S.ReviewResult
        → Result RepositoryError (Repository S.ReviewResult × Option ReviewRecord))
      (by : ReviewStatus → ReviewRecord → Option (ReviewProcessingOutcome S.Execution))
      (reread : ReviewStatus
        → ReviewRecord
        → Result BoundaryErrorCode (ReviewProcessingOutcome S.Execution))
      → Steps S method
      → ((s t : Repository S.ReviewResult)
          → On (Reached g) id s
          → method s ≡ ok (t, none)
          → On (Barred user_id g) id t)
      → ((s t : Repository S.ReviewResult) (r : ReviewRecord)
          → On (Reached g) id s
          → method s ≡ ok (t, some r)
          → On (Beyond g) id t)
      → (w : World S) → G None w
      → Good
          (G None)
          (λ w' o. Ended w')
          ((call user_id id method >>= λ o. or_reread user_id id reread (when_returned by o)) w)
  unfolding when_returned
  finalization-Ended method by reread steps on_none on_some w i =
      finalization-Good user_id id (G None) _ (guarded S user_id id m g None (λ r r' e u. tt))
        (λ w' o. Ended w') by reread V method steps
        (λ w' t o i' h next.
          elim o
              as (λ x.
                method w'.repository ≡ ok (t, x)
                → V (wait user_id id (record w' { repository = t })) x) [
                  | none ↦ λ h'.
                      known_after_wait (Barred user_id g) (record w' { repository = t })
                        (Barred-Lasting user_id g) next (on_none w'.repository t i'.reached h')
                  | some r ↦ λ h'.
                      known_after_wait (Beyond g) (record w' { repository = t }) (Beyond-Lasting g)
                        next (on_some w'.repository t r i'.reached h')
                ]
            h)
        (λ w' o v. returns w' by o v)
        (λ w' o i' v e.
          Good-imp (G None) (λ w'' r. Ended w'')
            (λ w'' r. Lifted (λ _. Ended w'') (reread r.status r))
            (find_current_or_throw user_id id w') (reread-Ended w' o i' v)
            (λ w'' r h. Lifted-given (Ended w'') (reread r.status r) h))
        w i

  handled : Handled user_id id (G None) (λ w r. Ended w) (λ w o. Ended w) (λ w o. Ended w) g
  unfolding complete fail cancel
  handled = record {
    completes = λ execution w i.
        finalization-Ended _ _ _ (finalize_for_user-Steps S user_id id execution w.now g)
          (λ s t reached h. finalize_none-Barred S s t user_id id g reached execution w.now h)
          (λ s t r reached h. finalized-Past S g id s t user_id execution w.now r h) w i;
    fails = λ failure w i.
        let x = create_processing_transition Policy.fail w.now (some g) (some failure.retryable) in
        finalization-Ended _ _ _ (transition_for_user-Steps S user_id id x)
          (λ s t reached h.
            transition_none-Barred s t user_id id g reached x
              (λ r. may_transition-fail user_id w.now g r (some failure.retryable)) h)
          (λ s t r reached h.
            transition_some-Past S s t user_id id g reached x r
              (fail_ends w.now g failure.retryable) h)
          w i;
    cancels = λ cancellation w i.
        let x = create_processing_transition Policy.cancel w.now (some g) none in
        finalization-Ended _ _ _ (transition_for_user-Steps S user_id id x)
          (λ s t reached h.
            transition_none-Barred s t user_id id g reached x
              (λ r. may_transition-cancel user_id w.now g r) h)
          (λ s t r reached h.
            transition_some-Past S s t user_id id g reached x r (cancel_ends w.now g) h)
          w i;
    fences = λ w r cancellation ended e. ended;
    settles = λ w o going held ended. ended;
  }

  pub run_claim-Ended :
      (choices : Choices S) (r : ReviewRecord) (w : World S)
      → G None (set_claimed_generation user_id id g w)
      → Good (G None) (λ w' o. Ended w') (run_claim user_id id choices g r w)
  run_claim-Ended choices r w i =
      run_claim-Good user_id id (G None) (λ w' r'. Ended w') (λ w' o. Ended w') (λ w' o. Ended w') g
        (guarded S user_id id m g None (λ r' r'' e u. tt)) handled choices r w i
