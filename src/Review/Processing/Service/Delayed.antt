-- ===== src/Review/Processing/Service/Delayed.antt =====
-- review-processing.service.ts: the methods of a claim that is past, where nothing happens meanwhile.
use repo_mentor.Prelude.{Option, Result, String, arith, err, inl, inr, none, ok, refl, some, ℕ, ◌≡◌}
use repo_mentor.Review.Types.{ReviewStatus, ReviewRecord, ReviewStatusTransition}
use repo_mentor.Review.Persistence.{Schemas}
use repo_mentor.Review.Policy
use repo_mentor.Review.Policy.{create_processing_transition}
use repo_mentor.Review.Repository.{Repository, RepositoryError, find_by_id_for_user}
use repo_mentor.Review.Repository.Writes.{may_transition, is_claimed, transition_for_user}
use repo_mentor.Review.Repository.Branches.{transition-cases}
use repo_mentor.Review.Repository.Guards.{is_claimed_stale}
use repo_mentor.Review.Repository.Fencing.{Past, finalize_past}
use repo_mentor.Review.Processing.{
  BoundaryErrorCode, ReviewProcessingOutcome, ReviewProcessingFailure, ReviewProcessingCancellation,
}
use repo_mentor.Review.Processing.World.{
  ◌>>=◌, wait, wait_for, call, returned, found_or_throw, find_current_or_throw, lift,
}
use repo_mentor.Review.Processing.Service.{complete, fail, cancel, or_reread, when_returned}
use repo_mentor.Review.Processing.Service.Barred.{may_transition-cancel, may_transition-fail}
use repo_mentor.Review.Processing.Service.Quiet.{quiet_world}

-- What a claim that is past cannot move.
transition-Past :
    {R : Type 0} (s : Repository R) (user_id id : String) (g : ℕ) (x : ReviewStatusTransition)
    → Past g s id
    → ((r : ReviewRecord) → may_transition user_id x r ≡ is_claimed user_id g r)
    → transition_for_user s user_id id x ≡ ok (s, none)
transition-Past s user_id id g x past same_test = elim (transition-cases s user_id id x) [
  | inl same ↦ same
  | inr (r, found, allowed, _) ↦
      let refused =
        is_claimed_stale user_id g r
          λ working same. absurd (omega (arith, (past r found).1 working)) in
      cc (same_test r)
]

module _ (S : Schemas) (user_id id : String) (s : Repository S.ReviewResult) (now : ℕ) where
  -- A reader of the repository leaves it as it is, whatever it makes of what it finds.
  lift_repository :
      {A : Type 0} (m : Result BoundaryErrorCode A)
      → (lift m (quiet_world {S = S} s now)).0.repository ≡ s
  lift_repository (ok a) = refl
  lift_repository (err e) = refl

  found_repository :
      {A : Type 0} (f : ReviewRecord → Result BoundaryErrorCode A) (o : Option ReviewRecord)
      → ((found_or_throw user_id id o >>= λ r. lift (f r)) (quiet_world {S = S} s now)).0.repository
        ≡ s
  unfolding found_or_throw
  found_repository f none = refl
  found_repository f (some r) = lift_repository (f r)

  -- A finalization whose call returns no review and changes nothing.
  refused_repository :
      (method : Repository S.ReviewResult
        → Result RepositoryError (Repository S.ReviewResult × Option ReviewRecord))
      (by : ReviewStatus → ReviewRecord → Option (ReviewProcessingOutcome S.Execution))
      (reread : ReviewStatus
        → ReviewRecord
        → Result BoundaryErrorCode (ReviewProcessingOutcome S.Execution))
      → method s ≡ ok (s, none)
      → ((call user_id id method >>= λ o. or_reread user_id id reread (when_returned by o))
          (quiet_world {S = S} s now)).0.repository
        ≡ s
  unfolding call returned wait wait_for or_reread when_returned find_current_or_throw
  refused_repository method by reread h =
      rw h (found_repository (λ r. reread r.status r) (find_by_id_for_user s user_id id))

  module _ (g : ℕ) (past : Past g s id) where
    pub complete-Past :
        (execution : S.Execution)
        → (complete user_id id g execution (quiet_world {S = S} s now)).0.repository ≡ s
    unfolding complete
    complete-Past execution =
        refused_repository _ _ _ (finalize_past S s g id past user_id execution now)

    pub fail-Past :
        (failure : ReviewProcessingFailure)
        → (fail user_id id g failure (quiet_world {S = S} s now)).0.repository ≡ s
    unfolding fail
    fail-Past failure = refused_repository _ _ _ (
        transition-Past s user_id id g
          (create_processing_transition Policy.fail now (some g) (some failure.retryable)) past
          (λ r. may_transition-fail user_id now g r (some failure.retryable)))

    pub cancel-Past :
        (cancellation : ReviewProcessingCancellation)
        → (cancel user_id id g cancellation (quiet_world {S = S} s now)).0.repository ≡ s
    unfolding cancel
    cancel-Past cancellation = refused_repository _ _ _ (
        transition-Past s user_id id g
          (create_processing_transition Policy.cancel now (some g) none) past
          (λ r. may_transition-cancel user_id now g r))
