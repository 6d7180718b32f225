-- ===== src/Review/Processing/Service/Flow.antt =====
-- review-processing.service.ts: what a run of a claim leaves behind, by what its three finalizations do.
use repo_mentor.Review.Processing.{
  mapped_failure, mapped_cancellation, ReviewProcessingErrorMapping, MappingError, map_ai_error,
}
use repo_mentor.Ai.Errors.{AiError}
use repo_mentor.Prelude.{
  Bool, Option, Result, String, eq_of_beq, err, false, if_elim, nat_eq, none, ok, option_eq, refl,
  some, string_eq, ℕ, ◌&&◌, ◌==◌, ◌≡◌,
}
use repo_mentor.Review.Types.{status_eq, cancelled}
use repo_mentor.Review.Processing.World.{
  lock_renewal_abort, set_claimed_generation, Thrown, wait, M, World, ◌>>=◌, return,
}
use repo_mentor.Review.Processing.Triple.{Good, Good-bind_result}
use repo_mentor.Review.Processing.Service.{
  cancelled_outcome, outcome_status, wait_fence, signal, RepositoryError,
  ReviewProcessingCancellation, cancellation_by, ReviewProcessingFailure, ReviewProcessingOutcome,
  ReviewRecord, Schemas, complete, fail, cancel, cancel_after_lease_loss, fence_returned,
  fallback_by, unless_stopped, lock_loss_cancellation,
}
use repo_mentor.Review.Processing.Service.Kept.{Closed, wait_fence-Good}
use repo_mentor.Review.Processing.Service.Run.{
  Choices, run_claim, execution_settled, race_finalization, finalization_settled,
  run_finalization_with_lock, race_provider, finish_mapped, rethrow,
}

-- What the finalizations of the claim with generation `g` leave, what an outcome of the fence is, and what
-- is made of an outcome of `complete` or `fail` where the run was not stopped.
pub record Handled {S : Schemas} (user_id id : String) (I : World S → Type 0)
    (P : World S → ReviewRecord → Type 0)
    (R Q : World S → ReviewProcessingOutcome S.Execution → Type 0) (g : ℕ) : Type 0 where
  pub completes :
      (execution : S.Execution) (w : World S) → I w → Good I R (complete user_id id g execution w)
  pub fails :
      (failure : ReviewProcessingFailure) (w : World S)
      → I w
      → Good I R (fail user_id id g failure w)
  pub cancels :
      (cancellation : ReviewProcessingCancellation) (w : World S)
      → I w
      → Good I Q (cancel user_id id g cancellation w)
  pub fences :
      (w : World S) (r : ReviewRecord) (cancellation : ReviewProcessingCancellation)
      → P w r
      → r.status ≡ cancelled
      → Q w (cancelled_outcome r cancellation)
  pub settles :
      (w : World S) (o : ReviewProcessingOutcome S.Execution)
      → w.aborted ≡ false
      → w.lost ≡ false
      → R w o
      → Q w o

module _ {S : Schemas} (user_id id : String) (I : World S → Type 0)
    (P : World S → ReviewRecord → Type 0)
    (R Q : World S → ReviewProcessingOutcome S.Execution → Type 0) (g : ℕ)
    (closed : Closed user_id id I P) (handled : Handled user_id id I P R Q g) where
  fallback_by-Good :
      (e : Option RepositoryError) (o : ReviewProcessingOutcome S.Execution) (w : World S)
      → I w
      → Q w o
      → Good I Q (fallback_by user_id id e o w)
  unfolding fallback_by
  fallback_by-Good none o w i q = (i, q)
  fallback_by-Good (some e) o w i q =
      if_elim (λ (m : M S (ReviewProcessingOutcome S.Execution)). Good I Q (m w))
        (outcome_status o == cancelled) _ _ (λ _. i) (λ _. (i, q))

  fallback-Good :
      (e : Option RepositoryError) (cancellation : ReviewProcessingCancellation) (w : World S)
      → I w
      → Good I Q ((cancel user_id id g cancellation >>= fallback_by user_id id e) w)
  fallback-Good e cancellation w i =
      Good-bind_result I Q Q (fallback_by user_id id e) (cancel user_id id g cancellation w)
        (handled.cancels cancellation w i) (λ w' o i' q. fallback_by-Good e o w' i' q)

  fence_returned-Good :
      (cancellation : ReviewProcessingCancellation)
      (res : Result RepositoryError (Option ReviewRecord)) (w : World S)
      → I w
      → ((r : ReviewRecord) → res ≡ ok (some r) → P w r)
      → Good I Q (fence_returned user_id id g cancellation res w)
  unfolding fence_returned
  fence_returned-Good cancellation (ok none) w i p = fallback-Good none cancellation w i
  fence_returned-Good cancellation (err e) w i p = fallback-Good (some e) cancellation w i
  fence_returned-Good cancellation (ok (some r)) w i p =
      if_elim (λ (m : M S (ReviewProcessingOutcome S.Execution)). Good I Q (m w))
        (r.status == cancelled) _ _
        (λ same.
          (i, handled.fences w r cancellation (p r refl) (eq_of_beq r.status cancelled same)))
        (λ _. fallback-Good none cancellation w i)

  cancel_after_lease_loss-Good :
      (cancellation : ReviewProcessingCancellation) (w : World S)
      → I w
      → Good I Q (cancel_after_lease_loss user_id id g cancellation w)
  unfolding cancel_after_lease_loss
  cancel_after_lease_loss-Good cancellation w i =
      Good-bind_result I (λ w' res. (r : ReviewRecord) → res ≡ ok (some r) → P w' r) Q
        (fence_returned user_id id g cancellation) (wait_fence user_id id w)
        (wait_fence-Good user_id id I P closed w i)
        (λ w' res i' p. fence_returned-Good cancellation res w' i' p)

  unless_stopped-Good :
      (rest : M S (ReviewProcessingOutcome S.Execution)) (w : World S)
      → I w
      → (w.aborted ≡ false → w.lost ≡ false → Good I Q (rest w))
      → Good I Q (unless_stopped user_id id g rest w)
  unfolding unless_stopped
  unless_stopped-Good rest w i h =
      let Left = λ (m : M S (ReviewProcessingOutcome S.Execution)). Good I Q (m w) in
      if_elim Left w.aborted _ _
        (λ _.
          if_elim Left w.lost _ _ (λ _. cancel_after_lease_loss-Good (cancellation_by signal) w i)
            (λ _. handled.cancels (cancellation_by signal) w i))
        (λ going.
          if_elim Left w.lost _ _
            (λ _. cancel_after_lease_loss-Good (lock_loss_cancellation w.aborted) w i) (h going))

  rethrow-Good : (e : Thrown) (w : World S) → I w → Good I Q (rethrow user_id id g e w)
  unfolding rethrow
  rethrow-Good lock_renewal_abort w i =
      cancel_after_lease_loss-Good (lock_loss_cancellation w.aborted) w i
  rethrow-Good _ w i = i

  finalization_settled-Good :
      (p : World S × Result Thrown (ReviewProcessingOutcome S.Execution))
      → Good I R p
      → Good I Q (finalization_settled user_id id g p)
  unfolding finalization_settled
  finalization_settled-Good (w, ok o) (i, h) =
      unless_stopped-Good (return o) w i (λ going held. (i, handled.settles w o going held h))
  finalization_settled-Good (w, err e) i =
      unless_stopped-Good (rethrow user_id id g e) w i (λ _ _. rethrow-Good e w i)

  race_finalization-Good :
      (choice : Bool) (finalize : M S (ReviewProcessingOutcome S.Execution)) (w : World S)
      → ((w' : World S) → I w' → Good I R (finalize w'))
      → I w
      → Good I R (race_finalization user_id id choice finalize w)
  unfolding race_finalization
  race_finalization-Good choice finalize w h i =
      let deferred = wait user_id id w in
      let i' = closed.on_wait w i in
      if_elim (Good I R) (choice && deferred.lost) _ _ (λ _. i') (λ _. h deferred i')

  run_finalization_with_lock-Good :
      (choice : Bool) (finalize : M S (ReviewProcessingOutcome S.Execution)) (w : World S)
      → ((w' : World S) → I w' → Good I R (finalize w'))
      → I w
      → Good I Q (run_finalization_with_lock user_id id g choice finalize w)
  unfolding run_finalization_with_lock
  run_finalization_with_lock-Good choice finalize w h i =
      if_elim (Good I Q) w.lost _ _
        (λ _. cancel_after_lease_loss-Good (lock_loss_cancellation w.aborted) w i)
        (λ _.
          finalization_settled-Good (race_finalization user_id id choice finalize w)
            (race_finalization-Good choice finalize w h i))

  finish_mapped-Good :
      (choices : Choices S) (m : Result MappingError ReviewProcessingErrorMapping) (w : World S)
      → I w
      → Good I Q (finish_mapped user_id id choices g m w)
  unfolding finish_mapped
  finish_mapped-Good choices (ok (mapped_cancellation c)) w i = handled.cancels c w i
  finish_mapped-Good choices (ok (mapped_failure failure)) w i =
      run_finalization_with_lock-Good choices.final_race (fail user_id id g failure) w
        (handled.fails failure) i
  finish_mapped-Good choices (err e) w i = i

  execution_settled-Good :
      (choices : Choices S) (res : Result AiError S.Execution) (w : World S)
      → I w
      → Good I Q (execution_settled user_id id choices g res w)
  unfolding execution_settled
  execution_settled-Good choices (err error) w i =
      unless_stopped-Good _ w i
        (λ _ _. finish_mapped-Good choices (map_ai_error error w.aborted) w i)
  execution_settled-Good choices (ok execution) w i = unless_stopped-Good _ w i (λ _ _.
      run_finalization_with_lock-Good choices.final_race (complete user_id id g execution) w
        (handled.completes execution) i)

  -- A run of the claim keeps the property, and what it returns is as its finalizations leave it.
  pub run_claim-Good :
      (choices : Choices S) (r : ReviewRecord) (w : World S)
      → I (set_claimed_generation user_id id g w)
      → Good I Q (run_claim user_id id choices g r w)
  unfolding run_claim race_provider
  run_claim-Good choices r w i =
      let set = set_claimed_generation user_id id g w in
      if_elim (Good I Q) set.lost _ _
        (λ _. cancel_after_lease_loss-Good (lock_loss_cancellation set.aborted) set i)
        (λ _. execution_settled-Good choices _ (wait user_id id set) (closed.on_wait set i))
