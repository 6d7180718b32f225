-- ===== src/Review/Processing/Service/Quiet.antt =====
-- review-processing.service.ts: a processing during which nothing else happens.
use repo_mentor.Review.Repository.{find_by_id_for_user, Repository}
use repo_mentor.Prelude.{Bool, String, [], arith, false, none, ok, refl, some, ℕ, ◌&&◌, ◌≡◌}
use repo_mentor.Review.Types.{pending, failed, cancelled, processing, completed, ReviewRecord}
use repo_mentor.Review.Policy
use repo_mentor.Review.Policy.{create_processing_transition}
use repo_mentor.Review.Processing.{ReviewStatus, claimed, completed_outcome}
use repo_mentor.Review.Processing.World.{
  World, no_fence, wait, wait_for, call, returned, found_or_throw, find_current_or_throw,
  set_claimed_generation, start_if_needed, started_fence,
}
use repo_mentor.Review.Processing.Service.{
  finalize_for_user, transition_for_user, Schemas, claim, claim_by, claim_returned, complete,
  or_reread, when_returned, completed_by, unless_stopped,
}
use repo_mentor.Review.Processing.Service.Run.{
  Choices, lock_acquired, lock_released, process, process_with_lock, claim_settled,
  unless_unavailable, acquisition_settled, run_under_lock, released, release_settled,
  start_keepalive, run_claim, race_provider, race_finalization, finalization_settled,
  run_finalization_with_lock, execution_settled,
}

-- The caller does not abort, and nobody else acts.
abbrev pub quiet_world : {S : Schemas} → Repository S.ReviewResult → ℕ → World S
quiet_world s now = record {
  repository = s;
  aborted = false;
  lost = false;
  stopped = false;
  claimed_generation = none;
  fence = no_fence;
  now = now;
  releases = 0;
  future = [];
}

and_false : (b : Bool) → (b && false) ≡ false
and_false b = ground arith

claim_by-processing :
    (status : ReviewStatus) (r : ReviewRecord)
    → status ≡ processing
    → claim_by status r ≡ ok (claimed r.processing_generation r)
unfolding claim_by
claim_by-processing processing r e = refl
claim_by-processing pending r e = cc
claim_by-processing completed r e = cc
claim_by-processing failed r e = cc
claim_by-processing cancelled r e = cc

completed_by-completed :
    {E : Type 0} (execution : E) (status : ReviewStatus) (r : ReviewRecord)
    → status ≡ completed
    → completed_by execution status r ≡ some (completed_outcome r execution)
unfolding completed_by
completed_by-completed execution completed r e = refl
completed_by-completed execution pending r e = cc
completed_by-completed execution processing r e = cc
completed_by-completed execution failed r e = cc
completed_by-completed execution cancelled r e = cc

module _ (S : Schemas) (user_id id : String) where
  -- Where the review is found, the claim's transition returns a review in processing, the AI review service gives
  -- an execution, and the finalization with that claim's generation returns a completed review, a
  -- processing that acquires the lock, and during which nothing else happens, returns the completed
  -- outcome with that review and execution, and leaves the repository as the finalization does.
  pub process-completes :
      (choices : Choices S) (token : String) (now : ℕ) (s t u : Repository S.ReviewResult)
      (old r r' : ReviewRecord) (execution : S.Execution)
      → find_by_id_for_user s user_id id ≡ some old
      → transition_for_user s user_id id (create_processing_transition Policy.claim now none none)
        ≡ ok (t, some r)
      → r.status ≡ processing
      → choices.provider r ≡ ok execution
      → finalize_for_user S t user_id id execution now r.processing_generation ≡ ok (u, some r')
      → r'.status ≡ completed
      → let p =
          process user_id id choices
            (lock_acquired token)
            lock_released
            (quiet_world {S = S} s now) in
        (p.1 ≡ ok (completed_outcome r' execution)) × (p.0.repository ≡ u)
  unfolding wait wait_for call returned found_or_throw find_current_or_throw set_claimed_generation
      start_if_needed started_fence claim claim_returned complete or_reread when_returned
      unless_stopped process process_with_lock claim_settled unless_unavailable acquisition_settled
      run_under_lock released release_settled start_keepalive run_claim race_provider
      race_finalization finalization_settled run_finalization_with_lock execution_settled
  process-completes choices token now s t u old r r' execution found starts working answers ends
        done =
      rw
        (
          found,
          starts,
          claim_by-processing r.status r working,
          and_false choices.provider_race,
          answers,
          and_false choices.final_race,
          ends,
          completed_by-completed execution r'.status r' done,
        )
        (refl, refl)
