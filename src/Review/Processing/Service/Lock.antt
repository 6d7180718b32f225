-- ===== src/Review/Processing/Service/Lock.antt =====
-- review-processing.service.ts: what a processing under the lock leaves, by what the claim leaves.
use repo_mentor.Prelude.{String, if_elim, not, ℕ, ◌&&◌}
use repo_mentor.Review.Processing.{
  ReviewStatus, ReviewRecord, claimed, not_claimed, already_completed, already_processing,
  was_completed, was_processing, retry_required, ReviewProcessingOutcome, ReviewProcessingClaim,
}
use repo_mentor.Review.Processing.World.{M, World, ◌>>=◌, return}
use repo_mentor.Review.Processing.Triple.{Good-then, Good}
use repo_mentor.Review.Processing.Service.{Schemas, claim}
use repo_mentor.Review.Processing.Service.Run.{
  process_with_lock, claim_settled, unless_unavailable, run_claim, Choices,
}

-- What a claim leaves, how a run of it goes on, and what the outcomes of a claim that was not made are.
pub record Claiming {S : Schemas} (user_id id : String) (I J : World S → Type 0)
    (C : World S → ReviewProcessingClaim → Type 0)
    (Q : World S → ReviewProcessingOutcome S.Execution → Type 0) : Type 0 where
  pub claims : (w : World S) → I w → Good I C (claim user_id id w)
  pub runs :
      (choices : Choices S) (g : ℕ) (r : ReviewRecord) (w : World S)
      → I w
      → C w (claimed g r)
      → Good J Q (run_claim user_id id choices g r w)
  pub weakens : (w : World S) → I w → J w
  pub skips_completed :
      (w : World S) (r : ReviewRecord) → C w (already_completed r) → Q w (was_completed r)
  pub skips_processing :
      (w : World S) (r : ReviewRecord) → C w (already_processing r) → Q w (was_processing r)
  pub skips_unclaimed :
      (w : World S) (r : ReviewRecord) (status : ReviewStatus)
      → C w (not_claimed r status)
      → Q w (retry_required r status)

module _ {S : Schemas} (user_id id : String) (I J : World S → Type 0)
    (C : World S → ReviewProcessingClaim → Type 0)
    (Q : World S → ReviewProcessingOutcome S.Execution → Type 0)
    (claiming : Claiming user_id id I J C Q) where
  unless_unavailable-Good :
      (rest : M S (ReviewProcessingOutcome S.Execution)) (w : World S)
      → J w
      → Good J Q (rest w)
      → Good J Q (unless_unavailable user_id id rest w)
  unfolding unless_unavailable
  unless_unavailable-Good rest w i h =
      if_elim (λ (m : M S (ReviewProcessingOutcome S.Execution)). Good J Q (m w))
        (w.lost && not w.aborted) _ _ (λ _. i) (λ _. h)

  claim_settled-Good :
      (choices : Choices S) (c : ReviewProcessingClaim) (w : World S)
      → I w
      → C w c
      → Good J Q (claim_settled user_id id choices c w)
  unfolding claim_settled
  claim_settled-Good choices (claimed g r) w i h = claiming.runs choices g r w i h
  claim_settled-Good choices (already_completed r) w i h =
      unless_unavailable-Good (return (was_completed r)) w (claiming.weakens w i)
        (claiming.weakens w i, claiming.skips_completed w r h)
  claim_settled-Good choices (already_processing r) w i h =
      unless_unavailable-Good (return (was_processing r)) w (claiming.weakens w i)
        (claiming.weakens w i, claiming.skips_processing w r h)
  claim_settled-Good choices (not_claimed r status) w i h =
      unless_unavailable-Good (return (retry_required r status)) w (claiming.weakens w i)
        (claiming.weakens w i, claiming.skips_unclaimed w r status h)

  pub process_with_lock-Good :
      (choices : Choices S) (w : World S) → I w → Good J Q (process_with_lock user_id id choices w)
  unfolding process_with_lock
  process_with_lock-Good choices w i =
      unless_unavailable-Good (claim user_id id >>= claim_settled user_id id choices) w
        (claiming.weakens w i)
        (Good-then I J C Q (claim_settled user_id id choices) (claim user_id id w) claiming.weakens
          (claiming.claims w i) (λ w' c i' h. claim_settled-Good choices c w' i' h))
