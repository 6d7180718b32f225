-- ===== src/Review/Policy/Laws.antt =====
-- The two transition tables agree.
use repo_mentor.Prelude.{All, Bool, Option, arith, true, ℕ, ◌≡◌}
use repo_mentor.Review.Types.{status_eq}
use repo_mentor.Review.Policy.{
  ProcessingTransitionName, claim, can_transition, create_processing_transition,
}

-- Every status that a processing step starts from may move to that step's target by the policy, and the step
-- carries the given time, expected generation and retry flag unchanged.
pub create_processing_transition-allowed :
    (name : ProcessingTransitionName) (now : ℕ) (generation : Option ℕ) (retryable : Option Bool)
    → let t = create_processing_transition name now generation retryable in
      All (λ from. can_transition from t.to_status ≡ true) t.from_statuses
      × (t.now ≡ now)
      × (t.expected_processing_generation ≡ generation)
      × (t.retryable ≡ retryable)
unfolding create_processing_transition can_transition
create_processing_transition-allowed claim now g r = ground arith
create_processing_transition-allowed _ now g r = ground arith
