-- ===== src/Review/Policy/Tests.antt =====
-- The theorem on the transition tables at one move.
use repo_mentor.Prelude.{All, none, some, true, ◌≡◌}
use repo_mentor.Review.Types.{status_eq}
use repo_mentor.Review.Policy.{claim, can_transition, create_processing_transition}
use repo_mentor.Review.Policy.Laws.{create_processing_transition-allowed}

create_processing_transition_example :
    let t = create_processing_transition claim 7 (some 1) none in
    All (λ from. can_transition from t.to_status ≡ true) t.from_statuses
    × (t.now ≡ 7)
    × (t.expected_processing_generation ≡ some 1)
    × (t.retryable ≡ none)
create_processing_transition_example = create_processing_transition-allowed claim 7 (some 1) none
