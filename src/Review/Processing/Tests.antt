-- ===== src/Review/Processing/Tests.antt =====
-- Runs of the processing service, and its theorems at concrete inputs.
use repo_mentor.Review.Repository.Guards.{Visible}
use repo_mentor.Prelude.{
  List, [], false, none, not, ok, refl, some, string_eq, true, ℕ, ◌&&◌, ◌+◌, ◌||◌, ◌∷◌, ◌≡◌, ◌≢◌,
}
use repo_mentor.Dict
use repo_mentor.Review.Types.{
  CreateReviewInput, ReviewRecord, quick, beginner, completed, cancelled,
}
use repo_mentor.Review.Sample.{plain, ann_input, result_of}
use repo_mentor.Review.Policy.{create_processing_transition, processing_transitions}
use repo_mentor.Review.Persistence.{PersistedExecution, to_review_result_record}
use repo_mentor.Review.Repository.{
  Repository, empty, create, insert_review, new_review, initial_event, next_id_sequence,
  generated_id, append_event, is_visible, with_review, find_by_id_for_user, lifecycle_event,
  appended,
}
use repo_mentor.Review.Repository.Writes.{
  transition_for_user, finalize_for_user, fence_processing_for_user, may_transition,
  transitioned_review, is_claimed, commit, store_review, store_result, complete_review, to_result,
}
use repo_mentor.Review.Repository.Calls.{Call, create_call, finalize_call, step, run}
use repo_mentor.Review.Processing.{
  ReviewProcessingFailure, internal, signal, pending, processing, is_abort_error,
  ReviewProcessingErrorMapping, lock_renewal, cancellation_by, ReviewProcessingOutcome,
  ReviewStatus, was_completed, was_processing, retry_required, stale_claim, concurrent_cancellation,
  classify_non_claimed, map_ai_error, map_unaborted, map_provider_failure, completed_outcome,
  cancelled_outcome, outcome_status, outcome_review,
}
use repo_mentor.Review.Processing.World.{
  World, Event, other_call, lose_event, fence_event, no_fence, happen, happen_all, wait, wait_for,
  lose, started_fence, start_if_needed, set_claimed_generation, run_fence, run_fence_of,
  settle_fence, call, returned, found_or_throw, find_current_or_throw, promised, wait_fence,
  wait_fence_of,
}
use repo_mentor.Review.Processing.Service.{
  claim, claim_by, claim_returned, complete, fail, cancel, or_reread, when_returned, completed_by,
  complete_reread, failed_by, fail_reread, cancelled_by, cancel_reread, lock_loss_cancellation,
  fallback_by, fence_returned, cancel_after_lease_loss, unless_stopped,
}
use repo_mentor.Review.Processing.Service.Run.{
  Choices, lock_acquired, lock_released, process, process_with_lock, claim_settled,
  unless_unavailable, acquisition_settled, run_under_lock, released, release_settled,
  start_keepalive, run_claim, race_provider, race_finalization, rethrow, finalization_settled,
  run_finalization_with_lock, finish_mapped, execution_settled,
}
use repo_mentor.Ai.Errors.{AiError, provider_error, rate_limited}
use repo_mentor.Review.Processing.Mapping.{
  map_ai_error-total, is_cancellation, is_retryable, reports_cancelled, allows_retry,
}
use repo_mentor.Review.Processing.Service.Outcome.{process-Shown}
use repo_mentor.Review.Processing.Service.Decided.{process_with_lock-decided}
use repo_mentor.Review.Processing.Service.Release.{process-releases, releases_due}
use repo_mentor.Review.Policy
use repo_mentor.Review.Repository.Calls.{state_after}
use repo_mentor.Review.Processing.Service.Quiet.{process-completes, quiet_world}
use repo_mentor.Review.Processing.Service.Ended.{process_with_lock-Refused}

-- All that a run computes with.
service : Unit {0}
unfolding run step create insert_review new_review initial_event next_id_sequence generated_id
    append_event is_visible with_review find_by_id_for_user lifecycle_event transition_for_user
    finalize_for_user fence_processing_for_user may_transition transitioned_review is_claimed commit
    store_review store_result complete_review to_result to_review_result_record
    create_processing_transition processing_transitions Dict.get Dict.set empty appended
    was_completed was_processing retry_required stale_claim concurrent_cancellation
    classify_non_claimed map_ai_error map_unaborted map_provider_failure happen happen_all wait
    wait_for lose started_fence start_if_needed set_claimed_generation run_fence run_fence_of
    settle_fence call returned found_or_throw find_current_or_throw promised wait_fence
    wait_fence_of claim claim_by claim_returned complete fail cancel or_reread when_returned
    completed_by complete_reread failed_by fail_reread cancelled_by cancel_reread
    lock_loss_cancellation fallback_by fence_returned cancel_after_lease_loss unless_stopped process
    process_with_lock claim_settled unless_unavailable acquisition_settled run_under_lock released
    release_settled start_keepalive run_claim race_provider race_finalization rethrow
    finalization_settled run_finalization_with_lock finish_mapped execution_settled
service = tt

abbrev waiting_at : List (List (Event plain)) → World plain
waiting_at future = record {
  repository = run plain (empty none) (create_call (record ann_input { id = some "r" }) 5 ∷ []);
  aborted = false;
  lost = false;
  stopped = false;
  claimed_generation = none;
  fence = no_fence;
  now = 6;
  releases = 0;
  future = future;
}

abbrev answers : Choices plain
answers = record { provider = λ r. ok (result_of 7); provider_race = true; final_race = true }

abbrev review_with : ReviewStatus → ReviewRecord
review_with status = record {
  id = "r";
  user_id = "ann";
  source = "let x = 1";
  language = "ts";
  mode = quick;
  learner_level = beginner;
  title = none;
  context = none;
  processing_generation = 1;
  status = status;
  deleted_at = none;
  created_at = 5;
  updated_at = 6;
}

abbrev done : ReviewProcessingOutcome (PersistedExecution ℕ)
done = completed_outcome (review_with completed) (result_of 7)

abbrev quiet_end : World plain
quiet_end = (process "ann" "r" answers (lock_acquired "t") lock_released (waiting_at [])).0

quiet_run :
    process "ann" "r" answers (lock_acquired "t") lock_released (waiting_at [])
    ≡ (quiet_end, ok done)
unfolding service
quiet_run = refl

process-Shown_example :
    ((outcome_review done).status ≡ outcome_status done) × Visible "ann" (outcome_review done)
process-Shown_example =
    process-Shown plain "ann" "r" answers (lock_acquired "t") lock_released (waiting_at [])
      quiet_end done refl quiet_run

process-releases_example :
    quiet_end.releases
    ≡ (waiting_at []).releases
      + releases_due (find_current_or_throw "ann" "r" (waiting_at [])).1 (lock_acquired "t")
process-releases_example =
    process-releases plain "ann" "r" answers (lock_acquired "t") lock_released (waiting_at [])

abbrev locked_end : World plain
locked_end = (process_with_lock "ann" "r" answers (waiting_at [])).0

locked_run : process_with_lock "ann" "r" answers (waiting_at []) ≡ (locked_end, ok done)
unfolding service
locked_run = refl

process_with_lock-decided_example : (locked_end.aborted ≡ false) × (locked_end.lost ≡ false)
process_with_lock-decided_example =
    process_with_lock-decided plain "ann" "r" answers (waiting_at []) locked_end done locked_run
      refl

abbrev other_input : CreateReviewInput
other_input = record ann_input { id = some "other" }

-- Another review is created, the lock is lost while the provider works, and the lease fence cancels the review.
abbrev losing : World plain
losing =
    waiting_at
      ([] ∷ (other_call (create_call other_input 6) ∷ []) ∷ (lose_event ∷ fence_event ∷ []) ∷ [])

other_apart : (s : Repository ℕ) → (create s other_input 6).1.id ≢ "r"
unfolding create new_review
other_apart s e = cc ((string_eq.beq_iff "other" "r").1 e)

abbrev lost_end : World plain
lost_end = (process_with_lock "ann" "r" answers losing).0

abbrev lost_outcome : ReviewProcessingOutcome (PersistedExecution ℕ)
lost_outcome = cancelled_outcome (review_with cancelled) (cancellation_by lock_renewal)

lost_run : process_with_lock "ann" "r" answers losing ≡ (lost_end, ok lost_outcome)
unfolding service
lost_run = refl

lost_claim : lost_end.claimed_generation ≡ some 1
unfolding service
lost_claim = refl

abbrev late : List (Call plain)
late = finalize_call "ann" "r" (result_of 7) 9 1 ∷ []

abbrev internal_failure : ReviewProcessingFailure
internal_failure = record {
  code = internal;
  retryable = true;
  provider_code = none;
  attempts = none;
}

process_with_lock-Refused_example :
    let s = run plain lost_end.repository late in
    let w = quiet_world {S = plain} s 10 in
    ((complete "ann" "r" 1 (result_of 7) w).0.repository ≡ s)
    × ((fail "ann" "r" 1 internal_failure w).0.repository ≡ s)
    × ((cancel "ann" "r" 1 (cancellation_by signal) w).0.repository ≡ s)
    × (finalize_for_user plain s "ann" "r" (result_of 7) 10 1 ≡ ok (s, none))
    × (fence_processing_for_user s "ann" "r" 10 1 ≡ ok (s, none))
process_with_lock-Refused_example =
    process_with_lock-Refused plain "ann" "r" answers losing lost_end lost_outcome 1 late "ann"
      (result_of 7) internal_failure (cancellation_by signal) 10
      (tt, (((λ s counted. other_apart s), tt), ((tt, (tt, tt)), tt))) refl refl lost_run lost_claim
      (tt, tt)

abbrev rate_limit : AiError
rate_limit = provider_error (record {
  code = rate_limited;
  normalized_from_unknown = false;
  retryable = true;
  status_code = some 429;
  attempts = some 2;
})

map_ai_error-total_example :
    (m : ReviewProcessingErrorMapping) × (map_ai_error rate_limit false ≡ ok m)
    × (is_cancellation m ≡ (false || is_abort_error rate_limit || reports_cancelled rate_limit))
    × (is_retryable m ≡ (not (is_cancellation m) && allows_retry rate_limit))
map_ai_error-total_example = map_ai_error-total rate_limit false

abbrev created_state : Repository ℕ
created_state = (waiting_at []).repository

abbrev claimed_state : Repository ℕ
claimed_state = state_after created_state (
    transition_for_user created_state "ann" "r"
      (create_processing_transition Policy.claim 6 none none))

abbrev final_state : Repository ℕ
final_state =
    state_after claimed_state (finalize_for_user plain claimed_state "ann" "r" (result_of 7) 6 1)

stored_at_start :
    find_by_id_for_user created_state "ann" "r"
    ≡ some (record (review_with pending) { processing_generation = 0; updated_at = 5 })
unfolding service
stored_at_start = refl

claim_returns :
    transition_for_user created_state "ann" "r"
      (create_processing_transition Policy.claim 6 none none)
    ≡ ok (claimed_state, some (review_with processing))
unfolding service
claim_returns = refl

finalization_returns :
    finalize_for_user plain claimed_state "ann" "r" (result_of 7) 6 1
    ≡ ok (final_state, some (review_with completed))
unfolding service
finalization_returns = refl

process-completes_example :
    let p =
      process "ann" "r" answers
        (lock_acquired "t")
        lock_released
        (quiet_world {S = plain} created_state 6) in
    (p.1 ≡ ok done) × (p.0.repository ≡ final_state)
process-completes_example =
    process-completes plain "ann" "r" answers "t" 6 created_state claimed_state final_state
      (record (review_with pending) { processing_generation = 0; updated_at = 5 })
      (review_with processing) (review_with completed) (result_of 7) stored_at_start claim_returns
      refl refl finalization_returns refl
