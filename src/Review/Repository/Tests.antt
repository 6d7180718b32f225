-- ===== src/Review/Repository/Tests.antt =====
-- Runs of the repository, and its theorems at concrete inputs.
use repo_mentor.Review.Repository.Ownership.{Hidden-untouched}
use repo_mentor.Prelude.{
  List, String, [], arith, drop, false, inl, is_some, none, ok, refl, some, string_eq, take, true,
  ℕ, ◌↔◌, ◌∷◌, ◌≡◌, ◌≢◌,
}
use mathlib.Core.Option
use repo_mentor.Dict
use repo_mentor.Review.Types.{
  pending, processing, completed, failed, quick, beginner, ReviewRecord, ReviewStatusTransition,
  ReviewEventRecord,
}
use repo_mentor.Review.Policy.{create_processing_transition, claim, fail}
use repo_mentor.Review.Sample.{plain, ann_input, result_of}
use repo_mentor.Review.Persistence.{to_review_result_record}
use repo_mentor.Review.Repository.{
  Repository, empty, create, insert_review, new_review, initial_event, next_id_sequence,
  generated_id, append_event, is_visible, with_review, find_by_id_for_user, lifecycle_event,
}
use repo_mentor.Review.Repository.Writes.{
  transition_for_user, finalize_for_user, fence_processing_for_user, soft_delete_for_user,
  soft_delete_many_for_user, list_events_for_user, latest_event_for_user, find_result_for_user,
  may_transition, transitioned_review, is_claimed, commit, store_review, store_result,
  complete_review, to_result, soft_delete_each, distinct, deleted_review,
}
use repo_mentor.Review.Repository.Calls.{
  Call, create_call, delete_call, transition_call, finalize_call, fence_call, step, run,
  run-empty-IsValid,
}
use repo_mentor.Review.Repository.Invariant.{IsValid, log_of}
use repo_mentor.Review.Repository.Log.{
  list_events-eq-take-drop, latest_event-shows, find_result_iff,
}
use repo_mentor.Review.Repository.Claims.{finalize_once, claim_supersedes}

-- All that a run computes with.
repository : Unit {0}
unfolding run step create insert_review new_review initial_event next_id_sequence generated_id
    append_event is_visible with_review find_by_id_for_user lifecycle_event transition_for_user
    finalize_for_user fence_processing_for_user soft_delete_for_user soft_delete_many_for_user
    list_events_for_user latest_event_for_user find_result_for_user may_transition
    transitioned_review is_claimed commit store_review store_result complete_review to_result
    soft_delete_each distinct deleted_review to_review_result_record create_processing_transition
    Dict.get Dict.set empty
repository = tt

abbrev ann_review : String
ann_review = "c000000000000000000000001"

abbrev claim_at : ℕ → ReviewStatusTransition
claim_at now = create_processing_transition claim now none none

abbrev started : List (Call plain)
started = create_call ann_input 5 ∷ transition_call "ann" ann_review (claim_at 6) ∷ []

abbrev done : List (Call plain)
done =
    create_call ann_input 5
    ∷ transition_call "ann" ann_review (claim_at 6)
    ∷ finalize_call "ann" ann_review (result_of 7) 8 1
    ∷ []

id_test : generated_id 37 ≡ "c000000000000000000000011"
unfolding repository
id_test = refl

done_status :
    Option.map
      (λ (r : ReviewRecord). r.status)
      (find_by_id_for_user (run plain (empty none) done) "ann" ann_review)
    ≡ some completed
unfolding repository
done_status = refl

other_user : find_by_id_for_user (run plain (empty none) done) "bob" ann_review ≡ none
unfolding repository
other_user = refl

abbrev done_review : ReviewRecord
done_review = record {
  id = ann_review;
  user_id = "ann";
  source = "let x = 1";
  language = "ts";
  mode = quick;
  learner_level = beginner;
  title = none;
  context = none;
  processing_generation = 1;
  status = completed;
  deleted_at = none;
  created_at = 5;
  updated_at = 8;
}

abbrev done_state : Repository ℕ
done_state = run plain (empty none) done

done_found : find_by_id_for_user done_state "ann" ann_review ≡ some done_review
unfolding repository
done_found = refl

run-empty-IsValid_example : IsValid done_state
run-empty-IsValid_example = run-empty-IsValid plain none done

list_events_example :
    list_events_for_user done_state "ann" ann_review 1 5
    ≡ take 5 (drop 1 (log_of done_state ann_review))
list_events_example =
    list_events-eq-take-drop done_state "ann" ann_review done_review 1 5
      (run-empty-IsValid plain none done) done_found

latest_event_example :
    (e : ReviewEventRecord) × (latest_event_for_user done_state "ann" ann_review ≡ some e)
    × (e.status ≡ completed)
    × (e.generation ≡ 1)
    × (e.review_id ≡ ann_review)
latest_event_example =
    latest_event-shows done_state "ann" ann_review done_review (run-empty-IsValid plain none done)
      done_found

find_result_example : (is_some (find_result_for_user done_state "ann" ann_review) ≡ true) ↔ (
    (r : ReviewRecord) × (Dict.get ann_review done_state.reviews ≡ some r)
    × (r.user_id ≡ "ann")
    × (r.deleted_at ≡ none)
    × (r.status ≡ completed))
find_result_example =
    find_result_iff done_state "ann" ann_review (run-empty-IsValid plain none done)

done_stored : Dict.get ann_review done_state.reviews ≡ some done_review
unfolding repository
done_stored = refl

ann_not_bob : done_review.user_id ≢ "bob"
ann_not_bob = λ e. cc ((string_eq.beq_iff "ann" "bob").1 e)

abbrev started_state : Repository ℕ
started_state = run plain (empty none) started

finalized :
    finalize_for_user plain started_state "ann" ann_review (result_of 7) 8 1
    ≡ ok (done_state, some done_review)
unfolding repository
finalized = refl

abbrev afterwards : List (Call plain)
afterwards = delete_call "ann" ann_review 9 ∷ fence_call "ann" ann_review 10 1 ∷ []

finalize_once_example :
    ((old : ReviewRecord) × (Dict.get ann_review started_state.reviews ≡ some old)
      × (old.user_id ≡ "ann")
      × (old.deleted_at ≡ none)
      × (old.status ≡ processing)
      × (old.processing_generation ≡ 1))
    × (finalize_for_user plain (run plain done_state afterwards) "ann" ann_review (result_of 3) 11 1
        ≡ ok (run plain done_state afterwards, none))
    × (fence_processing_for_user (run plain done_state afterwards) "ann" ann_review 11 1
        ≡ ok (run plain done_state afterwards, none))
finalize_once_example =
    finalize_once plain 1 ann_review started_state done_state "ann" (result_of 7) 8 done_review
      afterwards "ann" (result_of 3) 11 1 finalized (tt, (tt, tt)) (omega arith)

abbrev retried : List (Call plain)
retried =
    create_call ann_input 5
    ∷ transition_call "ann" ann_review (claim_at 6)
    ∷ transition_call "ann" ann_review (create_processing_transition fail 7 (some 1) (some true))
    ∷ transition_call "ann" ann_review (record {
      from_statuses = failed ∷ [];
      expected_processing_generation = none;
      retryable = none;
      to_status = pending;
      now = 8;
    })
    ∷ []

abbrev retried_state : Repository ℕ
retried_state = run plain (empty none) retried

abbrev reclaimed_review : ReviewRecord
reclaimed_review = record {
  id = ann_review;
  user_id = "ann";
  source = "let x = 1";
  language = "ts";
  mode = quick;
  learner_level = beginner;
  title = none;
  context = none;
  processing_generation = 2;
  status = processing;
  deleted_at = none;
  created_at = 5;
  updated_at = 9;
}

abbrev reclaimed_state : Repository ℕ
reclaimed_state = step plain retried_state (transition_call "ann" ann_review (claim_at 9))

reclaimed :
    transition_for_user retried_state "ann" ann_review (claim_at 9)
    ≡ ok (reclaimed_state, some reclaimed_review)
unfolding repository
reclaimed = refl

claim_starts : (claim_at 9).to_status ≡ processing
unfolding repository
claim_starts = refl

Hidden-untouched_example :
    let x = claim_at 9 in
    (soft_delete_for_user done_state "bob" ann_review 9 ≡ (done_state, false))
    × (transition_for_user done_state "bob" ann_review x ≡ ok (done_state, none))
    × (finalize_for_user plain done_state "bob" ann_review (result_of 3) 9 1
        ≡ ok (done_state, none))
    × (fence_processing_for_user done_state "bob" ann_review 9 1 ≡ ok (done_state, none))
    × (find_by_id_for_user done_state "bob" ann_review ≡ none)
    × (list_events_for_user done_state "bob" ann_review 0 5 ≡ [])
    × (latest_event_for_user done_state "bob" ann_review ≡ none)
    × (find_result_for_user done_state "bob" ann_review ≡ none)
    × (Dict.get ann_review
          (soft_delete_many_for_user done_state "bob" (ann_review ∷ "other" ∷ []) 9).0.reviews
        ≡ some done_review)
Hidden-untouched_example =
    Hidden-untouched plain done_state "bob" ann_review done_review (claim_at 9) (result_of 3) 9 1 0
      5 (ann_review ∷ "other" ∷ []) done_stored (inl ann_not_bob)

claim_supersedes_example :
    (finalize_for_user plain (run plain reclaimed_state []) "ann" ann_review (result_of 3) 11 1
      ≡ ok (run plain reclaimed_state [], none))
    × (fence_processing_for_user (run plain reclaimed_state []) "ann" ann_review 11 1
        ≡ ok (run plain reclaimed_state [], none))
claim_supersedes_example =
    claim_supersedes plain 1 ann_review retried_state reclaimed_state "ann" (claim_at 9)
      reclaimed_review [] "ann" (result_of 3) 11 claim_starts reclaimed (omega arith) tt
