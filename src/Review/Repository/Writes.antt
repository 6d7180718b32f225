-- ===== src/Review/Repository/Writes.antt =====
-- in-memory-review.repository.ts: the methods that change a stored review, and those that read its
-- events and its result.
use repo_mentor.Prelude.{
  Bool, List, Option, Result, String, [], err, false, filter, get_or, if◌then◌else◌, includes,
  last?, leb, ltb, nat_eq, none, not, ok, option_eq, some, string_eq, take, true, ℕ, ◌&&◌, ◌+◌,
  ◌==◌, ◌>>=◌, ◌||◌, ◌∷◌,
}
use repo_mentor.Dict
use repo_mentor.Review.Types.{
  processing, completed, cancelled, status_eq, ReviewRecord, ReviewEventRecord,
  ReviewStatusTransition, max_processing_generation,
}
use repo_mentor.Review.Persistence.{Schemas, ReviewResultRecord, to_review_result_record}
use repo_mentor.Review.Repository.{
  with_review, Repository, RepositoryError, persistence_failed, append_event, is_visible,
}

-- The guard of `transitionForUser` on the stored review.
unfoldable pub may_transition : String → ReviewStatusTransition → ReviewRecord → Bool
unfolding is_visible
may_transition user_id transition review =
    is_visible user_id review
    && not (transition.to_status == completed)
    && (transition.expected_processing_generation == none
        || transition.expected_processing_generation == some review.processing_generation)
    && not (
        transition.to_status == processing
        && leb max_processing_generation review.processing_generation)
    && includes transition.from_statuses review.status

unfoldable pub transitioned_review : ReviewStatusTransition → ReviewRecord → ReviewRecord
transitioned_review transition review = record review {
  processing_generation =
      if transition.to_status == processing
      then review.processing_generation + 1
      else review.processing_generation;
  status = transition.to_status;
  updated_at = transition.now;
}

-- The guard of `finalizeForUser` and `fenceProcessingForUser`.
unfoldable pub is_claimed : String → ℕ → ReviewRecord → Bool
unfolding is_visible
is_claimed user_id generation review =
    is_visible user_id review
    && review.status == processing
    && review.processing_generation == generation

unfoldable pub deleted_review : ℕ → ReviewRecord → ReviewRecord
deleted_review now review = record review { deleted_at = some now; updated_at = now }

-- `new Set(ids)`, in the order of the first occurrences.
unfoldable pub distinct : List String → List String → List String
distinct seen [] = []
distinct seen (id ∷ ids) =
    let rest = distinct (id ∷ seen) ids in
    let known = distinct seen ids in if includes seen id then known else id ∷ rest

module _ {R : Type 0} where
  unfoldable pub store_review : Repository R → String → ReviewRecord → Repository R
  store_review s id review = record s { reviews = Dict.set id review s.reviews }

  unfoldable pub soft_delete_for_user : Repository R → String → String → ℕ → Repository R × Bool
  soft_delete_for_user s user_id id now =
      with_review (Dict.get id s.reviews) (is_visible user_id) (s, false)
        (λ review. (store_review s id (deleted_review now review), true))

  unfoldable pub soft_delete_each : Repository R → String → List String → ℕ → ℕ → Repository R × ℕ
  soft_delete_each s user_id [] now count = (s, count)
  soft_delete_each s user_id (id ∷ ids) now count =
      let (s', deleted) = soft_delete_for_user s user_id id now in
      soft_delete_each s' user_id ids now (if deleted then count + 1 else count)

  unfoldable pub soft_delete_many_for_user :
      Repository R → String → List String → ℕ → Repository R × ℕ
  soft_delete_many_for_user s user_id ids now = soft_delete_each s user_id (distinct [] ids) now 0

  -- `appendEvent`, then `reviews.set`: how a transition and a fence end.
  unfoldable pub commit :
      Repository R
      → String
      → ReviewRecord
      → Option Bool
      → Result RepositoryError (Repository R × Option ReviewRecord)
  commit s id review retryable = do
    s' ← append_event s review retryable
    ok (store_review s' id review, some review)

  unfoldable pub transition_for_user :
      Repository R
      → String
      → String
      → ReviewStatusTransition
      → Result RepositoryError (Repository R × Option ReviewRecord)
  transition_for_user s user_id id transition =
      with_review (Dict.get id s.reviews) (may_transition user_id transition) (ok (s, none))
        (λ review. commit s id (transitioned_review transition review) transition.retryable)

  unfoldable pub fence_processing_for_user :
      Repository R
      → String
      → String
      → ℕ
      → ℕ
      → Result RepositoryError (Repository R × Option ReviewRecord)
  fence_processing_for_user s user_id id now generation =
      with_review (Dict.get id s.reviews) (is_claimed user_id generation) (ok (s, none))
        (λ review. commit s id (record review { status = cancelled; updated_at = now }) none)

  unfoldable pub list_events_for_user :
      Repository R → String → String → ℕ → ℕ → List ReviewEventRecord
  list_events_for_user s user_id id after limit =
      with_review (Dict.get id s.reviews) (is_visible user_id) [] (λ review. take limit (
        filter (λ (event : ReviewEventRecord). ltb after event.sequence)
          (get_or (Dict.get id s.events) [])))

  unfoldable pub latest_event_for_user : Repository R → String → String → Option ReviewEventRecord
  latest_event_for_user s user_id id =
      with_review (Dict.get id s.reviews) (is_visible user_id) none
        (λ review. last? (get_or (Dict.get id s.events) []))

  unfoldable pub find_result_for_user :
      Repository R → String → String → Option (ReviewResultRecord R)
  find_result_for_user s user_id id =
      with_review (Dict.get id s.reviews)
        (λ review. is_visible user_id review && review.status == completed) none
        (λ review. Dict.get id s.results)

-- `toReviewResultRecord` with its error named as the repository's.
unfoldable pub to_result :
    (S : Schemas)
    → Repository S.ReviewResult
    → String
    → S.Execution
    → ℕ
    → Result RepositoryError (ReviewResultRecord S.ReviewResult)
to_result S s id execution now =
    elim (to_review_result_record S id execution now s.pricing_config) [
      | ok result ↦ ok result
      | err e ↦ err (persistence_failed e)
    ]

unfoldable pub store_result :
    {R : Type 0} → Repository R → String → ReviewResultRecord R → Repository R
store_result s id result = record s { results = Dict.set id result s.results }

-- How a finalization ends.
unfoldable pub complete_review :
    (S : Schemas)
    → Repository S.ReviewResult
    → String
    → ReviewRecord
    → S.Execution
    → ℕ
    → Result RepositoryError (Repository S.ReviewResult × Option ReviewRecord)
complete_review S s id review execution now = do
  result ← to_result S s id execution now
  s' ← append_event s review none
  ok (store_review (store_result s' id result) id review, some review)

unfoldable pub finalize_for_user :
    (S : Schemas)
    → Repository S.ReviewResult
    → String
    → String
    → S.Execution
    → ℕ
    → ℕ
    → Result RepositoryError (Repository S.ReviewResult × Option ReviewRecord)
finalize_for_user S s user_id id execution now generation =
    with_review (Dict.get id s.reviews) (is_claimed user_id generation) (ok (s, none)) (λ review.
      complete_review S s id (record review { status = completed; updated_at = now }) execution now)
