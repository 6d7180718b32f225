-- ===== src/Review/Repository/Branches.antt =====
-- The two ways in which each guarded method of the repository returns.
use repo_mentor.Prelude.{
  >>=-eq-ok, Bool, Option, String, ap, arith, false, none, ok, refl, some, sym, true, ℕ, ◌∙◌, ◌≡◌,
  ◌≤◌, ◌⊎◌,
}
use repo_mentor.Dict
use repo_mentor.Review.Types.{
  cancelled, completed, ReviewRecord, ReviewStatusTransition, max_event_sequence,
}
use repo_mentor.Review.Persistence.{Schemas, ReviewResultRecord}
use repo_mentor.Review.Repository.{
  Repository, is_visible, with_review-cases, append_event, appended, next_sequence,
}
use repo_mentor.Review.Repository.Writes.{
  may_transition, transitioned_review, is_claimed, deleted_review, soft_delete_for_user,
  transition_for_user, fence_processing_for_user, finalize_for_user, complete_review, commit,
  to_result, store_result, store_review,
}

module _ {R : Type 0} (s : Repository R) where
  pub append_event-ok :
      (r : ReviewRecord) (retryable : Option Bool) {t : Repository R}
      → append_event s r retryable ≡ ok t
      → (t ≡ appended s r retryable) × (next_sequence s r.id ≤ max_event_sequence)
  unfolding append_event
  append_event-ok r retryable h = ground arith

  pub commit-ok :
      (id : String) (r : ReviewRecord) (retryable : Option Bool) (t : Repository R)
      (o : Option ReviewRecord)
      → commit s id r retryable ≡ ok (t, o)
      → (t ≡ store_review (appended s r retryable) id r)
        × (o ≡ some r)
        × (next_sequence s r.id ≤ max_event_sequence)
  unfolding commit
  commit-ok id r retryable t o h =
      let (s', appended_ok, stored) = >>=-eq-ok (append_event s r retryable) _ h in
      let (shape, room) = append_event-ok r retryable appended_ok in
      let e : store_review s' id r ≡ t = cc in (rw (← e, shape) refl, cc, room)

module _ {R : Type 0} (s : Repository R) (user_id id : String) where
  pub soft_delete-cases :
      (now : ℕ)
      → (soft_delete_for_user s user_id id now ≡ (s, false))
        ⊎ ((r : ReviewRecord) × (Dict.get id s.reviews ≡ some r)
            × (is_visible user_id r ≡ true)
            × (soft_delete_for_user s user_id id now
                ≡ (store_review s id (deleted_review now r), true)))
  unfolding soft_delete_for_user
  soft_delete-cases now =
      with_review-cases {B = Repository R × Bool} (Dict.get id s.reviews) (is_visible user_id)
        (s, false) (λ r. (store_review s id (deleted_review now r), true))

  pub transition-cases :
      (t : ReviewStatusTransition)
      → (transition_for_user s user_id id t ≡ ok (s, none))
        ⊎ ((r : ReviewRecord) × (Dict.get id s.reviews ≡ some r)
            × (may_transition user_id t r ≡ true)
            × (transition_for_user s user_id id t
                ≡ commit s id (transitioned_review t r) t.retryable))
  unfolding transition_for_user
  transition-cases t =
      with_review-cases (Dict.get id s.reviews) (may_transition user_id t) (ok (s, none))
        (λ r. commit s id (transitioned_review t r) t.retryable)

  pub fence-cases :
      (now g : ℕ)
      → (fence_processing_for_user s user_id id now g ≡ ok (s, none))
        ⊎ ((r : ReviewRecord) × (Dict.get id s.reviews ≡ some r)
            × (is_claimed user_id g r ≡ true)
            × (fence_processing_for_user s user_id id now g
                ≡ commit s id (record r { status = cancelled; updated_at = now }) none))
  unfolding fence_processing_for_user
  fence-cases now g =
      with_review-cases (Dict.get id s.reviews) (is_claimed user_id g) (ok (s, none))
        (λ r. commit s id (record r { status = cancelled; updated_at = now }) none)

module _ (S : Schemas) (s : Repository S.ReviewResult) where
  pub finalize-cases :
      (user_id id : String) (execution : S.Execution) (now g : ℕ)
      → (finalize_for_user S s user_id id execution now g ≡ ok (s, none))
        ⊎ ((r : ReviewRecord) × (Dict.get id s.reviews ≡ some r)
            × (is_claimed user_id g r ≡ true)
            × (finalize_for_user S s user_id id execution now g
                ≡ complete_review S s id
                    (record r { status = completed; updated_at = now })
                    execution
                    now))
  unfolding finalize_for_user
  finalize-cases user_id id execution now g =
      with_review-cases (Dict.get id s.reviews) (is_claimed user_id g) (ok (s, none)) (λ r.
        complete_review S s id (record r { status = completed; updated_at = now }) execution now)

  pub complete-ok :
      (id : String) (r : ReviewRecord) (execution : S.Execution) (now : ℕ)
      (t : Repository S.ReviewResult) (o : Option ReviewRecord)
      → complete_review S s id r execution now ≡ ok (t, o)
      → (result : ReviewResultRecord S.ReviewResult) × (t
          ≡ store_review (store_result (appended s r none) id result) id r)
        × (o ≡ some r)
        × (to_result S s id execution now ≡ ok result)
        × (next_sequence s r.id ≤ max_event_sequence)
  unfolding complete_review
  complete-ok id r execution now t o h =
      let (result, converted, rest) = >>=-eq-ok (to_result S s id execution now) _ h in
      let (s', appended_ok, stored) = >>=-eq-ok (append_event s r none) _ rest in
      let (shape, room) = append_event-ok s r none appended_ok in
      let e : store_review (store_result s' id result) id r ≡ t = cc in
      (
        result,
        sym e ∙ ap (λ u. store_review (store_result u id result) id r) shape,
        cc,
        converted,
        room,
      )
