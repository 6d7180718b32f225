-- ===== src/Review/Repository/Ownership.antt =====
-- What another user, or the owner of a deleted review, can do with it.
use repo_mentor.Prelude.{
  Bool, Bool-cases, List, String, [], and_parts, eq_of_beq, false, if◌then◌else◌, inl, inr, nat_eq,
  none, ok, option_eq, some, string_eq, true, ℕ, ◌&&◌, ◌+◌, ◌==◌, ◌∷◌, ◌≡◌, ◌≢◌, ◌⊎◌,
}
use repo_mentor.Dict
use repo_mentor.Dict.Laws.{get-set}
use repo_mentor.Review.Repository.Branches.{soft_delete-cases}
use repo_mentor.Review.Types.{status_eq, ReviewRecord, ReviewStatusTransition}
use repo_mentor.Review.Persistence.{Schemas}
use repo_mentor.Review.Repository.{
  completed, with_review-fails, with_review, Repository, is_visible, find_by_id_for_user,
}
use repo_mentor.Review.Repository.Writes.{
  is_claimed, may_transition, soft_delete_for_user, transition_for_user, finalize_for_user,
  fence_processing_for_user, list_events_for_user, latest_event_for_user, find_result_for_user,
  soft_delete_each, soft_delete_many_for_user, distinct, store_review,
}
use repo_mentor.Review.Repository.Guards.{
  is_claimed-Claimed, may_transition-Allowed, Visible, is_visible-Visible,
}

-- The stored review is not the user's, or it is deleted.
abbrev pub Hidden : String → ReviewRecord → Type 0
Hidden user_id r = (r.user_id ≢ user_id) ⊎ (r.deleted_at ≢ none)

pub unseen : (user_id : String) (r : ReviewRecord) → Hidden user_id r → Visible user_id r → ⊥
unseen user_id r (inl foreign) v = foreign v.owner
unseen user_id r (inr deleted) v = deleted v.live

-- A deletion for the user leaves a hidden review as it is, whatever ids it is given.
module _ {R : Type 0} (user_id id : String) (r : ReviewRecord) (hidden : Hidden user_id r) where
  soft_delete-Hidden :
      (s : Repository R) (j : String) (now : ℕ)
      → Dict.get id s.reviews ≡ some r
      → Dict.get id (soft_delete_for_user s user_id j now).0.reviews ≡ some r
  unfolding store_review
  soft_delete-Hidden s j now found = elim (soft_delete-cases s user_id j now) [
    | inl same ↦ rw same found
    | inr (q, found_q, seen, written) ↦ elim (Bool-cases (j == id)) [
      | inl here ↦
          let e : j ≡ id = eq_of_beq j id here in
          let same : q ≡ r = cc in
          absurd (unseen user_id r hidden (is_visible-Visible user_id r (rw (← same) seen)))
      | inr other ↦ rw (written, get-set, other) found
    ]
  ]

  soft_delete_each-Hidden :
      (s : Repository R) (ids : List String) (now count : ℕ)
      → Dict.get id s.reviews ≡ some r
      → Dict.get id (soft_delete_each s user_id ids now count).0.reviews ≡ some r
  unfolding soft_delete_each
  soft_delete_each-Hidden s [] now count found = found
  soft_delete_each-Hidden s (j ∷ ids) now count found =
      let (s', deleted) = soft_delete_for_user s user_id j now in
      soft_delete_each-Hidden s' ids now (if deleted then count + 1 else count)
        (soft_delete-Hidden s j now found)

module _ (S : Schemas) (s : Repository S.ReviewResult) (user_id id : String)
    (r : ReviewRecord) where
  refused {ℓ} :
      {B : Type ℓ} (test : ReviewRecord → Bool) (fallback : B) (f : ReviewRecord → B)
      → Dict.get id s.reviews ≡ some r
      → Hidden user_id r
      → (test r ≡ true → Visible user_id r)
      → with_review (Dict.get id s.reviews) test fallback f ≡ fallback
  refused test fallback f found hidden needs = elim (Bool-cases (test r)) [
    | inl passed ↦ absurd (unseen user_id r hidden (needs passed))
    | inr failed_test ↦ with_review-fails test fallback f found failed_test
  ]

  -- A review that is another user's or deleted is refused to the user by every method that is given its id:
  -- softDeleteForUser, transitionForUser, finalizeForUser and fenceProcessingForUser change nothing and
  -- return no review, and the readers of the review, its events, its latest event and its result return
  -- nothing. A deletion of many ids, this one among them or not, leaves the stored review as it is.
  pub Hidden-untouched :
      (x : ReviewStatusTransition) (execution : S.Execution) (now g m limit : ℕ) (ids : List String)
      → Dict.get id s.reviews ≡ some r
      → Hidden user_id r
      → (soft_delete_for_user s user_id id now ≡ (s, false))
        × (transition_for_user s user_id id x ≡ ok (s, none))
        × (finalize_for_user S s user_id id execution now g ≡ ok (s, none))
        × (fence_processing_for_user s user_id id now g ≡ ok (s, none))
        × (find_by_id_for_user s user_id id ≡ none)
        × (list_events_for_user s user_id id m limit ≡ [])
        × (latest_event_for_user s user_id id ≡ none)
        × (find_result_for_user s user_id id ≡ none)
        × (Dict.get id (soft_delete_many_for_user s user_id ids now).0.reviews ≡ some r)
  unfolding soft_delete_for_user transition_for_user finalize_for_user fence_processing_for_user
      find_by_id_for_user list_events_for_user latest_event_for_user find_result_for_user
      soft_delete_many_for_user
  Hidden-untouched x execution now g m limit ids found hidden =
      let seen = is_visible-Visible user_id r in
      (
        refused {B = Repository S.ReviewResult × Bool} (is_visible user_id) _ _ found hidden seen,
        refused (may_transition user_id x) _ _ found hidden
            (λ t. (may_transition-Allowed user_id x r t).visible),
        refused (is_claimed user_id g) _ _ found hidden
            (λ t. (is_claimed-Claimed user_id g r t).visible),
        refused (is_claimed user_id g) _ _ found hidden
            (λ t. (is_claimed-Claimed user_id g r t).visible),
        refused (is_visible user_id) _ _ found hidden seen,
        refused (is_visible user_id) _ _ found hidden seen,
        refused (is_visible user_id) _ _ found hidden seen,
        refused (λ q. is_visible user_id q && q.status == completed) _ _ found hidden
            (λ t. seen ((and_parts (is_visible user_id r) _ t).0)),
        soft_delete_each-Hidden user_id id r hidden s (distinct [] ids) now 0 found,
      )
