-- ===== src/Review/Repository/Returned.antt =====
-- What the repository's methods say about a review that they return.
use repo_mentor.Review.Repository.Branches.{fence-cases, transition-cases, finalize-cases}
use repo_mentor.Review.Repository.Guards.{
  is_visible-Visible, is_claimed-Claimed, may_transition-Allowed, Visible, Claimed, Allowed,
}
use repo_mentor.Review.Repository.Writes.{
  transitioned_review, transition_for_user, fence_processing_for_user, finalize_for_user,
  store_result, store_review,
}
use repo_mentor.Review.Repository.{
  is_visible, with_review-cases, ReviewStatusTransition, appended, Repository, find_by_id_for_user,
}
use repo_mentor.Review.Persistence.{Schemas}
use repo_mentor.Prelude.{String, inl, inr, none, ok, refl, some, sym, ℕ, ◌∙◌, ◌≡◌}
use repo_mentor.Dict
use repo_mentor.Review.Repository.Branches.{
  commit-ok, complete-ok, transition-cases, fence-cases, finalize-cases,
}
use repo_mentor.Review.Types.{ReviewRecord, completed, cancelled}

module _ {R : Type 0} (s t : Repository R) (user_id id : String) (r : ReviewRecord) where
  -- The stored review, from which the returned one was made.
  abbrev pub Written : (ReviewRecord → Type 0) → (ReviewRecord → ReviewRecord) → Type 0
  Written Guard change =
      (old : ReviewRecord) × (Dict.get id s.reviews ≡ some old)
      × Guard old
      × (change old ≡ r)
      × (t.reviews ≡ Dict.set id r s.reviews)

  pub transition_for_user_returned :
      (x : ReviewStatusTransition)
      → transition_for_user s user_id id x ≡ ok (t, some r)
      → Written (Allowed user_id x) (transitioned_review x)
  unfolding store_review appended
  transition_for_user_returned x h = elim (transition-cases s user_id id x) [
    | inl same ↦ cc
    | inr (old, found, allowed, written) ↦
        let (shape, returned, _) =
          commit-ok s id (transitioned_review x old) x.retryable t (some r) (sym written ∙ h) in
        let same : transitioned_review x old ≡ r = cc in
        (old, found, may_transition-Allowed user_id x old allowed, same, rw (shape, ← same) refl)
  ]

  pub fence_processing_for_user_returned :
      (now g : ℕ)
      → fence_processing_for_user s user_id id now g ≡ ok (t, some r)
      → Written (Claimed user_id g) (λ old. record old { status = cancelled; updated_at = now })
  unfolding store_review appended
  fence_processing_for_user_returned now g h = elim (fence-cases s user_id id now g) [
    | inl same ↦ cc
    | inr (old, found, claimed, written) ↦
        let r' : ReviewRecord = record old { status = cancelled; updated_at = now } in
        let (shape, returned, _) = commit-ok s id r' none t (some r) (sym written ∙ h) in
        let same : r' ≡ r = cc in
        (old, found, is_claimed-Claimed user_id g old claimed, same, rw (shape, ← same) refl)
  ]

module _ (S : Schemas) (s t : Repository S.ReviewResult) (user_id id : String)
    (r : ReviewRecord) where
  pub finalize_for_user_returned :
      (execution : S.Execution) (now g : ℕ)
      → finalize_for_user S s user_id id execution now g ≡ ok (t, some r)
      → Written s t user_id id r
          (Claimed user_id g)
          (λ old. record old { status = completed; updated_at = now })
  unfolding store_review store_result appended
  finalize_for_user_returned execution now g h =
      elim (finalize-cases S s user_id id execution now g) [
        | inl same ↦ cc
        | inr (old, found, claimed, written) ↦
            let r' : ReviewRecord = record old { status = completed; updated_at = now } in
            let (result, shape, returned, _, _) =
              complete-ok S s id r' execution now t (some r) (sym written ∙ h) in
            let same : r' ≡ r = cc in
            (old, found, is_claimed-Claimed user_id g old claimed, same, rw (shape, ← same) refl)
      ]

pub find_by_id_for_user_returned :
    {R : Type 0} (s : Repository R) (user_id id : String) (r : ReviewRecord)
    → find_by_id_for_user s user_id id ≡ some r
    → (Dict.get id s.reviews ≡ some r) × Visible user_id r
unfolding find_by_id_for_user
find_by_id_for_user_returned s user_id id r h =
    elim (with_review-cases (Dict.get id s.reviews) (is_visible user_id) none some) [
      | inl same ↦ cc
      | inr (old, found, visible, written) ↦
          let same : old ≡ r = cc in rw (← same) (found, is_visible-Visible user_id old visible)
    ]
