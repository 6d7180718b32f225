-- ===== src/Review/Repository/Sequence.antt =====
-- The counter of the generated ids along calls of the repository.
use repo_mentor.Prelude.{
  Bool, List, Option, Result, String, [], arith, err, if◌then◌else◌, inl, inr, none, ok, refl, ℕ,
  ◌+◌, ◌∷◌, ◌≡◌, ◌≤◌,
}
use repo_mentor.Review.Repository.{
  CreateReviewInput, Repository, RepositoryError, create, insert_review, appended, next_id_sequence,
}
use repo_mentor.Review.Types.{ReviewRecord, completed, cancelled}
use repo_mentor.Review.Persistence.{Schemas}
use repo_mentor.Review.Repository.Branches.{
  finalize-cases, fence-cases, transition-cases, soft_delete-cases, commit-ok, complete-ok,
}
use repo_mentor.Review.Repository.Writes.{
  transitioned_review, soft_delete_for_user, soft_delete_each, soft_delete_many_for_user, distinct,
  commit, complete_review, store_review, store_result,
}
use repo_mentor.Review.Repository.Calls.{
  finalize_call, fence_call, transition_call, delete_many_call, delete_call, create_call, Call,
  state_after, step,
}

module _ {R : Type 0} (s : Repository R) where
  state_after_sequence :
      (m : Result RepositoryError (Repository R × Option ReviewRecord))
      → ((t : Repository R) (o : Option ReviewRecord) → m ≡ ok (t, o) → t.sequence ≡ s.sequence)
      → s.sequence ≤ (state_after s m).sequence
  state_after_sequence (ok (t, o)) h = omega (arith, h t o refl)
  state_after_sequence (err e) h = omega arith

  commit_sequence :
      (id : String) (r : ReviewRecord) (retryable : Option Bool)
      → s.sequence ≤ (state_after s (commit s id r retryable)).sequence
  unfolding store_review appended
  commit_sequence id r retryable =
      state_after_sequence (commit s id r retryable)
        λ t o h. rw ((commit-ok s id r retryable t o h).0) refl

  soft_delete_sequence :
      (user_id id : String) (now : ℕ)
      → s.sequence ≤ (soft_delete_for_user s user_id id now).0.sequence
  unfolding store_review
  soft_delete_sequence user_id id now = elim (soft_delete-cases s user_id id now) [
    | inl same ↦ rw same (omega arith)
    | inr (r, found, _, written) ↦ rw written (omega arith)
  ]

  create_sequence :
      (input : CreateReviewInput) (now : ℕ) → s.sequence ≤ (create s input now).0.sequence
  unfolding create insert_review next_id_sequence
  create_sequence input now = ground arith

soft_delete_each_sequence :
    {R : Type 0} (s : Repository R) (user_id : String) (ids : List String) (now count : ℕ)
    → s.sequence ≤ (soft_delete_each s user_id ids now count).0.sequence
unfolding soft_delete_each
soft_delete_each_sequence s user_id [] now count = omega arith
soft_delete_each_sequence s user_id (id ∷ ids) now count =
    let (s', deleted) = soft_delete_for_user s user_id id now in
    omega (
      arith,
      soft_delete_sequence s user_id id now,
      soft_delete_each_sequence s' user_id ids now (if deleted then count + 1 else count),
    )

module _ (S : Schemas) where
  complete_sequence :
      (s : Repository S.ReviewResult) (id : String) (r : ReviewRecord) (execution : S.Execution)
      (now : ℕ)
      → s.sequence ≤ (state_after s (complete_review S s id r execution now)).sequence
  unfolding store_review store_result appended
  complete_sequence s id r execution now =
      state_after_sequence s (complete_review S s id r execution now)
        λ t o h. rw ((complete-ok S s id r execution now t o h).1) refl

  -- No call lowers the counter.
  pub step_sequence :
      (s : Repository S.ReviewResult) (c : Call S) → s.sequence ≤ (step S s c).sequence
  unfolding step soft_delete_many_for_user
  step_sequence s (create_call input now) = create_sequence s input now
  step_sequence s (delete_call user_id id now) = soft_delete_sequence s user_id id now
  step_sequence s (delete_many_call user_id ids now) =
      soft_delete_each_sequence s user_id (distinct [] ids) now 0
  step_sequence s (transition_call user_id id x) = elim (transition-cases s user_id id x) [
    | inl same ↦ rw same (omega arith)
    | inr (r, found, _, written) ↦
        rw written (commit_sequence s id (transitioned_review x r) x.retryable)
  ]
  step_sequence s (fence_call user_id id now g) = elim (fence-cases s user_id id now g) [
    | inl same ↦ rw same (omega arith)
    | inr (r, found, _, written) ↦
        rw written (commit_sequence s id (record r { status = cancelled; updated_at = now }) none)
  ]
  step_sequence s (finalize_call user_id id execution now g) =
      elim (finalize-cases S s user_id id execution now g) [
        | inl same ↦ rw same (omega arith)
        | inr (r, found, _, written) ↦ rw written (
            complete_sequence s id (record r { status = completed; updated_at = now }) execution
              now)
      ]
