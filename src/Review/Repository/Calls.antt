-- ===== src/Review/Repository/Calls.antt =====
-- Sequences of calls on one repository, and the invariant along them.
use repo_mentor.Review.Repository.Guards.{may_transition-Allowed}
use repo_mentor.Review.Repository.Branches.{
  finalize-cases, complete-ok, fence-cases, transition-cases,
}
use repo_mentor.Prelude.{
  Bool-cases, List, Option, Result, String, [], arith, eq_of_beq, err, inl, inr, nat_eq, none, ok,
  option_eq, refl, some, string_eq, true, ℕ, ◌==◌, ◌∙◌, ◌∷◌, ◌≡◌, ◌≢◌, ◌≤◌,
}
use repo_mentor.Dict
use repo_mentor.Dict.Laws.{get-set_ne, get-set_self}
use repo_mentor.Ai.Pricing.{AiPricingConfig}
use repo_mentor.Review.Types.{
  status_eq, completed, processing, cancelled, ReviewRecord, CreateReviewInput,
  ReviewStatusTransition, max_processing_generation,
}
use repo_mentor.Review.Persistence.{Schemas}
use repo_mentor.Review.Repository.{Repository, RepositoryError, empty, create, appended}
use repo_mentor.Review.Repository.Writes.{
  may_transition, transitioned_review, soft_delete_for_user, soft_delete_many_for_user, distinct,
  transition_for_user, fence_processing_for_user, finalize_for_user, complete_review, commit,
  store_result, store_review,
}
use repo_mentor.Review.Repository.Invariant.{IsValid}
use repo_mentor.Review.Repository.Preserve.{
  store-IsValid, commit-IsValid, soft_delete-IsValid, soft_delete_each-IsValid, create-IsValid,
}

-- The calls of the methods that change the state, with the time at which each is made.
pub data Call (S : Schemas) : Type 0 where
  create_call : CreateReviewInput → ℕ → Call S
  delete_call : String → String → ℕ → Call S
  delete_many_call : String → List String → ℕ → Call S
  transition_call : String → String → ReviewStatusTransition → Call S
  finalize_call : String → String → S.Execution → ℕ → ℕ → Call S
  fence_call : String → String → ℕ → ℕ → Call S

-- A call that throws leaves the state as it was.
abbrev pub state_after :
    {R : Type 0}
    → Repository R
    → Result RepositoryError (Repository R × Option ReviewRecord)
    → Repository R
state_after s (ok (t, _)) = t
state_after s (err e) = s

pub state_after-IsValid :
    {R : Type 0} (s : Repository R)
    (m : Result RepositoryError (Repository R × Option ReviewRecord))
    → IsValid s
    → ((t : Repository R) (o : Option ReviewRecord) → m ≡ ok (t, o) → IsValid t)
    → IsValid (state_after s m)
state_after-IsValid s (ok (t, o)) v h = h t o refl
state_after-IsValid s (err e) v h = v

transitioned-id :
    (x : ReviewStatusTransition) (r : ReviewRecord) → (transitioned_review x r).id ≡ r.id
unfolding transitioned_review
transitioned-id x r = refl

transitioned-bounded :
    (user_id : String) (x : ReviewStatusTransition) (r : ReviewRecord)
    → may_transition user_id x r ≡ true
    → r.processing_generation ≤ max_processing_generation
    → (transitioned_review x r).processing_generation ≤ max_processing_generation
unfolding transitioned_review
transitioned-bounded user_id x r h g =
    let allowed = may_transition-Allowed user_id x r h in
    elim (Bool-cases (x.to_status == processing)) [
      | inl starts ↦
          rw starts (omega (arith, allowed.room (eq_of_beq x.to_status processing starts)))
      | inr stays ↦ rw stays g
    ]

transitioned-unfinished :
    (user_id : String) (x : ReviewStatusTransition) (r : ReviewRecord)
    → may_transition user_id x r ≡ true
    → (transitioned_review x r).status ≢ completed
unfolding transitioned_review
transitioned-unfinished user_id x r h = (may_transition-Allowed user_id x r h).target

module _ (S : Schemas) where
  unfoldable pub step : Repository S.ReviewResult → Call S → Repository S.ReviewResult
  step s (create_call input now) = (create s input now).0
  step s (delete_call user_id id now) = (soft_delete_for_user s user_id id now).0
  step s (delete_many_call user_id ids now) = (soft_delete_many_for_user s user_id ids now).0
  step s (transition_call user_id id t) = state_after s (transition_for_user s user_id id t)
  step s (finalize_call user_id id execution now g) =
      state_after s (finalize_for_user S s user_id id execution now g)
  step s (fence_call user_id id now g) =
      state_after s (fence_processing_for_user s user_id id now g)

  unfoldable pub run : Repository S.ReviewResult → List (Call S) → Repository S.ReviewResult
  run s [] = s
  run s (c ∷ cs) = run (step s c) cs

module _ {R : Type 0} where
  pub transition-IsValid :
      (s : Repository R) (user_id id : String) (x : ReviewStatusTransition)
      → IsValid s
      → IsValid (state_after s (transition_for_user s user_id id x))
  transition-IsValid s user_id id x v = elim (transition-cases s user_id id x) [
    | inl same ↦ rw same v
    | inr (r, found, allowed, written) ↦ rw written (
        state_after-IsValid s (commit s id (transitioned_review x r) x.retryable) v λ t o h.
          commit-IsValid s id r (transitioned_review x r) x.retryable t o v found
            (transitioned-id x r)
            (transitioned-bounded user_id x r allowed (v id r found).generation_bounded)
            (transitioned-unfinished user_id x r allowed) h)
  ]

  pub fence-IsValid :
      (s : Repository R) (user_id id : String) (now g : ℕ)
      → IsValid s
      → IsValid (state_after s (fence_processing_for_user s user_id id now g))
  fence-IsValid s user_id id now g v = elim (fence-cases s user_id id now g) [
    | inl same ↦ rw same v
    | inr (r, found, claimed, written) ↦
        let r' : ReviewRecord = record r { status = cancelled; updated_at = now } in
        rw written (
          state_after-IsValid s (commit s id r' none) v λ t o h.
            commit-IsValid s id r r' none t o v found refl (v id r found).generation_bounded
              (λ e. cc) h)
  ]

module _ (S : Schemas) where
  complete-IsValid :
      (s : Repository S.ReviewResult) (id : String) (old r : ReviewRecord) (execution : S.Execution)
      (now : ℕ)
      → IsValid s
      → Dict.get id s.reviews ≡ some old
      → r.id ≡ old.id
      → r.processing_generation ≤ max_processing_generation
      → (t : Repository S.ReviewResult) (o : Option ReviewRecord)
      → complete_review S s id r execution now ≡ ok (t, o)
      → IsValid t
  unfolding appended store_result
  complete-IsValid s id old r execution now v found same g t o h =
      let (result, shape, _, _, room) = complete-ok S s id r execution now t o h in
      let here : r.id ≡ id = same ∙ (v id old found).same_id in
      let kept : IsValid (store_review (store_result (appended s r none) r.id result) r.id r) =
        store-IsValid s old r none (Dict.set r.id result s.results)
          (λ j ne. get-set_ne r.id j result s.results ne)
          (λ e. rw (get-set_self r.id result s.results) refl) g room (rw here found) v in
      rw (shape, ← here) kept

  pub finalize-IsValid :
      (s : Repository S.ReviewResult) (user_id id : String) (execution : S.Execution) (now g : ℕ)
      → IsValid s
      → IsValid (state_after s (finalize_for_user S s user_id id execution now g))
  finalize-IsValid s user_id id execution now g v =
      elim (finalize-cases S s user_id id execution now g) [
        | inl same ↦ rw same v
        | inr (r, found, claimed, written) ↦
            let r' : ReviewRecord = record r { status = completed; updated_at = now } in
            rw written (
              state_after-IsValid s (complete_review S s id r' execution now) v (
                complete-IsValid s id r r' execution now v found refl
                  (v id r found).generation_bounded))
      ]

  pub step-IsValid : (s : Repository S.ReviewResult) (c : Call S) → IsValid s → IsValid (step S s c)
  unfolding step soft_delete_many_for_user
  step-IsValid s (create_call input now) v = create-IsValid s input now v
  step-IsValid s (delete_call user_id id now) v = soft_delete-IsValid s user_id id now v
  step-IsValid s (delete_many_call user_id ids now) v =
      soft_delete_each-IsValid s user_id (distinct [] ids) now 0 v
  step-IsValid s (transition_call user_id id x) v = transition-IsValid s user_id id x v
  step-IsValid s (finalize_call user_id id execution now g) v =
      finalize-IsValid s user_id id execution now g v
  step-IsValid s (fence_call user_id id now g) v = fence-IsValid s user_id id now g v

  pub run-IsValid :
      (s : Repository S.ReviewResult) (cs : List (Call S)) → IsValid s → IsValid (run S s cs)
  unfolding run
  run-IsValid s [] v = v
  run-IsValid s (c ∷ cs) v = run-IsValid (step S s c) cs (step-IsValid s c v)

  -- Whatever calls are made on a new repository, every stored review has a log of events numbered from 1
  -- without a gap, whose last event shows its status and generation; its counter is the log's
  -- length; the generation and the log stay within their bounds; a completed review has a result.
  pub run-empty-IsValid :
      (pricing : Option AiPricingConfig) (cs : List (Call S)) → IsValid (run S (empty pricing) cs)
  unfolding empty Dict.get
  run-empty-IsValid pricing cs = run-IsValid (empty pricing) cs (λ id r h. cc)
