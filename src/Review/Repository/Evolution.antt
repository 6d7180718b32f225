-- ===== src/Review/Repository/Evolution.antt =====
-- What every change of a stored review keeps is kept of the review of one id along sequences of calls.
use repo_mentor.Prelude.{
  Bool, Bool-cases, List, Option, Result, String, [], arith, beq_ne, eq_of_beq, err, if◌then◌else◌,
  inl, inr, nat_eq, none, ok, option_eq, refl, some, string_eq, sym, ℕ, ◌+◌, ◌<◌, ◌==◌, ◌∙◌, ◌∷◌,
  ◌≡◌, ◌≢◌, ◌≤◌, ◌⊎◌,
}
use repo_mentor.Dict
use repo_mentor.Dict.Laws.{get-set, get-set_ne}
use repo_mentor.Review.Types.{status_eq, status_beq_iff, completed, processing, cancelled}
use repo_mentor.Review.Repository.{
  CreateReviewInput, ReviewRecord, Schemas, ReviewStatusTransition, RepositoryError, Repository,
  create, insert_review, appended,
}
use repo_mentor.Review.Repository.Branches.{
  finalize-cases, fence-cases, transition-cases, soft_delete-cases, commit-ok, complete-ok,
}
use repo_mentor.Review.Repository.Writes.{
  transitioned_review, deleted_review, soft_delete_for_user, soft_delete_each,
  soft_delete_many_for_user, distinct, commit, complete_review, store_review, store_result,
}
use repo_mentor.Review.Repository.Calls.{
  finalize_call, fence_call, transition_call, delete_many_call, delete_call, create_call, Call,
  state_after, step, run,
}

-- How a write may change a stored review: its generation does not fall, it is not put back into
-- processing under the same generation, it keeps its user, and it stays deleted.
pub record Evolves (r r' : ReviewRecord) : Type 0 where
  pub grows : r.processing_generation ≤ r'.processing_generation
  pub claims :
      r'.status ≡ processing
      → (r.status ≡ processing) ⊎ (r.processing_generation < r'.processing_generation)
  pub owner : r'.user_id ≡ r.user_id
  pub live : r'.deleted_at ≡ none → r.deleted_at ≡ none

pub transitioned-Evolves :
    (x : ReviewStatusTransition) (r : ReviewRecord) → Evolves r (transitioned_review x r)
unfolding transitioned_review
transitioned-Evolves x r = elim (Bool-cases (x.to_status == processing)) [
  | inl starts ↦ record {
    grows = rw starts (omega arith);
    claims = λ e. inr (rw starts (omega arith));
    owner = refl;
    live = λ e. e;
  }
  | inr stays ↦ record {
    grows = rw stays (omega arith);
    claims = λ e. cc ((status_beq_iff x.to_status processing).1 e);
    owner = refl;
    live = λ e. e;
  }
]

-- The review of this id, if there is one, has the property.
abbrev pub On : {R : Type 0} → (ReviewRecord → Type 0) → String → Repository R → Type 0
On J id s = (r : ReviewRecord) → Dict.get id s.reviews ≡ some r → J r

abbrev pub Lasting : (ReviewRecord → Type 0) → Type 0
Lasting J = (r r' : ReviewRecord) → Evolves r r' → J r → J r'

module _ {R : Type 0} (id : String) (J : ReviewRecord → Type 0) (lasting : Lasting J) where
  On-update :
      (s t : Repository R) (j : String) (r r' : ReviewRecord)
      → t.reviews ≡ Dict.set j r' s.reviews
      → Dict.get j s.reviews ≡ some r
      → Evolves r r'
      → On J id s
      → On J id t
  On-update s t j r r' stored found a on = λ q h. elim (Bool-cases (j == id)) [
    | inl same ↦
        let e : j ≡ id = eq_of_beq j id same in
        let at_j : Dict.get id t.reviews ≡ some r' = rw (stored, get-set, same) refl in
        let same_review : r' ≡ q = cc in rw (← same_review) (lasting r r' a (on r (rw (← e) found)))
    | inr other ↦ on q (rw (stored, get-set, other) at h)
  ]

  state_after-On :
      (s : Repository R) (m : Result RepositoryError (Repository R × Option ReviewRecord))
      → On J id s
      → ((t : Repository R) (o : Option ReviewRecord) → m ≡ ok (t, o) → On J id t)
      → On J id (state_after s m)
  state_after-On s (ok (t, o)) on h = h t o refl
  state_after-On s (err e) on h = on

  commit-On :
      (s : Repository R) (j : String) (r r' : ReviewRecord) (retryable : Option Bool)
      → Dict.get j s.reviews ≡ some r
      → Evolves r r'
      → On J id s
      → On J id (state_after s (commit s j r' retryable))
  unfolding store_review appended
  commit-On s j r r' retryable found a on =
      state_after-On s (commit s j r' retryable) on
        λ t o h. On-update s t j r r' (rw ((commit-ok s j r' retryable t o h).0) refl) found a on

  soft_delete-On :
      (s : Repository R) (user_id j : String) (now : ℕ)
      → On J id s
      → On J id (soft_delete_for_user s user_id j now).0
  unfolding store_review deleted_review
  soft_delete-On s user_id j now on = elim (soft_delete-cases s user_id j now) [
    | inl same ↦ rw same on
    | inr (r, found, _, written) ↦ rw written (
        On-update s (store_review s j (deleted_review now r)) j r (deleted_review now r) refl found
          (record { grows = omega arith; claims = λ e. inl e; owner = refl; live = λ e. cc }) on)
  ]

  soft_delete_each-On :
      (s : Repository R) (user_id : String) (ids : List String) (now count : ℕ)
      → On J id s
      → On J id (soft_delete_each s user_id ids now count).0
  unfolding soft_delete_each
  soft_delete_each-On s user_id [] now count on = on
  soft_delete_each-On s user_id (j ∷ ids) now count on =
      let (s', deleted) = soft_delete_for_user s user_id j now in
      soft_delete_each-On s' user_id ids now (if deleted then count + 1 else count)
        (soft_delete-On s user_id j now on)

  create-On :
      (s : Repository R) (input : CreateReviewInput) (now : ℕ)
      → (create s input now).1.id ≢ id
      → On J id s
      → On J id (create s input now).0
  unfolding create insert_review
  create-On s input now fresh on = λ q h.
      let r = (create s input now).1 in
      let e : Dict.get id (create s input now).0.reviews ≡ Dict.get id s.reviews =
        get-set_ne r.id id r s.reviews (beq_ne r.id id fresh) in
      on q (sym e ∙ h)

module _ (S : Schemas) (id : String) where
  -- The call does not put a new review in the place of this one.
  abbrev pub Keeps : Repository S.ReviewResult → Call S → Type 0
  Keeps s (create_call input now) = (create s input now).1.id ≢ id
  Keeps s _ = Unit

  abbrev pub AllKeep : Repository S.ReviewResult → List (Call S) → Type 0
  AllKeep s [] = Unit
  AllKeep s (c ∷ cs) = Keeps s c × AllKeep (step S s c) cs

module _ (S : Schemas) (id : String) (J : ReviewRecord → Type 0) (lasting : Lasting J) where
  complete-On :
      (s : Repository S.ReviewResult) (j : String) (r r' : ReviewRecord) (execution : S.Execution)
      (now : ℕ)
      → Dict.get j s.reviews ≡ some r
      → Evolves r r'
      → On J id s
      → On J id (state_after s (complete_review S s j r' execution now))
  unfolding store_review store_result appended
  complete-On s j r r' execution now found a on =
      state_after-On id J lasting s (complete_review S s j r' execution now) on λ t o h.
        On-update id J lasting s t j r r' (rw ((complete-ok S s j r' execution now t o h).1) refl)
          found a on

  pub step-On :
      (s : Repository S.ReviewResult) (c : Call S)
      → Keeps S id s c
      → On J id s
      → On J id (step S s c)
  unfolding step soft_delete_many_for_user
  step-On s (create_call input now) k on = create-On id J lasting s input now k on
  step-On s (delete_call user_id j now) k on = soft_delete-On id J lasting s user_id j now on
  step-On s (delete_many_call user_id ids now) k on =
      soft_delete_each-On id J lasting s user_id (distinct [] ids) now 0 on
  step-On s (transition_call user_id j x) k on = elim (transition-cases s user_id j x) [
    | inl same ↦ rw same on
    | inr (r, found, _, written) ↦ rw written (
        commit-On id J lasting s j r (transitioned_review x r) x.retryable found
          (transitioned-Evolves x r) on)
  ]
  step-On s (fence_call user_id j now n) k on = elim (fence-cases s user_id j now n) [
    | inl same ↦ rw same on
    | inr (r, found, _, written) ↦ rw written (
        commit-On id J lasting s j r (record r { status = cancelled; updated_at = now }) none found
          (record { grows = omega arith; claims = λ e. cc; owner = refl; live = λ e. e }) on)
  ]
  step-On s (finalize_call user_id j execution now n) k on =
      elim (finalize-cases S s user_id j execution now n) [
        | inl same ↦ rw same on
        | inr (r, found, _, written) ↦
            let r' : ReviewRecord = record r { status = completed; updated_at = now } in
            rw written (
              complete-On s j r r' execution now found
                (record { grows = omega arith; claims = λ e. cc; owner = refl; live = λ e. e }) on)
      ]

  pub run-On :
      (s : Repository S.ReviewResult) (cs : List (Call S))
      → AllKeep S id s cs
      → On J id s
      → On J id (run S s cs)
  unfolding run
  run-On s [] k on = on
  run-On s (c ∷ cs) k on = run-On (step S s c) cs k.1 (step-On s c k.0 on)
