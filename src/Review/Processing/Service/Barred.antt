-- ===== src/Review/Processing/Service/Barred.antt =====
-- review-processing.service.ts: what the calls of a finalization say of a claim's generation.
use repo_mentor.Review.Repository.Fencing.{Past}
use repo_mentor.Review.Persistence.{Schemas}
use repo_mentor.Review.Repository.Branches.{complete-ok, commit-ok}
use repo_mentor.Review.Repository.Writes.{
  finalize_for_user, complete_review, transitioned_review, commit, may_transition,
  transition_for_user, is_claimed,
}
use repo_mentor.Prelude.{
  Bool, Bool-cases, Option, Result, String, ap, arith, false, inl, inr, nat_eq, ne_of_not_beq, none,
  ok, option_eq, refl, some, string_eq, sym, ℕ, ◌==◌, ◌∙◌, ◌≡◌, ◌≢◌, ◌≤◌, ◌⊎◌,
}
use repo_mentor.Dict
use repo_mentor.Review.Types.{ReviewStatusTransition, processing, completed, ReviewRecord}
use repo_mentor.Review.Policy
use repo_mentor.Review.Policy.{create_processing_transition, processing_transitions}
use repo_mentor.Review.Repository.{
  with_review-fails, with_review, RepositoryError, is_visible, with_review-some, Repository,
}
use repo_mentor.Review.Repository.Evolution.{transitioned-Evolves, On, Lasting}
use repo_mentor.Review.Repository.Claims.{Beyond, Beyond-Lasting, stored-Past}
use repo_mentor.Review.Repository.Ownership.{Hidden, unseen}
use repo_mentor.Review.Repository.Returned.{
  transition_for_user_returned, find_by_id_for_user_returned,
}
use repo_mentor.Review.Processing.World.{reading}

-- The review's generation is at least `g`.
abbrev pub Reached : ℕ → ReviewRecord → Type 0
Reached g r = g ≤ r.processing_generation

pub Reached-Lasting : (g : ℕ) → Lasting (Reached g)
Reached-Lasting g r r' e h = omega (arith, e.grows)

-- The user's claim with generation `g` cannot write: the review is beyond it, or hidden from the user.
abbrev pub Barred : String → ℕ → ReviewRecord → Type 0
Barred user_id g r = Beyond g r ⊎ Hidden user_id r

pub Barred-Lasting : (user_id : String) (g : ℕ) → Lasting (Barred user_id g)
Barred-Lasting user_id g r r' e (inl beyond) = inl (Beyond-Lasting g r r' e beyond)
Barred-Lasting user_id g r r' e (inr (inl foreign)) =
    inr (inl (λ same. foreign (sym e.owner ∙ same)))
Barred-Lasting user_id g r r' e (inr (inr deleted)) = inr (inr (λ live. deleted (e.live live)))

is_visible-Hidden :
    (user_id : String) (r : ReviewRecord) → is_visible user_id r ≡ false → Hidden user_id r
unfolding is_visible
is_visible-Hidden user_id r h = elim (Bool-cases (r.user_id == user_id)) [
  | inl mine ↦ inr (λ live. cc (rw (mine, live) at h))
  | inr other ↦ inl (λ same. cc ((string_eq.beq_iff r.user_id user_id).1 same))
]

unclaimed-Barred :
    (user_id : String) (g : ℕ) (r : ReviewRecord)
    → Reached g r
    → is_claimed user_id g r ≡ false
    → Barred user_id g r
unfolding is_claimed
unclaimed-Barred user_id g r reached h = elim (Bool-cases (is_visible user_id r)) [
  | inl seen ↦ inl (
    reached,
    λ working. elim (Bool-cases (r.processing_generation == g)) [
      | inl same ↦ cc (rw (seen, working, same) at h)
      | inr other ↦ omega (arith, ne_of_not_beq r.processing_generation g (rw other refl))
    ],
  )
  | inr hidden ↦ inr (is_visible-Hidden user_id r hidden)
]

-- A guarded method that returns no review, and whose writes always return one, has not passed its guard.
module _ {R : Type 0} (s t : Repository R) (test : ReviewRecord → Bool)
    (f : ReviewRecord → Result RepositoryError (Repository R × Option ReviewRecord))
    (writes : (r : ReviewRecord) → f r ≢ ok (t, none)) where
  refused_none :
      (o : Option ReviewRecord)
      → with_review o test (ok (s, none)) f ≡ ok (t, none)
      → (t ≡ s) × ((r : ReviewRecord) → o ≡ some r → test r ≡ false)
  unfolding with_review
  refused_none none h = (cc, λ r e. cc)
  refused_none (some q) h = elim (Bool-cases (test q)) [
    | inl passed ↦ absurd (writes q (sym (with_review-some test (ok (s, none)) f refl passed) ∙ h))
    | inr fails ↦
        let e = sym (with_review-fails test (ok (s, none)) f refl fails) ∙ h in
        (cc, λ (r : ReviewRecord) (same : some q ≡ some r). cc)
  ]

commit_returns :
    {R : Type 0} (s t : Repository R) (id : String) (r : ReviewRecord) (retryable : Option Bool)
    → commit s id r retryable ≢ ok (t, none)
commit_returns s t id r retryable h = cc ((commit-ok s id r retryable t none h).1)

module _ {R : Type 0} (s t : Repository R) (user_id id : String) (g : ℕ)
    (reached : On (Reached g) id s) where
  refused-Barred :
      (t ≡ s)
        × ((r : ReviewRecord) → Dict.get id s.reviews ≡ some r → is_claimed user_id g r ≡ false)
      → On (Barred user_id g) id t
  refused-Barred (same, refused) = λ r found.
      let found' : Dict.get id s.reviews ≡ some r = rw (← same) found in
      unclaimed-Barred user_id g r (reached r found') (refused r found')

  -- A transition out of processing that is made of the claim alone.
  pub transition_none-Barred :
      (x : ReviewStatusTransition)
      → ((r : ReviewRecord) → may_transition user_id x r ≡ is_claimed user_id g r)
      → transition_for_user s user_id id x ≡ ok (t, none)
      → On (Barred user_id g) id t
  unfolding transition_for_user
  transition_none-Barred x same h =
      let (kept, refused) =
        refused_none s t (may_transition user_id x)
          (λ r. commit s id (transitioned_review x r) x.retryable)
          (λ r. commit_returns s t id (transitioned_review x r) x.retryable) (Dict.get id s.reviews)
          h in
      refused-Barred (kept, λ r found. sym (same r) ∙ refused r found)

module _ (user_id : String) (now g : ℕ) (r : ReviewRecord) where
  pub may_transition-cancel :
      may_transition user_id (create_processing_transition Policy.cancel now (some g) none) r
      ≡ is_claimed user_id g r
  unfolding may_transition create_processing_transition processing_transitions is_claimed
  may_transition-cancel = ground arith

  pub may_transition-fail :
      (retryable : Option Bool)
      → may_transition user_id (create_processing_transition Policy.fail now (some g) retryable) r
        ≡ is_claimed user_id g r
  unfolding may_transition create_processing_transition processing_transitions is_claimed
  may_transition-fail retryable = ground arith

complete_returns :
    (S : Schemas) (s t : Repository S.ReviewResult) (id : String) (r : ReviewRecord)
    (execution : S.Execution) (now : ℕ)
    → complete_review S s id r execution now ≢ ok (t, none)
complete_returns S s t id r execution now h = cc ((complete-ok S s id r execution now t none h).2)

module _ (S : Schemas) (s t : Repository S.ReviewResult) (user_id id : String) (g : ℕ)
    (reached : On (Reached g) id s) where
  pub finalize_none-Barred :
      (execution : S.Execution) (now : ℕ)
      → finalize_for_user S s user_id id execution now g ≡ ok (t, none)
      → On (Barred user_id g) id t
  unfolding finalize_for_user
  finalize_none-Barred execution now h = refused-Barred s t user_id id g reached (
      refused_none s t (is_claimed user_id g)
        (λ r.
          complete_review S s id (record r { status = completed; updated_at = now }) execution now)
        (λ r.
          complete_returns S s t id (record r { status = completed; updated_at = now }) execution
            now)
        (Dict.get id s.reviews) h)

  -- A transition that ends the claim leaves the review beyond it.
  pub transition_some-Past :
      (x : ReviewStatusTransition) (r : ReviewRecord)
      → x.to_status ≢ processing
      → transition_for_user s user_id id x ≡ ok (t, some r)
      → Past g t id
  unfolding transitioned_review
  transition_some-Past x r ends h =
      let (old, found, allowed, same, stored) = transition_for_user_returned s t user_id id r x h in
      let e = transitioned-Evolves x old in
      stored-Past S g id s t r stored (rw (← same) (omega (arith, e.grows, reached old found)))
        (λ working. absurd (ends (ap (λ (q : ReviewRecord). q.status) same ∙ working)))

  -- A review that is read again is visible, so a barred claim is past.
  pub reading-Past :
      (r : ReviewRecord)
      → On (Barred user_id g) id s
      → reading user_id id s ≡ ok (t, some r)
      → Past g t id
  reading-Past r barred h =
      let (found, visible) = find_by_id_for_user_returned s user_id id r cc in
      let same : t ≡ s = cc in
      λ q found'.
        let e : r ≡ q = cc in
        elim (barred r found) [
          | inl beyond ↦ rw (← e) beyond
          | inr hidden ↦ absurd (unseen user_id r hidden visible)
        ]
