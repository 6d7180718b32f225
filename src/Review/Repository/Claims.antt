-- ===== src/Review/Repository/Claims.antt =====
-- Claims along sequences of calls.
use repo_mentor.Review.Repository.Guards.{is_claimed-Claimed}
use repo_mentor.Prelude.{
  List, String, arith, inl, inr, none, ok, refl, some, sym, ℕ, ◌<◌, ◌∙◌, ◌≡◌, ◌≤◌,
}
use repo_mentor.Review.Repository.Returned.{finalize_for_user_returned}
use repo_mentor.Dict
use repo_mentor.Dict.Laws.{get-set_self}
use repo_mentor.Review.Types.{completed, processing, ReviewRecord, ReviewStatusTransition}
use repo_mentor.Review.Persistence.{Schemas}
use repo_mentor.Review.Repository.{Repository, appended}
use repo_mentor.Review.Repository.Writes.{
  transitioned_review, finalize_for_user, fence_processing_for_user, transition_for_user,
  store_review, store_result,
}
use repo_mentor.Review.Repository.Branches.{
  finalize-cases, transition-cases, commit-ok, complete-ok,
}
use repo_mentor.Review.Repository.Calls.{Call, run}
use repo_mentor.Review.Repository.Evolution.{AllKeep, Lasting, run-On}
use repo_mentor.Review.Repository.Fencing.{Past, finalize_past, fence_past}

-- The review is beyond the claim with generation `g`.
abbrev pub Beyond : ℕ → ReviewRecord → Type 0
Beyond g r = (g ≤ r.processing_generation) × (r.status ≡ processing → g < r.processing_generation)

pub Beyond-Lasting : (g : ℕ) → Lasting (Beyond g)
Beyond-Lasting g r r' e (below, strict) = (
  omega (arith, e.grows),
  λ p. elim (e.claims p) [ inl was ↦ omega (arith, strict was, e.grows) | inr more ↦ omega arith ],
)

module _ (S : Schemas) (g : ℕ) (id : String) where
  pub run-Past :
      (s : Repository S.ReviewResult) (cs : List (Call S))
      → AllKeep S id s cs
      → Past g s id
      → Past g (run S s cs) id
  run-Past = run-On S id (Beyond g) (Beyond-Lasting g)

  -- A write that stores a review of a later generation, or one that is not in processing.
  pub stored-Past :
      (s t : Repository S.ReviewResult) (r' : ReviewRecord)
      → t.reviews ≡ Dict.set id r' s.reviews
      → g ≤ r'.processing_generation
      → (r'.status ≡ processing → g < r'.processing_generation)
      → Past g t id
  stored-Past s t r' stored below strict = λ q h.
      let at_id : Dict.get id t.reviews ≡ some r' = rw (stored, get-set_self) refl in
      let same : r' ≡ q = cc in rw (← same) (below, strict)

  pub finalized-Past :
      (s t : Repository S.ReviewResult) (user_id : String) (execution : S.Execution) (now : ℕ)
      (r : ReviewRecord)
      → finalize_for_user S s user_id id execution now g ≡ ok (t, some r)
      → Past g t id
  unfolding store_review store_result appended
  finalized-Past s t user_id execution now r h =
      elim (finalize-cases S s user_id id execution now g) [
        | inl same ↦ cc
        | inr (old, found, claimed, written) ↦
            let r' : ReviewRecord = record old { status = completed; updated_at = now } in
            let c = is_claimed-Claimed user_id g old claimed in
            stored-Past s t r'
              (rw ((complete-ok S s id r' execution now t (some r) (sym written ∙ h)).1) refl)
              (omega (arith, c.generation)) (λ e. cc)
      ]

  claimed-Past :
      (s t : Repository S.ReviewResult) (user_id : String) (x : ReviewStatusTransition)
      (r : ReviewRecord)
      → x.to_status ≡ processing
      → transition_for_user s user_id id x ≡ ok (t, some r)
      → g < r.processing_generation
      → Past g t id
  unfolding store_review appended
  claimed-Past s t user_id x r starts h later = elim (transition-cases s user_id id x) [
    | inl same ↦ cc
    | inr (old, found, _, written) ↦
        let r' = transitioned_review x old in
        let (shape, returned, _) = commit-ok s id r' x.retryable t (some r) (sym written ∙ h) in
        let same : r' ≡ r = cc in
        stored-Past s t r' (rw shape refl) (rw same (omega arith)) (λ e. rw same later)
  ]

  -- A finalization with generation `g` that returns a review was of the user's stored review, in processing
  -- with exactly that generation. After it, as long as no new review takes the id, every later finalization
  -- or fence with that generation or an earlier one, by any user, returns no review and changes nothing,
  -- whatever calls come between.
  pub finalize_once :
      (s t : Repository S.ReviewResult) (user_id : String) (execution : S.Execution) (now : ℕ)
      (r : ReviewRecord) (cs : List (Call S)) (user_id' : String) (execution' : S.Execution)
      (now' g' : ℕ)
      → finalize_for_user S s user_id id execution now g ≡ ok (t, some r)
      → AllKeep S id t cs
      → g' ≤ g
      → ((old : ReviewRecord) × (Dict.get id s.reviews ≡ some old)
          × (old.user_id ≡ user_id)
          × (old.deleted_at ≡ none)
          × (old.status ≡ processing)
          × (old.processing_generation ≡ g))
        × (finalize_for_user S (run S t cs) user_id' id execution' now' g' ≡ ok (run S t cs, none))
        × (fence_processing_for_user (run S t cs) user_id' id now' g' ≡ ok (run S t cs, none))
  finalize_once s t user_id execution now r cs user_id' execution' now' g' h k below =
      let past = run-Past t cs k (finalized-Past s t user_id execution now r h) in
      let earlier : Past g' (run S t cs) id = λ q found.
        (omega (arith, (past q found).0), λ working. omega (arith, (past q found).1 working)) in
      let (old, found, c, _, _) = finalize_for_user_returned S s t user_id id r execution now g h in
      (
        (old, found, c.visible.owner, c.visible.live, c.status, c.generation),
        finalize_past S (run S t cs) g' id earlier user_id' execution' now',
        fence_past S (run S t cs) g' id earlier user_id' now',
      )

  -- Once a later claim has put the review into processing, and as long as no new review takes its id, a
  -- worker with an earlier generation can neither finalize nor fence it, whatever calls come between.
  pub claim_supersedes :
      (s t : Repository S.ReviewResult) (user_id : String) (x : ReviewStatusTransition)
      (r : ReviewRecord) (cs : List (Call S)) (user_id' : String) (execution : S.Execution)
      (now : ℕ)
      → x.to_status ≡ processing
      → transition_for_user s user_id id x ≡ ok (t, some r)
      → g < r.processing_generation
      → AllKeep S id t cs
      → (finalize_for_user S (run S t cs) user_id' id execution now g ≡ ok (run S t cs, none))
        × (fence_processing_for_user (run S t cs) user_id' id now g ≡ ok (run S t cs, none))
  claim_supersedes s t user_id x r cs user_id' execution now starts h later k =
      let past = run-Past t cs k (claimed-Past s t user_id x r starts h later) in
      (
        finalize_past S (run S t cs) g id past user_id' execution now,
        fence_past S (run S t cs) g id past user_id' now,
      )
