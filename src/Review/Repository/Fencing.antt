-- ===== src/Review/Repository/Fencing.antt =====
-- The processing generation as a fence: a worker with a superseded claim writes nothing.
use repo_mentor.Review.Repository.Branches.{finalize-cases, fence-cases}
use repo_mentor.Prelude.{String, arith, false, inl, inr, none, ok, some, ℕ, ◌<◌, ◌≡◌, ◌≤◌}
use repo_mentor.Dict
use repo_mentor.Review.Types.{processing, status_eq, ReviewRecord}
use repo_mentor.Review.Persistence.{Schemas}
use repo_mentor.Review.Repository.{Repository}
use repo_mentor.Review.Repository.Writes.{is_claimed, finalize_for_user, fence_processing_for_user}
use repo_mentor.Review.Repository.Guards.{is_claimed_stale}

-- The review of this id, if there is one, is beyond the claim with generation `g`.
abbrev pub Past : {R : Type 0} → ℕ → Repository R → String → Type 0
Past g s id =
    (r : ReviewRecord)
    → Dict.get id s.reviews ≡ some r
    → (g ≤ r.processing_generation) × (r.status ≡ processing → g < r.processing_generation)

-- A finalization and a fence with a generation that is past change nothing and return no review.
module _ (S : Schemas) (s : Repository S.ReviewResult) (g : ℕ) (id : String)
    (past : Past g s id) where
  stale :
      (user_id : String) (r : ReviewRecord)
      → Dict.get id s.reviews ≡ some r
      → is_claimed user_id g r ≡ false
  stale user_id r found =
      is_claimed_stale user_id g r λ working same. absurd (omega (arith, (past r found).1 working))

  pub finalize_past :
      (user_id : String) (execution : S.Execution) (now : ℕ)
      → finalize_for_user S s user_id id execution now g ≡ ok (s, none)
  finalize_past user_id execution now = elim (finalize-cases S s user_id id execution now g) [
    | inl same ↦ same
    | inr (r, found, claimed, _) ↦ cc (stale user_id r found)
  ]

  pub fence_past :
      (user_id : String) (now : ℕ) → fence_processing_for_user s user_id id now g ≡ ok (s, none)
  fence_past user_id now = elim (fence-cases s user_id id now g) [
    | inl same ↦ same
    | inr (r, found, claimed, _) ↦ cc (stale user_id r found)
  ]
