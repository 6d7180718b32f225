-- ===== src/Review/Processing/Service/Seen.antt =====
-- review-processing.service.ts: the reviews that its calls return are the user's, also the fence's.
use repo_mentor.Review.Repository.Returned.{
  find_by_id_for_user_returned, transition_for_user_returned, finalize_for_user_returned,
  fence_processing_for_user_returned,
}
use repo_mentor.Review.Repository.Writes.{fence_processing_for_user, transitioned_review}
use repo_mentor.Review.Repository.{Repository}
use repo_mentor.Review.Repository.Guards.{Visible}
use mathlib.Core.Path.{subst}
use repo_mentor.Prelude.{
  Bool, Option, Result, String, err, false, if_elim, none, ok, refl, some, true, ℕ, ◌||◌, ◌≡◌,
}
use repo_mentor.Review.Types.{ReviewStatusTransition, ReviewRecord}
use repo_mentor.Review.Processing.World.{
  reading, Event, World, FencePromise, no_fence, fencing, fenced, run_fence, run_fence_of,
  settle_fence, lose, start_if_needed, started_fence, happen, other_call, abort_event, lose_event,
  fence_event, tick_event,
}
use repo_mentor.Review.Processing.Triple.{Each}
use repo_mentor.Review.Processing.Service.{
  transition_for_user, finalize_for_user, RepositoryError, Schemas,
}
use repo_mentor.Review.Processing.Service.Kept.{Closed, wait-keeps}

-- A review that the lease fence has cancelled is the user's.
abbrev pub FenceSeen : String → FencePromise → Type 0
FenceSeen user_id (fenced (ok (some r))) = Visible user_id r
FenceSeen user_id _ = Unit

pub started_fence-Seen :
    (user_id : String) (lost : Bool) (g : Option ℕ) (f : FencePromise)
    → FenceSeen user_id f
    → FenceSeen user_id (started_fence lost g f)
unfolding started_fence
started_fence-Seen user_id true (some g) no_fence i = tt
started_fence-Seen user_id true (some g) (fencing h) i = i
started_fence-Seen user_id true (some g) (fenced r) i = i
started_fence-Seen user_id true none f i = i
started_fence-Seen user_id false g f i = i

module _ (S : Schemas) (user_id id : String) where
  abbrev pub Seen : World S → Type 0
  Seen w = FenceSeen user_id w.fence

  pub transition-Visible :
      (s t : Repository S.ReviewResult) (x : ReviewStatusTransition) (o : Option ReviewRecord)
      → transition_for_user s user_id id x ≡ ok (t, o)
      → Each (Visible user_id) o
  unfolding transitioned_review
  transition-Visible s t x none h = tt
  transition-Visible s t x (some r) h =
      let (old, found, allowed, same, _) = transition_for_user_returned s t user_id id r x h in
      let v = allowed.visible in rw (← same) record { owner = v.owner; live = v.live }

  pub reading-Visible :
      (s t : Repository S.ReviewResult) (o : Option ReviewRecord)
      → reading user_id id s ≡ ok (t, o)
      → Each (Visible user_id) o
  reading-Visible s t none h = tt
  reading-Visible s t (some r) h = (find_by_id_for_user_returned s user_id id r cc).1

  pub finalize-Visible :
      (s t : Repository S.ReviewResult) (execution : S.Execution) (now g : ℕ)
      (o : Option ReviewRecord)
      → finalize_for_user S s user_id id execution now g ≡ ok (t, o)
      → Each (Visible user_id) o
  finalize-Visible s t execution now g none h = tt
  finalize-Visible s t execution now g (some r) h =
      let (old, found, c, same, _) =
        finalize_for_user_returned S s t user_id id r execution now g h in
      let v = c.visible in rw (← same) record { owner = v.owner; live = v.live }

  settle_fence-Seen :
      (w : World S) (now g : ℕ)
      (m : Result RepositoryError (Repository S.ReviewResult × Option ReviewRecord))
      → fence_processing_for_user w.repository user_id id now g ≡ m
      → Seen (settle_fence user_id id w m)
  unfolding settle_fence
  settle_fence-Seen w now g (err e) h = tt
  settle_fence-Seen w now g (ok (t, none)) h = tt
  settle_fence-Seen w now g (ok (t, some r)) h =
      let (old, found, c, same, _) =
        fence_processing_for_user_returned w.repository t user_id id r now g h in
      let v = c.visible in rw (← same) record { owner = v.owner; live = v.live }

  run_fence_of-Seen : (f : FencePromise) (w : World S) → Seen w → Seen (run_fence_of user_id id f w)
  unfolding run_fence_of
  run_fence_of-Seen (fencing g) w i = settle_fence-Seen w w.now g _ refl
  run_fence_of-Seen no_fence w i = i
  run_fence_of-Seen (fenced r) w i = i

  run_fence-Seen : (w : World S) → Seen w → Seen (run_fence user_id id w)
  unfolding run_fence
  run_fence-Seen w i = run_fence_of-Seen w.fence w i

  lose-Seen : (w : World S) → Seen w → Seen (lose user_id id w)
  unfolding lose start_if_needed
  lose-Seen w i =
      if_elim Seen (w.stopped || w.lost) _ _ (λ _. i)
        (λ _. started_fence-Seen user_id true w.claimed_generation w.fence i)

  happen-Seen : (w : World S) (e : Event S) → Seen w → Seen (happen user_id id w e)
  unfolding happen
  happen-Seen w (other_call c) i = i
  happen-Seen w abort_event i = i
  happen-Seen w lose_event i = lose-Seen w i
  happen-Seen w fence_event i = run_fence-Seen w i
  happen-Seen w (tick_event n) i = i

  pub seen : Closed user_id id Seen (λ w r. Visible user_id r)
  seen = record {
    on_wait = wait-keeps user_id id Seen happen-Seen (λ w rest i. i);
    on_fence = run_fence-Seen;
    on_call = λ w c calm i. i;
    on_promise = λ w r i e. subst (FenceSeen user_id) e i;
  }
