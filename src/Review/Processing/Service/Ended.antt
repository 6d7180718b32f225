-- ===== src/Review/Processing/Service/Ended.antt =====
-- review-processing.service.ts: after a processing has returned, a delayed write of its claim is refused.
use repo_mentor.Review.Repository.Writes.{fence_processing_for_user}
use repo_mentor.Review.Repository.{Repository}
use repo_mentor.Review.Processing.Service.Barred.{Reached}
use mathlib.Core.Path.{subst}
use repo_mentor.Review.Processing.Service.Delayed.{complete-Past, fail-Past, cancel-Past}
use repo_mentor.Review.Processing.Service.Quiet.{quiet_world}
use repo_mentor.Prelude.{Bool, List, String, arith, false, none, ok, refl, some, true, ℕ, ◌≡◌}
use repo_mentor.Review.Repository.Calls.{Call, run}
use repo_mentor.Review.Repository.Evolution.{On, AllKeep}
use repo_mentor.Review.Repository.Claims.{run-Past}
use repo_mentor.Review.Repository.Fencing.{finalize_past, fence_past}
use repo_mentor.Review.Processing.{
  ReviewProcessingOutcome, ReviewProcessingFailure, ReviewProcessingCancellation,
}
use repo_mentor.Review.Processing.World.{
  World, no_fence, started_fence, set_claimed_generation, start_if_needed,
}
use repo_mentor.Review.Processing.Triple.{Good-imp, Good-also, Good-weaken, Good-returns}
use repo_mentor.Review.Processing.Service.{
  finalize_for_user, Schemas, claim, complete, fail, cancel,
}
use repo_mentor.Review.Processing.Service.Lock.{Claiming, process_with_lock-Good}
use repo_mentor.Review.Processing.Service.Run.{process_with_lock, run_claim, Choices}
use repo_mentor.Review.Processing.Service.Guarded.{FenceOk, FutureApart}
use repo_mentor.Review.Processing.Service.Fenced.{G, None, Ended, run_claim-Ended}
use repo_mentor.Review.Processing.Service.Waiting.{I, ClaimReached, claim-Reached}

-- The claim of this generation writes no more, whatever calls come between: its own methods, run where nothing
-- else happens, and every finalization or fence with the generation change nothing.
abbrev pub Refused : (S : Schemas) → String → String → ℕ → Repository S.ReviewResult → Type 0
Refused S user_id id g s₀ =
    (cs : List (Call S)) (user_id' : String) (execution : S.Execution)
    (failure : ReviewProcessingFailure) (cancellation : ReviewProcessingCancellation) (now : ℕ)
    → AllKeep S id s₀ cs
    → let s = run S s₀ cs in
      let w = quiet_world {S = S} s now in
      ((complete user_id id g execution w).0.repository ≡ s)
      × ((fail user_id id g failure w).0.repository ≡ s)
      × ((cancel user_id id g cancellation w).0.repository ≡ s)
      × (finalize_for_user S s user_id' id execution now g ≡ ok (s, none))
      × (fence_processing_for_user s user_id' id now g ≡ ok (s, none))

Ended-Refused :
    (S : Schemas) (user_id id : String) (m g : ℕ) (w : World S)
    → Ended S user_id id m g w
    → Refused S user_id id g w.repository
Ended-Refused S user_id id m g w past cs user_id' execution failure cancellation now keep =
    let s = run S w.repository cs in
    let later = run-Past S g id w.repository cs keep past in
    (
      complete-Past S user_id id s now g later execution,
      fail-Past S user_id id s now g later failure,
      cancel-Past S user_id id s now g later cancellation,
      finalize_past S s g id later user_id' execution now,
      fence_past S s g id later user_id' now,
    )

module _ (S : Schemas) (user_id id : String) (m : ℕ) where
  abbrev Q : World S → ReviewProcessingOutcome S.Execution → Type 0
  Q w o = (g : ℕ) → w.claimed_generation ≡ some g → Refused S user_id id g w.repository

  started_fence-FenceOk :
      (g : ℕ) (s : Repository S.ReviewResult) (lost : Bool)
      → FenceOk S id g s (started_fence lost (some g) no_fence)
  unfolding started_fence
  started_fence-FenceOk g s true = refl
  started_fence-FenceOk g s false = tt

  claimed-G :
      (g : ℕ) (w : World S)
      → I S user_id id m w
      → On (Reached g) id w.repository
      → G S user_id id m g (None S user_id id m g) (set_claimed_generation user_id id g w)
  unfolding set_claimed_generation start_if_needed
  claimed-G g w i reached = record {
    apart = i.apart;
    counted = i.counted;
    reached = reached;
    also = λ r found. tt;
    fence_ok = rw i.unfenced (started_fence-FenceOk g w.repository w.lost);
    claims = refl;
  }

  claiming :
      Claiming user_id id
        (I S user_id id m)
        (λ w. Unit)
        (λ w c. I S user_id id m w × ClaimReached S user_id id m w c)
        Q
  claiming = record {
    claims = λ w i.
        Good-also (I S user_id id m) (ClaimReached S user_id id m) (claim user_id id w)
          (claim-Reached S user_id id m w i);
    runs = λ choices g r w i h.
        let known = G S user_id id m g (None S user_id id m g) in
        let p = run_claim user_id id choices g r w in
        Good-weaken known (λ w'. Unit) Q p (λ w' k. tt)
          (Good-imp known (λ w' o. known w' × Ended S user_id id m g w') Q p
            (Good-also known (λ w' o. Ended S user_id id m g w') p
              (run_claim-Ended S user_id id m g choices r w (claimed-G g w i h.1)))
            (λ w' o k n e.
              let same : g ≡ n = cc (k.0.claims) in
              subst (λ h. Refused S user_id id h w'.repository) same
                (Ended-Refused S user_id id m g w' k.1)));
    weakens = λ w i. tt;
    skips_completed = λ w r h g e. cc (h.0.unclaimed);
    skips_processing = λ w r h g e. cc (h.0.unclaimed);
    skips_unclaimed = λ w r status h g e. cc (h.0.unclaimed);
  }

-- A processing under the lock begins with no claim and no lease fence, and at no wait does another make a call
-- that, with the counter of generated ids where it was at the start or further, would create a review with
-- this id. If it returns, with any outcome, and had claimed the review, then the claim can write no more:
-- after any calls that create no such review, its own complete, fail and cancel, such as an abandoned one
-- that comes late, change nothing where nothing happens meanwhile, and every finalization or fence with
-- its generation, by any user, changes nothing and returns no review.
pub process_with_lock-Refused :
    (S : Schemas) (user_id id : String) (choices : Choices S) (w w' : World S)
    (o : ReviewProcessingOutcome S.Execution) (g : ℕ) (cs : List (Call S)) (user_id' : String)
    (execution : S.Execution) (failure : ReviewProcessingFailure)
    (cancellation : ReviewProcessingCancellation) (now : ℕ)
    → FutureApart S id w.repository.sequence w.future
    → w.claimed_generation ≡ none
    → w.fence ≡ no_fence
    → process_with_lock user_id id choices w ≡ (w', ok o)
    → w'.claimed_generation ≡ some g
    → AllKeep S id w'.repository cs
    → let s = run S w'.repository cs in
      let late = quiet_world {S = S} s now in
      ((complete user_id id g execution late).0.repository ≡ s)
      × ((fail user_id id g failure late).0.repository ≡ s)
      × ((cancel user_id id g cancellation late).0.repository ≡ s)
      × (finalize_for_user S s user_id' id execution now g ≡ ok (s, none))
      × (fence_processing_for_user s user_id' id now g ≡ ok (s, none))
process_with_lock-Refused S user_id id choices w w' o g cs user_id' execution failure cancellation
      now apart unclaimed unfenced returned had_claimed keep =
    let m = w.repository.sequence in
    let start : I S user_id id m w = record {
      apart = apart;
      counted = omega arith;
      also = λ r found. tt;
      unclaimed = unclaimed;
      unfenced = unfenced;
    } in
    Good-returns (λ w'. Unit) (Q S user_id id m)
      (process_with_lock-Good user_id id (I S user_id id m) (λ w'. Unit) _ (Q S user_id id m)
        (claiming S user_id id m) choices w start)
      returned g had_claimed cs user_id' execution failure cancellation now keep
