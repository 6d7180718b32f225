-- ===== src/Review/Processing/Service/Outcome.antt =====
-- review-processing.service.ts: the outcomes of `process`.
use repo_mentor.Review.Repository.Guards.{Visible}
use mathlib.Core.Path.{subst}
use repo_mentor.Prelude.{Result, String, err, ok, some, sym, true, ◌+◌, ◌≡◌}
use repo_mentor.Review.Processing.{
  outcome_review, outcome_status, was_completed, was_processing, retry_required, lock_contention,
  ReviewProcessingOutcome,
}
use repo_mentor.Review.Processing.World.{
  Thrown, World, lift, no_fence, find_current_or_throw, set_claimed_generation, start_if_needed,
  wait,
}
use repo_mentor.Review.Processing.Triple.{Good-returns, Good, Good-bind_result, Good-lift}
use repo_mentor.Review.Processing.Service.{Schemas}
use repo_mentor.Review.Processing.Service.Lock.{Claiming, process_with_lock-Good}
use repo_mentor.Review.Processing.Service.Flow.{run_claim-Good}
use repo_mentor.Review.Processing.Service.Agrees.{Shown, contention_by-Agrees}
use repo_mentor.Review.Processing.Service.Seen.{FenceSeen, Seen, seen, started_fence-Seen}
use repo_mentor.Review.Processing.Service.Run.{
  process, process_with_lock, acquisition_settled, run_under_lock, released, release_settled,
  LockRelease, LockAcquisition, Choices, start_keepalive, lock_acquired, lock_refused,
  lock_without_token, lock_redis_failure, lock_foreign_error, lock_released, release_redis_failure,
  release_foreign_error,
}
use repo_mentor.Review.Processing.Service.Shown.{
  ClaimShown, find_current_or_throw-Visible, Lifted-Shown, Handled-Shown, claim-Shown,
}

module _ (S : Schemas) (user_id id : String) where
  abbrev Outcome : Type 0
  Outcome = ReviewProcessingOutcome S.Execution

  abbrev I : World S → Type 0
  I = Seen S user_id id

  abbrev Q : World S → Outcome → Type 0
  Q w o = Shown user_id o

  Claiming-Shown : Claiming user_id id I I (λ _. ClaimShown user_id) Q
  unfolding set_claimed_generation start_if_needed was_completed was_processing retry_required
  Claiming-Shown = record {
    claims = claim-Shown S user_id id;
    runs = λ choices g r w i h.
        run_claim-Good user_id id I (λ _. Visible user_id) Q Q g (seen S user_id id)
          (Handled-Shown S user_id id g) choices r w
          (started_fence-Seen user_id w.lost (some g) w.fence i);
    weakens = λ w i. i;
    skips_completed = λ w r h. h;
    skips_processing = λ w r h. h;
    skips_unclaimed = λ w r status h. h;
  }

  release_settled-Shown :
      (release : LockRelease) (w : World S) (res : Result Thrown Outcome)
      → Good I Q (w, res)
      → Good I Q (w, release_settled release res)
  unfolding release_settled
  release_settled-Shown lock_released w res h = h
  release_settled-Shown release_redis_failure w res h = h
  release_settled-Shown release_foreign_error w (ok o) h = h.0
  release_settled-Shown release_foreign_error w (err e) h = h

  released-Shown :
      (release : LockRelease) (p : World S × Result Thrown Outcome)
      → Good I Q p
      → Good I Q (released user_id id release p)
  unfolding released
  released-Shown release (w, ok o) (i, h) =
      release_settled-Shown release
        (wait user_id id (record w { stopped = true; releases = w.releases + 1 })) (ok o)
        ((seen S user_id id).on_wait (record w { stopped = true; releases = w.releases + 1 }) i, h)
  released-Shown release (w, err e) i =
      release_settled-Shown release
        (wait user_id id (record w { stopped = true; releases = w.releases + 1 })) (err e)
        ((seen S user_id id).on_wait (record w { stopped = true; releases = w.releases + 1 }) i)

  acquisition_settled-Shown :
      (choices : Choices S) (release : LockRelease) (lock : LockAcquisition) (w : World S)
      → I w
      → Good I Q (acquisition_settled user_id id choices release lock w)
  unfolding acquisition_settled run_under_lock start_keepalive lock_contention
  acquisition_settled-Shown choices release lock_refused w i =
      let start = find_current_or_throw user_id id w in
      Good-bind_result I (λ _. Visible user_id) Q (λ r. lift (lock_contention r)) start
        (find_current_or_throw-Visible S user_id id w i)
        (λ w' r i' v.
          Good-lift I Q _ w' i'
            (Lifted-Shown user_id r _ v (contention_by-Agrees S.Execution r.status r)))
  acquisition_settled-Shown choices release lock_without_token w i = i
  acquisition_settled-Shown choices release lock_redis_failure w i = i
  acquisition_settled-Shown choices release lock_foreign_error w i = i
  acquisition_settled-Shown choices release (lock_acquired token) w i =
      released-Shown release (process_with_lock user_id id choices (start_keepalive user_id id w)) (
        process_with_lock-Good user_id id I I (λ _. ClaimShown user_id) Q Claiming-Shown choices
          (start_keepalive user_id id w) tt)

  -- However the lock's calls, the AI review service and the two races settle, and whatever others do at
  -- every wait: if a processing that begins with no lease fence returns an outcome, the outcome's status
  -- is the status of the review in it, and that review is the user's and not deleted.
  pub process-Shown :
      (choices : Choices S) (lock : LockAcquisition) (release : LockRelease) (w w' : World S)
      (o : ReviewProcessingOutcome S.Execution)
      → w.fence ≡ no_fence
      → process user_id id choices lock release w ≡ (w', ok o)
      → ((outcome_review o).status ≡ outcome_status o) × Visible user_id (outcome_review o)
  unfolding process
  process-Shown choices lock release w w' o unfenced returned =
      let i : I w = subst (FenceSeen user_id) (sym unfenced) tt in
      Good-returns I Q
        (Good-bind_result I (λ _. Visible user_id) Q
          (λ _ w'. acquisition_settled user_id id choices release lock (wait user_id id w'))
          (find_current_or_throw user_id id w) (find_current_or_throw-Visible S user_id id w i)
          (λ w' r i' v.
            acquisition_settled-Shown choices release lock (wait user_id id w')
              ((seen S user_id id).on_wait w' i')))
        returned
