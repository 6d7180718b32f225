-- ===== src/Review/Processing/Service/Release.antt =====
-- review-processing.service.ts: the releases of the lock.
use repo_mentor.Review.Persistence.{Schemas}
use repo_mentor.Prelude.{
  Option, Result, String, ap, arith, err, if_elim, ok, refl, true, ℕ, ◌+◌, ◌||◌, ◌∙◌, ◌≡◌,
}
use repo_mentor.Review.Processing.{
  lock_contention, ReviewRecord, lock_contention, ReviewProcessingOutcome,
}
use repo_mentor.Review.Repository.{Repository, RepositoryError}
use repo_mentor.Review.Processing.World.{
  ◌>>=◌, lift, FencePromise, Thrown, World, Event, other_call, abort_event, lose_event, fence_event,
  tick_event, happen, lose, run_fence, run_fence_of, settle_fence, no_fence, fencing, fenced,
  start_if_needed, set_claimed_generation, ◌>>=◌, bind_result, lift, find_current_or_throw, wait,
}
use repo_mentor.Review.Processing.Triple.{Good, Good-bind_result, Good-lift}
use repo_mentor.Review.Processing.Service.Kept.{Closed, wait-keeps}
use repo_mentor.Review.Processing.Service.Anyhow.{
  Lifted-Any, find_current_or_throw-Any, complete-Any, fail-Any, cancel-Any, claim-Any, Lifted-Any,
}
use repo_mentor.Review.Processing.Service.Flow.{Handled, run_claim-Good}
use repo_mentor.Review.Processing.Service.Lock.{Claiming, process_with_lock-Good}
use repo_mentor.Review.Processing.Service.Run.{
  process, process_with_lock, acquisition_settled, run_under_lock, released, LockRelease,
  LockAcquisition, Choices, start_keepalive, lock_acquired, lock_refused, lock_without_token,
  lock_redis_failure, lock_foreign_error,
}

-- The releases that are due: one where the lock was acquired, once the review had been found.
abbrev pub due_after : LockAcquisition → ℕ
due_after (lock_acquired token) = 1
due_after _ = 0

abbrev pub releases_due : {A : Type 0} → Result Thrown A → LockAcquisition → ℕ
releases_due (ok a) lock = due_after lock
releases_due (err e) lock = 0

module _ (S : Schemas) (user_id id : String) (n : ℕ) where
  abbrev I : World S → Type 0
  I w = w.releases ≡ n

  settle_fence-releases :
      (w : World S) (m : Result RepositoryError (Repository S.ReviewResult × Option ReviewRecord))
      → I w
      → I (settle_fence user_id id w m)
  unfolding settle_fence
  settle_fence-releases w (ok (t, o)) i = i
  settle_fence-releases w (err e) i = i

  run_fence_of-releases : (f : FencePromise) (w : World S) → I w → I (run_fence_of user_id id f w)
  unfolding run_fence_of
  run_fence_of-releases (fencing g) w i = settle_fence-releases w _ i
  run_fence_of-releases no_fence w i = i
  run_fence_of-releases (fenced r) w i = i

  happen-releases : (w : World S) (e : Event S) → I w → I (happen user_id id w e)
  unfolding happen lose start_if_needed run_fence
  happen-releases w (other_call c) i = i
  happen-releases w abort_event i = i
  happen-releases w lose_event i = if_elim I (w.stopped || w.lost) _ _ (λ _. i) (λ _. i)
  happen-releases w fence_event i = run_fence_of-releases w.fence w i
  happen-releases w (tick_event m) i = i

  closed : Closed user_id id I (λ w r. Unit)
  unfolding run_fence
  closed = record {
    on_wait = wait-keeps user_id id I happen-releases (λ w rest i. i);
    on_fence = λ w i. run_fence_of-releases w.fence w i;
    on_call = λ w c calm i. i;
    on_promise = λ w r i e. tt;
  }

  handled : (g : ℕ) → Handled user_id id I (λ w r. Unit) (λ w o. Unit) (λ w o. Unit) g
  handled g = record {
    completes = complete-Any user_id id I _ closed g;
    fails = fail-Any user_id id I _ closed g;
    cancels = cancel-Any user_id id I _ closed g;
    fences = λ w r c p e. tt;
    settles = λ w o going held u. tt;
  }

  claiming : Claiming user_id id I I (λ w c. Unit) (λ w o. Unit)
  unfolding set_claimed_generation start_if_needed
  claiming = record {
    claims = claim-Any user_id id I _ closed;
    runs = λ choices g r w i h.
        run_claim-Good user_id id I _ (λ w' o. Unit) (λ w' o. Unit) g closed (handled g) choices r w
          i;
    weakens = λ w i. i;
    skips_completed = λ w r h. tt;
    skips_processing = λ w r h. tt;
    skips_unclaimed = λ w r status h. tt;
  }

  refused-Good :
      (w : World S)
      → I w
      → Good I
          (λ w' (o : ReviewProcessingOutcome S.Execution). Unit)
          ((find_current_or_throw user_id id >>= λ r. lift (lock_contention r)) w)
  refused-Good w i =
      Good-bind_result I (λ w' r. Unit) (λ w' o. Unit) (λ r. lift (lock_contention r))
        (find_current_or_throw user_id id w) (find_current_or_throw-Any user_id id I _ closed w i)
        (λ w' r i' v. Good-lift I (λ w'' o. Unit) _ w' i' (Lifted-Any (lock_contention r)))

  left : {A : Type 0} (p : World S × Result Thrown A) → Good I (λ w a. Unit) p → p.0.releases ≡ n
  left (w, ok a) h = h.0
  left (w, err e) h = h

module _ (S : Schemas) (user_id id : String) where
  wait-releases : (w : World S) → (wait user_id id w).releases ≡ w.releases
  wait-releases w = (closed S user_id id w.releases).on_wait w refl

  released-releases :
      {A : Type 0} (release : LockRelease) (p : World S × Result Thrown A)
      → (released user_id id release p).0.releases ≡ p.0.releases + 1
  unfolding released
  released-releases release (w, res) =
      wait-releases (record w { stopped = true; releases = w.releases + 1 })

  acquisition_settled-releases :
      (choices : Choices S) (release : LockRelease) (lock : LockAcquisition) (w : World S)
      → (acquisition_settled user_id id choices release lock w).0.releases
        ≡ w.releases + due_after lock
  unfolding acquisition_settled run_under_lock start_keepalive
  acquisition_settled-releases choices release (lock_acquired token) w =
      let s = start_keepalive user_id id w in
      released-releases release (process_with_lock user_id id choices s)
      ∙ ap (λ n. n + 1)
          (left S user_id id w.releases (process_with_lock user_id id choices s) (
            process_with_lock-Good user_id id (I S user_id id w.releases)
              (I S user_id id w.releases) (λ w' c. Unit) (λ w' o. Unit)
              (claiming S user_id id w.releases) choices s refl))
  acquisition_settled-releases choices release lock_refused w =
      left S user_id id w.releases
        ((find_current_or_throw user_id id >>= λ r. lift (lock_contention r)) w)
        (refused-Good S user_id id w.releases w refl)
      ∙ omega arith
  acquisition_settled-releases choices release lock_without_token w = omega arith
  acquisition_settled-releases choices release lock_redis_failure w = omega arith
  acquisition_settled-releases choices release lock_foreign_error w = omega arith

  process_from :
      (choices : Choices S) (lock : LockAcquisition) (release : LockRelease) (n : ℕ)
      (p : World S × Result Thrown ReviewRecord)
      → Good (I S user_id id n) (λ w r. Unit) p
      → (bind_result p (λ _ w'.
          acquisition_settled user_id id choices release lock (wait user_id id w'))).0.releases
        ≡ n + releases_due p.1 lock
  process_from choices lock release n (w, ok r) i =
      acquisition_settled-releases choices release lock (wait user_id id w)
      ∙ ap (λ m. m + due_after lock) (wait-releases w ∙ i.0)
  process_from choices lock release n (w, err e) i = i ∙ omega arith

  -- However everything else settles, and whether `process` returns or throws, it releases the lock exactly
  -- once where it found the review and acquired the lock with a token, and never otherwise.
  pub process-releases :
      (choices : Choices S) (lock : LockAcquisition) (release : LockRelease) (w : World S)
      → (process user_id id choices lock release w).0.releases
        ≡ w.releases + releases_due (find_current_or_throw user_id id w).1 lock
  unfolding process
  process-releases choices lock release w =
      process_from choices lock release w.releases (find_current_or_throw user_id id w) (
        find_current_or_throw-Any user_id id (I S user_id id w.releases) _
          (closed S user_id id w.releases) w refl)
