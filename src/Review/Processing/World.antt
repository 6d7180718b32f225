-- ===== src/Review/Processing/World.antt =====
-- What surrounds one run of review-processing.service.ts, and the way a method waits.
--
-- A method runs to its next `await` without interruption. At an `await` others act: they are the events
-- that `future` holds, one list for each wait, in any order and number; after the last list nothing
-- happens. A call of the repository is a wait on the way there, the call in one step, and a wait on the
-- way back. A call that an abandoned promise makes later is an event like any other call.
use repo_mentor.Prelude.{
  Bool, List, Option, Result, String, [], err, if◌then◌else◌, none, ok, some, true, ℕ, ◌+◌, ◌||◌,
  ◌∷◌,
}
use repo_mentor.Review.Types.{ReviewRecord}
use repo_mentor.Review.Persistence.{Schemas}
use repo_mentor.Review.Repository.{Repository, RepositoryError, find_by_id_for_user}
use repo_mentor.Review.Repository.Writes.{fence_processing_for_user}
use repo_mentor.Review.Repository.Calls.{Call, step}
use repo_mentor.Review.Processing.{review_not_found, BoundaryErrorCode, MappingError}

-- What a method throws.
pub data Thrown : Type 0 where
  boundary_error : BoundaryErrorCode → Thrown
  repository_error : RepositoryError → Thrown
  mapping_error : MappingError → Thrown
  lock_renewal_abort : Thrown
  foreign_error : Thrown

-- `ReviewProcessingLeaseFence.fencePromise`: not made; made with the generation to fence; or settled.
pub data FencePromise : Type 0 where
  no_fence : FencePromise
  fencing : ℕ → FencePromise
  fenced : Result RepositoryError (Option ReviewRecord) → FencePromise

-- `lose_event` is the keepalive's `lose`, and `fence_event` the step of the fence's call.
pub data Event (S : Schemas) : Type 0 where
  other_call : Call S → Event S
  abort_event lose_event fence_event : Event S
  tick_event : ℕ → Event S

-- `stopped` and `lost` are the keepalive's (the lease fence is told of the loss at once), `aborted` is the
-- caller's signal, and `releases` counts the calls of `releaseReviewLock`.
pub record World (S : Schemas) : Type 0 where
  pub repository : Repository S.ReviewResult
  pub aborted : Bool
  pub lost : Bool
  pub stopped : Bool
  pub claimed_generation : Option ℕ
  pub fence : FencePromise
  pub now : ℕ
  pub releases : ℕ
  pub future : List (List (Event S))

unfoldable pub started_fence : Bool → Option ℕ → FencePromise → FencePromise
started_fence true (some generation) no_fence = fencing generation
started_fence _ _ fence = fence

module _ {S : Schemas} (user_id id : String) where
  -- `startIfNeeded`
  unfoldable pub start_if_needed : World S → World S
  start_if_needed w = record w { fence = started_fence w.lost w.claimed_generation w.fence }

  -- `setClaimedGeneration`
  unfoldable pub set_claimed_generation : ℕ → World S → World S
  unfolding start_if_needed
  set_claimed_generation generation w =
      start_if_needed (record w { claimed_generation = some generation })

  -- `lose` of the keepalive, with what its `onLost` tells the fence.
  unfoldable pub lose : World S → World S
  unfolding start_if_needed
  lose w = if w.stopped || w.lost then w else start_if_needed (record w { lost = true })

  unfoldable pub settle_fence :
      World S → Result RepositoryError (Repository S.ReviewResult × Option ReviewRecord) → World S
  settle_fence w (ok (s, review)) = record w { repository = s; fence = fenced (ok review) }
  settle_fence w (err e) = record w { fence = fenced (err e) }

  unfoldable pub run_fence_of : FencePromise → World S → World S
  unfolding settle_fence
  run_fence_of (fencing generation) w =
      settle_fence w (fence_processing_for_user w.repository user_id id w.now generation)
  run_fence_of _ w = w

  -- The callback of the fence.
  unfoldable pub run_fence : World S → World S
  run_fence w = run_fence_of w.fence w

  unfoldable pub happen : World S → Event S → World S
  happen w (other_call call) = record w { repository = step S w.repository call }
  happen w abort_event = record w { aborted = true }
  happen w lose_event = lose w
  happen w fence_event = run_fence w
  happen w (tick_event n) = record w { now = w.now + n }

  unfoldable pub happen_all : World S → List (Event S) → World S
  happen_all w [] = w
  happen_all w (e ∷ es) = happen_all (happen w e) es

  unfoldable pub wait_for : List (List (Event S)) → World S → World S
  wait_for [] w = w
  wait_for (es ∷ rest) w = happen_all (record w { future = rest }) es

  -- One `await`.
  unfoldable pub wait : World S → World S
  wait w = wait_for w.future w

-- A method, with the world that it leaves and what it returns or throws.
abbrev pub M : Schemas → Type 0 → Type 0
M S A = World S → World S × Result Thrown A

abbrev pub bind_result :
    {S : Schemas} {A B : Type 0}
    → World S × Result Thrown A
    → (A → M S B)
    → World S × Result Thrown B
bind_result (w, ok a) f = f a w
bind_result (w, err e) f = (w, err e)

infixl 5 ◌>>=◌ ◌>>◌
abbrev pub ◌>>=◌ : {S : Schemas} {A B : Type 0} → M S A → (A → M S B) → M S B
◌>>=◌ m f w = bind_result (m w) f

abbrev pub ◌>>◌ : {S : Schemas} {B : Type 0} → M S (Unit {0}) → M S B → M S B
◌>>◌ m k = m >>= λ _. k

abbrev pub return : {S : Schemas} {A : Type 0} → A → M S A
return a w = (w, ok a)

abbrev pub throw : {S : Schemas} {A : Type 0} → Thrown → M S A
throw e w = (w, err e)

-- Code that throws a boundary error or returns.
abbrev pub lift : {S : Schemas} {A : Type 0} → Result BoundaryErrorCode A → M S A
lift (ok a) = return a
lift (err e) = throw (boundary_error e)

-- The flags and the clock are read without waiting.
abbrev pub is_aborted : {S : Schemas} → M S Bool
is_aborted w = (w, ok w.aborted)

abbrev pub is_lost : {S : Schemas} → M S Bool
is_lost w = (w, ok w.lost)

abbrev pub clock : {S : Schemas} → M S ℕ
clock w = (w, ok w.now)

-- `findByIdForUser` as a call.
abbrev pub reading :
    {R : Type 0}
    → String
    → String
    → Repository R
    → Result RepositoryError (Repository R × Option ReviewRecord)
reading user_id id s = ok (s, find_by_id_for_user s user_id id)

module _ {S : Schemas} (user_id id : String) where
  -- The way back from a call of the repository.
  unfoldable pub returned :
      World S
      → Result RepositoryError (Repository S.ReviewResult × Option ReviewRecord)
      → World S × Result Thrown (Option ReviewRecord)
  returned w (ok (s, review)) = (wait user_id id (record w { repository = s }), ok review)
  returned w (err e) = (wait user_id id w, err (repository_error e))

  -- A call of the repository.
  unfoldable pub call :
      (Repository S.ReviewResult
        → Result RepositoryError (Repository S.ReviewResult × Option ReviewRecord))
      → M S (Option ReviewRecord)
  call method w = let there = wait user_id id w in returned there (method there.repository)

  unfoldable pub found_or_throw : Option ReviewRecord → M S ReviewRecord
  found_or_throw none = throw (boundary_error review_not_found)
  found_or_throw (some review) = return review

  -- `findCurrentOrThrow`
  unfoldable pub find_current_or_throw : M S ReviewRecord
  unfolding call
  find_current_or_throw = call (reading user_id id) >>= found_or_throw

  unfoldable pub promised : FencePromise → M S (Result RepositoryError (Option ReviewRecord))
  promised (fenced result) = return result
  promised _ = return (ok none)

  unfoldable pub wait_fence_of :
      FencePromise
      → World S
      → World S × Result Thrown (Result RepositoryError (Option ReviewRecord))
  unfolding promised
  wait_fence_of no_fence w = (wait user_id id w, ok (ok none))
  wait_fence_of _ w =
      let started = run_fence user_id id (wait user_id id w) in promised started.fence started

  -- `leaseFence.wait()`: a promise that was made is settled by the end of the wait.
  unfoldable pub wait_fence : M S (Result RepositoryError (Option ReviewRecord))
  unfolding wait_fence_of
  wait_fence w = wait_fence_of w.fence w
