-- ===== src/Review/Processing/Service/Kept.antt =====
-- A property of the world that what surrounds the service keeps, along the calls of the repository.
use repo_mentor.Review.Repository.Writes.{transition_for_user, finalize_for_user}
use repo_mentor.Review.Processing.Triple.{Good}
use repo_mentor.Review.Types.{ReviewStatusTransition, ReviewRecord}
use repo_mentor.Review.Repository.{RepositoryError, Repository}
use repo_mentor.Review.Persistence.{Schemas}
use mathlib.Core.Path.{subst}
use repo_mentor.Prelude.{
  List, Option, Result, String, [], ap, err, inl, inr, ok, refl, some, sym, ℕ, ◌∙◌, ◌∷◌, ◌≡◌, ◌⊎◌,
}
use repo_mentor.Review.Repository.Calls.{transition_call, finalize_call, Call, step, create_call}
use repo_mentor.Review.Processing.World.{
  reading, wait_for, happen_all, happen, Event, FencePromise, returned, promised, World, wait,
  run_fence, call, wait_fence, wait_fence_of, no_fence, fencing, fenced,
}

-- A call that inserts no review.
abbrev pub Calm : {S : Schemas} → Call S → Type 0
Calm (create_call input now) = ⊥
Calm _ = Unit

-- `P` is what the property says of a review that the lease fence has cancelled.
pub record Closed {S : Schemas} (user_id id : String) (I : World S → Type 0)
    (P : World S → ReviewRecord → Type 0) : Type 0 where
  pub on_wait : (w : World S) → I w → I (wait user_id id w)
  pub on_fence : (w : World S) → I w → I (run_fence user_id id w)
  pub on_call :
      (w : World S) (c : Call S)
      → Calm c
      → I w
      → I (record w { repository = step S w.repository c })
  pub on_promise : (w : World S) (r : ReviewRecord) → I w → w.fence ≡ fenced (ok (some r)) → P w r

-- The method leaves the state, or makes one step.
abbrev pub Steps :
    (S : Schemas)
    → (Repository S.ReviewResult
        → Result RepositoryError (Repository S.ReviewResult × Option ReviewRecord))
    → Type 0
Steps S method =
    (s t : Repository S.ReviewResult) (o : Option ReviewRecord)
    → method s ≡ ok (t, o)
    → (t ≡ s) ⊎ ((c : Call S) × Calm c × (step S s c ≡ t))

module _ {S : Schemas} (user_id id : String) (I : World S → Type 0)
    (P : World S → ReviewRecord → Type 0) (closed : Closed user_id id I P) where
  written :
      (w : World S) (t : Repository S.ReviewResult)
      → (t ≡ w.repository) ⊎ ((c : Call S) × Calm c × (step S w.repository c ≡ t))
      → I w
      → I (record w { repository = t })
  written w t (inl same) i = subst (λ u. I (record w { repository = u })) (sym same) i
  written w t (inr (c, calm, e)) i =
      subst (λ u. I (record w { repository = u })) e (closed.on_call w c calm i)

  returned-Good :
      (Q : World S → Option ReviewRecord → Type 0) (w : World S)
      (m : Result RepositoryError (Repository S.ReviewResult × Option ReviewRecord))
      → I w
      → ((t : Repository S.ReviewResult) (o : Option ReviewRecord)
          → m ≡ ok (t, o)
          → (t ≡ w.repository) ⊎ ((c : Call S) × Calm c × (step S w.repository c ≡ t)))
      → ((t : Repository S.ReviewResult) (o : Option ReviewRecord)
          → m ≡ ok (t, o)
          → I (record w { repository = t })
          → Q (wait user_id id (record w { repository = t })) o)
      → Good I Q (returned user_id id w m)
  unfolding returned
  returned-Good Q w (ok (t, o)) i steps sees =
      let next = written w t (steps t o refl) i in
      (closed.on_wait (record w { repository = t }) next, sees t o refl next)
  returned-Good Q w (err e) i steps sees = closed.on_wait w i

  -- A call keeps the property; what holds of its value must hold after the wait on the way back.
  pub call-Good :
      (Q : World S → Option ReviewRecord → Type 0)
      (method : Repository S.ReviewResult
        → Result RepositoryError (Repository S.ReviewResult × Option ReviewRecord))
      → Steps S method
      → ((w : World S) (t : Repository S.ReviewResult) (o : Option ReviewRecord)
          → I w
          → method w.repository ≡ ok (t, o)
          → I (record w { repository = t })
          → Q (wait user_id id (record w { repository = t })) o)
      → (w : World S) → I w
      → Good I Q (call user_id id method w)
  unfolding call
  call-Good Q method steps sees w i =
      let there = wait user_id id w in
      let i' = closed.on_wait w i in
      returned-Good Q there (method there.repository) i' (steps there.repository)
        (λ t o h next. sees there t o i' h next)

  promised-Good :
      (f : FencePromise) (w : World S)
      → w.fence ≡ f
      → I w
      → Good I (λ w' res. (r : ReviewRecord) → res ≡ ok (some r) → P w' r) (promised user_id id f w)
  unfolding promised
  promised-Good (fenced res) w e i = (i, λ r h. closed.on_promise w r i (e ∙ ap fenced h))
  promised-Good no_fence w e i = (i, λ r h. cc)
  promised-Good (fencing g) w e i = (i, λ r h. cc)

  wait_fence_of-Good :
      (f : FencePromise) (w : World S)
      → I w
      → Good I
          (λ w' res. (r : ReviewRecord) → res ≡ ok (some r) → P w' r)
          (wait_fence_of user_id id f w)
  unfolding wait_fence_of
  wait_fence_of-Good no_fence w i = (closed.on_wait w i, λ r h. cc)
  wait_fence_of-Good (fencing g) w i =
      let started = run_fence user_id id (wait user_id id w) in
      promised-Good started.fence started refl (closed.on_fence _ (closed.on_wait w i))
  wait_fence_of-Good (fenced res) w i =
      let started = run_fence user_id id (wait user_id id w) in
      promised-Good started.fence started refl (closed.on_fence _ (closed.on_wait w i))

  pub wait_fence-Good :
      (w : World S)
      → I w
      → Good I (λ w' res. (r : ReviewRecord) → res ≡ ok (some r) → P w' r) (wait_fence user_id id w)
  unfolding wait_fence
  wait_fence-Good w i = wait_fence_of-Good w.fence w i

module _ (S : Schemas) (user_id id : String) where
  pub transition_for_user-Steps :
      (x : ReviewStatusTransition) → Steps S (λ s. transition_for_user s user_id id x)
  unfolding step
  transition_for_user-Steps x s t o h = inr (transition_call user_id id x, tt, rw h refl)

  pub finalize_for_user-Steps :
      (execution : S.Execution) (now g : ℕ)
      → Steps S (λ s. finalize_for_user S s user_id id execution now g)
  unfolding step
  finalize_for_user-Steps execution now g s t o h =
      inr (finalize_call user_id id execution now g, tt, rw h refl)

  pub find_by_id_for_user-Steps : Steps S (reading user_id id)
  find_by_id_for_user-Steps s t o h = inl cc

-- A property that every event keeps, and that does not read the future, is kept by a wait.
module _ {S : Schemas} (user_id id : String) (I : World S → Type 0)
    (on_event : (w : World S) (e : Event S) → I w → I (happen user_id id w e))
    (on_future : (w : World S) (rest : List (List (Event S)))
      → I w
      → I (record w { future = rest })) where
  happen_all-keeps : (w : World S) (es : List (Event S)) → I w → I (happen_all user_id id w es)
  unfolding happen_all
  happen_all-keeps w [] i = i
  happen_all-keeps w (e ∷ es) i = happen_all-keeps (happen user_id id w e) es (on_event w e i)

  wait_for-keeps :
      (future : List (List (Event S))) (w : World S) → I w → I (wait_for user_id id future w)
  unfolding wait_for
  wait_for-keeps [] w i = i
  wait_for-keeps (es ∷ rest) w i =
      happen_all-keeps (record w { future = rest }) es (on_future w rest i)

  pub wait-keeps : (w : World S) → I w → I (wait user_id id w)
  unfolding wait
  wait-keeps w i = wait_for-keeps w.future w i
