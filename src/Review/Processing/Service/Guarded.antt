-- ===== src/Review/Processing/Service/Guarded.antt =====
-- review-processing.service.ts: what surrounds a run of the claim with generation `g`, and keeps what is
-- known of it, as long as no other call creates a review with the same id.
-- The counter of the generated ids is at least `m`, its value when the processing began.
use repo_mentor.Review.Repository.Returned.{fence_processing_for_user_returned}
use repo_mentor.Review.Repository.Writes.{fence_processing_for_user}
use repo_mentor.Review.Types.{ReviewRecord}
use repo_mentor.Review.Repository.{RepositoryError, Repository}
use repo_mentor.Review.Persistence.{Schemas}
use mathlib.Core.Path.{subst}
use repo_mentor.Prelude.{
  List, Option, Result, String, [], arith, err, if_elim, none, ok, refl, some, true, ℕ, ◌||◌, ◌∷◌,
  ◌≡◌, ◌≤◌,
}
use repo_mentor.Review.Repository.Calls.{
  Call, step, create_call, delete_call, delete_many_call, transition_call, finalize_call,
  fence_call,
}
use repo_mentor.Review.Repository.Evolution.{On, Lasting, Keeps, step-On}
use repo_mentor.Review.Repository.Sequence.{step_sequence}
use repo_mentor.Review.Repository.Claims.{Beyond, Beyond-Lasting, stored-Past}
use repo_mentor.Review.Processing.World.{
  World, Event, other_call, abort_event, lose_event, fence_event, tick_event, FencePromise,
  no_fence, fencing, fenced, happen, happen_all, wait, wait_for, lose, started_fence,
  start_if_needed, run_fence, run_fence_of, settle_fence,
}
use repo_mentor.Review.Processing.Service.Kept.{Calm, Closed}
use repo_mentor.Review.Processing.Service.Barred.{Reached, Reached-Lasting}

module _ (S : Schemas) (id : String) where
  -- A fence of this generation, which has ended the claim if it returned a review.
  abbrev pub FenceOk : ℕ → Repository S.ReviewResult → FencePromise → Type 0
  FenceOk g s (fencing h) = h ≡ g
  FenceOk g s (fenced (ok (some r))) = On (Beyond g) id s
  FenceOk g s _ = Unit

module _ (S : Schemas) (id : String) (m : ℕ) where
  -- Events among which no review with this id is created, by a call that meets a counter of at least `m`.
  abbrev pub Apart : Event S → Type 0
  Apart (other_call c) = (s : Repository S.ReviewResult) → m ≤ s.sequence → Keeps S id s c
  Apart _ = Unit

  abbrev pub AllApart : List (Event S) → Type 0
  AllApart [] = Unit
  AllApart (e ∷ es) = Apart e × AllApart es

  abbrev pub FutureApart : List (List (Event S)) → Type 0
  FutureApart [] = Unit
  FutureApart (es ∷ rest) = AllApart es × FutureApart rest

  pub record Guarded (g : ℕ) (J : ReviewRecord → Type 0) (w : World S) : Type 0 where
    pub apart : FutureApart w.future
    pub counted : m ≤ w.repository.sequence
    pub reached : On (Reached g) id w.repository
    pub also : On J id w.repository
    pub fence_ok : FenceOk S id g w.repository w.fence
    pub claims : w.claimed_generation ≡ some g

pub Calm-Keeps :
    (S : Schemas) (id : String) (c : Call S) (s : Repository S.ReviewResult)
    → Calm c
    → Keeps S id s c
Calm-Keeps S id (create_call input n) s calm = elim calm [ ]
Calm-Keeps S id (delete_call u i n) s calm = tt
Calm-Keeps S id (delete_many_call u i n) s calm = tt
Calm-Keeps S id (transition_call u i x) s calm = tt
Calm-Keeps S id (finalize_call u i e n g) s calm = tt
Calm-Keeps S id (fence_call u i n g) s calm = tt

module _ (S : Schemas) (user_id id : String) (m g : ℕ) (J : ReviewRecord → Type 0)
    (lasting : Lasting J) where
  abbrev G : World S → Type 0
  G = Guarded S id m g J

  step-FenceOk :
      (f : FencePromise) (s : Repository S.ReviewResult) (c : Call S)
      → Keeps S id s c
      → FenceOk S id g s f
      → FenceOk S id g (step S s c) f
  step-FenceOk (fencing h) s c k i = i
  step-FenceOk (fenced (ok (some r))) s c k i = step-On S id (Beyond g) (Beyond-Lasting g) s c k i
  step-FenceOk (fenced (ok none)) s c k i = tt
  step-FenceOk (fenced (err e)) s c k i = tt
  step-FenceOk no_fence s c k i = tt

  step-G :
      (w : World S) (c : Call S)
      → Keeps S id w.repository c
      → G w
      → G (record w { repository = step S w.repository c })
  step-G w c k i = record {
    apart = i.apart;
    counted = omega (arith, i.counted, step_sequence S w.repository c);
    reached = step-On S id (Reached g) (Reached-Lasting g) w.repository c k i.reached;
    also = step-On S id J lasting w.repository c k i.also;
    fence_ok = step-FenceOk w.fence w.repository c k i.fence_ok;
    claims = i.claims;
  }

  started_fence-FenceOk :
      (s : Repository S.ReviewResult) (c : Option ℕ) (f : FencePromise)
      → c ≡ some g
      → FenceOk S id g s f
      → FenceOk S id g s (started_fence true c f)
  unfolding started_fence
  started_fence-FenceOk s (some h) no_fence e i = cc
  started_fence-FenceOk s (some h) (fencing k) e i = i
  started_fence-FenceOk s (some h) (fenced r) e i = i
  started_fence-FenceOk s none f e i = i

  lose-G : (w : World S) → G w → G (lose user_id id w)
  unfolding lose start_if_needed
  lose-G w i =
      if_elim G (w.stopped || w.lost) _ _ (λ _. i)
        (λ _. record {
          apart = i.apart;
          counted = i.counted;
          reached = i.reached;
          also = i.also;
          fence_ok =
              started_fence-FenceOk w.repository w.claimed_generation w.fence i.claims i.fence_ok;
          claims = i.claims;
        })

  fenced-On :
      (K : ReviewRecord → Type 0) (s t : Repository S.ReviewResult) (now : ℕ)
      (o : Option ReviewRecord)
      → Lasting K
      → fence_processing_for_user s user_id id now g ≡ ok (t, o)
      → On K id s
      → On K id t
  unfolding step
  fenced-On K s t now o lasts h on =
      let e : step S s (fence_call user_id id now g) ≡ t = rw h refl in
      subst (On K id) e (step-On S id K lasts s (fence_call user_id id now g) tt on)

  fenced_sequence :
      (s t : Repository S.ReviewResult) (now : ℕ) (o : Option ReviewRecord)
      → fence_processing_for_user s user_id id now g ≡ ok (t, o)
      → m ≤ s.sequence
      → m ≤ t.sequence
  unfolding step
  fenced_sequence s t now o h counted =
      let e : step S s (fence_call user_id id now g) ≡ t = rw h refl in
      let grown = step_sequence S s (fence_call user_id id now g) in
      subst (λ (q : Repository S.ReviewResult). m ≤ q.sequence) e (omega (arith, grown, counted))

  fenced-Past :
      (s t : Repository S.ReviewResult) (now : ℕ) (r : ReviewRecord)
      → fence_processing_for_user s user_id id now g ≡ ok (t, some r)
      → On (Beyond g) id t
  fenced-Past s t now r h =
      let (old, found, claimed, same, stored) =
        fence_processing_for_user_returned s t user_id id r now g h in
      stored-Past S g id s t r stored (rw (← same) (omega (arith, claimed.generation)))
        (λ working. cc)

  settle_fence-G :
      (w : World S) (m : Result RepositoryError (Repository S.ReviewResult × Option ReviewRecord))
      → fence_processing_for_user w.repository user_id id w.now g ≡ m
      → G w
      → G (settle_fence user_id id w m)
  unfolding settle_fence
  settle_fence-G w (err e) h i = record {
    apart = i.apart;
    counted = i.counted;
    reached = i.reached;
    also = i.also;
    fence_ok = tt;
    claims = i.claims;
  }
  settle_fence-G w (ok (t, none)) h i = record {
    apart = i.apart;
    counted = fenced_sequence w.repository t w.now none h i.counted;
    reached = fenced-On (Reached g) w.repository t w.now none (Reached-Lasting g) h i.reached;
    also = fenced-On J w.repository t w.now none lasting h i.also;
    fence_ok = tt;
    claims = i.claims;
  }
  settle_fence-G w (ok (t, some r)) h i = record {
    apart = i.apart;
    counted = fenced_sequence w.repository t w.now (some r) h i.counted;
    reached = fenced-On (Reached g) w.repository t w.now (some r) (Reached-Lasting g) h i.reached;
    also = fenced-On J w.repository t w.now (some r) lasting h i.also;
    fence_ok = fenced-Past w.repository t w.now r h;
    claims = i.claims;
  }

  run_fence_of-G :
      (f : FencePromise) (w : World S) → w.fence ≡ f → G w → G (run_fence_of user_id id f w)
  unfolding run_fence_of
  run_fence_of-G (fencing h) w e i =
      let same : h ≡ g = subst (FenceOk S id g w.repository) e i.fence_ok in
      settle_fence-G w (fence_processing_for_user w.repository user_id id w.now h) (rw same refl) i
  run_fence_of-G no_fence w e i = i
  run_fence_of-G (fenced r) w e i = i

  run_fence-G : (w : World S) → G w → G (run_fence user_id id w)
  unfolding run_fence
  run_fence-G w i = run_fence_of-G w.fence w refl i

  happen-G : (w : World S) (e : Event S) → Apart S id m e → G w → G (happen user_id id w e)
  unfolding happen
  happen-G w (other_call c) k i = step-G w c (k w.repository i.counted) i
  happen-G w abort_event k i = record {
    apart = i.apart;
    counted = i.counted;
    reached = i.reached;
    also = i.also;
    fence_ok = i.fence_ok;
    claims = i.claims;
  }
  happen-G w lose_event k i = lose-G w i
  happen-G w fence_event k i = run_fence-G w i
  happen-G w (tick_event n) k i = record {
    apart = i.apart;
    counted = i.counted;
    reached = i.reached;
    also = i.also;
    fence_ok = i.fence_ok;
    claims = i.claims;
  }

  happen_all-G :
      (w : World S) (es : List (Event S))
      → AllApart S id m es
      → G w
      → G (happen_all user_id id w es)
  unfolding happen_all
  happen_all-G w [] k i = i
  happen_all-G w (e ∷ es) k i = happen_all-G (happen user_id id w e) es k.1 (happen-G w e k.0 i)

  wait_for-G :
      (future : List (List (Event S))) (w : World S)
      → FutureApart S id m future
      → G w
      → G (wait_for user_id id future w)
  unfolding wait_for
  wait_for-G [] w k i = i
  wait_for-G (es ∷ rest) w k i =
      happen_all-G (record w { future = rest }) es k.0
        (record {
          apart = k.1;
          counted = i.counted;
          reached = i.reached;
          also = i.also;
          fence_ok = i.fence_ok;
          claims = i.claims;
        })

  pub wait-G : (w : World S) → G w → G (wait user_id id w)
  unfolding wait
  wait-G w i = wait_for-G w.future w i.apart i

  pub guarded : Closed user_id id G (λ w r. On (Beyond g) id w.repository)
  guarded = record {
    on_wait = wait-G;
    on_fence = run_fence-G;
    on_call = λ w c calm i. step-G w c (Calm-Keeps S id c w.repository calm) i;
    on_promise = λ w r i e. subst (FenceOk S id g w.repository) e i.fence_ok;
  }
