-- ===== src/Review/Processing/Service/Waiting.antt =====
-- review-processing.service.ts: what surrounds a processing that has made no claim yet.
use repo_mentor.Dict.Laws.{get-set_self}
use repo_mentor.Review.Repository.Returned.{transition_for_user_returned}
use repo_mentor.Review.Repository.{Repository}
use mathlib.Core.Path.{subst}
use repo_mentor.Prelude.{
  List, Option, String, [], arith, if_elim, none, ok, refl, some, sym, ℕ, ◌||◌, ◌∷◌, ◌≡◌, ◌≤◌,
}
use repo_mentor.Review.Repository.Sequence.{step_sequence}
use repo_mentor.Dict
use repo_mentor.Review.Types.{
  ReviewStatusTransition, pending, processing, completed, failed, cancelled,
}
use repo_mentor.Review.Policy
use repo_mentor.Review.Policy.{create_processing_transition}
use repo_mentor.Review.Repository.Calls.{Call, step}
use repo_mentor.Review.Repository.Evolution.{On, Lasting, Keeps, step-On}
use repo_mentor.Review.Processing.{
  ReviewStatus, ReviewRecord, claimed, classify_by, classify_non_claimed, ReviewProcessingClaim,
}
use repo_mentor.Review.Processing.World.{
  World, Event, other_call, abort_event, lose_event, fence_event, tick_event, no_fence, happen,
  happen_all, wait, wait_for, lose, started_fence, start_if_needed, run_fence, run_fence_of, call,
  lift, find_current_or_throw,
}
use repo_mentor.Review.Processing.Triple.{Good, Good-bind_result, Good-lift, Lifted}
use repo_mentor.Review.Processing.Service.{
  transition_for_user, Schemas, claim, claim_by, claim_returned,
}
use repo_mentor.Review.Processing.Service.Kept.{Closed, call-Good, transition_for_user-Steps}
use repo_mentor.Review.Processing.Service.Anyhow.{find_current_or_throw-Any}
use repo_mentor.Review.Processing.Service.Barred.{Reached, Reached-Lasting}
use repo_mentor.Review.Processing.Service.Guarded.{Apart, AllApart, FutureApart, Calm-Keeps}

module _ (S : Schemas) (id : String) (m : ℕ) where
  pub record Waiting (J : ReviewRecord → Type 0) (w : World S) : Type 0 where
    pub apart : FutureApart S id m w.future
    pub counted : m ≤ w.repository.sequence
    pub also : On J id w.repository
    pub unclaimed : w.claimed_generation ≡ none
    pub unfenced : w.fence ≡ no_fence

module _ (S : Schemas) (user_id id : String) (m : ℕ) (J : ReviewRecord → Type 0)
    (lasting : Lasting J) where
  abbrev W : World S → Type 0
  W = Waiting S id m J

  step-W :
      (w : World S) (c : Call S)
      → Keeps S id w.repository c
      → W w
      → W (record w { repository = step S w.repository c })
  step-W w c k i = record {
    apart = i.apart;
    counted = omega (arith, i.counted, step_sequence S w.repository c);
    also = step-On S id J lasting w.repository c k i.also;
    unclaimed = i.unclaimed;
    unfenced = i.unfenced;
  }

  lose-W : (w : World S) → W w → W (lose user_id id w)
  unfolding lose start_if_needed started_fence
  lose-W w i =
      if_elim W (w.stopped || w.lost) _ _ (λ _. i)
        (λ _. record {
          apart = i.apart;
          counted = i.counted;
          also = i.also;
          unclaimed = i.unclaimed;
          unfenced = rw (i.unclaimed, i.unfenced) refl;
        })

  run_fence-W : (w : World S) → W w → W (run_fence user_id id w)
  unfolding run_fence run_fence_of
  run_fence-W w i = subst (λ f. W (run_fence_of user_id id f w)) (sym i.unfenced) i

  happen-W : (w : World S) (e : Event S) → Apart S id m e → W w → W (happen user_id id w e)
  unfolding happen
  happen-W w (other_call c) k i = step-W w c (k w.repository i.counted) i
  happen-W w abort_event k i = record {
    apart = i.apart;
    counted = i.counted;
    also = i.also;
    unclaimed = i.unclaimed;
    unfenced = i.unfenced;
  }
  happen-W w lose_event k i = lose-W w i
  happen-W w fence_event k i = run_fence-W w i
  happen-W w (tick_event n) k i = record {
    apart = i.apart;
    counted = i.counted;
    also = i.also;
    unclaimed = i.unclaimed;
    unfenced = i.unfenced;
  }

  happen_all-W :
      (w : World S) (es : List (Event S))
      → AllApart S id m es
      → W w
      → W (happen_all user_id id w es)
  unfolding happen_all
  happen_all-W w [] k i = i
  happen_all-W w (e ∷ es) k i = happen_all-W (happen user_id id w e) es k.1 (happen-W w e k.0 i)

  wait_for-W :
      (future : List (List (Event S))) (w : World S)
      → FutureApart S id m future
      → W w
      → W (wait_for user_id id future w)
  unfolding wait_for
  wait_for-W [] w k i = i
  wait_for-W (es ∷ rest) w k i =
      happen_all-W (record w { future = rest }) es k.0
        (record {
          apart = k.1;
          counted = i.counted;
          also = i.also;
          unclaimed = i.unclaimed;
          unfenced = i.unfenced;
        })

  pub wait-W : (w : World S) → W w → W (wait user_id id w)
  unfolding wait
  wait-W w i = wait_for-W w.future w i.apart i

  pub waiting : Closed user_id id W (λ w r. Unit)
  waiting = record {
    on_wait = wait-W;
    on_fence = run_fence-W;
    on_call = λ w c calm i. step-W w c (Calm-Keeps S id c w.repository calm) i;
    on_promise = λ w r i e. tt;
  }

module _ (S : Schemas) (user_id id : String) (m : ℕ) where
  abbrev None : ReviewRecord → Type 0
  None r = Unit

  abbrev pub I : World S → Type 0
  I = Waiting S id m None

  -- A claim that is made is of a generation that the stored review has reached.
  abbrev pub ClaimReached : World S → ReviewProcessingClaim → Type 0
  ClaimReached w (claimed g r) = On (Reached g) id w.repository
  ClaimReached w _ = Unit

  unclaimed-Reached :
      (w : World S) (status : ReviewStatus) (r : ReviewRecord)
      → Lifted (ClaimReached w) (classify_by status r)
  unfolding classify_by
  unclaimed-Reached w pending r = tt
  unclaimed-Reached w processing r = tt
  unclaimed-Reached w completed r = tt
  unclaimed-Reached w failed r = tt
  unclaimed-Reached w cancelled r = tt

  claim_by-Reached :
      (w : World S) (status : ReviewStatus) (r : ReviewRecord)
      → On (Reached r.processing_generation) id w.repository
      → Lifted (ClaimReached w) (claim_by status r)
  unfolding claim_by classify_non_claimed
  claim_by-Reached w processing r on = on
  claim_by-Reached w pending r on = unclaimed-Reached w r.status r
  claim_by-Reached w completed r on = unclaimed-Reached w r.status r
  claim_by-Reached w failed r on = unclaimed-Reached w r.status r
  claim_by-Reached w cancelled r on = unclaimed-Reached w r.status r

  abbrev V : World S → Option ReviewRecord → Type 0
  V w none = Unit
  V w (some r) = On (Reached r.processing_generation) id w.repository

  claim_returned-Reached :
      (o : Option ReviewRecord) (w : World S)
      → I w
      → V w o
      → Good I ClaimReached (claim_returned user_id id o w)
  unfolding claim_returned classify_non_claimed
  claim_returned-Reached (some r) w i v =
      Good-lift I ClaimReached _ w i (claim_by-Reached w r.status r v)
  claim_returned-Reached none w i v =
      Good-bind_result I (λ w' r. Unit) ClaimReached (λ r. lift (classify_non_claimed r))
        (find_current_or_throw user_id id w)
        (find_current_or_throw-Any user_id id I _ (waiting S user_id id m None (λ r r' e u. tt)) w
          i)
        (λ w' r i' u. Good-lift I ClaimReached _ w' i' (unclaimed-Reached w' r.status r))

  stored-V :
      (w : World S) (t : Repository S.ReviewResult) (x : ReviewStatusTransition)
      (o : Option ReviewRecord)
      → transition_for_user w.repository user_id id x ≡ ok (t, o)
      → I (record w { repository = t })
      → V (wait user_id id (record w { repository = t })) o
  stored-V w t x none h next = tt
  stored-V w t x (some r) h next =
      let (old, found, allowed, same, stored) =
        transition_for_user_returned w.repository t user_id id r x h in
      let here : On (Reached r.processing_generation) id t = λ q found'.
        let at_id : Dict.get id t.reviews ≡ some r = rw (stored, get-set_self) refl in
        let e : r ≡ q = cc in rw e (omega arith) in
      (wait-W S user_id id m (Reached r.processing_generation)
        (Reached-Lasting r.processing_generation) (record w { repository = t })
        (record {
          apart = next.apart;
          counted = next.counted;
          also = here;
          unclaimed = next.unclaimed;
          unfenced = next.unfenced;
        })).also

  pub claim-Reached : (w : World S) → I w → Good I ClaimReached (claim user_id id w)
  unfolding claim
  claim-Reached w i =
      let x = create_processing_transition Policy.claim w.now none none in
      Good-bind_result I V ClaimReached (claim_returned user_id id)
        (call user_id id (λ s. transition_for_user s user_id id x) w)
        (call-Good user_id id I _ (waiting S user_id id m None (λ r r' e u. tt)) V
          (λ s. transition_for_user s user_id id x) (transition_for_user-Steps S user_id id x)
          (λ w' t o i' h next. stored-V w' t x o h next) w i)
        (λ w' o i' v. claim_returned-Reached o w' i' v)
