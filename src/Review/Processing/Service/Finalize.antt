-- ===== src/Review/Processing/Service/Finalize.antt =====
-- review-processing.service.ts: the shape that `complete`, `fail` and `cancel` share, and `findCurrentOrThrow`.
use repo_mentor.Review.Repository.{Repository}
use repo_mentor.Prelude.{Option, Result, String, none, ok, refl, some, ◌≡◌}
use repo_mentor.Review.Processing.World.{
  World, ◌>>=◌, reading, call, find_current_or_throw, found_or_throw, wait,
}
use repo_mentor.Review.Processing.Triple.{Good, Good-bind_result, Good-lift, Each, Lifted}
use repo_mentor.Review.Processing.Service.{
  lift, RepositoryError, BoundaryErrorCode, ReviewStatus, ReviewProcessingOutcome, ReviewRecord,
  Schemas, or_reread, when_returned,
}
use repo_mentor.Review.Processing.Service.Kept.{Closed, Steps, call-Good, find_by_id_for_user-Steps}

module _ {S : Schemas} (user_id id : String) (I : World S → Type 0)
    (P : World S → ReviewRecord → Type 0) (closed : Closed user_id id I P) where
  found_or_throw-Good :
      (V : World S → ReviewRecord → Type 0) (o : Option ReviewRecord) (w : World S)
      → I w
      → Each (V w) o
      → Good I V (found_or_throw user_id id o w)
  unfolding found_or_throw
  found_or_throw-Good V none w i v = i
  found_or_throw-Good V (some r) w i v = (i, v)

  pub find_current_or_throw-Good :
      (V : World S → ReviewRecord → Type 0)
      → ((w : World S) (t : Repository S.ReviewResult) (o : Option ReviewRecord)
          → I w
          → reading user_id id w.repository ≡ ok (t, o)
          → I (record w { repository = t })
          → Each (V (wait user_id id (record w { repository = t }))) o)
      → (w : World S) → I w
      → Good I V (find_current_or_throw user_id id w)
  unfolding find_current_or_throw
  find_current_or_throw-Good V sees w i =
      Good-bind_result I (λ w'. Each (V w')) V (found_or_throw user_id id)
        (call user_id id (reading user_id id) w)
        (call-Good user_id id I P closed (λ w'. Each (V w')) (reading user_id id)
          (find_by_id_for_user-Steps S user_id id) sees w i)
        (λ w' o i' v. found_or_throw-Good V o w' i' v)

  module _ (Q : World S → ReviewProcessingOutcome S.Execution → Type 0)
      (by : ReviewStatus → ReviewRecord → Option (ReviewProcessingOutcome S.Execution))
      (reread : ReviewStatus
        → ReviewRecord
        → Result BoundaryErrorCode (ReviewProcessingOutcome S.Execution)) where
    or_reread-Good :
        (o : Option (ReviewProcessingOutcome S.Execution)) (w : World S)
        → I w
        → Each (Q w) o
        → (o ≡ none
            → Good I
                (λ w' r. Lifted (Q w') (reread r.status r))
                (find_current_or_throw user_id id w))
        → Good I Q (or_reread user_id id reread o w)
    unfolding or_reread
    or_reread-Good (some o) w i q again = (i, q)
    or_reread-Good none w i q again =
        Good-bind_result I (λ w' r. Lifted (Q w') (reread r.status r)) Q
          (λ r. lift (reread r.status r)) (find_current_or_throw user_id id w) (again refl)
          (λ w' r i' v. Good-lift I Q (reread r.status r) w' i' v)

    -- A call, and the outcome by what it returned or by the review read again.
    pub finalization-Good :
        (V : World S → Option ReviewRecord → Type 0)
        (method : Repository S.ReviewResult
          → Result RepositoryError (Repository S.ReviewResult × Option ReviewRecord))
        → Steps S method
        → ((w : World S) (t : Repository S.ReviewResult) (o : Option ReviewRecord)
            → I w
            → method w.repository ≡ ok (t, o)
            → I (record w { repository = t })
            → V (wait user_id id (record w { repository = t })) o)
        → ((w : World S) (o : Option ReviewRecord) → V w o → Each (Q w) (when_returned by o))
        → ((w : World S) (o : Option ReviewRecord)
            → I w
            → V w o
            → when_returned by o ≡ none
            → Good I
                (λ w' r. Lifted (Q w') (reread r.status r))
                (find_current_or_throw user_id id w))
        → (w : World S) → I w
        → Good I Q
            ((call user_id id method >>= λ o. or_reread user_id id reread (when_returned by o)) w)
    finalization-Good V method steps sees returns again w i =
        Good-bind_result I V Q (λ o. or_reread user_id id reread (when_returned by o))
          (call user_id id method w) (call-Good user_id id I P closed V method steps sees w i)
          (λ w' o i' v.
            or_reread-Good (when_returned by o) w' i' (returns w' o v) (again w' o i' v))
