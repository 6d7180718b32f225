-- ===== src/Review/Repository/Preserve.antt =====
-- The methods keep the invariant.
use repo_mentor.Review.Repository.Branches.{commit-ok, soft_delete-cases}
use repo_mentor.Dict.{Dict}
use repo_mentor.Review.Repository.Writes.{
  deleted_review, soft_delete_for_user, soft_delete_each, commit, store_review,
}
use repo_mentor.Prelude.{
  Bool, List, Option, String, [], arith, false, get_or, if◌then◌else◌, inl, inr, is_some,
  last?-append, length, length-append, nat_eq, ok, option_eq, refl, some, string_eq, suc, true, ℕ,
  ◌++◌, ◌+◌, ◌==◌, ◌∙◌, ◌∷◌, ◌≡◌, ◌≢◌, ◌≤◌,
}
use repo_mentor.Dict
use repo_mentor.Dict.Laws.{get-set_ne, get-set_self}
use repo_mentor.Review.Types.{
  completed, ReviewRecord, ReviewEventRecord, max_processing_generation, max_event_sequence,
}
use repo_mentor.Review.Repository.{
  generated_id, next_id_sequence, new_review, initial_event, insert_review, CreateReviewInput,
  create, ReviewResultRecord, Repository, lifecycle_event, next_sequence, appended,
}
use repo_mentor.Review.Repository.Invariant.{
  IsValid-update, IsValid, Numbered, HasLog, Logged, log_of, Numbered-append,
}

-- A log with one more event, which shows the review.
HasLog-append :
    (r : ReviewRecord) (retryable : Option Bool) (log : List ReviewEventRecord) (has : Bool)
    → r.processing_generation ≤ max_processing_generation
    → Numbered 1 log
    → suc (length log) ≤ max_event_sequence
    → (r.status ≡ completed → has ≡ true)
    → HasLog r.id r
        (log ++ lifecycle_event r retryable (suc (length log)) ∷ [])
        (some (suc (length log)))
        has
unfolding lifecycle_event
HasLog-append r retryable log has g numbered room res =
    let event = lifecycle_event r retryable (suc (length log)) in
    let longer : length (log ++ event ∷ []) ≡ suc (length log) =
      omega (arith, length-append log (event ∷ [])) in
    record {
      same_id = refl;
      generation_bounded = g;
      numbered = Numbered-append 1 log event numbered (omega arith);
      counted = cc;
      bounded = rw longer room;
      shown = (event, last?-append log event, refl, refl, refl);
      has_result = res;
    }

initial-HasLog :
    (r : ReviewRecord) (has : Bool)
    → r.processing_generation ≤ max_processing_generation
    → r.status ≢ completed
    → HasLog r.id r (initial_event r ∷ []) (some 1) has
unfolding initial_event
initial-HasLog r has g unfinished = record {
  same_id = refl;
  generation_bounded = g;
  numbered = (refl, tt);
  counted = refl;
  bounded = omega arith;
  shown = (initial_event r, refl, refl, refl, refl);
  has_result = λ e. absurd (unfinished e);
}

module _ {R : Type 0} where
  next_sequence_lem :
      (s : Repository R) (id : String) (n : ℕ)
      → Dict.get id s.event_sequences ≡ some n
      → next_sequence s id ≡ suc n
  unfolding next_sequence
  next_sequence_lem s id n h = rw h (omega arith)

  -- The log of the review itself after an event is appended.
  appended-Logged :
      (s : Repository R) (old r : ReviewRecord) (retryable : Option Bool) (has : Bool)
      → r.processing_generation ≤ max_processing_generation
      → (r.status ≡ completed → has ≡ true)
      → next_sequence s r.id ≤ max_event_sequence
      → Logged s r.id old
      → let t = appended s r retryable in
        HasLog r.id r (log_of t r.id) (Dict.get r.id t.event_sequences) has
  unfolding appended
  appended-Logged s old r retryable has g res room v =
      let counted : next_sequence s r.id ≡ suc (length (log_of s r.id)) =
        next_sequence_lem s r.id (length (log_of s r.id)) v.counted in
      rw (get-set_self r.id (next_sequence s r.id) s.event_sequences) (
        rw
          (get-set_self r.id
            (log_of s r.id ++ lifecycle_event r retryable (next_sequence s r.id) ∷ []) s.events)
          (rw counted
            (HasLog-append r retryable (log_of s r.id) has g v.numbered (omega arith) res)))

  -- How a transition, a fence and a finalization end: an event is appended, and the review is
  -- stored beside results that differ at its own id only.
  pub store-IsValid :
      (s : Repository R) (old r : ReviewRecord) (retryable : Option Bool)
      (results : Dict (ReviewResultRecord R))
      → ((j : String) → (r.id == j) ≡ false → Dict.get j results ≡ Dict.get j s.results)
      → (r.status ≡ completed → is_some (Dict.get r.id results) ≡ true)
      → r.processing_generation ≤ max_processing_generation
      → next_sequence s r.id ≤ max_event_sequence
      → Dict.get r.id s.reviews ≡ some old
      → IsValid s
      → IsValid (store_review (record (appended s r retryable) { results = results }) r.id r)
  unfolding appended store_review
  store-IsValid s old r retryable results kept res g room found v =
      IsValid-update s (store_review (record (appended s r retryable) { results = results }) r.id r)
        r.id r refl
        (λ j ne.
          (get-set_ne r.id j _ s.events ne, get-set_ne r.id j _ s.event_sequences ne, kept j ne))
        (appended-Logged s old r retryable (is_some (Dict.get r.id results)) g res room
          (v r.id old found))
        v

  pub commit-IsValid :
      (s : Repository R) (id : String) (old r : ReviewRecord) (retryable : Option Bool)
      (t : Repository R) (o : Option ReviewRecord)
      → IsValid s
      → Dict.get id s.reviews ≡ some old
      → r.id ≡ old.id
      → r.processing_generation ≤ max_processing_generation
      → r.status ≢ completed
      → commit s id r retryable ≡ ok (t, o)
      → IsValid t
  unfolding appended
  commit-IsValid s id old r retryable t o v found same g unfinished h =
      let (shape, _, room) = commit-ok s id r retryable t o h in
      let here : r.id ≡ id = same ∙ (v id old found).same_id in
      let kept : IsValid (store_review (appended s r retryable) r.id r) =
        store-IsValid s old r retryable s.results (λ j ne. refl) (λ e. absurd (unfinished e)) g room
          (rw here found) v in
      rw (shape, ← here) kept

  deleted-Logged :
      (s : Repository R) (id : String) (now : ℕ) (r : ReviewRecord)
      → Logged s id r
      → Logged (store_review s id (deleted_review now r)) id (deleted_review now r)
  unfolding store_review deleted_review
  deleted-Logged s id now r v = record {
    same_id = v.same_id;
    generation_bounded = v.generation_bounded;
    numbered = v.numbered;
    counted = v.counted;
    bounded = v.bounded;
    shown = v.shown;
    has_result = v.has_result;
  }

  pub soft_delete-IsValid :
      (s : Repository R) (user_id id : String) (now : ℕ)
      → IsValid s
      → IsValid (soft_delete_for_user s user_id id now).0
  unfolding store_review deleted_review
  soft_delete-IsValid s user_id id now v = elim (soft_delete-cases s user_id id now) [
    | inl same ↦ rw same v
    | inr (review, found, _, written) ↦ rw written (
        IsValid-update s (store_review s id (deleted_review now review)) id
          (deleted_review now review) refl (λ j ne. (refl, refl, refl))
          (deleted-Logged s id now review (v id review found)) v)
  ]

  pub soft_delete_each-IsValid :
      (s : Repository R) (user_id : String) (ids : List String) (now count : ℕ)
      → IsValid s
      → IsValid (soft_delete_each s user_id ids now count).0
  unfolding soft_delete_each
  soft_delete_each-IsValid s user_id [] now count v = v
  soft_delete_each-IsValid s user_id (id ∷ ids) now count v =
      let (s', deleted) = soft_delete_for_user s user_id id now in
      soft_delete_each-IsValid s' user_id ids now (if deleted then count + 1 else count)
        (soft_delete-IsValid s user_id id now v)

  insert-IsValid :
      (s : Repository R) (r : ReviewRecord)
      → r.processing_generation ≤ max_processing_generation
      → r.status ≢ completed
      → IsValid s
      → IsValid (insert_review s r)
  unfolding insert_review
  insert-IsValid s r g unfinished v =
      IsValid-update s (insert_review s r) r.id r refl
        (λ j ne. (get-set_ne r.id j _ s.events ne, get-set_ne r.id j _ s.event_sequences ne, refl))
        (rw (get-set_self r.id 1 s.event_sequences) (
          rw (get-set_self r.id (initial_event r ∷ []) s.events)
            (initial-HasLog r (is_some (Dict.get r.id s.results)) g unfinished)))
        v

  pub create-IsValid :
      (s : Repository R) (input : CreateReviewInput) (now : ℕ)
      → IsValid s
      → IsValid (create s input now).0
  unfolding create new_review
  create-IsValid s input now v =
      let sequence = next_id_sequence s.sequence input.id in
      insert-IsValid (record s { sequence = sequence })
        (new_review input (get_or input.id (generated_id sequence)) now) (omega arith) (λ e. cc) v
