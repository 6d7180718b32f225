-- ===== src/Review/Repository/Log.antt =====
-- What the readers of events and results return in a valid repository.
use repo_mentor.Prelude.{
  List, Option, String, [], and_parts, ap, arith, drop, eq_of_beq, false, filter, inl, inr, is_some,
  last?, ltb, nat_eq, none, option_eq, refl, some, string_eq, suc, take, true, zero, ℕ, ◌&&◌, ◌+◌,
  ◌<◌, ◌==◌, ◌↔◌, ◌∙◌, ◌∷◌, ◌≡◌,
}
use repo_mentor.Dict
use repo_mentor.Review.Types.{status_eq, completed, ReviewRecord, ReviewEventRecord}
use repo_mentor.Review.Persistence.{ReviewResultRecord}
use repo_mentor.Review.Repository.{
  with_review-some, Repository, is_visible, with_review-cases, find_by_id_for_user,
}
use repo_mentor.Review.Repository.Writes.{
  list_events_for_user, latest_event_for_user, find_result_for_user,
}
use repo_mentor.Review.Repository.Guards.{is_visible-Visible}
use repo_mentor.Review.Repository.Invariant.{IsValid, Numbered, log_of}

module _ {R : Type 0} (s : Repository R) (user_id id : String) where
  -- A review that is found for a user is stored, belongs to that user and is not deleted.
  pub find_by_id-some :
      (r : ReviewRecord)
      → find_by_id_for_user s user_id id ≡ some r
      → (Dict.get id s.reviews ≡ some r) × (is_visible user_id r ≡ true)
  unfolding find_by_id_for_user
  find_by_id-some r h =
      elim (with_review-cases (Dict.get id s.reviews) (is_visible user_id) none some) [
        | inl missing ↦ cc
        | inr (q, found, seen, e) ↦ let same : q ≡ r = cc in rw (← same) (found, seen)
      ]

abbrev after : ℕ → List ReviewEventRecord → List ReviewEventRecord
after m = filter (λ (e : ReviewEventRecord). ltb m e.sequence)

after_all : (m n : ℕ) (es : List ReviewEventRecord) → m < n → Numbered n es → after m es ≡ es
after_all m n [] lt h = refl
after_all m n (e ∷ es) lt h =
    let kept : ltb m e.sequence ≡ true = ground arith in
    rw (kept, after_all m (suc n) es (omega arith) h.1) refl

after-drop :
    (m n k : ℕ) (es : List ReviewEventRecord)
    → m + 1 ≡ n + k
    → Numbered n es
    → after m es ≡ drop k es
after-drop m n zero es e h = after_all m n es (omega arith) h
after-drop m n (suc k) [] e h = refl
after-drop m n (suc k) (x ∷ es) e h =
    let skipped : ltb m x.sequence ≡ false = ground arith in
    rw skipped (after-drop m (suc n) k es (omega arith) h.1)

module _ {R : Type 0} (s : Repository R) (user_id id : String) (r : ReviewRecord) where
  -- In a valid repository, for a review that the user finds, listing after sequence `m` with a limit
  -- gives exactly the next `limit` events of the stored log, so that no event is skipped or repeated
  -- when a reader resumes from the last sequence that it saw.
  pub list_events-eq-take-drop :
      (m limit : ℕ)
      → IsValid s
      → find_by_id_for_user s user_id id ≡ some r
      → list_events_for_user s user_id id m limit ≡ take limit (drop m (log_of s id))
  unfolding list_events_for_user
  list_events-eq-take-drop m limit v h =
      let (found, seen) = find_by_id-some s user_id id r h in
      with_review-some {B = List ReviewEventRecord} (is_visible user_id) []
        (λ review. take limit (after m (log_of s id))) found seen
      ∙ ap (take limit) (after-drop m 1 m (log_of s id) (omega arith) (v id r found).numbered)

  -- In a valid repository, for a review that the user finds, the latest event exists, and it shows that
  -- review's status, generation and id.
  pub latest_event-shows :
      IsValid s
      → find_by_id_for_user s user_id id ≡ some r
      → (e : ReviewEventRecord) × (latest_event_for_user s user_id id ≡ some e)
        × (e.status ≡ r.status)
        × (e.generation ≡ r.processing_generation)
        × (e.review_id ≡ id)
  unfolding latest_event_for_user
  latest_event-shows v h =
      let (found, seen) = find_by_id-some s user_id id r h in
      let entry = v id r found in
      let (e, last, status, generation, of_review) = entry.shown in
      (
        e,
        with_review-some {B = Option ReviewEventRecord} (is_visible user_id) none
              (λ review. last? (log_of s id)) found seen
            ∙ last,
        status,
        generation,
        of_review ∙ entry.same_id,
      )

-- In a valid repository a user finds a result for an id exactly when the stored review of that id is the
-- user's, not deleted and completed; where no review of that id is stored, none is found.
pub find_result_iff :
    {R : Type 0} (s : Repository R) (user_id id : String)
    → IsValid s
    → (is_some (find_result_for_user s user_id id) ≡ true) ↔ (
        (r : ReviewRecord) × (Dict.get id s.reviews ≡ some r)
        × (r.user_id ≡ user_id)
        × (r.deleted_at ≡ none)
        × (r.status ≡ completed))
unfolding find_result_for_user is_visible
find_result_iff {R} s user_id id v =
    let test = λ (review : ReviewRecord). is_visible user_id review && review.status == completed in
    (
      λ shown.
          elim (with_review-cases (Dict.get id s.reviews) test none
            (λ review. Dict.get id s.results)) [
              | inl missing ↦ cc (rw missing at shown)
              | inr (r, found, passed, e) ↦
                  let (seen, done) =
                    and_parts (is_visible user_id r) (r.status == completed) passed in
                  let visible = is_visible-Visible user_id r seen in
                  (r, found, visible.owner, visible.live, eq_of_beq r.status completed done)
            ],
      λ (r, found, owner, live, done).
          let passed : test r ≡ true =
            rw (owner, live, done, (string_eq.beq_iff user_id user_id).1 refl) refl in
          rw
            (with_review-some {B = Option (ReviewResultRecord R)} test none
              (λ review. Dict.get id s.results) found passed)
            ((v id r found).has_result done),
    )
