-- ===== src/Usage/Finalizer/Consistency.antt =====
-- An ADMITTED admission has its review.
use repo_mentor.Prelude.{
  Bool-cases, List, Option, Result, String, [], inl, inr, nat_eq, option_eq, refl, some, string_eq,
  sym, ◌==◌, ◌∙◌, ◌∷◌, ◌≡◌, ◌≢◌,
}
use repo_mentor.Dict
use repo_mentor.Dict.Laws.{get-set, get-set_self}
use repo_mentor.Usage.Admission.{QuotaAdmissionStatus, reserved, admitted, denied}
use repo_mentor.Usage.Finalizer.{
  Finalizer, FinalizeReviewInput, ReviewFinalizerError, ReviewFinalizerResult,
  ReviewFinalizerAdmissionRow, finalize, new_review, StoredReview, SeedAdmission, seed_admission,
  new_finalizer,
}
use repo_mentor.Usage.Finalizer.Effects.{
  written, Wrote, Effect, thrown, replaying, writing, finalize-Effect, checked_admission-ok,
}
use repo_mentor.Usage.Finalizer.Laws.{written-Persists}

-- Every ADMITTED admission has a stored review with its review id and its user.
pub record IsConsistent (s : Finalizer) : Type 0 where
  pub admitted_review :
      (k : String) (a : ReviewFinalizerAdmissionRow)
      → Dict.get k s.admissions ≡ some a
      → a.status ≡ admitted
      → (review : StoredReview) × (Dict.get a.review_id s.reviews ≡ some review)
        × (review.user_id ≡ a.user_id)

-- Calls of `finalize` and of the seeding methods, save that of an ADMITTED admission.
pub data Call : Type 0 where
  reserve_call deny_call : SeedAdmission → Call
  finalize_call : FinalizeReviewInput → Call

unfoldable pub step : Finalizer → Call → Finalizer
step s (reserve_call input) = seed_admission reserved s input
step s (deny_call input) = seed_admission denied s input
step s (finalize_call input) = (finalize s input).0

unfoldable pub run : Finalizer → List Call → Finalizer
unfolding step
run s [] = s
run s (c ∷ cs) = run (step s c) cs

some-injective : {x y : ReviewFinalizerAdmissionRow} → some x ≡ some y → x ≡ y
some-injective h = cc

seed-IsConsistent :
    (status : QuotaAdmissionStatus) (s : Finalizer) (input : SeedAdmission)
    → status ≢ admitted
    → IsConsistent s
    → IsConsistent (seed_admission status s input)
unfolding seed_admission
seed-IsConsistent status s input open_status c = record {
  admitted_review = λ k a found done. elim (Bool-cases (input.id == k)) [
    | inl here ↦
        let same = some-injective (rw (get-set, here) at found) in
        absurd (open_status (rw (← same) at done))
    | inr other ↦ c.admitted_review k a (rw (get-set, other) at found) done
  ];
}

written-IsConsistent :
    (s : Finalizer) (input : FinalizeReviewInput) (a : ReviewFinalizerAdmissionRow)
    → Wrote s (written s input a) input a
    → IsConsistent s
    → IsConsistent (written s input a)
unfolding new_review
written-IsConsistent s input a w c =
    let (stored, user, review_id) = checked_admission-ok s input a w.checked in
    let p = written-Persists s (written s input a) input a w in
    record {
      admitted_review = λ k b found done. elim (Bool-cases (input.admission_id == k)) [
        | inl here ↦
            let same = some-injective (rw (get-set, here) at found) in
            let (review_id', user') : ((b.review_id ≡ a.review_id) × (b.user_id ≡ a.user_id)) =
              rw (← same) (refl, refl) in
            (
              new_review input,
              rw (review_id', review_id) (get-set_self _ _ _),
              rw (user', user) refl,
            )
        | inr other ↦
            let (review, kept, owner) = c.admitted_review k b (rw (get-set, other) at found) done in
            (review, p.reviews b.review_id review kept, owner)
      ];
    }

Effect-IsConsistent :
    (s t : Finalizer) (input : FinalizeReviewInput)
    (m : Result ReviewFinalizerError ReviewFinalizerResult)
    → Effect s t input m
    → IsConsistent s
    → IsConsistent t
Effect-IsConsistent s t input _ (thrown e same) c = record {
  admitted_review = λ k a found done.
      let (review, kept, owner) = c.admitted_review k a (sym (same.admissions k) ∙ found) done in
      (review, same.reviews a.review_id ∙ kept, owner);
}
Effect-IsConsistent s t input _ (replaying a review _ _ _ _ same) c = rw same c
Effect-IsConsistent s t input _ (writing a w) c =
    rw w.state (written-IsConsistent s input a (rw w.state at w) c)

step-IsConsistent : (s : Finalizer) (c : Call) → IsConsistent s → IsConsistent (step s c)
unfolding step
step-IsConsistent s (reserve_call input) h = seed-IsConsistent reserved s input (λ e. cc) h
step-IsConsistent s (deny_call input) h = seed-IsConsistent denied s input (λ e. cc) h
step-IsConsistent s (finalize_call input) h =
    Effect-IsConsistent s (finalize s input).0 input (finalize s input).1 (finalize-Effect s input)
      h

run-IsConsistent : (s : Finalizer) (cs : List Call) → IsConsistent s → IsConsistent (run s cs)
unfolding run
run-IsConsistent s [] h = h
run-IsConsistent s (c ∷ cs) h = run-IsConsistent (step s c) cs (step-IsConsistent s c h)

-- After any calls of `finalize`, `seedReservedAdmission` and `seedDeniedAdmission` on a new finalizer, whether
-- or not it is set to fail, every ADMITTED admission has a stored review with its review id and its user.
pub run_new-IsConsistent :
    (fail : Option ReviewFinalizerError) (cs : List Call)
    → IsConsistent (run (new_finalizer fail) cs)
unfolding new_finalizer Dict.get
run_new-IsConsistent fail cs =
    run-IsConsistent (new_finalizer fail) cs (record { admitted_review = λ k a found done. cc })
