-- ===== src/Usage/Finalizer/Effects.antt =====
-- What one `finalize` writes.
use repo_mentor.Review.Types.{mode_eq}
use repo_mentor.Prelude.{
  >>=-eq-ok, Bool, Bool-cases, Option, Result, String, arith, eq_of_beq, err, false, if◌then◌else◌,
  inl, inr, is_some, nat_eq, none, not, ok, ok_unique, option_eq, refl, some, string_eq, throw_if,
  true, ◌==◌, ◌||◌, ◌≡◌,
}
use repo_mentor.Dict
use repo_mentor.Dict.Laws.{get-set_stored, get-delete-set}
use repo_mentor.Usage.Admission.{reserved, admitted, admission_status_eq}
use repo_mentor.Usage.Finalizer.{
  conflict, indeterminate, finalized, replayed, StoredReview, replay, Finalizer,
  FinalizeReviewInput, ReviewFinalizerError, ReviewFinalizerResult, ReviewFinalizerAdmissionRow,
  finalize, finalize_checked, checked_admission, write, admit, new_review, admitted_at,
  owned_admission, assert_fingerprint_metadata, assert_admission_fingerprint,
}

-- Every lookup gives the same.
pub record Same (s t : Finalizer) : Type 0 where
  pub admissions : (k : String) → Dict.get k t.admissions ≡ Dict.get k s.admissions
  pub reviews : (k : String) → Dict.get k t.reviews ≡ Dict.get k s.reviews
  pub fail : t.fail_after_review_create ≡ s.fail_after_review_create

pub Same-refl : (s : Finalizer) → Same s s
Same-refl s = record { admissions = λ k. refl; reviews = λ k. refl; fail = refl }

abbrev pub written : Finalizer → FinalizeReviewInput → ReviewFinalizerAdmissionRow → Finalizer
written s input admission = record s {
  admissions = Dict.set input.admission_id (admitted_at admission input.now) s.admissions;
  reviews = Dict.set input.review_id (new_review input) s.reviews;
}

-- A `finalize` that writes, on the admission `a`.
pub record Wrote (s t : Finalizer) (input : FinalizeReviewInput) (a : ReviewFinalizerAdmissionRow)
    : Type 0 where
  pub checked : checked_admission s input ≡ ok a
  pub status : a.status ≡ reserved
  pub fresh : Dict.get input.review_id s.reviews ≡ none
  pub state : t ≡ written s input a

same_review : (p q : Bool) → not p || not q ≡ false → p ≡ true
same_review p q h = ground arith

owned_admission-ok :
    (user_id : String) (found : Option ReviewFinalizerAdmissionRow)
    (a : ReviewFinalizerAdmissionRow)
    → owned_admission user_id found ≡ ok a
    → (found ≡ some a) × (a.user_id ≡ user_id)
unfolding owned_admission
owned_admission-ok user_id none a h = cc
owned_admission-ok user_id (some b) a h = elim (Bool-cases (b.user_id == user_id)) [
  | inl same ↦
      let e : b ≡ a = ok_unique (ok b) refl (rw (same, if◌then◌else◌) at h) in
      (rw e refl, rw (← e) (eq_of_beq b.user_id user_id same))
  | inr other ↦ cc (rw (other, if◌then◌else◌) at h)
]

not_thrown : {E : Type 0} (bad : Bool) (e : E) {u : Unit {0}} → throw_if bad e ≡ ok u → bad ≡ false
not_thrown true e h = cc
not_thrown false e h = refl

pub checked_admission-ok :
    (s : Finalizer) (input : FinalizeReviewInput) (a : ReviewFinalizerAdmissionRow)
    → checked_admission s input ≡ ok a
    → (Dict.get input.admission_id s.admissions ≡ some a)
      × (a.user_id ≡ input.user_id)
      × (a.review_id ≡ input.review_id)
unfolding checked_admission
checked_admission-ok s input a h =
    let (metadata, _, h₁) =
      >>=-eq-ok
        (assert_fingerprint_metadata input.fingerprint_version input.request_fingerprint_hash) _
        h in
    let (b, owned, h₂) =
      >>=-eq-ok (owned_admission input.user_id (Dict.get input.admission_id s.admissions)) _ h₁ in
    let (_, same, h₃) =
      >>=-eq-ok
        (throw_if (not (b.review_id == input.review_id) || not (b.mode == input.mode)) conflict) _
        h₂ in
    let (_, _, h₄) = >>=-eq-ok (assert_admission_fingerprint b metadata) _ h₃ in
    let e : b ≡ a = ok_unique (ok b) refl h₄ in
    let (found, user) = owned_admission-ok input.user_id _ b owned in
    let review =
      eq_of_beq b.review_id input.review_id
        (same_review (b.review_id == input.review_id) _ (not_thrown _ conflict same)) in
    (rw (← e) found, rw (← e) user, rw (← e) review)

rollback :
    (s : Finalizer) (input : FinalizeReviewInput) (a : ReviewFinalizerAdmissionRow)
    → Dict.get input.admission_id s.admissions ≡ some a
    → Dict.get input.review_id s.reviews ≡ none
    → Same s (record s {
      reviews = Dict.delete input.review_id (Dict.set input.review_id (new_review input) s.reviews);
      admissions = Dict.set input.admission_id a s.admissions;
    })
rollback s input a found fresh = record {
  admissions = λ k. get-set_stored input.admission_id k a s.admissions found;
  reviews = λ k. get-delete-set input.review_id k (new_review input) s.reviews fresh;
  fail = refl;
}

-- The three ways of a `finalize`: nothing that a lookup shows is changed and it throws; it replays, and
-- the state is the same; or it writes both rows and returns the new review.
pub data Effect (s t : Finalizer) (input : FinalizeReviewInput)
    : Result ReviewFinalizerError ReviewFinalizerResult → Type 0 where
  thrown : (e : ReviewFinalizerError) → Same s t → Effect s t input (err e)
  replaying :
      (a : ReviewFinalizerAdmissionRow) (review : StoredReview)
      → checked_admission s input ≡ ok a
      → a.status ≡ admitted
      → Dict.get a.review_id s.reviews ≡ some review
      → review.user_id ≡ input.user_id
      → t ≡ s
      → Effect s t input (ok (record { kind = replayed; summary = review.summary }))
  writing :
      (a : ReviewFinalizerAdmissionRow)
      → Wrote s t input a
      → Effect s t input (ok (record { kind = finalized; summary = (new_review input).summary }))

replay-Effect :
    (s : Finalizer) (input : FinalizeReviewInput) (a : ReviewFinalizerAdmissionRow)
    (found : Option StoredReview)
    → checked_admission s input ≡ ok a
    → a.status ≡ admitted
    → Dict.get a.review_id s.reviews ≡ found
    → Effect s s input (replay input found)
unfolding replay
replay-Effect s input a none checked status found = thrown indeterminate (Same-refl s)
replay-Effect s input a (some review) checked status found =
    elim (Bool-cases (review.user_id == input.user_id)) [
      | inl same ↦
          rw (same, if◌then◌else◌)
            (replaying a review checked status found (eq_of_beq review.user_id input.user_id same)
              refl)
      | inr other ↦ rw (other, if◌then◌else◌) (thrown indeterminate (Same-refl s))
    ]

write-Effect :
    (s : Finalizer) (input : FinalizeReviewInput) (a : ReviewFinalizerAdmissionRow)
    (fail : Option ReviewFinalizerError)
    → checked_admission s input ≡ ok a
    → a.status ≡ reserved
    → Dict.get input.review_id s.reviews ≡ none
    → let m =
        admit fail
          (record s { reviews = Dict.set input.review_id (new_review input) s.reviews })
          input
          a in
      Effect s m.0 input m.1
unfolding admit new_review
write-Effect s input a none checked status fresh =
    writing a (record { checked = checked; status = status; fresh = fresh; state = refl })
write-Effect s input a (some e) checked status fresh =
    let (found, _, _) = checked_admission-ok s input a checked in
    thrown e (rollback s input a found fresh)

absent : {V : Type 0} (m : Option V) → is_some m ≡ false → m ≡ none
absent none h = refl
absent (some v) h = cc

finalize_checked-Effect :
    (s : Finalizer) (input : FinalizeReviewInput)
    (checks : Result ReviewFinalizerError ReviewFinalizerAdmissionRow)
    → checked_admission s input ≡ checks
    → Effect s (finalize_checked s input checks).0 input (finalize_checked s input checks).1
unfolding finalize_checked write new_review Dict.has
finalize_checked-Effect s input (err e) checked = thrown e (Same-refl s)
finalize_checked-Effect s input (ok a) checked = elim (Bool-cases (a.status == admitted)) [
  | inl done ↦
      rw (done, if◌then◌else◌)
        (replay-Effect s input a _ checked (eq_of_beq a.status admitted done) refl)
  | inr undone ↦ elim (Bool-cases (a.status == reserved)) [
    | inl waiting ↦ elim (Bool-cases (is_some (Dict.get input.review_id s.reviews))) [
      | inl taken ↦ rw (undone, waiting, taken, if◌then◌else◌) (thrown conflict (Same-refl s))
      | inr fresh ↦
          rw (undone, waiting, fresh, if◌then◌else◌)
            (write-Effect s input a s.fail_after_review_create checked
              (eq_of_beq a.status reserved waiting) (absent _ fresh))
    ]
    | inr closed ↦ rw (undone, closed, if◌then◌else◌) (thrown conflict (Same-refl s))
  ]
]

pub finalize-Effect :
    (s : Finalizer) (input : FinalizeReviewInput)
    → Effect s (finalize s input).0 input (finalize s input).1
unfolding finalize
finalize-Effect s input = finalize_checked-Effect s input (checked_admission s input) refl
