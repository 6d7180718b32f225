-- ===== src/Usage/Finalizer/Laws.antt =====
-- The guarantees of `finalize`: both writes or neither, and once for an admission.
use repo_mentor.Review.Types.{mode_eq}
use mathlib.Core.Path.{subst, sym}
use repo_mentor.Prelude.{
  >>=-eq-ok, List, Result, String, [], beq_ne, beq_refl, err, if◌then◌else◌, nat_eq, not, ok,
  ok_unique, option_eq, refl, some, string_eq, throw_if, true, ◌==◌, ◌||◌, ◌∙◌, ◌∷◌, ◌≡◌, ◌≢◌,
}
use repo_mentor.Dict
use repo_mentor.Dict.Laws.{get-set_self, get-set_ne}
use repo_mentor.Usage.Admission.{admitted, admission_status_eq}
use repo_mentor.Usage.Finalizer.{
  Finalizer, FinalizeReviewInput, ReviewFinalizerError, ReviewFinalizerResult,
  ReviewFinalizerSummary, ReviewFinalizerAdmissionRow, finalize, finalize_checked,
  checked_admission, new_review, admitted_at, owned_admission, assert_fingerprint_metadata,
  assert_admission_fingerprint, conflict, StoredReview, replayed, replay,
}
use repo_mentor.Usage.Finalizer.Effects.{
  Same, written, Wrote, Effect, thrown, replaying, writing, finalize-Effect, checked_admission-ok,
}

finalize-Effect-at :
    (s t : Finalizer) (input : FinalizeReviewInput)
    (m : Result ReviewFinalizerError ReviewFinalizerResult)
    → finalize s input ≡ (t, m)
    → Effect s t input m
finalize-Effect-at s t input m h =
    subst
      (λ (x : Finalizer × Result ReviewFinalizerError ReviewFinalizerResult).
        Effect s x.0 input x.1)
      h (finalize-Effect s input)

thrown-Same :
    (s t : Finalizer) (input : FinalizeReviewInput)
    (m : Result ReviewFinalizerError ReviewFinalizerResult) (e : ReviewFinalizerError)
    → Effect s t input m
    → m ≡ err e
    → Same s t
thrown-Same s t input _ e (thrown e' same) h = same
thrown-Same s t input _ e (replaying a review _ _ _ _ _) h = cc
thrown-Same s t input _ e (writing a w) h = cc

-- A `finalize` that throws, at whichever check or after the review is created, changes no lookup of an
-- admission or a review.
pub finalize-atomic :
    (s t : Finalizer) (input : FinalizeReviewInput) (e : ReviewFinalizerError)
    → finalize s input ≡ (t, err e)
    → ((k : String) → Dict.get k t.admissions ≡ Dict.get k s.admissions)
      × ((k : String) → Dict.get k t.reviews ≡ Dict.get k s.reviews)
finalize-atomic s t input e h =
    let effect = finalize-Effect-at s t input (err e) h in
    let same = thrown-Same s t input (err e) e effect refl in (same.admissions, same.reviews)

-- What later calls do not change: the ADMITTED admissions and the reviews.
pub record Persists (s t : Finalizer) : Type 0 where
  pub admissions :
      (k : String) (a : ReviewFinalizerAdmissionRow)
      → Dict.get k s.admissions ≡ some a
      → a.status ≡ admitted
      → Dict.get k t.admissions ≡ some a
  pub reviews :
      (k : String) (review : StoredReview)
      → Dict.get k s.reviews ≡ some review
      → Dict.get k t.reviews ≡ some review

pub written-Persists :
    (s t : Finalizer) (input : FinalizeReviewInput) (a : ReviewFinalizerAdmissionRow)
    → Wrote s t input a
    → Persists s t
written-Persists s t input a w =
    let (stored, _, _) = checked_admission-ok s input a w.checked in
    record {
      admissions = λ k b found status.
          let other : input.admission_id ≢ k = λ e. cc (w.status, status, rw e at stored, found) in
          let kept =
            get-set_ne input.admission_id k (admitted_at a input.now) s.admissions
              (beq_ne input.admission_id k other) in
          rw w.state (kept ∙ found);
      reviews = λ k review found.
          let other : input.review_id ≢ k = λ e. cc (rw e at w.fresh, found) in
          let kept =
            get-set_ne input.review_id k (new_review input) s.reviews
              (beq_ne input.review_id k other) in
          rw w.state (kept ∙ found);
    }

Effect-Persists :
    (s t : Finalizer) (input : FinalizeReviewInput)
    (m : Result ReviewFinalizerError ReviewFinalizerResult)
    → Effect s t input m
    → Persists s t
Effect-Persists s t input _ (thrown e same) = record {
  admissions = λ k a found _. same.admissions k ∙ found;
  reviews = λ k review found. same.reviews k ∙ found;
}
Effect-Persists s t input _ (replaying a review _ _ _ _ same) = record {
  admissions = λ k a found _. rw same found;
  reviews = λ k review found. rw same found;
}
Effect-Persists s t input _ (writing a w) = written-Persists s t input a w

unfoldable pub finalize_all : Finalizer → List FinalizeReviewInput → Finalizer
finalize_all s [] = s
finalize_all s (input ∷ inputs) = finalize_all (finalize s input).0 inputs

finalize_all-Persists :
    (s : Finalizer) (inputs : List FinalizeReviewInput) → Persists s (finalize_all s inputs)
unfolding finalize_all
finalize_all-Persists s [] = record {
  admissions = λ k a found _. found;
  reviews = λ k r found. found;
}
finalize_all-Persists s (input ∷ inputs) =
    let p =
      Effect-Persists s (finalize s input).0 input (finalize s input).1 (finalize-Effect s input) in
    let q = finalize_all-Persists (finalize s input).0 inputs in
    record {
      admissions = λ k a found status. q.admissions k a (p.admissions k a found status) status;
      reviews = λ k r found. q.reviews k r (p.reviews k r found);
    }

-- The admission of the input is ADMITTED, and the review with this summary is stored for its owner.
record Settled (s : Finalizer) (input : FinalizeReviewInput) (summary : ReviewFinalizerSummary)
    : Type 0 where
  a : ReviewFinalizerAdmissionRow
  review : StoredReview
  checked : checked_admission s input ≡ ok a
  status : a.status ≡ admitted
  found : Dict.get a.review_id s.reviews ≡ some review
  user : review.user_id ≡ input.user_id
  shown : review.summary ≡ summary

-- The checks read the admission alone.
checked_admission-same :
    (s t : Finalizer) (input : FinalizeReviewInput)
    → Dict.get input.admission_id t.admissions ≡ Dict.get input.admission_id s.admissions
    → checked_admission t input ≡ checked_admission s input
unfolding checked_admission
checked_admission-same s t input h = rw h refl

checked_admission-admitted :
    (s t : Finalizer) (input : FinalizeReviewInput) (a : ReviewFinalizerAdmissionRow)
    → checked_admission s input ≡ ok a
    → Dict.get input.admission_id t.admissions ≡ some (admitted_at a input.now)
    → checked_admission t input ≡ ok (admitted_at a input.now)
unfolding checked_admission owned_admission assert_admission_fingerprint
checked_admission-admitted s t input a h stored =
    let (found, user, _) = checked_admission-ok s input a h in
    let owner : a.user_id == input.user_id ≡ true = rw user (beq_refl input.user_id) in
    let (m, m_ok, h₁) =
      >>=-eq-ok
        (assert_fingerprint_metadata input.fingerprint_version input.request_fingerprint_hash) _
        (rw found at h) in
    let (_, same, h₂) =
      >>=-eq-ok
        (throw_if (not (a.review_id == input.review_id) || not (a.mode == input.mode)) conflict) _
        (rw (owner, if◌then◌else◌) at h₁) in
    let (_, agrees, _) = >>=-eq-ok (assert_admission_fingerprint a m) _ h₂ in
    rw (stored, m_ok, owner, if◌then◌else◌, same, agrees) refl

Settled-replay :
    (s : Finalizer) (input : FinalizeReviewInput) (summary : ReviewFinalizerSummary)
    → Settled s input summary
    → finalize s input ≡ (s, ok (record { kind = replayed; summary = summary }))
unfolding finalize finalize_checked replay
Settled-replay s input summary d =
    let done : d.a.status == admitted ≡ true = rw d.status (beq_refl admitted) in
    let owner : d.review.user_id == input.user_id ≡ true = rw d.user (beq_refl input.user_id) in
    rw (d.checked, done, if◌then◌else◌, d.found, owner, d.shown) refl

Settled-Persists :
    (s t : Finalizer) (input : FinalizeReviewInput) (summary : ReviewFinalizerSummary)
    → Persists s t
    → Settled s input summary
    → Settled t input summary
Settled-Persists s t input summary p d =
    let (stored, _, _) = checked_admission-ok s input d.a d.checked in
    record {
      a = d.a;
      review = d.review;
      checked =
          checked_admission-same s t input (p.admissions _ d.a stored d.status ∙ sym stored)
          ∙ d.checked;
      status = d.status;
      found = p.reviews _ d.review d.found;
      user = d.user;
      shown = d.shown;
    }

returned-Settled :
    (s t : Finalizer) (input : FinalizeReviewInput)
    (m : Result ReviewFinalizerError ReviewFinalizerResult) (r : ReviewFinalizerResult)
    → Effect s t input m
    → m ≡ ok r
    → Settled t input r.summary
unfolding new_review
returned-Settled s t input _ r (thrown e same) h = cc
returned-Settled s t input _ r (replaying a review checked status found user same) h =
    subst (λ (x : ReviewFinalizerResult). Settled t input x.summary) (ok_unique (ok _) refl h)
      (rw same (record {
        a = a;
        review = review;
        checked = checked;
        status = status;
        found = found;
        user = user;
        shown = refl;
      }))
returned-Settled s t input _ r (writing a w) h =
    let (_, _, review_id) = checked_admission-ok s input a w.checked in
    subst (λ (x : ReviewFinalizerResult). Settled t input x.summary) (ok_unique (ok _) refl h)
      (rw (w.state) (record {
        a = admitted_at a input.now;
        review = new_review input;
        checked =
            checked_admission-admitted s (written s input a) input a w.checked (get-set_self _ _ _);
        status = refl;
        found = rw review_id (get-set_self _ _ _);
        user = refl;
        shown = refl;
      }))

-- Once a `finalize` has returned, whatever is finalized afterwards, the same input is answered by a replay
-- with the same summary, which changes nothing.
pub finalize-replays :
    (s t : Finalizer) (input : FinalizeReviewInput) (r : ReviewFinalizerResult)
    (inputs : List FinalizeReviewInput)
    → finalize s input ≡ (t, ok r)
    → finalize (finalize_all t inputs) input
      ≡ (finalize_all t inputs, ok (record { kind = replayed; summary = r.summary }))
finalize-replays s t input r inputs h =
    let effect = finalize-Effect-at s t input (ok r) h in
    let settled = returned-Settled s t input (ok r) r effect refl in
    Settled-replay _ input r.summary
      (Settled-Persists t _ input r.summary (finalize_all-Persists t inputs) settled)
