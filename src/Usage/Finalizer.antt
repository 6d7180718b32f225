-- ===== src/Usage/Finalizer.antt =====
-- apps/api/src/modules/usage/in-memory-review-finalizer.ts and review-finalizer.types.ts. `finalize`
-- returns the state that it leaves also where it throws.
pub mod Effects
pub mod Laws
pub mod Consistency
mod Tests
use repo_mentor.Prelude.{
  Option, Result, String, [], err, if◌then◌else◌, ltb, nat_eq, none, not, ok, option_eq, some,
  string_eq, throw_if, ℕ, ◌==◌, ◌>>=◌, ◌>>◌, ◌||◌,
}
use repo_mentor.Dict
use repo_mentor.Dict.{Dict}
use repo_mentor.Review.Types.{ReviewMode, ReviewLearnerLevel, ReviewStatus, pending, mode_eq}
use repo_mentor.Usage.Admission.{
  QuotaAdmissionStatus, admission_status_eq, reserved, admitted, denied,
}
use repo_mentor.Usage.Admission.Inputs.{
  JsValue, text, number, other, is_hash, max_fingerprint_version,
}

pub data ReviewFinalizerError : Type 0 where
  fingerprint_input unavailable indeterminate conflict not_found : ReviewFinalizerError

pub record ReviewFinalizerFingerprintMetadata : Type 0 where
  pub fingerprint_version : ℕ
  pub request_fingerprint_hash : String

-- The two fields that the code receives unchecked are a `JsValue`.
pub record FinalizeReviewInput : Type 0 where
  pub user_id : String
  pub admission_id : String
  pub review_id : String
  pub source : String
  pub language : String
  pub mode : ReviewMode
  pub learner_level : ReviewLearnerLevel
  pub title : Option String
  pub context : Option String
  pub fingerprint_version : JsValue
  pub request_fingerprint_hash : JsValue
  pub now : ℕ

pub record ReviewFinalizerAdmissionRow : Type 0 where
  pub id : String
  pub user_id : String
  pub review_id : String
  pub mode : ReviewMode
  pub fingerprint_version : Option ℕ
  pub request_fingerprint_hash : Option String
  pub status : QuotaAdmissionStatus
  pub updated_at : ℕ

pub record ReviewFinalizerSummary : Type 0 where
  pub id : String
  pub language : String
  pub mode : ReviewMode
  pub learner_level : ReviewLearnerLevel
  pub title : Option String
  pub context : Option String
  pub status : ReviewStatus
  pub created_at : ℕ
  pub updated_at : ℕ

-- `StoredReview` extends the summary.
pub record StoredReview : Type 0 where
  pub summary : ReviewFinalizerSummary
  pub user_id : String
  pub source : String

pub data ResultKind : Type 0 where
  finalized replayed : ResultKind

pub record ReviewFinalizerResult : Type 0 where
  pub kind : ResultKind
  pub summary : ReviewFinalizerSummary

pub record Finalizer : Type 0 where
  pub admissions : Dict ReviewFinalizerAdmissionRow
  pub reviews : Dict StoredReview
  pub fail_after_review_create : Option ReviewFinalizerError

unfoldable pub new_finalizer : Option ReviewFinalizerError → Finalizer
new_finalizer fail = record { admissions = []; reviews = []; fail_after_review_create = fail }

-- assertReviewFinalizerFingerprintMetadata
unfoldable pub assert_fingerprint_metadata :
    JsValue → JsValue → Result ReviewFinalizerError ReviewFinalizerFingerprintMetadata
assert_fingerprint_metadata (number version) (text hash) =
    if ltb version 1 || ltb max_fingerprint_version version || not (is_hash hash)
    then err fingerprint_input
    else ok (record { fingerprint_version = version; request_fingerprint_hash = hash })
assert_fingerprint_metadata _ _ = err fingerprint_input

-- assertReviewFinalizerAdmissionFingerprint
unfoldable pub assert_admission_fingerprint :
    ReviewFinalizerAdmissionRow
    → ReviewFinalizerFingerprintMetadata
    → Result ReviewFinalizerError (Unit {0})
assert_admission_fingerprint admission expected =
    throw_if
      (not (admission.fingerprint_version == some expected.fingerprint_version)
        || not (admission.request_fingerprint_hash == some expected.request_fingerprint_hash))
      conflict

pub record SeedAdmission : Type 0 where
  pub id : String
  pub user_id : String
  pub review_id : String
  pub mode : ReviewMode
  pub fingerprint_version : Option ℕ
  pub request_fingerprint_hash : Option String
  pub updated_at : ℕ

-- The three seeding methods, which differ in the status.
unfoldable pub seed_admission : QuotaAdmissionStatus → Finalizer → SeedAdmission → Finalizer
seed_admission status s input =
    let row : ReviewFinalizerAdmissionRow = record {
      id = input.id;
      user_id = input.user_id;
      review_id = input.review_id;
      mode = input.mode;
      fingerprint_version = input.fingerprint_version;
      request_fingerprint_hash = input.request_fingerprint_hash;
      status = status;
      updated_at = input.updated_at;
    } in
    record s { admissions = Dict.set input.id row s.admissions }

unfoldable pub owned_review : String → Option StoredReview → Option ReviewFinalizerSummary
owned_review user_id none = none
owned_review user_id (some review) = if review.user_id == user_id then some review.summary else none

unfoldable pub find_summary : Finalizer → String → String → Option ReviewFinalizerSummary
find_summary s user_id review_id = owned_review user_id (Dict.get review_id s.reviews)

unfoldable pub owned_admission :
    String
    → Option ReviewFinalizerAdmissionRow
    → Result ReviewFinalizerError ReviewFinalizerAdmissionRow
owned_admission user_id none = err not_found
owned_admission user_id (some admission) =
    if admission.user_id == user_id then ok admission else err not_found

-- The checks of `finalize` up to the test of the status.
unfoldable pub checked_admission :
    Finalizer → FinalizeReviewInput → Result ReviewFinalizerError ReviewFinalizerAdmissionRow
checked_admission s input = do
  metadata ← assert_fingerprint_metadata input.fingerprint_version input.request_fingerprint_hash
  admission ← owned_admission input.user_id (Dict.get input.admission_id s.admissions)
  _ ←
      throw_if (not (admission.review_id == input.review_id) || not (admission.mode == input.mode))
        conflict
  _ ← assert_admission_fingerprint admission metadata
  ok admission

-- The branch of an admission that is already ADMITTED.
unfoldable pub replay :
    FinalizeReviewInput → Option StoredReview → Result ReviewFinalizerError ReviewFinalizerResult
replay input none = err indeterminate
replay input (some existing) =
    if existing.user_id == input.user_id
    then ok (record { kind = replayed; summary = existing.summary })
    else err indeterminate

unfoldable pub new_review : FinalizeReviewInput → StoredReview
new_review input = record {
  summary = record {
    id = input.review_id;
    language = input.language;
    mode = input.mode;
    learner_level = input.learner_level;
    title = input.title;
    context = input.context;
    status = pending;
    created_at = input.now;
    updated_at = input.now;
  };
  user_id = input.user_id;
  source = input.source;
}

abbrev pub admitted_at : ReviewFinalizerAdmissionRow → ℕ → ReviewFinalizerAdmissionRow
admitted_at admission now = record admission { status = admitted; updated_at = now }

-- The `try` after the review is set, and its `catch`.
unfoldable pub admit :
    Option ReviewFinalizerError
    → Finalizer
    → FinalizeReviewInput
    → ReviewFinalizerAdmissionRow
    → Finalizer × Result ReviewFinalizerError ReviewFinalizerResult
admit none s input admission = (
  record s {
    admissions = Dict.set input.admission_id (admitted_at admission input.now) s.admissions;
  },
  ok (record { kind = finalized; summary = (new_review input).summary }),
)
admit (some error) s input admission = (
  record s {
    reviews = Dict.delete (new_review input).summary.id s.reviews;
    admissions = Dict.set input.admission_id admission s.admissions;
  },
  err error,
)

unfoldable pub write :
    Finalizer
    → FinalizeReviewInput
    → ReviewFinalizerAdmissionRow
    → Finalizer × Result ReviewFinalizerError ReviewFinalizerResult
write s input admission =
    let review = new_review input in
    let created = record s { reviews = Dict.set review.summary.id review s.reviews } in
    admit s.fail_after_review_create created input admission

-- `finalize` on what its checks return.
unfoldable pub finalize_checked :
    Finalizer
    → FinalizeReviewInput
    → Result ReviewFinalizerError ReviewFinalizerAdmissionRow
    → Finalizer × Result ReviewFinalizerError ReviewFinalizerResult
finalize_checked s input (err e) = (s, err e)
finalize_checked s input (ok admission) =
    if admission.status == admitted
    then (s, replay input (Dict.get admission.review_id s.reviews))
    else if not (admission.status == reserved)
    then (s, err conflict)
    else if Dict.has input.review_id s.reviews
    then (s, err conflict)
    else write s input admission

unfoldable pub finalize :
    Finalizer → FinalizeReviewInput → Finalizer × Result ReviewFinalizerError ReviewFinalizerResult
finalize s input = finalize_checked s input (checked_admission s input)
