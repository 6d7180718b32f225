-- ===== src/Usage/Admission/Service.antt =====
-- apps/api/src/modules/usage/quota-admission.service.ts, over the in-memory repository.
pub mod Laws
mod Tests
use repo_mentor.Prelude.{
  Option, Result, String, err, get_or, if◌then◌else◌, nat_eq, none, ok, option_eq, some, string_eq,
  ℕ, ◌&&◌, ◌==◌, ◌>>=◌, ◌>>◌,
}
use repo_mentor.Review.Types.{mode_eq, ReviewMode}
use repo_mentor.Usage.Admission.{
  review_id_field, fingerprint_version_field, admission_id_field, request_fingerprint_field,
  user_id_field, now_field, fingerprint_error, fingerprint_field, AdmissionError, AdmissionField,
  conflict, input_error, QuotaAdmissionRecord, QuotaAdmissionStatus,
  CreateQuotaAdmissionRecordInput, QuotaAdmissionCreateOrGetResult,
}
use repo_mentor.Usage.Admission.Inputs.{
  assert_fingerprint_version, assert_fingerprint_hash, JsValue, text, number, other,
  assert_safe_opaque_id, assert_review_mode, is_hash, max_fingerprint_version, hash_idempotency_key,
  is_opaque_id, assert_idempotency_key_hash,
}
use repo_mentor.Usage.Admission.Repository.{
  Repository, create_or_get, find_for_owner, transition_for_owner, check_input, resolve,
}

-- `now` is `none` where the date is invalid.
pub record CreateIntentInput : Type 0 where
  pub user_id : String
  pub idempotency_key : JsValue
  pub mode : JsValue
  pub now : Option ℕ
  pub admission_id : Option String
  pub review_id : Option String
  pub request_fingerprint_hash : Option JsValue
  pub fingerprint_version : Option JsValue

-- What the service takes from its surroundings: the built-in NFC and the digest, the UTC day of a time
-- (Date, `toISOString().slice(0, 10)`), and the random texts of the two generated ids.
pub record Surroundings : Type 0 where
  pub nfc : String → String
  pub sha256_hex : String → String
  pub utc_day : ℕ → String
  pub fresh_admission_id : String
  pub fresh_review_id : String

unfoldable pub check_hash : JsValue → Result AdmissionError String
check_hash (text value) = assert_fingerprint_hash value
check_hash _ = err (fingerprint_error request_fingerprint_field)

unfoldable pub check_version : JsValue → Result AdmissionError ℕ
check_version (number value) = assert_fingerprint_version value
check_version _ = err (fingerprint_error fingerprint_version_field)

-- Both parts of the fingerprint or neither; the version is checked first.
unfoldable pub fingerprint_metadata :
    Option JsValue → Option JsValue → Result AdmissionError (Option String × Option ℕ)
fingerprint_metadata none none = ok (none, none)
fingerprint_metadata (some hash) (some version) = do
  checked_version ← check_version version
  checked_hash ← check_hash hash
  ok (some checked_hash, some checked_version)
fingerprint_metadata _ _ = err (input_error fingerprint_field)

unfoldable pub valid_time : Option ℕ → Result AdmissionError ℕ
valid_time none = err (input_error now_field)
valid_time (some now) = ok now

unfoldable pub create_or_get_for :
    Repository
    → CreateQuotaAdmissionRecordInput
    → Result AdmissionError
        (CreateQuotaAdmissionRecordInput × (Repository × QuotaAdmissionCreateOrGetResult))
create_or_get_for s input = create_or_get s input >>= λ result. ok (input, result)

module _ (w : Surroundings) where
  -- The arguments of `createIntent` as `createOrGet` receives them.
  unfoldable pub to_record_input :
      CreateIntentInput → Result AdmissionError CreateQuotaAdmissionRecordInput
  to_record_input input = do
    user_id ← assert_safe_opaque_id input.user_id user_id_field
    mode ← assert_review_mode input.mode
    fingerprint ← fingerprint_metadata input.request_fingerprint_hash input.fingerprint_version
    now ← valid_time input.now
    idempotency_key_hash ← hash_idempotency_key w.nfc w.sha256_hex input.idempotency_key
    admission_id ←
        assert_safe_opaque_id (get_or input.admission_id w.fresh_admission_id) admission_id_field
    review_id ← assert_safe_opaque_id (get_or input.review_id w.fresh_review_id) review_id_field
    ok (record {
      id = admission_id;
      user_id = user_id;
      idempotency_key_hash = idempotency_key_hash;
      request_fingerprint_hash = fingerprint.0;
      fingerprint_version = fingerprint.1;
      review_id = review_id;
      mode = mode;
      utc_day = w.utc_day now;
      now = now;
    })

  -- The last check: the record must be for this mode and day. The repository keeps what it wrote.
  unfoldable pub same_intent :
      CreateQuotaAdmissionRecordInput
      → Repository × QuotaAdmissionCreateOrGetResult
      → Repository × Result AdmissionError QuotaAdmissionCreateOrGetResult
  same_intent input (s, r) =
      if r.admission.mode == input.mode && r.admission.utc_day == input.utc_day
      then (s, ok r)
      else (s, err conflict)

  unfoldable pub finish_intent :
      Repository
      → Result AdmissionError
          (CreateQuotaAdmissionRecordInput × (Repository × QuotaAdmissionCreateOrGetResult))
      → Repository × Result AdmissionError QuotaAdmissionCreateOrGetResult
  finish_intent s (ok (input, result)) = same_intent input result
  finish_intent s (err e) = (s, err e)

  unfoldable pub create_intent :
      Repository
      → CreateIntentInput
      → Repository × Result AdmissionError QuotaAdmissionCreateOrGetResult
  create_intent s input = finish_intent s (to_record_input input >>= create_or_get_for s)

unfoldable pub transition_admission :
    Repository
    → String
    → String
    → QuotaAdmissionStatus
    → Option ℕ
    → Result AdmissionError (Repository × QuotaAdmissionRecord)
unfolding valid_time
transition_admission s user_id id to now = do
  time ← valid_time now
  user ← assert_safe_opaque_id user_id user_id_field
  admission ← assert_safe_opaque_id id admission_id_field
  transition_for_owner s user admission to time

unfoldable pub find_admission :
    Repository → String → String → Result AdmissionError (Option QuotaAdmissionRecord)
find_admission s user_id id = do
  user ← assert_safe_opaque_id user_id user_id_field
  admission ← assert_safe_opaque_id id admission_id_field
  find_for_owner s user admission
