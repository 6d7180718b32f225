-- ===== src/Usage/Admission/Repository.antt =====
-- apps/api/src/modules/usage/in-memory-quota-admission.repository.ts. A method returns the new state
-- with its result, or the error that it throws, before which it writes nothing.
pub mod Moves
pub mod Replay
pub mod Lifecycle
mod Tests
use repo_mentor.Prelude.{
  Option, Result, String, [], err, false, if◌then◌else◌, nat_eq, none, ok, option_eq, some,
  str_append, string_eq, true, ℕ, ◌&&◌, ◌==◌, ◌>>=◌, ◌>>◌,
}
use repo_mentor.Dict
use repo_mentor.Dict.{Dict}
use repo_mentor.Usage.Admission.{
  admission_status_eq, review_id_field, user_id_field, admission_id_field, QuotaAdmissionStatus,
  pending, AdmissionError, conflict, not_found, transition_error, QuotaAdmissionRecord,
  CreateQuotaAdmissionRecordInput, QuotaAdmissionCreateOrGetResult,
  is_allowed_quota_admission_transition,
}
use repo_mentor.Usage.Admission.Inputs.{
  assert_safe_opaque_id, assert_idempotency_key_hash, assert_fingerprint_hash,
  assert_fingerprint_version, check_optional,
}

pub record Repository : Type 0 where
  pub by_hash : Dict QuotaAdmissionRecord
  pub by_id : Dict QuotaAdmissionRecord

unfoldable pub empty : Repository
empty = record { by_hash = []; by_id = [] }

unfoldable pub hash_key : String → String → String
hash_key user_id hash = str_append user_id (str_append "\0" hash)

unfoldable pub new_admission : CreateQuotaAdmissionRecordInput → QuotaAdmissionRecord
new_admission input = record {
  created_at = input.now;
  id = input.id;
  idempotency_key_hash = input.idempotency_key_hash;
  request_fingerprint_hash = input.request_fingerprint_hash;
  fingerprint_version = input.fingerprint_version;
  mode = input.mode;
  review_id = input.review_id;
  status = pending;
  updated_at = input.now;
  user_id = input.user_id;
  utc_day = input.utc_day;
}

-- The checks at the head of `createOrGet`, in their order. They return what they are given.
unfoldable pub check_input : CreateQuotaAdmissionRecordInput → Result AdmissionError (Unit {0})
check_input input = do
  _ ← assert_safe_opaque_id input.user_id user_id_field
  _ ← assert_idempotency_key_hash input.idempotency_key_hash
  _ ← assert_safe_opaque_id input.id admission_id_field
  _ ← assert_safe_opaque_id input.review_id review_id_field
  _ ← check_optional assert_fingerprint_hash input.request_fingerprint_hash
  _ ← check_optional assert_fingerprint_version input.fingerprint_version
  ok tt

unfoldable pub replay :
    Repository
    → CreateQuotaAdmissionRecordInput
    → QuotaAdmissionRecord
    → Result AdmissionError (Repository × QuotaAdmissionCreateOrGetResult)
replay s input existing =
    if existing.request_fingerprint_hash == input.request_fingerprint_hash
      && existing.fingerprint_version == input.fingerprint_version
    then ok (s, record { created = false; admission = existing })
    else err conflict

unfoldable pub insert :
    Repository
    → CreateQuotaAdmissionRecordInput
    → Result AdmissionError (Repository × QuotaAdmissionCreateOrGetResult)
insert s input =
    if Dict.has input.id s.by_id
    then err conflict
    else let admission = new_admission input in
      ok (
        record {
          by_hash =
              Dict.set (hash_key input.user_id input.idempotency_key_hash) admission s.by_hash;
          by_id = Dict.set admission.id admission s.by_id;
        },
        record { created = true; admission = admission },
      )

-- The two ways after the lookup by user and key.
unfoldable pub resolve :
    Repository
    → CreateQuotaAdmissionRecordInput
    → Option QuotaAdmissionRecord
    → Result AdmissionError (Repository × QuotaAdmissionCreateOrGetResult)
resolve s input none = insert s input
resolve s input (some existing) = replay s input existing

unfoldable pub create_or_get :
    Repository
    → CreateQuotaAdmissionRecordInput
    → Result AdmissionError (Repository × QuotaAdmissionCreateOrGetResult)
create_or_get s input = do
  _ ← check_input input
  resolve s input (Dict.get (hash_key input.user_id input.idempotency_key_hash) s.by_hash)

unfoldable pub owned : String → Option QuotaAdmissionRecord → Option QuotaAdmissionRecord
owned user_id none = none
owned user_id (some admission) = if admission.user_id == user_id then some admission else none

unfoldable pub find_for_owner :
    Repository → String → String → Result AdmissionError (Option QuotaAdmissionRecord)
unfolding owned
find_for_owner s user_id id = do
  _ ← assert_safe_opaque_id id admission_id_field
  _ ← assert_safe_opaque_id user_id user_id_field
  ok (owned user_id (Dict.get id s.by_id))

-- `transitionForOwner` on the admission that it finds.
unfoldable pub transition_found :
    Repository
    → String
    → QuotaAdmissionStatus
    → ℕ
    → QuotaAdmissionRecord
    → Result AdmissionError (Repository × QuotaAdmissionRecord)
transition_found s id to now current =
    let updated = record current { status = to; updated_at = now } in
    if current.status == to
    then ok (s, current)
    else if is_allowed_quota_admission_transition current.status to
    then ok (record s { by_id = Dict.set id updated s.by_id }, updated)
    else err (transition_error current.status to)

unfoldable pub transition_stored :
    Repository
    → String
    → QuotaAdmissionStatus
    → ℕ
    → Option QuotaAdmissionRecord
    → Result AdmissionError (Repository × QuotaAdmissionRecord)
transition_stored s id to now none = err not_found
transition_stored s id to now (some current) = transition_found s id to now current

unfoldable pub transition_for_owner :
    Repository
    → String
    → String
    → QuotaAdmissionStatus
    → ℕ
    → Result AdmissionError (Repository × QuotaAdmissionRecord)
transition_for_owner s user_id id to now = do
  _ ← assert_safe_opaque_id user_id user_id_field
  _ ← assert_safe_opaque_id id admission_id_field
  transition_stored s id to now (owned user_id (Dict.get id s.by_id))
