-- ===== src/Usage/Admission/Service/Tests.antt =====
-- An intent and its retry, and the theorems at them.
use repo_mentor.Prelude.{String, [], false, none, ok, refl, some, true, ℕ, ◌≡◌}
use repo_mentor.Dict
use repo_mentor.Text.{matches_hash, matches_opaque_id, is_token_char, all_codes}
use repo_mentor.Review.Types.{quick}
use repo_mentor.Usage.Admission.{QuotaAdmissionCreateOrGetResult, CreateQuotaAdmissionRecordInput}
use repo_mentor.Usage.Admission.Inputs.{
  is_hash, is_opaque_id, assert_safe_opaque_id, assert_idempotency_key_hash,
  assert_fingerprint_hash, assert_fingerprint_version, text, number, parse_mode, assert_review_mode,
  normalize_idempotency_key, hash_idempotency_key,
}
use repo_mentor.Usage.Admission.Repository.{
  Repository, empty, hash_key, new_admission, check_input, replay, insert, resolve, create_or_get,
}
use repo_mentor.Usage.Admission.Service.{
  CreateIntentInput, Surroundings, check_hash, check_version, fingerprint_metadata, valid_time,
  to_record_input, same_intent, create_or_get_for, finish_intent, create_intent,
}
use repo_mentor.Usage.Admission.Service.Laws.{to_record_input-checked, create_intent-retry}

service : Unit {0}
unfolding empty hash_key new_admission check_input replay insert resolve create_or_get is_hash
    is_opaque_id assert_safe_opaque_id assert_idempotency_key_hash assert_fingerprint_hash
    assert_fingerprint_version parse_mode assert_review_mode normalize_idempotency_key
    hash_idempotency_key check_hash check_version fingerprint_metadata valid_time to_record_input
    same_intent create_or_get_for finish_intent create_intent matches_hash matches_opaque_id
    is_token_char all_codes Dict.get Dict.set Dict.has
service = tt

abbrev digest : String
digest = "0123456789abcdef0123456789abcdef0123456789abcdef0123456789abcdef"

-- Surroundings with one digest and one day, and the ids of the first call and of the retry.
abbrev surroundings : String → String → Surroundings
surroundings admission review = record {
  nfc = λ s. s;
  sha256_hex = λ s. digest;
  utc_day = λ now. "2026-01-02";
  fresh_admission_id = admission;
  fresh_review_id = review;
}

digests_are_hashes :
    (admission review x : String) → is_hash ((surroundings admission review).sha256_hex x) ≡ true
unfolding service
digests_are_hashes admission review x = refl

abbrev intent : ℕ → CreateIntentInput
intent now = record {
  user_id = "ann";
  idempotency_key = text "key-0123456789-0123456789";
  mode = text "QUICK";
  now = some now;
  admission_id = none;
  review_id = none;
  request_fingerprint_hash = some (text digest);
  fingerprint_version = some (number 1);
}

abbrev record_input : String → String → ℕ → CreateQuotaAdmissionRecordInput
record_input admission review now = record {
  id = admission;
  user_id = "ann";
  idempotency_key_hash = digest;
  request_fingerprint_hash = some digest;
  fingerprint_version = some 1;
  review_id = review;
  mode = quick;
  utc_day = "2026-01-02";
  now = now;
}

first_input :
    to_record_input (surroundings "adm1" "rev1") (intent 5) ≡ ok (record_input "adm1" "rev1" 5)
unfolding service
first_input = refl

second_input :
    to_record_input (surroundings "adm2" "rev2") (intent 9) ≡ ok (record_input "adm2" "rev2" 9)
unfolding service
second_input = refl

abbrev stored : Repository
stored = record {
  by_hash = Dict.set (hash_key "ann" digest) (new_admission (record_input "adm1" "rev1" 5)) [];
  by_id = Dict.set "adm1" (new_admission (record_input "adm1" "rev1" 5)) [];
}

abbrev first_result : QuotaAdmissionCreateOrGetResult
first_result = record { created = true; admission = new_admission (record_input "adm1" "rev1" 5) }

first_creates :
    create_intent (surroundings "adm1" "rev1") empty (intent 5) ≡ (stored, ok first_result)
unfolding service
first_creates = refl

to_record_input-checked_example : check_input (record_input "adm2" "rev2" 9) ≡ ok tt
to_record_input-checked_example =
    to_record_input-checked (surroundings "adm2" "rev2") (intent 9) (record_input "adm2" "rev2" 9)
      (digests_are_hashes "adm2" "rev2") second_input

create_intent-retry_example :
    create_intent (surroundings "adm2" "rev2") stored (intent 9)
    ≡ (stored, ok (record { created = false; admission = first_result.admission }))
create_intent-retry_example =
    create_intent-retry (surroundings "adm1" "rev1") (surroundings "adm2" "rev2") empty stored
      (intent 5) (intent 9) (record_input "adm1" "rev1" 5) (record_input "adm2" "rev2" 9)
      first_result (digests_are_hashes "adm2" "rev2") first_input second_input first_creates refl
      refl refl refl refl refl
