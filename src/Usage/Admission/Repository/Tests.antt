-- ===== src/Usage/Admission/Repository/Tests.antt =====
-- Runs of the admission repository, and its theorems at concrete inputs.
use repo_mentor.Prelude.{
  String, [], err, false, if◌then◌else◌, nat_eq, none, ok, option_eq, refl, some, string_eq, true,
  ◌&&◌, ◌==◌, ◌∷◌, ◌≡◌, ◌≢◌,
}
use repo_mentor.Dict
use repo_mentor.Text.{matches_hash, matches_opaque_id}
use repo_mentor.Review.Types.{quick}
use repo_mentor.Usage.Admission.{
  pending, reserved, denied, admitted, conflict, QuotaAdmissionRecord,
  CreateQuotaAdmissionRecordInput, is_allowed_quota_admission_transition,
}
use repo_mentor.Usage.Admission.Inputs.{
  is_hash, is_opaque_id, assert_safe_opaque_id, assert_idempotency_key_hash,
  assert_fingerprint_hash, assert_fingerprint_version,
}
use repo_mentor.Usage.Admission.Repository.{
  Repository, empty, hash_key, new_admission, check_input, replay, insert, resolve, create_or_get,
  owned, transition_found, transition_stored, transition_for_owner,
}
use repo_mentor.Usage.Admission.Repository.Replay.{create_or_get-again, create_or_get-stale}
use repo_mentor.Usage.Admission.Repository.Lifecycle.{
  here, move, Reaches-limits, create_call, move_call, run, step, run-Kept, Kept,
}

admissions : Unit {0}
unfolding empty hash_key new_admission check_input replay insert resolve create_or_get owned
    transition_found transition_stored transition_for_owner is_hash is_opaque_id
    assert_safe_opaque_id assert_idempotency_key_hash assert_fingerprint_hash
    assert_fingerprint_version matches_hash matches_opaque_id is_allowed_quota_admission_transition
    Dict.get Dict.set Dict.has run step
admissions = tt

abbrev digest : String
digest = "0123456789abcdef0123456789abcdef0123456789abcdef0123456789abcdef"

abbrev ann_input : CreateQuotaAdmissionRecordInput
ann_input = record {
  id = "adm1";
  user_id = "ann";
  idempotency_key_hash = digest;
  request_fingerprint_hash = none;
  fingerprint_version = none;
  review_id = "rev1";
  mode = quick;
  utc_day = "2026-01-02";
  now = 5;
}

-- Another request under the same key.
abbrev other_input : CreateQuotaAdmissionRecordInput
other_input = record ann_input {
  id = "adm2";
  fingerprint_version = some 2;
  request_fingerprint_hash = some digest;
}

abbrev created : Repository
created = record {
  by_hash = Dict.set (hash_key "ann" digest) (new_admission ann_input) [];
  by_id = Dict.set "adm1" (new_admission ann_input) [];
}

ann_creates :
    create_or_get empty ann_input
    ≡ ok (created, record { created = true; admission = new_admission ann_input })
unfolding admissions
ann_creates = refl

other_checked : check_input other_input ≡ ok tt
unfolding admissions
other_checked = refl

abbrev reserved_admission : QuotaAdmissionRecord
reserved_admission = record (new_admission ann_input) { status = reserved; updated_at = 6 }

abbrev moved : Repository
moved = record created { by_id = Dict.set "adm1" reserved_admission created.by_id }

ann_moves : transition_for_owner created "ann" "adm1" reserved 6 ≡ ok (moved, reserved_admission)
unfolding admissions
ann_moves = refl

first_found : Dict.get "adm1" created.by_id ≡ some (new_admission ann_input)
unfolding admissions
first_found = refl

pending_denied : is_allowed_quota_admission_transition pending denied ≡ true
unfolding admissions
pending_denied = refl

create_or_get-again_example : create_or_get created other_input ≡ (
    if (new_admission ann_input).request_fingerprint_hash == other_input.request_fingerprint_hash
      && (new_admission ann_input).fingerprint_version == other_input.fingerprint_version
    then ok (created, record { created = false; admission = new_admission ann_input })
    else err conflict)
create_or_get-again_example =
    create_or_get-again empty created ann_input other_input
      (record { created = true; admission = new_admission ann_input }) ann_creates other_checked
      refl refl

create_or_get-stale_example :
    create_or_get moved ann_input
    ≡ ok (moved, record { created = false; admission = new_admission ann_input })
create_or_get-stale_example =
    create_or_get-stale empty created moved ann_input "ann" "adm1" reserved 6 reserved_admission
      ann_creates ann_moves

Reaches-limits_example :
    (pending ≡ denied → denied ≡ denied)
    × (pending ≡ admitted → denied ≡ admitted)
    × (pending ≢ pending → denied ≢ pending)
    × (pending ≢ admitted → denied ≢ admitted)
Reaches-limits_example = Reaches-limits pending denied (move here pending_denied)

run-Kept_example :
    Kept
      (run created (move_call "ann" "adm1" reserved 6 ∷ create_call other_input ∷ []))
      "adm1"
      (new_admission ann_input)
run-Kept_example =
    run-Kept created (move_call "ann" "adm1" reserved 6 ∷ create_call other_input ∷ []) "adm1"
      (new_admission ann_input) first_found
