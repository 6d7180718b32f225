-- ===== src/Usage/Admission/Service/Laws.antt =====
-- What the service guarantees over the repository.
use repo_mentor.Review.Types.{mode_eq}
use mathlib.Core.Path.{subst}
use repo_mentor.Prelude.{
  >>=-eq-ok, Bool-cases, Option, Option-cases, Result, String, and_parts, arith, beq_refl,
  eq_of_beq, err, false, get_or, if◌then◌else◌, inl, inr, nat_eq, none, ok, ok_unique, option_eq,
  refl, some, string_eq, true, ℕ, ◌&&◌, ◌==◌, ◌>>=◌, ◌∙◌, ◌≡◌,
}
use repo_mentor.Dict
use repo_mentor.Usage.Admission.{
  review_id_field, admission_id_field, AdmissionField, user_id_field, AdmissionError,
  QuotaAdmissionRecord, CreateQuotaAdmissionRecordInput, QuotaAdmissionCreateOrGetResult,
}
use repo_mentor.Usage.Admission.Inputs.{
  JsValue, text, number, is_hash, assert_safe_opaque_id, assert_idempotency_key_hash,
  assert_fingerprint_hash, assert_fingerprint_version, assert_review_mode, hash_idempotency_key,
  normalize_idempotency_key, check_optional,
}
use repo_mentor.Usage.Admission.Repository.{
  Repository, create_or_get, check_input, resolve, new_admission, replay,
}
use repo_mentor.Usage.Admission.Repository.Replay.{insert-ok, key_of, create_or_get-again}
use repo_mentor.Usage.Admission.Service.{
  CreateIntentInput, Surroundings, finish_intent, check_hash, check_version, fingerprint_metadata,
  valid_time, to_record_input, same_intent, create_or_get_for, create_intent,
}

check_hash-again :
    (value : JsValue) (hash : String)
    → check_hash value ≡ ok hash
    → assert_fingerprint_hash hash ≡ ok hash
unfolding check_hash assert_fingerprint_hash
check_hash-again (text v) hash h = ground arith
check_hash-again _ hash h = cc

check_version-again :
    (value : JsValue) (n : ℕ) → check_version value ≡ ok n → assert_fingerprint_version n ≡ ok n
unfolding check_version assert_fingerprint_version
check_version-again (number v) n h = ground arith
check_version-again _ n h = cc

-- Metadata that the service accepts passes the repository's own checks.
metadata-again :
    (hash version : Option JsValue) (a : Option String) (b : Option ℕ)
    → fingerprint_metadata hash version ≡ ok (a, b)
    → (check_optional assert_fingerprint_hash a ≡ ok a)
      × (check_optional assert_fingerprint_version b ≡ ok b)
unfolding fingerprint_metadata
metadata-again none none a b h =
    let no_hash : none ≡ a = cc in
    let no_version : none ≡ b = cc in rw (← no_hash, ← no_version) (refl, refl)
metadata-again (some hash) (some version) a b h =
    let (n, n_checked, h₁) = >>=-eq-ok (check_version version) _ h in
    let (k, k_checked, h₂) = >>=-eq-ok (check_hash hash) _ h₁ in
    let a_given : some k ≡ a = cc in
    let b_given : some n ≡ b = cc in
    rw (← a_given, ← b_given)
      (
        rw (check_hash-again hash k k_checked) refl,
        rw (check_version-again version n n_checked) refl,
      )
metadata-again _ _ a b h = cc

opaque-again :
    (value : String) (field field' : AdmissionField) (checked : String)
    → assert_safe_opaque_id value field ≡ ok checked
    → assert_safe_opaque_id checked field' ≡ ok checked
unfolding assert_safe_opaque_id
opaque-again value field field' checked h = ground arith

hash-again :
    (nfc sha256_hex : String → String) (key : JsValue) (hash : String)
    → ((s : String) → is_hash (sha256_hex s) ≡ true)
    → hash_idempotency_key nfc sha256_hex key ≡ ok hash
    → assert_idempotency_key_hash hash ≡ ok hash
unfolding hash_idempotency_key assert_idempotency_key_hash
hash-again nfc sha256_hex key hash digest h =
    let (normalized, _, h₁) = >>=-eq-ok (normalize_idempotency_key nfc key) _ h in
    let e : sha256_hex normalized ≡ hash = cc in rw (← e) (rw (digest normalized) refl)

passes :
    (a : CreateQuotaAdmissionRecordInput)
    → assert_safe_opaque_id a.user_id user_id_field ≡ ok a.user_id
    → assert_idempotency_key_hash a.idempotency_key_hash ≡ ok a.idempotency_key_hash
    → assert_safe_opaque_id a.id admission_id_field ≡ ok a.id
    → assert_safe_opaque_id a.review_id review_id_field ≡ ok a.review_id
    → check_optional assert_fingerprint_hash a.request_fingerprint_hash
      ≡ ok a.request_fingerprint_hash
    → check_optional assert_fingerprint_version a.fingerprint_version ≡ ok a.fingerprint_version
    → check_input a ≡ ok tt
unfolding check_input
passes a user hash id review fingerprint version =
    rw user (rw hash (rw id (rw review (rw fingerprint (rw version refl)))))

-- If every digest is 64 hexadecimal digits, whatever the service passes on satisfies all of the
-- repository's own checks.
pub to_record_input-checked :
    (w : Surroundings) (input : CreateIntentInput) (a : CreateQuotaAdmissionRecordInput)
    → ((s : String) → is_hash (w.sha256_hex s) ≡ true)
    → to_record_input w input ≡ ok a
    → check_input a ≡ ok tt
unfolding to_record_input check_input
to_record_input-checked w input a digest h =
    let (user, user_ok, h₁) = >>=-eq-ok (assert_safe_opaque_id input.user_id user_id_field) _ h in
    let (mode, mode_ok, h₂) = >>=-eq-ok (assert_review_mode input.mode) _ h₁ in
    let (m, m_ok, h₃) =
      >>=-eq-ok (fingerprint_metadata input.request_fingerprint_hash input.fingerprint_version) _
        h₂ in
    let (now, now_ok, h₄) = >>=-eq-ok (valid_time input.now) _ h₃ in
    let (hash, hash_ok, h₅) =
      >>=-eq-ok (hash_idempotency_key w.nfc w.sha256_hex input.idempotency_key) _ h₄ in
    let (id, id_ok, h₆) =
      >>=-eq-ok
        (assert_safe_opaque_id (get_or input.admission_id w.fresh_admission_id) admission_id_field)
        _ h₅ in
    let (review, review_ok, h₇) =
      >>=-eq-ok (assert_safe_opaque_id (get_or input.review_id w.fresh_review_id) review_id_field) _
        h₆ in
    let (hash_again, version_again) =
      metadata-again input.request_fingerprint_hash input.fingerprint_version m.0 m.1 m_ok in
    let built : CreateQuotaAdmissionRecordInput = record {
      id = id;
      user_id = user;
      idempotency_key_hash = hash;
      request_fingerprint_hash = m.0;
      fingerprint_version = m.1;
      review_id = review;
      mode = mode;
      utc_day = w.utc_day now;
      now = now;
    } in
    let same : built ≡ a = ok_unique (ok built) refl h₇ in
    subst (λ x. check_input x ≡ ok tt) same
      (passes built (opaque-again input.user_id user_id_field user_id_field user user_ok)
        (hash-again w.nfc w.sha256_hex input.idempotency_key hash digest hash_ok)
        (opaque-again _ admission_id_field admission_id_field id id_ok)
        (opaque-again _ review_id_field review_id_field review review_ok) hash_again version_again)

new_fingerprint :
    (a : CreateQuotaAdmissionRecordInput)
    → ((new_admission a).request_fingerprint_hash ≡ a.request_fingerprint_hash)
      × ((new_admission a).fingerprint_version ≡ a.fingerprint_version)
unfolding new_admission
new_fingerprint a = (refl, refl)

replay_fingerprint :
    (s t : Repository) (a : CreateQuotaAdmissionRecordInput) (existing : QuotaAdmissionRecord)
    (r : QuotaAdmissionCreateOrGetResult)
    → replay s a existing ≡ ok (t, r)
    → (r.admission.request_fingerprint_hash ≡ a.request_fingerprint_hash)
      × (r.admission.fingerprint_version ≡ a.fingerprint_version)
unfolding replay
replay_fingerprint s t a existing r h =
    let test =
      existing.request_fingerprint_hash == a.request_fingerprint_hash
      && existing.fingerprint_version == a.fingerprint_version in
    elim (Bool-cases test) [
      | inl agree ↦
          let (e, f) =
            and_parts (existing.request_fingerprint_hash == a.request_fingerprint_hash) _ agree in
          let returned : existing ≡ r.admission = cc (rw (agree, if◌then◌else◌) at h) in
          rw (← returned) (
            eq_of_beq existing.request_fingerprint_hash a.request_fingerprint_hash e,
            eq_of_beq existing.fingerprint_version a.fingerprint_version f,
          )
      | inr differ ↦ cc (rw (differ, if◌then◌else◌) at h)
    ]

-- A `createOrGet` that returns, returns a record with the fingerprint of its input.
fingerprint_agrees :
    (s t : Repository) (a : CreateQuotaAdmissionRecordInput) (r : QuotaAdmissionCreateOrGetResult)
    → create_or_get s a ≡ ok (t, r)
    → (r.admission.request_fingerprint_hash ≡ a.request_fingerprint_hash)
      × (r.admission.fingerprint_version ≡ a.fingerprint_version)
unfolding create_or_get resolve
fingerprint_agrees s t a r h =
    let (_, _, rest) = >>=-eq-ok (check_input a) _ h in
    elim (Option-cases (Dict.get (key_of a) s.by_hash)) [
      | inl fresh ↦ let (_, _, e) = insert-ok s t a r (rw fresh at rest) in rw e (new_fingerprint a)
      | inr (existing, stored) ↦ replay_fingerprint s t a existing r (rw stored at rest)
    ]

-- The last check on a returned record.
same_intent-ok :
    (w : Surroundings) (a : CreateQuotaAdmissionRecordInput) (s t : Repository)
    (r r' : QuotaAdmissionCreateOrGetResult)
    → same_intent w a (s, r) ≡ (t, ok r')
    → (s ≡ t)
      × (r ≡ r')
      × (r.admission.mode == a.mode ≡ true)
      × (r.admission.utc_day == a.utc_day ≡ true)
unfolding same_intent
same_intent-ok w a s t r r' h =
    elim (Bool-cases (r.admission.mode == a.mode && r.admission.utc_day == a.utc_day)) [
      | inl agree ↦
          let (e, f) = and_parts (r.admission.mode == a.mode) _ agree in
          let same = rw (agree, if◌then◌else◌) at h in (cc, cc, e, f)
      | inr differ ↦ cc (rw (differ, if◌then◌else◌) at h)
    ]

same_intent-agree :
    (w : Surroundings) (a : CreateQuotaAdmissionRecordInput) (s : Repository)
    (r : QuotaAdmissionCreateOrGetResult)
    → r.admission.mode == a.mode ≡ true
    → r.admission.utc_day == a.utc_day ≡ true
    → same_intent w a (s, r) ≡ (s, ok r)
unfolding same_intent
same_intent-agree w a s r mode day = rw (mode, day) refl

create_intent-checked :
    (w : Surroundings) (s : Repository) (input : CreateIntentInput)
    (a : CreateQuotaAdmissionRecordInput)
    → to_record_input w input ≡ ok a
    → create_intent w s input ≡ finish_intent w s (create_or_get_for s a)
unfolding create_intent
create_intent-checked w s input a checked = rw checked refl

-- The outcome of a call of the service that returns a record.
finish_intent-ok :
    (w : Surroundings) (s t : Repository) (a : CreateQuotaAdmissionRecordInput)
    (m : Result AdmissionError (Repository × QuotaAdmissionCreateOrGetResult))
    (r : QuotaAdmissionCreateOrGetResult)
    → finish_intent w s (m >>= λ result. ok (a, result)) ≡ (t, ok r)
    → (m ≡ ok (t, r))
      × (r.admission.mode == a.mode ≡ true)
      × (r.admission.utc_day == a.utc_day ≡ true)
unfolding finish_intent
finish_intent-ok w s t a (ok (u, q)) r h =
    let (e, f, mode, day) = same_intent-ok w a u t q r h in
    (rw (e, f) refl, rw (← f) mode, rw (← f) day)
finish_intent-ok w s t a (err x) r h = cc

-- If every digest is 64 hexadecimal digits: a retry of an intent that was recorded, with the same user, key
-- digest, fingerprint, mode and UTC day, creates nothing and returns the same record, whatever time it is
-- and whichever ids it was given or generated.
pub create_intent-retry :
    (w w' : Surroundings) (s t : Repository) (input again : CreateIntentInput)
    (a b : CreateQuotaAdmissionRecordInput) (r : QuotaAdmissionCreateOrGetResult)
    → ((x : String) → is_hash (w'.sha256_hex x) ≡ true)
    → to_record_input w input ≡ ok a
    → to_record_input w' again ≡ ok b
    → create_intent w s input ≡ (t, ok r)
    → b.user_id ≡ a.user_id
    → b.idempotency_key_hash ≡ a.idempotency_key_hash
    → b.request_fingerprint_hash ≡ a.request_fingerprint_hash
    → b.fingerprint_version ≡ a.fingerprint_version
    → b.mode ≡ a.mode
    → b.utc_day ≡ a.utc_day
    → create_intent w' t again ≡ (t, ok (record { created = false; admission = r.admission }))
unfolding create_or_get_for finish_intent
create_intent-retry w w' s t input again a b r digest first second h user key hash version mode
      day =
    let (stored, mode_kept, day_kept) =
      finish_intent-ok w s t a (create_or_get s a) r
        (rw (create_intent-checked w s input a first) at h) in
    let (hash_kept, version_kept) = fingerprint_agrees s t a r stored in
    let replayed =
      create_or_get-again s t a b r stored (to_record_input-checked w' again b digest second) user
        key in
    let e : r.admission.request_fingerprint_hash == b.request_fingerprint_hash ≡ true =
      rw (hash, hash_kept) (beq_refl a.request_fingerprint_hash) in
    let f : r.admission.fingerprint_version == b.fingerprint_version ≡ true =
      rw (version, version_kept) (beq_refl a.fingerprint_version) in
    let again_ok : create_or_get t b ≡ ok (t, record { created = false; admission = r.admission }) =
      rw (e, f, if◌then◌else◌) at replayed in
    create_intent-checked w' t again b second
    ∙ rw again_ok (
        same_intent-agree w' b t (record { created = false; admission = r.admission })
          (rw mode mode_kept) (rw day day_kept))
