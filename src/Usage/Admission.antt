-- ===== src/Usage/Admission.antt =====
-- apps/api/src/modules/usage/quota-admission.types.ts and quota-admission.errors.ts.
pub mod Inputs
pub mod Fingerprint
pub mod Repository
pub mod Service
use repo_mentor.Prelude.{
  Bool, Eq, List, Option, String, [], arith, includes, nat_eq, option_eq, string_eq, true, ℕ, ◌==◌,
  ◌↔◌, ◌∷◌, ◌≡◌,
}
use repo_mentor.Review.Types.{ReviewMode}

pub data QuotaAdmissionStatus : Type 0 where
  pending reserved admitted denied indeterminate reconcile_required : QuotaAdmissionStatus

abbrev admission_status_code : QuotaAdmissionStatus → ℕ
admission_status_code pending = 0
admission_status_code reserved = 1
admission_status_code admitted = 2
admission_status_code denied = 3
admission_status_code indeterminate = 4
admission_status_code reconcile_required = 5

abbrev pub admission_status_beq : QuotaAdmissionStatus → QuotaAdmissionStatus → Bool
admission_status_beq a b = admission_status_code a == admission_status_code b

pub admission_status_beq_iff :
    (a b : QuotaAdmissionStatus) → (admission_status_beq a b ≡ true) ↔ (a ≡ b)
admission_status_beq_iff a b = ground arith

instance abbrev pub admission_status_eq : Eq QuotaAdmissionStatus
admission_status_eq = record { beq = admission_status_beq; beq_iff = admission_status_beq_iff }

-- QUOTA_ADMISSION_TRANSITIONS: the statuses from which each status may be entered.
unfoldable pub quota_admission_transitions : QuotaAdmissionStatus → List QuotaAdmissionStatus
quota_admission_transitions admitted = []
quota_admission_transitions denied = pending ∷ reconcile_required ∷ []
quota_admission_transitions indeterminate = pending ∷ reserved ∷ []
quota_admission_transitions pending = []
quota_admission_transitions reconcile_required = pending ∷ indeterminate ∷ reserved ∷ []
quota_admission_transitions reserved = pending ∷ indeterminate ∷ reconcile_required ∷ []

unfoldable pub is_allowed_quota_admission_transition :
    QuotaAdmissionStatus → QuotaAdmissionStatus → Bool
unfolding quota_admission_transitions
is_allowed_quota_admission_transition from to = includes (quota_admission_transitions to) from

pub data AdmissionField : Type 0 where
  input_field user_id_field admission_id_field review_id_field mode_field fingerprint_field
        now_field idempotency_key_field idempotency_key_hash_field request_fingerprint_field
        fingerprint_version_field to_status_field :
      AdmissionField

pub data AdmissionError : Type 0 where
  input_error : AdmissionField → AdmissionError
  fingerprint_error : AdmissionField → AdmissionError
  conflict : AdmissionError
  not_found : AdmissionError
  transition_error : QuotaAdmissionStatus → QuotaAdmissionStatus → AdmissionError

pub record QuotaAdmissionRecord : Type 0 where
  pub id : String
  pub user_id : String
  pub idempotency_key_hash : String
  pub request_fingerprint_hash : Option String
  pub fingerprint_version : Option ℕ
  pub review_id : String
  pub mode : ReviewMode
  pub utc_day : String
  pub status : QuotaAdmissionStatus
  pub created_at : ℕ
  pub updated_at : ℕ

pub record CreateQuotaAdmissionRecordInput : Type 0 where
  pub id : String
  pub user_id : String
  pub idempotency_key_hash : String
  pub request_fingerprint_hash : Option String
  pub fingerprint_version : Option ℕ
  pub review_id : String
  pub mode : ReviewMode
  pub utc_day : String
  pub now : ℕ

pub record QuotaAdmissionCreateOrGetResult : Type 0 where
  pub created : Bool
  pub admission : QuotaAdmissionRecord
