-- ===== src/Usage/Admission/Repository/Moves.antt =====
-- The ways in which `transitionForOwner` returns.
use repo_mentor.Prelude.{
  >>=-eq-ok, Bool-cases, Option, Option-cases, String, eq_of_beq, if◌then◌else◌, inl, inr, nat_eq,
  none, ok, option_eq, refl, some, string_eq, true, ℕ, ◌==◌, ◌≡◌, ◌≢◌, ◌⊎◌,
}
use repo_mentor.Dict
use repo_mentor.Usage.Admission.{
  admission_status_eq, admission_id_field, user_id_field, admission_status_beq_iff,
  QuotaAdmissionStatus, QuotaAdmissionRecord, is_allowed_quota_admission_transition,
}
use repo_mentor.Usage.Admission.Inputs.{assert_safe_opaque_id}
use repo_mentor.Usage.Admission.Repository.{
  Repository, owned, transition_found, transition_stored, transition_for_owner,
}

abbrev pub moved_to : QuotaAdmissionRecord → QuotaAdmissionStatus → ℕ → QuotaAdmissionRecord
moved_to current to now = record current { status = to; updated_at = now }

-- The admission that a transition found, and what it made of it.
pub record Moved (s t : Repository) (user_id id : String) (to : QuotaAdmissionStatus) (now : ℕ)
    (a current : QuotaAdmissionRecord) : Type 0 where
  pub found : Dict.get id s.by_id ≡ some current
  pub owner : current.user_id ≡ user_id
  pub effect :
      ((current.status ≡ to) × (t ≡ s) × (a ≡ current))
      ⊎ ((current.status ≢ to)
          × (is_allowed_quota_admission_transition current.status to ≡ true)
          × (t ≡ record s { by_id = Dict.set id (moved_to current to now) s.by_id })
          × (a ≡ moved_to current to now))

owned-some :
    (user_id : String) (o : Option QuotaAdmissionRecord) (a : QuotaAdmissionRecord)
    → owned user_id o ≡ some a
    → (o ≡ some a) × (a.user_id ≡ user_id)
unfolding owned
owned-some user_id none a h = cc
owned-some user_id (some b) a h = elim (Bool-cases (b.user_id == user_id)) [
  | inl mine ↦
      let e : b ≡ a = cc (rw (mine, if◌then◌else◌) at h) in
      rw (← e) (refl, eq_of_beq b.user_id user_id mine)
  | inr foreign ↦ cc (rw (foreign, if◌then◌else◌) at h)
]

transition_found-ok :
    (s t : Repository) (id : String) (to : QuotaAdmissionStatus) (now : ℕ)
    (a current : QuotaAdmissionRecord)
    → transition_found s id to now current ≡ ok (t, a)
    → ((current.status ≡ to) × (t ≡ s) × (a ≡ current))
      ⊎ ((current.status ≢ to)
          × (is_allowed_quota_admission_transition current.status to ≡ true)
          × (t ≡ record s { by_id = Dict.set id (moved_to current to now) s.by_id })
          × (a ≡ moved_to current to now))
unfolding transition_found
transition_found-ok s t id to now a current h = elim (Bool-cases (current.status == to)) [
  | inl there ↦
      let e = rw (there, if◌then◌else◌) at h in inl (eq_of_beq current.status to there, cc, cc)
  | inr away ↦ elim (Bool-cases (is_allowed_quota_admission_transition current.status to)) [
    | inl allowed ↦
        let e = rw (away, allowed, if◌then◌else◌) at h in
        inr (λ same. cc ((admission_status_beq_iff current.status to).1 same), allowed, cc, cc)
    | inr refused ↦ cc (rw (away, refused, if◌then◌else◌) at h)
  ]
]

pub transition-Moved :
    (s t : Repository) (user_id id : String) (to : QuotaAdmissionStatus) (now : ℕ)
    (a : QuotaAdmissionRecord)
    → transition_for_owner s user_id id to now ≡ ok (t, a)
    → (current : QuotaAdmissionRecord) × Moved s t user_id id to now a current
unfolding transition_for_owner transition_stored
transition-Moved s t user_id id to now a h =
    let (_, _, h₁) = >>=-eq-ok (assert_safe_opaque_id user_id user_id_field) _ h in
    let (_, _, h₂) = >>=-eq-ok (assert_safe_opaque_id id admission_id_field) _ h₁ in
    elim (Option-cases (owned user_id (Dict.get id s.by_id))) [
      | inl missing ↦ cc (rw missing at h₂)
      | inr (current, mine) ↦
          let (found, owner) = owned-some user_id (Dict.get id s.by_id) current mine in
          (
            current,
            record {
              found = found;
              owner = owner;
              effect = transition_found-ok s t id to now a current (rw mine at h₂);
            },
          )
    ]
