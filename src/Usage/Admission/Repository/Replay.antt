-- ===== src/Usage/Admission/Repository/Replay.antt =====
-- One admission for one key of one user: what a repeated `createOrGet` returns.
use repo_mentor.Usage.Admission.Repository.Moves.{transition-Moved}
use repo_mentor.Prelude.{
  >>=-eq-ok, Bool-cases, Option-cases, String, arith, beq_refl, err, false, if◌then◌else◌, inl, inr,
  nat_eq, ok, option_eq, refl, some, string_eq, true, ℕ, ◌&&◌, ◌==◌, ◌∙◌, ◌≡◌,
}
use repo_mentor.Dict
use repo_mentor.Dict.Laws.{get-set_self}
use repo_mentor.Usage.Admission.{
  QuotaAdmissionStatus, conflict, QuotaAdmissionRecord, CreateQuotaAdmissionRecordInput,
  QuotaAdmissionCreateOrGetResult,
}
use repo_mentor.Usage.Admission.Repository.{
  transition_for_owner, resolve, Repository, hash_key, new_admission, check_input, replay, insert,
  create_or_get,
}

abbrev pub key_of : CreateQuotaAdmissionRecordInput → String
key_of input = hash_key input.user_id input.idempotency_key_hash

pub insert-ok :
    (s t : Repository) (input : CreateQuotaAdmissionRecordInput)
    (r : QuotaAdmissionCreateOrGetResult)
    → insert s input ≡ ok (t, r)
    → (Dict.has input.id s.by_id ≡ false)
      × (t ≡ record {
        by_hash = Dict.set (key_of input) (new_admission input) s.by_hash;
        by_id = Dict.set input.id (new_admission input) s.by_id;
      })
      × (r ≡ record { created = true; admission = new_admission input })
unfolding insert new_admission
insert-ok s t input r h = elim (Bool-cases (Dict.has input.id s.by_id)) [
  | inl taken ↦ cc (rw (taken, if◌then◌else◌) at h)
  | inr fresh ↦ let e = rw (fresh, if◌then◌else◌) at h in (fresh, cc, cc)
]

pub replay-ok :
    (s t : Repository) (input : CreateQuotaAdmissionRecordInput) (existing : QuotaAdmissionRecord)
    (r : QuotaAdmissionCreateOrGetResult)
    → replay s input existing ≡ ok (t, r)
    → (t ≡ s) × (r ≡ record { created = false; admission = existing })
unfolding replay
replay-ok s t input existing r h = ground arith

-- What `createOrGet` leaves under the key of its input.
stored_under_key :
    (s t : Repository) (input : CreateQuotaAdmissionRecordInput)
    (r : QuotaAdmissionCreateOrGetResult)
    → create_or_get s input ≡ ok (t, r)
    → Dict.get (key_of input) t.by_hash ≡ some r.admission
unfolding create_or_get resolve
stored_under_key s t input r h =
    let (_, checked, rest) = >>=-eq-ok (check_input input) _ h in
    elim (Option-cases (Dict.get (key_of input) s.by_hash)) [
      | inl fresh ↦
          let (_, et, er) = insert-ok s t input r (rw fresh at rest) in
          rw (et, er, get-set_self) refl
      | inr (existing, found) ↦
          let (et, er) = replay-ok s t input existing r (rw found at rest) in rw (et, er) found
    ]

-- A checked input whose key is stored is answered from the stored record alone.
replayed :
    (s : Repository) (input : CreateQuotaAdmissionRecordInput) (existing : QuotaAdmissionRecord)
    → Dict.get (key_of input) s.by_hash ≡ some existing
    → check_input input ≡ ok tt
    → create_or_get s input ≡ replay s input existing
unfolding create_or_get resolve
replayed s input existing found checked = rw (checked, found) refl

-- After a `createOrGet` has returned, another checked one with the same user and key hash changes nothing: it
-- returns the same record, as not created, if the fingerprint hash and version agree with that record, and it
-- is a conflict otherwise.
pub create_or_get-again :
    (s t : Repository) (input again : CreateQuotaAdmissionRecordInput)
    (r : QuotaAdmissionCreateOrGetResult)
    → create_or_get s input ≡ ok (t, r)
    → check_input again ≡ ok tt
    → again.user_id ≡ input.user_id
    → again.idempotency_key_hash ≡ input.idempotency_key_hash
    → create_or_get t again ≡ (
        if r.admission.request_fingerprint_hash == again.request_fingerprint_hash
          && r.admission.fingerprint_version == again.fingerprint_version
        then ok (t, record { created = false; admission = r.admission })
        else err conflict)
unfolding replay
create_or_get-again s t input again r h checked user key =
    let same_key : key_of again ≡ key_of input = cc in
    replayed t again r.admission (rw same_key (stored_under_key s t input r h)) checked

transition_keeps_by_hash :
    (s t : Repository) (user_id id : String) (to : QuotaAdmissionStatus) (now : ℕ)
    (a : QuotaAdmissionRecord)
    → transition_for_owner s user_id id to now ≡ ok (t, a)
    → t.by_hash ≡ s.by_hash
transition_keeps_by_hash s t user_id id to now a h =
    let (current, m) = transition-Moved s t user_id id to now a h in
    elim (m.effect) [ inl (_, same, _) ↦ rw same | inr (_, _, shape, _) ↦ rw shape refl ]

replay_same :
    (s : Repository) (input : CreateQuotaAdmissionRecordInput)
    → replay s input (new_admission input)
      ≡ ok (s, record { created = false; admission = new_admission input })
unfolding replay new_admission
replay_same s input =
    rw (beq_refl input.request_fingerprint_hash) (rw (beq_refl input.fingerprint_version) refl)

-- A transition is invisible to `createOrGet`: after one has changed an admission, a repeated `createOrGet`
-- with the same user, key hash and fingerprints still returns the record with the status that it had
-- when it was stored under its key.
pub create_or_get-stale :
    (s t u : Repository) (input : CreateQuotaAdmissionRecordInput) (user_id id : String)
    (to : QuotaAdmissionStatus) (now : ℕ) (moved : QuotaAdmissionRecord)
    → create_or_get s input ≡ ok (t, record { created = true; admission = new_admission input })
    → transition_for_owner t user_id id to now ≡ ok (u, moved)
    → create_or_get u input ≡ ok (u, record { created = false; admission = new_admission input })
unfolding create_or_get
create_or_get-stale s t u input user_id id to now moved created changed =
    let (_, checked, _) = >>=-eq-ok (check_input input) _ created in
    let found : Dict.get (key_of input) u.by_hash ≡ some (new_admission input) =
      rw (transition_keeps_by_hash t u user_id id to now moved changed)
        (stored_under_key s t input _ created) in
    replayed u input (new_admission input) found checked ∙ replay_same u input
