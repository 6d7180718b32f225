-- ===== src/Usage/Admission/Repository/Lifecycle.antt =====
-- The life of an admission over any sequence of calls.
use repo_mentor.Prelude.{
  >>=-eq-ok, Bool-cases, List, Option-cases, Result, String, [], arith, beq_ne, eq_of_beq, err, inl,
  inr, nat_eq, ok, option_eq, refl, some, string_eq, true, ℕ, ◌==◌, ◌∙◌, ◌∷◌, ◌≡◌, ◌≢◌,
}
use repo_mentor.Dict
use repo_mentor.Dict.Laws.{get-set, get-set_ne}
use repo_mentor.Usage.Admission.{
  QuotaAdmissionStatus, pending, admitted, denied, AdmissionError, QuotaAdmissionRecord,
  CreateQuotaAdmissionRecordInput, QuotaAdmissionCreateOrGetResult,
  is_allowed_quota_admission_transition,
}
use repo_mentor.Usage.Admission.Repository.{
  Repository, check_input, new_admission, resolve, create_or_get, transition_for_owner,
}
use repo_mentor.Usage.Admission.Repository.Moves.{transition-Moved, moved_to}
use repo_mentor.Usage.Admission.Repository.Replay.{insert-ok, replay-ok, key_of}

-- The statuses that moves of the table lead to.
pub data Reaches (from : QuotaAdmissionStatus) : QuotaAdmissionStatus → Type 0 where
  here : Reaches from from
  move :
      {via to : QuotaAdmissionStatus}
      → Reaches from via
      → is_allowed_quota_admission_transition via to ≡ true
      → Reaches from to

pub Reaches-trans : {a b c : QuotaAdmissionStatus} → Reaches a b → Reaches b c → Reaches a c
Reaches-trans r here = r
Reaches-trans r (move s allowed) = move (Reaches-trans r s) allowed

edge_limits :
    (from to : QuotaAdmissionStatus)
    → is_allowed_quota_admission_transition from to ≡ true
    → (from ≢ denied) × (from ≢ admitted) × (to ≢ pending) × (to ≢ admitted)
unfolding is_allowed_quota_admission_transition
edge_limits from to h = ground arith

-- A denied admission stays denied, a status other than pending does not lead back to pending, and no
-- status but admitted itself leads to admitted.
pub Reaches-limits :
    (from to : QuotaAdmissionStatus)
    → Reaches from to
    → (from ≡ denied → to ≡ denied)
      × (from ≡ admitted → to ≡ admitted)
      × (from ≢ pending → to ≢ pending)
      × (from ≢ admitted → to ≢ admitted)
Reaches-limits from to here = (λ e. e, λ e. e, λ h. h, λ h. h)
Reaches-limits from to (move {via} r allowed) =
    let (still_denied, still_admitted, _, _) = Reaches-limits from via r in
    let (not_denied, not_admitted, not_pending, never) = edge_limits via to allowed in
    (
      λ e. absurd (not_denied (still_denied e)),
      λ e. absurd (not_admitted (still_admitted e)),
      λ _. not_pending,
      λ _. never,
    )

-- What no call changes of an admission.
pub record Keeps (a b : QuotaAdmissionRecord) : Type 0 where
  pub id : b.id ≡ a.id
  pub user_id : b.user_id ≡ a.user_id
  pub idempotency_key_hash : b.idempotency_key_hash ≡ a.idempotency_key_hash
  pub request_fingerprint_hash : b.request_fingerprint_hash ≡ a.request_fingerprint_hash
  pub fingerprint_version : b.fingerprint_version ≡ a.fingerprint_version
  pub review_id : b.review_id ≡ a.review_id
  pub mode : b.mode ≡ a.mode
  pub utc_day : b.utc_day ≡ a.utc_day
  pub created_at : b.created_at ≡ a.created_at
  pub status : Reaches a.status b.status

Keeps-refl : (a : QuotaAdmissionRecord) → Keeps a a
Keeps-refl a = search here

Keeps-trans : (a b c : QuotaAdmissionRecord) → Keeps a b → Keeps b c → Keeps a c
Keeps-trans a b c h k = record {
  id = k.id ∙ h.id;
  user_id = k.user_id ∙ h.user_id;
  idempotency_key_hash = k.idempotency_key_hash ∙ h.idempotency_key_hash;
  request_fingerprint_hash = k.request_fingerprint_hash ∙ h.request_fingerprint_hash;
  fingerprint_version = k.fingerprint_version ∙ h.fingerprint_version;
  review_id = k.review_id ∙ h.review_id;
  mode = k.mode ∙ h.mode;
  utc_day = k.utc_day ∙ h.utc_day;
  created_at = k.created_at ∙ h.created_at;
  status = Reaches-trans h.status k.status;
}

moved_to-Keeps :
    (a : QuotaAdmissionRecord) (to : QuotaAdmissionStatus) (now : ℕ)
    → is_allowed_quota_admission_transition a.status to ≡ true
    → Keeps a (moved_to a to now)
moved_to-Keeps a to now allowed = record {
  id = refl;
  user_id = refl;
  idempotency_key_hash = refl;
  request_fingerprint_hash = refl;
  fingerprint_version = refl;
  review_id = refl;
  mode = refl;
  utc_day = refl;
  created_at = refl;
  status = move here allowed;
}

-- Calls of the two methods that write.
pub data Call : Type 0 where
  create_call : CreateQuotaAdmissionRecordInput → Call
  move_call : String → String → QuotaAdmissionStatus → ℕ → Call

abbrev pub state_after {ℓ} :
    {A : Type ℓ} → Repository → Result AdmissionError (Repository × A) → Repository
state_after s (ok (t, _)) = t
state_after s (err e) = s

unfoldable pub step : Repository → Call → Repository
step s (create_call input) = state_after s (create_or_get s input)
step s (move_call user_id id to now) = state_after s (transition_for_owner s user_id id to now)

unfoldable pub run : Repository → List Call → Repository
unfolding step
run s [] = s
run s (c ∷ cs) = run (step s c) cs

-- The admission `a` of this id is still there, with the same identity and a status that its own leads to.
abbrev pub Kept : Repository → String → QuotaAdmissionRecord → Type 0
Kept t id a = (b : QuotaAdmissionRecord) × (Dict.get id t.by_id ≡ some b) × Keeps a b

state_after-Kept {ℓ} :
    {A : Type ℓ} (s : Repository) (m : Result AdmissionError (Repository × A)) (id : String)
    (a : QuotaAdmissionRecord)
    → Dict.get id s.by_id ≡ some a
    → ((t : Repository) (r : A) → m ≡ ok (t, r) → Kept t id a)
    → Kept (state_after s m) id a
state_after-Kept s (ok (t, r)) id a found h = h t r refl
state_after-Kept s (err e) id a found h = (a, found, Keeps-refl a)

create-Kept :
    (s t : Repository) (input : CreateQuotaAdmissionRecordInput)
    (r : QuotaAdmissionCreateOrGetResult) (id : String) (a : QuotaAdmissionRecord)
    → Dict.get id s.by_id ≡ some a
    → create_or_get s input ≡ ok (t, r)
    → Kept t id a
unfolding create_or_get resolve Dict.has
create-Kept s t input r id a found h =
    let (_, _, rest) = >>=-eq-ok (check_input input) _ h in
    elim (Option-cases (Dict.get (key_of input) s.by_hash)) [
      | inl fresh ↦
          let (absent, shape, _) = insert-ok s t input r (rw fresh at rest) in
          let other : input.id ≢ id = λ e. cc (rw (e, found) at absent) in
          (
            a,
            rw
                (
                  shape,
                  get-set_ne input.id id (new_admission input) s.by_id (beq_ne input.id id other),
                )
                found,
            Keeps-refl a,
          )
      | inr (existing, stored) ↦
          let (same, _) = replay-ok s t input existing r (rw stored at rest) in
          (a, rw same found, Keeps-refl a)
    ]

move-Kept :
    (s t : Repository) (user_id j : String) (to : QuotaAdmissionStatus) (now : ℕ)
    (moved : QuotaAdmissionRecord) (id : String) (a : QuotaAdmissionRecord)
    → Dict.get id s.by_id ≡ some a
    → transition_for_owner s user_id j to now ≡ ok (t, moved)
    → Kept t id a
move-Kept s t user_id j to now moved id a found h =
    let (current, m) = transition-Moved s t user_id j to now moved h in
    elim (m.effect) [
      | inl (_, same, _) ↦ (a, rw same found, Keeps-refl a)
      | inr (_, allowed, shape, _) ↦ elim (Bool-cases (j == id)) [
        | inl here_too ↦
            let e : j ≡ id = eq_of_beq j id here_too in
            let found_j : Dict.get j s.by_id ≡ some a = rw e found in
            let one : current ≡ a = cc (m.found, found_j) in
            (
              moved_to current to now,
              rw (shape, get-set, here_too) refl,
              rw (← one) (moved_to-Keeps current to now allowed),
            )
        | inr other ↦ (a, rw (shape, get-set, other) found, Keeps-refl a)
      ]
    ]

step-Kept :
    (s : Repository) (c : Call) (id : String) (a : QuotaAdmissionRecord)
    → Dict.get id s.by_id ≡ some a
    → Kept (step s c) id a
unfolding step
step-Kept s (create_call input) id a found =
    state_after-Kept s (create_or_get s input) id a found
      λ t r h. create-Kept s t input r id a found h
step-Kept s (move_call user_id j to now) id a found =
    state_after-Kept s (transition_for_owner s user_id j to now) id a found
      λ t r h. move-Kept s t user_id j to now r id a found h

-- Whatever calls are made, a stored admission stays under its id with the same owner, key hash,
-- fingerprint, review id, mode, day and creation time, and its status is one that the table's moves
-- reach from its status before: no call overwrites or forgets it.
pub run-Kept :
    (s : Repository) (cs : List Call) (id : String) (a : QuotaAdmissionRecord)
    → Dict.get id s.by_id ≡ some a
    → Kept (run s cs) id a
unfolding run
run-Kept s [] id a found = (a, found, Keeps-refl a)
run-Kept s (c ∷ cs) id a found =
    let (b, found_b, keeps) = step-Kept s c id a found in
    let (d, found_d, more) = run-Kept (step s c) cs id b found_b in
    (d, found_d, Keeps-trans a b d keeps more)
