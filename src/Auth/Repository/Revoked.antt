-- ===== src/Auth/Repository/Revoked.antt =====
-- Sessions along sequences of calls: revocation is final, and a refresh token is used once.
use repo_mentor.Prelude.{
  Bool-cases, List, Option, Result, String, [], any, arith, beq_ne, err, false, if◌then◌else◌, inl,
  inr, is_some, nat_eq, none, not, ok, option_eq, refl, some, string_eq, sym, true, ℕ, ◌==◌, ◌||◌,
  ◌∙◌, ◌∷◌, ◌≡◌, ◌≢◌,
}
use mathlib.Core.Path.{subst}
use repo_mentor.Dict
use repo_mentor.Dict.{Dict}
use repo_mentor.Dict.Laws.{get-set_ne, get-set_self}
use repo_mentor.Auth.{
  AuthError, AuthSessionRecord, AuthUserRecord, AuthSessionRevocationReason, CreateUserInput,
  ChangePasswordInput, CreateSessionInput, RotateRefreshTokenInput, RefreshRotationResult, rotated,
  reuse_detected, not_active, logout_all, refresh_reuse, revoked, is_active, is_active_user,
}
use repo_mentor.Auth.Repository.{
  Repository, empty, create_user, change_password, change_password_of, create_session,
  rotate_refresh_token, rotate_found, revoke_session, revoke_found, revoke_all_user_sessions,
  revoke_session_record, rotated_session, new_session, is_active_of,
}
use repo_mentor.Auth.Repository.Laws.{loop-keeps}
use repo_mentor.Auth.Repository.Invariant.{
  rotate-IsValid, IsValid, Call, create_user_call, change_password_call, create_session_call,
  rotate_call, revoke_call, revoke_all_call, state_after, step, run, reached-IsValid, step-IsValid,
}

inactive_of :
    (user_id : String) (a : AuthSessionRecord)
    → is_active a ≡ false
    → is_active_of user_id a ≡ false
unfolding is_active_of
inactive_of user_id a h = ground arith

-- An inactive session stays as it is, call by call.
abbrev Keeps : Dict AuthSessionRecord → String → AuthSessionRecord → Type 0
Keeps d k a = Dict.get k d ≡ some a

set_other :
    (d : Dict AuthSessionRecord) (j k : String) (a b : AuthSessionRecord)
    → j ≢ k
    → Keeps d k a
    → Keeps (Dict.set j b d) k a
set_other d j k a b other found = get-set_ne j k b d (beq_ne j k other) ∙ found

create_session-Keeps :
    (s t : Repository) (input : CreateSessionInput) (b : AuthSessionRecord) (k : String)
    (a : AuthSessionRecord)
    → Keeps s.sessions k a
    → create_session s input ≡ ok (t, b)
    → Keeps t.sessions k a
unfolding create_session new_session Dict.has
create_session-Keeps s t input b k a found h =
    elim (Bool-cases (is_some (Dict.get input.id s.sessions))) [
      | inl taken ↦ cc (rw (taken, if◌then◌else◌) at h)
      | inr fresh ↦
          let shape : Dict.set input.id (new_session input) s.sessions ≡ t.sessions =
            cc (rw (fresh, if◌then◌else◌) at h) in
          let other : input.id ≢ k = λ e. cc (rw (e, found) at fresh) in
          rw (← shape) (set_other s.sessions input.id k a (new_session input) other found)
    ]

change_password_of-Keeps :
    (s : Repository) (input : ChangePasswordInput) (user : Option AuthUserRecord) (k : String)
    (a : AuthSessionRecord)
    → IsValid s
    → is_active a ≡ false
    → Keeps s.sessions k a
    → Keeps (change_password_of s input user).0.sessions k a
unfolding change_password_of
change_password_of-Keeps s input none k a v ended found = found
change_password_of-Keeps s input (some user) k a v ended found =
    elim (Bool-cases
      (not (is_active_user user) || not (user.password_hash == input.expected_password_hash))) [
        | inl refused ↦ rw (refused, if◌then◌else◌) found
        | inr accepted ↦
            rw (accepted, if◌then◌else◌)
              (loop-keeps s user.id logout_all input.now k a v (inactive_of user.id a ended) found)
      ]

rotate_found-Keeps :
    (s : Repository) (input : RotateRefreshTokenInput) (session : Option AuthSessionRecord)
    (k : String) (a : AuthSessionRecord)
    → IsValid s
    → Dict.get input.session_id s.sessions ≡ session
    → is_active a ≡ false
    → Keeps s.sessions k a
    → Keeps (rotate_found s input session).0.sessions k a
unfolding rotate_found
rotate_found-Keeps s input none k a v stored ended found = found
rotate_found-Keeps s input (some b) k a v stored ended found = elim (Bool-cases (is_active b)) [
  | inl live ↦
      let other : b.id ≢ k = λ e.
        let named : input.session_id ≡ k = sym (v.sessions.ids input.session_id b stored) ∙ e in
        let both : Dict.get k s.sessions ≡ some b =
          subst (λ i. Dict.get i s.sessions ≡ some b) named stored in
        let same : a ≡ b = cc (both, found) in cc (rw same at ended, live) in
      elim (Bool-cases (b.refresh_token_hash == input.expected_refresh_token_hash)) [
        | inl same ↦
            rw (live, same, if◌then◌else◌)
              (set_other s.sessions b.id k a (rotated_session b input) other found)
        | inr differs ↦
            rw (live, differs, if◌then◌else◌)
              (set_other s.sessions b.id k a (revoke_session_record b refresh_reuse input.now) other
                found)
      ]
  | inr stopped ↦ rw (stopped, if◌then◌else◌) found
]

revoke_found-Keeps :
    (s : Repository) (id : String) (reason : AuthSessionRevocationReason) (now : ℕ)
    (session : Option AuthSessionRecord) (k : String) (a : AuthSessionRecord)
    → Dict.get id s.sessions ≡ session
    → is_active a ≡ false
    → Keeps s.sessions k a
    → Keeps (revoke_found s id reason now session).sessions k a
unfolding revoke_found
revoke_found-Keeps s id reason now none k a stored ended found = found
revoke_found-Keeps s id reason now (some b) k a stored ended found =
    elim (Bool-cases (is_active b)) [
      | inl live ↦
          let other : id ≢ k = λ e.
            let both : Dict.get k s.sessions ≡ some b =
              subst (λ i. Dict.get i s.sessions ≡ some b) e stored in
            let same : a ≡ b = cc (both, found) in cc (rw same at ended, live) in
          rw (live, if◌then◌else◌)
            (set_other s.sessions id k a (revoke_session_record b reason now) other found)
      | inr stopped ↦ rw (stopped, if◌then◌else◌) found
    ]

state_after-Keeps {ℓ} :
    {A : Type ℓ} (s : Repository) (m : Result AuthError (Repository × A)) (k : String)
    (a : AuthSessionRecord)
    → Keeps s.sessions k a
    → ((t : Repository) (r : A) → m ≡ ok (t, r) → Keeps t.sessions k a)
    → Keeps (state_after s m).sessions k a
state_after-Keeps s (ok (t, r)) k a found h = h t r refl
state_after-Keeps s (err e) k a found h = found

create_user-Keeps :
    (s t : Repository) (input : CreateUserInput) (now : ℕ) (u : AuthUserRecord)
    → create_user s input now ≡ ok (t, u)
    → t.sessions ≡ s.sessions
unfolding create_user
create_user-Keeps s t input now u h =
    elim (Bool-cases (
      Dict.has input.id s.users
      || any (λ (user : AuthUserRecord). user.email == input.email) (Dict.values s.users))) [
        | inl refused ↦ cc (rw (refused, if◌then◌else◌) at h)
        | inr free ↦ cc (rw (free, if◌then◌else◌) at h)
      ]

step-Keeps :
    (s : Repository) (c : Call) (k : String) (a : AuthSessionRecord)
    → IsValid s
    → is_active a ≡ false
    → Keeps s.sessions k a
    → Keeps (step s c).sessions k a
unfolding step change_password rotate_refresh_token revoke_session revoke_all_user_sessions
step-Keeps s (create_user_call input now) k a v ended found =
    state_after-Keeps s (create_user s input now) k a found
      λ t u h. rw (create_user-Keeps s t input now u h) found
step-Keeps s (change_password_call input) k a v ended found =
    change_password_of-Keeps s input (Dict.get input.user_id s.users) k a v ended found
step-Keeps s (create_session_call input) k a v ended found =
    state_after-Keeps s (create_session s input) k a found
      λ t b h. create_session-Keeps s t input b k a found h
step-Keeps s (rotate_call input) k a v ended found =
    rotate_found-Keeps s input (Dict.get input.session_id s.sessions) k a v refl ended found
step-Keeps s (revoke_call id reason now) k a v ended found =
    revoke_found-Keeps s id reason now (Dict.get id s.sessions) k a refl ended found
step-Keeps s (revoke_all_call user_id reason now) k a v ended found =
    loop-keeps s user_id reason now k a v (inactive_of user_id a ended) found

run-Keeps :
    (s : Repository) (cs : List Call) (k : String) (a : AuthSessionRecord)
    → IsValid s
    → is_active a ≡ false
    → Keeps s.sessions k a
    → Keeps (run s cs).sessions k a
unfolding run
run-Keeps s [] k a v ended found = found
run-Keeps s (c ∷ cs) k a v ended found =
    run-Keeps (step s c) cs k a (step-IsValid s c v) ended (step-Keeps s c k a v ended found)

revoked-ended : (a : AuthSessionRecord) → a.status ≡ revoked → is_active a ≡ false
unfolding is_active
revoked-ended a h = rw h refl

-- A session that has been revoked stays exactly as it is, whatever calls follow.
pub run-revoked :
    (before after : List Call) (k : String) (a : AuthSessionRecord)
    → Dict.get k (run empty before).sessions ≡ some a
    → a.status ≡ revoked
    → Dict.get k (run (run empty before) after).sessions ≡ some a
run-revoked before after k a found status =
    run-Keeps (run empty before) after k a (reached-IsValid before) (revoked-ended a status) found

ended-not_active :
    (s : Repository) (input : RotateRefreshTokenInput) (a : AuthSessionRecord)
    → Dict.get input.session_id s.sessions ≡ some a
    → is_active a ≡ false
    → rotate_refresh_token s input ≡ (s, not_active)
unfolding rotate_refresh_token rotate_found
ended-not_active s input a found ended = rw (found, ended) refl

rotated-stored :
    (s t : Repository) (input : RotateRefreshTokenInput) (session : Option AuthSessionRecord)
    (next : AuthSessionRecord)
    → rotate_found s input session ≡ (t, rotated next)
    → (Dict.get next.id t.sessions ≡ some next)
      × (is_active next ≡ true)
      × (next.refresh_token_hash ≡ input.next_refresh_token_hash)
      × ((b : AuthSessionRecord) × (session ≡ some b) × (next.id ≡ b.id))
unfolding rotate_found is_active
rotated-stored s t input none next h = cc
rotated-stored s t input (some b) next h = elim (Bool-cases (is_active b)) [
  | inl live ↦ elim (Bool-cases (b.refresh_token_hash == input.expected_refresh_token_hash)) [
    | inl same ↦
        let both = rw (live, same, if◌then◌else◌) at h in
        let e : rotated_session b input ≡ next = cc in
        let shape : record s { sessions = Dict.set b.id (rotated_session b input) s.sessions } ≡ t =
          cc in
        rw (← e) (
          rw (← shape) (get-set_self b.id (rotated_session b input) s.sessions),
          live,
          refl,
          (b, refl, refl),
        )
    | inr differs ↦ cc (rw (live, differs, if◌then◌else◌) at h)
  ]
  | inr ended ↦ cc (rw (ended, if◌then◌else◌) at h)
]

reuse :
    (s : Repository) (input : RotateRefreshTokenInput) (a : AuthSessionRecord)
    → Dict.get input.session_id s.sessions ≡ some a
    → a.id ≡ input.session_id
    → is_active a ≡ true
    → a.refresh_token_hash ≢ input.expected_refresh_token_hash
    → ((rotate_refresh_token s input).1 ≡ reuse_detected)
      × (Dict.get input.session_id (rotate_refresh_token s input).0.sessions
          ≡ some (revoke_session_record a refresh_reuse input.now))
unfolding rotate_refresh_token rotate_found
reuse s input a found named live other =
    let differs = beq_ne a.refresh_token_hash input.expected_refresh_token_hash other in
    let ended = revoke_session_record a refresh_reuse input.now in
    rw (found, live, differs, if◌then◌else◌)
      (
        refl,
        subst (λ i. Dict.get i (Dict.set a.id ended s.sessions) ≡ some ended) named
            (get-set_self a.id ended s.sessions),
      )

-- A refresh token is used once: after a rotation has replaced it by another, presenting it again is detected as
-- a reuse, and from then on, whatever calls follow, every rotation of that session is refused and changes
-- nothing.
pub rotate-reuse :
    (before after : List Call) (t : Repository) (input replay again : RotateRefreshTokenInput)
    (next : AuthSessionRecord)
    → rotate_refresh_token (run empty before) input ≡ (t, rotated next)
    → input.next_refresh_token_hash ≢ input.expected_refresh_token_hash
    → replay.session_id ≡ input.session_id
    → replay.expected_refresh_token_hash ≡ input.expected_refresh_token_hash
    → again.session_id ≡ input.session_id
    → let u = rotate_refresh_token t replay in
      (u.1 ≡ reuse_detected)
      × (rotate_refresh_token (run u.0 after) again ≡ (run u.0 after, not_active))
unfolding rotate_refresh_token
rotate-reuse before after t input replay again next h fresh same_session same_token same_again =
    let s = run empty before in
    let v = reached-IsValid before in
    let (stored, live, token, (b, found, id)) =
      rotated-stored s t input (Dict.get input.session_id s.sessions) next h in
    let named : next.id ≡ replay.session_id =
      id ∙ v.sessions.ids input.session_id b found ∙ sym same_session in
    let presented : Dict.get replay.session_id t.sessions ≡ some next =
      subst (λ i. Dict.get i t.sessions ≡ some next) named stored in
    let (caught, kept) =
      reuse t replay next presented named live λ e. fresh (sym token ∙ e ∙ same_token) in
    let valid : IsValid t =
      subst (λ (x : Repository × RefreshRotationResult). IsValid x.0) h
        (rotate-IsValid s input v) in
    let u = (rotate_refresh_token t replay).0 in
    let ended = revoke_session_record next refresh_reuse replay.now in
    let still =
      run-Keeps u after replay.session_id ended (rotate-IsValid t replay valid)
        (revoked-ended ended refl) kept in
    (
      caught,
      ended-not_active (run u after) again ended
          (subst (λ i. Dict.get i (run u after).sessions ≡ some ended)
            (same_session ∙ sym same_again) still)
          (revoked-ended ended refl),
    )
