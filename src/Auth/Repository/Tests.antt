-- ===== src/Auth/Repository/Tests.antt =====
-- Two sessions of one user and one of another, and the theorems at them.
use repo_mentor.Prelude.{
  string_eq, List, String, [], err, false, filter, length, ne_of_not_beq, none, refl, some, true,
  ◌∷◌, ◌≡◌, ◌≢◌,
}
use repo_mentor.Dict
use repo_mentor.Auth.{
  user_conflict, AuthSessionRecord, CreateUserInput, ChangePasswordInput, CreateSessionInput,
  RotateRefreshTokenInput, rotated, not_active, reuse_detected, user_role, active_user, logout,
  logout_all, is_active, is_active_user,
}
use repo_mentor.Auth.Repository.{
  Repository, empty, create_user, new_user, change_password, change_password_of, create_session,
  new_session, rotate_refresh_token, rotate_found, rotated_session, revoke_session, revoke_found,
  revoke_all_user_sessions, revoke_each, is_active_of, revoke_session_record, find_user_by_email,
  find_session_by_id,
}
use repo_mentor.Auth.Repository.Invariant.{
  Call, create_user_call, create_session_call, rotate_call, revoke_call, step, run,
  run-empty-HasUsers, HasUsers,
}
use repo_mentor.Auth.Repository.Laws.{
  revoke_all_user_sessions-effect, change_password-effect, password_of,
}
use repo_mentor.Auth.Repository.Revoked.{run-revoked, rotate-reuse}

auth : Unit {0}
unfolding empty create_user new_user change_password change_password_of create_session new_session
    rotate_refresh_token rotate_found revoke_session revoke_found revoke_all_user_sessions
    revoke_each is_active_of is_active is_active_user find_user_by_email find_session_by_id step run
    Dict.get Dict.set Dict.has
auth = tt

abbrev ann : CreateUserInput
ann = record {
  id = "ann";
  email = "ann@example.com";
  display_name = "Ann";
  password_hash = "hash1";
  role = user_role;
  status = active_user;
}

abbrev session_of : String → String → CreateSessionInput
session_of id user_id = record {
  id = id;
  user_id = user_id;
  refresh_token_hash = "token1";
  refresh_token_issued_at = 10;
  refresh_token_expires_at = 100;
  user_agent = none;
  ip_hash = none;
}

abbrev calls : List Call
calls =
    create_user_call ann 5
    ∷ create_session_call (session_of "s1" "ann")
    ∷ create_session_call (session_of "s2" "ann")
    ∷ create_session_call (session_of "s3" "bob")
    ∷ []

abbrev state : Repository
state = run empty calls

abbrev rotation : RotateRefreshTokenInput
rotation = record {
  session_id = "s1";
  expected_refresh_token_hash = "token1";
  next_refresh_token_hash = "token2";
  refresh_token_issued_at = 20;
  refresh_token_expires_at = 200;
  now = 20;
}

abbrev next_session : AuthSessionRecord
next_session = rotated_session (new_session (session_of "s1" "ann")) rotation

abbrev rotated_state : Repository
rotated_state = (rotate_refresh_token state rotation).0

s1_rotates : rotate_refresh_token state rotation ≡ (rotated_state, rotated next_session)
unfolding auth
s1_rotates = refl

two_revoked : (revoke_all_user_sessions state "ann" logout_all 30).1 ≡ 2
unfolding auth
two_revoked = refl

second_email_refused : create_user state (record ann { id = "eve" }) 9 ≡ err user_conflict
unfolding auth
second_email_refused = refl

abbrev password_change : ChangePasswordInput
password_change = record {
  user_id = "ann";
  expected_password_hash = "hash1";
  next_password_hash = "hash2";
  now = 40;
}

abbrev changed_state : Repository
changed_state = (change_password state password_change).0

ann_changes : change_password state password_change ≡ (changed_state, true)
unfolding auth
ann_changes = refl

abbrev logged_out : List Call
logged_out = create_session_call (session_of "s1" "ann") ∷ revoke_call "s1" logout 15 ∷ []

abbrev ended : AuthSessionRecord
ended = revoke_session_record (new_session (session_of "s1" "ann")) logout 15

s1_ended : Dict.get "s1" (run empty logged_out).sessions ≡ some ended
unfolding auth
s1_ended = refl

hashes_differ : rotation.next_refresh_token_hash ≢ rotation.expected_refresh_token_hash
hashes_differ = ne_of_not_beq "token2" "token1" refl

run-empty-HasUsers_example : HasUsers (run empty calls).users
run-empty-HasUsers_example = run-empty-HasUsers calls

revoke_all_user_sessions-effect_example :
    let r = revoke_all_user_sessions (run empty calls) "ann" logout_all 30 in
    ((k : String) (a : AuthSessionRecord)
      → Dict.get k r.0.sessions ≡ some a
      → is_active_of "ann" a ≡ false)
    × ((k : String) (a : AuthSessionRecord)
        → is_active_of "ann" a ≡ false
        → Dict.get k (run empty calls).sessions ≡ some a
        → Dict.get k r.0.sessions ≡ some a)
    × (r.1 ≡ length (filter (is_active_of "ann") (Dict.values (run empty calls).sessions)))
revoke_all_user_sessions-effect_example = revoke_all_user_sessions-effect calls "ann" logout_all 30

change_password-effect_example :
    (password_of (Dict.get "ann" (run empty calls).users) ≡ some "hash1")
    × (password_of (Dict.get "ann" changed_state.users) ≡ some "hash2")
    × ((k : String) (a : AuthSessionRecord)
        → Dict.get k changed_state.sessions ≡ some a
        → is_active_of "ann" a ≡ false)
    × ((k : String) (a : AuthSessionRecord)
        → is_active_of "ann" a ≡ false
        → Dict.get k (run empty calls).sessions ≡ some a
        → Dict.get k changed_state.sessions ≡ some a)
change_password-effect_example =
    change_password-effect calls changed_state password_change ann_changes

run-revoked_example :
    Dict.get "s1"
      (run
        (run empty logged_out)
        (rotate_call rotation ∷ create_session_call (session_of "s1" "bob") ∷ [])).sessions
    ≡ some ended
run-revoked_example =
    run-revoked logged_out (rotate_call rotation ∷ create_session_call (session_of "s1" "bob") ∷ [])
      "s1" ended s1_ended refl

rotate-reuse_example :
    let u = rotate_refresh_token rotated_state rotation in
    (u.1 ≡ reuse_detected)
    × (rotate_refresh_token (run u.0 calls) rotation ≡ (run u.0 calls, not_active))
rotate-reuse_example =
    rotate-reuse calls calls rotated_state rotation rotation rotation next_session s1_rotates
      hashes_differ refl refl refl
