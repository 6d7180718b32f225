-- ===== src/Auth/Repository.antt =====
-- apps/api/src/modules/auth/in-memory-auth.repository.ts. A method returns the new state with its
-- result, or the error that it throws, before which it writes nothing. A loop over the values of a `Map`
-- that sets entries already present visits the values as they were when it began.
pub mod Loop
pub mod Invariant
pub mod Laws
pub mod Revoked
mod Tests
use repo_mentor.Prelude.{
  Bool, List, Option, Result, String, [], any, err, false, find, if◌then◌else◌, nat_eq, none, not,
  ok, option_eq, some, string_eq, true, ℕ, ◌&&◌, ◌+◌, ◌==◌, ◌||◌, ◌∷◌,
}
use repo_mentor.Dict
use repo_mentor.Dict.{Dict}
use repo_mentor.Auth.{
  AuthError, user_conflict, AuthUserRecord, AuthSessionRecord, CreateUserInput, ChangePasswordInput,
  CreateSessionInput, RotateRefreshTokenInput, RefreshRotationResult, rotated, reuse_detected,
  not_active, AuthSessionRevocationReason, logout_all, refresh_reuse, active, revoked, is_active,
  is_active_user,
}

pub record Repository : Type 0 where
  pub sessions : Dict AuthSessionRecord
  pub users : Dict AuthUserRecord

unfoldable pub empty : Repository
empty = record { sessions = []; users = [] }

abbrev pub revoke_session_record :
    AuthSessionRecord → AuthSessionRevocationReason → ℕ → AuthSessionRecord
revoke_session_record session reason now = record session {
  revoked_at = some now;
  revocation_reason = some reason;
  status = revoked;
  updated_at = now;
}

unfoldable pub find_user_by_email : Repository → String → Option AuthUserRecord
find_user_by_email s email =
    find (λ (candidate : AuthUserRecord). candidate.email == email) (Dict.values s.users)

unfoldable pub find_user_by_id : Repository → String → Option AuthUserRecord
find_user_by_id s id = Dict.get id s.users

-- `now` is the time that the method reads.
unfoldable pub new_user : CreateUserInput → ℕ → AuthUserRecord
new_user input now = record {
  id = input.id;
  email = input.email;
  display_name = input.display_name;
  password_hash = input.password_hash;
  role = input.role;
  status = input.status;
  created_at = now;
  updated_at = now;
}

unfoldable pub create_user :
    Repository → CreateUserInput → ℕ → Result AuthError (Repository × AuthUserRecord)
create_user s input now =
    if Dict.has input.id s.users
      || any (λ (user : AuthUserRecord). user.email == input.email) (Dict.values s.users)
    then err user_conflict
    else ok (
      record s { users = Dict.set (new_user input now).id (new_user input now) s.users },
      new_user input now,
    )

-- An active session of the user.
unfoldable pub is_active_of : String → AuthSessionRecord → Bool
is_active_of user_id session = session.user_id == user_id && is_active session

-- The loop of `changePassword` and `revokeAllUserSessions`, with the count of the latter.
unfoldable pub revoke_each :
    String
    → AuthSessionRevocationReason
    → ℕ
    → List AuthSessionRecord
    → Dict AuthSessionRecord
    → Dict AuthSessionRecord × ℕ
revoke_each user_id reason now [] sessions = (sessions, 0)
revoke_each user_id reason now (session ∷ rest) sessions =
    let write =
      revoke_each user_id reason now rest
        (Dict.set session.id (revoke_session_record session reason now) sessions) in
    let skip = revoke_each user_id reason now rest sessions in
    if is_active_of user_id session then (write.0, write.1 + 1) else skip

unfoldable pub revoke_all_user_sessions :
    Repository → String → AuthSessionRevocationReason → ℕ → Repository × ℕ
revoke_all_user_sessions s user_id reason now =
    let loop = revoke_each user_id reason now (Dict.values s.sessions) s.sessions in
    (record s { sessions = loop.0 }, loop.1)

abbrev pub with_password : AuthUserRecord → ChangePasswordInput → AuthUserRecord
with_password user input = record user {
  password_hash = input.next_password_hash;
  updated_at = input.now;
}

unfoldable pub change_password_of :
    Repository → ChangePasswordInput → Option AuthUserRecord → Repository × Bool
change_password_of s input none = (s, false)
change_password_of s input (some user) =
    let loop = revoke_each user.id logout_all input.now (Dict.values s.sessions) s.sessions in
    if not (is_active_user user) || not (user.password_hash == input.expected_password_hash)
    then (s, false)
    else (
      record { sessions = loop.0; users = Dict.set user.id (with_password user input) s.users },
      true,
    )

unfoldable pub change_password : Repository → ChangePasswordInput → Repository × Bool
change_password s input = change_password_of s input (Dict.get input.user_id s.users)

unfoldable pub new_session : CreateSessionInput → AuthSessionRecord
new_session input = record {
  id = input.id;
  user_id = input.user_id;
  refresh_token_hash = input.refresh_token_hash;
  refresh_token_issued_at = input.refresh_token_issued_at;
  refresh_token_expires_at = input.refresh_token_expires_at;
  last_used_at = none;
  user_agent = input.user_agent;
  ip_hash = input.ip_hash;
  status = active;
  revoked_at = none;
  revocation_reason = none;
  created_at = input.refresh_token_issued_at;
  updated_at = input.refresh_token_issued_at;
}

unfoldable pub create_session :
    Repository → CreateSessionInput → Result AuthError (Repository × AuthSessionRecord)
create_session s input =
    if Dict.has input.id s.sessions
    then err user_conflict
    else ok (
      record s { sessions = Dict.set (new_session input).id (new_session input) s.sessions },
      new_session input,
    )

unfoldable pub find_session_by_id : Repository → String → Option AuthSessionRecord
find_session_by_id s id = Dict.get id s.sessions

abbrev pub rotated_session : AuthSessionRecord → RotateRefreshTokenInput → AuthSessionRecord
rotated_session session input = record session {
  last_used_at = some input.now;
  refresh_token_expires_at = input.refresh_token_expires_at;
  refresh_token_hash = input.next_refresh_token_hash;
  refresh_token_issued_at = input.refresh_token_issued_at;
  updated_at = input.now;
}

unfoldable pub rotate_found :
    Repository
    → RotateRefreshTokenInput
    → Option AuthSessionRecord
    → Repository × RefreshRotationResult
rotate_found s input none = (s, not_active)
rotate_found s input (some session) =
    let next = rotated_session session input in
    if not (is_active session)
    then (s, not_active)
    else if not (session.refresh_token_hash == input.expected_refresh_token_hash)
    then (
      record s {
        sessions =
            Dict.set session.id (revoke_session_record session refresh_reuse input.now) s.sessions;
      },
      reuse_detected,
    )
    else (record s { sessions = Dict.set next.id next s.sessions }, rotated next)

unfoldable pub rotate_refresh_token :
    Repository → RotateRefreshTokenInput → Repository × RefreshRotationResult
rotate_refresh_token s input = rotate_found s input (Dict.get input.session_id s.sessions)

unfoldable pub revoke_found :
    Repository → String → AuthSessionRevocationReason → ℕ → Option AuthSessionRecord → Repository
revoke_found s id reason now none = s
revoke_found s id reason now (some session) =
    if is_active session
    then record s { sessions = Dict.set id (revoke_session_record session reason now) s.sessions }
    else s

unfoldable pub revoke_session : Repository → String → AuthSessionRevocationReason → ℕ → Repository
revoke_session s id reason now = revoke_found s id reason now (Dict.get id s.sessions)
