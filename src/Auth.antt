-- ===== src/Auth.antt =====
-- apps/api/src/modules/auth/auth.types.ts. A `Date` is its number of milliseconds.
pub mod Repository
use repo_mentor.Prelude.{Bool, Option, String, false, true, ℕ}

pub data AuthUserRole : Type 0 where
  user_role admin_role : AuthUserRole

pub data AuthUserStatus : Type 0 where
  active_user disabled_user : AuthUserStatus

pub data AuthSessionStatus : Type 0 where
  active revoked : AuthSessionStatus

pub data AuthSessionRevocationReason : Type 0 where
  logout logout_all refresh_reuse expired admin : AuthSessionRevocationReason

-- `AuthUserConflictError`
pub data AuthError : Type 0 where
  user_conflict : AuthError

pub record AuthUserRecord : Type 0 where
  pub id : String
  pub email : String
  pub display_name : String
  pub password_hash : String
  pub role : AuthUserRole
  pub status : AuthUserStatus
  pub created_at : ℕ
  pub updated_at : ℕ

pub record AuthSessionRecord : Type 0 where
  pub id : String
  pub user_id : String
  pub refresh_token_hash : String
  pub refresh_token_issued_at : ℕ
  pub refresh_token_expires_at : ℕ
  pub last_used_at : Option ℕ
  pub user_agent : Option String
  pub ip_hash : Option String
  pub status : AuthSessionStatus
  pub revoked_at : Option ℕ
  pub revocation_reason : Option AuthSessionRevocationReason
  pub created_at : ℕ
  pub updated_at : ℕ

pub record CreateUserInput : Type 0 where
  pub id : String
  pub email : String
  pub display_name : String
  pub password_hash : String
  pub role : AuthUserRole
  pub status : AuthUserStatus

pub record ChangePasswordInput : Type 0 where
  pub user_id : String
  pub expected_password_hash : String
  pub next_password_hash : String
  pub now : ℕ

pub record CreateSessionInput : Type 0 where
  pub id : String
  pub user_id : String
  pub refresh_token_hash : String
  pub refresh_token_issued_at : ℕ
  pub refresh_token_expires_at : ℕ
  pub user_agent : Option String
  pub ip_hash : Option String

pub record RotateRefreshTokenInput : Type 0 where
  pub session_id : String
  pub expected_refresh_token_hash : String
  pub next_refresh_token_hash : String
  pub refresh_token_issued_at : ℕ
  pub refresh_token_expires_at : ℕ
  pub now : ℕ

pub data RefreshRotationResult : Type 0 where
  rotated : AuthSessionRecord → RefreshRotationResult
  reuse_detected : RefreshRotationResult
  not_active : RefreshRotationResult

unfoldable pub is_active : AuthSessionRecord → Bool
is_active session = elim session.status [ active ↦ true | revoked ↦ false ]

unfoldable pub is_active_user : AuthUserRecord → Bool
is_active_user user = elim user.status [ active_user ↦ true | disabled_user ↦ false ]
