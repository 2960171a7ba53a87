-- ===== src/Model/Accounts.antt =====
-- users, roles and the opaque tokens (src/users/entities, src/roles/entities, src/auth/entities)
use mentos_backend.Common.{ℕ, Bool, true, false, Option, List, Text}

pub data UserStatus : Type 0 where
  active invited suspended : UserStatus

pub record Role : Type 0 where
  pub id : ℕ
  pub code : Text
  pub name : Text
  pub description : Text
  pub perms : List Text
  pub is_system : Bool

pub record User : Type 0 where
  pub id : ℕ
  pub code : Text
  pub full_name : Text
  pub email : Text
  pub password_hash : Option Text
  pub role_id : ℕ
  pub status : UserStatus
  pub mfa_enabled : Bool
  pub last_login_at : Option ℕ
  pub token_version : ℕ

pub record RefreshToken : Type 0 where
  pub id : ℕ
  pub token_hash : Text
  pub user_id : ℕ
  pub expires_at : ℕ
  pub revoked_at : Option ℕ
  pub replaced_by_token_hash : Option Text
  pub user_agent : Option Text
  pub ip : Option Text

pub data UserTokenPurpose : Type 0 where
  invite password_reset : UserTokenPurpose

abbrev pub same_purpose : UserTokenPurpose → UserTokenPurpose → Bool
same_purpose UserTokenPurpose.invite UserTokenPurpose.invite = true
same_purpose UserTokenPurpose.password_reset UserTokenPurpose.password_reset = true
same_purpose _ _ = false

pub record UserToken : Type 0 where
  pub id : ℕ
  pub token_hash : Text
  pub user_id : ℕ
  pub purpose : UserTokenPurpose
  pub expires_at : ℕ
  pub used_at : Option ℕ
